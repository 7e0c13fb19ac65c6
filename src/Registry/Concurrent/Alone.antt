-- ===== src/Registry/Concurrent/Alone.antt =====
-- src/connection/registry.rs: a method that nothing interrupts does what its model in Registry does.
use turbocable_server.Prelude.{
  ℕ, zero, suc, ◌≤◌, ◌<◌, ◌≡◌, refl, sym, ◌∙◌, ap, subst, Bool, [], Text, contains, arith,
  Option-cases, Bool-cases, inl, inr, nat_eq, text_eq,
}
use turbocable_server.Prelude.Dict.{get, remove}
use turbocable_server.Registry.{
  Registry, allocate_id, register, subscribe, unsubscribe, deregister, forget_stream,
  remove_from_streams, push_subscriber,
}
use turbocable_server.Registry.Spec.{
  Call, connect, subscribes, unsubscribes, deregisters, connect_new,
}
use turbocable_server.Registry.Spec as spec
use turbocable_server.Registry.Concurrent.{
  purging, Shared, begins, begin, continue, step, run, begin_subscribe, begin_unsubscribe,
  begin_deregister, trim, with_streams, joining, leaving_empty, forgetting,
}
use turbocable_server.Registry.Concurrent.Quiet.{goes_on, weights}
use turbocable_server.Registry.Concurrent.Purges.{
  quiet, only, stays_quiet, trimmed_empty, trimmed_full, purges_alone, joins_alone, forgets_alone,
  leaves_alone,
}

-- What a call is about has an identifier.
abbrev pub IsKnown : Call → Registry → Type 0
IsKnown (connect _ _ _) r = Unit
IsKnown (subscribes _ _) r = Unit
IsKnown (unsubscribes _ _) r = Unit
IsKnown (deregisters c) r = c < r.next_id

-- The state after the first access of a call.
abbrev pub begun : Call → Registry → Shared
begun call r = step (begins call) (quiet r)

from :
    (n : ℕ) (st st' : Shared) (r : Registry)
    → st ≡ st'
    → weights st.tasks ≤ n
    → (weights st'.tasks ≤ n → run (goes_on n) st' ≡ quiet r)
    → run (goes_on n) st ≡ quiet r
from n st st' r e h next =
    ap (run (goes_on n)) e ∙ next (subst (λ (x : Shared). weights x.tasks ≤ n) e h)

deregisters_alone :
    (c : ℕ) (r : Registry) (n : ℕ)
    → c < r.next_id
    → weights (begun (deregisters c) r).tasks ≤ n
    → run (goes_on n) (begun (deregisters c) r) ≡ quiet (deregister c r)
unfolding step begin begin_deregister deregister remove_from_streams
deregisters_alone c r n old h = elim (Option-cases (get c r.conn_streams)) [
  | inl e ↦
      from n (begun (deregisters c) r) (only (purging c []) r) _ (ground arith) h
        (λ h'. purges_alone c [] r n (omega arith) ∙ ground arith)
  | inr (names, e) ↦
      let r' = record r { conn_streams = remove c r.conn_streams } in
      from n (begun (deregisters c) r) (only (purging c names) r') _ (ground arith) h
        (λ h'. purges_alone c names r' n (omega arith) ∙ ground arith)
]

subscribes_alone :
    (c : ℕ) (s : Text) (r : Registry) (n : ℕ)
    → weights (begun (subscribes c s) r).tasks ≤ n
    → run (goes_on n) (begun (subscribes c s) r) ≡ quiet (subscribe c s r)
unfolding step begin begin_subscribe subscribe
subscribes_alone c s r n h = elim (Option-cases (get c r.conn_streams)) [
  | inl e ↦
      from n (begun (subscribes c s) r) (quiet r) _ (ground arith) h
        (λ h'. stays_quiet n r ∙ ground arith)
  | inr (names, e) ↦ elim (Bool-cases (contains s names)) [
    | inl old ↦
        from n (begun (subscribes c s) r) (quiet r) _ (ground arith) h
          (λ h'. stays_quiet n r ∙ ground arith)
    | inr new ↦
        let r' = with_streams (push_subscriber s c r.streams) r in
        from n (begun (subscribes c s) r) (only (joining c s) r') _ (ground arith) h
          (λ h'. joins_alone c s r' n (omega arith) ∙ ground arith)
  ]
]

unsubscribes_alone :
    (c : ℕ) (s : Text) (r : Registry) (n : ℕ)
    → weights (begun (unsubscribes c s) r).tasks ≤ n
    → run (goes_on n) (begun (unsubscribes c s) r) ≡ quiet (unsubscribe c s r)
unfolding step begin begin_unsubscribe unsubscribe
unsubscribes_alone c s r n h =
    let r' = with_streams (trim s c r.streams).1 r in
    elim (Bool-cases (trim s c r.streams).0) [
      | inl e ↦
          from n (begun (unsubscribes c s) r) (only (leaving_empty c s) r') _ (rw e refl) h (λ h'.
            leaves_alone c s r' n (omega arith)
            ∙ ap (λ x. quiet (forget_stream c s x)) (sym (trimmed_empty s c r e)))
      | inr e ↦
          from n (begun (unsubscribes c s) r) (only (forgetting c s) r') _ (rw e refl) h (λ h'.
            forgets_alone c s r' n (omega arith)
            ∙ ap (λ x. quiet (forget_stream c s x)) (sym (trimmed_full s c r e)))
    ]

connects_alone :
    (sender evict_tx : ℕ) (is_binary : Bool) (r : Registry) (n : ℕ)
    → weights (begun (connect sender is_binary evict_tx) r).tasks ≤ n
    → run (goes_on n) (begun (connect sender is_binary evict_tx) r)
      ≡ quiet (connect_new sender is_binary evict_tx r)
unfolding step run begin continue connect_new allocate_id register
connects_alone sender evict_tx is_binary r zero h = absurd (omega arith)
connects_alone sender evict_tx is_binary r (suc zero) h = absurd (omega arith)
connects_alone sender evict_tx is_binary r (suc (suc zero)) h = absurd (omega arith)
connects_alone sender evict_tx is_binary r (suc (suc (suc n))) h = stays_quiet n _

-- On a registry with nothing pending, a call whose accesses nothing interrupts, given as many of
-- them as it may make, or more, leaves nothing pending and the registry as its method, run in one
-- step, does; provided a deregistered connection has an identifier that was given out.
pub alone_agrees :
    (call : Call) (r : Registry) (n : ℕ)
    → IsKnown call r
    → weights (begun call r).tasks ≤ n
    → run (goes_on n) (begun call r) ≡ quiet (spec.step r call)
unfolding spec.step
alone_agrees (connect sender is_binary evict_tx) r n known h =
    connects_alone sender evict_tx is_binary r n h
alone_agrees (subscribes c s) r n known h = subscribes_alone c s r n h
alone_agrees (unsubscribes c s) r n known h = unsubscribes_alone c s r n h
alone_agrees (deregisters c) r n known h = deregisters_alone c r n known h
