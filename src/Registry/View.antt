-- ===== src/Registry/View.antt =====
-- src/connection/registry.rs: the registry implements its abstract view, call by call.
use turbocable_server.Prelude.{
  ℕ, ◌+◌, ◌≤◌, ◌<◌, ◌≡◌, ◌↔◌, subst, sym, refl, ◌∙◌, ap, Bool, true, false, none, List, [], ◌∷◌,
  Text, contains, is_some, eq_iff, nat_eq, text_eq, arith, contains-retain_ne, contains-append,
  length,
}
use turbocable_server.Prelude.Dict.{get, get-insert}
use turbocable_server.Registry.{
  Registry, u64_mod, new, allocate_id, register, subscribe, unsubscribe, forget_stream, subscribers,
}
use turbocable_server.Registry.Streams.{
  get-push_subscriber, subscribers-remove_subscriber, connections-remove_subscriber,
}
use turbocable_server.Registry.Invariant.{Inv, new-Inv, allocate_id-Inv, register-Inv}
use turbocable_server.Registry.Joins.{subscribe-Inv, unsubscribe-Inv}
use turbocable_server.Registry.Departs.{deregister-Inv}
use turbocable_server.Registry.Spec.{
  Spec, Call, connect, subscribes, unsubscribes, deregisters, step, spec_step, run, spec_run, view,
  IsFresh,
}
use turbocable_server.Registry.Deregister.{member-deregister, live-deregister, next_id-deregister}

Spec_eq :
    (a b : Spec)
    → ((c : ℕ) → a.live c ≡ b.live c)
    → ((c : ℕ) (s : Text) → a.member c s ≡ b.member c s)
    → a.next ≡ b.next
    → a ≡ b
Spec_eq a b p q n = λ i. record { live = λ c. p c i; member = λ c s. q c s i; next = n i }

module _ (r : Registry) (v : Inv r) where
  -- A subscriber is a live connection.
  pub member_live :
      (c : ℕ) (s : Text)
      → contains c (subscribers r s) ≡ true
      → is_some (get c r.connections) ≡ true
  unfolding contains
  member_live c s h = ground (arith, v.linked c s, v.same_keys c)

  view-connect :
      (sender evict : ℕ) (binary : Bool)
      → r.next_id + 1 < u64_mod
      → view (step r (connect sender binary evict))
        ≡ spec_step (view r) (connect sender binary evict)
  unfolding step spec_step allocate_id register
  view-connect sender evict binary room =
      Spec_eq _ _
        (λ d. ground (
          arith,
          get-insert r.next_id d (record { sender = sender; evict_tx = evict; is_binary = binary })
              r.connections,
          eq_iff r.next_id d,
        ))
        (λ d t. refl) (omega arith)

  view-subscribe :
      (c : ℕ) (s : Text) → view (step r (subscribes c s)) ≡ spec_step (view r) (subscribes c s)
  unfolding step spec_step subscribe contains
  view-subscribe c s =
      Spec_eq _ _ (λ d. ground arith)
        (λ d t. ground (
          arith,
          v.same_keys c,
          v.linked c s,
          get-push_subscriber s t c r.streams,
          contains-append d (subscribers r t) (c ∷ []),
          eq_iff c d,
          eq_iff s t,
        ))
        (ground arith)

  view-unsubscribe :
      (c : ℕ) (s : Text) → view (step r (unsubscribes c s)) ≡ spec_step (view r) (unsubscribes c s)
  unfolding step spec_step unsubscribe forget_stream
  view-unsubscribe c s =
      Spec_eq _ _ (λ d. ground (arith, connections-remove_subscriber s c r))
        (λ d t. ground (
          arith,
          subscribers-remove_subscriber s c r t,
          contains-retain_ne c d (subscribers r t),
          eq_iff c d,
          eq_iff s t,
        ))
        (ground (arith, connections-remove_subscriber s c r))

  view-deregister : (c : ℕ) → view (step r (deregisters c)) ≡ spec_step (view r) (deregisters c)
  unfolding step spec_step
  view-deregister c =
      Spec_eq _ _ (λ d. ground (arith, live-deregister r v c d, eq_iff c d))
        (member-deregister r v c) (next_id-deregister r v c)

  -- Each call does what the abstract registry does.
  view-step : (k : Call) → r.next_id + 1 < u64_mod → view (step r k) ≡ spec_step (view r) k
  view-step (connect sender binary evict) room = view-connect sender evict binary room
  view-step (subscribes c s) room = view-subscribe c s
  view-step (unsubscribes c s) room = view-unsubscribe c s
  view-step (deregisters c) room = view-deregister c

  step-Inv : (k : Call) → IsFresh r → Inv (step r k)
  unfolding step allocate_id
  step-Inv (connect sender binary evict) f =
      register-Inv _ (allocate_id-Inv r v) r.next_id sender evict binary (f r.next_id (omega arith))
  step-Inv (subscribes c s) f = subscribe-Inv r v c s
  step-Inv (unsubscribes c s) f = unsubscribe-Inv r v c s
  step-Inv (deregisters c) f = deregister-Inv r v c

  none_of_not_live : (c : ℕ) → (is_some (get c r.connections) ≡ false) → get c r.connections ≡ none
  none_of_not_live c h = ground arith

-- Freshness follows from what the abstract registry shows.
abbrev IsFreshSpec : Spec → Type 0
IsFreshSpec a = (c : ℕ) → a.next ≤ c → a.live c ≡ false

spec_step-IsFreshSpec : (a : Spec) (k : Call) → IsFreshSpec a → IsFreshSpec (spec_step a k)
unfolding spec_step
spec_step-IsFreshSpec a (connect _ _ _) f = λ c h. ground (arith, f c)
spec_step-IsFreshSpec a (subscribes c s) f = f
spec_step-IsFreshSpec a (unsubscribes c s) f = f
spec_step-IsFreshSpec a (deregisters d) f = λ c h. ground (arith, f c)

IsFreshSpec-iff : (r : Registry) → IsFreshSpec (view r) ↔ IsFresh r
IsFreshSpec-iff r = (λ f c h. ground (arith, f c), λ f c h. ground (arith, f c))

step-IsFresh :
    (r : Registry) (k : Call) → Inv r → IsFresh r → r.next_id + 1 < u64_mod → IsFresh (step r k)
step-IsFresh r k v f room = (IsFreshSpec-iff (step r k)).0 (
    subst IsFreshSpec (sym (view-step r v k room))
      (spec_step-IsFreshSpec (view r) k ((IsFreshSpec-iff r).1 f)))

spec_step_next : (a : Spec) (k : Call) → (spec_step a k).next ≤ a.next + 1
unfolding spec_step
spec_step_next a (connect _ _ _) = omega arith
spec_step_next a (subscribes _ _) = omega arith
spec_step_next a (unsubscribes _ _) = omega arith
spec_step_next a (deregisters _) = omega arith

step_next :
    (r : Registry) (k : Call) → Inv r → r.next_id + 1 < u64_mod → (step r k).next_id ≤ r.next_id + 1
step_next r k v room =
    omega (arith, ap (λ (a : Spec). a.next) (view-step r v k room), spec_step_next (view r) k)

pub run-Inv :
    (r : Registry) (ks : List Call)
    → Inv r
    → IsFresh r
    → r.next_id + length ks < u64_mod
    → Inv (run r ks)
unfolding run
run-Inv r [] v f room = v
run-Inv r (k ∷ ks) v f room =
    run-Inv (step r k) ks (step-Inv r v k f) (step-IsFresh r k v f (omega arith))
      (omega (arith, step_next r k v (omega arith)))

-- After any sequence of calls the registry shows exactly the connections and subscriptions that
-- the abstract registry has after the same calls: provided the invariant holds at the start, no
-- identifier from `next_id` on is in use, and the calls cannot exhaust the 64-bit identifiers.
pub view-run :
    (r : Registry) (ks : List Call)
    → Inv r
    → IsFresh r
    → r.next_id + length ks < u64_mod
    → view (run r ks) ≡ spec_run (view r) ks
unfolding run spec_run
view-run r [] v f room = refl
view-run r (k ∷ ks) v f room =
    view-run (step r k) ks (step-Inv r v k f) (step-IsFresh r k v f (omega arith))
      (omega (arith, step_next r k v (omega arith)))
    ∙ ap (λ a. spec_run a ks) (view-step r v k (omega arith))

new-IsFresh : IsFresh new
unfolding new get
new-IsFresh c h = refl

-- From a new registry, any sequence of fewer than 2 ^ 64 - 1 calls keeps the invariant: the two
-- subscription maps mirror each other, with no repetition and no empty list, and the active
-- counter is the number of registered connections modulo 2 ^ 64.
pub run-new-Inv : (ks : List Call) → length ks + 1 < u64_mod → Inv (run new ks)
unfolding new
run-new-Inv ks room = run-Inv new ks new-Inv new-IsFresh (omega arith)
