-- ===== src/Registry/Concurrent/Purges.antt =====
-- src/connection/registry.rs: the accesses of a method that nothing interrupts, up to its end.
use turbocable_server.Prelude.{
  ℕ, zero, suc, ◌+◌, ◌*◌, ◌≤◌, ◌≡◌, ◌⊎◌, refl, ◌∙◌, ap, true, false, List, [], ◌∷◌, Text, retain_ne,
  length, arith, Option-cases, List-cases, inl, inr, nat_eq, text_eq,
}
use turbocable_server.Prelude.Dict.{get}
use turbocable_server.Registry.{
  Registry, forget_stream, remove_subscriber_from_stream, remove_from_streams, remove_connection,
  remove_if_empty,
}
use turbocable_server.Registry.Concurrent.{
  Pending, purging, Shared, continues, continue, step, run, trim, with_streams, push_joined,
  joining, leaving_empty, forgetting,
}
use turbocable_server.Registry.Concurrent.Quiet.{goes_on}

-- Nothing is pending.
abbrev pub quiet : Registry → Shared
quiet r = record { registry = r; tasks = [] }

abbrev pub only : Pending → Registry → Shared
only p r = record { registry = r; tasks = p ∷ [] }

pub stays_quiet : (n : ℕ) (r : Registry) → run (goes_on n) (quiet r) ≡ quiet r
unfolding run step
stays_quiet zero r = refl
stays_quiet (suc n) r = stays_quiet n r

-- A list that is trimmed loses its entry if it is empty.
module _ (s : Text) (c : ℕ) (r : Registry) where
  pub trimmed_empty :
      (trim s c r.streams).0 ≡ true
      → remove_subscriber_from_stream s c r
        ≡ with_streams (remove_if_empty s (trim s c r.streams).1) r
  unfolding remove_subscriber_from_stream
  trimmed_empty h = elim (Option-cases (get s r.streams)) [
    | inl e ↦ ground arith
    | inr (ids, e) ↦ elim (List-cases (retain_ne c ids)) [
      | inl e' ↦ rw (e, trim, remove_subscriber_from_stream) (rw e' refl)
      | inr (d, ds, e') ↦ ground arith
    ]
  ]

  pub trimmed_full :
      (trim s c r.streams).0 ≡ false
      → remove_subscriber_from_stream s c r ≡ with_streams (trim s c r.streams).1 r
  unfolding remove_subscriber_from_stream
  trimmed_full h = elim (Option-cases (get s r.streams)) [
    | inl e ↦ rw (e, trim, remove_subscriber_from_stream) refl
    | inr (ids, e) ↦ elim (List-cases (retain_ne c ids)) [
      | inl e' ↦ ground arith
      | inr (d, ds, e') ↦ rw (e, trim, remove_subscriber_from_stream) (rw e' refl)
    ]
  ]

goes : Shared → Shared
goes st = step (continues 0) st

run-goes : (n : ℕ) (st : Shared) → run (goes_on (suc n)) st ≡ run (goes_on n) (goes st)
unfolding run goes
run-goes n st = refl

-- One stream of a deregistration, in one or two accesses.
purges_one :
    (c : ℕ) (s : Text) (names : List Text) (r : Registry)
    → (goes (only (purging c (s ∷ names)) r)
        ≡ only (purging c names) (remove_subscriber_from_stream s c r))
      ⊎ (goes (goes (only (purging c (s ∷ names)) r))
          ≡ only (purging c names) (remove_subscriber_from_stream s c r))
unfolding goes step continue remove_subscriber_from_stream
purges_one c s names r = elim (Option-cases (get s r.streams)) [
  | inl e ↦ inl (rw (e, trim, remove_subscriber_from_stream) refl)
  | inr (ids, e) ↦ elim (List-cases (retain_ne c ids)) [
    | inl e' ↦ inr (rw (e, trim, remove_subscriber_from_stream) (rw e' refl))
    | inr (d, ds, e') ↦ inl (rw (e, trim, remove_subscriber_from_stream) (rw e' refl))
  ]
]

drops_one :
    (c : ℕ) (r : Registry) → goes (goes (only (purging c []) r)) ≡ quiet (remove_connection c r)
unfolding goes step continue remove_connection
drops_one c r = elim (Option-cases (get c r.connections)) [
  | inl e ↦ ground arith
  | inr (entry, e) ↦ ground arith
]

drops_alone :
    (c : ℕ) (r : Registry) (n : ℕ)
    → run (goes_on (suc (suc n))) (only (purging c []) r) ≡ quiet (remove_connection c r)
drops_alone c r n =
    run-goes (suc n) (only (purging c []) r)
    ∙ run-goes n (goes (only (purging c []) r))
    ∙ ap (run (goes_on n)) (drops_one c r)
    ∙ stays_quiet n (remove_connection c r)

pub purges_alone :
    (c : ℕ) (names : List Text) (r : Registry) (n : ℕ)
    → 2 + 2 * length names ≤ n
    → run (goes_on n) (only (purging c names) r)
      ≡ quiet (remove_connection c (remove_from_streams c names r))
unfolding remove_from_streams
purges_alone c names r zero h = absurd (omega arith)
purges_alone c names r (suc zero) h = absurd (omega arith)
purges_alone c [] r (suc (suc n)) h = drops_alone c r n
purges_alone c (s ∷ names) r (suc (suc n)) h =
    let start = only (purging c (s ∷ names)) r in
    let r' = remove_subscriber_from_stream s c r in
    elim (purges_one c s names r) [
      | inl one ↦
          run-goes (suc n) start
          ∙ ap (run (goes_on (suc n))) one
          ∙ purges_alone c names r' (suc n) (omega arith)
      | inr two ↦
          run-goes (suc n) start
          ∙ run-goes n (goes start)
          ∙ ap (run (goes_on n)) two
          ∙ purges_alone c names r' n (omega arith)
    ]

-- A method with one more access, and the removal of an empty entry before it.
module _ (c : ℕ) (s : Text) (r : Registry) where
  pub joins_alone :
      (n : ℕ) → 1 ≤ n → run (goes_on n) (only (joining c s) r) ≡ quiet (push_joined c s r)
  unfolding run step continue
  joins_alone zero h = absurd (omega arith)
  joins_alone (suc n) h = stays_quiet n (push_joined c s r)

  pub forgets_alone :
      (n : ℕ) → 1 ≤ n → run (goes_on n) (only (forgetting c s) r) ≡ quiet (forget_stream c s r)
  unfolding run step continue
  forgets_alone zero h = absurd (omega arith)
  forgets_alone (suc n) h = stays_quiet n (forget_stream c s r)

pub leaves_alone :
    (c : ℕ) (s : Text) (r : Registry) (n : ℕ)
    → 2 ≤ n
    → run (goes_on n) (only (leaving_empty c s) r)
      ≡ quiet (forget_stream c s (with_streams (remove_if_empty s r.streams) r))
unfolding run step continue
leaves_alone c s r zero h = absurd (omega arith)
leaves_alone c s r (suc n) h =
    forgets_alone c s (with_streams (remove_if_empty s r.streams) r) n (omega arith)
