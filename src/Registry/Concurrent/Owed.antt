-- ===== src/Registry/Concurrent/Owed.antt =====
-- src/connection/registry.rs: every call that begins has its whole effect, once.
use turbocable_server.Prelude.{
  ℕ, zero, suc, ◌+◌, ◌≡◌, refl, Bool, not, ◌||◌, Option, none, some, List, [], ◌∷◌, ◌++◌, Text,
  contains, if◌then◌else◌, ltb, ap, subst, nat_eq, text_eq, arith, Option-cases, Bool-cases, inl,
  inr,
}
use turbocable_server.Prelude.Dict.{get}
use turbocable_server.Registry.{Registry, allocate_id}
use turbocable_server.Registry.Spec.{Call, connect, subscribes, unsubscribes, deregisters}
use turbocable_server.Registry.Concurrent.{
  Pending, allocated, linking, activating, joining, leaving_empty, forgetting, purging,
  purging_empty, releasing, Shared, Move, begins, continues, any, arrives, serves, holds, taken,
  begin, begin_subscribe, begin_unsubscribe, begin_deregister, continue, resume, trim, step, run,
}
use turbocable_server.Registry.Concurrent.Quiet.{goes_on}
use turbocable_server.Registry.Concurrent.Effects.{
  Effect, appears, vanishes, joins_stream, quits_stream, effect_of, effect_of_subscribe,
  effect_of_call, effect_of_move, linear,
}

-- The effect that a call is to have, from its arguments alone; none where it may not begin, because
-- its connection is served, not registered or unknown. A connection is given the next identifier.
abbrev pub asked : Call → Shared → List Effect
asked (connect _ _ _) st = appears st.registry.next_id ∷ []
asked (subscribes c s) st = if any (serves c) st.tasks then [] else joins_stream c s ∷ []
asked (unsubscribes c s) st = if any (serves c) st.tasks then [] else quits_stream c s ∷ []
asked (deregisters c) st =
    if any (arrives c) st.tasks || any (holds c) st.tasks || not (ltb c st.registry.next_id)
    then []
    else vanishes c ∷ []

abbrev pub asked_by : Move → Shared → List Effect
asked_by (begins call) st = asked call st
asked_by (continues i) st = []

unfoldable pub all_asked : List Move → Shared → List Effect
all_asked [] st = []
all_asked (move ∷ moves) st = asked_by move st ++ all_asked moves (step move st)

-- The effect that is still to come of a pending method.
abbrev owed : Pending → List Effect
owed (allocated c _) = appears c ∷ []
owed (linking c) = appears c ∷ []
owed (joining c s) = joins_stream c s ∷ []
owed (leaving_empty c s) = quits_stream c s ∷ []
owed (forgetting c s) = quits_stream c s ∷ []
owed _ = []

-- How many effects pass a test.
module _ (test : Effect → Bool) where
  unfoldable pub count : List Effect → ℕ
  count [] = 0
  count (e ∷ es) = if test e then 1 + count es else count es

  count-append : (es fs : List Effect) → count (es ++ fs) ≡ count es + count fs
  unfolding count
  count-append [] fs = omega arith
  count-append (e ∷ es) fs = ground (arith, count-append es fs)

  abbrev pub owing : List Pending → ℕ
  owing [] = 0
  owing (p ∷ ps) = count (owed p) + owing ps

  abbrev owing_left : Option Pending → ℕ
  owing_left none = 0
  owing_left (some p) = count (owed p)

  owing-resume :
      (q : Option Pending × Registry) (rest : List Pending)
      → owing (resume q rest).tasks ≡ owing_left q.0 + owing rest
  owing-resume (none, r) rest = omega arith
  owing-resume (some p, r) rest = refl

  abbrev Owes : List Pending → Option (Pending × List Pending) → Type 0
  Owes ps none = Unit
  Owes ps (some (p, rest)) = owing ps ≡ count (owed p) + owing rest

  Owes-taken : (i : ℕ) (ps : List Pending) → Owes ps (taken i ps)
  Owes-taken i [] = tt
  Owes-taken zero (q ∷ qs) = refl
  Owes-taken (suc i) (q ∷ qs) = go (taken i qs) (Owes-taken i qs)
    where
      go :
          (found : Option (Pending × List Pending))
          → Owes qs found
          → Owes (q ∷ qs) (elim found as (λ _. Option (Pending × List Pending)) [
            | none ↦ none
            | some (p, rest) ↦ some (p, q ∷ rest)
          ])
      go none h = tt
      go (some (p, rest)) h = omega (arith, h)

  continue_pays :
      (p : Pending) (r : Registry)
      → count (effect_of p) + owing_left (continue p r).0 ≡ count (owed p)
  unfolding continue count
  continue_pays (allocated c entry) r = omega arith
  continue_pays (linking c) r = omega arith
  continue_pays activating r = omega arith
  continue_pays (joining c s) r = omega arith
  continue_pays (leaving_empty c s) r = omega arith
  continue_pays (forgetting c s) r = omega arith
  continue_pays (purging c []) r = ground arith
  continue_pays (purging c (s ∷ names)) r = elim (Bool-cases (trim s c r.streams).0) [
    | inl e ↦ rw (e) refl
    | inr e ↦ rw (e) refl
  ]
  continue_pays (purging_empty s c names) r = omega arith
  continue_pays releasing r = omega arith

  subscribe_owes :
      (c : ℕ) (s : Text) (r : Registry)
      → count (effect_of_subscribe c s r) + owing_left (begin_subscribe c s r).0
        ≡ count (joins_stream c s ∷ [])
  unfolding begin_subscribe count
  subscribe_owes c s r = elim (Option-cases (get c r.conn_streams)) [
    | inl e ↦ ground arith
    | inr (names, e) ↦ elim (Bool-cases (contains s names)) [
      | inl old ↦ ground arith
      | inr new ↦ ground arith
    ]
  ]

  unsubscribe_owes :
      (c : ℕ) (s : Text) (r : Registry)
      → owing_left (begin_unsubscribe c s r).0 ≡ count (quits_stream c s ∷ [])
  unfolding begin_unsubscribe
  unsubscribe_owes c s r = elim (Bool-cases (trim s c r.streams).0) [
    | inl e ↦ rw (e) refl
    | inr e ↦ rw (e) refl
  ]

  deregister_owes : (c : ℕ) (r : Registry) → owing_left (begin_deregister c r).0 ≡ 0
  unfolding begin_deregister count
  deregister_owes c r = elim (Option-cases (get c r.conn_streams)) [
    | inl e ↦ ground arith
    | inr (names, e) ↦ ground arith
  ]

  begin_owes :
      (call : Call) (st : Shared)
      → count (effect_of_call call st) + owing_left (begin st.tasks call st.registry).0
        ≡ count (asked call st)
  unfolding begin count allocate_id
  begin_owes (connect sender is_binary evict_tx) st = omega arith
  begin_owes (subscribes c s) st = elim (Bool-cases (any (serves c) st.tasks)) [
    | inl e ↦ rw (e, begin) (omega arith)
    | inr e ↦ rw (e, begin) (subscribe_owes c s st.registry)
  ]
  begin_owes (unsubscribes c s) st = elim (Bool-cases (any (serves c) st.tasks)) [
    | inl e ↦ rw (e, begin) (omega arith)
    | inr e ↦ rw (e, begin) (omega (arith, unsubscribe_owes c s st.registry))
  ]
  begin_owes (deregisters c) st =
      let closed =
        any (arrives c) st.tasks || any (holds c) st.tasks || not (ltb c st.registry.next_id) in
      elim (Bool-cases closed) [
        | inl e ↦ rw (e, begin) (omega arith)
        | inr e ↦ rw (e, begin) (omega (arith, deregister_owes c st.registry))
      ]

  step_pays :
      (move : Move) (st : Shared)
      → count (effect_of_move move st) + owing (step move st).tasks
        ≡ owing st.tasks + count (asked_by move st)
  unfolding step effect_of_move count
  step_pays (begins call) st =
      omega (arith, begin_owes call st, owing-resume (begin st.tasks call st.registry) st.tasks)
  step_pays (continues i) st = elim (Option-cases (taken i st.tasks)) [
    | inl e ↦ rw (e, step, effect_of_move) (omega arith)
    | inr ((p, rest), e) ↦
        rw (e, step, effect_of_move)
          (omega (
            arith,
            continue_pays p st.registry,
            owing-resume (continue p st.registry) rest,
            subst (Owes st.tasks) e (Owes-taken i st.tasks),
          ))
  ]

  pub run_pays :
      (moves : List Move) (st : Shared)
      → count (linear moves st) + owing (run moves st).tasks
        ≡ owing st.tasks + count (all_asked moves st)
  unfolding run linear all_asked count
  run_pays [] st = omega arith
  run_pays (move ∷ moves) st = omega (
    arith,
    step_pays move st,
    run_pays moves (step move st),
    count-append (effect_of_move move st) (linear moves (step move st)),
    count-append (asked_by move st) (all_asked moves (step move st)),
  )

  none_asked : (n : ℕ) (st : Shared) → count (all_asked (goes_on n) st) ≡ 0
  unfolding all_asked count
  none_asked zero st = refl
  none_asked (suc n) st = none_asked n (step (continues 0) st)

  -- A run with nothing pending at first, and then its pending methods until none is left.
  pub settled_pays :
      (moves : List Move) (n : ℕ) (st : Shared)
      → st.tasks ≡ []
      → (run (goes_on n) (run moves st)).tasks ≡ []
      → count (linear moves st ++ linear (goes_on n) (run moves st)) ≡ count (all_asked moves st)
  settled_pays moves n st quiet over = omega (
    arith,
    run_pays moves st,
    run_pays (goes_on n) (run moves st),
    none_asked n (run moves st),
    count-append (linear moves st) (linear (goes_on n) (run moves st)),
    ap owing quiet,
    ap owing over,
  )
