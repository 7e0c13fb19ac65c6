-- ===== src/Registry/Concurrent/Linear.antt =====
-- src/connection/registry.rs: interleaved calls take effect one after the other, each at one of its
-- accesses.
use turbocable_server.Prelude.{
  Bool, ℕ, ◌+◌, ◌<◌, ◌≡◌, refl, Option, none, some, List, [], ◌∷◌, ◌++◌, Text, contains, is_some,
  length, zero, suc, ap, sym, ◌∙◌, nat_eq, text_eq, arith,
}
use turbocable_server.Prelude.Dict.{get}
use turbocable_server.Registry.{Registry, u64_mod, new, subscribers}
use turbocable_server.Registry.Invariant.{Inv}
use turbocable_server.Registry.Concurrent.{
  Pending, Shared, Move, begins, continues, taken, begin, continue, resume, step, run,
}
use turbocable_server.Registry.Concurrent.Fine.{Fine-taken}
use turbocable_server.Registry.Concurrent.Begins.{FineShared}
use turbocable_server.Registry.Concurrent.Continues.{step-Fine, go_on-Fine}
use turbocable_server.Registry.Concurrent.Quiet.{
  goes_on, weights, at_start, step-next_id, interleaved-Inv, start-Fine, reached-Fine,
}
use turbocable_server.Registry.Concurrent.Owed.{count, all_asked, settled_pays}
use turbocable_server.Registry.Concurrent.Effects.{
  Effect, Room, apply, apply_all, empty_room, effect_of, effect_of_move, linear, Agrees,
  continue-Agrees, begin-Agrees,
}

resume-Agrees :
    (q : Option Pending × Registry) (rest : List Pending) (a : Room)
    → Agrees q.1 a
    → Agrees (resume q rest).registry a
resume-Agrees (none, r) rest a h = h
resume-Agrees (some p, r) rest a h = h

step-Agrees :
    (move : Move) (st : Shared) (a : Room)
    → FineShared st
    → Agrees st.registry a
    → Agrees (step move st).registry (apply_all (effect_of_move move st) a)
unfolding step effect_of_move apply_all
step-Agrees (begins call) st a v h =
    resume-Agrees (begin st.tasks call st.registry) st.tasks _
      (begin-Agrees st.registry st.tasks a h call)
step-Agrees (continues i) st a v h = go (taken i st.tasks) refl
  where
    go :
        (found : Option (Pending × List Pending))
        → taken i st.tasks ≡ found
        → Agrees
            (elim found as (λ _. Shared) [
              | none ↦ st
              | some (p, rest) ↦ resume (continue p st.registry) rest
            ]).registry
            (apply_all
              (elim found as (λ _. List Effect) [ none ↦ [] | some (p, rest) ↦ effect_of p ])
              a)
    go none e = h
    go (some (p, rest)) e =
        resume-Agrees (continue p st.registry) rest _
          (continue-Agrees st.registry rest a h p (Fine-taken i st.registry st.tasks p rest e v))

apply_all-append :
    (es fs : List Effect) (a : Room) → apply_all (es ++ fs) a ≡ apply_all fs (apply_all es a)
unfolding apply_all
apply_all-append [] fs a = refl
apply_all-append (e ∷ es) fs a = apply_all-append es fs (apply e a)

move-Agrees :
    (move : Move) (moves : List Move) (st : Shared) (a : Room)
    → FineShared st
    → Agrees st.registry a
    → ((a' : Room)
        → Agrees (step move st).registry a'
        → Agrees (run moves (step move st)).registry (apply_all (linear moves (step move st)) a'))
    → Agrees (run (move ∷ moves) st).registry (apply_all (linear (move ∷ moves) st) a)
unfolding run linear
move-Agrees move moves st a v h next =
    rw (apply_all-append (effect_of_move move st) (linear moves (step move st)) a)
      (next (apply_all (effect_of_move move st) a) (step-Agrees move st a v h))

run-Agrees :
    (moves : List Move) (st : Shared) (a : Room)
    → FineShared st
    → st.registry.next_id + length moves < u64_mod
    → Agrees st.registry a
    → Agrees (run moves st).registry (apply_all (linear moves st) a)
unfolding run linear apply_all
run-Agrees [] st a v room h = h
run-Agrees (move ∷ moves) st a v room h = move-Agrees move moves st a v h (λ a' h'.
    run-Agrees moves (step move st) a' (step-Fine move st v (omega arith))
      (omega (arith, step-next_id move st)) h')

goes_on-Agrees :
    (n : ℕ) (st : Shared) (a : Room)
    → FineShared st
    → Agrees st.registry a
    → Agrees (run (goes_on n) st).registry (apply_all (linear (goes_on n) st) a)
unfolding run linear apply_all
goes_on-Agrees zero st a v h = h
goes_on-Agrees (suc n) st a v h =
    move-Agrees (continues 0) (goes_on n) st a v h
      (λ a' h'. goes_on-Agrees n (step (continues 0) st) a' (go_on-Fine 0 st v) h')

at_start-Agrees : Agrees new empty_room
unfolding new get contains
at_start-Agrees c = (refl, λ s. refl)

-- The effects of a run from a new registry, and then of what was pending at its end.
abbrev pub effects : List Move → List Effect
effects moves =
    let st = run moves at_start in linear moves at_start ++ linear (goes_on (weights st.tasks)) st

-- However the single accesses of fewer than 2 ^ 64 - 1 steps of any calls interleave, starting from
-- a new registry: once no more calls begin and the pending ones have ended, the registry keeps its
-- invariant, and it shows exactly the connections and the subscriptions that there are after the
-- effects of the run, each taken whole, in the order of the accesses at which they happen. These
-- are the effects that the calls are to have by their arguments: of every kind of effect as many
-- happen as calls that could begin asked for. `register` can always begin; `subscribe` and
-- `unsubscribe` unless another such call for their connection is pending; `deregister` unless its
-- connection has no identifier, is being registered, or is being subscribed.
pub interleaved_linear :
    (moves : List Move)
    → length moves + 1 < u64_mod
    → let st = run moves at_start in
      let settled = run (goes_on (weights st.tasks)) st in
      let a = apply_all (effects moves) empty_room in
      (settled.tasks ≡ [])
      × Inv settled.registry
      × ((c : ℕ) → is_some (get c settled.registry.connections) ≡ a.live c)
      × ((c : ℕ) (s : Text) → contains c (subscribers settled.registry s) ≡ a.member c s)
      × ((test : Effect → Bool)
          → count test (effects moves) ≡ count test (all_asked moves at_start))
interleaved_linear moves room =
    let st = run moves at_start in
    let n = weights st.tasks in
    let r = (run (goes_on n) st).registry in
    let (over, v) = interleaved-Inv moves room in
    let before : Agrees st.registry (apply_all (linear moves at_start) empty_room) =
      run-Agrees moves at_start empty_room start-Fine.0 (omega (arith, start-Fine.1))
        at_start-Agrees in
    let after =
      goes_on-Agrees n st (apply_all (linear moves at_start) empty_room) (reached-Fine moves room)
        before in
    let whole = apply_all-append (linear moves at_start) (linear (goes_on n) st) empty_room in
    (
      over,
      v,
      λ c. v.same_keys c ∙ (after c).0 ∙ ap (λ (b : Room). b.live c) (sym whole),
      λ c s. v.linked c s ∙ (after c).1 s ∙ ap (λ (b : Room). b.member c s) (sym whole),
      λ test. settled_pays test moves n at_start refl over,
    )
