-- ===== src/Registry/Concurrent/Continues.antt =====
-- src/connection/registry.rs: whatever the tasks do, in any order, the state of the registry is kept.
use turbocable_server.Prelude.{
  ℕ, ◌+◌, ◌<◌, refl, List, [], ◌∷◌, nat_eq, text_eq, Option-cases, inl, inr,
}
use turbocable_server.Registry.{Registry, u64_mod}
use turbocable_server.Registry.Concurrent.{
  Pending, allocated, linking, activating, joining, leaving_empty, forgetting, purging,
  purging_empty, releasing, continue, resume,
}
use turbocable_server.Registry.Concurrent.Fine.{Fine}
use turbocable_server.Registry.Concurrent.Begins.{FineShared}
use turbocable_server.Registry.Concurrent.{Shared, Move, begins, continues, taken, step}
use turbocable_server.Registry.Concurrent.Begins.{begin-Fine}
use turbocable_server.Registry.Concurrent.Fine.{Fine-taken}
use turbocable_server.Registry.Concurrent.Arriving.{allocated-Fine, linking-Fine, activating-Fine}
use turbocable_server.Registry.Concurrent.Serving.{
  joining-Fine, leaving_empty-Fine, forgetting-Fine,
}
use turbocable_server.Registry.Concurrent.Departing.{
  drop_connection-Fine, purged-Fine, purging_empty-Fine, releasing-Fine,
}

continue-Fine :
    (p : Pending) (r : Registry) (rest : List Pending)
    → Fine r (p ∷ rest)
    → FineShared (resume (continue p r) rest)
unfolding continue
continue-Fine (allocated c entry) r rest v = allocated-Fine r rest c entry v
continue-Fine (linking c) r rest v = linking-Fine r rest c v
continue-Fine activating r rest v = activating-Fine r rest v
continue-Fine (joining c s) r rest v = joining-Fine r rest c s v
continue-Fine (leaving_empty c s) r rest v = leaving_empty-Fine r rest c s v
continue-Fine (forgetting c s) r rest v = forgetting-Fine r rest c s v
continue-Fine (purging c []) r rest v = drop_connection-Fine r rest c v
continue-Fine (purging c (s ∷ names)) r rest v = purged-Fine r rest c s names _ refl v
continue-Fine (purging_empty s c names) r rest v = purging_empty-Fine r rest c s names v
continue-Fine releasing r rest v = releasing-Fine r rest v

pub go_on-Fine : (i : ℕ) (st : Shared) → FineShared st → FineShared (step (continues i) st)
unfolding step
go_on-Fine i st v = elim (Option-cases (taken i st.tasks)) [
  | inl e ↦ rw (e, step) v
  | inr ((p, rest), e) ↦
      rw (e, step) (continue-Fine p st.registry rest (Fine-taken i st.registry st.tasks p rest e v))
]

pub step-Fine :
    (move : Move) (st : Shared)
    → FineShared st
    → st.registry.next_id + 1 < u64_mod
    → FineShared (step move st)
unfolding step
step-Fine (begins call) st v room = begin-Fine st.registry st.tasks v call room
step-Fine (continues i) st v room = go_on-Fine i st v
