-- ===== src/Tests/Interleavings.antt =====
-- Interleaved accesses of the registry, and frames that arrive while the outbound loop runs.
use turbocable_server.Prelude.{
  Bool, ℕ, ◌≡◌, ◌<◌, ◌≤◌, refl, true, false, List, [], ◌∷◌, Text, contains, is_some, text_eq,
  text_beq, nat_eq, arith,
}
use turbocable_server.Prelude.Dict.{get, insert, remove}
use turbocable_server.Registry.{new, allocate_id, register, subscribe, subscribers}
use turbocable_server.Registry.Invariant.{Inv}
use turbocable_server.Registry.Spec.{connect, subscribes, unsubscribes, deregisters}
use turbocable_server.Registry.Spec as spec
use turbocable_server.Registry.Concurrent.{Move, begins, continues, run, step, begin}
use turbocable_server.Registry.Concurrent as concurrent
use turbocable_server.Registry.Concurrent.Quiet.{at_start, goes_on, weights}
use turbocable_server.Registry.Concurrent.Purges.{quiet}
use turbocable_server.Registry.Concurrent.Alone.{begun, alone_agrees}
use turbocable_server.Registry.Concurrent.Owed.{count, all_asked}
use turbocable_server.Registry.Concurrent.Effects.{Effect, Room, apply_all, empty_room}
use turbocable_server.Registry.Concurrent.Linear.{effects, interleaved_linear}
use turbocable_server.Outbound.{next}
use turbocable_server.Outbound.Order.{serving}
use turbocable_server.Outbound.Arrivals.{
  Event, live_frame, replay_frame, evicts, takes_turn, run_events,
}
use turbocable_server.Outbound.Arrivals.Merge.{Accounted, outbound_loop_accounts}
use turbocable_server.Tests.Fixtures.{room, printer}
use turbocable_server.Tests.Registries.{two}

-- Two connections register at the same time; the first is evicted while the second subscribes and
-- then leaves, with the first still in the list of the room.
abbrev moves : List Move
moves =
    begins (connect 10 false 11)
    ∷ begins (connect 20 true 21)
    ∷ continues 1
    ∷ continues 1
    ∷ continues 1
    ∷ continues 1
    ∷ continues 1
    ∷ continues 0
    ∷ begins (subscribes 1 room)
    ∷ continues 0
    ∷ begins (subscribes 2 room)
    ∷ begins (deregisters 1)
    ∷ continues 1
    ∷ begins (unsubscribes 2 room)
    ∷ continues 1
    ∷ []

interleaved_linear_example :
    let st = run moves at_start in
    let settled = run (goes_on (weights st.tasks)) st in
    let a : Room = apply_all (effects moves) empty_room in
    (settled.tasks ≡ [])
    × Inv settled.registry
    × ((c : ℕ) → is_some (get c settled.registry.connections) ≡ a.live c)
    × ((c : ℕ) (s : Text) → contains c (subscribers settled.registry s) ≡ a.member c s)
    × ((test : Effect → Bool) → count test (effects moves) ≡ count test (all_asked moves at_start))
interleaved_linear_example = interleaved_linear moves (omega arith)

known : 1 < two.next_id
unfolding spec.run spec.step new allocate_id register subscribe get insert remove contains
known = omega arith

enough : weights (begun (deregisters 1) two).tasks ≤ 9
unfolding spec.run spec.step new allocate_id register subscribe step begin
    concurrent.begin_deregister get insert remove contains text_beq
enough = omega arith

alone_agrees_example :
    run (goes_on 9) (begun (deregisters 1) two) ≡ quiet (spec.step two (deregisters 1))
alone_agrees_example = alone_agrees (deregisters 1) two 9 known enough

abbrev events : List Event
events =
    live_frame (b'l' ∷ [])
    ∷ replay_frame (b'r' ∷ [])
    ∷ takes_turn
    ∷ live_frame (b'm' ∷ [])
    ∷ takes_turn
    ∷ evicts
    ∷ takes_turn
    ∷ live_frame (b'n' ∷ [])
    ∷ []

outbound_loop_accounts_example :
    Accounted printer true
      (b'd' ∷ [])
      []
      ((b'r' ∷ []) ∷ [])
      ((b'l' ∷ []) ∷ (b'm' ∷ []) ∷ (b'n' ∷ []) ∷ [])
      (run_events printer true
        (b'd' ∷ [])
        events
        (next (serving printer true (b'd' ∷ []) [] [] [])))
outbound_loop_accounts_example =
    outbound_loop_accounts printer true (b'd' ∷ []) (λ msg log. refl) events
      (serving printer true (b'd' ∷ []) [] [] [])
