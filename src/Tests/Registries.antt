-- ===== src/Tests/Registries.antt =====
-- The registry and the fan-out on a node with two connections in one room.
use turbocable_server.Prelude.{
  ℕ, ◌≡◌, refl, true, false, none, some, List, [], ◌∷◌, Text, Bytes, contains, if◌then◌else◌,
  text_eq, text_beq, nat_eq, arith,
}
use turbocable_server.Prelude.Dict.{get, insert, remove}
use turbocable_server.Channel.Bounded.{bounded, idle}
use turbocable_server.Registry.{
  Registry, ConnectionEntry, new, allocate_id, register, subscribe, subscribers, fanout_encoded,
  deliver_all, deliver_to,
}
use turbocable_server.Registry.Invariant.{Inv, new-Inv}
use turbocable_server.Registry.Spec.{Call, connect, subscribes, step, run, spec_run, view, IsFresh}
use turbocable_server.Registry.View.{view-run, run-new-Inv}
use turbocable_server.Registry.Broadcast.{
  fanout_delivers_once, fanout_removes_evicted, fanout_signals_evicted,
}
use turbocable_server.Tests.Fixtures.{room}

abbrev pub calls : List Call
calls = connect 10 false 11 ∷ connect 20 true 21 ∷ subscribes 1 room ∷ subscribes 2 room ∷ []

new-IsFresh : IsFresh new
unfolding new get
new-IsFresh c h = refl

view-run_example : view (run new calls) ≡ spec_run (view new) calls
unfolding new
view-run_example = view-run new calls new-Inv new-IsFresh (omega arith)

-- The node after the calls, and the entry of its first connection.
abbrev pub two : Registry
two = run new calls

pub two-Inv : Inv two
two-Inv = run-new-Inv calls (omega arith)

abbrev pub first : ConnectionEntry
first = record { sender = 10; evict_tx = 11; is_binary = false }

pub first_registered : get 1 two.connections ≡ some first
unfolding run step new allocate_id register subscribe get insert contains remove text_beq
first_registered = refl

pub first_subscribed : contains 1 (subscribers two room) ≡ true
unfolding run step new allocate_id register subscribe get insert contains remove text_beq
first_subscribed = refl

pub own_channel :
    (d : ℕ) (f : ConnectionEntry) → get d two.connections ≡ some f → f.sender ≡ first.sender → d ≡ 1
unfolding run step new allocate_id register subscribe get insert contains remove text_beq
own_channel d f h e = ground (arith, h, e)

pub third_free : get two.next_id two.connections ≡ none
unfolding run step new allocate_id register subscribe get insert contains remove text_beq
third_free = refl

-- What the room's message holds in the two encodings.
abbrev json : Bytes
json = b'j' ∷ []

abbrev packed : Bytes
packed = b'p' ∷ []

fanout_delivers_once_example :
    let fanned = fanout_encoded bounded room json packed (two, idle 1) in
    fanned.2.queues 10 ≡ (if contains 1 fanned.0.evicted then [] else json ∷ [])
fanout_delivers_once_example =
    fanout_delivers_once bounded two two-Inv (idle 1) room json packed 1 first own_channel
      first_registered first_subscribed

fanout_removes_evicted_example :
    let fanned = fanout_encoded bounded room json packed (two, idle 0) in
    Inv fanned.1
    × ((c : ℕ)
        → (get c fanned.1.connections
            ≡ (if contains c fanned.0.evicted then none else get c two.connections))
          × ((t : Text)
              → contains c (subscribers fanned.1 t)
                ≡ (if contains c fanned.0.evicted then false else contains c (subscribers two t))))
fanout_removes_evicted_example =
    fanout_removes_evicted bounded two two-Inv (idle 0) room json packed

-- With full channels the first connection is evicted.
first_evicted : contains 1 (fanout_encoded bounded room json packed (two, idle 0)).0.evicted ≡ true
unfolding run step new allocate_id register subscribe get insert contains remove text_beq
    fanout_encoded deliver_all deliver_to
first_evicted = refl

fanout_signals_evicted_example :
    (contains 1 (subscribers two room) ≡ true)
    × ((fanout_encoded bounded room json packed (two, idle 0)).2.signals 11 ≡ true)
fanout_signals_evicted_example =
    fanout_signals_evicted bounded two two-Inv (idle 0) room json packed 1 first first_registered
      first_evicted
