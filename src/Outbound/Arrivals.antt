-- ===== src/Outbound/Arrivals.antt =====
-- src/connection/handler.rs: `outbound_loop` while other tasks put frames on its channels. What
-- happens between two turns is an event; a loop that has ended sees no more of them.
pub mod Turns
pub mod Merge
use turbocable_server.Prelude.{Bool, true, List, [], ◌∷◌, ◌++◌, Bytes}
use turbocable_server.Outbound.{Sink, Receiver, Outbound, Turn, pending, next, finished, turn}

-- A frame on one of the three channels, an eviction signal, the shutdown signal, the drop of the
-- last senders, and one turn of the loop.
pub data Event : Type 0 where
  live_frame replay_frame urgent_frame : Bytes → Event
  evicts shuts_down senders_drop takes_turn : Event

abbrev receive : Bytes → Receiver → Receiver
receive payload rx = record rx { waiting = rx.waiting ++ payload ∷ [] }

abbrev hang_up : Receiver → Receiver
hang_up rx = record rx { is_closed = true }

module _ (sink : Sink) (is_binary : Bool) (disconnect_frame : Bytes) where
  unfoldable pub arrive : Event → Outbound sink → Outbound sink
  arrive (live_frame payload) o = record o { live_rx = receive payload o.live_rx }
  arrive (replay_frame payload) o = record o { replay_rx = receive payload o.replay_rx }
  arrive (urgent_frame payload) o = record o { urgent_close_rx = receive payload o.urgent_close_rx }
  arrive evicts o = record o { evicted = true }
  arrive shuts_down o = record o { changed = true }
  arrive senders_drop o = record o {
    live_rx = hang_up o.live_rx;
    replay_rx = hang_up o.replay_rx;
    urgent_close_rx = hang_up o.urgent_close_rx;
    evict_closed = true;
  }
  arrive takes_turn o = o

  -- An event wakes a loop that is pending.
  abbrev pub with_event : Event → Outbound sink → Turn sink
  with_event takes_turn o = turn sink is_binary disconnect_frame o
  with_event (live_frame payload) o = next (arrive (live_frame payload) o)
  with_event (replay_frame payload) o = next (arrive (replay_frame payload) o)
  with_event (urgent_frame payload) o = next (arrive (urgent_frame payload) o)
  with_event evicts o = next (arrive evicts o)
  with_event shuts_down o = next (arrive shuts_down o)
  with_event senders_drop o = next (arrive senders_drop o)

  unfoldable pub happen : Event → Turn sink → Turn sink
  happen event (pending o) = with_event event o
  happen event (next o) = with_event event o
  happen event (finished o) = finished o

  unfoldable pub run_events : List Event → Turn sink → Turn sink
  run_events [] t = t
  run_events (event ∷ events) t = run_events events (happen event t)

-- What arrives on the replay channel and on the live channel.
abbrev pub replays_of : List Event → List Bytes
replays_of [] = []
replays_of (replay_frame payload ∷ events) = payload ∷ replays_of events
replays_of (live_frame _ ∷ events) = replays_of events
replays_of (urgent_frame _ ∷ events) = replays_of events
replays_of (evicts ∷ events) = replays_of events
replays_of (shuts_down ∷ events) = replays_of events
replays_of (senders_drop ∷ events) = replays_of events
replays_of (takes_turn ∷ events) = replays_of events

abbrev pub lives_of : List Event → List Bytes
lives_of [] = []
lives_of (live_frame payload ∷ events) = payload ∷ lives_of events
lives_of (replay_frame _ ∷ events) = lives_of events
lives_of (urgent_frame _ ∷ events) = lives_of events
lives_of (evicts ∷ events) = lives_of events
lives_of (shuts_down ∷ events) = lives_of events
lives_of (senders_drop ∷ events) = lives_of events
lives_of (takes_turn ∷ events) = lives_of events
