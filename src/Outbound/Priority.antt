-- ===== src/Outbound/Priority.antt =====
-- src/connection/handler.rs: `outbound_loop` when the connection is to end.
use turbocable_server.Prelude.{
  ℕ, zero, suc, ◌+◌, ◌≡◌, refl, subst, Bool, true, false, List, [], Bytes, codes, arith,
}
use turbocable_server.Outbound.{
  Message, close_frame, Sink, Outbound, next, turn, outbound_loop, shut_down,
}
use turbocable_server.Outbound.Order.{sent_all, drain_all-sent_all}

module _ (sink : Sink) (is_binary : Bool) (disconnect_frame : Bytes) where
  open sink use {Socket, send, close}

  -- All senders of a connection are gone; nothing waits but what its live channel still has.
  abbrev pub abandoned : List Bytes → Socket → Outbound sink
  abandoned live socket = record {
    live_rx = record { waiting = live; is_closed = true };
    replay_rx = record { waiting = []; is_closed = true };
    urgent_close_rx = record { waiting = []; is_closed = true };
    evicted = false;
    evict_closed = true;
    changed = false;
    socket = socket;
    urgent_open = true;
    evict_open = true;
  }

  abbrev pub spinning : List Bytes → Socket → Outbound sink
  spinning live socket = record (abandoned live socket) { urgent_open = false; evict_open = false }

  spins :
      (fuel : ℕ) (live : List Bytes) (socket : Socket)
      → outbound_loop sink is_binary disconnect_frame fuel (spinning live socket)
        ≡ next (spinning live socket)
  unfolding outbound_loop turn
  spins zero live socket = refl
  spins (suc fuel) live socket = spins fuel live socket

  -- Once all senders of a connection are gone, with no shutdown and no eviction, with nothing
  -- waiting on the replay channel and on the urgent channel and both branches that can be switched
  -- off still on, any number of turns from two on leaves the loop running with the socket as it was
  -- and what waits on the live channel, if anything, still unsent.
  pub outbound_loop_spins :
      (fuel : ℕ) (live : List Bytes) (socket : Socket)
      → outbound_loop sink is_binary disconnect_frame (fuel + 2) (abandoned live socket)
        ≡ next (spinning live socket)
  unfolding outbound_loop turn
  outbound_loop_spins fuel live socket =
      let two : suc (suc fuel) ≡ fuel + 2 = omega arith in
      subst
        (λ n.
          outbound_loop sink is_binary disconnect_frame n (abandoned live socket)
          ≡ next (spinning live socket))
        two (spins fuel live socket)

  -- On a socket that takes every frame, the shutdown branch sends what waits on the replay
  -- channel, then what waits on the live channel, and then the close frame 1001.
  pub shut_down_flushes :
      (works : (msg : Message) (socket : Socket) → (send msg socket).0 ≡ true)
      → (o : Outbound sink)
      → (shut_down sink is_binary disconnect_frame o).socket
        ≡ (send (close_frame 1001 (codes "server shutting down")) (
            sent_all sink is_binary disconnect_frame o.live_rx.waiting
              (sent_all sink is_binary disconnect_frame o.replay_rx.waiting o.socket))).1
  unfolding shut_down
  shut_down_flushes works o =
      rw
        (
          drain_all-sent_all sink is_binary disconnect_frame works o.replay_rx.waiting o.socket,
          drain_all-sent_all sink is_binary disconnect_frame works o.live_rx.waiting
              (sent_all sink is_binary disconnect_frame o.replay_rx.waiting o.socket),
          shut_down,
        )
        refl
