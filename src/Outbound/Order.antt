-- ===== src/Outbound/Order.antt =====
-- src/connection/handler.rs: `outbound_loop` on a socket that takes every frame.
use turbocable_server.Prelude.{
  ℕ, zero, suc, ◌+◌, ◌≤◌, ◌<◌, ◌≡◌, refl, ap, ◌∙◌, Bool, true, false, List, [], ◌∷◌, Bytes, length,
  arith, Option-cases, inl, inr,
}
use turbocable_server.Outbound.{
  Message, Sink, Receiver, Outbound, Turn, pending, next, bytes_to_ws_msg, send_payload, drain,
  drain_all, turn, outbound_loop, outbound_replay_burst, after_sends,
}

module _ (sink : Sink) (is_binary : Bool) (disconnect_frame : Bytes) where
  open sink use {Socket, send, close}

  -- The socket after a list of payloads, each sent in turn.
  abbrev pub sent_all : List Bytes → Socket → Socket
  sent_all [] socket = socket
  sent_all (payload ∷ rest) socket =
      sent_all rest (send_payload sink is_binary disconnect_frame payload socket).1

  abbrev pub loop : ℕ → Outbound sink → Turn sink
  loop = outbound_loop sink is_binary disconnect_frame

  -- No eviction, no urgent frame, no shutdown.
  abbrev pub IsQuiet : Outbound sink → Type 0
  IsQuiet o =
      (o.evicted ≡ false)
      × (o.evict_closed ≡ false)
      × (o.urgent_close_rx.waiting ≡ [])
      × (o.urgent_close_rx.is_closed ≡ false)
      × (o.changed ≡ false)

  -- The receivers of a connection that is served: open, with what waits on them.
  abbrev pub open_with : List Bytes → Receiver
  open_with waiting = record { waiting = waiting; is_closed = false }

  -- A quiet loop at its start.
  abbrev pub serving : List Bytes → List Bytes → Socket → Outbound sink
  serving replay live socket = record {
    live_rx = open_with live;
    replay_rx = open_with replay;
    urgent_close_rx = open_with [];
    evicted = false;
    evict_closed = false;
    changed = false;
    socket = socket;
    urgent_open = true;
    evict_open = true;
  }

  module _ (works : (msg : Message) (socket : Socket) → (send msg socket).0 ≡ true) where
    pub send_payload_works :
        (payload : Bytes) (socket : Socket)
        → (send_payload sink is_binary disconnect_frame payload socket).0 ≡ true
    unfolding send_payload
    send_payload_works payload socket = elim (Option-cases (bytes_to_ws_msg payload is_binary)) [
      | inl e ↦ rw (e, send_payload) refl
      | inr (msg, e) ↦ rw (e, send_payload) (works msg socket)
    ]

    -- A burst sends a first part of what waits and leaves the rest.
    drain-sent_all :
        (n : ℕ) (waiting : List Bytes) (socket : Socket)
        → let drained = drain sink is_binary disconnect_frame n waiting socket in
          (drained.0.0 ≡ true)
          × (sent_all drained.1 drained.0.1 ≡ sent_all waiting socket)
          × (length drained.1 ≤ length waiting)
    unfolding drain
    drain-sent_all zero waiting socket = (refl, refl, omega arith)
    drain-sent_all (suc n) [] socket = (refl, refl, omega arith)
    drain-sent_all (suc n) (payload ∷ waiting) socket =
        let (fine, same, shorter) =
          drain-sent_all n waiting
            (send_payload sink is_binary disconnect_frame payload socket).1 in
        rw (send_payload_works payload socket, drain) (fine, same, ground arith)

    pub drain_all-sent_all :
        (waiting : List Bytes) (socket : Socket)
        → drain_all sink is_binary disconnect_frame waiting socket ≡ (sent_all waiting socket, [])
    unfolding drain_all
    drain_all-sent_all [] socket = refl
    drain_all-sent_all (payload ∷ waiting) socket =
        rw (send_payload_works payload socket, drain_all) (drain_all-sent_all waiting _)

    run-next :
        (fuel : ℕ) (o o' : Outbound sink)
        → turn sink is_binary disconnect_frame o ≡ next o'
        → loop (suc fuel) o ≡ loop fuel o'
    unfolding outbound_loop
    run-next fuel o o' e = ground arith

    live_turn :
        (payload : Bytes) (live : List Bytes) (socket : Socket)
        → turn sink is_binary disconnect_frame (serving [] (payload ∷ live) socket)
          ≡ next (serving [] live (send_payload sink is_binary disconnect_frame payload socket).1)
    unfolding turn
    live_turn payload live socket = rw (send_payload_works payload socket, turn) refl

    drain_shorter :
        (n : ℕ) (payload : Bytes) (waiting : List Bytes) (socket : Socket)
        → length (drain sink is_binary disconnect_frame (suc n) (payload ∷ waiting) socket).1
          ≤ length waiting
    unfolding drain
    drain_shorter n payload waiting socket =
        let (_, _, shorter) =
          drain-sent_all n waiting
            (send_payload sink is_binary disconnect_frame payload socket).1 in
        rw (send_payload_works payload socket, drain) shorter

    -- A burst on a socket that works.
    abbrev burst : List Bytes → Socket → (Bool × Socket) × List Bytes
    burst waiting socket =
        drain sink is_binary disconnect_frame outbound_replay_burst waiting socket

    replay_turn :
        (payload : Bytes) (replay live : List Bytes) (socket : Socket)
        → turn sink is_binary disconnect_frame (serving (payload ∷ replay) live socket)
          ≡ next (
              serving
                (burst (payload ∷ replay) socket).1
                live
                (burst (payload ∷ replay) socket).0.1)
    unfolding turn
    replay_turn payload replay live socket =
        let drained = burst (payload ∷ replay) socket in
        ap
          (λ b. after_sends sink is_binary disconnect_frame (b, serving drained.1 live drained.0.1))
          (drain-sent_all outbound_replay_burst (payload ∷ replay) socket).0

    -- On a socket that takes every frame, from the start of a connection to which nothing else
    -- happens, and with more turns than there are frames: the frames of the replay go out before
    -- those of the live channel, each in its order, and then the loop waits for more.
    pub outbound_loop_order :
        (fuel : ℕ) (replay live : List Bytes) (socket : Socket)
        → length replay + length live < fuel
        → loop fuel (serving replay live socket)
          ≡ pending (serving [] [] (sent_all live (sent_all replay socket)))
    unfolding outbound_loop turn
    outbound_loop_order zero replay live socket enough = ground arith
    outbound_loop_order (suc fuel) [] [] socket enough = refl
    outbound_loop_order (suc fuel) [] (payload ∷ live) socket enough =
        run-next fuel (serving [] (payload ∷ live) socket) _ (live_turn payload live socket)
        ∙ outbound_loop_order fuel [] live
            (send_payload sink is_binary disconnect_frame payload socket).1 (omega arith)
    outbound_loop_order (suc fuel) (payload ∷ replay) live socket enough =
        let (_, same, _) = drain-sent_all outbound_replay_burst (payload ∷ replay) socket in
        let drained = burst (payload ∷ replay) socket in
        run-next fuel (serving (payload ∷ replay) live socket) _
          (replay_turn payload replay live socket)
        ∙ outbound_loop_order fuel drained.1 live drained.0.1
            (omega (arith, drain_shorter 511 payload replay socket))
        ∙ ap (λ z. pending (serving [] [] (sent_all live z))) same
