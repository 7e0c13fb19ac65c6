-- ===== src/Outbound/Arrivals/Turns.antt =====
-- src/connection/handler.rs: what one turn of `outbound_loop` may do, in any state, on a socket
-- that takes every frame.
use turbocable_server.Prelude.{
  ℕ, zero, suc, ◌≡◌, refl, sym, subst, ap, Bool, true, false, List, [], ◌∷◌, ◌++◌, Bytes, codes,
  arith, Bool-cases, List-cases, inl, inr, ◌∙◌,
}
use turbocable_server.Outbound.{
  Message, close_frame, Sink, Outbound, Turn, pending, next, finished, send_payload, drain, turn,
  outbound_replay_burst, shut_down, close_with, urgent_branch, shutdown_branch, replay_branch,
  live_branch,
}
use turbocable_server.Outbound.Order.{sent_all, send_payload_works}
use turbocable_server.Outbound.Priority.{shut_down_flushes}

module _ (sink : Sink) (is_binary : Bool) (disconnect_frame : Bytes) where
  open sink use {Socket, send, close}

  abbrev sent : List Bytes → Socket → Socket
  sent = sent_all sink is_binary disconnect_frame

  -- Nothing was received from the replay and live channels, and nothing sent.
  abbrev pub Same : Outbound sink → Outbound sink → Type 0
  Same o o' =
      (o'.replay_rx.waiting ≡ o.replay_rx.waiting)
      × (o'.live_rx.waiting ≡ o.live_rx.waiting)
      × (o'.socket ≡ o.socket)

  -- Why a loop has ended, and its socket. It was closed after one last frame, the disconnect for an
  -- eviction or the next urgent frame; or, for a shutdown, what waited was flushed before the close
  -- frame 1001; or it was closed as all live senders are gone and no live frame waits.
  pub data Ended (o o' : Outbound sink) : Type 0 where
    evicted :
        o.evicted ≡ true → o'.socket ≡ close (sent (disconnect_frame ∷ []) o.socket) → Ended o o'
    last_words :
        (payload : Bytes) (waiting : List Bytes)
        → o.urgent_close_rx.waiting ≡ payload ∷ waiting
        → o'.socket ≡ close (sent (payload ∷ []) o.socket)
        → Ended o o'
    flushed :
        o.changed ≡ true
        → o'.socket
          ≡ (send
              (close_frame 1001 (codes "server shutting down"))
              (sent o.live_rx.waiting (sent o.replay_rx.waiting o.socket))).1
        → Ended o o'
    abandoned :
        o.live_rx.is_closed ≡ true
        → o.live_rx.waiting ≡ []
        → o'.socket ≡ close o.socket
        → Ended o o'

  pub data Did (o : Outbound sink) : Turn sink → Type 0 where
    waits : (o' : Outbound sink) → Same o o' → Did o (pending o')
    goes_on : (o' : Outbound sink) → Same o o' → Did o (next o')
    replays :
        (burst : List Bytes) (o' : Outbound sink)
        → o.replay_rx.waiting ≡ burst ++ o'.replay_rx.waiting
        → o'.live_rx.waiting ≡ o.live_rx.waiting
        → o'.socket ≡ sent burst o.socket
        → Did o (next o')
    lives :
        (payload : Bytes) (o' : Outbound sink)
        → o'.replay_rx.waiting ≡ o.replay_rx.waiting
        → o.live_rx.waiting ≡ payload ∷ o'.live_rx.waiting
        → o'.socket ≡ sent (payload ∷ []) o.socket
        → Did o (next o')
    ends : (o' : Outbound sink) → Ended o o' → Did o (finished o')

  module _ (works : (msg : Message) (socket : Socket) → (send msg socket).0 ≡ true) where
    -- A burst sends a first part of what waits.
    drain_prefix :
        (n : ℕ) (waiting : List Bytes) (socket : Socket)
        → let drained = drain sink is_binary disconnect_frame n waiting socket in
          (burst : List Bytes) × (drained.0.0 ≡ true)
          × (waiting ≡ burst ++ drained.1)
          × (drained.0.1 ≡ sent burst socket)
    unfolding drain
    drain_prefix zero waiting socket = ([], refl, refl, refl)
    drain_prefix (suc n) [] socket = ([], refl, refl, refl)
    drain_prefix (suc n) (payload ∷ waiting) socket =
        let (burst, fine, parts, same) =
          drain_prefix n waiting (send_payload sink is_binary disconnect_frame payload socket).1 in
        rw (send_payload_works sink is_binary disconnect_frame works payload socket, drain)
          (payload ∷ burst, fine, ap (λ z. payload ∷ z) parts, same)

    by : (o : Outbound sink) (t t' : Turn sink) → t ≡ t' → Did o t' → Did o t
    by o t t' e d = subst (Did o) (sym e) d

    live_branch-Did : (o : Outbound sink) → Did o (live_branch sink is_binary disconnect_frame o)
    live_branch-Did o = elim (List-cases o.live_rx.waiting) [
      | inl e ↦ elim (Bool-cases o.live_rx.is_closed) [
        | inl e' ↦
            by o _ (finished (record o { socket = close o.socket })) (ground arith)
              (ends _ (abandoned e' e refl))
        | inr e' ↦ by o _ (pending o) (ground arith) (waits o (refl, refl, refl))
      ]
      | inr (payload, waiting, e) ↦
          let o' : Outbound sink = record o {
            socket = (send_payload sink is_binary disconnect_frame payload o.socket).1;
            live_rx = record o.live_rx { waiting = waiting };
          } in
          by o _ (next o')
            (ground
              (arith, send_payload_works sink is_binary disconnect_frame works payload o.socket))
            (lives payload o' refl e refl)
    ]

    replay_branch-Did :
        (o : Outbound sink) → Did o (replay_branch sink is_binary disconnect_frame o)
    replay_branch-Did o = elim (List-cases o.replay_rx.waiting) [
      | inl e ↦ elim (Bool-cases o.replay_rx.is_closed) [
        | inl e' ↦ by o _ (next o) (ground arith) (goes_on o (refl, refl, refl))
        | inr e' ↦
            by o _ (live_branch sink is_binary disconnect_frame o) (ground arith)
              (live_branch-Did o)
      ]
      | inr (payload, waiting, e) ↦
          let drained =
            drain sink is_binary disconnect_frame outbound_replay_burst (payload ∷ waiting)
              o.socket in
          let (burst, fine, parts, same) =
            drain_prefix outbound_replay_burst (payload ∷ waiting) o.socket in
          let o' : Outbound sink = record o {
            socket = drained.0.1;
            replay_rx = record o.replay_rx { waiting = drained.1 };
          } in
          by o _ (next o') (ground arith) (replays burst o' (e ∙ parts) refl same)
    ]

    shutdown_branch-Did :
        (o : Outbound sink) → Did o (shutdown_branch sink is_binary disconnect_frame o)
    shutdown_branch-Did o = elim (Bool-cases o.changed) [
      | inl e ↦
          by o _ (finished (shut_down sink is_binary disconnect_frame o)) (ground arith)
            (ends _ (flushed e (shut_down_flushes sink is_binary disconnect_frame works o)))
      | inr e ↦
          by o _ (replay_branch sink is_binary disconnect_frame o) (ground arith)
            (replay_branch-Did o)
    ]

    urgent_branch-Did :
        (o : Outbound sink) → Did o (urgent_branch sink is_binary disconnect_frame o)
    urgent_branch-Did o = elim (Bool-cases o.urgent_open) [
      | inl e ↦ elim (List-cases o.urgent_close_rx.waiting) [
        | inl e' ↦ elim (Bool-cases o.urgent_close_rx.is_closed) [
          | inl e'' ↦
              by o _ (next (record o { urgent_open = false })) (ground arith)
                (goes_on _ (refl, refl, refl))
          | inr e'' ↦
              by o _ (shutdown_branch sink is_binary disconnect_frame o) (ground arith)
                (shutdown_branch-Did o)
        ]
        | inr (payload, waiting, e') ↦
            by o _ (close_with sink is_binary disconnect_frame payload o) (ground arith)
              (ends _ (last_words payload waiting e' refl))
      ]
      | inr e ↦
          by o _ (shutdown_branch sink is_binary disconnect_frame o) (ground arith)
            (shutdown_branch-Did o)
    ]

    pub turn-Did : (o : Outbound sink) → Did o (turn sink is_binary disconnect_frame o)
    unfolding turn
    turn-Did o = elim (Bool-cases o.evict_open) [
      | inl e ↦ elim (Bool-cases o.evicted) [
        | inl e' ↦
            by o _ (close_with sink is_binary disconnect_frame disconnect_frame o) (ground arith)
              (ends _ (evicted e' refl))
        | inr e' ↦ elim (Bool-cases o.evict_closed) [
          | inl e'' ↦
              by o _ (next (record o { evict_open = false })) (ground arith)
                (goes_on _ (refl, refl, refl))
          | inr e'' ↦
              by o _ (urgent_branch sink is_binary disconnect_frame o) (ground arith)
                (urgent_branch-Did o)
        ]
      ]
      | inr e ↦
          by o _ (urgent_branch sink is_binary disconnect_frame o) (ground arith)
            (urgent_branch-Did o)
    ]
