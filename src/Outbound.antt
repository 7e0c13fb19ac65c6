-- ===== src/Outbound.antt =====
-- src/connection/handler.rs: `outbound_loop`, the writer of a connection's socket. A receiver is
-- what waits on it and whether its senders are all gone; `recv` is pending on an open empty one.
-- One turn is one `select!`, whose branches are tried in the order of the source (`biased`). The
-- socket is the interface `Sink`.
pub mod Order
pub mod Priority
pub mod Arrivals
use turbocable_server.Prelude.{
  ℕ, zero, suc, ◌-◌, Bool, true, false, Option, none, some, List, [], ◌∷◌, Text, Bytes, codes,
}
use turbocable_server.Text.Utf8.{from_utf8}

pub data Message : Type 0 where
  text : Text → Message
  binary : Bytes → Message
  close_frame : ℕ → Text → Message

-- `sender.send(msg)`, false on an error, and `sender.close()`.
pub record Sink : Type 1 where
  pub Socket : Type 0
  pub send : Message → Socket → Bool × Socket
  pub close : Socket → Socket

unfoldable pub bytes_to_ws_msg : Bytes → Bool → Option Message
bytes_to_ws_msg payload true = some (binary payload)
bytes_to_ws_msg payload false = elim (from_utf8 payload) [ none ↦ none | some s ↦ some (text s) ]

abbrev pub outbound_replay_burst : ℕ
outbound_replay_burst = 512

pub record Receiver : Type 0 where
  pub waiting : List Bytes
  pub is_closed : Bool

module _ (sink : Sink) where
  open sink use {Socket, send, close}

  -- The arguments and the variables of the loop. `evicted` is whether a signal waits on `evict_rx`,
  -- and `changed` whether `shutdown_rx.changed()` is ready.
  pub record Outbound : Type 0 where
    pub live_rx : Receiver
    pub replay_rx : Receiver
    pub urgent_close_rx : Receiver
    pub evicted : Bool
    pub evict_closed : Bool
    pub changed : Bool
    pub socket : Socket
    pub urgent_open : Bool
    pub evict_open : Bool

  -- What one turn does: nothing is ready, another turn follows, or the loop has ended.
  pub data Turn : Type 0 where
    pending next finished : Outbound → Turn

  module _ (is_binary : Bool) (disconnect_frame : Bytes) where
    -- A payload that is no message is dropped; false is an error of the socket.
    unfoldable pub send_payload : Bytes → Socket → Bool × Socket
    send_payload payload socket = elim (bytes_to_ws_msg payload is_binary) [
      | none ↦ (true, socket)
      | some msg ↦ send msg socket
    ]

    -- At most `n` rounds of `try_recv`, up to the first error of the socket; with what still waits.
    unfoldable pub drain : ℕ → List Bytes → Socket → (Bool × Socket) × List Bytes
    drain zero waiting socket = ((true, socket), waiting)
    drain (suc n) [] socket = ((true, socket), [])
    drain (suc n) (payload ∷ waiting) socket =
        let (sent, socket') = send_payload payload socket in
        elim sent [ true ↦ drain n waiting socket' | false ↦ ((false, socket'), waiting) ]

    -- `while let Ok(payload) = rx.try_recv()`: what waits bounds the rounds.
    unfoldable pub drain_all : List Bytes → Socket → Socket × List Bytes
    drain_all [] socket = (socket, [])
    drain_all (payload ∷ waiting) socket =
        let (sent, socket') = send_payload payload socket in
        elim sent [ true ↦ drain_all waiting socket' | false ↦ (socket', waiting) ]

    abbrev left : List Bytes → Receiver → Receiver
    left waiting rx = record rx { waiting = waiting }

    -- A last frame, and the end.
    abbrev pub close_with : Bytes → Outbound → Turn
    close_with payload o = finished (record o { socket = close (send_payload payload o.socket).1 })

    -- The shutdown branch.
    unfoldable pub shut_down : Outbound → Outbound
    shut_down o =
        let (socket, replay) = drain_all o.replay_rx.waiting o.socket in
        let (socket', live) = drain_all o.live_rx.waiting socket in
        record o {
          socket = (send (close_frame 1001 (codes "server shutting down")) socket').1;
          replay_rx = left replay o.replay_rx;
          live_rx = left live o.live_rx;
        }

    -- A branch that sent: on an error the loop is left, and the socket closed.
    abbrev pub after_sends : Bool × Outbound → Turn
    after_sends (true, o) = next o
    after_sends (false, o) = finished (record o { socket = close o.socket })

    abbrev pub live_branch : Outbound → Turn
    live_branch o = elim o.live_rx.waiting [
      | [] ↦ elim o.live_rx.is_closed [
        | true ↦ finished (record o { socket = close o.socket })
        | false ↦ pending o
      ]
      | payload ∷ waiting ↦
          let (sent, socket) = send_payload payload o.socket in
          after_sends (sent, record o { socket = socket; live_rx = left waiting o.live_rx })
    ]

    -- A frame of the replay and up to 511 more; a closed receiver is ready with nothing.
    abbrev pub replay_branch : Outbound → Turn
    replay_branch o = elim o.replay_rx.waiting [
      | [] ↦ elim o.replay_rx.is_closed [ true ↦ next o | false ↦ live_branch o ]
      | payload ∷ waiting ↦
          let ((sent, socket), rest) = drain outbound_replay_burst (payload ∷ waiting) o.socket in
          after_sends (sent, record o { socket = socket; replay_rx = left rest o.replay_rx })
    ]

    abbrev pub shutdown_branch : Outbound → Turn
    shutdown_branch o = elim o.changed [ true ↦ finished (shut_down o) | false ↦ replay_branch o ]

    abbrev pub urgent_branch : Outbound → Turn
    urgent_branch o = elim o.urgent_open [
      | false ↦ shutdown_branch o
      | true ↦ elim o.urgent_close_rx.waiting [
        | [] ↦ elim o.urgent_close_rx.is_closed [
          | true ↦ next (record o { urgent_open = false })
          | false ↦ shutdown_branch o
        ]
        | payload ∷ waiting ↦ close_with payload o
      ]
    ]

    unfoldable pub turn : Outbound → Turn
    turn o = elim o.evict_open [
      | false ↦ urgent_branch o
      | true ↦ elim o.evicted [
        | true ↦ close_with disconnect_frame o
        | false ↦ elim o.evict_closed [
          | true ↦ next (record o { evict_open = false })
          | false ↦ urgent_branch o
        ]
      ]
    ]

    -- The loop over at most `fuel` turns, while nothing new arrives.
    unfoldable pub outbound_loop : ℕ → Outbound → Turn
    outbound_loop zero o = next o
    outbound_loop (suc fuel) o = elim (turn o) [
      | pending o' ↦ pending o'
      | next o' ↦ outbound_loop fuel o'
      | finished o' ↦ finished o'
    ]
