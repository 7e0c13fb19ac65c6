-- ===== src/Replay.antt =====
-- src/pubsub/nats.rs: `replay_since`, the catch-up of one stream for a client that reconnects.
-- What JetStream answers comes in as a `Source`; `tx` is a channel of the interface `Channels`.
-- Timeouts and the end of the message stream are the same to the loop. The yield to the scheduler
-- every 500 messages is left out.
pub mod Rounds
pub mod Loop
pub mod Outcome
pub mod Window
pub mod Complete
use turbocable_server.Prelude.{
  ℕ, ◌+◌, ◌^◌, ◌-◌, Bool, true, false, ◌&&◌, Option, none, some, List, [], ◌∷◌, ◌++◌, Text, Bytes,
  if◌then◌else◌, ltb, leb, nat_beq, max, min,
}
use turbocable_server.Channel.{Channels}
use turbocable_server.Protocol.{Serde, Codec, ServerMessage, broadcast}
use turbocable_server.Nats.{parse_payload}

abbrev pub max_replay_messages : ℕ
max_replay_messages = 10_000

pub data ReplayError : Type 0 where
  -- The requested and the oldest available sequence.
  window_exceeded : ℕ → ℕ → ReplayError
  -- The number delivered, and the limit.
  truncated : ℕ → ℕ → ReplayError
  jet_stream : ReplayError

pub record ReplayDelivery : Type 0 where
  pub delivered : ℕ
  pub peer_gone : Bool
  pub first_delivery_elapsed : Option ℕ

pub data ReplayResult : Type 0 where
  ok : ReplayDelivery → ReplayResult
  err : ReplayError → ReplayResult

-- What `msg_stream.next()` gives under the timeout. A message carries its sequence, if it has one,
-- its payload, and the time since the start of the replay at which it is handed on.
pub data Fetch : Type 0 where
  message : Option ℕ → Bytes → ℕ → Fetch
  fetch_error : Fetch
  ended : Fetch

-- `info.state`, and the messages of the ephemeral consumer; `none` is a failed request.
pub record Source : Type 0 where
  pub info : Option (ℕ × ℕ)
  pub messages : Option (List Fetch)

-- `last_seq.saturating_add(1)`
abbrev pub requested : ℕ → ℕ
requested last_seq = min (last_seq + 1) (2 ^ 64 - 1)

-- The checks of the retention window, on the first sequence and the number of messages.
unfoldable pub check_window : ℕ → ℕ → ℕ → Option ReplayError
check_window last_seq first_sequence messages =
    if ltb 0 messages && ltb (requested last_seq) first_sequence
    then some (window_exceeded (requested last_seq) first_sequence)
    else if nat_beq messages 0 && ltb 0 last_seq
    then some (window_exceeded (requested last_seq) (max first_sequence 1))
    else none

module _ (serde : Serde) (ch : Channels) where
  open serde use {Value}
  open ch use {World, send}

  -- The variables of the loop, and the channels.
  pub record Progress : Type 0 where
    pub count : ℕ
    pub prev_seq : ℕ
    pub first_delivery_elapsed : Option ℕ
    pub world : World

  -- What one round does: go on, leave the loop, or return.
  pub data Round : Type 0 where
    next stop peer_gone missing_sequence : Progress → Round

  -- The frame of a replayed message.
  abbrev pub replayed_message : Text → ℕ → Bytes → ServerMessage Value
  replayed_message stream_name sequence payload =
      broadcast stream_name (parse_payload serde payload) (some true) (some sequence)

  abbrev pub first_of_two : Option ℕ → ℕ → Option ℕ
  first_of_two none elapsed = some elapsed
  first_of_two (some t) elapsed = some t

  module _ (stream_name : Text) (tx : ℕ) (codec : Codec Value) where
    -- A frame that was sent, or that found the receiver gone.
    abbrev pub after_send : ℕ → Progress → Bool × World → Round
    after_send elapsed p (false, w) = peer_gone (record p { world = w })
    after_send elapsed p (true, w) = next (record p {
      count = p.count + 1;
      first_delivery_elapsed = first_of_two p.first_delivery_elapsed elapsed;
      world = w;
    })

    -- One message with a sequence that is ahead of the last one.
    abbrev pub forward : ℕ → Bytes → ℕ → Progress → Round
    forward sequence payload elapsed p =
        elim (codec.encode (replayed_message stream_name sequence payload)) [
          | none ↦ next p
          | some encoded ↦ after_send elapsed p (send tx encoded p.world)
        ]

    unfoldable pub replay_round : Fetch → Progress → Round
    replay_round (message none payload elapsed) p = missing_sequence p
    replay_round (message (some sequence) payload elapsed) p =
        if leb sequence p.prev_seq
        then next p
        else forward sequence payload elapsed (record p { prev_seq = sequence })
    replay_round fetch_error p = stop p
    replay_round ended p = stop p

    -- `while count < MAX_REPLAY_MESSAGES`; with what is left of the message stream.
    unfoldable pub replay_loop : List Fetch → Progress → Round × List Fetch
    replay_loop [] p = (stop p, [])
    replay_loop (x ∷ rest) p = elim (ltb p.count max_replay_messages) [
      | false ↦ (stop p, x ∷ rest)
      | true ↦ elim (replay_round x p) [
        | next p' ↦ replay_loop rest p'
        | stop p' ↦ (stop p', rest)
        | peer_gone p' ↦ (peer_gone p', rest)
        | missing_sequence p' ↦ (missing_sequence p', rest)
      ]
    ]

    abbrev delivery : Bool → Progress → ReplayDelivery
    delivery gone p = record {
      delivered = p.count;
      peer_gone = gone;
      first_delivery_elapsed = p.first_delivery_elapsed;
    }

    -- The truncation probe: one more fetch once the cap is reached.
    abbrev probe : List Fetch → Progress → ReplayResult
    probe (message _ _ _ ∷ rest) p = err (truncated p.count max_replay_messages)
    probe (fetch_error ∷ rest) p = ok (delivery false p)
    probe (ended ∷ rest) p = ok (delivery false p)
    probe [] p = ok (delivery false p)

    -- What follows the loop.
    abbrev pub conclude : Round × List Fetch → ReplayResult × World
    conclude (next p, rest) = (ok (delivery false p), p.world)
    conclude (stop p, rest) = (
      if nat_beq p.count max_replay_messages then probe rest p else ok (delivery false p),
      p.world,
    )
    conclude (peer_gone p, rest) = (ok (delivery true p), p.world)
    conclude (missing_sequence p, rest) = (err jet_stream, p.world)

    abbrev pub start_of : ℕ → World → Progress
    start_of last_seq w = record {
      count = 0;
      prev_seq = last_seq;
      first_delivery_elapsed = none;
      world = w;
    }

    unfoldable pub replay_since : Source → ℕ → World → ReplayResult × World
    unfolding check_window
    replay_since source last_seq w = elim source.info [
      | none ↦ (err jet_stream, w)
      | some (first_sequence, messages) ↦ elim (check_window last_seq first_sequence messages) [
        | some e ↦ (err e, w)
        | none ↦ elim source.messages [
          | none ↦ (err jet_stream, w)
          | some fetches ↦ conclude (replay_loop fetches (start_of last_seq w))
        ]
      ]
    ]
