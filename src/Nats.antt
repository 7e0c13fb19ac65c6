-- ===== src/Nats.antt =====
-- src/pubsub/nats.rs: subjects, and the fan-out of one message of the stream. The NATS client and
-- JetStream are not modelled: their messages come in as values of `NatsMessage`.
pub mod Fanout
pub mod Consumer
use turbocable_server.Prelude.{
  ℕ, ◌+◌, Bool, true, false, not, Option, none, some, List, [], ◌∷◌, ◌++◌, Text, Bytes, codes,
  if◌then◌else◌, length, text_eq, ltb,
}
use turbocable_server.Prelude.Dict.{Dict, get, insert, get_or}
use turbocable_server.Text.{strip_prefix}
use turbocable_server.Channel.{Channels}
use turbocable_server.Protocol.{Serde, Codec, ServerMessage, broadcast}
use turbocable_server.RateLimiter.{F64, StreamRateLimiter, check}
use turbocable_server.Registry.{Registry, FanoutResult, fanout_encoded}

abbrev pub subject_prefix : Text
subject_prefix = codes "TURBOCABLE."

-- `format!("{SUBJECT_PREFIX}{stream_name}")`
unfoldable pub subject_for : Text → Text
subject_for stream_name = subject_prefix ++ stream_name

unfoldable pub extract_stream_name : Text → Text
extract_stream_name subject = elim (strip_prefix subject_prefix subject) [
  | none ↦ subject
  | some name ↦ name
]

pub record NatsMessage : Type 0 where
  pub subject : Text
  pub payload : Bytes
  -- The stream sequence of `msg.info()`, if the message carries it.
  pub sequence : Option ℕ

abbrev pub unwrap_or_default : Option Bytes → Bytes
unwrap_or_default none = []
unwrap_or_default (some b) = b

module _ (serde : Serde) where
  open serde use {
    Value, null, value_from_json, value_from_msgpack, message_to_json, message_to_msgpack,
  }

  -- JSON first, then MessagePack, then null.
  unfoldable pub parse_payload : Bytes → Value
  parse_payload payload = elim (value_from_json payload) [
    | some value ↦ value
    | none ↦ elim (value_from_msgpack payload) [ some value ↦ value | none ↦ null ]
  ]

  -- The frame of a live message.
  abbrev pub live_message : NatsMessage → ServerMessage Value
  live_message msg =
      broadcast (extract_stream_name msg.subject) (parse_payload msg.payload) none msg.sequence

  module _ (f : F64) (ch : Channels) where
    open ch use {World}
    open f use {I64, i64_max, i64_eq}

    -- What `process_nats_message` reads and writes, the counters among it.
    pub record Node : Type 0 where
      pub registry : Registry
      pub world : World
      pub rate_limiter : Option (StreamRateLimiter f)
      pub messages_fanned_out : ℕ
      pub forced_reconnect_backpressure_total : ℕ
      pub stream_rate_limited_total : Dict Text ℕ
      pub stream_tokens_available : Dict Text I64

    -- The rate-limit check: whether the message goes on.
    unfoldable pub admit : ℕ → Text → Node → Bool × Node
    admit now stream_name n = elim n.rate_limiter [
      | none ↦ (true, n)
      | some rl ↦
          let ((allow, tokens), rl') = check f now stream_name rl in
          let sampled =
            if i64_eq tokens i64_max
            then n.stream_tokens_available
            else insert stream_name tokens n.stream_tokens_available in
          let dropped =
            if allow
            then n.stream_rate_limited_total
            else insert stream_name (get_or 0 stream_name n.stream_rate_limited_total + 1)
                n.stream_rate_limited_total in
          (
            allow,
            record n {
              rate_limiter = some rl';
              stream_tokens_available = sampled;
              stream_rate_limited_total = dropped;
            },
          )
    ]

    -- The fan-out of an admitted message, and the counters of its result.
    unfoldable pub fan_out : NatsMessage → Node → Node
    fan_out msg n =
        let json_bytes = unwrap_or_default (message_to_json (live_message msg)) in
        let msgpack_bytes = unwrap_or_default (message_to_msgpack (live_message msg)) in
        let (result, r, w) =
          fanout_encoded ch (extract_stream_name msg.subject) json_bytes msgpack_bytes
            (n.registry, n.world) in
        record n {
          registry = r;
          world = w;
          messages_fanned_out = n.messages_fanned_out + result.sent;
          forced_reconnect_backpressure_total =
              n.forced_reconnect_backpressure_total + length result.evicted;
        }

    unfoldable pub process_nats_message : ℕ → NatsMessage → Node → Node
    process_nats_message now msg n =
        let (allow, n') = admit now (extract_stream_name msg.subject) n in
        if allow then fan_out msg n' else n'

    -- The loop of `run_consumer` over the messages that arrive, each with its time.
    unfoldable pub process_all : List (ℕ × NatsMessage) → Node → Node
    process_all [] n = n
    process_all ((now, msg) ∷ rest) n = process_all rest (process_nats_message now msg n)
