-- ===== src/Nats/Fanout.antt =====
-- src/pubsub/nats.rs: the way of a published message to the subscribers of its stream.
use turbocable_server.Prelude.{
  ℕ, ◌+◌, ◌≡◌, refl, ap, ◌∙◌, true, false, some, List, [], ◌∷◌, ◌++◌, Text, Bytes, contains,
  if◌then◌else◌, nat_eq, text_eq, arith, is_some, Option-cases, Bool-cases, inl, inr, length,
}
use turbocable_server.Prelude.Dict.{get}
use turbocable_server.Text.{strip_prefix}
use turbocable_server.Channel.{Channels}
use turbocable_server.Protocol.{Serde}
use turbocable_server.RateLimiter.{F64}
use turbocable_server.Registry.{
  Registry, ConnectionEntry, FanoutResult, subscribers, fanout_encoded,
}
use turbocable_server.Registry.Invariant.{Inv}
use turbocable_server.Registry.Broadcast.{
  fanout_counts, fanout_delivers_once, fanout_removes_evicted,
}
use turbocable_server.Nats.{
  subject_for, extract_stream_name, NatsMessage, Node, admit, fan_out, process_nats_message,
  process_all, live_message, unwrap_or_default,
}

-- A message published on a stream comes back under the name of that stream.
pub extract_stream_name-subject_for : (name : Text) → extract_stream_name (subject_for name) ≡ name
unfolding extract_stream_name subject_for strip_prefix
extract_stream_name-subject_for name = refl

module _ (serde : Serde) (f : F64) (ch : Channels) where
  open serde use {Value, message_to_json, message_to_msgpack}
  open ch use {World, queued}

  abbrev pub process : ℕ → NatsMessage → Node serde f ch → Node serde f ch
  process = process_nats_message serde f ch

  admit_keeps :
      (now : ℕ) (name : Text) (n : Node serde f ch)
      → ((admit serde f ch now name n).1.registry ≡ n.registry)
        × ((admit serde f ch now name n).1.world ≡ n.world)
        × ((admit serde f ch now name n).1.messages_fanned_out ≡ n.messages_fanned_out)
        × ((admit serde f ch now name n).1.forced_reconnect_backpressure_total
            ≡ n.forced_reconnect_backpressure_total)
  unfolding admit
  admit_keeps now name n = elim (Option-cases n.rate_limiter) [
    | inl e ↦ ground arith
    | inr (rl, e) ↦ ground arith
  ]

  -- The frame that a subscriber gets for a published payload, in the encoding of its connection.
  abbrev pub frame_for : ConnectionEntry → NatsMessage → Bytes
  frame_for entry msg =
      if entry.is_binary
      then unwrap_or_default (message_to_msgpack (live_message serde msg))
      else unwrap_or_default (message_to_json (live_message serde msg))

  -- A message that the rate limiter refuses changes neither the registry nor the channels nor the
  -- two counters of the fan-out.
  pub process_limited :
      (now : ℕ) (msg : NatsMessage) (n : Node serde f ch)
      → (admit serde f ch now (extract_stream_name msg.subject) n).0 ≡ false
      → ((process now msg n).registry ≡ n.registry)
        × ((process now msg n).world ≡ n.world)
        × ((process now msg n).messages_fanned_out ≡ n.messages_fanned_out)
        × ((process now msg n).forced_reconnect_backpressure_total
            ≡ n.forced_reconnect_backpressure_total)
  unfolding process_nats_message
  process_limited now msg n limited =
      ground (arith, limited, admit_keeps now (extract_stream_name msg.subject) n)

  -- The payloads of the two encodings.
  abbrev pub json_bytes : NatsMessage → Bytes
  json_bytes msg = unwrap_or_default (message_to_json (live_message serde msg))

  abbrev pub msgpack_bytes : NatsMessage → Bytes
  msgpack_bytes msg = unwrap_or_default (message_to_msgpack (live_message serde msg))

  abbrev pub fanned : Text → NatsMessage → Registry → World → FanoutResult × Registry × World
  fanned name msg r w = fanout_encoded ch name (json_bytes msg) (msgpack_bytes msg) (r, w)

  -- An admitted message is one fan-out from the registry and the channels of before.
  pub process_fans_out :
      (now : ℕ) (name : Text) (msg : NatsMessage) (n : Node serde f ch)
      → extract_stream_name msg.subject ≡ name
      → (admit serde f ch now name n).0 ≡ true
      → ((process now msg n).registry ≡ (fanned name msg n.registry n.world).1)
        × ((process now msg n).world ≡ (fanned name msg n.registry n.world).2)
        × ((process now msg n).messages_fanned_out
            ≡ n.messages_fanned_out + (fanned name msg n.registry n.world).0.sent)
        × ((process now msg n).forced_reconnect_backpressure_total
            ≡ n.forced_reconnect_backpressure_total
              + length (fanned name msg n.registry n.world).0.evicted)
  unfolding process_nats_message fan_out
  process_fans_out now name msg n e pass = ground (arith, e, pass, admit_keeps now name n)

  fanned_reaches :
      (name : Text) (msg : NatsMessage) (r : Registry) (w : World) (c : ℕ) (entry : ConnectionEntry)
      → Inv r
      → ((d : ℕ) (g : ConnectionEntry)
          → get d r.connections ≡ some g
          → g.sender ≡ entry.sender
          → d ≡ c)
      → get c r.connections ≡ some entry
      → contains c (subscribers r name) ≡ true
      → queued (fanned name msg r w).2 entry.sender ≡ (
          if is_some (get c (fanned name msg r w).1.connections)
          then queued w entry.sender ++ frame_for entry msg ∷ []
          else queued w entry.sender)
  fanned_reaches name msg r w c entry v own here member = ground (
    arith,
    here,
    fanout_delivers_once ch r v w name (json_bytes msg) (msgpack_bytes msg) c entry own here member,
    ((fanout_removes_evicted ch r v w name (json_bytes msg) (msgpack_bytes msg)).1 c).0,
  )

  -- A message on the subject of a stream that the rate limiter admits, on a node whose registry
  -- keeps its invariant: a registered subscriber of the stream whose channel no other connection
  -- has either gets exactly the message's frame in its encoding, behind what waits for it, and
  -- stays registered, or gets nothing and is no longer registered.
  pub published_reaches_subscriber :
      (now : ℕ) (name : Text) (msg : NatsMessage) (n : Node serde f ch) (c : ℕ)
      (entry : ConnectionEntry)
      → Inv n.registry
      → msg.subject ≡ subject_for name
      → (admit serde f ch now name n).0 ≡ true
      → ((d : ℕ) (g : ConnectionEntry)
          → get d n.registry.connections ≡ some g
          → g.sender ≡ entry.sender
          → d ≡ c)
      → get c n.registry.connections ≡ some entry
      → contains c (subscribers n.registry name) ≡ true
      → queued (process now msg n).world entry.sender ≡ (
          if is_some (get c (process now msg n).registry.connections)
          then queued n.world entry.sender ++ frame_for entry msg ∷ []
          else queued n.world entry.sender)
  published_reaches_subscriber now name msg n c entry v e pass own here member =
      let named : extract_stream_name msg.subject ≡ name =
        ap extract_stream_name e ∙ extract_stream_name-subject_for name in
      let (to_registry, to_world, _, _) = process_fans_out now name msg n named pass in
      rw (to_registry, to_world)
        (fanned_reaches name msg n.registry n.world c entry v own here member)

  -- On a node whose registry keeps its invariant, a message that the rate limiter admits adds to
  -- the two counters of the fan-out together exactly the number of subscribers of its stream.
  pub process_counts :
      (now : ℕ) (msg : NatsMessage) (n : Node serde f ch)
      → Inv n.registry
      → (admit serde f ch now (extract_stream_name msg.subject) n).0 ≡ true
      → (process now msg n).messages_fanned_out
          + (process now msg n).forced_reconnect_backpressure_total
        ≡ n.messages_fanned_out
          + n.forced_reconnect_backpressure_total
          + length (subscribers n.registry (extract_stream_name msg.subject))
  process_counts now msg n v pass =
      let name = extract_stream_name msg.subject in
      ground (
        arith,
        process_fans_out now name msg n refl pass,
        fanout_counts ch n.registry v n.world name (json_bytes msg) (msgpack_bytes msg),
      )

  process-Inv :
      (now : ℕ) (msg : NatsMessage) (n : Node serde f ch)
      → Inv n.registry
      → Inv (process now msg n).registry
  process-Inv now msg n v =
      elim (Bool-cases (admit serde f ch now (extract_stream_name msg.subject) n).0) [
        | inl pass ↦
            let name = extract_stream_name msg.subject in
            rw ((process_fans_out now name msg n refl pass).0)
              (fanout_removes_evicted ch n.registry v n.world name (json_bytes msg)
                (msgpack_bytes msg)).0
        | inr limited ↦ rw ((process_limited now msg n limited).0) v
      ]

  -- Whatever messages arrive and whenever, a registry that keeps its invariant keeps it through
  -- them.
  pub process_all-Inv :
      (arrivals : List (ℕ × NatsMessage)) (n : Node serde f ch)
      → Inv n.registry
      → Inv (process_all serde f ch arrivals n).registry
  unfolding process_all
  process_all-Inv [] n v = v
  process_all-Inv ((now, msg) ∷ rest) n v =
      process_all-Inv rest (process now msg n) (process-Inv now msg n v)
