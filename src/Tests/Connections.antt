-- ===== src/Tests/Connections.antt =====
-- The life of connections: acceptance, frames, the socket's writer, and messages from NATS.
use turbocable_server.Prelude.{
  ℕ, ◌+◌, ◌≡◌, refl, true, false, none, some, List, [], ◌∷◌, length, text_eq, text_beq, nat_eq,
  arith, is_some, if◌then◌else◌,
}
use turbocable_server.Prelude.Dict.{get}
use turbocable_server.Config.{soft_enforce}
use turbocable_server.Limiter as limiter
use turbocable_server.Limiter.{count_for}
use turbocable_server.Channel.Bounded.{bounded, idle}
use turbocable_server.Protocol.{protocol_for}
use turbocable_server.Registry.{subscribers}
use turbocable_server.Nats.{
  NatsMessage, Node, subject_for, extract_stream_name, process_nats_message, admit,
}
use turbocable_server.Text.{strip_prefix}
use turbocable_server.Nats.Fanout.{frame_for, published_reaches_subscriber, process_counts}
use turbocable_server.RateLimiter.{StreamRateLimiter, check, try_consume}
use turbocable_server.RateLimiter.Exact.{exact, giga}
use turbocable_server.Handler.{handle_subscribe, AppState, Gateway, Metrics}
use turbocable_server.Handler.Answers.{Answers, handle_subscribe-Answers}
use turbocable_server.Handler.Access.{IsAuthorized}
use turbocable_server.Socket.{
  Inbound, text, binary, close, tick, Handles, handle_socket, inbound_loop, new_session, connected,
  enter, context,
}
use turbocable_server.Socket as socket
use turbocable_server.Socket.Life.{Settles, run, handle_socket-Settles, connected-IsAuthorized}
use turbocable_server.Socket.Gate.{Waits, inbound_loop-Waits}
use turbocable_server.Outbound.{
  close_frame, Message, Outbound, pending, next, outbound_loop, shut_down,
}
use turbocable_server.Outbound as outbound
use turbocable_server.Outbound.Order.{serving, outbound_loop_order}
use turbocable_server.Outbound.Priority.{abandoned, spinning, outbound_loop_spins}
use turbocable_server.Tests.Fixtures.{room, plain, plain_codec, trusting, counting, printer}
use turbocable_server.Tests.Registries.{
  two, two-Inv, first, first_registered, first_subscribed, own_channel, third_free,
}

abbrev pub app : AppState
app = record { replay_enforcement = soft_enforce; has_presence = true; has_nats = true }

abbrev no_metrics : Metrics
no_metrics = record {
  client_reconnect_handshake_total = 0;
  handshake_ok_replay_capable_total = 0;
  handshake_ok_legacy_total = 0;
  handshake_rejected_total = 0;
  handshake_legacy_warn_total = 0;
  handshake_rejected_non_replay_capable_total = 0;
  handshake_soft_non_replay_subscribe_allowed_total = 0;
}

abbrev gateway : Gateway plain bounded counting
gateway = record { registry = two; world = idle 4; state = 0; metrics = no_metrics; tasks = [] }

abbrev pub handles : Handles
handles = record { live_tx = 30; replay_tx = 31; urgent_close_tx = 32; evict_tx = 33 }

-- A hello, a subscription to the room, and the end.
abbrev events : List Inbound
events = binary (b'h' ∷ []) ∷ binary (b's' ∷ room) ∷ tick 5 ∷ close ∷ []

abbrev node : socket.Node plain bounded counting app trusting ℕ
node = record {
  limiter = limiter.new 2;
  verifier = some (record { key = b'k' ∷ []; pem = b'k' ∷ [] });
  gateway = gateway;
  connections_rejected = 0;
  connections_total = 0;
  refusals = [];
}

handle_socket-Settles_example : Settles plain bounded counting app trusting ℕ node (
    run plain bounded counting app trusting ℕ 50 127
      (protocol_for none)
      (some (b'u' ∷ []))
      handles
      events
      node)
handle_socket-Settles_example =
    handle_socket-Settles plain bounded counting app trusting ℕ 50 127 none (some (b'u' ∷ []))
      handles events node two-Inv third_free

connected-IsAuthorized_example :
    IsAuthorized plain bounded counting app
      (context plain bounded counting app two.next_id plain_codec handles (room ∷ []) none)
      (inbound_loop plain bounded counting app
        (context plain bounded counting app two.next_id plain_codec handles (room ∷ []) none)
        events
        new_session
        (enter plain bounded counting app plain_codec false handles gateway).1).1.registry
connected-IsAuthorized_example =
    connected-IsAuthorized plain bounded counting app plain_codec false handles (room ∷ []) none
      gateway two-Inv third_free events

handle_subscribe-Answers_example :
    let ctx = context plain bounded counting app two.next_id plain_codec handles (room ∷ []) none in
    Answers plain bounded counting app ctx room new_session gateway
      (handle_subscribe plain bounded counting app ctx room new_session gateway).1
handle_subscribe-Answers_example =
    handle_subscribe-Answers plain bounded counting app
      (context plain bounded counting app two.next_id plain_codec handles (room ∷ []) none) room
      new_session gateway

-- A subscription and a publication before any hello.
abbrev early : List Inbound
early = binary (b's' ∷ room) ∷ binary (b'm' ∷ room) ∷ []

inbound_loop-Waits_example :
    let ctx = context plain bounded counting app two.next_id plain_codec handles (room ∷ []) none in
    Waits plain bounded counting app ctx refl new_session gateway
      (inbound_loop plain bounded counting app ctx early new_session gateway)
inbound_loop-Waits_example =
    inbound_loop-Waits plain bounded counting app
      (context plain bounded counting app two.next_id plain_codec handles (room ∷ []) none) refl
      early new_session gateway (tt, (tt, tt)) refl

outbound_loop_order_example :
    outbound_loop printer true [] 4
      (serving printer true [] ((b'r' ∷ []) ∷ []) ((b'l' ∷ []) ∷ []) [])
    ≡ pending (
        serving printer true [] [] []
          (outbound.binary (b'r' ∷ []) ∷ outbound.binary (b'l' ∷ []) ∷ []))
unfolding outbound.send_payload outbound.bytes_to_ws_msg
outbound_loop_order_example =
    outbound_loop_order printer true [] (λ msg log. refl) 4 ((b'r' ∷ []) ∷ []) ((b'l' ∷ []) ∷ []) []
      (omega arith)

outbound_loop_spins_example :
    outbound_loop printer true [] 1000 (abandoned printer true [] ((b'l' ∷ []) ∷ []) [])
    ≡ next (spinning printer true [] ((b'l' ∷ []) ∷ []) [])
outbound_loop_spins_example = outbound_loop_spins printer true [] 998 ((b'l' ∷ []) ∷ []) []

-- The room's message 9, published on its subject.
abbrev pub news : NatsMessage
news = record { subject = subject_for room; payload = b'x' ∷ []; sequence = some 9 }

abbrev unlimited : Node plain exact bounded
unlimited = record {
  registry = two;
  world = idle 4;
  rate_limiter = none;
  messages_fanned_out = 0;
  forced_reconnect_backpressure_total = 0;
  stream_rate_limited_total = [];
  stream_tokens_available = [];
}

-- A rate of one message a second, and an empty bucket.
abbrev one_per_second : StreamRateLimiter exact
one_per_second = record {
  buckets = (room, record { tokens = 0; last_refill = 5; rps = giga; burst = giga }) ∷ [];
  default_rps = giga;
  default_burst = giga;
  overrides = [];
}

abbrev pub limited : Node plain exact bounded
limited = record unlimited { rate_limiter = some one_per_second }

admitted : (admit plain exact bounded 5 room unlimited).0 ≡ true
unfolding admit
admitted = refl

refused_now : (admit plain exact bounded 5 (extract_stream_name news.subject) limited).0 ≡ false
unfolding admit check try_consume get text_beq extract_stream_name subject_for strip_prefix
refused_now = refl

published_reaches_subscriber_example :
    let n = process_nats_message plain exact bounded 5 news unlimited in
    n.world.queues 10 ≡ (
      if is_some (get 1 n.registry.connections)
      then frame_for plain exact bounded first news ∷ []
      else [])
published_reaches_subscriber_example =
    published_reaches_subscriber plain exact bounded 5 room news unlimited 1 first two-Inv refl
      admitted own_channel first_registered first_subscribed

process_counts_example :
    let n = process_nats_message plain exact bounded 5 news unlimited in
    n.messages_fanned_out + n.forced_reconnect_backpressure_total
    ≡ 0 + 0 + length (subscribers two (extract_stream_name news.subject))
unfolding admit
process_counts_example = process_counts plain exact bounded 5 news unlimited two-Inv refl
