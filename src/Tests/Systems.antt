-- ===== src/Tests/Systems.antt =====
-- The whole node: one client that opens, says hello and subscribes, and messages in between.
use turbocable_server.Prelude.{
  ℕ, is_some, ◌*◌, ◌≡◌, refl, true, false, none, some, List, [], ◌∷◌, Text, codes, eq_iff, nat_eq,
  text_eq, text_beq, arith, subst,
}
use turbocable_server.Prelude.Dict.{get, insert, remove}
use turbocable_server.Config.{Config, soft_enforce}
use turbocable_server.Auth.{is_allowed, verify}
use turbocable_server.Auth.{entry as key_entry}
use turbocable_server.Text.{strip_prefix, strip_suffix}
use turbocable_server.Limiter as limiter
use turbocable_server.Limiter.{count_for, try_acquire, release}
use turbocable_server.Channel.Bounded.{bounded, idle}
use turbocable_server.Registry.{Registry, ConnectionEntry, subscribers}
use turbocable_server.Registry as registry
use turbocable_server.Nats.{NatsMessage, subject_for, extract_stream_name}
use turbocable_server.Protocol.{codec_for_protocol, protocol_for, is_binary_protocol}
use turbocable_server.RateLimiter.Exact.{exact}
use turbocable_server.Handler.{stream_key_from_identifier}
use turbocable_server.Socket.{enter, authorize, context, new_session}
use turbocable_server.System.{
  Move, opens, frame, pings, ends, arrives, rotates, Conn, System, run, initial, step, accept,
  permit, admit,
}
use turbocable_server.Server.{Poll, drained, drain_loop}
use turbocable_server.Server.Shutdown.{none_opens, ends_in, shutdown_drains}
use turbocable_server.System.Reach.{Sound, run-initial-Sound}
use turbocable_server.System.Privacy.{message_stays_private}
use turbocable_server.Tests.Fixtures.{room, plain, plain_codec, trusting, counting}
use turbocable_server.Tests.Connections.{app, handles}

abbrev pub options : Config
options = record {
  port = 9292;
  nats_url = codes "nats://localhost:4222";
  node_id = codes "node_1";
  ping_interval_secs = 30;
  max_connections_per_ip = 10;
  ws_channel_capacity = 4096;
  ws_replay_channel_capacity = 4096;
  jwt_public_key_path = some (codes "key.pem");
  max_ack_pending = 10000;
  nats_stream_replicas = 1;
  replay_enforcement = soft_enforce;
  max_replay_concurrency = 1000;
  stream_rate_limit_rps = 0;
  stream_rate_limit_burst = 0;
  stream_rate_overrides = [];
}

abbrev start : System plain exact bounded counting app trusting ℕ
start =
    initial plain exact bounded counting app trusting ℕ options
      (some (record { key = b'k' ∷ []; pem = b'k' ∷ [] }), true) none (idle 4) 0

abbrev other_news : NatsMessage
other_news = record {
  subject = subject_for (codes "other");
  payload = b'x' ∷ [];
  sequence = some 9;
}

abbrev moves : List (Move ℕ)
moves = opens 50 127 none (some (b'u' ∷ [])) handles ∷ []

abbrev pub busy : List (Move ℕ)
busy =
    opens 50 127 none (some (b'u' ∷ [])) handles
    ∷ frame 1 (b'h' ∷ [])
    ∷ frame 1 (b's' ∷ room)
    ∷ rotates (key_entry (b'n' ∷ []))
    ∷ arrives 5 other_news
    ∷ pings 1 7
    ∷ []

run-initial-Sound_example :
    Sound plain exact bounded counting app trusting ℕ
      (run plain exact bounded counting app trusting ℕ busy start)
run-initial-Sound_example =
    run-initial-Sound plain exact bounded counting app trusting ℕ options
      (some (record { key = b'k' ∷ []; pem = b'k' ∷ [] }), true) none (idle 4) 0 busy (omega arith)

abbrev entry : ConnectionEntry
entry = record { sender = 30; evict_tx = 33; is_binary = false }

opened_registry :
    (run plain exact bounded counting app trusting ℕ moves start).node.gateway.registry.connections
    ≡ (1, entry) ∷ []
unfolding run step accept permit admit enter authorize verify initial registry.new
    registry.allocate_id registry.register insert remove try_acquire limiter.new get
    codec_for_protocol text_beq protocol_for is_binary_protocol
opened_registry = refl

abbrev conn : Conn plain exact bounded counting app trusting ℕ
conn = record {
  ip = 127;
  ctx = context plain bounded counting app 1 plain_codec handles (room ∷ []) (some (b'u' ∷ []));
  session = new_session;
}

opened_running :
    (run plain exact bounded counting app trusting ℕ moves start).running ≡ (1, conn) ∷ []
unfolding run step accept permit admit enter authorize verify initial registry.new
    registry.allocate_id registry.register insert remove try_acquire limiter.new get
    codec_for_protocol text_beq protocol_for is_binary_protocol
opened_running = refl

only_one :
    (d : ℕ) (g : ConnectionEntry)
    → get d
        (run plain exact bounded counting app trusting ℕ moves
          start).node.gateway.registry.connections
      ≡ some g
    → d ≡ 1
unfolding get
only_one d g h = ground (arith, opened_registry, eq_iff 1 d, h)

-- The token of the connection allows the room, and no other identifier.
only_room : is_allowed (room ∷ []) (codes "other") ≡ false
unfolding is_allowed strip_suffix text_beq
only_room = refl

message_stays_private_example :
    let s = run plain exact bounded counting app trusting ℕ moves start in
    let s' = step plain exact bounded counting app trusting ℕ (arrives 5 other_news) s in
    (s'.node.gateway.world.queues 30 ≡ s.node.gateway.world.queues 30)
    × (get 1 s'.node.gateway.registry.connections ≡ some entry)
unfolding get stream_key_from_identifier extract_stream_name subject_for strip_prefix
message_stays_private_example =
    message_stays_private plain exact bounded counting app trusting ℕ options
      (some (record { key = b'k' ∷ []; pem = b'k' ∷ [] }), true) none (idle 4) 0 moves (omega arith)
      5 other_news 1 conn entry (rw opened_running refl) (rw opened_registry refl)
      (λ d g h _. only_one d g h)
      (λ identifier allowed same.
        cc (subst (λ i. is_allowed (room ∷ []) i ≡ true) same allowed, only_room))

-- After the signal the connection still subscribes, gets its message and is pinged, and then ends.
abbrev closing : List (Move ℕ)
closing = frame 1 (b's' ∷ room) ∷ arrives 5 other_news ∷ pings 1 7 ∷ ends 1 ∷ []

-- The connection has its end.
closes :
    (c : ℕ)
    → is_some (get c (run plain exact bounded counting app trusting ℕ moves start).running) ≡ true
    → ends_in c closing ≡ true
unfolding ends_in get
closes c h = ground (arith, opened_running, eq_iff 1 c, h)

-- Every round finds what is left.
abbrev last_polls : ℕ → Poll
last_polls i = record {
  now = 100 * i;
  registry =
      (run plain exact bounded counting app trusting ℕ closing
        (run plain exact bounded counting app trusting ℕ moves start)).node.gateway.registry;
}

shutdown_drains_example :
    let s =
      run plain exact bounded counting app trusting ℕ closing
        (run plain exact bounded counting app trusting ℕ moves start) in
    ((ip : ℕ) → count_for ip s.node.limiter ≡ 0)
    × (s.node.gateway.registry.connections ≡ [])
    × ((stream : Text) → subscribers s.node.gateway.registry stream ≡ [])
    × (drain_loop 301 last_polls 30_000 0 ≡ some (drained 0))
unfolding none_opens
shutdown_drains_example =
    shutdown_drains plain exact bounded counting app trusting ℕ options
      (some (record { key = b'k' ∷ []; pem = b'k' ∷ [] }), true) none (idle 4) 0 moves closing
      (omega arith) refl closes last_polls 300 30_000 0 refl
