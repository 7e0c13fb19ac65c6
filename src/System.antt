-- ===== src/System.antt =====
-- src/connection/handler.rs and src/pubsub/nats.rs together: the whole node, as the steps that its
-- tasks take in any order. A step of a connection is one arm of `inbound_loop`, its acceptance or
-- its end; a step of the consumer is one message. A step calls the registry at most once, except
-- that an acceptance takes an identifier before it registers, so the order of the steps is the
-- order of these calls. Replay tasks write only to channels, and take no step here.
pub mod Evolves
pub mod Held
pub mod Sound
pub mod Accept
pub mod Steps
pub mod Reach
pub mod Privacy
pub mod Traced
pub mod Replays
use turbocable_server.Prelude.{
  ℕ, ◌+◌, Bool, true, false, Option, none, some, List, [], ◌∷◌, Text, Bytes, if◌then◌else◌, KeyEq,
  nat_eq,
}
use turbocable_server.Prelude.Dict.{Dict, get, insert, remove}
use turbocable_server.Auth.{Jwt, JwtVerifier, Entry, watch_loop}
use turbocable_server.Limiter.{try_acquire, release}
use turbocable_server.Limiter as limiter
use turbocable_server.Channel.{Channels}
use turbocable_server.Config.{Config}
use turbocable_server.Protocol.{Serde, Codec, codec_for_protocol, protocol_for, is_binary_protocol}
use turbocable_server.Presence.{Services}
use turbocable_server.RateLimiter.{F64, StreamRateLimiter}
use turbocable_server.Registry as registry
use turbocable_server.Nats.{NatsMessage, process_nats_message}
use turbocable_server.Nats as nats
use turbocable_server.Handler.{
  AppState, ConnContext, Session, Gateway, Metrics, handle_client_frame,
}
use turbocable_server.Socket.{
  Handles, Node, Permission, granted, refused, too_many_connections, authorize, refuse, enter,
  leave, context, new_session, send_ping, clean_up,
}

abbrev pub no_metrics : Metrics
no_metrics = record {
  client_reconnect_handshake_total = 0;
  handshake_ok_replay_capable_total = 0;
  handshake_ok_legacy_total = 0;
  handshake_rejected_total = 0;
  handshake_legacy_warn_total = 0;
  handshake_rejected_non_replay_capable_total = 0;
  handshake_soft_non_replay_subscribe_allowed_total = 0;
}

-- A step: a client that asks at a time for a connection with its header and token, a frame of a
-- connection, a tick of its ping interval, its end, a message of JetStream with its time, and an
-- entry of the watch of the key bucket.
pub data Move (Ip : Type 0) : Type 0 where
  opens : ℕ → Ip → Option Text → Option Text → Handles → Move Ip
  frame : ℕ → Bytes → Move Ip
  pings : ℕ → ℕ → Move Ip
  ends : ℕ → Move Ip
  arrives : ℕ → NatsMessage → Move Ip
  rotates : Entry → Move Ip

module _ (serde : Serde) (f : F64) (ch : Channels) (services : Services) (app : AppState)
    (jwt : Jwt) (Ip : Type 0) where
  open serde use {Value}

  -- The variables of a connection's task.
  pub record Conn : Type 0 where
    pub ip : Ip
    pub ctx : ConnContext Value
    pub session : Session

  -- The registry and the channels of the consumer are those of the gateway.
  pub record System : Type 0 where
    pub node : Node serde ch services app jwt Ip
    pub consumer : nats.Node serde f ch
    -- Whether a watch of the key bucket was started.
    pub watching : Bool
    pub running : Dict ℕ Conn

  abbrev pub gateway_of : System → Gateway serde ch services
  gateway_of s = s.node.gateway

  abbrev pub registry_of : System → registry.Registry
  registry_of s = s.node.gateway.registry

  abbrev pub with_gateway : Gateway serde ch services → System → System
  with_gateway g s = record s { node = record s.node { gateway = g } }

  -- An accepted connection.
  unfoldable pub admit :
      Codec Value → Ip → Text → Handles → List Text → Option Text → System → System
  admit codec ip protocol handles allowed_streams user_id s =
      let (conn_id, g) =
        enter serde ch services app codec (is_binary_protocol protocol) handles (gateway_of s) in
      let ctx = context serde ch services app conn_id codec handles allowed_streams user_id in
      record s {
        node = record s.node { gateway = g; connections_total = s.node.connections_total + 1 };
        running = insert conn_id (record { ip = ip; ctx = ctx; session = new_session }) s.running;
      }

  -- The arms of a running connection's loop; a connection that has ended takes no step.
  unfoldable pub run_frame : Bytes → ℕ → Conn → System → System
  run_frame bytes c conn s =
      let (session, g) =
        handle_client_frame serde ch services app conn.ctx bytes conn.session (gateway_of s) in
      record (with_gateway g s) { running = insert c (record conn { session = session }) s.running }

  unfoldable pub deliver_message : ℕ → NatsMessage → System → System
  deliver_message now msg s =
      let g = gateway_of s in
      let n =
        process_nats_message serde f ch now msg
          (record s.consumer { registry = g.registry; world = g.world }) in
      record (with_gateway (record g { registry = n.registry; world = n.world }) s) { consumer = n }

  -- The task of the key watcher, if there is one, and the next entry of its watch.
  abbrev rotated : Bool → Entry → Option (JwtVerifier jwt) → Option (JwtVerifier jwt)
  rotated true item (some verifier) = some (watch_loop jwt (item ∷ []) verifier)
  rotated true item none = none
  rotated false item verifier = verifier

  unfoldable pub rotate : Entry → System → System
  rotate item s = record s {
    node = record s.node { verifier = rotated s.watching item s.node.verifier };
  }

  module _ ⦃e : KeyEq Ip⦄ where
    -- What follows the check of the token; a panic of `expect` ends the task and keeps its slot.
    unfoldable pub permit : Permission → Ip → Text → Handles → System → System
    permit (refused why) ip protocol handles s = record s {
      node =
          refuse serde ch services app jwt Ip why
            (record s.node { limiter = release ip s.node.limiter });
    }
    permit (granted allowed_streams user_id) ip protocol handles s =
        elim (codec_for_protocol serde protocol) [
          | none ↦ s
          | some codec ↦ admit codec ip protocol handles allowed_streams user_id s
        ]

    unfoldable pub accept : ℕ → Ip → Text → Option Text → Handles → System → System
    accept now ip protocol token handles s =
        let (acquired, slots) = try_acquire ip s.node.limiter in
        let s' = record s { node = record s.node { limiter = slots } } in
        elim acquired [
          | false ↦ record s' {
            node = refuse serde ch services app jwt Ip too_many_connections s'.node;
          }
          | true ↦ permit (authorize jwt now s.node.verifier token) ip protocol handles s'
        ]

    -- The end of `inbound_loop` and what `handle_socket` does after it.
    unfoldable pub run_end : ℕ → Conn → System → System
    run_end c conn s =
        let g =
          leave serde ch services app conn.ctx.conn_id
            (clean_up serde ch services app conn.ctx conn.session.heartbeats (gateway_of s)) in
        record s {
          node = record s.node { gateway = g; limiter = release conn.ip s.node.limiter };
          running = remove c s.running;
        }

    -- A ping that cannot be sent ends the loop.
    abbrev pub after_ping : ℕ → Conn → Bool × Gateway serde ch services → System → System
    after_ping c conn (true, g) s = with_gateway g s
    after_ping c conn (false, g) s = run_end c conn (with_gateway g s)

    unfoldable pub run_ping : ℕ → ℕ → Conn → System → System
    run_ping ts c conn s =
        after_ping c conn (send_ping serde ch services app conn.ctx ts (gateway_of s)) s

    abbrev pub of_running : ℕ → (Conn → System → System) → System → System
    of_running c act s = elim (get c s.running) [ none ↦ s | some conn ↦ act conn s ]

    unfoldable pub step : Move Ip → System → System
    step (opens now ip header token handles) s = accept now ip (protocol_for header) token handles s
    step (frame c bytes) s = of_running c (run_frame bytes c) s
    step (pings c ts) s = of_running c (run_ping ts c) s
    step (ends c) s = of_running c (run_end c) s
    step (arrives now msg) s = deliver_message now msg s
    step (rotates item) s = rotate item s

    unfoldable pub run : List (Move Ip) → System → System
    run [] s = s
    run (move ∷ moves) s = run moves (step move s)

    -- The state in which `run` of the server begins to accept connections, with the metrics at 0.
    unfoldable pub initial :
        Config
        → Option (JwtVerifier jwt) × Bool
        → Option (StreamRateLimiter f)
        → Channels.World ch
        → Services.State services
        → System
    initial cfg (verifier, watching) rate_limiter world state = record {
      watching = watching;
      node = record {
        limiter = limiter.new cfg.max_connections_per_ip;
        verifier = verifier;
        gateway = record {
          registry = registry.new;
          world = world;
          state = state;
          metrics = no_metrics;
          tasks = [];
        };
        connections_rejected = 0;
        connections_total = 0;
        refusals = [];
      };
      consumer = record {
        registry = registry.new;
        world = world;
        rate_limiter = rate_limiter;
        messages_fanned_out = 0;
        forced_reconnect_backpressure_total = 0;
        stream_rate_limited_total = [];
        stream_tokens_available = [];
      };
      running = [];
    }
