-- ===== src/Handler.antt =====
-- src/connection/handler.rs: the frames of a client. `handle_client_frame` and `dispatch_command`
-- run to their end as one step on the node and on the variables of the connection; a replay task
-- that they spawn is put on the list of tasks, and runs in ReplayTask. Logging is left out.
pub mod Access
pub mod Answers
pub mod Tasks
use turbocable_server.Prelude.{
  ℕ, ◌+◌, Bool, true, false, not, ◌&&◌, ◌||◌, Option, none, some, is_some, List, [], ◌∷◌, ◌++◌,
  Text, Bytes, contains, retain_ne, if◌then◌else◌, ltb, text_eq,
}
use turbocable_server.Text.{starts_with}
use turbocable_server.Text.Utf8.{as_bytes}
use turbocable_server.Auth.{is_allowed}
use turbocable_server.Config.{
  ReplayEnforcement, requires_hello_first, rejects_non_replay_subscribe, is_soft_enforce,
}
use turbocable_server.Channel.{Channels}
use turbocable_server.Protocol.{
  Serde, Codec, ServerMessage, confirm_subscription, reject_subscription, HelloCommand,
  is_replay_capable, ClientCommand, subscribe, unsubscribe, message, ClientFrame, hello, command,
}
use turbocable_server.Registry.{Registry}
use turbocable_server.Registry as registry
use turbocable_server.Presence.{Services, put, delete, publish}

pub data ConnectionState : Type 0 where
  awaiting_hello active : ConnectionState

-- What `AppState` sets for a connection: the phase, and which services are there.
pub record AppState : Type 0 where
  pub replay_enforcement : ReplayEnforcement
  pub has_presence : Bool
  pub has_nats : Bool

pub record ConnContext (Value : Type 0) : Type 0 where
  pub conn_id : ℕ
  pub codec : Codec Value
  pub live_tx : ℕ
  pub replay_tx : ℕ
  pub urgent_close_tx : ℕ
  pub allowed_streams : List Text
  pub user_id : Option Text

-- The variables of `inbound_loop`; of the heartbeats, the streams that have one.
pub record Session : Type 0 where
  pub conn_state : ConnectionState
  pub replay_capable : Bool
  pub last_seq : Option ℕ
  pub heartbeats : List Text

-- The counters of the handshake.
pub record Metrics : Type 0 where
  pub client_reconnect_handshake_total : ℕ
  pub handshake_ok_replay_capable_total : ℕ
  pub handshake_ok_legacy_total : ℕ
  pub handshake_rejected_total : ℕ
  pub handshake_legacy_warn_total : ℕ
  pub handshake_rejected_non_replay_capable_total : ℕ
  pub handshake_soft_non_replay_subscribe_allowed_total : ℕ

-- What a spawned replay task takes with it.
pub record ReplayTask (Value : Type 0) : Type 0 where
  pub task_replay_tx : ℕ
  pub task_urgent_tx : ℕ
  pub task_codec : Codec Value
  pub task_stream : Text
  pub seq : ℕ

-- `identifier.find(s)` has a result.
unfoldable pub occurs : Text → Text → Bool
occurs s [] = starts_with s []
occurs s (c ∷ text) = starts_with s (c ∷ text) || occurs s text

-- A slice of `identifier` at which `s` was found is `s`.
unfoldable pub stream_key_from_identifier : Serde → Text → Text
stream_key_from_identifier serde identifier = elim (serde.stream_field identifier) [
  | none ↦ identifier
  | some s ↦ if occurs s identifier then s else identifier
]

module _ (serde : Serde) (ch : Channels) (services : Services) where
  open serde use {Value}
  open ch use {World, send}
  open services use {State}

  pub record Gateway : Type 0 where
    pub registry : Registry
    pub world : World
    pub state : State
    pub metrics : Metrics
    pub tasks : List (ReplayTask Value)

  -- `if let Ok(frame) = codec.encode(&msg) { let _ = tx.send(frame).await; }`
  unfoldable pub send_message : Codec Value → ℕ → ServerMessage Value → World → World
  send_message codec tx msg w = elim (codec.encode msg) [
    | none ↦ w
    | some frame ↦ (send tx frame w).1
  ]

  module _ (app : AppState) (ctx : ConnContext Value) where
    -- A frame on the connection's live channel.
    abbrev pub reply : ServerMessage Value → Gateway → Gateway
    reply msg g = record g { world = send_message ctx.codec ctx.live_tx msg g.world }

    -- The presence entry and the heartbeat of a new subscription.
    unfoldable pub announce : Text → Session × Gateway → Session × Gateway
    announce identifier (s, g) = elim ctx.user_id [
      | none ↦ (s, g)
      | some uid ↦
          if app.has_presence
          then (
            record s {
              heartbeats =
                  if contains identifier s.heartbeats
                  then s.heartbeats
                  else identifier ∷ s.heartbeats;
            },
            record g { state = put services identifier uid g.state },
          )
          else (s, g)
    ]

    abbrev pub task_for : Text → ℕ → ReplayTask Value
    task_for identifier seq = record {
      task_replay_tx = ctx.replay_tx;
      task_urgent_tx = ctx.urgent_close_tx;
      task_codec = ctx.codec;
      task_stream = identifier;
      seq = seq;
    }

    abbrev spawn_replay : Text → ℕ → Gateway → Gateway
    spawn_replay identifier seq g = record g { tasks = g.tasks ++ task_for identifier seq ∷ [] }

    -- A replay task, or the confirmation at once.
    unfoldable pub replay_or_confirm : Text → Session → Gateway → Gateway
    replay_or_confirm identifier s g = elim s.last_seq [
      | none ↦ reply (confirm_subscription identifier) g
      | some seq ↦
          if app.has_nats
          then spawn_replay identifier seq g
          else reply (confirm_subscription identifier) g
    ]

    -- `registry.subscribe`, the presence and the replay of a subscription that is allowed.
    unfoldable pub accept_subscribe : Text → Session → Gateway → Session × Gateway
    accept_subscribe identifier s g =
        let stream_key = stream_key_from_identifier serde identifier in
        let g' = record g { registry = registry.subscribe ctx.conn_id stream_key g.registry } in
        let (s'', g'') = announce identifier (s, g') in (s'', replay_or_confirm identifier s'' g'')

    abbrev count_non_replay_rejected : Gateway → Gateway
    count_non_replay_rejected g = record g {
      metrics = record g.metrics {
        handshake_rejected_non_replay_capable_total =
            g.metrics.handshake_rejected_non_replay_capable_total + 1;
      };
    }

    abbrev count_soft_allowed : Gateway → Gateway
    count_soft_allowed g = record g {
      metrics = record g.metrics {
        handshake_soft_non_replay_subscribe_allowed_total =
            g.metrics.handshake_soft_non_replay_subscribe_allowed_total + 1;
      };
    }

    -- The warning counter of the phase between the others.
    unfoldable pub note_soft : Session → Gateway → Gateway
    note_soft s g =
        if is_soft_enforce app.replay_enforcement && not s.replay_capable
        then count_soft_allowed g
        else g

    -- The check of the token.
    unfoldable pub check_allowed : Text → Session → Gateway → Session × Gateway
    check_allowed identifier s g =
        if is_allowed ctx.allowed_streams identifier
        then accept_subscribe identifier s g
        else (s, reply (reject_subscription identifier) g)

    -- The command `Subscribe`.
    unfoldable pub handle_subscribe : Text → Session → Gateway → Session × Gateway
    handle_subscribe identifier s g =
        if rejects_non_replay_subscribe app.replay_enforcement && not s.replay_capable
        then (s, reply (reject_subscription identifier) (count_non_replay_rejected g))
        else check_allowed identifier s (note_soft s g)

    -- The command `Unsubscribe`.
    unfoldable pub handle_unsubscribe : Text → Session → Gateway → Session × Gateway
    handle_unsubscribe identifier s g =
        let stream_key = stream_key_from_identifier serde identifier in
        let g' = record g { registry = registry.unsubscribe ctx.conn_id stream_key g.registry } in
        elim ctx.user_id [
          | none ↦ (s, g')
          | some uid ↦
              if app.has_presence
              then (
                record s { heartbeats = retain_ne identifier s.heartbeats },
                record g' { state = delete services identifier uid g'.state },
              )
              else (s, g')
        ]

    -- The command `Message`.
    unfoldable pub handle_message : Text → Text → Session → Gateway → Session × Gateway
    handle_message identifier data_text s g =
        if app.has_nats
        then (s, record g { state = publish services identifier (as_bytes data_text) g.state })
        else (s, g)

    unfoldable pub dispatch_command : ClientCommand → Session → Gateway → Session × Gateway
    dispatch_command (subscribe identifier) s g = handle_subscribe identifier s g
    dispatch_command (unsubscribe identifier) s g = handle_unsubscribe identifier s g
    dispatch_command (message identifier data_text) s g = handle_message identifier data_text s g

    -- The counters of a hello.
    abbrev count_hello : HelloCommand → Metrics → Metrics
    count_hello h m =
        let m' =
          if (elim h.last_seq [ none ↦ false | some seq ↦ ltb 0 seq ])
          then record m {
            client_reconnect_handshake_total = m.client_reconnect_handshake_total + 1;
          }
          else m in
        if is_replay_capable h
        then record m' {
          handshake_ok_replay_capable_total = m'.handshake_ok_replay_capable_total + 1;
        }
        else record m' { handshake_ok_legacy_total = m'.handshake_ok_legacy_total + 1 }

    unfoldable pub handle_hello : HelloCommand → Session → Gateway → Session × Gateway
    handle_hello h s g = (
      record s { last_seq = h.last_seq; replay_capable = is_replay_capable h; conn_state = active },
      record g { metrics = count_hello h g.metrics },
    )

    -- Only a rejected `Subscribe` is answered.
    abbrev pub reject_command : ClientCommand → Gateway → Gateway
    reject_command (subscribe identifier) g = reply (reject_subscription identifier) g
    reject_command (unsubscribe _) g = g
    reject_command (message _ _) g = g

    abbrev pub count_rejected : Gateway → Gateway
    count_rejected g = record g {
      metrics = record g.metrics {
        handshake_rejected_total = g.metrics.handshake_rejected_total + 1;
      };
    }

    abbrev count_legacy : Gateway → Gateway
    count_legacy g = record g {
      metrics = record g.metrics {
        handshake_legacy_warn_total = g.metrics.handshake_legacy_warn_total + 1;
      };
    }

    -- A command, behind the check of the handshake.
    unfoldable pub handle_command :
        ConnectionState → ClientCommand → Session → Gateway → Session × Gateway
    handle_command active cmd s g = dispatch_command cmd s g
    handle_command awaiting_hello cmd s g =
        if requires_hello_first app.replay_enforcement
        then (s, reject_command cmd (count_rejected g))
        else dispatch_command cmd (record s { conn_state = active }) (count_legacy g)

    -- What follows the decoding.
    unfoldable pub handle_decoded : Option ClientFrame → Session → Gateway → Session × Gateway
    handle_decoded none s g = (s, g)
    handle_decoded (some (hello h)) s g = handle_hello h s g
    handle_decoded (some (command cmd)) s g = handle_command s.conn_state cmd s g

    unfoldable pub handle_client_frame : Bytes → Session → Gateway → Session × Gateway
    handle_client_frame data_bytes = handle_decoded (ctx.codec.decode data_bytes)
