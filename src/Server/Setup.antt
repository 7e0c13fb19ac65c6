-- ===== src/Server/Setup.antt =====
-- src/server.rs with `connect` of src/pubsub/nats.rs and of src/presence/mod.rs: the start of `run`.
-- What NATS, the file system and the socket answer are functions; the routes are not modelled.
use turbocable_server.Prelude.{
  ℕ, ◌*◌, ◌++◌, Bool, true, false, ◌&&◌, ◌||◌, Option, List, [], ◌∷◌, Text, Bytes, codes, KeyEq,
}
use turbocable_server.Auth.{Jwt, JwtVerifier}
use turbocable_server.KeyWatcher.{KeyStore}
use turbocable_server.Config.{Config}
use turbocable_server.Channel.{Channels}
use turbocable_server.Protocol.{Serde}
use turbocable_server.Presence.{Services}
use turbocable_server.RateLimiter.{F64}
use turbocable_server.Nats.{subject_prefix}
use turbocable_server.Handler.{AppState}
use turbocable_server.System.{System, initial}
use turbocable_server.Server.{Startup, exited, running, build_rate_limiter, init_jwt_verifier}

pub data StorageType : Type 0 where
  file memory : StorageType

pub record StreamConfig : Type 0 where
  pub name : Text
  pub subjects : List Text
  pub storage : StorageType
  pub max_age_secs : ℕ
  pub num_replicas : ℕ

pub record BucketConfig : Type 0 where
  pub bucket : Text
  pub history : ℕ
  pub max_age_secs : ℕ

-- Which requests succeed: `async_nats::connect` of a URL, `get_or_create_stream`, `get_key_value`
-- and `create_key_value`.
pub record NatsServer : Type 0 where
  pub accepts : Text → Bool
  pub has_stream : StreamConfig → Bool
  pub has_bucket : Text → Bool
  pub creates_bucket : BucketConfig → Bool

abbrev pub stream_config : ℕ → StreamConfig
stream_config num_replicas = record {
  name = codes "TURBOCABLE";
  subjects = (subject_prefix ++ codes ">") ∷ [];
  storage = file;
  max_age_secs = 7 * 24 * 60 * 60;
  num_replicas = num_replicas;
}

abbrev pub presence_bucket : BucketConfig
presence_bucket = record { bucket = codes "TC_PRESENCE"; history = 1; max_age_secs = 30 }

-- Whether `NatsConsumer::connect` gives a consumer.
unfoldable pub connect_consumer : NatsServer → Text → ℕ → Bool
connect_consumer nats nats_url num_replicas =
    nats.accepts nats_url && nats.has_stream (stream_config num_replicas)

-- Whether `PresenceManager::connect` gives a manager: of the bucket that is there, or of a new one.
unfoldable pub connect_presence : NatsServer → Text → Bool
connect_presence nats nats_url =
    nats.accepts nats_url
    && (nats.has_bucket presence_bucket.bucket || nats.creates_bucket presence_bucket)

-- Whether the node has a consumer, and presence. A service that is not there is left out.
unfoldable pub init_nats_consumer : NatsServer → Config → Bool
init_nats_consumer nats cfg = connect_consumer nats cfg.nats_url cfg.nats_stream_replicas

unfoldable pub init_presence : NatsServer → Config → Bool
init_presence nats cfg = connect_presence nats cfg.nats_url

abbrev pub app_state : NatsServer → Config → AppState
app_state nats cfg = record {
  replay_enforcement = cfg.replay_enforcement;
  has_presence = init_presence nats cfg;
  has_nats = init_nats_consumer nats cfg;
}

module _ (serde : Serde) (f : F64) (ch : Channels) (services : Services) (jwt : Jwt) (Ip : Type 0)
    ⦃e : KeyEq Ip⦄ where
  module _ (read : Text → Option Bytes) (store : KeyStore) (nats : NatsServer) (binds : ℕ → Bool)
      (world : Channels.World ch) (state : Services.State services) where
    abbrev pub Booted : Config → Type 0
    Booted cfg = System serde f ch services (app_state nats cfg) jwt Ip

    abbrev pub with_verifier :
        (cfg : Config) → Startup (Option (JwtVerifier jwt) × Bool) → Startup (Booted cfg)
    with_verifier cfg exited = exited
    with_verifier cfg (running (verifier, watching)) = elim (binds cfg.port) [
      | false ↦ exited
      | true ↦ running (
          initial serde f ch services (app_state nats cfg) jwt Ip cfg (verifier, watching)
            (build_rate_limiter f cfg) world state)
    ]

    -- `run` up to the point where connections are accepted.
    unfoldable pub boot : (cfg : Config) → Startup (Booted cfg)
    boot cfg = with_verifier cfg (init_jwt_verifier jwt read store cfg)
