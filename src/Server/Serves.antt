-- ===== src/Server/Serves.antt =====
-- src/server.rs: a node that has started keeps its promises under every load.
use turbocable_server.Prelude.{
  ℕ, ◌+◌, ◌<◌, ◌≡◌, ◌>>=◌, ◌⊎◌, refl, Bool, false, not, ◌&&◌, Option, none, some, List, Text, Bytes,
  KeyEq, is_some, length, arith, Option-cases, Bool-cases, inl, inr,
}
use turbocable_server.Auth.{Jwt, JwtVerifier}
use turbocable_server.KeyWatcher.{KeyStore}
use turbocable_server.Config.{Config}
use turbocable_server.Channel.{Channels}
use turbocable_server.Protocol.{Serde}
use turbocable_server.Presence.{Services}
use turbocable_server.RateLimiter.{F64}
use turbocable_server.Registry.{u64_mod}
use turbocable_server.System.{Move, run, initial}
use turbocable_server.System.Reach.{Sound, run-initial-Sound}
use turbocable_server.Server.{Startup, exited, running, init_jwt_verifier}
use turbocable_server.Server.Keys.{from_path, exited_why}
use turbocable_server.Server.Setup.{NatsServer, app_state, Booted, with_verifier, boot}

module _ (serde : Serde) (f : F64) (ch : Channels) (services : Services) (jwt : Jwt) (Ip : Type 0)
    ⦃e : KeyEq Ip⦄ where
  module _ (read : Text → Option Bytes) (store : KeyStore) (nats : NatsServer) (binds : ℕ → Bool)
      (world : Channels.World ch) (state : Services.State services) (cfg : Config)
      (moves : List (Move Ip)) (room : length moves + 1 < u64_mod) where
    abbrev Here : Type 0
    Here = Booted serde f ch services jwt Ip read store nats binds world state cfg

    -- What is promised of a node that has started: after the moves it is sound, and it has a
    -- verifier if a key file is configured. One that has exited had no port, or no key in its file.
    abbrev pub Serves : Startup Here → Type 0
    Serves exited =
        (binds cfg.port ≡ false)
        ⊎ ((path : Text) × (cfg.jwt_public_key_path ≡ some path)
            × ((read path >>= jwt.from_rsa_pem) ≡ none))
    Serves (running s) =
        Sound serde f ch services (app_state nats cfg) jwt Ip
          (run serde f ch services (app_state nats cfg) jwt Ip moves s)
        × ((is_some cfg.jwt_public_key_path && not (is_some s.node.verifier)) ≡ false)

    verifier-Serves :
        (started : Startup (Option (JwtVerifier jwt) × Bool))
        → init_jwt_verifier jwt read store cfg ≡ started
        → Serves
            (with_verifier serde f ch services jwt Ip read store nats binds world state cfg started)
    unfolding initial
    verifier-Serves exited up = inr (exited_why jwt read store cfg up)
    verifier-Serves (running (verifier, watching)) up = elim (Bool-cases (binds cfg.port)) [
      | inr taken ↦ rw (taken, with_verifier) (inl taken)
      | inl bound ↦
          rw (bound, with_verifier)
            (
              run-initial-Sound serde f ch services (app_state nats cfg) jwt Ip cfg
                  (verifier, watching) _ world state moves room,
              elim (Option-cases cfg.jwt_public_key_path) [
                | inl no_path ↦ ground arith
                | inr (path, here) ↦
                    let (v, made, _, _) =
                      from_path jwt read store cfg path verifier watching here up in
                    ground (arith, made)
              ],
            )
    ]

    -- Whatever the file system, NATS and the socket answer to the start of a node, it exits only
    -- because it gets no port or a configured key file cannot be read or holds no key. Otherwise it
    -- accepts connections; and then, if a key file is configured, it has a verifier, and after any
    -- order of fewer than 2 ^ 64 - 1 steps of connections, of the consumer and of the key watcher
    -- its state is sound: the registry is well formed; every running connection runs under its own
    -- identifier, which was given out before; only running connections are registered; each is
    -- subscribed only to streams that are the key of some identifier its token allows; and the
    -- limiter counts the running connections of each address, never more than its limit.
    pub boot-Serves : Serves (boot serde f ch services jwt Ip read store nats binds world state cfg)
    unfolding boot
    boot-Serves = verifier-Serves (init_jwt_verifier jwt read store cfg) refl
