-- ===== src/Server/Start.antt =====
-- src/server.rs: `start`, the start of a node in the integration tests. A handle that is dropped
-- begins the shutdown, as a signal does; the routes are not modelled.
use turbocable_server.Prelude.{
  ℕ, ◌≡◌, ◌⊎◌, inl, inr, refl, Bool, true, false, Option, none, some, Text, Bytes, KeyEq,
  Option-cases, Bool-cases, arith, is_some, ◌∙◌, ap,
}
use turbocable_server.Auth.{Jwt, JwtVerifier, Result, ok, err, new_verifier}
use turbocable_server.KeyWatcher.{KeyStore, load_and_watch_from_nats}
use turbocable_server.Config.{Config}
use turbocable_server.Channel.{Channels}
use turbocable_server.Protocol.{Serde}
use turbocable_server.Presence.{Services}
use turbocable_server.RateLimiter.{F64}
use turbocable_server.System.{initial}
use turbocable_server.Server.{Startup, exited, running, build_rate_limiter, init_jwt_verifier}
use turbocable_server.Server.Setup.{NatsServer, app_state, Booted, with_verifier, boot}

module _ (jwt : Jwt) where
  abbrev pub of_pem : Result (JwtVerifier jwt) → Option (Option (JwtVerifier jwt))
  of_pem (err e) = none
  of_pem (ok v) = some (some v)

  -- The verifier that the tests ask for; none is a panic.
  unfoldable pub start_verifier : (Text → Option Bytes) → Config → Option (Option (JwtVerifier jwt))
  start_verifier read cfg = elim cfg.jwt_public_key_path [
    | none ↦ some none
    | some path ↦ elim (read path) [ none ↦ none | some pem ↦ of_pem (new_verifier jwt pem) ]
  ]

  -- The verifier that `run` starts with.
  abbrev pub verifier_of :
      Startup (Option (JwtVerifier jwt) × Bool) → Option (Option (JwtVerifier jwt))
  verifier_of exited = none
  verifier_of (running (verifier, watching)) = some verifier

  -- NATS has nothing to offer that a configured file would not have.
  abbrev pub IsSettled : KeyStore → Config → Type 0
  IsSettled store cfg =
      (is_some cfg.jwt_public_key_path ≡ true)
      ⊎ ((why : _) × (load_and_watch_from_nats jwt store ≡ err why))

  verifiers_agree :
      (read : Text → Option Bytes) (store : KeyStore) (cfg : Config)
      → IsSettled store cfg
      → verifier_of (init_jwt_verifier jwt read store cfg) ≡ start_verifier read cfg
  unfolding init_jwt_verifier start_verifier new_verifier
  verifiers_agree read store cfg settled = elim (Option-cases cfg.jwt_public_key_path) [
    | inl no_path ↦ elim settled [
      | inl path ↦ absurd (ground arith)
      | inr (why, nothing) ↦ rw (init_jwt_verifier, start_verifier, no_path, nothing) refl
    ]
    | inr (path, here) ↦ elim (Option-cases (read path)) [
      | inl unread ↦ ground arith
      | inr (pem, h) ↦ elim (Option-cases (jwt.from_rsa_pem pem)) [
        | inl no_key ↦ ground arith
        | inr (key, e) ↦ ground arith
      ]
    ]
  ]

module _ (serde : Serde) (f : F64) (ch : Channels) (services : Services) (jwt : Jwt) (Ip : Type 0)
    ⦃e : KeyEq Ip⦄ where
  module _ (read : Text → Option Bytes) (store : KeyStore) (nats : NatsServer) (binds : ℕ → Bool)
      (world : Channels.World ch) (state : Services.State services) where
    abbrev pub listening :
        (cfg : Config)
        → Option (Option (JwtVerifier jwt))
        → Option (Booted serde f ch services jwt Ip read store nats binds world state cfg)
    listening cfg none = none
    listening cfg (some verifier) = elim (binds cfg.port) [
      | false ↦ none
      | true ↦ some (
          initial serde f ch services (app_state nats cfg) jwt Ip cfg (verifier, false)
            (build_rate_limiter f cfg) world state)
    ]

    -- None is a panic.
    unfoldable pub start :
        (cfg : Config)
        → Option (Booted serde f ch services jwt Ip read store nats binds world state cfg)
    start cfg = listening cfg (start_verifier jwt read cfg)

    -- A start that exits is one that panics, and one that goes on is taken without its watch.
    abbrev pub node_of :
        (cfg : Config)
        → Startup (Booted serde f ch services jwt Ip read store nats binds world state cfg)
        → Option (Booted serde f ch services jwt Ip read store nats binds world state cfg)
    node_of cfg exited = none
    node_of cfg (running s) = some (record s { watching = false })

    with_verifier-listening :
        (cfg : Config) (up : Startup (Option (JwtVerifier jwt) × Bool))
        → node_of cfg
            (with_verifier serde f ch services jwt Ip read store nats binds world state cfg up)
          ≡ listening cfg (verifier_of jwt up)
    unfolding initial
    with_verifier-listening cfg exited = refl
    with_verifier-listening cfg (running (verifier, watching)) =
        elim (Bool-cases (binds cfg.port)) [
          | inl bound ↦ rw (bound, with_verifier) refl
          | inr taken ↦ rw (taken, with_verifier) refl
        ]

    -- With a key file configured, or with a NATS that gives no key to watch: whatever the file
    -- system, NATS and the socket answer, `start`, which the integration tests use, panics exactly
    -- where `run` exits, and otherwise starts a node whose state is that of the node of `run`, but
    -- for one thing: no watch follows the key, which `run` may have started.
    pub start_agrees :
        (cfg : Config)
        → IsSettled jwt store cfg
        → node_of cfg (boot serde f ch services jwt Ip read store nats binds world state cfg)
          ≡ start cfg
    unfolding boot start
    start_agrees cfg settled =
        with_verifier-listening cfg (init_jwt_verifier jwt read store cfg)
        ∙ ap (listening cfg) (verifiers_agree jwt read store cfg settled)
