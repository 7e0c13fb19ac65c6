-- ===== src/Server.antt =====
-- src/server.rs: the start and the end of the process. What the file system, the clock and NATS
-- answer are values; the routes, the listener and the signals are not modelled.
pub mod Limits
pub mod Keys
pub mod Open
pub mod Pubkey
pub mod Drain
pub mod Setup
pub mod Serves
pub mod Shutdown
pub mod Start
use turbocable_server.Prelude.{
  ℕ, zero, suc, ◌+◌, ◌*◌, Bool, true, false, Option, none, some, Text, Bytes, if◌then◌else◌, leb,
  nat_beq,
}
use turbocable_server.Text.Utf8.{from_utf8}
use turbocable_server.Auth.{Jwt, JwtVerifier, Result, ok, err, new_verifier, current_pem}
use turbocable_server.KeyWatcher.{KeyStore, load_and_watch_from_nats, start_nats_key_watcher}
use turbocable_server.Config.{Config, parse_stream_rate_overrides}
use turbocable_server.RateLimiter.{F64, StreamRateLimiter, is_disabled}
use turbocable_server.RateLimiter as limits
use turbocable_server.Registry.{Registry, connection_count}

module _ (f : F64) where
  -- The limiter that the options ask for.
  abbrev pub configured : Config → StreamRateLimiter f
  configured cfg =
      limits.new f cfg.stream_rate_limit_rps cfg.stream_rate_limit_burst
        (parse_stream_rate_overrides cfg.stream_rate_overrides)

  unfoldable pub build_rate_limiter : Config → Option (StreamRateLimiter f)
  build_rate_limiter cfg = if is_disabled f (configured cfg) then none else some (configured cfg)

-- The process goes on with what was made, or has exited with code 1.
pub data Startup {ℓ} (A : Type ℓ) : Type ℓ where
  exited : Startup A
  running : A → Startup A

module _ (jwt : Jwt) where
  -- The verifier of a key file, which NATS may rotate afterwards.
  abbrev from_file : KeyStore → Result (JwtVerifier jwt) → Startup (Option (JwtVerifier jwt) × Bool)
  from_file store (err e) = exited
  from_file store (ok v) =
      running (some v, elim (start_nats_key_watcher store) [ ok _ ↦ true | err _ ↦ false ])

  abbrev pub from_nats : Result (JwtVerifier jwt) → Startup (Option (JwtVerifier jwt) × Bool)
  from_nats (ok v) = running (some v, true)
  from_nats (err e) = running (none, false)

  -- The verifier, or none where authentication is disabled, and whether a watch follows the key.
  -- `read` is `tokio::fs::read`.
  unfoldable pub init_jwt_verifier :
      (Text → Option Bytes) → KeyStore → Config → Startup (Option (JwtVerifier jwt) × Bool)
  init_jwt_verifier read store cfg = elim cfg.jwt_public_key_path [
    | none ↦ from_nats (load_and_watch_from_nats jwt store)
    | some path ↦ elim (read path) [
      | none ↦ exited
      | some pem ↦ from_file store (new_verifier jwt pem)
    ]
  ]

  -- The responses of `pubkey_handler`.
  pub data PubkeyResponse : Type 0 where
    pem_file : Text → PubkeyResponse
    internal_server_error not_found : PubkeyResponse

  unfoldable pub pubkey_handler : Option (JwtVerifier jwt) → PubkeyResponse
  pubkey_handler none = not_found
  pubkey_handler (some verifier) = elim (from_utf8 (current_pem jwt verifier)) [
    | none ↦ internal_server_error
    | some pem_str ↦ pem_file pem_str
  ]

-- The varying fields of the JSON object of `health`; the client of NATS, if there is one, says
-- whether it is connected.
unfoldable pub health : Registry → Option Bool → ℕ × Bool
health r nats_consumer =
    (connection_count r, elim nats_consumer [ none ↦ false | some is_connected ↦ is_connected ])

-- What the drain loop finds at one round: the time in milliseconds and the registry.
pub record Poll : Type 0 where
  pub now : ℕ
  pub registry : Registry

abbrev pub drain_timeout_ms : ℕ
drain_timeout_ms = 30 * 1000

abbrev pub drain_poll_interval_ms : ℕ
drain_poll_interval_ms = 100

-- How the loop ended, and at which round.
pub data Drained : Type 0 where
  drained : ℕ → Drained
  timed_out : ℕ → ℕ → Drained

-- The loop from a round on; `none` means that the fuel ran out.
unfoldable pub drain_loop : ℕ → (ℕ → Poll) → ℕ → ℕ → Option Drained
drain_loop zero polls deadline i = none
drain_loop (suc fuel) polls deadline i =
    let remaining = connection_count (polls i).registry in
    let rest = drain_loop fuel polls deadline (i + 1) in
    if nat_beq remaining 0
    then some (drained i)
    else if leb deadline (polls i).now
    then some (timed_out i remaining)
    else rest
