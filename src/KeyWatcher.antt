-- ===== src/KeyWatcher.antt =====
-- src/auth/key_watcher.rs: how the key of the tokens is loaded from NATS and followed there. What
-- NATS answers to each request is a value; the loop over the watch is Auth's `watch_loop`.
use turbocable_server.Prelude.{Bool, true, false, Bytes}
use turbocable_server.Auth.{Jwt, JwtVerifier, Result, ok, err, auth_failed, new_verifier}

-- The answer to `kv.get("rails_public_key")`.
pub data Fetched : Type 0 where
  found : Bytes → Fetched
  missing fetch_failed : Fetched

-- The answers to the requests, in the order in which they are made.
pub record KeyStore : Type 0 where
  pub connects : Bool
  pub has_bucket : Bool
  pub fetched : Fetched
  pub watches : Bool

-- `kv.watch(..)`, and the task that follows it, which is spawned if the watch is there.
abbrev watched {ℓ} : {A : Type ℓ} → KeyStore → A → Result A
watched store a = elim store.watches [ true ↦ ok a | false ↦ err auth_failed ]

module _ (jwt : Jwt) where
  abbrev verifier_then_watch : KeyStore → Result (JwtVerifier jwt) → Result (JwtVerifier jwt)
  verifier_then_watch store (ok v) = watched store v
  verifier_then_watch store (err e) = err e

  abbrev load_fetched : KeyStore → Fetched → Result (JwtVerifier jwt)
  load_fetched store (found pem) = verifier_then_watch store (new_verifier jwt pem)
  load_fetched store missing = err auth_failed
  load_fetched store fetch_failed = err auth_failed

  unfoldable pub load_and_watch_from_nats : KeyStore → Result (JwtVerifier jwt)
  load_and_watch_from_nats store = elim store.connects [
    | false ↦ err auth_failed
    | true ↦ elim store.has_bucket [
      | false ↦ err auth_failed
      | true ↦ load_fetched store store.fetched
    ]
  ]

-- Whether a watch follows the key from now on.
unfoldable pub start_nats_key_watcher : KeyStore → Result (Unit {0})
start_nats_key_watcher store = elim store.connects [
  | false ↦ err auth_failed
  | true ↦ elim store.has_bucket [ false ↦ err auth_failed | true ↦ watched store tt ]
]
