-- ===== src/Server/Open.antt =====
-- src/server.rs with src/auth/key_watcher.rs: when a node runs without authentication.
use turbocable_server.Prelude.{
  ℕ, ◌≡◌, refl, Bool, false, ◌&&◌, Option, none, [], ◌∷◌, Text, Bytes, is_some, arith,
}
use turbocable_server.Auth.{Jwt, star, new_verifier}
use turbocable_server.KeyWatcher.{
  KeyStore, Fetched, found, missing, fetch_failed, load_and_watch_from_nats,
}
use turbocable_server.Config.{Config}
use turbocable_server.Socket.{granted, authorize}
use turbocable_server.Server.{running, init_jwt_verifier}

module _ (jwt : Jwt) where
  open jwt use {from_rsa_pem}

  -- NATS has a key, whether or not it can be watched.
  abbrev pub has_key : Fetched → Bool
  has_key (found pem) = is_some (from_rsa_pem pem)
  has_key missing = false
  has_key fetch_failed = false

  abbrev pub nats_has_key : KeyStore → Bool
  nats_has_key store = store.connects && store.has_bucket && has_key store.fetched

  -- With no key file configured: a node whose NATS has no valid key, and also one whose NATS has a
  -- valid key that was loaded but cannot be watched, runs with authentication disabled, and lets
  -- every connection in, with any token or none, to all streams.
  pub runs_open :
      (read : Text → Option Bytes) (store : KeyStore) (cfg : Config)
      → cfg.jwt_public_key_path ≡ none
      → (nats_has_key store && store.watches) ≡ false
      → (init_jwt_verifier jwt read store cfg ≡ running (none, false))
        × ((now : ℕ) (token : Option Text)
            → authorize jwt now none token ≡ granted (star ∷ []) none)
  unfolding init_jwt_verifier load_and_watch_from_nats new_verifier authorize
  runs_open read store cfg no_path h = (opened store.fetched refl, λ now token. refl)
    where
      opened :
          (fetched : Fetched)
          → store.fetched ≡ fetched
          → init_jwt_verifier jwt read store cfg ≡ running (none, false)
      opened (found pem) e = ground (arith, e)
      opened missing e = ground (arith, e)
      opened fetch_failed e = ground (arith, e)
