-- ===== src/Server/Keys.antt =====
-- src/server.rs with src/auth and the check of the token in src/connection/handler.rs: who gets in
-- when a key file is configured.
use turbocable_server.Prelude.{
  ℕ, ◌≡◌, ◌>>=◌, refl, subst, Bool, Option, none, some, List, [], ◌∷◌, Text, Bytes, arith,
  Option-cases, inl, inr,
}
use turbocable_server.Auth.{
  Jwt, JwtVerifier, Result, ok, err, Entry, Claims, Decoded, claims, failed, new_verifier, verify,
  watch_loop, current_pem,
}
use turbocable_server.Auth.Rotation.{last_valid, watch_loop-last_valid}
use turbocable_server.KeyWatcher.{KeyStore, load_and_watch_from_nats}
use turbocable_server.Config.{Config}
use turbocable_server.Socket.{granted, authorize}
use turbocable_server.Server.{exited, running, from_nats, init_jwt_verifier}

module _ (jwt : Jwt) where
  open jwt use {DecodingKey, from_rsa_pem, decode}

  -- The verifier once the watch has delivered some entries.
  abbrev pub after_watch : List Entry → Option (JwtVerifier jwt) → Option (JwtVerifier jwt)
  after_watch entries none = none
  after_watch entries (some v) = some (watch_loop jwt entries v)

  -- At that time the token decodes under the key to what is granted.
  abbrev pub Holds : ℕ → DecodingKey → Option Text → List Text → Option Text → Type 0
  Holds now key token streams user_id =
      (t : Text) × (c : Claims) × (token ≡ some t)
      × (decode now t key ≡ claims c)
      × (streams ≡ c.allowed_streams)
      × (user_id ≡ some c.sub)

  authorize-Holds :
      (now : ℕ) (v : JwtVerifier jwt) (token : Option Text) (streams : List Text)
      (user_id : Option Text)
      → authorize jwt now (some v) token ≡ granted streams user_id
      → Holds now v.key token streams user_id
  unfolding authorize verify
  authorize-Holds now v none streams user_id h = cc
  authorize-Holds now v (some []) streams user_id h = cc
  authorize-Holds now v (some (x ∷ xs)) streams user_id h = decoded (decode now (x ∷ xs) v.key) refl
    where
      decoded :
          (d : Decoded)
          → decode now (x ∷ xs) v.key ≡ d
          → Holds now v.key (some (x ∷ xs)) streams user_id
      decoded (claims c) e = (x ∷ xs, c, refl, e, ground (arith, e), ground (arith, e))
      decoded (failed kind) e = ground (arith, e)

  -- The verifier of a configured path holds the key of the file.
  pub from_path :
      (read : Text → Option Bytes) (store : KeyStore) (cfg : Config) (path : Text)
      (verifier : Option (JwtVerifier jwt)) (watching : Bool)
      → cfg.jwt_public_key_path ≡ some path
      → init_jwt_verifier jwt read store cfg ≡ running (verifier, watching)
      → (v : JwtVerifier jwt) × (verifier ≡ some v)
        × (read path ≡ some v.pem)
        × (from_rsa_pem v.pem ≡ some v.key)
  unfolding init_jwt_verifier new_verifier
  from_path read store cfg path verifier watching here up = elim (Option-cases (read path)) [
    | inl e ↦ absurd (ground arith)
    | inr (pem, e) ↦ elim (Option-cases (from_rsa_pem pem)) [
      | inl e' ↦ absurd (ground arith)
      | inr (key, e') ↦ (record { key = key; pem = pem }, ground arith, e, e')
    ]
  ]

  -- The start of the verifier exits only for a configured file that holds no key.
  pub exited_why :
      (read : Text → Option Bytes) (store : KeyStore) (cfg : Config)
      → init_jwt_verifier jwt read store cfg ≡ exited
      → (path : Text) × (cfg.jwt_public_key_path ≡ some path)
        × ((read path >>= from_rsa_pem) ≡ none)
  unfolding init_jwt_verifier new_verifier
  exited_why read store cfg up = elim (Option-cases cfg.jwt_public_key_path) [
    | inl e ↦ absurd (never (load_and_watch_from_nats jwt store) (ground arith))
    | inr (path, e) ↦ (
      path,
      e,
      elim (Option-cases (read path)) [
        | inl unread ↦ rw unread refl
        | inr (pem, h) ↦ elim (Option-cases (from_rsa_pem pem)) [
          | inl no_key ↦ rw (h, no_key) refl
          | inr (key, e') ↦ absurd (ground arith)
        ]
      ],
    )
  ]
    where
      never : (r : Result (JwtVerifier jwt)) → from_nats jwt r ≡ exited → ⊥
      never (ok v) h = cc
      never (err x) h = cc

  -- A node that started with a key file configured: whatever entries the watch of the key bucket
  -- has delivered since, a connection is let in at any time only with a token that then decodes
  -- under a key, and with what that token says; the key is the one of the last valid entry, or of
  -- the file if no entry was valid.
  pub init_jwt_verifier_guards :
      (read : Text → Option Bytes) (store : KeyStore) (cfg : Config) (path : Text)
      (verifier : Option (JwtVerifier jwt)) (watching : Bool)
      → cfg.jwt_public_key_path ≡ some path
      → init_jwt_verifier jwt read store cfg ≡ running (verifier, watching)
      → (entries : List Entry) (now : ℕ) (token : Option Text) (streams : List Text)
        (user_id : Option Text)
      → authorize jwt now (after_watch entries verifier) token ≡ granted streams user_id
      → (pem : Bytes) × (key : DecodingKey) × (read path ≡ some pem)
        × (from_rsa_pem (last_valid jwt pem entries) ≡ some key)
        × Holds now key token streams user_id
  unfolding current_pem
  init_jwt_verifier_guards read store cfg path verifier watching here up entries now token streams
        user_id in_ =
      let (v, made, file, step) = from_path read store cfg path verifier watching here up in
      let (kept, shown) = watch_loop-last_valid jwt entries v step in
      let w = watch_loop jwt entries v in
      (
        v.pem,
        w.key,
        file,
        rw (← shown) kept,
        authorize-Holds now w token streams user_id (
            subst (λ o. authorize jwt now (after_watch entries o) token ≡ granted streams user_id)
              made in_),
      )
