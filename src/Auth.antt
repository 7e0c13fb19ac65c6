-- ===== src/Auth.antt =====
-- src/auth: stream authorization, the JWT verifier and the watcher that rotates its key. Reading a
-- PEM and decoding a token are the `jsonwebtoken` crate's, and enter as the interface `Jwt`. The
-- locks of the verifier are never poisoned, since no holder panics; logging is left out.
pub mod Streams
pub mod Rotation
use turbocable_server.Prelude.{
  ℕ, ◌≡◌, Bool, true, false, ◌||◌, Option, none, some, List, [], ◌∷◌, Text, Bytes, codes, ◌==◌,
  text_eq,
}
use turbocable_server.Text.{strip_suffix, starts_with}

-- `"*"`
abbrev pub star : Text
star = b'*' ∷ []

-- The closure of `is_allowed`, on one pattern.
unfoldable pub pattern_allows : Text → Text → Bool
pattern_allows pat stream = (pat == star) || (elim (strip_suffix b'*' pat) [
  | some prefix ↦ starts_with prefix stream
  | none ↦ pat == stream
])

unfoldable pub is_allowed : List Text → Text → Bool
unfolding pattern_allows
is_allowed [] stream = false
is_allowed (pat ∷ allowed) stream = pattern_allows pat stream || is_allowed allowed stream

pub record Claims : Type 0 where
  pub sub : Text
  pub allowed_streams : List Text
  pub exp : ℕ
  pub iat : ℕ

-- The kinds of decoding errors that `verify` tells apart.
pub data ErrorKind : Type 0 where
  expired_signature invalid_signature invalid_algorithm other_kind : ErrorKind

pub data Decoded : Type 0 where
  claims : Claims → Decoded
  failed : ErrorKind → Decoded

-- `DecodingKey::from_rsa_pem` and `jsonwebtoken::decode` with the verifier's validation.
pub record Jwt : Type 1 where
  pub DecodingKey : Type 0
  pub from_rsa_pem : Bytes → Option DecodingKey
  -- At a time in seconds, against which the expiry of the token is checked.
  pub decode : ℕ → Text → DecodingKey → Decoded

pub data AuthError : Type 0 where
  token_expired bad_signature bad_algorithm auth_failed invalid_pem : AuthError

abbrev reason : ErrorKind → AuthError
reason expired_signature = token_expired
reason invalid_signature = bad_signature
reason invalid_algorithm = bad_algorithm
reason other_kind = auth_failed

pub data Result {ℓ} (A : Type ℓ) : Type ℓ where
  ok : A → Result A
  err : AuthError → Result A

-- The entries that a watch of the key bucket delivers.
pub data Entry : Type 0 where
  entry : Bytes → Entry
  watch_error : Entry

module _ (jwt : Jwt) where
  open jwt use {DecodingKey, from_rsa_pem, decode}

  pub record JwtVerifier : Type 0 where
    pub key : DecodingKey
    pub pem : Bytes

  unfoldable pub new_verifier : Bytes → Result JwtVerifier
  new_verifier pem = elim (from_rsa_pem pem) [
    | none ↦ err invalid_pem
    | some key ↦ ok (record { key = key; pem = pem })
  ]

  unfoldable pub current_pem : JwtVerifier → Bytes
  current_pem v = v.pem

  unfoldable pub verify : ℕ → Text → JwtVerifier → Result Claims
  verify now token v = elim (decode now token v.key) [
    | claims c ↦ ok c
    | failed kind ↦ err (reason kind)
  ]

  -- The new verifier, and whether the key was taken.
  unfoldable pub update_key : Bytes → JwtVerifier → JwtVerifier × Result (Unit {0})
  update_key pem v = elim (from_rsa_pem pem) [
    | none ↦ (v, err invalid_pem)
    | some key ↦ (record v { key = key; pem = pem }, ok tt)
  ]

  -- An entry that does not hold a key is logged, and the loop goes on.
  unfoldable pub watch_loop : List Entry → JwtVerifier → JwtVerifier
  unfolding update_key
  watch_loop [] v = v
  watch_loop (watch_error ∷ entries) v = watch_loop entries v
  watch_loop (entry pem ∷ entries) v = watch_loop entries (update_key pem v).0
