-- ===== src/Auth/Rotation.antt =====
-- src/auth/jwt.rs and src/auth/key_watcher.rs: key rotation.
use turbocable_server.Prelude.{
  ℕ, ◌≡◌, refl, some, List, [], ◌∷◌, Text, Bytes, arith, Option-cases, inl, inr, is_some,
  if◌then◌else◌,
}
use turbocable_server.Auth.{
  Jwt, JwtVerifier, Result, ok, err, Entry, entry, watch_error, new_verifier, verify, update_key,
  watch_loop, current_pem,
}

module _ (jwt : Jwt) where
  open jwt use {DecodingKey, from_rsa_pem, decode}

  -- The last entry that holds a valid key, or the one given.
  unfoldable pub last_valid : Bytes → List Entry → Bytes
  last_valid pem [] = pem
  last_valid pem (watch_error ∷ entries) = last_valid pem entries
  last_valid pem (entry new_pem ∷ entries) =
      last_valid (if is_some (from_rsa_pem new_pem) then new_pem else pem) entries

  -- The key is the one that the stored PEM holds.
  abbrev pub IsInStep : JwtVerifier jwt → Type 0
  IsInStep v = from_rsa_pem v.pem ≡ some v.key

  update_key-IsInStep :
      (pem : Bytes) (v : JwtVerifier jwt) → IsInStep v → IsInStep (update_key jwt pem v).0
  unfolding update_key
  update_key-IsInStep pem v h = ground arith

  -- Whatever the watch delivers, the key in use stays the key of the PEM that is shown, and that
  -- PEM is the last valid one delivered, or the one before if none was valid.
  pub watch_loop-last_valid :
      (entries : List Entry) (v : JwtVerifier jwt)
      → IsInStep v
      → IsInStep (watch_loop jwt entries v)
        × (current_pem jwt (watch_loop jwt entries v) ≡ last_valid (current_pem jwt v) entries)
  unfolding watch_loop last_valid current_pem
  watch_loop-last_valid [] v h = (h, refl)
  watch_loop-last_valid (watch_error ∷ entries) v h = watch_loop-last_valid entries v h
  watch_loop-last_valid (entry pem ∷ entries) v h =
      let next = update_key jwt pem v in
      let (kept, shown) = watch_loop-last_valid entries next.0 (update_key-IsInStep pem v h) in
      (kept, ground (arith, shown))

  -- What an update with a PEM has to do, given what a new verifier of that PEM would be.
  abbrev pub Rotates :
      ℕ
      → JwtVerifier jwt
      → JwtVerifier jwt × Result (Unit {0})
      → Text
      → Result (JwtVerifier jwt)
      → Type 0
  Rotates now v (v', r) token (ok fresh) =
      (r ≡ ok tt) × (verify jwt now token v' ≡ verify jwt now token fresh)
  Rotates now v (v', r) token (err e) = (r ≡ err e) × (v' ≡ v)

  -- An update with a valid PEM makes the verifier judge every token as a new verifier of that PEM
  -- does, and one with an invalid PEM is refused with the same error and changes nothing.
  pub update_key-Rotates :
      (pem : Bytes) (v : JwtVerifier jwt) (now : ℕ) (token : Text)
      → Rotates now v (update_key jwt pem v) token (new_verifier jwt pem)
  unfolding new_verifier verify update_key
  update_key-Rotates pem v now token = elim (Option-cases (from_rsa_pem pem)) [
    | inl e ↦ rw (e, Rotates) (ground arith, ground arith)
    | inr (key, e) ↦ rw (e, Rotates) (ground arith, ground arith)
  ]
