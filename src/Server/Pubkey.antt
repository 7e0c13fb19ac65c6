-- ===== src/Server/Pubkey.antt =====
-- src/server.rs with src/auth: the key that /pubkey shows.
use turbocable_server.Prelude.{◌≡◌, refl, ◌∙◌, some, List, Text}
use turbocable_server.Text.Utf8.{as_bytes}
use turbocable_server.Text.Utf8.RoundTrip.{AllScalar, from_utf8-as_bytes}
use turbocable_server.Auth.{Jwt, JwtVerifier, Entry, watch_loop, current_pem}
use turbocable_server.Auth.Rotation.{last_valid, IsInStep, watch_loop-last_valid}
use turbocable_server.Server.{pubkey_handler, pem_file}

module _ (jwt : Jwt) where
  -- While a watch delivers entries to a verifier whose key is that of its PEM: whenever the last
  -- valid entry, or the PEM of the start if none was valid, is the UTF-8 of a text of Unicode
  -- scalar values, /pubkey answers with exactly that text.
  pub pubkey_shows_last_valid :
      (entries : List Entry) (v : JwtVerifier jwt) (pem_text : Text)
      → IsInStep jwt v
      → AllScalar pem_text
      → last_valid jwt (current_pem jwt v) entries ≡ as_bytes pem_text
      → pubkey_handler jwt (some (watch_loop jwt entries v)) ≡ pem_file pem_text
  unfolding pubkey_handler
  pubkey_shows_last_valid entries v pem_text step scalar last =
      rw
        (
          (watch_loop-last_valid jwt entries v step).1 ∙ last,
          from_utf8-as_bytes pem_text scalar,
          pubkey_handler,
        )
        refl
