-- ===== src/System/Held.antt =====
-- The connections that run, by their identifiers, and how many of them an address has.
use turbocable_server.Prelude.{
  ℕ, ◌+◌, ◌≡◌, subst, true, false, Option, none, some, [], ◌∷◌, eq_iff, ◌==◌, KeyEq, nat_eq,
  text_eq, arith, Bool-cases, inl, inr, if◌then◌else◌,
}
use turbocable_server.Prelude.Dict.{Dict, get, insert, remove, get-insert, IsUnique, remove_absent}
use turbocable_server.Auth.{Jwt}
use turbocable_server.Channel.{Channels}
use turbocable_server.Protocol.{Serde}
use turbocable_server.Presence.{Services}
use turbocable_server.RateLimiter.{F64}
use turbocable_server.Handler.{AppState}
use turbocable_server.System.{Conn}

module _ (serde : Serde) (f : F64) (ch : Channels) (services : Services) (app : AppState)
    (jwt : Jwt) (Ip : Type 0) where
  abbrev pub Running : Type 0
  Running = Dict ℕ (Conn serde f ch services app jwt Ip)

  module _ ⦃e : KeyEq Ip⦄ where
    -- The connections of an address that run.
    unfoldable pub held : Ip → Running → ℕ
    held ip [] = 0
    held ip ((c, conn) ∷ m) = let rest = held ip m in if conn.ip == ip then rest + 1 else rest

    abbrev pub one_of : Ip → Option (Conn serde f ch services app jwt Ip) → ℕ
    one_of ip none = 0
    one_of ip (some conn) = if conn.ip == ip then 1 else 0

    pub held-remove :
        (c : ℕ) (ip : Ip) (m : Running)
        → IsUnique m
        → held ip (remove c m) + one_of ip (get c m) ≡ held ip m
    unfolding held get remove
    held-remove c ip [] u = omega arith
    held-remove c ip ((d, conn) ∷ m) u =
        ground (arith, held-remove c ip m u.1, remove_absent c m, eq_iff d c)

    pub held-insert :
        (c : ℕ) (conn : Conn serde f ch services app jwt Ip) (ip : Ip) (m : Running)
        → IsUnique m
        → held ip (insert c conn m) + one_of ip (get c m)
          ≡ held ip m + (if conn.ip == ip then 1 else 0)
    unfolding held insert
    held-insert c conn ip m u = ground (arith, held-remove c ip m u)

    pub found-insert :
        (c : ℕ) (conn : Conn serde f ch services app jwt Ip) (m : Running)
        (P : Conn serde f ch services app jwt Ip → Type 0) (d : ℕ)
        (other : Conn serde f ch services app jwt Ip)
        → ((c == d) ≡ true → P conn)
        → ((c == d) ≡ false → get d m ≡ some other → P other)
        → get d (insert c conn m) ≡ some other
        → P other
    found-insert c conn m P d other mine rest found = elim (Bool-cases (c == d)) [
      | inl hit ↦ subst P (ground (arith, get-insert c d conn m)) (mine hit)
      | inr miss ↦ rest miss (ground (arith, get-insert c d conn m))
    ]
