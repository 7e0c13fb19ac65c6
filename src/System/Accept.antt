-- ===== src/System/Accept.antt =====
-- The acceptance and the refusal of a connection keep the state of the node sound.
use turbocable_server.Prelude.{
  ℕ, ◌+◌, ◌<◌, ◌≡◌, refl, Bool, true, false, none, Text, is_some, eq_iff, ◌==◌, KeyEq, nat_eq,
  text_eq, arith, if◌then◌else◌,
}
use turbocable_server.Prelude.Dict.{get, insert, get-insert, insert-IsUnique}
use turbocable_server.Auth.{Jwt}
use turbocable_server.Limiter.{ConnectionLimiter, try_acquire, release}
use turbocable_server.Limiter.Held.{try_acquire_lem, release_lem}
use turbocable_server.Channel.{Channels}
use turbocable_server.Protocol.{Serde}
use turbocable_server.Presence.{Services}
use turbocable_server.RateLimiter.{F64}
use turbocable_server.Registry.{Registry, u64_mod, allocate_id, register, subscribers}
use turbocable_server.Registry.Invariant.{allocate_id-Inv, register-Inv}
use turbocable_server.Registry.View.{member_live}
use turbocable_server.Handler.{AppState}
use turbocable_server.Handler.Access.{IsAuthorized}
use turbocable_server.System.{Conn}
use turbocable_server.System.Held.{Running, held-insert, found-insert}
use turbocable_server.System.Sound.{IsSound}

module _ (serde : Serde) (f : F64) (ch : Channels) (services : Services) (app : AppState)
    (jwt : Jwt) (Ip : Type 0) ⦃e : KeyEq Ip⦄ where
  module _ (r : Registry) (l : ConnectionLimiter Ip) (m : Running serde f ch services app jwt Ip)
      (v : IsSound serde f ch services app jwt Ip r l m) where
    -- A connection that the limiter refuses, and one that gives its slot back.
    pub full-IsSound :
        (ip : Ip)
        → (try_acquire ip l).0 ≡ false
        → IsSound serde f ch services app jwt Ip r (try_acquire ip l).1 m
    full-IsSound ip no_slot = record {
      well_formed = v.well_formed;
      keyed = v.keyed;
      issued = v.issued;
      owned = v.owned;
      authorized = v.authorized;
      unique = v.unique;
      counted = λ j. ground (arith, v.counted j, try_acquire_lem ip j l, no_slot);
      within = λ j. ground (arith, v.within j, try_acquire_lem ip j l);
    }

    pub denied-IsSound :
        (ip : Ip)
        → (try_acquire ip l).0 ≡ true
        → IsSound serde f ch services app jwt Ip r (release ip (try_acquire ip l).1) m
    denied-IsSound ip slot = record {
      well_formed = v.well_formed;
      keyed = v.keyed;
      issued = v.issued;
      owned = v.owned;
      authorized = v.authorized;
      unique = v.unique;
      counted = λ j. ground (
        arith,
        v.counted j,
        try_acquire_lem ip j l,
        release_lem ip j (try_acquire ip l).1,
        slot,
        eq_iff ip j,
      );
      within = λ j.
          ground (arith, v.within j, try_acquire_lem ip j l, release_lem ip j (try_acquire ip l).1);
    }

    -- A connection that is accepted, under the next identifier.
    module _ (conn : Conn serde f ch services app jwt Ip) (named : conn.ctx.conn_id ≡ r.next_id)
        (room : r.next_id + 1 < u64_mod) (slot : (try_acquire conn.ip l).0 ≡ true) where
      free : get r.next_id r.connections ≡ none
      free = ground (arith, v.owned r.next_id, v.issued r.next_id)

      abbrev entered : ℕ → ℕ → Bool → Registry
      entered sender evict binary = register r.next_id sender binary evict (allocate_id r).1

      entered_tables :
          (sender evict : ℕ) (binary : Bool) (c : ℕ)
          → ((entered sender evict binary).next_id ≡ r.next_id + 1)
            × (is_some (get c (entered sender evict binary).connections)
                ≡ (if r.next_id == c then true else is_some (get c r.connections)))
      unfolding register allocate_id
      entered_tables sender evict binary c = (
        omega arith,
        ground (
          arith,
          get-insert r.next_id c (record { sender = sender; evict_tx = evict; is_binary = binary })
              r.connections,
        ),
      )

      entered_members :
          (sender evict : ℕ) (binary : Bool) (stream : Text)
          → subscribers (entered sender evict binary) stream ≡ subscribers r stream
      unfolding register allocate_id
      entered_members sender evict binary stream = refl

      newcomer :
          (sender evict : ℕ) (binary : Bool)
          → IsAuthorized serde ch services app conn.ctx (entered sender evict binary)
      newcomer sender evict binary stream h = ground (
        arith,
        named,
        free,
        entered_members sender evict binary stream,
        member_live r v.well_formed r.next_id stream,
        h,
      )

      pub enter-IsSound :
          (sender evict : ℕ) (binary : Bool)
          → IsSound serde f ch services app jwt Ip
              (entered sender evict binary)
              (try_acquire conn.ip l).1
              (insert r.next_id conn m)
      unfolding register allocate_id
      enter-IsSound sender evict binary = record {
        well_formed =
            register-Inv (allocate_id r).1 (allocate_id-Inv r v.well_formed) r.next_id sender evict
              binary free;
        keyed = λ d other.
            found-insert serde f ch services app jwt Ip r.next_id conn m (λ o. o.ctx.conn_id ≡ d) d
              other (λ hit. ground (arith, named)) (λ miss. v.keyed d other);
        issued = λ d h. ground (
          arith,
          v.issued d,
          (entered_tables sender evict binary d).0,
          get-insert r.next_id d conn m,
          eq_iff r.next_id d,
        );
        owned = λ d h. ground (
          arith,
          v.owned d,
          (entered_tables sender evict binary d).1,
          get-insert r.next_id d conn m,
        );
        authorized = λ d other.
            found-insert serde f ch services app jwt Ip r.next_id conn m
              (λ o. IsAuthorized serde ch services app o.ctx (entered sender evict binary)) d other
              (λ hit. newcomer sender evict binary) (λ miss found. v.authorized d other found);
        unique = insert-IsUnique r.next_id conn m v.unique;
        counted = λ ip. ground (
          arith,
          v.counted ip,
          try_acquire_lem conn.ip ip l,
          slot,
          held-insert serde f ch services app jwt Ip r.next_id conn ip m v.unique,
          v.issued r.next_id,
        );
        within = λ ip. ground (
          arith,
          v.within ip,
          v.counted ip,
          try_acquire_lem conn.ip ip l,
          slot,
          held-insert serde f ch services app jwt Ip r.next_id conn ip m v.unique,
          v.issued r.next_id,
          eq_iff conn.ip ip,
        );
      }
