-- ===== src/System/Sound.antt =====
-- The state of the node between two steps: the registry, the limiter and the connections that run
-- agree with one another, and frames, ends and messages keep it so.
use turbocable_server.Prelude.{
  ℕ, ◌≤◌, ◌<◌, ◌≡◌, refl, true, some, is_some, eq_iff, ◌==◌, KeyEq, nat_eq, text_eq, arith,
}
use turbocable_server.Prelude.Dict.{
  get, insert, remove, get-insert, get-remove, IsUnique, insert-IsUnique, remove-IsUnique,
}
use turbocable_server.Auth.{Jwt}
use turbocable_server.Limiter.{ConnectionLimiter, release, count_for}
use turbocable_server.Limiter.Held.{release_lem}
use turbocable_server.Channel.{Channels}
use turbocable_server.Protocol.{Serde}
use turbocable_server.Presence.{Services}
use turbocable_server.RateLimiter.{F64}
use turbocable_server.Registry.{Registry, deregister}
use turbocable_server.Registry.Invariant.{Inv}
use turbocable_server.Registry.Deregister.{live-deregister}
use turbocable_server.Handler.{AppState, Session}
use turbocable_server.Handler.Access.{IsAuthorized}
use turbocable_server.System.{Conn}
use turbocable_server.System.Evolves.{Evolves, nobody, deregister-Evolves}
use turbocable_server.System.Held.{Running, held, held-remove, held-insert, found-insert}

module _ (serde : Serde) (f : F64) (ch : Channels) (services : Services) (app : AppState)
    (jwt : Jwt) (Ip : Type 0) ⦃e : KeyEq Ip⦄ where
  -- The registry is well formed; a running connection has the identifier under which it runs,
  -- which was given out before, and only running connections are registered; each is subscribed
  -- only to streams that its token allows; and the limiter counts the running connections of
  -- each address, which are never more than the limit.
  pub record IsSound (r : Registry) (l : ConnectionLimiter Ip)
      (m : Running serde f ch services app jwt Ip) : Type 0 where
    pub well_formed : Inv r
    pub keyed :
        (c : ℕ) (conn : Conn serde f ch services app jwt Ip)
        → get c m ≡ some conn
        → conn.ctx.conn_id ≡ c
    pub issued : (c : ℕ) → is_some (get c m) ≡ true → c < r.next_id
    pub owned : (c : ℕ) → is_some (get c r.connections) ≡ true → is_some (get c m) ≡ true
    pub authorized :
        (c : ℕ) (conn : Conn serde f ch services app jwt Ip)
        → get c m ≡ some conn
        → IsAuthorized serde ch services app conn.ctx r
    pub unique : IsUnique m
    pub counted : (ip : Ip) → count_for ip l ≡ held serde f ch services app jwt Ip ip m
    pub within : (ip : Ip) → held serde f ch services app jwt Ip ip m ≤ l.max_per_ip

  module _ (r : Registry) (l : ConnectionLimiter Ip) (m : Running serde f ch services app jwt Ip)
      (v : IsSound r l m) where
    -- A step of no connection.
    pub evolve-IsSound : (r' : Registry) → Evolves nobody r r' → IsSound r' l m
    evolve-IsSound r' w = record {
      well_formed = w.well_formed;
      keyed = v.keyed;
      issued = λ c h. ground (arith, v.issued c h, w.next);
      owned = λ c h. v.owned c (w.live c h);
      authorized = λ c conn here stream h.
          v.authorized c conn here stream (w.others conn.ctx.conn_id stream refl h);
      unique = v.unique;
      counted = v.counted;
      within = v.within;
    }

    -- A frame of a running connection.
    module _ (c : ℕ) (conn : Conn serde f ch services app jwt Ip) (here : get c m ≡ some conn)
        (session : Session) where
      abbrev updated : Conn serde f ch services app jwt Ip
      updated = record conn { session = session }

      pub frame-IsSound :
          (r' : Registry)
          → Evolves (λ d. c == d) r r'
          → IsAuthorized serde ch services app conn.ctx r'
          → IsSound r' l (insert c updated m)
      frame-IsSound r' w allowed = record {
        well_formed = w.well_formed;
        keyed = λ d other.
            found-insert serde f ch services app jwt Ip c updated m (λ o. o.ctx.conn_id ≡ d) d other
              (λ hit. ground (arith, v.keyed c conn here)) (λ miss. v.keyed d other);
        issued =
            λ d h. ground (arith, v.issued d, w.next, get-insert c d updated m, here, eq_iff c d);
        owned = λ d h. ground (arith, v.owned d, w.live d h, get-insert c d updated m);
        authorized = λ d other.
            found-insert serde f ch services app jwt Ip c updated m
              (λ o. IsAuthorized serde ch services app o.ctx r') d other (λ hit. allowed)
              (λ miss found stream h. v.authorized d other found stream (
                w.others other.ctx.conn_id stream (ground (arith, miss, v.keyed d other found)) h));
        unique = insert-IsUnique c updated m v.unique;
        counted = λ ip. ground (
          arith,
          v.counted ip,
          held-insert serde f ch services app jwt Ip c updated ip m v.unique,
          here,
        );
        within = λ ip. ground (
          arith,
          v.within ip,
          held-insert serde f ch services app jwt Ip c updated ip m v.unique,
          here,
        );
      }

    -- The end of a running connection.
    module _ (c : ℕ) (conn : Conn serde f ch services app jwt Ip) (here : get c m ≡ some conn) where
      found-remove :
          (d : ℕ) (other : Conn serde f ch services app jwt Ip)
          → get d (remove c m) ≡ some other
          → get d m ≡ some other
      found-remove d other h = ground (arith, get-remove c d m)

      pub end-IsSound : IsSound (deregister conn.ctx.conn_id r) (release conn.ip l) (remove c m)
      end-IsSound =
          let w : Evolves nobody r (deregister conn.ctx.conn_id r) =
            deregister-Evolves conn.ctx.conn_id r v.well_formed in
          record {
            well_formed = w.well_formed;
            keyed = λ d other found. v.keyed d other (found-remove d other found);
            issued = λ d h. ground (arith, v.issued d, w.next, get-remove c d m);
            owned = λ d h. ground (
              arith,
              v.owned d,
              live-deregister r v.well_formed conn.ctx.conn_id d,
              v.keyed c conn here,
              get-remove c d m,
              eq_iff c d,
            );
            authorized = λ d other found stream h.
                v.authorized d other (found-remove d other found) stream
                  (w.others other.ctx.conn_id stream refl h);
            unique = remove-IsUnique c m v.unique;
            counted = λ ip. ground (
              arith,
              v.counted ip,
              release_lem conn.ip ip l,
              held-remove serde f ch services app jwt Ip c ip m v.unique,
              here,
            );
            within = λ ip. ground (
              arith,
              v.within ip,
              release_lem conn.ip ip l,
              held-remove serde f ch services app jwt Ip c ip m v.unique,
            );
          }
