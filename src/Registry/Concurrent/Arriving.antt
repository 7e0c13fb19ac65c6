-- ===== src/Registry/Concurrent/Arriving.antt =====
-- src/connection/registry.rs: the accesses of `register` keep the state of the registry.
use turbocable_server.Prelude.{
  ℕ, ◌+◌, ◌%◌, ◌<◌, ◌≡◌, false, List, [], ◌∷◌, contains, is_some, eq_iff, nat_eq, text_eq, arith,
}
use turbocable_server.Prelude.Dict.{get, insert, get-insert, length-insert, insert-IsUnique}
use turbocable_server.Registry.{ConnectionEntry, Registry, u64_mod}
use turbocable_server.Registry.Concurrent.{Pending, allocated, linking, activating, any, arrives}
use turbocable_server.Registry.Concurrent.Pendings.{departs, enters, links, any_zero, not_arriving}
use turbocable_server.Registry.Concurrent.Fine.{Fine}

-- The registration of a connection.
module _ (r : Registry) (rest : List Pending) (c : ℕ) where
  pub allocated-Fine :
      (entry : ConnectionEntry)
      → Fine r (allocated c entry ∷ rest)
      → Fine (record r { connections = insert c entry r.connections }) (linking c ∷ rest)
  allocated-Fine entry v = record {
    to_joined = v.to_joined;
    to_subscribers = v.to_subscribers;
    gone = v.gone;
    locked = v.locked;
    one_call = v.one_call;
    swept = v.swept;
    distinct = v.distinct;
    distinct_joined = v.distinct_joined;
    live = λ d h. ground (arith, v.live d, get-insert c d entry r.connections);
    kept = λ d h. ground (arith, v.kept d, get-insert c d entry r.connections);
    departed = v.departed;
    unknown = v.unknown;
    one_arrival = v.one_arrival;
    entering =
        λ d h. ground (arith, v.entering d, get-insert c d entry r.connections, eq_iff c d, alone);
    linked = λ d h. ground (arith, v.linked d, get-insert c d entry r.connections);
    fresh = λ d h. ground (arith, v.fresh d, get-insert c d entry r.connections);
    bounded = v.bounded;
    unique = insert-IsUnique c entry r.connections v.unique;
    counted =
        ground (
          arith,
          v.counted,
          v.entering c,
          eq_iff c c,
          length-insert c entry r.connections v.unique,
        );
  }
    where
      alone : (any (enters c) rest ≡ false) × (any (links c) rest ≡ false)
      alone =
          not_arriving c rest
            (any_zero (arrives c) rest (ground (arith, v.one_arrival c, eq_iff c c)))

  pub linking-Fine :
      Fine r (linking c ∷ rest)
      → Fine (record r { conn_streams = insert c [] r.conn_streams }) (activating ∷ rest)
  unfolding contains
  linking-Fine v = record {
    to_joined =
        λ d t h. ground (arith, v.to_joined d t, get-insert c d [] r.conn_streams, eq_iff c d, new);
    to_subscribers = λ d t h.
        ground (arith, v.to_subscribers d t, get-insert c d [] r.conn_streams, eq_iff c d, new);
    gone = v.gone;
    locked = λ d t h. ground (arith, v.locked d t, get-insert c d [] r.conn_streams, eq_iff c d);
    one_call = v.one_call;
    swept = v.swept;
    distinct = v.distinct;
    distinct_joined = λ d. ground (arith, v.distinct_joined d, get-insert c d [] r.conn_streams);
    live =
        λ d h. ground (arith, v.live d, v.linked d, get-insert c d [] r.conn_streams, eq_iff c d);
    kept = λ d h. ground (arith, v.kept d, get-insert c d [] r.conn_streams, eq_iff c d);
    departed =
        λ d h. ground (arith, v.departed d, get-insert c d [] r.conn_streams, eq_iff c d, new);
    unknown =
        λ d h. ground (arith, v.unknown d, get-insert c d [] r.conn_streams, eq_iff c d, alone);
    one_arrival = λ d. ground (arith, v.one_arrival d);
    entering = v.entering;
    linked = λ d h. ground (arith, v.linked d);
    fresh = λ d h. ground (arith, v.fresh d, get-insert c d [] r.conn_streams, eq_iff c d, new);
    bounded = v.bounded;
    unique = v.unique;
    counted = v.counted;
  }
    where
      alone : any (arrives c) rest ≡ false
      alone = any_zero (arrives c) rest (ground (arith, v.one_arrival c, eq_iff c c))

      new :
          (is_some (get c r.conn_streams) ≡ false)
          × (any (departs c) rest ≡ false)
          × (c < r.next_id)
      new = ground (arith, v.unknown c, eq_iff c c)

pub activating-Fine :
    (r : Registry) (rest : List Pending)
    → Fine r (activating ∷ rest)
    → Fine (record r { active = (r.active + 1) % u64_mod }) rest
activating-Fine r rest v = record {
  to_joined = v.to_joined;
  to_subscribers = v.to_subscribers;
  gone = v.gone;
  locked = v.locked;
  one_call = v.one_call;
  swept = v.swept;
  distinct = v.distinct;
  distinct_joined = v.distinct_joined;
  live = v.live;
  kept = v.kept;
  departed = v.departed;
  unknown = v.unknown;
  one_arrival = v.one_arrival;
  entering = v.entering;
  linked = v.linked;
  fresh = v.fresh;
  bounded = omega arith;
  unique = v.unique;
  counted = ground (arith, v.counted);
}
