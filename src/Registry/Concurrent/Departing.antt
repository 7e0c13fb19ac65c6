-- ===== src/Registry/Concurrent/Departing.antt =====
-- src/connection/registry.rs: the accesses of `deregister` after the first keep the state of the
-- registry.
use turbocable_server.Prelude.{
  ℕ, ◌+◌, ◌-◌, ◌%◌, ◌≡◌, false, none, some, List, [], ◌∷◌, Text, contains, if◌then◌else◌, ◌==◌,
  eq_iff, nat_eq, text_eq, arith, Option-cases, inl, inr,
}
use turbocable_server.Prelude.Dict.{get, remove, get-remove, length-remove, remove-IsUnique}
use turbocable_server.Registry.{ConnectionEntry, Registry, u64_mod, remove_if_empty}
use turbocable_server.Registry.Concurrent.{
  Pending, purging, purging_empty, releasing, any, arrives, trim, with_streams, drop_connection,
  resume,
}
use turbocable_server.Registry.Concurrent.Pendings.{links, not_arriving}
use turbocable_server.Registry.Concurrent.Fine.{Fine}
use turbocable_server.Registry.Concurrent.Trim.{
  contains-trim, trim-Distinct, trim_empty, get-remove_if_empty, ids_at,
}
use turbocable_server.Registry.Concurrent.Begins.{FineShared}

-- The accesses of `deregister` after the first.
module _ (r : Registry) (rest : List Pending) (c : ℕ) where
  dropped-Fine :
      (entry : ConnectionEntry)
      → get c r.connections ≡ some entry
      → Fine r (purging c [] ∷ rest)
      → Fine (record r { connections = remove c r.connections }) (releasing ∷ rest)
  unfolding contains
  dropped-Fine entry e v = record {
    to_joined = λ d t h. ground (arith, v.to_joined d t);
    to_subscribers = v.to_subscribers;
    gone = v.gone;
    locked = v.locked;
    one_call = v.one_call;
    swept = v.swept;
    distinct = v.distinct;
    distinct_joined = v.distinct_joined;
    live = λ d h. ground (arith, v.live d, v.departed d, get-remove c d r.connections, eq_iff c d);
    kept = λ d h. ground (arith, v.kept d, get-remove c d r.connections, eq_iff c d);
    departed = λ d h. ground (arith, v.departed d);
    unknown = λ d h. ground (arith, v.unknown d);
    one_arrival = v.one_arrival;
    entering = λ d h. ground (arith, v.entering d, get-remove c d r.connections);
    linked = λ d h.
        ground (
          arith,
          v.linked d,
          v.unknown d,
          links-arrive d,
          get-remove c d r.connections,
          eq_iff c d,
        );
    fresh = λ d h. ground (arith, v.fresh d, get-remove c d r.connections);
    bounded = v.bounded;
    unique = remove-IsUnique c r.connections v.unique;
    counted = ground (arith, v.counted, length-remove c r.connections v.unique);
  }
    where
      links-arrive : (d : ℕ) → any (arrives d) rest ≡ false → any (links d) rest ≡ false
      links-arrive d h = (not_arriving d rest h).1

  absent-Fine : get c r.connections ≡ none → Fine r (purging c [] ∷ rest) → Fine r rest
  unfolding contains
  absent-Fine e v = record {
    to_joined = λ d t h. ground (arith, v.to_joined d t);
    to_subscribers = v.to_subscribers;
    gone = v.gone;
    locked = v.locked;
    one_call = v.one_call;
    swept = v.swept;
    distinct = v.distinct;
    distinct_joined = v.distinct_joined;
    live = v.live;
    kept = λ d h. ground (arith, v.kept d, eq_iff c d);
    departed = λ d h. ground (arith, v.departed d);
    unknown = λ d h. ground (arith, v.unknown d);
    one_arrival = v.one_arrival;
    entering = v.entering;
    linked = v.linked;
    fresh = λ d h. ground (arith, v.fresh d);
    bounded = v.bounded;
    unique = v.unique;
    counted = v.counted;
  }

  pub drop_connection-Fine :
      Fine r (purging c [] ∷ rest) → FineShared (resume (drop_connection c r) rest)
  drop_connection-Fine v = elim (Option-cases (get c r.connections)) [
    | inl e ↦ rw (e, drop_connection) (absent-Fine e v)
    | inr (entry, e) ↦ rw (e, drop_connection) (dropped-Fine entry e v)
  ]

  module _ (s : Text) (names : List Text) where
    pub purged-Fine :
        (p : Pending)
        → p ≡ (if (trim s c r.streams).0 then purging_empty s c names else purging c names)
        → Fine r (purging c (s ∷ names) ∷ rest)
        → Fine (with_streams (trim s c r.streams).1 r) (p ∷ rest)
    unfolding contains
    purged-Fine p which v = record {
      to_joined = λ d t h.
          ground (arith, v.to_joined d t, contains-trim s c r.streams d t, eq_iff c d, eq_iff s t);
      to_subscribers = λ d t h. ground (
        arith,
        v.to_subscribers d t,
        v.departed d,
        v.locked d t,
        contains-trim s c r.streams d t,
        eq_iff c d,
      );
      gone = λ d t h. ground (arith, v.gone d t, contains-trim s c r.streams d t);
      locked = λ d t h. ground (arith, v.locked d t);
      one_call = λ d. ground (arith, v.one_call d);
      swept = λ t h. ground (arith, v.swept t, trim_empty s c r.streams t);
      distinct = λ t. trim-Distinct s c r.streams t (v.distinct t);
      distinct_joined = v.distinct_joined;
      live = v.live;
      kept = λ d h. ground (arith, v.kept d);
      departed = λ d h. ground (arith, v.departed d);
      unknown = λ d h. ground (arith, v.unknown d);
      one_arrival = λ d. ground (arith, v.one_arrival d);
      entering = λ d h. ground (arith, v.entering d);
      linked = λ d h. ground (arith, v.linked d);
      fresh = λ d h. ground (arith, v.fresh d);
      bounded = v.bounded;
      unique = v.unique;
      counted = ground (arith, v.counted);
    }

    pub purging_empty-Fine :
        Fine r (purging_empty s c names ∷ rest)
        → Fine (with_streams (remove_if_empty s r.streams) r) (purging c names ∷ rest)
    purging_empty-Fine v = record {
      to_joined = λ d t h. ground (arith, v.to_joined d t, (same t).0);
      to_subscribers = λ d t h. ground (arith, v.to_subscribers d t, (same t).0);
      gone = λ d t h. ground (arith, v.gone d t, (same t).0);
      locked = v.locked;
      one_call = v.one_call;
      swept = λ t h. ground (arith, v.swept t, (same t).1 h);
      distinct = λ t. ground (arith, v.distinct t, (same t).0);
      distinct_joined = v.distinct_joined;
      live = v.live;
      kept = v.kept;
      departed = v.departed;
      unknown = v.unknown;
      one_arrival = v.one_arrival;
      entering = v.entering;
      linked = v.linked;
      fresh = v.fresh;
      bounded = v.bounded;
      unique = v.unique;
      counted = v.counted;
    }
      where
        same :
            (t : Text)
            → (ids_at t (remove_if_empty s r.streams) ≡ ids_at t r.streams)
              × (get t (remove_if_empty s r.streams) ≡ some []
                  → (get t r.streams ≡ some []) × ((s == t) ≡ false))
        same t = get-remove_if_empty s r.streams t

pub releasing-Fine :
    (r : Registry) (rest : List Pending)
    → Fine r (releasing ∷ rest)
    → Fine (record r { active = (r.active + u64_mod - 1) % u64_mod }) rest
releasing-Fine r rest v = record {
  to_joined = v.to_joined;
  to_subscribers = v.to_subscribers;
  gone = v.gone;
  locked = v.locked;
  one_call = v.one_call;
  swept = v.swept;
  distinct = v.distinct;
  distinct_joined = v.distinct_joined;
  live = v.live;
  kept = v.kept;
  departed = v.departed;
  unknown = v.unknown;
  one_arrival = v.one_arrival;
  entering = v.entering;
  linked = v.linked;
  fresh = v.fresh;
  bounded = omega arith;
  unique = v.unique;
  counted = ground (arith, v.counted);
}
