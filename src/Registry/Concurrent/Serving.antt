-- ===== src/Registry/Concurrent/Serving.antt =====
-- src/connection/registry.rs: the later accesses of `subscribe` and `unsubscribe` keep the state of
-- the registry.
use turbocable_server.Prelude.{
  ℕ, ◌≡◌, false, none, some, List, [], ◌∷◌, ◌++◌, Text, contains, contains-append,
  contains-retain_ne, retain_ne, if◌then◌else◌, ◌==◌, eq_iff, nat_eq, text_eq, arith, Option-cases,
  inl, inr, Distinct-snoc, Distinct-retain_ne,
}
use turbocable_server.Prelude.Dict.{get, insert, get-insert}
use turbocable_server.Registry.{Registry, forget_stream, remove_if_empty}
use turbocable_server.Registry.Concurrent.{
  Pending, joining, leaving_empty, forgetting, any, serves, with_streams, push_joined,
}
use turbocable_server.Registry.Concurrent.Pendings.{joins, any_zero, not_served}
use turbocable_server.Registry.Concurrent.Fine.{Fine}
use turbocable_server.Registry.Concurrent.Trim.{get-remove_if_empty, ids_at}

-- The later accesses of `subscribe` and `unsubscribe`.
module _ (r : Registry) (rest : List Pending) (c : ℕ) (s : Text) where
  joined-Fine :
      (names : List Text)
      → get c r.conn_streams ≡ some names
      → Fine r (joining c s ∷ rest)
      → Fine (record r { conn_streams = insert c (names ++ s ∷ []) r.conn_streams }) rest
  unfolding contains
  joined-Fine names e v = record {
    to_joined = λ d t h.
        ground (
          arith,
          v.to_joined d t,
          more d,
          eq_iff c d,
          eq_iff s t,
          contains-append t names (s ∷ []),
        );
    to_subscribers = λ d t h. ground (
      arith,
      v.to_subscribers d t,
      more d,
      eq_iff c d,
      eq_iff s t,
      contains-append t names (s ∷ []),
    );
    gone = v.gone;
    locked = λ d t h.
        ground (arith, v.locked d t, more d, eq_iff c d, contains-append t names (s ∷ []), alone t);
    one_call = λ d. ground (arith, v.one_call d);
    swept = v.swept;
    distinct = v.distinct;
    distinct_joined = λ d. ground (
      arith,
      v.distinct_joined d,
      more d,
      eq_iff c d,
      Distinct-snoc s names,
      v.locked c s,
      eq_iff c c,
      eq_iff s s,
    );
    live = λ d h. ground (arith, v.live d, more d, eq_iff c d);
    kept = λ d h. ground (arith, v.kept d, more d);
    departed = λ d h. ground (arith, v.departed d, more d, eq_iff c d);
    unknown = λ d h. ground (arith, v.unknown d, more d, eq_iff c d);
    one_arrival = v.one_arrival;
    entering = v.entering;
    linked = v.linked;
    fresh = λ d h. ground (arith, v.fresh d, more d, eq_iff c d);
    bounded = v.bounded;
    unique = v.unique;
    counted = v.counted;
  }
    where
      more :
          (d : ℕ)
          → get d (insert c (names ++ s ∷ []) r.conn_streams)
            ≡ (if c == d then some (names ++ s ∷ []) else get d r.conn_streams)
      more d = get-insert c d (names ++ s ∷ []) r.conn_streams

      none_serves : any (serves c) rest ≡ false
      none_serves = any_zero (serves c) rest (ground (arith, v.one_call c, eq_iff c c))

      alone : (t : Text) → any (joins c t) rest ≡ false
      alone t = (not_served c t rest none_serves).0

  pub joining-Fine : Fine r (joining c s ∷ rest) → Fine (push_joined c s r) rest
  joining-Fine v = elim (Option-cases (get c r.conn_streams)) [
    | inl e ↦ absurd (ground (arith, v.locked c s, eq_iff c c, eq_iff s s))
    | inr (names, e) ↦ rw (e, push_joined) (joined-Fine names e v)
  ]

  pub leaving_empty-Fine :
      Fine r (leaving_empty c s ∷ rest)
      → Fine (with_streams (remove_if_empty s r.streams) r) (forgetting c s ∷ rest)
  leaving_empty-Fine v = record {
    to_joined = λ d t h. ground (arith, v.to_joined d t, (same t).0);
    to_subscribers = λ d t h. ground (arith, v.to_subscribers d t, (same t).0);
    gone = λ d t h. ground (arith, v.gone d t, (same t).0);
    locked = v.locked;
    one_call = v.one_call;
    swept = λ t h. ground (arith, v.swept t, (same t).1 h);
    distinct = λ t. ground (arith, v.distinct t, (same t).0);
    distinct_joined = v.distinct_joined;
    live = v.live;
    kept = v.kept;
    departed = v.departed;
    unknown = v.unknown;
    one_arrival = v.one_arrival;
    entering = v.entering;
    linked = v.linked;
    fresh = v.fresh;
    bounded = v.bounded;
    unique = v.unique;
    counted = v.counted;
  }
    where
      same :
          (t : Text)
          → (ids_at t (remove_if_empty s r.streams) ≡ ids_at t r.streams)
            × (get t (remove_if_empty s r.streams) ≡ some []
                → (get t r.streams ≡ some []) × ((s == t) ≡ false))
      same t = get-remove_if_empty s r.streams t

  forgotten-Fine :
      (names : List Text)
      → get c r.conn_streams ≡ some names
      → Fine r (forgetting c s ∷ rest)
      → Fine (record r { conn_streams = insert c (retain_ne s names) r.conn_streams }) rest
  forgotten-Fine names e v = record {
    to_joined = λ d t h. ground (
      arith,
      v.to_joined d t,
      v.gone d t,
      more d,
      eq_iff c d,
      eq_iff s t,
      contains-retain_ne s t names,
    );
    to_subscribers = λ d t h. ground (
      arith,
      v.to_subscribers d t,
      more d,
      eq_iff c d,
      eq_iff s t,
      contains-retain_ne s t names,
      alone t,
    );
    gone = λ d t h. ground (arith, v.gone d t);
    locked =
        λ d t h. ground (arith, v.locked d t, more d, eq_iff c d, contains-retain_ne s t names);
    one_call = λ d. ground (arith, v.one_call d);
    swept = v.swept;
    distinct = v.distinct;
    distinct_joined =
        λ d. ground (arith, v.distinct_joined d, more d, eq_iff c d, Distinct-retain_ne s names);
    live = λ d h. ground (arith, v.live d, more d, eq_iff c d);
    kept = λ d h. ground (arith, v.kept d, more d);
    departed = λ d h. ground (arith, v.departed d, more d, eq_iff c d);
    unknown = λ d h. ground (arith, v.unknown d, more d, eq_iff c d);
    one_arrival = v.one_arrival;
    entering = v.entering;
    linked = v.linked;
    fresh = λ d h. ground (arith, v.fresh d, more d, eq_iff c d);
    bounded = v.bounded;
    unique = v.unique;
    counted = v.counted;
  }
    where
      more :
          (d : ℕ)
          → get d (insert c (retain_ne s names) r.conn_streams)
            ≡ (if c == d then some (retain_ne s names) else get d r.conn_streams)
      more d = get-insert c d (retain_ne s names) r.conn_streams

      none_serves : any (serves c) rest ≡ false
      none_serves = any_zero (serves c) rest (ground (arith, v.one_call c, eq_iff c c))

      alone : (t : Text) → any (joins c t) rest ≡ false
      alone t = (not_served c t rest none_serves).0

  -- A connection that was deregistered in the meantime has no list any more.
  unlisted-Fine : get c r.conn_streams ≡ none → Fine r (forgetting c s ∷ rest) → Fine r rest
  unfolding contains
  unlisted-Fine e v = record {
    to_joined = v.to_joined;
    to_subscribers = λ d t h. ground (arith, v.to_subscribers d t, v.locked d t, eq_iff c d);
    gone = λ d t h. ground (arith, v.gone d t);
    locked = v.locked;
    one_call = λ d. ground (arith, v.one_call d);
    swept = v.swept;
    distinct = v.distinct;
    distinct_joined = v.distinct_joined;
    live = v.live;
    kept = v.kept;
    departed = v.departed;
    unknown = v.unknown;
    one_arrival = v.one_arrival;
    entering = v.entering;
    linked = v.linked;
    fresh = v.fresh;
    bounded = v.bounded;
    unique = v.unique;
    counted = v.counted;
  }

  pub forgetting-Fine : Fine r (forgetting c s ∷ rest) → Fine (forget_stream c s r) rest
  unfolding forget_stream
  forgetting-Fine v = elim (Option-cases (get c r.conn_streams)) [
    | inl e ↦ rw (e, forget_stream) (unlisted-Fine e v)
    | inr (names, e) ↦ rw (e, forget_stream) (forgotten-Fine names e v)
  ]
