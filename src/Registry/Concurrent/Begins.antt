-- ===== src/Registry/Concurrent/Begins.antt =====
-- src/connection/registry.rs: the first access of each method keeps the state of the registry.
use turbocable_server.Prelude.{
  ℕ, ◌+◌, ◌<◌, ◌≡◌, refl, subst, true, false, not, ◌||◌, List, [], ◌∷◌, Text, contains, is_some,
  if◌then◌else◌, ltb, eq_iff, nat_eq, text_eq, arith, Option-cases, Bool-cases, inl, inr,
}
use turbocable_server.Prelude.Dict.{get, remove, get-remove, remove_absent}
use turbocable_server.Registry.{
  ConnectionEntry, Registry, u64_mod, allocate_id, subscribers, joined, push_subscriber,
}
use turbocable_server.Registry.Spec.{Call, connect, subscribes, unsubscribes, deregisters}
use turbocable_server.Registry.Concurrent.{
  Pending, allocated, joining, leaving_empty, forgetting, purging, Shared, any, arrives, serves,
  holds, trim, with_streams, begin_subscribe, begin_unsubscribe, begin_deregister, begin, resume,
}
use turbocable_server.Registry.Concurrent.Pendings.{
  joins, forgets, departs, total, not_served, not_held, not_departed,
}
use turbocable_server.Registry.Concurrent.Fine.{Fine}
use turbocable_server.Registry.Concurrent.Trim.{
  contains-trim, trim-Distinct, trim_empty, contains-push, push-Distinct, push_empty,
}

-- The state is fine, with what is left of a method added to the tasks.
abbrev pub FineShared : Shared → Type 0
FineShared st = Fine st.registry st.tasks

module _ (r : Registry) (ps : List Pending) (v : Fine r ps) where
  connect-Fine :
      (entry : ConnectionEntry)
      → r.next_id + 1 < u64_mod
      → Fine (allocate_id r).1 (allocated (allocate_id r).0 entry ∷ ps)
  unfolding allocate_id
  connect-Fine entry room = record {
    to_joined = v.to_joined;
    to_subscribers = v.to_subscribers;
    gone = v.gone;
    locked = v.locked;
    one_call = v.one_call;
    swept = v.swept;
    distinct = v.distinct;
    distinct_joined = v.distinct_joined;
    live = v.live;
    kept = v.kept;
    departed = v.departed;
    unknown = λ c h. ground (arith, v.unknown c, v.fresh r.next_id, eq_iff r.next_id c);
    one_arrival = λ c. ground (arith, v.one_arrival c, v.fresh r.next_id, eq_iff r.next_id c);
    entering = λ c h. ground (arith, v.entering c, v.fresh r.next_id, eq_iff r.next_id c);
    linked = v.linked;
    fresh = λ c h. ground (arith, v.fresh c, eq_iff r.next_id c);
    bounded = v.bounded;
    unique = v.unique;
    counted = v.counted;
  }

  joining-Fine :
      (c : ℕ) (s : Text)
      → any (serves c) ps ≡ false
      → is_some (get c r.conn_streams) ≡ true
      → contains s (joined r c) ≡ false
      → Fine (with_streams (push_subscriber s c r.streams) r) (joining c s ∷ ps)
  joining-Fine c s free here new = record {
    to_joined = λ d t h.
        ground (arith, v.to_joined d t, contains-push s c r.streams d t, eq_iff s t, eq_iff c d);
    to_subscribers = λ d t h.
        ground
          (arith, v.to_subscribers d t, contains-push s c r.streams d t, eq_iff s t, eq_iff c d);
    gone = λ d t h.
        ground (arith, v.gone d t, contains-push s c r.streams d t, eq_iff s t, eq_iff c d, idle);
    locked = λ d t h. ground (arith, v.locked d t, eq_iff s t, eq_iff c d);
    one_call = λ d. ground (arith, v.one_call d, eq_iff c d, idle);
    swept = λ t h. ground (arith, v.swept t, push_empty s c r.streams t);
    distinct = λ t. push-Distinct s c r.streams t out (v.distinct t);
    distinct_joined = v.distinct_joined;
    live = v.live;
    kept = v.kept;
    departed = v.departed;
    unknown = v.unknown;
    one_arrival = v.one_arrival;
    entering = v.entering;
    linked = v.linked;
    fresh = v.fresh;
    bounded = v.bounded;
    unique = v.unique;
    counted = v.counted;
  }
    where
      idle :
          (any (joins c s) ps ≡ false) × (any (forgets c s) ps ≡ false) × (total (serves c) ps ≡ 0)
      idle = not_served c s ps free

      stays : any (departs c) ps ≡ false
      stays = ground (arith, v.departed c)

      out : contains c (subscribers r s) ≡ false
      out = ground (arith, v.to_joined c s, idle, not_departed c s ps stays)

  subscribe-Fine :
      (c : ℕ) (s : Text)
      → any (serves c) ps ≡ false
      → FineShared (resume (begin_subscribe c s r) ps)
  unfolding begin_subscribe
  subscribe-Fine c s free = elim (Option-cases (get c r.conn_streams)) [
    | inl e ↦ rw (e, begin_subscribe) v
    | inr (names, e) ↦ elim (Bool-cases (contains s names)) [
      | inl old ↦ rw (e, old, begin_subscribe) v
      | inr new ↦ rw (e, new, begin_subscribe) (joining-Fine c s free (ground arith) (ground arith))
    ]
  ]

  -- The trimmed list, with what is left of `unsubscribe`.
  unsubscribed-Fine :
      (c : ℕ) (s : Text) (p : Pending)
      → p ≡ (if (trim s c r.streams).0 then leaving_empty c s else forgetting c s)
      → any (serves c) ps ≡ false
      → Fine (with_streams (trim s c r.streams).1 r) (p ∷ ps)
  unsubscribed-Fine c s p which free = record {
    to_joined = λ d t h. ground (arith, v.to_joined d t, contains-trim s c r.streams d t);
    to_subscribers = λ d t h.
        ground
          (arith, v.to_subscribers d t, contains-trim s c r.streams d t, eq_iff s t, eq_iff c d);
    gone = λ d t h. ground (arith, v.gone d t, contains-trim s c r.streams d t);
    locked = λ d t h. ground (arith, v.locked d t);
    one_call = λ d. ground (arith, v.one_call d, not_served c s ps free, eq_iff c d);
    swept = λ t h. ground (arith, v.swept t, trim_empty s c r.streams t);
    distinct = λ t. trim-Distinct s c r.streams t (v.distinct t);
    distinct_joined = v.distinct_joined;
    live = v.live;
    kept = λ d h. ground (arith, v.kept d);
    departed = λ d h. ground (arith, v.departed d);
    unknown = λ d h. ground (arith, v.unknown d);
    one_arrival = λ d. ground (arith, v.one_arrival d);
    entering = λ d h. ground (arith, v.entering d);
    linked = λ d h. ground (arith, v.linked d);
    fresh = λ d h. ground (arith, v.fresh d);
    bounded = v.bounded;
    unique = v.unique;
    counted = ground (arith, v.counted);
  }

  unsubscribe-Fine :
      (c : ℕ) (s : Text)
      → any (serves c) ps ≡ false
      → FineShared (resume (begin_unsubscribe c s r) ps)
  unfolding begin_unsubscribe
  unsubscribe-Fine c s free = unsubscribed-Fine c s _ refl free

  -- The streams of a connection that is deregistered are still to be left; there are none if its
  -- list is already gone.
  purging-Fine :
      (c : ℕ) (names : List Text)
      → joined r c ≡ names
      → any (arrives c) ps ≡ false
      → any (holds c) ps ≡ false
      → c < r.next_id
      → Fine (record r { conn_streams = remove c r.conn_streams }) (purging c names ∷ ps)
  unfolding contains
  purging-Fine c names e known free old = record {
    to_joined = λ d t h. ground (arith, v.to_joined d t, get-remove c d r.conn_streams, eq_iff c d);
    to_subscribers =
        λ d t h. ground (arith, v.to_subscribers d t, get-remove c d r.conn_streams, eq_iff c d);
    gone = v.gone;
    locked = λ d t h.
        ground
          (arith, v.locked d t, get-remove c d r.conn_streams, eq_iff c d, not_held c t ps free);
    one_call = v.one_call;
    swept = v.swept;
    distinct = v.distinct;
    distinct_joined = λ d. ground (arith, v.distinct_joined d, get-remove c d r.conn_streams);
    live = λ d h. ground (arith, v.live d, get-remove c d r.conn_streams);
    kept = λ d h. ground (arith, v.kept d, get-remove c d r.conn_streams, eq_iff c d);
    departed = λ d h. ground (arith, v.departed d, get-remove c d r.conn_streams, eq_iff c d);
    unknown = λ d h. ground (arith, v.unknown d, get-remove c d r.conn_streams, eq_iff c d, known);
    one_arrival = v.one_arrival;
    entering = v.entering;
    linked = v.linked;
    fresh = λ d h. ground (arith, v.fresh d, get-remove c d r.conn_streams, eq_iff c d);
    bounded = v.bounded;
    unique = v.unique;
    counted = v.counted;
  }

  deregister-Fine :
      (c : ℕ)
      → any (arrives c) ps ≡ false
      → any (holds c) ps ≡ false
      → c < r.next_id
      → FineShared (resume (begin_deregister c r) ps)
  unfolding begin_deregister
  deregister-Fine c known free old = elim (Option-cases (get c r.conn_streams)) [
    | inl e ↦
        rw (e, begin_deregister)
          (subst (λ m. Fine (record r { conn_streams = m }) (purging c [] ∷ ps))
            (remove_absent c r.conn_streams e) (purging-Fine c [] (ground arith) known free old))
    | inr (names, e) ↦ rw (e, begin_deregister) (purging-Fine c names (ground arith) known free old)
  ]

  pub begin-Fine :
      (call : Call) → r.next_id + 1 < u64_mod → FineShared (resume (begin ps call r) ps)
  unfolding begin
  begin-Fine (connect sender is_binary evict_tx) room = connect-Fine _ room
  begin-Fine (subscribes c s) room = elim (Bool-cases (any (serves c) ps)) [
    | inl e ↦ rw (e, begin) v
    | inr e ↦ rw (e, begin) (subscribe-Fine c s e)
  ]
  begin-Fine (unsubscribes c s) room = elim (Bool-cases (any (serves c) ps)) [
    | inl e ↦ rw (e, begin) v
    | inr e ↦ rw (e, begin) (unsubscribe-Fine c s e)
  ]
  begin-Fine (deregisters c) room =
      let closed = any (arrives c) ps || any (holds c) ps || not (ltb c r.next_id) in
      elim (Bool-cases closed) [
        | inl e ↦ rw (e, begin) v
        | inr e ↦ rw (e, begin) (deregister-Fine c (ground arith) (ground arith) (ground arith))
      ]
