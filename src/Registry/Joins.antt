-- ===== src/Registry/Joins.antt =====
-- src/connection/registry.rs: subscribing and unsubscribing keep the invariant.
use turbocable_server.Prelude.{
  ℕ, ◌≡◌, ◌≢◌, false, none, some, List, [], ◌∷◌, ◌++◌, Text, contains, retain_ne,
  contains-retain_ne, contains-append, eq_iff, nat_eq, text_eq, arith, Option-cases, Bool-cases,
  inl, inr, Distinct-retain_ne, Distinct-snoc,
}
use turbocable_server.Prelude.Dict.{get, insert, get-insert}
use turbocable_server.Registry.{
  Registry, subscribe, unsubscribe, remove_subscriber_from_stream, forget_stream, subscribers,
  push_subscriber,
}
use turbocable_server.Registry.Streams.{
  get-push_subscriber, subscribers-remove_subscriber, remove_subscriber-HasNoEmpty,
  connections-remove_subscriber,
}
use turbocable_server.Registry.Invariant.{Inv}

snoc-ne-nil : (c : ℕ) (xs : List ℕ) → (xs ++ c ∷ []) ≢ []
snoc-ne-nil c [] e = cc
snoc-ne-nil c (x ∷ xs) e = cc

forget_stream_unknown :
    (c : ℕ) (s : Text) (q : Registry) → get c q.conn_streams ≡ none → forget_stream c s q ≡ q
unfolding forget_stream
forget_stream_unknown c s q e = ground arith

forget_stream_joined :
    (c : ℕ) (s : Text) (names : List Text) (q : Registry)
    → get c q.conn_streams ≡ some names
    → forget_stream c s q ≡ record q { conn_streams = insert c (retain_ne s names) q.conn_streams }
unfolding forget_stream
forget_stream_joined c s names q e = ground arith

connections-remove_subscriber_none :
    (c : ℕ) (s : Text) (r : Registry)
    → get c r.conn_streams ≡ none
    → get c (remove_subscriber_from_stream s c r).conn_streams ≡ none
connections-remove_subscriber_none c s r e = ground (arith, connections-remove_subscriber s c r)

connections-remove_subscriber_some :
    (c : ℕ) (s : Text) (names : List Text) (r : Registry)
    → get c r.conn_streams ≡ some names
    → get c (remove_subscriber_from_stream s c r).conn_streams ≡ some names
connections-remove_subscriber_some c s names r e =
    ground (arith, connections-remove_subscriber s c r)

module _ (r : Registry) (v : Inv r) where
  subscribe_new-Inv :
      (c : ℕ) (s : Text) (names : List Text)
      → get c r.conn_streams ≡ some names
      → contains s names ≡ false
      → Inv (record r {
        streams = push_subscriber s c r.streams;
        conn_streams = insert c (names ++ s ∷ []) r.conn_streams;
      })
  unfolding contains
  subscribe_new-Inv c s names e miss = record {
    linked = λ d t. ground (
      arith,
      get-push_subscriber s t c r.streams,
      get-insert c d (names ++ s ∷ []) r.conn_streams,
      v.linked d t,
      eq_iff c d,
      eq_iff s t,
      contains-append d (subscribers r t) (c ∷ []),
      contains-append t names (s ∷ []),
    );
    no_empty = λ t. ground (
      arith,
      get-push_subscriber s t c r.streams,
      v.no_empty t,
      snoc-ne-nil c (subscribers r t),
      eq_iff s t,
    );
    distinct = λ t. ground (
      arith,
      get-push_subscriber s t c r.streams,
      v.distinct t,
      v.linked c t,
      eq_iff s t,
      Distinct-snoc c (subscribers r t),
    );
    distinct_joined = λ d. ground (
      arith,
      get-insert c d (names ++ s ∷ []) r.conn_streams,
      v.distinct_joined d,
      eq_iff c d,
      Distinct-snoc s names,
    );
    same_keys = λ d.
        ground (arith, v.same_keys d, get-insert c d (names ++ s ∷ []) r.conn_streams, eq_iff c d);
    unique = v.unique;
    counted = v.counted;
  }

  pub subscribe-Inv : (c : ℕ) (s : Text) → Inv (subscribe c s r)
  unfolding subscribe
  subscribe-Inv c s = elim (Option-cases (get c r.conn_streams)) [
    | inl e ↦ rw (e, subscribe) v
    | inr (names, e) ↦ elim (Bool-cases (contains s names)) [
      | inl old ↦ rw (e, subscribe) (rw old v)
      | inr new_name ↦ rw (e, subscribe) (rw new_name (subscribe_new-Inv c s names e new_name))
    ]
  ]

  unsubscribe_joined-Inv :
      (c : ℕ) (s : Text) (names : List Text)
      → get c r.conn_streams ≡ some names
      → Inv (record (remove_subscriber_from_stream s c r) {
        conn_streams =
            insert c (retain_ne s names) (remove_subscriber_from_stream s c r).conn_streams;
      })
  unsubscribe_joined-Inv c s names e = record {
    linked = λ d t. ground (
      arith,
      subscribers-remove_subscriber s c r t,
      contains-retain_ne c d (subscribers r t),
      contains-retain_ne s t names,
      connections-remove_subscriber s c r,
      get-insert c d (retain_ne s names) (remove_subscriber_from_stream s c r).conn_streams,
      v.linked d t,
      eq_iff c d,
    );
    no_empty = remove_subscriber-HasNoEmpty s c r v.no_empty;
    distinct = λ t. ground (
      arith,
      subscribers-remove_subscriber s c r t,
      v.distinct t,
      Distinct-retain_ne c (subscribers r t),
    );
    distinct_joined = λ d. ground (
      arith,
      connections-remove_subscriber s c r,
      get-insert c d (retain_ne s names) (remove_subscriber_from_stream s c r).conn_streams,
      v.distinct_joined d,
      eq_iff c d,
      Distinct-retain_ne s names,
    );
    same_keys = λ d. ground (
      arith,
      connections-remove_subscriber s c r,
      v.same_keys d,
      connections-remove_subscriber s c r,
      get-insert c d (retain_ne s names) (remove_subscriber_from_stream s c r).conn_streams,
      eq_iff c d,
    );
    unique = rw ((connections-remove_subscriber s c r).0) v.unique;
    counted = ground (arith, connections-remove_subscriber s c r, v.counted);
  }

  -- A connection that is not registered is in no list, so nothing changes for any other.
  unsubscribe_unknown-Inv :
      (c : ℕ) (s : Text) → get c r.conn_streams ≡ none → Inv (remove_subscriber_from_stream s c r)
  unfolding contains
  unsubscribe_unknown-Inv c s e = record {
    linked = λ d t. ground (
      arith,
      subscribers-remove_subscriber s c r t,
      connections-remove_subscriber s c r,
      contains-retain_ne c d (subscribers r t),
      v.linked d t,
      eq_iff c d,
    );
    no_empty = remove_subscriber-HasNoEmpty s c r v.no_empty;
    distinct = λ t. ground (
      arith,
      subscribers-remove_subscriber s c r t,
      v.distinct t,
      Distinct-retain_ne c (subscribers r t),
    );
    distinct_joined = λ d. ground (arith, connections-remove_subscriber s c r, v.distinct_joined d);
    same_keys = λ d. ground (arith, connections-remove_subscriber s c r, v.same_keys d);
    unique = rw ((connections-remove_subscriber s c r).0) v.unique;
    counted = ground (arith, connections-remove_subscriber s c r, v.counted);
  }

  pub unsubscribe-Inv : (c : ℕ) (s : Text) → Inv (unsubscribe c s r)
  unfolding unsubscribe
  unsubscribe-Inv c s = elim (Option-cases (get c r.conn_streams)) [
    | inl e ↦
        rw
          (forget_stream_unknown c s (remove_subscriber_from_stream s c r)
            (connections-remove_subscriber_none c s r e))
          (unsubscribe_unknown-Inv c s e)
    | inr (names, e) ↦
        rw
          (forget_stream_joined c s names (remove_subscriber_from_stream s c r)
            (connections-remove_subscriber_some c s names r e))
          (unsubscribe_joined-Inv c s names e)
  ]
