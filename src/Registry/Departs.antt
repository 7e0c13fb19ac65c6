-- ===== src/Registry/Departs.antt =====
-- src/connection/registry.rs: the removal of connections keeps the invariant.
use turbocable_server.Prelude.{
  ℕ, ◌≡◌, none, some, List, [], ◌∷◌, Text, contains, eq_iff, nat_eq, text_eq, arith, Option-cases,
  inl, inr,
}
use turbocable_server.Prelude.Dict.{get, remove, get-remove, IsUnique}
use turbocable_server.Registry.{
  Registry, deregister, deregister_all, remove_from_streams, remove_connection,
}
use turbocable_server.Registry.Streams.{
  contains-remove_from_streams, remove_from_streams-HasNoEmpty, Distinct-remove_from_streams,
  connections-remove_from_streams,
}
use turbocable_server.Registry.Invariant.{
  Inv, remove_connection-IsUnique, remove_connection_counted, streams-remove_connection,
  get-remove_connection,
}

module _ (r : Registry) (v : Inv r) where
  deregister_joined-Inv :
      (c : ℕ) (names : List Text)
      → get c r.conn_streams ≡ some names
      → Inv (
          remove_connection c
            (remove_from_streams c names (record r { conn_streams = remove c r.conn_streams })))
  unfolding contains
  deregister_joined-Inv c names e = record {
    linked = λ d t. ground (
      arith,
      fields,
      streams-remove_connection c after,
      contains-remove_from_streams c d names t start,
      get-remove c d r.conn_streams,
      v.linked d t,
      eq_iff c d,
    );
    no_empty = λ t. ground (
      arith,
      streams-remove_connection c after,
      remove_from_streams-HasNoEmpty c names start v.no_empty t,
    );
    distinct = λ t. ground (
      arith,
      streams-remove_connection c after,
      Distinct-remove_from_streams c names t start v.distinct,
    );
    distinct_joined = λ d. ground (
      arith,
      fields,
      streams-remove_connection c after,
      get-remove c d r.conn_streams,
      v.distinct_joined d,
    );
    same_keys = λ d. ground (
      arith,
      fields,
      streams-remove_connection c after,
      get-remove_connection c after d,
      get-remove c d r.conn_streams,
      v.same_keys d,
    );
    unique = remove_connection-IsUnique c after after_unique;
    counted = remove_connection_counted c after after_unique (ground (arith, fields, v.counted));
  }
    where
      start : Registry
      start = record r { conn_streams = remove c r.conn_streams }

      after : Registry
      after = remove_from_streams c names start

      fields :
          (after.connections ≡ r.connections)
          × (after.conn_streams ≡ remove c r.conn_streams)
          × (after.next_id ≡ r.next_id)
          × (after.active ≡ r.active)
      fields = connections-remove_from_streams c names start

      after_unique : IsUnique after.connections
      after_unique = rw (fields.0) v.unique

  pub deregister-Inv : (c : ℕ) → Inv (deregister c r)
  unfolding deregister remove_connection
  deregister-Inv c = elim (Option-cases (get c r.conn_streams)) [
    | inl e ↦
        rw (e, deregister)
          (let g : get c r.connections ≡ none = ground (arith, v.same_keys c) in
            rw (g, remove_connection) v)
    | inr (names, e) ↦ rw (e, deregister) (deregister_joined-Inv c names e)
  ]

pub deregister_all-Inv : (ids : List ℕ) (r : Registry) → Inv r → Inv (deregister_all ids r)
unfolding deregister_all
deregister_all-Inv [] r v = v
deregister_all-Inv (c ∷ ids) r v = deregister_all-Inv ids (deregister c r) (deregister-Inv r v c)
