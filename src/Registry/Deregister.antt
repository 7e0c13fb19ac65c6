-- ===== src/Registry/Deregister.antt =====
-- src/connection/registry.rs: what `deregister` does to each map of the registry.
use turbocable_server.Prelude.{
  ℕ, ◌≡◌, false, none, Text, contains, if◌then◌else◌, ◌==◌, eq_iff, nat_eq, text_eq, arith,
  Option-cases, inl, inr,
}
use turbocable_server.Prelude.Dict.{get, remove}
use turbocable_server.Registry.{Registry, deregister, remove_from_streams, subscribers}
use turbocable_server.Registry.Streams.{
  contains-remove_from_streams, connections-remove_from_streams,
}
use turbocable_server.Registry.Invariant.{Inv, streams-remove_connection, get-remove_connection}

module _ (r : Registry) (v : Inv r) where
  -- The registry once `deregister` has taken the list of joined streams.
  dropped : ℕ → Registry
  dropped c = record r { conn_streams = remove c r.conn_streams }

  pub member-deregister :
      (c d : ℕ) (t : Text)
      → contains d (subscribers (deregister c r) t)
        ≡ (if c == d then false else contains d (subscribers r t))
  unfolding deregister dropped contains
  member-deregister c d t = elim (Option-cases (get c r.conn_streams)) [
    | inl e ↦
        rw (e, deregister)
          (ground (
            arith,
            v.linked c t,
            v.same_keys c,
            streams-remove_connection c r,
            get-remove_connection c r d,
            eq_iff c d,
          ))
    | inr (names, e) ↦
        rw (e, deregister)
          (ground (
            arith,
            v.linked c t,
            contains-remove_from_streams c d names t (dropped c),
            connections-remove_from_streams c names (dropped c),
            streams-remove_connection c (remove_from_streams c names (dropped c)),
            get-remove_connection c (remove_from_streams c names (dropped c)) d,
            eq_iff c d,
          ))
  ]

  pub live-deregister :
      (c d : ℕ)
      → get d (deregister c r).connections ≡ (if c == d then none else get d r.connections)
  unfolding deregister dropped
  live-deregister c d = elim (Option-cases (get c r.conn_streams)) [
    | inl e ↦
        rw (e, deregister)
          (ground (
            arith,
            v.same_keys c,
            streams-remove_connection c r,
            get-remove_connection c r d,
            eq_iff c d,
          ))
    | inr (names, e) ↦
        rw (e, deregister)
          (ground (
            arith,
            connections-remove_from_streams c names (dropped c),
            streams-remove_connection c (remove_from_streams c names (dropped c)),
            get-remove_connection c (remove_from_streams c names (dropped c)) d,
            eq_iff c d,
          ))
  ]

  pub next_id-deregister : (c : ℕ) → (deregister c r).next_id ≡ r.next_id
  unfolding deregister dropped
  next_id-deregister c = elim (Option-cases (get c r.conn_streams)) [
    | inl e ↦ rw (e, deregister) (ground (arith, streams-remove_connection c r))
    | inr (names, e) ↦
        rw (e, deregister)
          (ground (
            arith,
            connections-remove_from_streams c names (dropped c),
            streams-remove_connection c (remove_from_streams c names (dropped c)),
          ))
  ]
