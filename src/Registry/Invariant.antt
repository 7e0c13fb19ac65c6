-- ===== src/Registry/Invariant.antt =====
-- src/connection/registry.rs: the registry's invariant, and that new connections keep it.
use turbocable_server.Prelude.{
  ℕ, ◌%◌, ◌≡◌, refl, Bool, none, [], Text, contains, is_some, if◌then◌else◌, ◌==◌, eq_iff, nat_eq,
  text_eq, arith, Distinct, length,
}
use turbocable_server.Prelude.Dict.{
  get, get-insert, get-remove, IsUnique, insert-IsUnique, remove-IsUnique, length-insert,
  length-remove,
}
use turbocable_server.Registry.{
  Registry, u64_mod, new, allocate_id, register, remove_connection, subscribers, joined,
}
use turbocable_server.Registry.Streams.{HasNoEmpty}

-- The two maps of subscriptions mirror each other, hold no repetition and no empty list; the two
-- maps by connection have the same keys; and the counter counts the connections.
pub record Inv (r : Registry) : Type 0 where
  pub linked : (c : ℕ) (s : Text) → contains c (subscribers r s) ≡ contains s (joined r c)
  pub no_empty : HasNoEmpty r
  pub distinct : (s : Text) → Distinct (subscribers r s)
  pub distinct_joined : (c : ℕ) → Distinct (joined r c)
  pub same_keys : (c : ℕ) → is_some (get c r.connections) ≡ is_some (get c r.conn_streams)
  pub unique : IsUnique r.connections
  pub counted : r.active ≡ length r.connections % u64_mod

module _ (c : ℕ) (q : Registry) where
  pub streams-remove_connection :
      ((remove_connection c q).streams ≡ q.streams)
      × ((remove_connection c q).conn_streams ≡ q.conn_streams)
      × ((remove_connection c q).next_id ≡ q.next_id)
  unfolding remove_connection
  streams-remove_connection = ground arith

  pub get-remove_connection :
      (d : ℕ)
      → get d (remove_connection c q).connections ≡ (if c == d then none else get d q.connections)
  unfolding remove_connection
  get-remove_connection d = ground (arith, get-remove c d q.connections, eq_iff c d)

  pub remove_connection-IsUnique :
      IsUnique q.connections → IsUnique (remove_connection c q).connections
  unfolding remove_connection
  remove_connection-IsUnique u = ground (arith, remove-IsUnique c q.connections u)

  pub remove_connection_counted :
      IsUnique q.connections
      → q.active ≡ length q.connections % u64_mod
      → (remove_connection c q).active ≡ length (remove_connection c q).connections % u64_mod
  unfolding remove_connection
  remove_connection_counted u k = ground (arith, length-remove c q.connections u)

pub new-Inv : Inv new
unfolding new contains get
new-Inv = record {
  linked = λ c s. refl;
  no_empty = λ t e. cc;
  distinct = λ s. tt;
  distinct_joined = λ c. tt;
  same_keys = λ c. refl;
  unique = tt;
  counted = omega arith;
}

module _ (r : Registry) (v : Inv r) where
  pub allocate_id-Inv : Inv (allocate_id r).1
  unfolding allocate_id
  allocate_id-Inv = record {
    linked = v.linked;
    no_empty = v.no_empty;
    distinct = v.distinct;
    distinct_joined = v.distinct_joined;
    same_keys = v.same_keys;
    unique = v.unique;
    counted = v.counted;
  }

  register-counted :
      (c sender evict : ℕ) (binary : Bool)
      → get c r.connections ≡ none
      → (register c sender binary evict r).active
        ≡ length (register c sender binary evict r).connections % u64_mod
  unfolding register
  register-counted c sender evict binary free = ground (
    arith,
    length-insert c (record { sender = sender; evict_tx = evict; is_binary = binary }) r.connections
        v.unique,
    v.counted,
  )

  pub register-Inv :
      (c sender evict : ℕ) (binary : Bool)
      → get c r.connections ≡ none
      → Inv (register c sender binary evict r)
  unfolding register contains
  register-Inv c sender evict binary free = record {
    linked = λ d s.
        ground (arith, v.linked d s, v.same_keys c, get-insert c d [] r.conn_streams, eq_iff c d);
    no_empty = v.no_empty;
    distinct = v.distinct;
    distinct_joined = λ d. ground (arith, v.distinct_joined d, get-insert c d [] r.conn_streams);
    same_keys = λ d. ground (
      arith,
      v.same_keys d,
      get-insert c d [] r.conn_streams,
      get-insert c d (record { sender = sender; evict_tx = evict; is_binary = binary })
          r.connections,
    );
    unique = insert-IsUnique c _ r.connections v.unique;
    counted = register-counted c sender evict binary free;
  }
