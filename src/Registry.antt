-- ===== src/Registry.antt =====
-- src/connection/registry.rs: the connection registry. A `DashMap` is a dictionary, an
-- `AtomicU64` a number below 2 ^ 64 that wraps, and each method is one step on the whole registry.
pub mod Streams
pub mod Invariant
pub mod Joins
pub mod Departs
pub mod Deregister
pub mod Spec
pub mod View
pub mod Fanout
pub mod Eviction
pub mod Broadcast
pub mod Concurrent
use turbocable_server.Prelude.{
  ℕ, ◌+◌, ◌-◌, ◌%◌, ◌^◌, Bool, true, false, Option, none, some, List, [], ◌∷◌, ◌++◌, Text, Bytes,
  contains, retain_ne, if◌then◌else◌, length, nat_eq, text_eq,
}
use turbocable_server.Prelude.Dict.{Dict, get, insert, remove}
use turbocable_server.Channel.{Channels}

pub record ConnectionEntry : Type 0 where
  pub sender : ℕ
  pub evict_tx : ℕ
  pub is_binary : Bool

pub record Registry : Type 0 where
  pub connections : Dict ℕ ConnectionEntry
  pub streams : Dict Text (List ℕ)
  pub conn_streams : Dict ℕ (List Text)
  pub next_id : ℕ
  pub active : ℕ

abbrev pub u64_mod : ℕ
u64_mod = 2 ^ 64

unfoldable pub new : Registry
new = record { connections = []; streams = []; conn_streams = []; next_id = 1; active = 0 }

-- `fetch_add` returns the old value, and wraps.
unfoldable pub allocate_id : Registry → ℕ × Registry
allocate_id r = (r.next_id, record r { next_id = (r.next_id + 1) % u64_mod })

unfoldable pub register : ℕ → ℕ → Bool → ℕ → Registry → Registry
register conn_id sender is_binary evict_tx r = record r {
  connections = insert conn_id entry r.connections;
  conn_streams = insert conn_id [] r.conn_streams;
  active = (r.active + 1) % u64_mod;
}
  where
    entry : ConnectionEntry
    entry = record { sender = sender; evict_tx = evict_tx; is_binary = is_binary }

-- `streams.remove_if(stream, |_, v| v.is_empty())`
abbrev pub remove_if_empty : Text → Dict Text (List ℕ) → Dict Text (List ℕ)
remove_if_empty stream m = elim (get stream m) [ some [] ↦ remove stream m | _ ↦ m ]

-- The subscriber list is rewritten in place, and its entry dropped if it is now empty.
abbrev write_subscribers : Text → List ℕ → Dict Text (List ℕ) → Dict Text (List ℕ)
write_subscribers stream [] m = remove_if_empty stream (insert stream [] m)
write_subscribers stream (c ∷ cs) m = insert stream (c ∷ cs) m

unfoldable pub remove_subscriber_from_stream : Text → ℕ → Registry → Registry
remove_subscriber_from_stream stream conn_id r = elim (get stream r.streams) [
  | none ↦ r
  | some subscribers ↦ record r {
    streams = write_subscribers stream (retain_ne conn_id subscribers) r.streams;
  }
]

-- `for stream in stream_list { self.remove_subscriber_from_stream(&stream, conn_id) }`
unfoldable pub remove_from_streams : ℕ → List Text → Registry → Registry
remove_from_streams conn_id [] r = r
remove_from_streams conn_id (stream ∷ rest) r =
    remove_from_streams conn_id rest (remove_subscriber_from_stream stream conn_id r)

-- `connections.remove(&conn_id)`, and `active` falls only if the entry was there.
unfoldable pub remove_connection : ℕ → Registry → Registry
remove_connection conn_id r = elim (get conn_id r.connections) [
  | none ↦ r
  | some entry ↦ record r {
    connections = remove conn_id r.connections;
    active = (r.active + u64_mod - 1) % u64_mod;
  }
]

unfoldable pub deregister : ℕ → Registry → Registry
deregister conn_id r = elim (get conn_id r.conn_streams) [
  | none ↦ remove_connection conn_id r
  | some stream_list ↦ remove_connection conn_id (
      remove_from_streams conn_id stream_list
        (record r { conn_streams = remove conn_id r.conn_streams }))
]

-- `streams.entry(stream).or_default().push(conn_id)`
abbrev pub push_subscriber : Text → ℕ → Dict Text (List ℕ) → Dict Text (List ℕ)
push_subscriber stream conn_id m = elim (get stream m) [
  | none ↦ insert stream (conn_id ∷ []) m
  | some subscribers ↦ insert stream (subscribers ++ conn_id ∷ []) m
]

unfoldable pub subscribe : ℕ → Text → Registry → Registry
subscribe conn_id stream r = elim (get conn_id r.conn_streams) [
  | none ↦ r
  | some joined ↦ if contains stream joined then r else record r {
    streams = push_subscriber stream conn_id r.streams;
    conn_streams = insert conn_id (joined ++ stream ∷ []) r.conn_streams;
  }
]

-- The second half of `unsubscribe`: `conn_streams.retain(|s| s != stream)`.
unfoldable pub forget_stream : ℕ → Text → Registry → Registry
forget_stream conn_id stream r = elim (get conn_id r.conn_streams) [
  | none ↦ r
  | some joined ↦ record r {
    conn_streams = insert conn_id (retain_ne stream joined) r.conn_streams;
  }
]

unfoldable pub unsubscribe : ℕ → Text → Registry → Registry
unsubscribe conn_id stream r =
    forget_stream conn_id stream (remove_subscriber_from_stream stream conn_id r)

pub record FanoutResult : Type 0 where
  pub sent : ℕ
  pub dropped : ℕ
  pub evicted : List ℕ

module _ (ch : Channels) where
  open ch use {World, try_send, signal}

  -- The variables of the loop of `fanout_encoded`, with the channels that it writes to.
  pub record Delivery : Type 0 where
    pub sent : ℕ
    pub evicted : List ℕ
    pub world : World

  abbrev pub payload_for : ConnectionEntry → Bytes → Bytes → Bytes
  payload_for entry json_payload binary_payload =
      if entry.is_binary then binary_payload else json_payload

  abbrev after_try_send : ℕ → ConnectionEntry → Delivery → Bool × World → Delivery
  after_try_send conn_id entry d (true, w) = record d { sent = d.sent + 1; world = w }
  after_try_send conn_id entry d (false, w) = record d {
    evicted = d.evicted ++ conn_id ∷ [];
    world = signal entry.evict_tx w;
  }

  -- One round of the loop: one subscriber.
  unfoldable pub deliver_to : Registry → Bytes → Bytes → ℕ → Delivery → Delivery
  deliver_to r json_payload binary_payload conn_id d = elim (get conn_id r.connections) [
    | none ↦ d
    | some entry ↦
        after_try_send conn_id entry d
          (try_send entry.sender (payload_for entry json_payload binary_payload) d.world)
  ]

  unfoldable pub deliver_all : Registry → Bytes → Bytes → List ℕ → Delivery → Delivery
  deliver_all r json_payload binary_payload [] d = d
  deliver_all r json_payload binary_payload (conn_id ∷ rest) d =
      deliver_all r json_payload binary_payload rest
        (deliver_to r json_payload binary_payload conn_id d)

-- `for &conn_id in &evicted { self.deregister(conn_id) }`
unfoldable pub deregister_all : List ℕ → Registry → Registry
deregister_all [] r = r
deregister_all (conn_id ∷ rest) r = deregister_all rest (deregister conn_id r)

-- The subscribers of a stream; an absent entry has none.
abbrev pub subscribers : Registry → Text → List ℕ
subscribers r stream = elim (get stream r.streams) [ none ↦ [] | some ids ↦ ids ]

-- The streams of a connection.
abbrev pub joined : Registry → ℕ → List Text
joined r conn_id = elim (get conn_id r.conn_streams) [ none ↦ [] | some names ↦ names ]

module _ (ch : Channels) where
  unfoldable pub fanout_encoded :
      Text
      → Bytes
      → Bytes
      → Registry × Channels.World ch
      → FanoutResult × Registry × Channels.World ch
  fanout_encoded stream json_payload binary_payload (r, w) =
      let start : Delivery ch = record { sent = 0; evicted = []; world = w } in
      let d = deliver_all ch r json_payload binary_payload (subscribers r stream) start in
      (
        record { sent = d.sent; dropped = length d.evicted; evicted = d.evicted },
        deregister_all d.evicted r,
        d.world,
      )

unfoldable pub connection_count : Registry → ℕ
connection_count r = r.active
