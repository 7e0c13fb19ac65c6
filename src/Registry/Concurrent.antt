-- ===== src/Registry/Concurrent.antt =====
-- src/connection/registry.rs: the methods of the registry as they run concurrently. Only a single
-- access to one of the three maps or to a counter is atomic; what a task has still to do of a
-- method that has begun is a `Pending`, and any task may go on at any time. The guard that
-- `subscribe` holds on the connection's list keeps out `deregister` until it is dropped.
pub mod Pendings
pub mod Fine
pub mod Trim
pub mod Begins
pub mod Arriving
pub mod Serving
pub mod Departing
pub mod Continues
pub mod Quiet
pub mod Purges
pub mod Alone
pub mod Effects
pub mod Owed
pub mod Linear
use turbocable_server.Prelude.{
  ℕ, zero, suc, ◌+◌, ◌-◌, ◌%◌, Bool, true, false, not, ◌&&◌, ◌||◌, Option, none, some, List, [],
  ◌∷◌, ◌++◌, Text, contains, retain_ne, if◌then◌else◌, ltb, ◌==◌, nat_eq, text_eq,
}
use turbocable_server.Prelude.Dict.{Dict, get, insert, remove}
use turbocable_server.Registry.{
  ConnectionEntry, Registry, u64_mod, new, allocate_id, forget_stream, push_subscriber,
  remove_if_empty,
}
use turbocable_server.Registry.Spec.{Call, connect, subscribes, unsubscribes, deregisters}

-- What is left of a method: of `register`, from each of its three accesses on; of `subscribe`, the
-- push on the guarded list; of `unsubscribe`, the removal of an empty entry and the list of the
-- connection; of `deregister`, the streams to leave, with the removal of an empty entry in
-- between, and the counter.
pub data Pending : Type 0 where
  allocated : ℕ → ConnectionEntry → Pending
  linking : ℕ → Pending
  activating : Pending
  joining : ℕ → Text → Pending
  leaving_empty : ℕ → Text → Pending
  forgetting : ℕ → Text → Pending
  purging : ℕ → List Text → Pending
  purging_empty : Text → ℕ → List Text → Pending
  releasing : Pending

pub record Shared : Type 0 where
  pub registry : Registry
  pub tasks : List Pending

abbrev pub any : (Pending → Bool) → List Pending → Bool
any f [] = false
any f (p ∷ ps) = f p || any f ps

-- The connection has an identifier, but its registration has not got to `conn_streams`.
abbrev pub arrives : ℕ → Pending → Bool
arrives c (allocated d _) = d == c
arrives c (linking d) = d == c
arrives c _ = false

-- A call of `subscribe` or `unsubscribe` for the connection is pending.
abbrev pub serves : ℕ → Pending → Bool
serves c (joining d _) = d == c
serves c (leaving_empty d _) = d == c
serves c (forgetting d _) = d == c
serves c _ = false

-- The guard on the connection's list is held.
abbrev pub holds : ℕ → Pending → Bool
holds c (joining d _) = d == c
holds c _ = false

-- `subscribers.retain(|id| *id != conn_id)` where the stream has an entry, and whether it is empty
-- then; the entry stays.
abbrev pub trim : Text → ℕ → Dict Text (List ℕ) → Bool × Dict Text (List ℕ)
trim stream c m = elim (get stream m) [
  | none ↦ (false, m)
  | some ids ↦ elim (retain_ne c ids) [
    | [] ↦ (true, insert stream [] m)
    | d ∷ ds ↦ (false, insert stream (d ∷ ds) m)
  ]
]

abbrev pub with_streams : Dict Text (List ℕ) → Registry → Registry
with_streams m r = record r { streams = m }

-- The first access of `subscribe` and what follows it.
unfoldable pub begin_subscribe : ℕ → Text → Registry → Option Pending × Registry
begin_subscribe c s r = elim (get c r.conn_streams) [
  | none ↦ (none, r)
  | some joined ↦
      if contains s joined
      then (none, r)
      else (some (joining c s), with_streams (push_subscriber s c r.streams) r)
]

unfoldable pub begin_unsubscribe : ℕ → Text → Registry → Option Pending × Registry
begin_unsubscribe c s r =
    let (is_empty, m) = trim s c r.streams in
    (some (if is_empty then leaving_empty c s else forgetting c s), with_streams m r)

unfoldable pub begin_deregister : ℕ → Registry → Option Pending × Registry
begin_deregister c r = elim (get c r.conn_streams) [
  | none ↦ (some (purging c []), r)
  | some joined ↦ (some (purging c joined), record r { conn_streams = remove c r.conn_streams })
]

-- The first access of a call. The calls for one connection come from its own task, one after the
-- other, and nobody deregisters a connection whose registration is not over.
unfoldable pub begin : List Pending → Call → Registry → Option Pending × Registry
begin tasks (connect sender is_binary evict_tx) r =
    let (c, r') = allocate_id r in
    let entry : ConnectionEntry = record {
      sender = sender;
      evict_tx = evict_tx;
      is_binary = is_binary;
    } in
    (some (allocated c entry), r')
begin tasks (subscribes c s) r = if any (serves c) tasks then (none, r) else begin_subscribe c s r
begin tasks (unsubscribes c s) r =
    if any (serves c) tasks then (none, r) else begin_unsubscribe c s r
begin tasks (deregisters c) r =
    if any (arrives c) tasks || any (holds c) tasks || not (ltb c r.next_id)
    then (none, r)
    else begin_deregister c r

abbrev pub drop_connection : ℕ → Registry → Option Pending × Registry
drop_connection c r = elim (get c r.connections) [
  | none ↦ (none, r)
  | some entry ↦ (some releasing, record r { connections = remove c r.connections })
]

abbrev pub push_joined : ℕ → Text → Registry → Registry
push_joined c s r = elim (get c r.conn_streams) [
  | none ↦ r
  | some joined ↦ record r { conn_streams = insert c (joined ++ s ∷ []) r.conn_streams }
]

-- The next access of a pending method, and what is left of it then.
unfoldable pub continue : Pending → Registry → Option Pending × Registry
continue (allocated c entry) r =
    (some (linking c), record r { connections = insert c entry r.connections })
continue (linking c) r = (some activating, record r { conn_streams = insert c [] r.conn_streams })
continue activating r = (none, record r { active = (r.active + 1) % u64_mod })
continue (joining c s) r = (none, push_joined c s r)
continue (leaving_empty c s) r =
    (some (forgetting c s), with_streams (remove_if_empty s r.streams) r)
continue (forgetting c s) r = (none, forget_stream c s r)
continue (purging c []) r = drop_connection c r
continue (purging c (s ∷ rest)) r =
    let (is_empty, m) = trim s c r.streams in
    (some (if is_empty then purging_empty s c rest else purging c rest), with_streams m r)
continue (purging_empty s c rest) r =
    (some (purging c rest), with_streams (remove_if_empty s r.streams) r)
continue releasing r = (none, record r { active = (r.active + u64_mod - 1) % u64_mod })

-- A task goes on, or a task begins a call.
pub data Move : Type 0 where
  begins : Call → Move
  continues : ℕ → Move

abbrev pub taken : ℕ → List Pending → Option (Pending × List Pending)
taken i [] = none
taken zero (p ∷ ps) = some (p, ps)
taken (suc i) (p ∷ ps) = elim (taken i ps) [ none ↦ none | some (q, qs) ↦ some (q, p ∷ qs) ]

abbrev pub resume : Option Pending × Registry → List Pending → Shared
resume (none, r) tasks = record { registry = r; tasks = tasks }
resume (some p, r) tasks = record { registry = r; tasks = p ∷ tasks }

unfoldable pub step : Move → Shared → Shared
step (begins call) st = resume (begin st.tasks call st.registry) st.tasks
step (continues i) st = elim (taken i st.tasks) [
  | none ↦ st
  | some (p, rest) ↦ resume (continue p st.registry) rest
]

unfoldable pub run : List Move → Shared → Shared
run [] st = st
run (move ∷ moves) st = run moves (step move st)
