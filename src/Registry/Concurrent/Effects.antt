-- ===== src/Registry/Concurrent/Effects.antt =====
-- src/connection/registry.rs: the effect of a call, at one of its accesses.
use turbocable_server.Prelude.{
  ℕ, ◌≡◌, Bool, false, not, ◌&&◌, ◌||◌, none, some, List, [], ◌∷◌, ◌++◌, Text, contains,
  contains-append, contains-retain_ne, retain_ne, is_some, if◌then◌else◌, ltb, ◌==◌, eq_iff, nat_eq,
  text_eq, arith, Option-cases, Bool-cases, inl, inr,
}
use turbocable_server.Prelude.Dict.{get, get-insert, get-remove}
use turbocable_server.Registry.{Registry, new, allocate_id, joined, forget_stream}
use turbocable_server.Registry.Spec.{Call, connect, subscribes, unsubscribes, deregisters}
use turbocable_server.Registry.Concurrent.{
  Pending, allocated, linking, activating, joining, leaving_empty, forgetting, purging,
  purging_empty, releasing, Shared, Move, begins, continues, any, arrives, serves, holds, taken,
  begin, begin_subscribe, begin_unsubscribe, begin_deregister, continue, step,
}
use turbocable_server.Registry.Concurrent.Fine.{Fine}

-- The effect of a call on who is there and who is in which stream.
pub data Effect : Type 0 where
  appears vanishes : ℕ → Effect
  joins_stream quits_stream : ℕ → Text → Effect

pub record Room : Type 0 where
  pub live : ℕ → Bool
  pub member : ℕ → Text → Bool

unfoldable pub apply : Effect → Room → Room
apply (appears c) a = record a { live = λ d. (c == d) || a.live d }
apply (vanishes c) a = record {
  live = λ d. if c == d then false else a.live d;
  member = λ d t. if c == d then false else a.member d t;
}
apply (joins_stream c s) a = record a {
  member = λ d t. ((c == d) && (s == t) && a.live c) || a.member d t;
}
apply (quits_stream c s) a = record a {
  member = λ d t. if (c == d) && (s == t) then false else a.member d t;
}

unfoldable pub apply_all : List Effect → Room → Room
apply_all [] a = a
apply_all (e ∷ es) a = apply_all es (apply e a)

abbrev pub empty_room : Room
empty_room = record { live = λ c. false; member = λ c s. false }

-- The access at which a pending method takes effect.
abbrev pub effect_of : Pending → List Effect
effect_of (linking c) = appears c ∷ []
effect_of (joining c s) = joins_stream c s ∷ []
effect_of (forgetting c s) = quits_stream c s ∷ []
effect_of _ = []

-- A `subscribe` that returns at its first access takes effect there, and so does a `deregister`.
abbrev pub effect_of_subscribe : ℕ → Text → Registry → List Effect
effect_of_subscribe c s r = elim (get c r.conn_streams) [
  | none ↦ joins_stream c s ∷ []
  | some names ↦ if contains s names then joins_stream c s ∷ [] else []
]

abbrev pub effect_of_call : Call → Shared → List Effect
effect_of_call (connect _ _ _) st = []
effect_of_call (subscribes c s) st =
    if any (serves c) st.tasks then [] else effect_of_subscribe c s st.registry
effect_of_call (unsubscribes c s) st = []
effect_of_call (deregisters c) st =
    if any (arrives c) st.tasks || any (holds c) st.tasks || not (ltb c st.registry.next_id)
    then []
    else vanishes c ∷ []

unfoldable pub effect_of_move : Move → Shared → List Effect
effect_of_move (begins call) st = effect_of_call call st
effect_of_move (continues i) st = elim (taken i st.tasks) [
  | none ↦ []
  | some (p, rest) ↦ effect_of p
]

-- The effects of a run in the order of the accesses at which the calls take effect.
unfoldable pub linear : List Move → Shared → List Effect
linear [] st = []
linear (move ∷ moves) st = effect_of_move move st ++ linear moves (step move st)

-- Who has a list in `conn_streams`, and what is on it.
abbrev pub Agrees : Registry → Room → Type 0
Agrees r a =
    (c : ℕ)
    → (is_some (get c r.conn_streams) ≡ a.live c)
      × ((s : Text) → contains s (joined r c) ≡ a.member c s)

-- Access by access.
module _ (r : Registry) (rest : List Pending) (a : Room) (agrees : Agrees r a) where
  pub continue-Agrees :
      (p : Pending) → Fine r (p ∷ rest) → Agrees (continue p r).1 (apply_all (effect_of p) a)
  unfolding continue apply apply_all contains forget_stream
  continue-Agrees (allocated c entry) v d = agrees d
  continue-Agrees (linking c) v d = (
    ground (arith, (agrees d).0, get-insert c d [] r.conn_streams, eq_iff c d),
    λ t. ground (
      arith,
      (agrees d).1 t,
      get-insert c d [] r.conn_streams,
      eq_iff c d,
      v.unknown c,
      eq_iff c c,
    ),
  )
  continue-Agrees activating v d = agrees d
  continue-Agrees (joining c s) v d = elim (Option-cases (get c r.conn_streams)) [
    | inl e ↦ absurd (ground (arith, v.locked c s, eq_iff c c, eq_iff s s))
    | inr (names, e) ↦ (
      ground (arith, (agrees d).0, get-insert c d (names ++ s ∷ []) r.conn_streams, eq_iff c d),
      λ t. ground (
        arith,
        (agrees d).1 t,
        (agrees c).0,
        get-insert c d (names ++ s ∷ []) r.conn_streams,
        eq_iff c d,
        contains-append t names (s ∷ []),
      ),
    )
  ]
  continue-Agrees (leaving_empty c s) v d = agrees d
  continue-Agrees (forgetting c s) v d = elim (Option-cases (get c r.conn_streams)) [
    | inl e ↦ (ground (arith, (agrees d).0), λ t. ground (arith, (agrees d).1 t, eq_iff c d))
    | inr (names, e) ↦ (
      ground (arith, (agrees d).0, get-insert c d (retain_ne s names) r.conn_streams, eq_iff c d),
      λ t. ground (
        arith,
        (agrees d).1 t,
        get-insert c d (retain_ne s names) r.conn_streams,
        eq_iff c d,
        contains-retain_ne s t names,
      ),
    )
  ]
  continue-Agrees (purging c []) v d = elim (Option-cases (get c r.connections)) [
    | inl e ↦ (ground (arith, (agrees d).0), λ t. ground (arith, (agrees d).1 t))
    | inr (entry, e) ↦ (ground (arith, (agrees d).0), λ t. ground (arith, (agrees d).1 t))
  ]
  continue-Agrees (purging c (s ∷ names)) v d = agrees d
  continue-Agrees (purging_empty s c names) v d = agrees d
  continue-Agrees releasing v d = agrees d

-- The first access of a call.
module _ (r : Registry) (ps : List Pending) (a : Room) (agrees : Agrees r a) where
  subscribe-Agrees :
      (c : ℕ) (s : Text)
      → Agrees (begin_subscribe c s r).1 (apply_all (effect_of_subscribe c s r) a)
  unfolding begin_subscribe apply apply_all contains
  subscribe-Agrees c s d = elim (Option-cases (get c r.conn_streams)) [
    | inl e ↦ (ground (arith, (agrees d).0), λ t. ground (arith, (agrees d).1 t, (agrees c).0))
    | inr (names, e) ↦ elim (Bool-cases (contains s names)) [
      | inl old ↦ (
        ground (arith, (agrees d).0),
        λ t. ground (arith, (agrees d).1 t, eq_iff c d, eq_iff s t),
      )
      | inr new ↦ (ground (arith, (agrees d).0), λ t. ground (arith, (agrees d).1 t))
    ]
  ]

  deregister-Agrees : (c : ℕ) → Agrees (begin_deregister c r).1 (apply (vanishes c) a)
  unfolding begin_deregister apply contains
  deregister-Agrees c d = elim (Option-cases (get c r.conn_streams)) [
    | inl e ↦
        (ground (arith, (agrees d).0, eq_iff c d), λ t. ground (arith, (agrees d).1 t, eq_iff c d))
    | inr (names, e) ↦ (
      ground (arith, (agrees d).0, get-remove c d r.conn_streams, eq_iff c d),
      λ t. ground (arith, (agrees d).1 t, get-remove c d r.conn_streams, eq_iff c d),
    )
  ]

  pub begin-Agrees :
      (call : Call)
      → Agrees
          (begin ps call r).1
          (apply_all (effect_of_call call (record { registry = r; tasks = ps })) a)
  unfolding begin apply_all allocate_id begin_unsubscribe
  begin-Agrees (connect sender is_binary evict_tx) = agrees
  begin-Agrees (subscribes c s) = elim (Bool-cases (any (serves c) ps)) [
    | inl e ↦ rw (e, begin) agrees
    | inr e ↦ rw (e, begin) (subscribe-Agrees c s)
  ]
  begin-Agrees (unsubscribes c s) = elim (Bool-cases (any (serves c) ps)) [
    | inl e ↦ rw (e, begin) agrees
    | inr e ↦ rw (e, begin) agrees
  ]
  begin-Agrees (deregisters c) =
      let closed = any (arrives c) ps || any (holds c) ps || not (ltb c r.next_id) in
      elim (Bool-cases closed) [
        | inl e ↦ rw (e, begin) agrees
        | inr e ↦ rw (e, begin) (deregister-Agrees c)
      ]
