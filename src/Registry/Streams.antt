-- ===== src/Registry/Streams.antt =====
-- src/connection/registry.rs: what each private step does to the subscriber lists and to the
-- lists of joined streams.
use turbocable_server.Prelude.{
  ℕ, ◌≡◌, refl, ◌≢◌, false, ◌&&◌, Option, none, some, List, [], ◌∷◌, ◌++◌, Text, contains,
  retain_ne, contains-retain_ne, if◌then◌else◌, ◌==◌, eq_iff, nat_eq, text_eq, arith, Option-cases,
  inl, inr, Distinct, Distinct-retain_ne,
}
use turbocable_server.Prelude.Dict.{Dict, get, insert, get-insert, get-remove}
use turbocable_server.Registry.{
  Registry, remove_subscriber_from_stream, remove_from_streams, write_subscribers, push_subscriber,
  subscribers,
}

-- A list to store, or nothing to store.
abbrev pub unless_empty : List ℕ → Option (List ℕ)
unless_empty [] = none
unless_empty (c ∷ cs) = some (c ∷ cs)

pub get-write_subscribers :
    (s t : Text) (xs : List ℕ) (m : Dict Text (List ℕ))
    → get t (write_subscribers s xs m) ≡ (if s == t then unless_empty xs else get t m)
get-write_subscribers s t [] m = ground (
  arith,
  get-insert s s [] m,
  get-insert s t [] m,
  get-remove s t (insert s [] m),
  eq_iff s s,
  eq_iff s t,
)
get-write_subscribers s t (c ∷ cs) m = get-insert s t (c ∷ cs) m

abbrev pub HasNoEmpty : Registry → Type 0
HasNoEmpty r = (t : Text) → get t r.streams ≢ some []

module _ (s : Text) (c : ℕ) (r : Registry) where
  pub get-remove_subscriber :
      (t : Text)
      → get t (remove_subscriber_from_stream s c r).streams ≡ (
          if s == t
          then elim (get t r.streams) [ none ↦ none | some xs ↦ unless_empty (retain_ne c xs) ]
          else get t r.streams)
  unfolding remove_subscriber_from_stream
  get-remove_subscriber t = elim (Option-cases (get s r.streams)) [
    | inl e ↦ ground (arith, eq_iff s t)
    | inr (xs, e) ↦ ground (arith, eq_iff s t, get-write_subscribers s t (retain_ne c xs) r.streams)
  ]

  pub subscribers-remove_subscriber :
      (t : Text)
      → subscribers (remove_subscriber_from_stream s c r) t
        ≡ (if s == t then retain_ne c (subscribers r t) else subscribers r t)
  unfolding retain_ne
  subscribers-remove_subscriber t = ground (arith, get-remove_subscriber t)

  pub remove_subscriber-HasNoEmpty : HasNoEmpty r → HasNoEmpty (remove_subscriber_from_stream s c r)
  remove_subscriber-HasNoEmpty h t = ground (arith, get-remove_subscriber t, h t)

  pub connections-remove_subscriber :
      ((remove_subscriber_from_stream s c r).connections ≡ r.connections)
      × ((remove_subscriber_from_stream s c r).conn_streams ≡ r.conn_streams)
      × ((remove_subscriber_from_stream s c r).next_id ≡ r.next_id)
      × ((remove_subscriber_from_stream s c r).active ≡ r.active)
  unfolding remove_subscriber_from_stream
  connections-remove_subscriber = ground arith

-- The loop of `deregister`: afterwards `c` is in no list named by the loop, and every other
-- membership is as before.
pub contains-remove_from_streams :
    (c d : ℕ) (names : List Text) (t : Text) (r : Registry)
    → contains d (subscribers (remove_from_streams c names r) t)
      ≡ (if (c == d) && contains t names then false else contains d (subscribers r t))
unfolding remove_from_streams contains
contains-remove_from_streams c d [] t r = ground arith
contains-remove_from_streams c d (s ∷ names) t r = ground (
  arith,
  contains-remove_from_streams c d names t (remove_subscriber_from_stream s c r),
  subscribers-remove_subscriber s c r t,
  contains-retain_ne c d (subscribers r t),
)

pub remove_from_streams-HasNoEmpty :
    (c : ℕ) (names : List Text) (r : Registry)
    → HasNoEmpty r
    → HasNoEmpty (remove_from_streams c names r)
unfolding remove_from_streams
remove_from_streams-HasNoEmpty c [] r h = h
remove_from_streams-HasNoEmpty c (s ∷ names) r h =
    remove_from_streams-HasNoEmpty c names (remove_subscriber_from_stream s c r)
      (remove_subscriber-HasNoEmpty s c r h)

pub Distinct-remove_from_streams :
    (c : ℕ) (names : List Text) (t : Text) (r : Registry)
    → ((u : Text) → Distinct (subscribers r u))
    → Distinct (subscribers (remove_from_streams c names r) t)
unfolding remove_from_streams
Distinct-remove_from_streams c [] t r h = h t
Distinct-remove_from_streams c (s ∷ names) t r h =
    Distinct-remove_from_streams c names t (remove_subscriber_from_stream s c r) λ u.
      ground
        (arith, subscribers-remove_subscriber s c r u, h u, Distinct-retain_ne c (subscribers r u))

pub connections-remove_from_streams :
    (c : ℕ) (names : List Text) (r : Registry)
    → ((remove_from_streams c names r).connections ≡ r.connections)
      × ((remove_from_streams c names r).conn_streams ≡ r.conn_streams)
      × ((remove_from_streams c names r).next_id ≡ r.next_id)
      × ((remove_from_streams c names r).active ≡ r.active)
unfolding remove_from_streams
connections-remove_from_streams c [] r = (refl, refl, refl, refl)
connections-remove_from_streams c (s ∷ names) r = ground (
  arith,
  connections-remove_from_streams c names (remove_subscriber_from_stream s c r),
  connections-remove_subscriber s c r,
)

pub get-push_subscriber :
    (s t : Text) (c : ℕ) (m : Dict Text (List ℕ))
    → get t (push_subscriber s c m)
      ≡ (if s == t then some ((elim (get t m) [ none ↦ [] | some xs ↦ xs ]) ++ c ∷ []) else get t m)
get-push_subscriber s t c m = elim (Option-cases (get s m)) [
  | inl e ↦ rw (e, push_subscriber) (ground (arith, eq_iff s t, get-insert s t (c ∷ []) m))
  | inr (xs, e) ↦
      rw (e, push_subscriber) (ground (arith, eq_iff s t, get-insert s t (xs ++ c ∷ []) m))
]
