-- ===== src/Registry/Concurrent/Trim.antt =====
-- src/connection/registry.rs: what the single accesses of `streams` do to the subscriber lists.
use turbocable_server.Prelude.{
  ℕ, ◌≡◌, ◌⊎◌, inl, inr, true, false, ◌&&◌, ◌||◌, none, some, List, [], ◌∷◌, Text, contains,
  contains-retain_ne, contains-append, retain_ne, if◌then◌else◌, ◌==◌, eq_iff, nat_eq, text_eq,
  arith, Option-cases, Bool-cases, List-cases, Distinct, Distinct-retain_ne, Distinct-snoc,
}
use turbocable_server.Prelude.Dict.{Dict, get, get-insert, get-remove}
use turbocable_server.Registry.{push_subscriber, remove_if_empty}
use turbocable_server.Registry.Streams.{get-push_subscriber}
use turbocable_server.Registry.Concurrent.{trim}

abbrev pub ids_at : Text → Dict Text (List ℕ) → List ℕ
ids_at t m = elim (get t m) [ none ↦ [] | some ids ↦ ids ]

module _ (s : Text) (c : ℕ) (m : Dict Text (List ℕ)) where
  pub get-trim :
      (t : Text)
      → get t (trim s c m).1 ≡ (
          if s == t
          then elim (get t m) [ none ↦ none | some ids ↦ some (retain_ne c ids) ]
          else get t m)
  get-trim t = elim (Option-cases (get s m)) [
    | inl e ↦ ground (arith, eq_iff s t)
    | inr (ids, e) ↦ elim (List-cases (retain_ne c ids)) [
      | inl e' ↦ ground (arith, eq_iff s t, get-insert s t [] m)
      | inr (d, ds, e') ↦ ground (arith, eq_iff s t, get-insert s t (d ∷ ds) m)
    ]
  ]

  pub contains-trim :
      (d : ℕ) (t : Text)
      → contains d (ids_at t (trim s c m).1)
        ≡ (if (s == t) && (c == d) then false else contains d (ids_at t m))
  unfolding contains
  contains-trim d t = elim (Option-cases (get t m)) [
    | inl e ↦ ground (arith, get-trim t)
    | inr (ids, e) ↦ ground (arith, get-trim t, contains-retain_ne c d ids)
  ]

  pub trim-Distinct : (t : Text) → Distinct (ids_at t m) → Distinct (ids_at t (trim s c m).1)
  trim-Distinct t h = elim (Option-cases (get t m)) [
    | inl e ↦ ground (arith, get-trim t)
    | inr (ids, e) ↦ ground (arith, get-trim t, Distinct-retain_ne c ids)
  ]

  -- An entry that is empty afterwards is the trimmed one, and this was noticed, or was empty before.
  pub trim_empty :
      (t : Text)
      → get t (trim s c m).1 ≡ some []
      → ((if (trim s c m).0 then s == t else false) ≡ true) ⊎ (get t m ≡ some [])
  trim_empty t h = elim (Option-cases (get s m)) [
    | inl e ↦ inr (ground arith)
    | inr (ids, e) ↦ elim (List-cases (retain_ne c ids)) [
      | inl e' ↦ elim (Bool-cases (s == t)) [
        | inl here ↦ inl (ground arith)
        | inr there ↦ inr (ground (arith, get-insert s t [] m))
      ]
      | inr (d, ds, e') ↦ inr (ground (arith, get-insert s t (d ∷ ds) m))
    ]
  ]

  pub contains-push :
      (d : ℕ) (t : Text)
      → contains d (ids_at t (push_subscriber s c m))
        ≡ (((s == t) && (c == d)) || contains d (ids_at t m))
  unfolding contains
  contains-push d t =
      ground (arith, get-push_subscriber s t c m, contains-append d (ids_at t m) (c ∷ []))

  pub push-Distinct :
      (t : Text)
      → contains c (ids_at s m) ≡ false
      → Distinct (ids_at t m)
      → Distinct (ids_at t (push_subscriber s c m))
  push-Distinct t out h =
      ground (arith, get-push_subscriber s t c m, Distinct-snoc c (ids_at t m), eq_iff s t)

  pub push_empty : (t : Text) → get t (push_subscriber s c m) ≡ some [] → get t m ≡ some []
  push_empty t h = ground (arith, get-push_subscriber s t c m, List-cases (ids_at t m))

module _ (s : Text) (m : Dict Text (List ℕ)) where
  pub get-remove_if_empty :
      (t : Text)
      → (ids_at t (remove_if_empty s m) ≡ ids_at t m)
        × (get t (remove_if_empty s m) ≡ some [] → (get t m ≡ some []) × ((s == t) ≡ false))
  get-remove_if_empty t = elim (Option-cases (get s m)) [
    | inl e ↦ (ground arith, λ h. ground (arith, eq_iff s t))
    | inr (ids, e) ↦ elim (List-cases ids) [
      | inl e' ↦ (
        ground (arith, get-remove s t m, eq_iff s t),
        λ h. ground (arith, get-remove s t m, eq_iff s t),
      )
      | inr (d, ds, e') ↦ (ground arith, λ h. ground (arith, eq_iff s t))
    ]
  ]
