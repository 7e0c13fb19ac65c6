-- ===== src/Prelude/Dict.antt =====
-- Hash maps (`HashMap`, `DashMap`) as association lists. The program never relies on the order of
-- the entries.
use mathlib.Core.Path.{◌≡◌, refl}
use mathlib.Core.Bool.{false}
use mathlib.Core.List.{List, [], ◌∷◌}
use mathlib.Core.Logic.{◌⊎◌, inl, inr}
use mathlib.Core.Option.{Option, none, some}
use Prim.Native.Nat.{◌+◌}
use native.Mathlib.Omega.{arith}
use turbocable_server.Prelude.Tests.{Bool-cases, if◌then◌else◌, is_some, KeyEq, ◌==◌, eq_iff}
use turbocable_server.Prelude.Lists.{length}

abbrev pub Dict {ℓ κ} : Type ℓ → Type κ → Type (ℓ ⊔ κ)
Dict K V = List (K × V)

module _ {ℓ κ} {K : Type ℓ} {V : Type κ} ⦃e : KeyEq K⦄ where
  unfoldable pub get : K → Dict K V → Option V
  get k [] = none
  get k ((j, v) ∷ m) = if j == k then some v else get k m

  unfoldable pub remove : K → Dict K V → Dict K V
  remove k [] = []
  remove k ((j, v) ∷ m) = let rest = remove k m in if j == k then rest else (j, v) ∷ rest

  unfoldable pub insert : K → V → Dict K V → Dict K V
  insert k v m = (k, v) ∷ remove k m

  pub get-remove :
      (k j : K) (m : Dict K V) → get j (remove k m) ≡ (if k == j then none else get j m)
  unfolding get remove
  get-remove k j [] = ground arith
  get-remove k j ((i, v) ∷ m) = ground (arith, get-remove k j m, eq_iff i k, eq_iff i j, eq_iff k j)

  pub get-insert :
      (k j : K) (v : V) (m : Dict K V) → get j (insert k v m) ≡ (if k == j then some v else get j m)
  unfolding get insert
  get-insert k j v m = ground (arith, get-remove k j m)

  -- A value found after an insertion is the inserted one or was there before.
  pub get-insert_cases :
      (k j : K) (v w : V) (m : Dict K V)
      → get j (insert k v m) ≡ some w
      → (v ≡ w) ⊎ (get j m ≡ some w)
  get-insert_cases k j v w m h = elim (Bool-cases (k == j)) [
    | inl hit ↦ inl (ground (arith, get-insert k j v m))
    | inr miss ↦ inr (ground (arith, get-insert k j v m))
  ]

  -- No key twice: what the operations keep, and what makes the number of entries meaningful.
  abbrev pub IsUnique : Dict K V → Type 0
  IsUnique [] = Unit
  IsUnique ((k, v) ∷ m) = (is_some (get k m) ≡ false) × IsUnique m

  pub remove-IsUnique : (k : K) (m : Dict K V) → IsUnique m → IsUnique (remove k m)
  unfolding remove
  remove-IsUnique k [] u = tt
  remove-IsUnique k ((j, v) ∷ m) u = ground (arith, remove-IsUnique k m u.1, get-remove k j m)

  pub insert-IsUnique : (k : K) (v : V) (m : Dict K V) → IsUnique m → IsUnique (insert k v m)
  unfolding insert
  insert-IsUnique k v m u = ground (arith, remove-IsUnique k m u, get-remove k k m, eq_iff k k)

  pub remove_absent : (k : K) (m : Dict K V) → get k m ≡ none → remove k m ≡ m
  unfolding get remove
  remove_absent k [] h = refl
  remove_absent k ((j, v) ∷ m) h = ground (arith, remove_absent k m)

  pub length-remove :
      (k : K) (m : Dict K V)
      → IsUnique m
      → length (remove k m) + (if is_some (get k m) then 1 else 0) ≡ length m
  unfolding get remove
  length-remove k [] u = omega arith
  length-remove k ((j, v) ∷ m) u =
      ground (arith, length-remove k m u.1, remove_absent k m, eq_iff j k)

  pub length-insert :
      (k : K) (v : V) (m : Dict K V)
      → IsUnique m
      → length (insert k v m) ≡ length m + (if is_some (get k m) then 0 else 1)
  unfolding insert
  length-insert k v m u = ground (arith, length-remove k m u)

-- `map.get(k).unwrap_or(d)`
abbrev pub get_or {ℓ κ} : {K : Type ℓ} {V : Type κ} ⦃e : KeyEq K⦄ → V → K → Dict K V → V
get_or d k m = elim (get k m) [ none ↦ d | some v ↦ v ]
