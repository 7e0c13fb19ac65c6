-- ===== src/Prelude/Lists.antt =====
-- Lists measured by native numbers, membership as a Boolean test, and lists with no repetition.
use Prim.Native.Nat.{ℕ, zero, suc, ◌+◌, ◌≤◌}
use Prim.Native.Char.{code}
use Prim.Native.String.{String}
use mathlib.Core.Path.{◌≡◌, refl}
use mathlib.Core.Logic.{◌⊎◌, inl, inr}
use mathlib.Core.Bool.{Bool, false, ◌||◌}
use mathlib.Core.List.{List, [], ◌∷◌, ◌++◌}
use native.Mathlib.Omega.{arith}
use turbocable_server.Prelude.Tests.{if◌then◌else◌, KeyEq, ◌==◌, eq_iff}

-- The code points of a text literal.
abbrev pub codes : String → List ℕ
codes String.[] = []
codes (String.◌∷◌ c s) = code c ∷ codes s

module _ {ℓ} {A : Type ℓ} where
  -- `len()`
  abbrev pub length : List A → ℕ
  length [] = 0
  length (head ∷ tail) = suc (length tail)

  -- `iter().take(n)`
  abbrev pub take : ℕ → List A → List A
  take zero entries = []
  take (suc n) [] = []
  take (suc n) (head ∷ tail) = head ∷ take n tail

  pub List-cases : (xs : List A) → (xs ≡ []) ⊎ ((x : A) × (rest : List A) × (xs ≡ x ∷ rest))
  List-cases [] = inl refl
  List-cases (x ∷ xs) = inr (x, xs, refl)

  pub length-append : (xs ys : List A) → length (xs ++ ys) ≡ length xs + length ys
  length-append [] ys = omega arith
  length-append (x ∷ xs) ys = omega (arith, length-append xs ys)

module _ {ℓ} {A : Type ℓ} ⦃e : KeyEq A⦄ where
  -- `xs.iter().any(|x| x == a)`
  unfoldable pub contains : A → List A → Bool
  contains a [] = false
  contains a (x ∷ xs) = (x == a) || contains a xs

  -- `xs.retain(|x| x != a)`
  unfoldable pub retain_ne : A → List A → List A
  retain_ne a [] = []
  retain_ne a (x ∷ xs) = let rest = retain_ne a xs in if x == a then rest else x ∷ rest

  pub contains-append :
      (a : A) (xs ys : List A) → contains a (xs ++ ys) ≡ (contains a xs || contains a ys)
  unfolding contains
  contains-append a [] ys = refl
  contains-append a (x ∷ xs) ys = ground (arith, contains-append a xs ys)

  pub contains-retain_ne :
      (a b : A) (xs : List A)
      → contains b (retain_ne a xs) ≡ (if a == b then false else contains b xs)
  unfolding contains retain_ne
  contains-retain_ne a b [] = ground arith
  contains-retain_ne a b (x ∷ xs) =
      ground (arith, contains-retain_ne a b xs, eq_iff x a, eq_iff x b, eq_iff a b)

  -- No element twice.
  abbrev pub Distinct : List A → Type 0
  Distinct [] = Unit
  Distinct (x ∷ xs) = (contains x xs ≡ false) × Distinct xs

  pub Distinct-retain_ne : (a : A) (xs : List A) → Distinct xs → Distinct (retain_ne a xs)
  unfolding contains retain_ne
  Distinct-retain_ne a [] d = tt
  Distinct-retain_ne a (x ∷ xs) d =
      ground (arith, Distinct-retain_ne a xs d.1, contains-retain_ne a x xs)

  pub Distinct-snoc :
      (a : A) (xs : List A) → contains a xs ≡ false → Distinct xs → Distinct (xs ++ a ∷ [])
  unfolding contains
  Distinct-snoc a [] h d = (refl, tt)
  Distinct-snoc a (x ∷ xs) h d =
      ground (arith, Distinct-snoc a xs, contains-append x xs (a ∷ []), eq_iff x a, eq_iff a x)

  pub length-retain_ne-le : (a : A) (xs : List A) → length (retain_ne a xs) ≤ length xs
  unfolding retain_ne
  length-retain_ne-le a [] = omega arith
  length-retain_ne-le a (x ∷ xs) = ground (arith, length-retain_ne-le a xs)

-- Strings, as the sequence of their code points, and byte buffers.
abbrev pub Text : Type 0
Text = List ℕ

abbrev pub Bytes : Type 0
Bytes = List ℕ
