-- ===== src/Prelude/Tests.antt =====
-- Boolean tests on the native numbers, the conditional, and equality as an interface.
use Prim.Native.Nat.{ℕ, compare, Ordering}
use mathlib.Core.Path.{◌≡◌, refl}
use mathlib.Core.Logic.{◌↔◌, ◌⊎◌, inl, inr}
use mathlib.Core.Bool.{Bool, true, false, ◌&&◌}
use mathlib.Core.List.{List, [], ◌∷◌}
use mathlib.Core.Option.{Option, none, some}
use native.Mathlib.Omega.{arith}

abbrev pub ltb : ℕ → ℕ → Bool
ltb a b = elim (compare a b) [ Ordering.lt ↦ true | _ ↦ false ]

abbrev pub leb : ℕ → ℕ → Bool
leb a b = elim (compare a b) [ Ordering.gt ↦ false | _ ↦ true ]

abbrev pub nat_beq : ℕ → ℕ → Bool
nat_beq a b = elim (compare a b) [ Ordering.eq ↦ true | _ ↦ false ]

infix 1 if◌then◌else◌
abbrev pub if◌then◌else◌ {ℓ} : {A : Type ℓ} → Bool → A → A → A
if true then x else y = x
if false then x else y = y

pub nat_beq_iff : (a b : ℕ) → (nat_beq a b ≡ true) ↔ (a ≡ b)
nat_beq_iff a b = ground arith

pub Bool-cases : (b : Bool) → (b ≡ true) ⊎ (b ≡ false)
Bool-cases true = inl refl
Bool-cases false = inr refl

pub Option-cases {ℓ} : {A : Type ℓ} (o : Option A) → (o ≡ none) ⊎ ((a : A) × (o ≡ some a))
Option-cases none = inl refl
Option-cases (some a) = inr (a, refl)

abbrev pub is_some {ℓ} : {A : Type ℓ} → Option A → Bool
is_some none = false
is_some (some a) = true

-- Rust's trait `Eq` on the keys of a map: a test that decides whether two keys are the same.
pub record KeyEq {ℓ} (Key : Type ℓ) : Type ℓ where
  pub same : Key → Key → Bool
  pub sound : (x y : Key) → same x y ≡ true → x ≡ y
  pub complete : (x y : Key) → x ≡ y → same x y ≡ true

infix 50 ◌==◌
abbrev pub ◌==◌ {ℓ} : {Key : Type ℓ} → ⦃key : KeyEq Key⦄ → Key → Key → Bool
◌==◌ ⦃key⦄ x y = key.same x y

pub eq_iff {ℓ} : {Key : Type ℓ} ⦃key : KeyEq Key⦄ (x y : Key) → ((x == y) ≡ true) ↔ (x ≡ y)
eq_iff ⦃key⦄ x y = (key.sound x y, key.complete x y)

pub eq_refl {ℓ} : {Key : Type ℓ} ⦃key : KeyEq Key⦄ (x : Key) → (x == x) ≡ true
eq_refl ⦃key⦄ x = key.complete x x refl

instance abbrev pub nat_eq : KeyEq ℕ
nat_eq = record {
  same = nat_beq;
  sound = λ x y. (nat_beq_iff x y).0;
  complete = λ x y. (nat_beq_iff x y).1;
}

-- Texts are lists of code points.
unfoldable pub text_beq : List ℕ → List ℕ → Bool
text_beq [] [] = true
text_beq (a ∷ s) (b ∷ t) = nat_beq a b && text_beq s t
text_beq _ _ = false

pub text_beq_iff : (s t : List ℕ) → (text_beq s t ≡ true) ↔ (s ≡ t)
unfolding text_beq
text_beq_iff [] [] = ground arith
text_beq_iff [] (b ∷ t) = ground arith
text_beq_iff (a ∷ s) [] = ground arith
text_beq_iff (a ∷ s) (b ∷ t) = ground (arith, text_beq_iff s t)

instance abbrev pub text_eq : KeyEq (List ℕ)
text_eq = record {
  same = text_beq;
  sound = λ s t. (text_beq_iff s t).0;
  complete = λ s t. (text_beq_iff s t).1;
}

-- Chains of fallible steps: Rust's `?` on `Option`.
infixl 5 ◌>>=◌
abbrev pub ◌>>=◌ {ℓ κ} : {A : Type ℓ} {B : Type κ} → Option A → (A → Option B) → Option B
none >>= f = none
some a >>= f = f a
