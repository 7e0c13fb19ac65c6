-- ===== src/Text/Laws.antt =====
-- Laws of the text functions: each against concatenation.
use turbocable_server.Prelude.{
  ℕ, ◌≡◌, refl, true, false, some, [], ◌∷◌, ◌++◌, Text, contains, nat_eq, arith, Option-cases, inl,
  inr,
}
use turbocable_server.Text.{strip_prefix, starts_with, strip_suffix, split, split_once}

pub strip_prefix-append : (p s : Text) → strip_prefix p (p ++ s) ≡ some s
unfolding strip_prefix
strip_prefix-append [] s = refl
strip_prefix-append (a ∷ p) s = ground (arith, strip_prefix-append p s)

pub starts_with-append : (p s : Text) → starts_with p (p ++ s) ≡ true
unfolding starts_with
starts_with-append [] s = refl
starts_with-append (a ∷ p) s = ground (arith, starts_with-append p s)

-- The rest of a text behind a prefix that it starts with.
pub starts_with_rest : (p s : Text) → starts_with p s ≡ true → (r : Text) × (s ≡ p ++ r)
unfolding starts_with
starts_with_rest [] s h = (s, refl)
starts_with_rest (a ∷ p) [] h = cc
starts_with_rest (a ∷ p) (b ∷ s) h =
    let (r, e) = starts_with_rest p s (ground arith) in (r, ground arith)

pub strip_suffix-snoc : (c : ℕ) (s : Text) → strip_suffix c (s ++ c ∷ []) ≡ some s
unfolding strip_suffix
strip_suffix-snoc c [] = ground arith
strip_suffix-snoc c (b ∷ []) = ground (arith, strip_suffix-snoc c [])
strip_suffix-snoc c (b ∷ a ∷ s) = ground (arith, strip_suffix-snoc c (a ∷ s))

pub strip_suffix_inv : (c : ℕ) (s p : Text) → strip_suffix c s ≡ some p → s ≡ p ++ c ∷ []
unfolding strip_suffix
strip_suffix_inv c [] p h = cc
strip_suffix_inv c (b ∷ []) p h = ground arith
strip_suffix_inv c (b ∷ a ∷ s) p h = elim (Option-cases (strip_suffix c (a ∷ s))) [
  | inl e ↦ ground arith
  | inr (q, e) ↦ ground (arith, strip_suffix_inv c (a ∷ s) q e)
]

-- The piece before the separator, where it holds none itself.
pub split_once-append :
    (c : ℕ) (before after : Text)
    → contains c before ≡ false
    → split_once c (before ++ c ∷ after) ≡ some (before, after)
unfolding split_once contains
split_once-append c [] after h = ground arith
split_once-append c (a ∷ before) after h = ground (arith, split_once-append c before after)

pub split_one : (c : ℕ) (s : Text) → contains c s ≡ false → split c s ≡ s ∷ []
unfolding split contains
split_one c [] h = refl
split_one c (a ∷ s) h = ground (arith, split_one c s)

pub split-append :
    (c : ℕ) (s t : Text) → contains c s ≡ false → split c (s ++ c ∷ t) ≡ s ∷ split c t
unfolding split contains
split-append c [] t h = ground arith
split-append c (a ∷ s) t h = ground (arith, split-append c s t)
