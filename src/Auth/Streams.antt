-- ===== src/Auth/Streams.antt =====
-- src/auth/jwt.rs: `is_allowed` decides the documented meaning of the patterns.
use turbocable_server.Prelude.{
  ◌≡◌, refl, ◌↔◌, ◌⊎◌, inl, inr, true, List, [], ◌∷◌, ◌++◌, Text, ◌==◌, eq_iff, text_eq, arith,
  Bool-cases, Option-cases,
}
use turbocable_server.Text.{strip_suffix}
use turbocable_server.Text.Laws.{
  starts_with-append, starts_with_rest, strip_suffix-snoc, strip_suffix_inv,
}
use turbocable_server.Auth.{star, pattern_allows, is_allowed}

-- A prefix followed by a star matches every text with the prefix; any pattern matches itself.
abbrev pub Matches : Text → Text → Type 0
Matches pat stream =
    ((prefix : Text) × (rest : Text) × (pat ≡ prefix ++ star) × (stream ≡ prefix ++ rest))
    ⊎ (pat ≡ stream)

-- Some pattern of the list matches.
abbrev pub AnyMatches : List Text → Text → Type 0
AnyMatches [] stream = ⊥
AnyMatches (pat ∷ allowed) stream = Matches pat stream ⊎ AnyMatches allowed stream

pattern_allows-Matches : (pat stream : Text) → pattern_allows pat stream ≡ true → Matches pat stream
unfolding pattern_allows
pattern_allows-Matches pat stream h = elim (Bool-cases (pat == star)) [
  | inl all ↦ inl ([], stream, (eq_iff pat star).0 all, refl)
  | inr other ↦ elim (Option-cases (strip_suffix b'*' pat)) [
    | inl e ↦ inr (ground (arith, eq_iff pat stream))
    | inr (prefix, e) ↦
        let (rest, split) = starts_with_rest prefix stream (ground arith) in
        inl (prefix, rest, strip_suffix_inv b'*' pat prefix e, split)
  ]
]

Matches-pattern_allows : (pat stream : Text) → Matches pat stream → pattern_allows pat stream ≡ true
unfolding pattern_allows
Matches-pattern_allows pat stream (inl (prefix, rest, e, split)) =
    ground (arith, strip_suffix-snoc b'*' prefix, starts_with-append prefix rest)
Matches-pattern_allows pat stream (inr e) = elim (Option-cases (strip_suffix b'*' pat)) [
  | inl none_left ↦ ground (arith, eq_iff pat stream)
  | inr (prefix, p) ↦
      ground (arith, strip_suffix_inv b'*' pat prefix p, starts_with-append prefix star)
]

is_allowed-AnyMatches :
    (allowed : List Text) (stream : Text)
    → is_allowed allowed stream ≡ true
    → AnyMatches allowed stream
unfolding is_allowed
is_allowed-AnyMatches [] stream h = cc
is_allowed-AnyMatches (pat ∷ allowed) stream h = elim (Bool-cases (pattern_allows pat stream)) [
  | inl hit ↦ inl (pattern_allows-Matches pat stream hit)
  | inr miss ↦ inr (is_allowed-AnyMatches allowed stream (ground arith))
]

AnyMatches-is_allowed :
    (allowed : List Text) (stream : Text)
    → AnyMatches allowed stream
    → is_allowed allowed stream ≡ true
unfolding is_allowed
AnyMatches-is_allowed [] stream h = absurd h
AnyMatches-is_allowed (pat ∷ allowed) stream (inl m) =
    ground (arith, Matches-pattern_allows pat stream m)
AnyMatches-is_allowed (pat ∷ allowed) stream (inr m) =
    ground (arith, AnyMatches-is_allowed allowed stream m)

-- `is_allowed` holds exactly when some pattern of the list matches: `prefix*` every stream that
-- starts with the prefix (`*` alone every stream), and any other pattern only itself.
pub is_allowed_iff :
    (allowed : List Text) (stream : Text)
    → (is_allowed allowed stream ≡ true) ↔ AnyMatches allowed stream
is_allowed_iff allowed stream =
    (is_allowed-AnyMatches allowed stream, AnyMatches-is_allowed allowed stream)
