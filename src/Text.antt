-- ===== src/Text.antt =====
-- The functions of Rust's `str` that the gateway uses, over sequences of code points.
pub mod Laws
pub mod Utf8
pub mod Numbers
use turbocable_server.Prelude.{
  ℕ, zero, suc, ◌+◌, ◌-◌, ◌*◌, ◌^◌, ◌≡◌, Bool, true, false, ◌&&◌, ◌||◌, Option, none, some, List,
  [], ◌∷◌, ◌++◌, Text, if◌then◌else◌, leb, ltb, nat_beq,
}

-- `s.strip_prefix(p)`
unfoldable pub strip_prefix : Text → Text → Option Text
strip_prefix [] s = some s
strip_prefix (a ∷ p) [] = none
strip_prefix (a ∷ p) (b ∷ s) = let rest = strip_prefix p s in if nat_beq a b then rest else none

-- `s.starts_with(p)`
unfoldable pub starts_with : Text → Text → Bool
starts_with [] s = true
starts_with (a ∷ p) [] = false
starts_with (a ∷ p) (b ∷ s) = nat_beq a b && starts_with p s

-- `s.strip_suffix(c)` for one character.
unfoldable pub strip_suffix : ℕ → Text → Option Text
strip_suffix c [] = none
strip_suffix c (b ∷ []) = if nat_beq b c then some [] else none
strip_suffix c (b ∷ a ∷ s) = elim (strip_suffix c (a ∷ s)) [
  | none ↦ none
  | some init ↦ some (b ∷ init)
]

abbrev push_front : ℕ → List Text → List Text
push_front c [] = (c ∷ []) ∷ []
push_front c (piece ∷ pieces) = (c ∷ piece) ∷ pieces

-- `s.split(c)`: never empty, and `""` is one empty piece.
unfoldable pub split : ℕ → Text → List Text
split c [] = [] ∷ []
split c (a ∷ s) = let rest = split c s in if nat_beq a c then [] ∷ rest else push_front a rest

-- `s.split_once(c)`
unfoldable pub split_once : ℕ → Text → Option (Text × Text)
split_once c [] = none
split_once c (a ∷ s) =
    let rest = split_once c s in
    if nat_beq a c
    then some ([], s)
    else elim rest [ none ↦ none | some (before, after) ↦ some (a ∷ before, after) ]

-- The code points with the property White_Space.
unfoldable pub is_whitespace : ℕ → Bool
is_whitespace c =
    (leb 9 c && leb c 13)
    || nat_beq c 0x20
    || nat_beq c 0x85
    || nat_beq c 0xA0
    || nat_beq c 0x1680
    || (leb 0x2000 c && leb c 0x200A)
    || nat_beq c 0x2028
    || nat_beq c 0x2029
    || nat_beq c 0x202F
    || nat_beq c 0x205F
    || nat_beq c 0x3000

unfoldable pub trim_start : Text → Text
trim_start [] = []
trim_start (c ∷ s) = let rest = trim_start s in if is_whitespace c then rest else c ∷ s

-- A text whose tail is all white space loses it.
unfoldable pub trim_end : Text → Text
trim_end [] = []
trim_end (c ∷ s) = elim (trim_end s) [
  | [] ↦ if is_whitespace c then [] else c ∷ []
  | d ∷ rest ↦ c ∷ d ∷ rest
]

unfoldable pub trim : Text → Text
unfolding trim_start trim_end is_whitespace
trim s = trim_end (trim_start s)

abbrev pub u64_max : ℕ
u64_max = 2 ^ 64 - 1

-- One more digit, with `checked_mul` and `checked_add`.
abbrev add_digit : Option ℕ → ℕ → Option ℕ
add_digit none c = none
add_digit (some n) c =
    if leb b'0' c && leb c b'9'
    then (if leb (n * 10 + (c - b'0')) u64_max then some (n * 10 + (c - b'0')) else none)
    else none

unfoldable pub add_digits : Option ℕ → Text → Option ℕ
add_digits acc [] = acc
add_digits acc (c ∷ s) = add_digits (add_digit acc c) s

-- `s.parse::<u64>()`: an optional `+`, then at least one digit, and no overflow.
unfoldable pub parse_u64 : Text → Option ℕ
unfolding add_digits
parse_u64 [] = none
parse_u64 (c ∷ []) = add_digits (some 0) (c ∷ [])
parse_u64 (c ∷ d ∷ s) =
    if nat_beq c b'+' then add_digits (some 0) (d ∷ s) else add_digits (some 0) (c ∷ d ∷ s)
