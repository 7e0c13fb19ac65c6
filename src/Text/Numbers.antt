-- ===== src/Text/Numbers.antt =====
-- Decimal numbers: what `parse::<u64>` makes of them.
use turbocable_server.Prelude.{ℕ, ◌+◌, ◌-◌, ◌*◌, ◌≤◌, ◌≡◌, refl, none, some, [], ◌∷◌, Text, arith}
use turbocable_server.Text.{add_digits, parse_u64, u64_max}

add_digits-none : (s : Text) → add_digits none s ≡ none
unfolding add_digits
add_digits-none [] = refl
add_digits-none (c ∷ s) = add_digits-none s

add_digits-le :
    (acc : ℕ) (s : Text) (n : ℕ) → acc ≤ u64_max → add_digits (some acc) s ≡ some n → n ≤ u64_max
unfolding add_digits
add_digits-le acc [] n b h = ground arith
add_digits-le acc (c ∷ s) n b h =
    ground (arith, add_digits-none s, add_digits-le (acc * 10 + (c - b'0')) s n)

-- A number that is read fits in 64 bits.
pub parse_u64-le : (s : Text) (n : ℕ) → parse_u64 s ≡ some n → n ≤ u64_max
unfolding parse_u64
parse_u64-le [] n h = cc
parse_u64-le (c ∷ []) n h = add_digits-le 0 (c ∷ []) n (omega arith) h
parse_u64-le (c ∷ d ∷ s) n h =
    ground (arith, add_digits-le 0 (d ∷ s) n, add_digits-le 0 (c ∷ d ∷ s) n)
