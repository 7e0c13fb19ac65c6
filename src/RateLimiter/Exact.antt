-- ===== src/RateLimiter/Exact.antt =====
-- The floating-point interface of the rate limiter with exact arithmetic: a value counts billionths,
-- so that a time in nanoseconds times a whole rate is exact. It shows that the laws of the interface
-- can be met, and it runs in the tests.
use turbocable_server.Prelude.{ℕ, ◌+◌, ◌-◌, ◌*◌, ◌/◌, ◌≡◌, refl, true, leb, nat_beq, min, arith}
use turbocable_server.RateLimiter.{F64}

abbrev pub giga : ℕ
giga = 1_000_000_000

pub sub_one-le : (a b : ℕ) → leb a b ≡ true → leb (a - 1 * giga) b ≡ true
sub_one-le a b h = ground arith

pub le_refl : (a : ℕ) → leb a a ≡ true
le_refl a = ground arith

pub le_antisymm : (a b : ℕ) → leb a b ≡ true → leb b a ≡ true → nat_beq a b ≡ true
le_antisymm a b h k = ground arith

pub zero_le : (a : ℕ) → leb (0 * giga) a ≡ true
zero_le a = ground arith

pub min-le_right : (a b : ℕ) → leb (min a b) b ≡ true
min-le_right a b = ground arith

abbrev pub exact : F64
exact = record {
  F = ℕ;
  of_u64 = λ n. n * giga;
  add = λ a b. a + b;
  sub = λ a b. a - b;
  mul = λ a b. a * b / giga;
  min = min;
  le = leb;
  eq = nat_beq;
  as_secs = λ n. n;
  I64 = ℕ;
  i64_max = 9_223_372_036_854_775_807;
  i64_eq = nat_beq;
  as_i64 = λ a. a / giga;
  i64_eq_max = refl;
  le_refl = le_refl;
  le_antisymm = le_antisymm;
  of_u64_nonneg = λ n. zero_le (n * giga);
  as_secs_nonneg = zero_le;
  add_nonneg = λ a b _ _. zero_le (a + b);
  mul_nonneg = λ a b _ _. zero_le (a * b / giga);
  min-le_right = min-le_right;
  min_nonneg = λ a b _ _. zero_le (min a b);
  sub_one_nonneg = λ a _. zero_le (a - 1 * giga);
  sub_one-le = sub_one-le;
}
