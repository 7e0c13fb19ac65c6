-- ===== src/RateLimiter.antt =====
-- src/fanout/mod.rs: the token buckets of the fan-out pipeline. Floating-point numbers are the
-- interface `F64`, with the facts about them that the limiter relies on; they hold for the finite
-- values that occur. `Instant::now()` is an argument, in nanoseconds, and one lock is held through
-- a whole `check`.
pub mod Bounds
pub mod Exact
pub mod Rate
use turbocable_server.Prelude.{
  ℕ, ◌+◌, ◌-◌, ◌*◌, ◌%◌, ◌^◌, ◌≡◌, Bool, true, false, not, ◌&&◌, ◌||◌, Option, none, some, List, [],
  ◌∷◌, Text, if◌then◌else◌, nat_beq, max, text_eq, map,
}
use turbocable_server.Prelude.Dict.{Dict, get, insert}

pub record F64 : Type 1 where
  pub F : Type 0
  -- `n as f64`
  pub of_u64 : ℕ → F
  pub add : F → F → F
  pub sub : F → F → F
  pub mul : F → F → F
  pub min : F → F → F
  -- `a <= b` and `a == b`
  pub le : F → F → Bool
  pub eq : F → F → Bool
  -- `duration.as_secs_f64()` of a duration in nanoseconds.
  pub as_secs : ℕ → F
  pub I64 : Type 0
  pub i64_max : I64
  pub i64_eq : I64 → I64 → Bool
  -- `x as i64`
  pub as_i64 : F → I64
  pub i64_eq_max : i64_eq i64_max i64_max ≡ true
  pub le_refl : (a : F) → le a a ≡ true
  pub le_antisymm : (a b : F) → le a b ≡ true → le b a ≡ true → eq a b ≡ true
  pub of_u64_nonneg : (n : ℕ) → le (of_u64 0) (of_u64 n) ≡ true
  pub as_secs_nonneg : (n : ℕ) → le (of_u64 0) (as_secs n) ≡ true
  pub add_nonneg :
      (a b : F) → le (of_u64 0) a ≡ true → le (of_u64 0) b ≡ true → le (of_u64 0) (add a b) ≡ true
  pub mul_nonneg :
      (a b : F) → le (of_u64 0) a ≡ true → le (of_u64 0) b ≡ true → le (of_u64 0) (mul a b) ≡ true
  pub min-le_right : (a b : F) → le (min a b) b ≡ true
  pub min_nonneg :
      (a b : F) → le (of_u64 0) a ≡ true → le (of_u64 0) b ≡ true → le (of_u64 0) (min a b) ≡ true
  pub sub_one_nonneg : (a : F) → le (of_u64 1) a ≡ true → le (of_u64 0) (sub a (of_u64 1)) ≡ true
  pub sub_one-le : (a b : F) → le a b ≡ true → le (sub a (of_u64 1)) b ≡ true

-- `if burst == 0 { (rps * 2).max(1) } else { burst }`, where the product wraps in a release build.
unfoldable pub effective_burst : ℕ → ℕ → ℕ
effective_burst rps burst = if nat_beq burst 0 then max ((rps * 2) % 2 ^ 64) 1 else burst

module _ (f : F64) where
  open f use {F, of_u64, add, sub, mul, min, le, eq, as_secs, I64, i64_max, as_i64}

  pub record BucketState : Type 0 where
    pub tokens : F
    pub last_refill : ℕ
    pub rps : F
    pub burst : F

  unfoldable pub new_bucket : ℕ → F → F → BucketState
  new_bucket now rps burst = record { tokens = burst; last_refill = now; rps = rps; burst = burst }

  -- `now.duration_since(last)` is 0 where `now` is earlier.
  unfoldable pub refill : ℕ → BucketState → BucketState
  refill now b = record b {
    tokens = min (add b.tokens (mul (as_secs (now - b.last_refill)) b.rps)) b.burst;
    last_refill = now;
  }

  unfoldable pub take_token : BucketState → Bool × BucketState
  take_token b =
      if le (of_u64 1) b.tokens
      then (true, record b { tokens = sub b.tokens (of_u64 1) })
      else (false, b)

  unfoldable pub try_consume : ℕ → BucketState → Bool × BucketState
  unfolding refill take_token
  try_consume now b = take_token (refill now b)

  unfoldable pub token_count : BucketState → I64
  token_count b = as_i64 b.tokens

  pub record StreamRateLimiter : Type 0 where
    pub buckets : Dict Text BucketState
    pub default_rps : F
    pub default_burst : F
    pub overrides : Dict Text (F × F)

  abbrev pub convert_override : Text × (ℕ × ℕ) → Text × (F × F)
  convert_override (name, (rps, burst)) = (name, (of_u64 rps, of_u64 (effective_burst rps burst)))

  unfoldable pub new : ℕ → ℕ → Dict Text (ℕ × ℕ) → StreamRateLimiter
  new default_rps default_burst overrides = record {
    buckets = [];
    default_rps = of_u64 default_rps;
    default_burst = of_u64 (effective_burst default_rps default_burst);
    overrides = map convert_override overrides;
  }

  -- `overrides.values().any(|&(rps, _)| rps > 0.0)`
  unfoldable pub any_positive : Dict Text (F × F) → Bool
  any_positive [] = false
  any_positive ((name, (rps, burst)) ∷ rest) = not (le rps (of_u64 0)) || any_positive rest

  unfoldable pub is_disabled : StreamRateLimiter → Bool
  unfolding any_positive
  is_disabled l = eq l.default_rps (of_u64 0) && not (any_positive l.overrides)

  -- The limits that apply to a stream.
  abbrev pub limits_for : Text → StreamRateLimiter → F × F
  limits_for stream l = elim (get stream l.overrides) [
    | none ↦ (l.default_rps, l.default_burst)
    | some limits ↦ limits
  ]

  -- The stream's bucket, created full on its first message.
  abbrev pub bucket_for : ℕ → Text → StreamRateLimiter → BucketState
  bucket_for now stream l = elim (get stream l.buckets) [
    | none ↦ new_bucket now (limits_for stream l).0 (limits_for stream l).1
    | some b ↦ b
  ]

  unfoldable pub check : ℕ → Text → StreamRateLimiter → (Bool × I64) × StreamRateLimiter
  unfolding try_consume token_count new_bucket
  check now stream l =
      if eq (limits_for stream l).0 (of_u64 0)
      then ((true, i64_max), l)
      else let (allow, b) = try_consume now (bucket_for now stream l) in
        ((allow, token_count b), record l { buckets = insert stream b l.buckets })
