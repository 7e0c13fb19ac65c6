-- ===== src/RateLimiter/Bounds.antt =====
-- src/fanout/mod.rs: no bucket ever holds less than nothing or more than its burst, and streams do
-- not share buckets.
use turbocable_server.Prelude.{
  ℕ, ◌≡◌, ◌≢◌, subst, true, some, Text, eq_iff, text_eq, arith, Option-cases, Bool-cases, inl, inr,
}
use turbocable_server.Prelude.Dict.{get, get-insert, get-insert_cases}
use turbocable_server.RateLimiter.{
  F64, BucketState, StreamRateLimiter, new_bucket, refill, take_token, try_consume, check,
  limits_for, bucket_for,
}

module _ (f : F64) where
  open f use {
    F, of_u64, add, sub, mul, min, le, eq, as_secs, le_refl, of_u64_nonneg, as_secs_nonneg,
    add_nonneg, mul_nonneg, min-le_right, min_nonneg, sub_one_nonneg, sub_one-le,
  }

  pub record IsBounded (b : BucketState f) : Type 0 where
    pub tokens_nonneg : le (of_u64 0) b.tokens ≡ true
    pub tokens-le-burst : le b.tokens b.burst ≡ true
    pub rps_nonneg : le (of_u64 0) b.rps ≡ true
    pub burst_nonneg : le (of_u64 0) b.burst ≡ true

  new_bucket-IsBounded :
      (now : ℕ) (rps burst : F)
      → le (of_u64 0) rps ≡ true
      → le (of_u64 0) burst ≡ true
      → IsBounded (new_bucket f now rps burst)
  unfolding new_bucket
  new_bucket-IsBounded now rps burst hr hb = record {
    tokens_nonneg = hb;
    tokens-le-burst = le_refl burst;
    rps_nonneg = hr;
    burst_nonneg = hb;
  }

  refill-IsBounded : (now : ℕ) (b : BucketState f) → IsBounded b → IsBounded (refill f now b)
  unfolding refill
  refill-IsBounded now b v = record {
    tokens_nonneg =
        min_nonneg _ _
          (add_nonneg _ _ v.tokens_nonneg (mul_nonneg _ _ (as_secs_nonneg _) v.rps_nonneg))
          v.burst_nonneg;
    tokens-le-burst = min-le_right _ _;
    rps_nonneg = v.rps_nonneg;
    burst_nonneg = v.burst_nonneg;
  }

  take_token-IsBounded : (b : BucketState f) → IsBounded b → IsBounded (take_token f b).1
  unfolding take_token
  take_token-IsBounded b v = elim (Bool-cases (le (of_u64 1) b.tokens)) [
    | inl full ↦ rw full (record {
      tokens_nonneg = sub_one_nonneg b.tokens full;
      tokens-le-burst = sub_one-le b.tokens b.burst v.tokens-le-burst;
      rps_nonneg = v.rps_nonneg;
      burst_nonneg = v.burst_nonneg;
    })
    | inr short ↦ rw short v
  ]

  -- A bucket within its bounds stays within them, whatever the clock says.
  pub try_consume-IsBounded :
      (now : ℕ) (b : BucketState f) → IsBounded b → IsBounded (try_consume f now b).1
  unfolding try_consume
  try_consume-IsBounded now b v = take_token-IsBounded (refill f now b) (refill-IsBounded now b v)

  -- The state of a limiter: limits that are not negative, and bounded buckets.
  pub record IsSound (l : StreamRateLimiter f) : Type 0 where
    pub buckets_bounded : (s : Text) (b : BucketState f) → get s l.buckets ≡ some b → IsBounded b
    pub rps_nonneg : (s : Text) → le (of_u64 0) (limits_for f s l).0 ≡ true
    pub burst_nonneg : (s : Text) → le (of_u64 0) (limits_for f s l).1 ≡ true

  bucket_for-IsBounded :
      (now : ℕ) (s : Text) (l : StreamRateLimiter f) → IsSound l → IsBounded (bucket_for f now s l)
  bucket_for-IsBounded now s l v = elim (Option-cases (get s l.buckets)) [
    | inl e ↦ rw (e, bucket_for) (new_bucket-IsBounded now _ _ (v.rps_nonneg s) (v.burst_nonneg s))
    | inr (b, e) ↦ rw (e, bucket_for) (v.buckets_bounded s b e)
  ]

  -- A check on any stream at any time keeps a limiter sound: all its buckets hold between nothing
  -- and their burst, and all its limits are not negative.
  pub check-IsSound :
      (now : ℕ) (s : Text) (l : StreamRateLimiter f) → IsSound l → IsSound (check f now s l).1
  unfolding check
  check-IsSound now s l v = elim (Bool-cases (eq (limits_for f s l).0 (of_u64 0))) [
    | inl off ↦ rw off v
    | inr on ↦ rw on (record {
      buckets_bounded = λ t b e.
          let after = try_consume f now (bucket_for f now s l) in
          let kept : IsBounded after.1 =
            try_consume-IsBounded now (bucket_for f now s l) (bucket_for-IsBounded now s l v) in
          elim (get-insert_cases s t after.1 b l.buckets e) [
            | inl same ↦ subst IsBounded same kept
            | inr old ↦ v.buckets_bounded t b old
          ];
      rps_nonneg = v.rps_nonneg;
      burst_nonneg = v.burst_nonneg;
    })
  ]

  -- A check on one stream leaves the bucket and the limits of every other stream as they were.
  pub check_independent :
      (now : ℕ) (s t : Text) (l : StreamRateLimiter f)
      → s ≢ t
      → (get t (check f now s l).1.buckets ≡ get t l.buckets)
        × (limits_for f t (check f now s l).1 ≡ limits_for f t l)
  unfolding check
  check_independent now s t l other =
      ground
        (arith, get-insert s t (try_consume f now (bucket_for f now s l)).1 l.buckets, eq_iff s t)
