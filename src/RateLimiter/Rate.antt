-- ===== src/RateLimiter/Rate.antt =====
-- src/fanout/mod.rs: how many messages a bucket lets through, over exact arithmetic.
use turbocable_server.Prelude.{
  ℕ, suc, ◌+◌, ◌-◌, ◌*◌, ◌/◌, ◌≤◌, ◌≡◌, ap, List, [], ◌∷◌, if◌then◌else◌, arith,
}
use turbocable_server.RateLimiter.{BucketState, refill, take_token, try_consume}
use turbocable_server.RateLimiter.Exact.{exact, giga}

-- The clock never goes back.
abbrev pub IsMonotone : ℕ → List ℕ → Type 0
IsMonotone from [] = Unit
IsMonotone from (t ∷ ts) = (from ≤ t) × IsMonotone t ts

-- The messages that arrive at the given times: how many pass, and the bucket afterwards.
pub arrivals : List ℕ → BucketState exact → ℕ × BucketState exact
arrivals [] b = (0, b)
arrivals (t ∷ ts) b =
    let (allow, b') = try_consume exact t b in
    let (passed, last) = arrivals ts b' in ((if allow then suc passed else passed), last)

scaled : (k rate : ℕ) → k * (rate * giga) / giga ≡ k * rate
scaled k rate = omega arith

earned : (t l rate : ℕ) → l ≤ t → (t - l) * rate + l * rate ≡ t * rate
earned t l rate h =
    let whole : (t - l) + l ≡ t = omega arith in omega (arith, ap (λ (n : ℕ). n * rate) whole)

-- One message: what passes is paid for by what was there and what the time brings.
try_consume_pays :
    (t rate : ℕ) (b : BucketState exact)
    → b.last_refill ≤ t
    → b.rps ≡ rate * giga
    → ((if (try_consume exact t b).0 then giga else 0)
          + (try_consume exact t b).1.tokens
          + b.last_refill * rate
        ≤ b.tokens + t * rate)
      × ((try_consume exact t b).1.last_refill ≡ t)
      × ((try_consume exact t b).1.rps ≡ rate * giga)
      × ((try_consume exact t b).1.burst ≡ b.burst)
unfolding try_consume refill take_token
try_consume_pays t rate b h e =
    rw e (ground (arith, scaled (t - b.last_refill) rate, earned t b.last_refill rate))

-- In exact arithmetic, messages at times that never go back: those that pass number at most what
-- the bucket held at the start and what the rate brings until the last refill, in billionths of a
-- token.
pub arrivals_pay :
    (ts : List ℕ) (rate : ℕ) (b : BucketState exact)
    → IsMonotone b.last_refill ts
    → b.rps ≡ rate * giga
    → (arrivals ts b).0 * giga + (arrivals ts b).1.tokens + b.last_refill * rate
      ≤ b.tokens + (arrivals ts b).1.last_refill * rate
unfolding arrivals
arrivals_pay [] rate b m e = omega arith
arrivals_pay (t ∷ ts) rate b m e =
    let (pays, now, same, _) = try_consume_pays t rate b m.0 e in
    let rest = arrivals_pay ts rate (try_consume exact t b).1 (rw now m.1) same in
    ground (arith, pays, now, rest)
