-- ===== src/Server/Drain.antt =====
-- src/server.rs: the drain loop at the end of `run` comes to an end.
use turbocable_server.Prelude.{
  ℕ, zero, suc, ◌+◌, ◌*◌, ◌≤◌, ◌<◌, ◌≡◌, ◌≢◌, refl, some, leb, ltb, nat_beq, subst, Bool-cases, inl,
  inr, arith,
}
use turbocable_server.Registry.{connection_count}
use turbocable_server.Server.{
  Poll, Drained, drained, timed_out, drain_loop, drain_timeout_ms, drain_poll_interval_ms,
}

-- The rounds of a drain that started at `start`, each at least one pause after the one before.
pub record IsPaced (polls : ℕ → Poll) (start : ℕ) : Type 0 where
  pub first : start ≤ (polls 0).now
  pub later : (i : ℕ) → (polls i).now + drain_poll_interval_ms ≤ (polls (suc i)).now

module _ (polls : ℕ → Poll) (start : ℕ) where
  abbrev remaining : ℕ → ℕ
  remaining i = connection_count (polls i).registry

  abbrev deadline : ℕ
  deadline = start + drain_timeout_ms

  -- Why a round goes on: connections remain, and there is time.
  abbrev pub Waiting : ℕ → Type 0
  Waiting j = (remaining j ≢ 0) × ((polls j).now < deadline)

  -- The end of a drain: the first round at which no connection remains, or at which the time is up.
  abbrev pub Ends : Drained → Type 0
  Ends (drained i) = (remaining i ≡ 0) × ((j : ℕ) → j < i → Waiting j)
  Ends (timed_out i n) =
      (remaining i ≡ n) × (n ≢ 0) × (deadline ≤ (polls i).now) × ((j : ℕ) → j < i → Waiting j)

  module _ (paced : IsPaced polls start) where
    elapsed : (i : ℕ) → start + drain_poll_interval_ms * i ≤ (polls i).now
    elapsed zero = omega (arith, paced.first)
    elapsed (suc i) = omega (arith, paced.later i, elapsed i)

    waited : (i : ℕ) → ((j : ℕ) → j < i → Waiting j) → Waiting i → (j : ℕ) → j < i + 1 → Waiting j
    waited i before w j h = elim (Bool-cases (ltb j i)) [
      | inl earlier ↦ before j (ground arith)
      | inr last ↦ let e : i ≡ j = ground arith in subst Waiting e w
    ]

    loop-Ends :
        (fuel i : ℕ)
        → 300 < fuel + i
        → ((j : ℕ) → j < i → Waiting j)
        → (r : Drained) × (drain_loop fuel polls deadline i ≡ some r) × Ends r
    unfolding drain_loop
    loop-Ends zero i enough before =
        absurd (omega (arith, elapsed 300, (before 300 (omega arith)).1))
    loop-Ends (suc fuel) i enough before = elim (Bool-cases (nat_beq (remaining i) 0)) [
      | inl done ↦ (drained i, rw done refl, (ground arith, before))
      | inr some_left ↦ elim (Bool-cases (leb deadline (polls i).now)) [
        | inl late ↦ (
          timed_out i (remaining i),
          rw some_left (rw late refl),
          (refl, ground arith, ground arith, before),
        )
        | inr early ↦
            let (r, e, ends) =
              loop-Ends fuel (i + 1) (omega arith) (waited i before (ground arith, ground arith)) in
            (r, rw some_left (rw early e), ends)
      ]
    ]

    -- With pauses of at least 100 ms between the rounds, the drain of at most 30 s ends within 301
    -- rounds: at the first round at which the registry counts no connection, or, if there is none
    -- before the deadline, at the first round at or after it, with the connections that remain.
    pub drain_loop-Ends :
        (r : Drained) × (drain_loop 301 polls (start + drain_timeout_ms) 0 ≡ some r) × Ends r
    drain_loop-Ends = loop-Ends 301 0 (omega arith) (λ j h. elim h [ ])
