-- ===== src/Publish/Counts.antt =====
-- src/bin/publish.rs: what is published, how often, and when it stops.
use turbocable_server.Prelude.{
  ℕ, zero, suc, ◌+◌, ◌*◌, ◌%◌, ◌≤◌, ◌<◌, ◌≡◌, refl, true, false, Option, some, List, [], ◌∷◌,
  Bool-cases, inl, inr, arith, ◌∙◌, ap, ◌||◌, ltb, leb, subst, nat_beq,
}
use turbocable_server.Registry.{u64_mod}
use turbocable_server.Publish.{
  Args, Environment, Sent, Outcome, connect_error, flush_error, panicked, publish_error, finished,
  nanos_per_sec, interval, end_instant, message, also_sent, publish_loop, publish_main,
}

-- What tokio documents of a ticker: it fires at once and then at most once in each period.
abbrev pub IsPaced : Environment → Args → Type 0
IsPaced env args = (k : ℕ) → env.start + k * interval env args ≤ env.instant_after k

module _ (env : Environment) (args : Args) where
  open env use {start, instant_after, publishes, flushes}

  -- The messages of that many ticks from one on, numbered as the ticks are.
  abbrev pub messages : ℕ → ℕ → List Sent
  messages k zero = []
  messages k (suc n) = message env args k k ∷ messages (k + 1) n

  -- Why it stops at a tick.
  abbrev pub Stops : ℕ → Outcome → Type 0
  Stops n (finished seq) = (seq ≡ n) × (end_instant env args ≤ instant_after n) × (flushes ≡ true)
  Stops n flush_error = (end_instant env args ≤ instant_after n) × (flushes ≡ false)
  Stops n (publish_error seq) =
      (seq ≡ n) × (instant_after n < end_instant env args) × (publishes n ≡ false)
  Stops n connect_error = false ≡ true
  Stops n panicked = false ≡ true

  -- Every tick before this one was in time, and what was published after it was accepted.
  abbrev pub Ticked : ℕ → Type 0
  Ticked n = (k : ℕ) → k < n → (instant_after k < end_instant env args) × (publishes k ≡ true)

  -- The loop from a tick on has stopped, with all that was published.
  abbrev pub HasStopped : ℕ → Option (Outcome × List Sent) → Type 0
  HasStopped k r =
      (m : ℕ) × (n : ℕ) × (o : Outcome) × (n ≡ k + m)
      × (r ≡ some (o, messages k m))
      × Stops n o
      × Ticked n

  more-Ticked :
      (k : ℕ)
      → Ticked k
      → instant_after k < end_instant env args
      → publishes k ≡ true
      → Ticked (k + 1)
  more-Ticked k ticked in_time accepted j h = elim (Bool-cases (ltb j k)) [
    | inl earlier ↦ ticked j (ground arith)
    | inr last ↦
        let e : k ≡ j = ground arith in
        subst (λ n. (instant_after n < end_instant env args) × (publishes n ≡ true)) e
          (in_time, accepted)
  ]

  module _ (elapsed : (k : ℕ) → start + k ≤ instant_after k)
      (fits : args.duration * nanos_per_sec < u64_mod) where
    more_ticks :
        (fuel k : ℕ)
        → leb (end_instant env args) (instant_after k) ≡ false
        → publishes k ≡ true
        → HasStopped (k + 1) (publish_loop env args fuel (k + 1) (k + 1))
        → HasStopped k (publish_loop env args (suc fuel) k k)
    unfolding publish_loop
    more_ticks fuel k in_time accepted (m, n, o, count, ran, stops, all) =
        let wrap : (k + 1) % u64_mod ≡ k + 1 = ground (arith, elapsed k) in
        let goes_on : publish_loop env args (suc fuel) k k
            ≡ also_sent env args (message env args k k)
                (publish_loop env args fuel (k + 1) (k + 1)) =
          ground (arith, wrap) in
        (
          suc m,
          n,
          o,
          omega (arith, count),
          goes_on ∙ ap (also_sent env args (message env args k k)) ran,
          stops,
          all,
        )

    turn-HasStopped :
        (fuel k : ℕ)
        → Ticked k
        → (instant_after k < end_instant env args
            → Ticked (k + 1)
            → HasStopped (k + 1) (publish_loop env args fuel (k + 1) (k + 1)))
        → HasStopped k (publish_loop env args (suc fuel) k k)
    unfolding publish_loop
    turn-HasStopped fuel k ticked later =
        elim (Bool-cases (leb (end_instant env args) (instant_after k))) [
          | inl late ↦ elim (Bool-cases flushes) [
            | inl flushed ↦ (
              zero,
              k,
              finished k,
              omega arith,
              ground arith,
              (refl, ground arith, flushed),
              ticked,
            )
            | inr lost ↦
                (zero, k, flush_error, omega arith, ground arith, (ground arith, lost), ticked)
          ]
          | inr in_time ↦ elim (Bool-cases (publishes k)) [
            | inr refused ↦ (
              zero,
              k,
              publish_error k,
              omega arith,
              ground arith,
              (refl, ground arith, refused),
              ticked,
            )
            | inl accepted ↦
                more_ticks fuel k in_time accepted
                  (later (ground arith) (more-Ticked k ticked (ground arith) accepted))
          ]
        ]

    loop-HasStopped :
        (fuel k : ℕ)
        → args.duration * nanos_per_sec ≤ k + fuel
        → Ticked k
        → HasStopped k (publish_loop env args (suc fuel) k k)
    loop-HasStopped zero k enough ticked =
        turn-HasStopped zero k ticked (λ in_time _. absurd (omega (arith, elapsed k)))
    loop-HasStopped (suc fuel) k enough ticked =
        turn-HasStopped (suc fuel) k ticked
          (λ _ more. loop-HasStopped fuel (k + 1) (omega arith) more)

  at_least : (k i : ℕ) → 0 < i → k ≤ k * i
  at_least zero i h = omega arith
  at_least (suc k) i h = omega (arith, at_least k i h)

  -- If tick m is in time, m whole periods are over before the end.
  periods_within :
      IsPaced env args
      → (n : ℕ) → 0 < interval env args
      → Ticked n
      → n * interval env args < args.duration * nanos_per_sec + interval env args
  periods_within paced zero period ticked = omega arith
  periods_within paced (suc m) period ticked = omega (arith, paced m, (ticked m (omega arith)).0)

  main_starts :
      env.accepts args.nats_url ≡ true
      → 0 < interval env args
      → end_instant env args ≤ env.last_instant
      → publish_main env args ≡ publish_loop env args (suc (args.duration * nanos_per_sec)) 0 0
  unfolding publish_main
  main_starts accepted period fits_instant =
      let no_panic : (nat_beq (interval env args) 0 || ltb env.last_instant (end_instant env args))
          ≡ false =
        ground arith in
      ground (arith, no_panic)

  -- A publisher that is connected, whose rate is low enough for its ticker to have a period, whose
  -- ticker is paced as tokio documents, whose end is an instant and that has less than 2 ^ 64
  -- nanoseconds to run: it stops, at a tick n. What it has published is exactly one message for
  -- each tick before n, numbered 0, 1, 2 and so on, all before the end and all accepted; and n
  -- periods are shorter than the duration and one period. At tick n either the end is reached,
  -- and it reports n messages if the flush succeeds and an error if not, or the publish fails, and
  -- it reports the error.
  pub publish_main_counts :
      IsPaced env args
      → env.accepts args.nats_url ≡ true
      → 0 < interval env args
      → end_instant env args ≤ env.last_instant
      → args.duration * nanos_per_sec < u64_mod
      → (n : ℕ) × (o : Outcome) × (publish_main env args ≡ some (o, messages 0 n))
        × Stops n o
        × Ticked n
        × (n * interval env args < args.duration * nanos_per_sec + interval env args)
  publish_main_counts paced accepted period fits_instant fits =
      let (m, n, o, count, ran, stops, ticked) =
        loop-HasStopped (λ k. omega (arith, paced k, at_least k (interval env args) period)) fits
          (args.duration * nanos_per_sec) 0 (omega arith) (λ j h. elim h [ ]) in
      let e : m ≡ n = omega (arith, count) in
      let started = main_starts accepted period fits_instant in
      (
        n,
        o,
        subst (λ x. publish_main env args ≡ some (o, messages 0 x)) e (started ∙ ran),
        stops,
        ticked,
        periods_within paced n period ticked,
      )
