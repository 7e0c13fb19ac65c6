-- ===== src/Publish.antt =====
-- src/bin/publish.rs: the publisher for load tests. What NATS and the clocks answer is the record
-- Environment; an instant is a number of nanoseconds. The progress output is left out.
pub mod Counts
use turbocable_server.Prelude.{
  ℕ, zero, suc, ◌+◌, ◌*◌, ◌/◌, ◌%◌, max, Bool, true, false, ◌||◌, Option, none, some, List, [], ◌∷◌,
  ◌++◌, Text, codes, if◌then◌else◌, ltb, nat_beq,
}
use turbocable_server.Prelude.{leb}
use turbocable_server.Registry.{u64_mod}

pub record Args : Type 0 where
  pub nats_url : Text
  pub stream : Text
  pub rate : ℕ
  pub duration : ℕ

pub record Environment : Type 0 where
  -- Whether `async_nats::connect` succeeds.
  pub accepts : Text → Bool
  -- `Instant::now` when the end is computed, and the greatest instant there is.
  pub start : ℕ
  pub last_instant : ℕ
  -- `Instant::now` after each tick, and the milliseconds of `SystemTime::now` then, 0 before 1970.
  pub instant_after : ℕ → ℕ
  pub millis_after : ℕ → ℕ
  -- Whether the call of `publish` after each tick succeeds, and that of `flush`.
  pub publishes : ℕ → Bool
  pub flushes : Bool

pub record Sent : Type 0 where
  pub subject : Text
  pub payload : Text

pub data Outcome : Type 0 where
  connect_error flush_error panicked : Outcome
  publish_error finished : ℕ → Outcome

-- The decimal digits of a number, the last ones first; fuel beyond the number is enough.
unfoldable pub digits : ℕ → ℕ → Text
digits zero n = []
digits (suc fuel) n = elim (ltb n 10) [
  | true ↦ (b'0' + n) ∷ []
  | false ↦ (b'0' + n % 10) ∷ digits fuel (n / 10)
]

unfoldable pub last_first : Text → Text → Text
last_first [] shown = shown
last_first (c ∷ cs) shown = last_first cs (c ∷ shown)

-- `format!("{n}")`
abbrev pub display : ℕ → Text
display n = last_first (digits (n + 1) n) []

abbrev pub nanos_per_sec : ℕ
nanos_per_sec = 1_000_000_000

module _ (env : Environment) (args : Args) where
  open env use {accepts, start, last_instant, instant_after, millis_after, publishes, flushes}
  open args use {nats_url, stream, rate, duration}

  abbrev pub subject : Text
  subject = codes "TURBOCABLE." ++ stream

  abbrev pub interval : ℕ
  interval = nanos_per_sec / max rate 1

  abbrev pub end_instant : ℕ
  end_instant = start + duration * nanos_per_sec

  -- The message that is published after a tick.
  abbrev pub message : ℕ → ℕ → Sent
  message tick seq = record {
    subject = subject;
    payload =
        codes "{\"seq\":"
        ++ display seq
        ++ codes ",\"sent_at\":"
        ++ display (millis_after tick % u64_mod)
        ++ codes ",\"stream\":\""
        ++ stream
        ++ codes "\"}";
  }

  abbrev pub also_sent : Sent → Option (Outcome × List Sent) → Option (Outcome × List Sent)
  also_sent m none = none
  also_sent m (some (outcome, ms)) = some (outcome, m ∷ ms)

  -- The loop from a tick on, with the messages that were published; none without fuel.
  unfoldable pub publish_loop : ℕ → ℕ → ℕ → Option (Outcome × List Sent)
  publish_loop zero tick seq = none
  publish_loop (suc fuel) tick seq = elim (leb end_instant (instant_after tick)) [
    | true ↦ some (if flushes then finished seq else flush_error, [])
    | false ↦ elim (publishes tick) [
      | false ↦ some (publish_error seq, [])
      | true ↦ also_sent (message tick seq) (publish_loop fuel (tick + 1) ((seq + 1) % u64_mod))
    ]
  ]

  -- A ticker without a period panics, and so does an end that is no instant.
  unfoldable pub publish_main : Option (Outcome × List Sent)
  publish_main = elim (accepts nats_url) [
    | false ↦ some (connect_error, [])
    | true ↦ elim (nat_beq interval 0 || ltb last_instant end_instant) [
      | true ↦ some (panicked, [])
      | false ↦ publish_loop (duration * nanos_per_sec + 1) 0 0
    ]
  ]
