-- ===== src/Replay/Loop.antt =====
-- src/pubsub/nats.rs: the loop of `replay_since`.
use turbocable_server.Prelude.{
  ℕ, ◌+◌, ◌≤◌, ◌<◌, ◌≡◌, refl, sym, subst, ◌∙◌, ap, true, false, some, List, [], ◌∷◌, ◌++◌, Text,
  Bytes, ltb, arith, Bool-cases, inl, inr, length, nat_eq,
}
use mathlib.Core.List.{append-nil, append_assoc}
use turbocable_server.Channel.{Channels}
use turbocable_server.Protocol.{Serde, Codec}
use turbocable_server.Replay.{
  Fetch, message, Progress, Round, next, stop, peer_gone, missing_sequence, replay_round,
  replay_loop, replayed_message, max_replay_messages,
}
use turbocable_server.Replay.Rounds.{Did, keeps, sends, progress_of, round-Did}

-- A message that was delivered: its sequence and its frame.
abbrev pub Log : Type 0
Log = List (ℕ × Bytes)

abbrev pub frames : Log → List Bytes
frames [] = []
frames ((sequence, frame) ∷ log) = frame ∷ frames log

-- The sequences rise strictly, from above a bound.
abbrev pub IsAscending : ℕ → Log → Type 0
IsAscending bound [] = Unit
IsAscending bound ((sequence, frame) ∷ log) = (bound < sequence) × IsAscending sequence log

IsAscending-le : {a b : ℕ} (log : Log) → a ≤ b → IsAscending b log → IsAscending a log
IsAscending-le [] le h = h
IsAscending-le ((sequence, frame) ∷ log) le (above, h) = (omega arith, h)

module _ (serde : Serde) (ch : Channels) (stream_name : Text) (tx : ℕ)
    (codec : Codec (Serde.Value serde)) where
  open ch use {World, send, queued, queued-send}

  -- Each entry is the encoding of a fetched message with the same sequence, in the order of the
  -- fetches.
  pub data IsFrom : List Fetch → Log → Type 0 where
    done : (fetches : List Fetch) → IsFrom fetches []
    skip :
        (x : Fetch) {fetches : List Fetch} {log : Log}
        → IsFrom fetches log
        → IsFrom (x ∷ fetches) log
    take_it :
        (sequence : ℕ) (payload : Bytes) (elapsed : ℕ) (frame : Bytes) {fetches : List Fetch}
        {log : Log}
        → codec.encode (replayed_message serde ch stream_name sequence payload) ≡ some frame
        → IsFrom fetches log
        → IsFrom (message (some sequence) payload elapsed ∷ fetches) ((sequence, frame) ∷ log)

  -- What the loop has done between two states.
  abbrev pub Delivered : List Fetch → Progress serde ch → Progress serde ch → Log → Type 0
  Delivered fetches p q log =
      (q.count ≡ p.count + length log)
      × (queued q.world tx ≡ queued p.world tx ++ frames log)
      × IsAscending p.prev_seq log
      × IsFrom fetches log
      × (q.count ≤ max_replay_messages)

  abbrev run : List Fetch → Progress serde ch → Round serde ch × List Fetch
  run = replay_loop serde ch stream_name tx codec

  nothing-Delivered :
      (fetches : List Fetch) (p q : Progress serde ch)
      → p.count ≤ max_replay_messages
      → q.count ≡ p.count
      → queued q.world tx ≡ queued p.world tx
      → (log : Log) × Delivered fetches p q log
  nothing-Delivered fetches p q below count queue = (
    [],
    (ground arith, queue ∙ sym (append-nil (queued p.world tx)), tt, done fetches, omega arith),
  )

  -- What the loop makes of a round.
  abbrev resume : Round serde ch → List Fetch → Round serde ch × List Fetch
  resume (next p) rest = run rest p
  resume (stop p) rest = (stop p, rest)
  resume (peer_gone p) rest = (peer_gone p, rest)
  resume (missing_sequence p) rest = (missing_sequence p, rest)

  abbrev pub Result : List Fetch → Progress serde ch → Round serde ch × List Fetch → Type 0
  Result fetches p result =
      (log : Log) × Delivered fetches p (progress_of serde ch stream_name tx codec result.0) log

  run-resume :
      (x : Fetch) (rest : List Fetch) (p : Progress serde ch)
      → ltb p.count max_replay_messages ≡ true
      → run (x ∷ rest) p ≡ resume (replay_round serde ch stream_name tx codec x p) rest
  unfolding replay_loop
  run-resume x rest p e = ground (arith, go (replay_round serde ch stream_name tx codec x p))
    where
      go :
          (r : Round serde ch)
          → (elim r [
            | next p' ↦ replay_loop serde ch stream_name tx codec rest p'
            | stop p' ↦ (stop p', rest)
            | peer_gone p' ↦ (peer_gone p', rest)
            | missing_sequence p' ↦ (missing_sequence p', rest)
          ])
            ≡ resume r rest
      go (next p') = refl
      go (stop p') = refl
      go (peer_gone p') = refl
      go (missing_sequence p') = refl

  run-full :
      (x : Fetch) (rest : List Fetch) (p : Progress serde ch)
      → ltb p.count max_replay_messages ≡ false
      → run (x ∷ rest) p ≡ (stop p, x ∷ rest)
  unfolding replay_loop
  run-full x rest p e = ground arith

  resume_delivers :
      (x : Fetch) (rest : List Fetch) (p : Progress serde ch) (r : Round serde ch)
      → p.count < max_replay_messages
      → Did serde ch stream_name tx codec x p r
      → ((q : Progress serde ch) → q.count ≤ max_replay_messages → Result rest q (run rest q))
      → Result (x ∷ rest) p (resume r rest)
  resume_delivers x rest p r below (keeps _ _ (next q) (count, queue, rises)) ih =
      let (log, (count', queue', ascends, from, cap)) = ih q (omega arith) in
      (
        log,
        (
          omega arith,
          queue' ∙ ap (λ z. z ++ frames log) queue,
          IsAscending-le log rises ascends,
          skip x from,
          cap,
        ),
      )
  resume_delivers x rest p r below (keeps _ _ (stop q) (count, queue, _)) ih =
      nothing-Delivered (x ∷ rest) p q (omega arith) count queue
  resume_delivers x rest p r below (keeps _ _ (peer_gone q) (count, queue, _)) ih =
      nothing-Delivered (x ∷ rest) p q (omega arith) count queue
  resume_delivers x rest p r below (keeps _ _ (missing_sequence q) (count, queue, _)) ih =
      nothing-Delivered (x ∷ rest) p q (omega arith) count queue
  resume_delivers x rest p r below
        (sends sequence payload elapsed frame _ q e (count, queue, rises, ahead)) ih =
      let (log, (count', queue', ascends, from, cap)) = ih q (omega arith) in
      (
        (sequence, frame) ∷ log,
        (
          ground arith,
          queue'
              ∙ ap (λ z. z ++ frames log) queue
              ∙ append_assoc (queued p.world tx) (frame ∷ []) (frames log),
          (rises, IsAscending-le log (ground arith) ascends),
          take_it sequence payload elapsed frame e from,
          cap,
        ),
      )

  -- Between two states of the loop, the frames that were added to the channel are the encodings of
  -- fetched messages in the order of the fetches; their sequences rise strictly from above the last
  -- one, and the count goes up by their number and stays within the limit.
  pub replay_loop_delivers :
      (fetches : List Fetch) (p : Progress serde ch)
      → p.count ≤ max_replay_messages
      → Result fetches p (run fetches p)
  unfolding replay_loop
  replay_loop_delivers [] p cap = nothing-Delivered [] p p cap refl refl
  replay_loop_delivers (x ∷ rest) p cap = elim (Bool-cases (ltb p.count max_replay_messages)) [
    | inl e ↦ subst (Result (x ∷ rest) p) (sym (run-resume x rest p e)) (
        resume_delivers x rest p _ (ground arith) (round-Did serde ch stream_name tx codec x p)
          (replay_loop_delivers rest))
    | inr e ↦
        subst (Result (x ∷ rest) p) (sym (run-full x rest p e))
          (nothing-Delivered (x ∷ rest) p p cap refl refl)
  ]
