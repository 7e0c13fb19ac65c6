-- ===== src/Replay/Outcome.antt =====
-- src/pubsub/nats.rs: what `replay_since` does on every answer of JetStream.
use turbocable_server.Prelude.{
  ℕ, ◌≤◌, ◌<◌, ◌≡◌, ◌⊎◌, refl, sym, subst, ◌∙◌, ap, none, some, List, [], ◌∷◌, ◌++◌, Text, ltb,
  nat_beq, arith, Option-cases, Bool-cases, inl, inr, length, max,
}
use mathlib.Core.List.{append-nil}
use turbocable_server.Channel.{Channels}
use turbocable_server.Protocol.{Serde, Codec}
use turbocable_server.Replay.{
  Fetch, message, fetch_error, ended, Progress, Round, next, stop, peer_gone, missing_sequence,
  replay_loop, max_replay_messages, start_of, replay_since, Source, ReplayResult, ok, err,
  truncated, window_exceeded, jet_stream, check_window, requested, conclude, probe,
}
use turbocable_server.Replay.Rounds.{progress_of}
use turbocable_server.Replay.Loop.{Log, frames, IsAscending, IsFrom, done, replay_loop_delivers}

-- The messages that the consumer hands out.
abbrev pub fetches_of : Source → List Fetch
fetches_of source = elim source.messages [ none ↦ [] | some fetches ↦ fetches ]

-- What a result says of the number of delivered messages.
abbrev pub IsCountedBy : ℕ → ReplayResult → Type 0
IsCountedBy n (ok d) = d.delivered ≡ n
IsCountedBy n (err (truncated delivered limit)) = (delivered ≡ n) × (n ≡ limit)
IsCountedBy n (err (window_exceeded requested oldest)) = n ≡ 0
IsCountedBy n (err jet_stream) = Unit

-- The client has missed messages that the stream no longer holds.
abbrev pub IsGap : ℕ → ℕ → ℕ → Type 0
IsGap last_seq first_sequence messages =
    ((0 < messages) × (requested last_seq < first_sequence)) ⊎ ((messages ≡ 0) × (0 < last_seq))

pub window-cases :
    (last_seq first_sequence messages : ℕ)
    → (¬ IsGap last_seq first_sequence messages
        × (check_window last_seq first_sequence messages ≡ none))
      ⊎ (IsGap last_seq first_sequence messages
          × (oldest : ℕ) × (check_window last_seq first_sequence messages
              ≡ some (window_exceeded (requested last_seq) oldest)))
unfolding check_window
window-cases last_seq first_sequence messages = elim (Bool-cases (ltb 0 messages)) [
  | inl some_left ↦ elim (Bool-cases (ltb (requested last_seq) first_sequence)) [
    | inl behind ↦ inr (inl (ground arith, ground arith), first_sequence, ground arith)
    | inr within ↦ inl (λ g. ground arith, ground arith)
  ]
  | inr none_left ↦ elim (Bool-cases (ltb 0 last_seq)) [
    | inl known ↦ inr (inr (ground arith, ground arith), max first_sequence 1, ground arith)
    | inr fresh ↦ inl (λ g. ground arith, ground arith)
  ]
]

module _ (serde : Serde) (ch : Channels) (stream_name : Text) (tx : ℕ)
    (codec : Codec (Serde.Value serde)) where
  open ch use {World, send, queued}

  abbrev pub replay : Source → ℕ → World → ReplayResult × World
  replay = replay_since serde ch stream_name tx codec

  abbrev concluding : Round serde ch × List Fetch → ReplayResult × World
  concluding = conclude serde ch stream_name tx codec

  conclude-world :
      (r : Round serde ch) (rest : List Fetch)
      → (concluding (r, rest)).1 ≡ (progress_of serde ch stream_name tx codec r).world
  conclude-world (next p) rest = refl
  conclude-world (stop p) rest = refl
  conclude-world (peer_gone p) rest = refl
  conclude-world (missing_sequence p) rest = refl

  probe-IsCountedBy :
      (rest : List Fetch) (p : Progress serde ch)
      → p.count ≡ max_replay_messages
      → IsCountedBy p.count (probe serde ch stream_name tx codec rest p)
  probe-IsCountedBy [] p e = refl
  probe-IsCountedBy (message _ _ _ ∷ rest) p e = (refl, e)
  probe-IsCountedBy (fetch_error ∷ rest) p e = refl
  probe-IsCountedBy (ended ∷ rest) p e = refl

  conclude-IsCountedBy :
      (r : Round serde ch) (rest : List Fetch)
      → IsCountedBy (progress_of serde ch stream_name tx codec r).count (concluding (r, rest)).0
  conclude-IsCountedBy (next p) rest = refl
  conclude-IsCountedBy (stop p) rest = elim (Bool-cases (nat_beq p.count max_replay_messages)) [
    | inl e ↦ rw e (probe-IsCountedBy rest p (ground arith))
    | inr e ↦ rw e refl
  ]
  conclude-IsCountedBy (peer_gone p) rest = refl
  conclude-IsCountedBy (missing_sequence p) rest = tt

  -- What a replay may do to the channel.
  abbrev pub Delivers : List Fetch → ℕ → World → ReplayResult × World → Type 0
  Delivers fetches last_seq w result =
      (log : Log) × (queued result.1 tx ≡ queued w tx ++ frames log)
      × IsAscending last_seq log
      × IsFrom serde ch stream_name tx codec fetches log
      × (length log ≤ max_replay_messages)
      × IsCountedBy (length log) result.0

  fails :
      (fetches : List Fetch) (last_seq : ℕ) (w : World) (result : ReplayResult)
      → IsCountedBy 0 result
      → Delivers fetches last_seq w (result, w)
  fails fetches last_seq w result h =
      ([], sym (append-nil (queued w tx)), tt, done fetches, ground arith, h)

  concludes :
      (fetches : List Fetch) (last_seq : ℕ) (w : World)
      → Delivers fetches last_seq w (
          concluding (
            replay_loop serde ch stream_name tx codec fetches
              (start_of serde ch stream_name tx codec last_seq w)))
  concludes fetches last_seq w =
      let p = start_of serde ch stream_name tx codec last_seq w in
      let result = replay_loop serde ch stream_name tx codec fetches p in
      let (log, (count, queue, ascends, from, limit)) =
        replay_loop_delivers serde ch stream_name tx codec fetches p (ground arith) in
      (
        log,
        ap (λ v. queued v tx) (conclude-world result.0 result.1) ∙ queue,
        ascends,
        from,
        omega arith,
        subst (λ n. IsCountedBy n (concluding result).0) (count ∙ (omega arith))
            (conclude-IsCountedBy result.0 result.1),
      )

  -- The ways of `replay_since`.
  pub data Way : Source → ℕ → World → ReplayResult × World → Type 0 where
    failed :
        (source : Source) (last_seq : ℕ) (w : World) → Way source last_seq w (err jet_stream, w)
    refused :
        (source : Source) (last_seq first_sequence messages oldest : ℕ) (w : World)
        → source.info ≡ some (first_sequence, messages)
        → IsGap last_seq first_sequence messages
        → Way source last_seq w (err (window_exceeded (requested last_seq) oldest), w)
    looped :
        (source : Source) (last_seq : ℕ) (w : World)
        → Way source last_seq w (
            concluding (
              replay_loop serde ch stream_name tx codec
                (fetches_of source)
                (start_of serde ch stream_name tx codec last_seq w)))

  -- Every replay goes one of the ways.
  pub way :
      (source : Source) (last_seq : ℕ) (w : World)
      → Way source last_seq w (replay source last_seq w)
  unfolding replay_since
  way source last_seq w = elim (Option-cases source.info) [
    | inl e ↦ subst (Way source last_seq w) (ground arith) (failed source last_seq w)
    | inr ((first_sequence, messages), e) ↦ elim (window-cases last_seq first_sequence messages) [
      | inl (fits, e') ↦ elim (Option-cases source.messages) [
        | inl e'' ↦ subst (Way source last_seq w) (ground arith) (failed source last_seq w)
        | inr (fetches, e'') ↦
            subst (Way source last_seq w) (ground arith) (looped source last_seq w)
      ]
      | inr (gap, oldest, e') ↦
          subst (Way source last_seq w) (ground arith)
            (refused source last_seq first_sequence messages oldest w e gap)
    ]
  ]

  Way-Delivers :
      (source : Source) (last_seq : ℕ) (w : World) (result : ReplayResult × World)
      → Way source last_seq w result
      → Delivers (fetches_of source) last_seq w result
  Way-Delivers source last_seq w _ (failed _ _ _) = fails _ _ w (err jet_stream) tt
  Way-Delivers source last_seq w _ (refused _ _ _ _ oldest _ _ _) =
      fails _ _ w (err (window_exceeded (requested last_seq) oldest)) refl
  Way-Delivers source last_seq w _ (looped _ _ _) = concludes (fetches_of source) last_seq w

  -- Whatever JetStream answers, the replay puts on the channel the encodings of some fetched
  -- messages, in the order of the fetches, with sequences that rise strictly from above the client's
  -- last one, and at most as many as the limit. A result that states a number states theirs.
  pub replay_since-Delivers :
      (source : Source) (last_seq : ℕ) (w : World)
      → Delivers (fetches_of source) last_seq w (replay source last_seq w)
  replay_since-Delivers source last_seq w =
      Way-Delivers source last_seq w (replay source last_seq w) (way source last_seq w)
