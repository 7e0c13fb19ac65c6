-- ===== src/Replay/Complete.antt =====
-- src/pubsub/nats.rs: `replay_since` when nothing fails on the way, that is, the encoder accepts
-- every message and the receiver stays open.
use turbocable_server.Prelude.{
  ℕ, zero, suc, ◌+◌, ◌≤◌, ◌<◌, ◌≡◌, refl, sym, subst, ◌∙◌, ap, Bool, true, false, Option, none,
  some, List, [], ◌∷◌, ◌++◌, Text, Bytes, arith, Bool-cases, inl, inr, length, take, eq_refl,
  nat_eq, min, nat_beq, ◌⊎◌,
}
use mathlib.Core.List.{append-nil, append_assoc}
use turbocable_server.Channel.{Channels}
use turbocable_server.Protocol.{Serde, Codec, ServerMessage}
use turbocable_server.Replay.{
  Fetch, message, Progress, Round, next, stop, replay_round, replay_loop, replayed_message,
  max_replay_messages, start_of, after_send, replay_since, Source, ReplayResult, ok, err, truncated,
  check_window, conclude,
}

-- A stored message: its sequence, its payload and the time at which it is handed on.
abbrev pub Stored : Type 0
Stored = ℕ × Bytes × ℕ

abbrev pub fetched : List Stored → List Fetch
fetched [] = []
fetched ((sequence, payload, elapsed) ∷ rest) =
    message (some sequence) payload elapsed ∷ fetched rest

abbrev pub IsRising : ℕ → List Stored → Type 0
IsRising bound [] = Unit
IsRising bound ((sequence, payload, elapsed) ∷ rest) = (bound < sequence) × IsRising sequence rest

-- What is left of a list after its first `n` entries.
abbrev pub drop : ℕ → List Stored → List Stored
drop zero xs = xs
drop (suc n) [] = []
drop (suc n) (x ∷ xs) = drop n xs

drop-cases :
    (n : ℕ) (xs : List Stored)
    → ((length xs ≤ n) × (drop n xs ≡ []))
      ⊎ ((n < length xs) × (x : Stored) × (rest : List Stored) × (drop n xs ≡ x ∷ rest))
drop-cases zero [] = inl (omega arith, refl)
drop-cases zero (x ∷ xs) = inr (omega arith, x, xs, refl)
drop-cases (suc n) [] = inl (omega arith, refl)
drop-cases (suc n) (x ∷ xs) = elim (drop-cases n xs) [
  | inl (fits, e) ↦ inl (omega arith, e)
  | inr (over, y, rest, e) ↦ inr (omega arith, y, rest, e)
]

module _ (serde : Serde) (ch : Channels) (stream_name : Text) (tx : ℕ)
    (codec : Codec (Serde.Value serde)) where
  open ch use {World, send, queued, queued-send}
  open serde use {Value}

  module _ (written : ServerMessage Value → Bytes)
      (encodes : (m : ServerMessage Value) → codec.encode m ≡ some (written m))
      (is_open : (m : Bytes) (w : World) → (send tx m w).0 ≡ true) where
    -- The frames of stored messages, in their order.
    abbrev pub written_all : List Stored → List Bytes
    written_all [] = []
    written_all ((sequence, payload, elapsed) ∷ rest) =
        written (replayed_message serde ch stream_name sequence payload) ∷ written_all rest

    abbrev run : List Fetch → Progress serde ch → Round serde ch × List Fetch
    run = replay_loop serde ch stream_name tx codec

    -- What a round does with a new message.
    abbrev Advances : ℕ → Bytes → Progress serde ch → Progress serde ch → Type 0
    Advances sequence payload p q =
        (q.count ≡ p.count + 1)
        × (queued q.world tx
            ≡ queued p.world tx
              ++ written (replayed_message serde ch stream_name sequence payload) ∷ [])
        × (q.prev_seq ≡ sequence)

    sent_next :
        (sequence : ℕ) (payload : Bytes) (elapsed : ℕ) (p : Progress serde ch) (sent : Bool × World)
        → sent.0 ≡ true
        → queued sent.1 tx
          ≡ queued p.world tx
            ++ written (replayed_message serde ch stream_name sequence payload) ∷ []
        → (q : Progress serde ch) × (after_send serde ch stream_name tx codec elapsed
              (record p { prev_seq = sequence })
              sent
            ≡ next q)
          × Advances sequence payload p q
    sent_next sequence payload elapsed p (true, w) _ queue = (_, refl, (refl, queue, refl))
    sent_next sequence payload elapsed p (false, w) e queue = ground arith

    round_next :
        (sequence : ℕ) (payload : Bytes) (elapsed : ℕ) (p : Progress serde ch)
        → p.prev_seq < sequence
        → (q : Progress serde ch) × (replay_round serde ch stream_name tx codec
              (message (some sequence) payload elapsed)
              p
            ≡ next q)
          × Advances sequence payload p q
    unfolding replay_round
    round_next sequence payload elapsed p rises =
        let frame = written (replayed_message serde ch stream_name sequence payload) in
        let (q, e, advances) =
          sent_next sequence payload elapsed p (send tx frame p.world) (is_open frame p.world)
            (ground (arith, queued-send tx tx frame p.world, eq_refl tx, is_open frame p.world)) in
        (
          q,
          ground (arith, encodes (replayed_message serde ch stream_name sequence payload)),
          advances,
        )

    -- What the loop makes of stored messages, when it may still deliver `room` messages.
    abbrev pub Finishes : ℕ → List Stored → Progress serde ch → Round serde ch × List Fetch → Type 0
    Finishes room stored p result =
        (q : Progress serde ch) × (result ≡ (stop q, fetched (drop room stored)))
        × (q.count ≡ min (p.count + length stored) max_replay_messages)
        × (queued q.world tx ≡ queued p.world tx ++ written_all (take room stored))

    run-full :
        (x : Fetch) (rest : List Fetch) (p : Progress serde ch)
        → p.count + 0 ≡ max_replay_messages
        → run (x ∷ rest) p ≡ (stop p, x ∷ rest)
    unfolding replay_loop
    run-full x rest p e = ground arith

    run-next :
        (x : Fetch) (rest : List Fetch) (p q : Progress serde ch)
        → p.count < max_replay_messages
        → replay_round serde ch stream_name tx codec x p ≡ next q
        → run (x ∷ rest) p ≡ run rest q
    unfolding replay_loop
    run-next x rest p q below e = ground arith

    pub replay_loop_all :
        (room : ℕ) (stored : List Stored) (p : Progress serde ch)
        → p.count + room ≡ max_replay_messages
        → IsRising p.prev_seq stored
        → Finishes room stored p (run (fetched stored) p)
    unfolding replay_loop
    replay_loop_all zero [] p cap rises =
        (p, refl, ground arith, sym (append-nil (queued p.world tx)))
    replay_loop_all (suc room) [] p cap rises =
        (p, refl, ground arith, sym (append-nil (queued p.world tx)))
    replay_loop_all zero ((sequence, payload, elapsed) ∷ rest) p cap rises =
        (p, run-full _ _ p cap, omega arith, sym (append-nil (queued p.world tx)))
    replay_loop_all (suc room) ((sequence, payload, elapsed) ∷ rest) p cap (above, rises) =
        let (q, e, (count, queue, last)) = round_next sequence payload elapsed p above in
        let (q', e', count', queue') =
          replay_loop_all room rest q (omega arith)
            (subst (λ b. IsRising b rest) (sym last) rises) in
        (
          q',
          run-next _ _ p q (omega arith) e ∙ e',
          omega arith,
          queue'
              ∙ ap (λ z. z ++ written_all (take room rest)) queue
              ∙ append_assoc (queued p.world tx)
                  (written (replayed_message serde ch stream_name sequence payload) ∷ [])
                  (written_all (take room rest)),
        )

    -- A delivery of `n` messages to a receiver that is there.
    abbrev pub IsDelivery : ℕ → ReplayResult → Type 0
    IsDelivery n result =
        (t : Option ℕ) × (result
          ≡ ok (record { delivered = n; peer_gone = false; first_delivery_elapsed = t }))

    replay_since-conclude :
        (first_sequence messages last_seq : ℕ) (stored : List Stored) (w : World)
        → check_window last_seq first_sequence messages ≡ none
        → replay_since serde ch stream_name tx codec
            (record { info = some (first_sequence, messages); messages = some (fetched stored) })
            last_seq
            w
          ≡ conclude serde ch stream_name tx codec
              (run (fetched stored) (start_of serde ch stream_name tx codec last_seq w))
    unfolding replay_since
    replay_since-conclude first_sequence messages last_seq stored w window = ground arith

    fitting :
        (q : Progress serde ch) (n : ℕ)
        → q.count ≡ n
        → (conclude serde ch stream_name tx codec (stop q, [])).0
          ≡ ok (record {
            delivered = n;
            peer_gone = false;
            first_delivery_elapsed = q.first_delivery_elapsed;
          })
    fitting q n e = elim (Bool-cases (nat_beq q.count max_replay_messages)) [
      | inl at_limit ↦ rw (at_limit, e) refl
      | inr below ↦ rw (below, e) refl
    ]

    cut :
        (x : Stored) (rest : List Stored) (q : Progress serde ch)
        → q.count ≡ max_replay_messages
        → (conclude serde ch stream_name tx codec (stop q, fetched (x ∷ rest))).0
          ≡ err (truncated max_replay_messages max_replay_messages)
    cut x rest q e = rw e refl

    -- The result of the loop that stopped after `q.count` of the stored messages.
    concluded :
        (stored : List Stored) (q : Progress serde ch) (frames : List Bytes)
        → q.count ≡ min (0 + length stored) max_replay_messages
        → queued q.world tx ≡ frames
        → let replayed =
            conclude serde ch stream_name tx codec
              (stop q, fetched (drop max_replay_messages stored)) in
          (queued replayed.1 tx ≡ frames)
          × (((length stored ≤ max_replay_messages) × IsDelivery (length stored) replayed.0)
              ⊎ ((max_replay_messages < length stored)
                  × (replayed.0 ≡ err (truncated max_replay_messages max_replay_messages))))
    concluded stored q frames count queue = elim (drop-cases max_replay_messages stored) [
      | inl (fits, e) ↦
          (queue, inl (fits, (q.first_delivery_elapsed, rw e (fitting q _ (ground arith)))))
      | inr (over, x, rest, e) ↦ (queue, inr (over, rw e (cut x rest q (ground arith))))
    ]

    -- When the window check passes, the encoder accepts every message, the receiver stays, and the
    -- stored messages have sequences that rise strictly from above `last_seq`: the encodings of
    -- the first 10 000 of them are added to the channel in order, and the result is a delivery of
    -- all of them when there are no more, and `Truncated` otherwise.
    pub replay_since_all :
        (first_sequence messages last_seq : ℕ) (stored : List Stored) (w : World)
        → check_window last_seq first_sequence messages ≡ none
        → IsRising last_seq stored
        → let source : Source = record {
          info = some (first_sequence, messages);
          messages = some (fetched stored);
        } in
          let replayed = replay_since serde ch stream_name tx codec source last_seq w in
          (queued replayed.1 tx ≡ queued w tx ++ written_all (take max_replay_messages stored))
          × (((length stored ≤ max_replay_messages) × IsDelivery (length stored) replayed.0)
              ⊎ ((max_replay_messages < length stored)
                  × (replayed.0 ≡ err (truncated max_replay_messages max_replay_messages))))
    replay_since_all first_sequence messages last_seq stored w window rises =
        let (q, e, count, queue) =
          replay_loop_all max_replay_messages stored
            (start_of serde ch stream_name tx codec last_seq w) refl rises in
        let reached =
          replay_since-conclude first_sequence messages last_seq stored w window
          ∙ ap (conclude serde ch stream_name tx codec) e in
        rw reached (concluded stored q _ count queue)
