-- ===== src/Replay/Rounds.antt =====
-- src/pubsub/nats.rs: one round of the loop of `replay_since`.
use turbocable_server.Prelude.{
  ℕ, ◌+◌, ◌≤◌, ◌<◌, ◌≡◌, refl, sym, subst, ap, Bool, true, false, Option, none, some, [], ◌∷◌, ◌++◌,
  Text, Bytes, if◌then◌else◌, leb, arith, Bool-cases, inl, inr, eq_refl, nat_eq,
}
use turbocable_server.Channel.{Channels}
use turbocable_server.Protocol.{Serde, Codec}
use turbocable_server.Replay.{
  Fetch, message, fetch_error, ended, Progress, Round, forward, next, stop, peer_gone,
  missing_sequence, replay_round, replayed_message, after_send,
}

module _ (serde : Serde) (ch : Channels) (stream_name : Text) (tx : ℕ)
    (codec : Codec (Serde.Value serde)) where
  open ch use {World, send, queued, queued-send}

  abbrev pub progress_of : Round serde ch → Progress serde ch
  progress_of (next p) = p
  progress_of (stop p) = p
  progress_of (peer_gone p) = p
  progress_of (missing_sequence p) = p

  -- A round that delivers nothing.
  abbrev pub Keeps : Progress serde ch → Progress serde ch → Type 0
  Keeps p q =
      (q.count ≡ p.count) × (queued q.world tx ≡ queued p.world tx) × (p.prev_seq ≤ q.prev_seq)

  -- A round that delivers one frame.
  abbrev pub Sends : Progress serde ch → Progress serde ch → ℕ → Bytes → Type 0
  Sends p q sequence frame =
      (q.count ≡ p.count + 1)
      × (queued q.world tx ≡ queued p.world tx ++ frame ∷ [])
      × (p.prev_seq < sequence)
      × (q.prev_seq ≡ sequence)

  -- What a round has done.
  pub data Did : Fetch → Progress serde ch → Round serde ch → Type 0 where
    keeps :
        (x : Fetch) (p : Progress serde ch) (r : Round serde ch)
        → Keeps p (progress_of r)
        → Did x p r
    sends :
        (sequence : ℕ) (payload : Bytes) (elapsed : ℕ) (frame : Bytes) (p q : Progress serde ch)
        → codec.encode (replayed_message serde ch stream_name sequence payload) ≡ some frame
        → Sends p q sequence frame
        → Did (message (some sequence) payload elapsed) p (next q)

  sent-Did :
      (sequence : ℕ) (payload : Bytes) (elapsed : ℕ) (frame : Bytes) (p : Progress serde ch)
      → p.prev_seq < sequence
      → codec.encode (replayed_message serde ch stream_name sequence payload) ≡ some frame
      → (sent : Bool × World)
      → queued sent.1 tx ≡ (if sent.0 then queued p.world tx ++ frame ∷ [] else queued p.world tx)
      → Did
          (message (some sequence) payload elapsed)
          p
          (after_send serde ch stream_name tx codec elapsed (record p { prev_seq = sequence }) sent)
  sent-Did sequence payload elapsed frame p rises e (false, w) queue =
      keeps (message (some sequence) payload elapsed) p _ (ground arith)
  sent-Did sequence payload elapsed frame p rises e (true, w) queue =
      sends sequence payload elapsed frame p _ e (ground arith)

  forward-Did :
      (sequence : ℕ) (payload : Bytes) (elapsed : ℕ) (p : Progress serde ch)
      → p.prev_seq < sequence
      → Did (message (some sequence) payload elapsed) p (
          forward serde ch stream_name tx codec sequence payload elapsed
            (record p { prev_seq = sequence }))
  forward-Did sequence payload elapsed p rises =
      go (codec.encode (replayed_message serde ch stream_name sequence payload)) refl
    where
      x : Fetch
      x = message (some sequence) payload elapsed

      p' : Progress serde ch
      p' = record p { prev_seq = sequence }

      go :
          (encoded : Option Bytes)
          → codec.encode (replayed_message serde ch stream_name sequence payload) ≡ encoded
          → Did x p (elim encoded [
            | none ↦ next p'
            | some frame ↦
                after_send serde ch stream_name tx codec elapsed p' (send tx frame p.world)
          ])
      go none e = keeps x p (next p') (ground arith)
      go (some frame) e =
          sent-Did sequence payload elapsed frame p rises e (send tx frame p.world)
            (ground (arith, queued-send tx tx frame p.world, eq_refl tx))

  pub round-Did :
      (x : Fetch) (p : Progress serde ch) → Did x p (replay_round serde ch stream_name tx codec x p)
  unfolding replay_round
  round-Did fetch_error p = keeps fetch_error p (stop p) (ground arith)
  round-Did ended p = keeps ended p (stop p) (ground arith)
  round-Did (message none payload elapsed) p =
      keeps (message none payload elapsed) p (missing_sequence p) (ground arith)
  round-Did (message (some sequence) payload elapsed) p =
      elim (Bool-cases (leb sequence p.prev_seq)) [
        | inl e ↦
            transport_did (ap (λ b. if b then next p else go) (sym e))
              (keeps x p (next p) (ground arith))
        | inr e ↦
            transport_did (ap (λ b. if b then next p else go) (sym e))
              (forward-Did sequence payload elapsed p (ground arith))
      ]
    where
      x : Fetch
      x = message (some sequence) payload elapsed

      go : Round serde ch
      go =
          forward serde ch stream_name tx codec sequence payload elapsed
            (record p { prev_seq = sequence })

      transport_did : {r s : Round serde ch} → r ≡ s → Did x p r → Did x p s
      transport_did e = subst (Did x p) e
