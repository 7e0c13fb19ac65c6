-- ===== src/Registry/Fanout.antt =====
-- src/connection/registry.rs: `fanout_encoded`, with its loop over the subscribers.
use turbocable_server.Prelude.{
  ℕ, ◌+◌, ◌≡◌, refl, true, false, some, List, [], ◌∷◌, ◌++◌, Bytes, contains, contains-append,
  is_some, if◌then◌else◌, ◌==◌, eq_iff, nat_eq, text_eq, arith, Option-cases, Bool-cases, inl, inr,
  Distinct, length, length-append,
}
use turbocable_server.Prelude.Dict.{get}
use turbocable_server.Channel.{Channels}
use turbocable_server.Registry.{
  Registry, ConnectionEntry, Delivery, payload_for, deliver_to, deliver_all,
}

module _ (ch : Channels) (r : Registry) (json_payload binary_payload : Bytes) where
  open ch use {
    World, try_send, queued, signalled, queued-try_send, queued-signal, signalled-try_send,
    signalled-signal,
  }

  abbrev deliver : ℕ → Delivery ch → Delivery ch
  deliver = deliver_to ch r json_payload binary_payload

  abbrev deliver_each : List ℕ → Delivery ch → Delivery ch
  deliver_each = deliver_all ch r json_payload binary_payload

  -- Every live subscriber is counted once, as sent to or as evicted.
  counted : ℕ → Delivery ch → ℕ
  counted n d = d.sent + length d.evicted + n

  deliver_counts :
      (id : ℕ) (d : Delivery ch)
      → is_some (get id r.connections) ≡ true
      → (deliver id d).sent + length (deliver id d).evicted ≡ d.sent + length d.evicted + 1
  unfolding deliver_to
  deliver_counts id d live = ground (arith, length-append d.evicted (id ∷ []))

  pub deliver_all_counts :
      (ids : List ℕ) (d : Delivery ch)
      → ((id : ℕ) → contains id ids ≡ true → is_some (get id r.connections) ≡ true)
      → (deliver_each ids d).sent + length (deliver_each ids d).evicted
        ≡ d.sent + length d.evicted + length ids
  unfolding deliver_all contains
  deliver_all_counts [] d live = omega arith
  deliver_all_counts (id ∷ ids) d live = omega (
    arith,
    deliver_counts id d (live id (ground (arith, eq_iff id id))),
    deliver_all_counts ids (deliver id d) (λ j h. live j (ground arith)),
  )

  -- The entry under observation, which shares its channel with no other connection.
  module _ (c : ℕ) (entry : ConnectionEntry)
      (own : (d : ℕ) (f : ConnectionEntry)
        → get d r.connections ≡ some f
        → f.sender ≡ entry.sender
        → d ≡ c) where
    deliver_other :
        (id : ℕ) (d : Delivery ch)
        → (id == c) ≡ false
        → (queued (deliver id d).world entry.sender ≡ queued d.world entry.sender)
          × (contains c (deliver id d).evicted ≡ contains c d.evicted)
    unfolding deliver_to contains
    deliver_other id d other = elim (Option-cases (get id r.connections)) [
      | inl e ↦ ground arith
      | inr (f, e) ↦ ground (
        arith,
        own id f e,
        queued-try_send f.sender entry.sender (payload_for ch f json_payload binary_payload)
            d.world,
        queued-signal f.evict_tx entry.sender
            (try_send f.sender (payload_for ch f json_payload binary_payload) d.world).1,
        contains-append c d.evicted (id ∷ []),
        eq_iff f.sender entry.sender,
        eq_iff id c,
      )
    ]

    -- What one more round leaves on the observed channel, given whether it evicted.
    abbrev Outcome : Delivery ch → Delivery ch → Type 0
    Outcome d d' = queued d'.world entry.sender ≡ (
        if contains c d'.evicted
        then queued d.world entry.sender
        else queued d.world entry.sender ++ payload_for ch entry json_payload binary_payload ∷ [])

    module _ (here : get c r.connections ≡ some entry) where
      deliver_self : (d : Delivery ch) → contains c d.evicted ≡ false → Outcome d (deliver c d)
      unfolding deliver_to contains
      deliver_self d clear = ground (
        arith,
        here,
        queued-try_send entry.sender entry.sender (payload_for ch entry json_payload binary_payload)
            d.world,
        queued-signal entry.evict_tx entry.sender
            (try_send entry.sender (payload_for ch entry json_payload binary_payload) d.world).1,
        contains-append c d.evicted (c ∷ []),
        eq_iff entry.sender entry.sender,
        eq_iff c c,
      )

      pub deliver_all_other :
          (ids : List ℕ) (d : Delivery ch)
          → contains c ids ≡ false
          → (queued (deliver_each ids d).world entry.sender ≡ queued d.world entry.sender)
            × (contains c (deliver_each ids d).evicted ≡ contains c d.evicted)
      unfolding deliver_all contains
      deliver_all_other [] d out = (refl, refl)
      deliver_all_other (id ∷ ids) d out =
          ground (arith, deliver_other id d, deliver_all_other ids (deliver id d))

      pub deliver_all_once :
          (ids : List ℕ) (d : Delivery ch)
          → Distinct ids
          → contains c ids ≡ true
          → contains c d.evicted ≡ false
          → Outcome d (deliver_each ids d)
      unfolding deliver_all contains
      deliver_all_once [] d u member clear = cc
      deliver_all_once (id ∷ ids) d u member clear = elim (Bool-cases (id == c)) [
        | inl hit ↦
            let e : id ≡ c = (eq_iff id c).0 hit in
            ground (arith, e, deliver_self d clear, deliver_all_other ids (deliver c d))
        | inr miss ↦
            ground (arith, deliver_other id d miss, deliver_all_once ids (deliver id d) u.1)
      ]
