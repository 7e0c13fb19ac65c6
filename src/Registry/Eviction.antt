-- ===== src/Registry/Eviction.antt =====
-- src/connection/registry.rs: which connections `fanout_encoded` evicts, how they are told, and
-- what is left of them in the registry.
use turbocable_server.Prelude.{
  ℕ, ◌≡◌, refl, true, false, ◌||◌, none, some, List, [], ◌∷◌, Text, Bytes, contains,
  contains-append, if◌then◌else◌, eq_iff, nat_eq, text_eq, arith, Option-cases, inl, inr,
}
use turbocable_server.Prelude.Dict.{get}
use turbocable_server.Channel.{Channels}
use turbocable_server.Registry.{
  Registry, ConnectionEntry, Delivery, payload_for, deliver_to, deliver_all, deregister,
  deregister_all, subscribers,
}
use turbocable_server.Registry.Invariant.{Inv}
use turbocable_server.Registry.Departs.{deregister-Inv}
use turbocable_server.Registry.Deregister.{member-deregister, live-deregister}

pub member-deregister_all :
    (ids : List ℕ) (r : Registry) (v : Inv r) (d : ℕ) (t : Text)
    → contains d (subscribers (deregister_all ids r) t)
      ≡ (if contains d ids then false else contains d (subscribers r t))
unfolding deregister_all contains
member-deregister_all [] r v d t = refl
member-deregister_all (c ∷ ids) r v d t = ground (
  arith,
  member-deregister_all ids (deregister c r) (deregister-Inv r v c) d t,
  member-deregister r v c d t,
)

pub live-deregister_all :
    (ids : List ℕ) (r : Registry) (v : Inv r) (d : ℕ)
    → get d (deregister_all ids r).connections
      ≡ (if contains d ids then none else get d r.connections)
unfolding deregister_all contains
live-deregister_all [] r v d = refl
live-deregister_all (c ∷ ids) r v d = ground (
  arith,
  live-deregister_all ids (deregister c r) (deregister-Inv r v c) d,
  live-deregister r v c d,
)

module _ (ch : Channels) (r : Registry) (json_payload binary_payload : Bytes) where
  open ch use {
    World, try_send, signal, queued, signalled, queued-try_send, signalled-try_send,
    signalled-signal,
  }

  abbrev pub deliver : ℕ → Delivery ch → Delivery ch
  deliver = deliver_to ch r json_payload binary_payload

  abbrev pub deliver_each : List ℕ → Delivery ch → Delivery ch
  deliver_each = deliver_all ch r json_payload binary_payload

  -- Who is evicted was evicted before or is a subscriber.
  pub evicted_subscriber :
      (c : ℕ) (ids : List ℕ) (d : Delivery ch)
      → contains c (deliver_each ids d).evicted ≡ true
      → (contains c d.evicted || contains c ids) ≡ true
  unfolding deliver_all deliver_to contains
  evicted_subscriber c [] d h = ground arith
  evicted_subscriber c (id ∷ ids) d h =
      ground (arith, evicted_subscriber c ids (deliver id d), contains-append c d.evicted (id ∷ []))

  -- A signal, once on a channel, is not taken back by a delivery.
  deliver_keeps_signal :
      (id t : ℕ) (d : Delivery ch)
      → signalled d.world t ≡ true
      → signalled (deliver id d).world t ≡ true
  unfolding deliver_to
  deliver_keeps_signal id t d h = elim (Option-cases (get id r.connections)) [
    | inl e ↦ ground arith
    | inr (f, e) ↦ ground (
      arith,
      signalled-try_send f.sender t (payload_for ch f json_payload binary_payload) d.world,
      signalled-signal f.evict_tx t
          (try_send f.sender (payload_for ch f json_payload binary_payload) d.world).1,
    )
  ]

  module _ (c : ℕ) (entry : ConnectionEntry) (here : get c r.connections ≡ some entry) where
    -- What is carried through the loop: an evicted connection has been signalled.
    abbrev pub Told : Delivery ch → Type 0
    Told d = contains c d.evicted ≡ true → signalled d.world entry.evict_tx ≡ true

    deliver-Told : (id : ℕ) (d : Delivery ch) → Told d → Told (deliver id d)
    unfolding deliver_to contains
    deliver-Told id d told h = elim (Option-cases (get id r.connections)) [
      | inl e ↦ ground arith
      | inr (f, e) ↦ ground (
        arith,
        here,
        deliver_keeps_signal id entry.evict_tx d,
        signalled-try_send f.sender entry.evict_tx (payload_for ch f json_payload binary_payload)
            d.world,
        signalled-signal f.evict_tx entry.evict_tx
            (try_send f.sender (payload_for ch f json_payload binary_payload) d.world).1,
        contains-append c d.evicted (id ∷ []),
        eq_iff id c,
        eq_iff f.evict_tx entry.evict_tx,
      )
    ]

    pub deliver_all-Told : (ids : List ℕ) (d : Delivery ch) → Told d → Told (deliver_each ids d)
    unfolding deliver_all
    deliver_all-Told [] d told = told
    deliver_all-Told (id ∷ ids) d told =
        deliver_all-Told ids (deliver id d) (deliver-Told id d told)
