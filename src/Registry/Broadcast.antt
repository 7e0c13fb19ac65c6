-- ===== src/Registry/Broadcast.antt =====
-- src/connection/registry.rs: what a whole `fanout_encoded` promises to subscribers, to everybody
-- else and to its caller.
use turbocable_server.Prelude.{
  ℕ, ◌+◌, ◌≡◌, refl, true, false, List, [], ◌∷◌, ◌++◌, none, some, Text, Bytes, contains,
  if◌then◌else◌, nat_eq, text_eq, arith, length,
}
use turbocable_server.Prelude.Dict.{get}
use turbocable_server.Channel.{Channels}
use turbocable_server.Registry.{
  Registry, ConnectionEntry, FanoutResult, Delivery, payload_for, deliver_all, fanout_encoded,
  subscribers,
}
use turbocable_server.Registry.Invariant.{Inv}
use turbocable_server.Registry.Departs.{deregister_all-Inv}
use turbocable_server.Registry.View.{member_live}
use turbocable_server.Registry.Fanout.{deliver_all_counts, deliver_all_once, deliver_all_other}
use turbocable_server.Registry.Eviction.{
  member-deregister_all, live-deregister_all, evicted_subscriber, deliver_all-Told,
}

module _ (ch : Channels) (r : Registry) (v : Inv r) (w : Channels.World ch) (s : Text)
    (json_payload binary_payload : Bytes) where
  open ch use {World, queued, signalled}

  abbrev fanned : FanoutResult × Registry × World
  fanned = fanout_encoded ch s json_payload binary_payload (r, w)

  abbrev start : Delivery ch
  start = record { sent = 0; evicted = []; world = w }

  -- In a registry that keeps its invariant: every subscriber is counted exactly once, as one that
  -- accepted the message or as one that is evicted, and `dropped` is the number of evicted
  -- identifiers.
  pub fanout_counts :
      (fanned.0.sent + fanned.0.dropped ≡ length (subscribers r s))
      × (fanned.0.dropped ≡ length fanned.0.evicted)
  unfolding fanout_encoded
  fanout_counts = (
    omega (
      arith,
      deliver_all_counts ch r json_payload binary_payload (subscribers r s) start
          (λ id. member_live r v id s),
    ),
    refl,
  )

  -- In a registry that keeps its invariant: a subscriber whose channel no other connection has
  -- gets exactly one payload, the one in its encoding, behind what waits there, unless it is
  -- evicted; then its channel is as before.
  pub fanout_delivers_once :
      (c : ℕ) (entry : ConnectionEntry)
      → ((d : ℕ) (f : ConnectionEntry)
          → get d r.connections ≡ some f
          → f.sender ≡ entry.sender
          → d ≡ c)
      → get c r.connections ≡ some entry
      → contains c (subscribers r s) ≡ true
      → queued fanned.2 entry.sender ≡ (
          if contains c fanned.0.evicted
          then queued w entry.sender
          else queued w entry.sender ++ payload_for ch entry json_payload binary_payload ∷ [])
  unfolding fanout_encoded contains
  fanout_delivers_once c entry own here member =
      deliver_all_once ch r json_payload binary_payload c entry own here (subscribers r s) start
        (v.distinct s) member refl

  -- In a registry that keeps its invariant: a connection that is not subscribed to the stream, and
  -- whose channel no other connection has, receives nothing, is not evicted, and stays registered
  -- with the subscriptions that it had.
  pub fanout_spares_others :
      (c : ℕ) (entry : ConnectionEntry)
      → ((d : ℕ) (f : ConnectionEntry)
          → get d r.connections ≡ some f
          → f.sender ≡ entry.sender
          → d ≡ c)
      → get c r.connections ≡ some entry
      → contains c (subscribers r s) ≡ false
      → (queued fanned.2 entry.sender ≡ queued w entry.sender)
        × (contains c fanned.0.evicted ≡ false)
        × (get c fanned.1.connections ≡ some entry)
        × ((t : Text) → contains c (subscribers fanned.1 t) ≡ contains c (subscribers r t))
  unfolding fanout_encoded contains
  fanout_spares_others c entry own here out =
      let (quiet, kept) =
        deliver_all_other ch r json_payload binary_payload c entry own here (subscribers r s) start
          out in
      (
        quiet,
        kept,
        ground (arith, here, kept, live-deregister_all gone r v c),
        λ t. ground (arith, kept, member-deregister_all gone r v c t),
      )
    where
      gone : List ℕ
      gone = (deliver_all ch r json_payload binary_payload (subscribers r s) start).evicted

  -- In a registry that keeps its invariant: after the fan-out exactly the evicted connections are
  -- gone, from the table and from every subscriber list, all others are as before, and the
  -- invariant holds.
  pub fanout_removes_evicted :
      Inv fanned.1
      × ((c : ℕ)
          → (get c fanned.1.connections
              ≡ (if contains c fanned.0.evicted then none else get c r.connections))
            × ((t : Text)
                → contains c (subscribers fanned.1 t)
                  ≡ (if contains c fanned.0.evicted then false else contains c (subscribers r t))))
  unfolding fanout_encoded
  fanout_removes_evicted = (
    deregister_all-Inv gone r v,
    λ c. (live-deregister_all gone r v c, member-deregister_all gone r v c),
  )
    where
      gone : List ℕ
      gone = (deliver_all ch r json_payload binary_payload (subscribers r s) start).evicted

  -- In a registry that keeps its invariant: a registered connection that is evicted is a
  -- subscriber of the stream, and its eviction signal waits.
  pub fanout_signals_evicted :
      (c : ℕ) (entry : ConnectionEntry)
      → get c r.connections ≡ some entry
      → contains c fanned.0.evicted ≡ true
      → (contains c (subscribers r s) ≡ true) × (signalled fanned.2 entry.evict_tx ≡ true)
  unfolding fanout_encoded contains
  fanout_signals_evicted c entry here gone = (
    evicted_subscriber ch r json_payload binary_payload c (subscribers r s) start gone,
    deliver_all-Told ch r json_payload binary_payload c entry here (subscribers r s) start (λ h. cc)
        gone,
  )
