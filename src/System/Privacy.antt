-- ===== src/System/Privacy.antt =====
-- The node under any interleaving: who gets a message, and what is left when all have gone.
use turbocable_server.Prelude.{
  Bool, ℕ, ◌+◌, ◌<◌, ◌≡◌, ◌≢◌, refl, sym, subst, true, false, Option, none, some, List, [], ◌∷◌,
  Text, contains, length, eq_refl, KeyEq, nat_eq, text_eq, arith, Bool-cases, inl, inr,
}
use turbocable_server.Prelude.Dict.{Dict, get}
use turbocable_server.Config.{Config}
use turbocable_server.Auth.{Jwt, JwtVerifier, is_allowed}
use turbocable_server.Limiter.{count_for}
use turbocable_server.Channel.{Channels}
use turbocable_server.Protocol.{Serde}
use turbocable_server.Presence.{Services}
use turbocable_server.RateLimiter.{F64, StreamRateLimiter}
use turbocable_server.Registry.{Registry, ConnectionEntry, u64_mod, subscribers}
use turbocable_server.Registry.Invariant.{Inv}
use turbocable_server.Registry.View.{member_live}
use turbocable_server.Registry.Broadcast.{fanout_spares_others}
use turbocable_server.Nats.{NatsMessage, Node, extract_stream_name, admit, process_nats_message}
use turbocable_server.Nats.Fanout.{process_fans_out, process_limited, json_bytes, msgpack_bytes}
use turbocable_server.Handler.{AppState, stream_key_from_identifier}
use turbocable_server.System.{Move, arrives, Conn, System, deliver_message, step, run, initial}
use turbocable_server.System.Held.{held}
use turbocable_server.System.Reach.{Sound, run-initial-Sound}

-- A connection that is not subscribed to the stream of a message gets nothing of it.
module _ (serde : Serde) (f : F64) (ch : Channels) where
  open ch use {queued}

  process_spares :
      (now : ℕ) (msg : NatsMessage) (n : Node serde f ch) (c : ℕ) (entry : ConnectionEntry)
      → Inv n.registry
      → ((d : ℕ) (g : ConnectionEntry)
          → get d n.registry.connections ≡ some g
          → g.sender ≡ entry.sender
          → d ≡ c)
      → get c n.registry.connections ≡ some entry
      → contains c (subscribers n.registry (extract_stream_name msg.subject)) ≡ false
      → (queued (process_nats_message serde f ch now msg n).world entry.sender
          ≡ queued n.world entry.sender)
        × (get c (process_nats_message serde f ch now msg n).registry.connections ≡ some entry)
  process_spares now msg n c entry v own here out =
      let name = extract_stream_name msg.subject in
      elim (Bool-cases (admit serde f ch now name n).0) [
        | inl pass ↦
            let (to_registry, to_world, _, _) =
              process_fans_out serde f ch now name msg n refl pass in
            let (quiet, _, kept, _) =
              fanout_spares_others ch n.registry v n.world name (json_bytes serde f ch msg)
                (msgpack_bytes serde f ch msg) c entry own here out in
            rw (to_registry, to_world) (quiet, kept)
        | inr limited ↦
            let (to_registry, to_world, _, _) = process_limited serde f ch now msg n limited in
            rw (to_registry, to_world) (refl, here)
      ]

contains_nothing : (xs : List ℕ) → ((c : ℕ) → contains c xs ≡ false) → xs ≡ []
unfolding contains
contains_nothing [] h = refl
contains_nothing (x ∷ xs) h = ground (arith, h x, eq_refl x)

pub get_nothing {ℓ} : {V : Type ℓ} (m : Dict ℕ V) → ((c : ℕ) → get c m ≡ none) → m ≡ []
unfolding get
get_nothing [] h = refl
get_nothing ((c, v) ∷ m) h = ground (arith, h c, eq_refl c)

module _ (serde : Serde) (f : F64) (ch : Channels) (services : Services) (app : AppState)
    (jwt : Jwt) (Ip : Type 0) ⦃e : KeyEq Ip⦄ where
  open ch use {queued}

  module _ (cfg : Config) (verifier : Option (JwtVerifier jwt) × Bool)
      (rate_limiter : Option (StreamRateLimiter f)) (world : Channels.World ch)
      (state : Services.State services) (moves : List (Move Ip))
      (room : length moves + 1 < u64_mod) where
    -- A state that the node reaches.
    abbrev pub reached : System serde f ch services app jwt Ip
    reached =
        run serde f ch services app jwt Ip moves
          (initial serde f ch services app jwt Ip cfg verifier rate_limiter world state)

    abbrev pub reached_registry : Registry
    reached_registry = reached.node.gateway.registry

    abbrev pub after_message : ℕ → NatsMessage → System serde f ch services app jwt Ip
    after_message now msg = step serde f ch services app jwt Ip (arrives now msg) reached

    reached-Sound : Sound serde f ch services app jwt Ip reached
    reached-Sound =
        run-initial-Sound serde f ch services app jwt Ip cfg verifier rate_limiter world state moves
          room

    not_subscribed :
        (c : ℕ) (conn : Conn serde f ch services app jwt Ip) (name : Text)
        → get c reached.running ≡ some conn
        → ((identifier : Text)
            → is_allowed conn.ctx.allowed_streams identifier ≡ true
            → stream_key_from_identifier serde identifier ≢ name)
        → contains c (subscribers reached_registry name) ≡ false
    not_subscribed c conn name here foreign =
        elim (Bool-cases (contains c (subscribers reached_registry name))) [
          | inl member ↦
              let (identifier, allowed, at_key) = reached-Sound.authorized c conn here name (
                subst (λ k. contains k (subscribers reached_registry name) ≡ true)
                  (sym (reached-Sound.keyed c conn here)) member) in
              absurd (foreign identifier allowed at_key)
          | inr out ↦ out
        ]

    -- In every state that the node reaches by fewer than 2 ^ 64 - 1 steps: a message of a stream
    -- puts nothing on the channel of a registered connection whose token allows no identifier
    -- with that stream as its key, and the connection stays registered; provided no other
    -- connection has its channel.
    pub message_stays_private :
        (now : ℕ) (msg : NatsMessage) (c : ℕ) (conn : Conn serde f ch services app jwt Ip)
        (entry : ConnectionEntry)
        → get c reached.running ≡ some conn
        → get c reached_registry.connections ≡ some entry
        → ((d : ℕ) (g : ConnectionEntry)
            → get d reached_registry.connections ≡ some g
            → g.sender ≡ entry.sender
            → d ≡ c)
        → ((identifier : Text)
            → is_allowed conn.ctx.allowed_streams identifier ≡ true
            → stream_key_from_identifier serde identifier ≢ extract_stream_name msg.subject)
        → (queued (after_message now msg).node.gateway.world entry.sender
            ≡ queued reached.node.gateway.world entry.sender)
          × (get c (after_message now msg).node.gateway.registry.connections ≡ some entry)
    unfolding step deliver_message
    message_stays_private now msg c conn entry here registered own foreign =
        process_spares serde f ch now msg
          (record reached.consumer {
            registry = reached_registry;
            world = reached.node.gateway.world;
          })
          c entry reached-Sound.well_formed own registered
          (not_subscribed c conn (extract_stream_name msg.subject) here foreign)

    -- When no connection runs, nothing is left of any.
    pub nothing_left :
        reached.running ≡ []
        → ((ip : Ip) → count_for ip reached.node.limiter ≡ 0)
          × (reached_registry.connections ≡ [])
          × (reached_registry.active ≡ 0)
          × ((stream : Text) → subscribers reached_registry stream ≡ [])
    unfolding held get
    nothing_left gone =
        let v : Inv reached_registry = reached-Sound.well_formed in
        let absent : (c : ℕ) → get c reached_registry.connections ≡ none =
          λ c. ground (arith, reached-Sound.owned c, gone) in
        let empty : reached_registry.connections ≡ [] =
          get_nothing reached_registry.connections absent in
        (
          λ ip. ground (arith, reached-Sound.counted ip, gone),
          empty,
          ground (arith, v.counted, empty),
          λ stream.
              contains_nothing (subscribers reached_registry stream)
                (λ c. ground (arith, member_live reached_registry v c stream, absent c)),
        )
