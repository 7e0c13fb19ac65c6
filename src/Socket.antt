-- ===== src/Socket.antt =====
-- src/connection/handler.rs: `inbound_loop` and `handle_socket`, the life of one connection. What
-- reaches the loop is a list of events, whose end is the end of the socket's stream. The handles of
-- the connection's channels come in with it; the outbound loop runs in Outbound.
pub mod Frames
pub mod Tasks
pub mod Life
pub mod Gate
use turbocable_server.Prelude.{
  ℕ, ◌+◌, ◌-◌, Bool, true, false, Option, none, some, List, [], ◌∷◌, ◌++◌, Text, Bytes, codes,
  KeyEq, ◌==◌, text_eq,
}
use turbocable_server.Text.Utf8.{as_bytes}
use turbocable_server.Auth.{Jwt, JwtVerifier, verify, AuthError, Claims, star, ok, err}
use turbocable_server.Limiter.{ConnectionLimiter, try_acquire, release}
use turbocable_server.Channel.{Channels}
use turbocable_server.Protocol.{
  Serde, Codec, ServerMessage, ping, welcome, codec_for_protocol, is_binary_protocol,
}
use turbocable_server.Registry.{Registry, allocate_id, register, deregister}
use turbocable_server.Presence.{Services, delete}
use turbocable_server.Handler.{
  AppState, ConnContext, Session, awaiting_hello, Gateway, send_message, handle_client_frame,
}

-- What the three arms of the `select!` of `inbound_loop` deliver.
pub data Inbound : Type 0 where
  text : Text → Inbound
  binary : Bytes → Inbound
  ping_or_pong close receive_error shutdown : Inbound
  tick : ℕ → Inbound

abbrev pub new_session : Session
new_session = record {
  conn_state = awaiting_hello;
  replay_capable = false;
  last_seq = none;
  heartbeats = [];
}

-- Why a connection is closed before it is registered.
pub data Refusal : Type 0 where
  too_many_connections no_token : Refusal
  verification_failed : AuthError → Refusal

abbrev pub close_code : Refusal → ℕ
close_code too_many_connections = 1008
close_code no_token = 3000
close_code (verification_failed _) = 3000

pub data Permission : Type 0 where
  granted : List Text → Option Text → Permission
  refused : Refusal → Permission

-- The match on the token at a time, for a node that has a verifier or none.
unfoldable pub authorize : (jwt : Jwt) → ℕ → Option (JwtVerifier jwt) → Option Text → Permission
authorize jwt now none token = granted (star ∷ []) none
authorize jwt now (some verifier) none = refused no_token
authorize jwt now (some verifier) (some []) = refused no_token
authorize jwt now (some verifier) (some (c ∷ cs)) = elim (verify jwt now (c ∷ cs) verifier) [
  | ok claims ↦ granted claims.allowed_streams (some claims.sub)
  | err e ↦ refused (verification_failed e)
]

-- The senders of a connection.
pub record Handles : Type 0 where
  pub live_tx : ℕ
  pub replay_tx : ℕ
  pub urgent_close_tx : ℕ
  pub evict_tx : ℕ

module _ (serde : Serde) (ch : Channels) (services : Services) (app : AppState) where
  open serde use {Value}
  open ch use {World, send}

  module _ (ctx : ConnContext Value) where
    abbrev after_ping : Bool × World → Gateway serde ch services → Bool × Gateway serde ch services
    after_ping (sent, w) g = (sent, record g { world = w })

    -- The arm of the ping interval: whether the loop goes on.
    unfoldable pub send_ping : ℕ → Gateway serde ch services → Bool × Gateway serde ch services
    send_ping ts g = elim (ctx.codec.encode (ping ts)) [
      | none ↦ (true, g)
      | some frame ↦ after_ping (send ctx.live_tx frame g.world) g
    ]

    unfoldable pub inbound_loop :
        List Inbound → Session → Gateway serde ch services → Session × Gateway serde ch services
    inbound_loop [] s g = (s, g)
    inbound_loop (text t ∷ events) s g =
        let (s', g') = handle_client_frame serde ch services app ctx (as_bytes t) s g in
        inbound_loop events s' g'
    inbound_loop (binary b ∷ events) s g =
        let (s', g') = handle_client_frame serde ch services app ctx b s g in
        inbound_loop events s' g'
    inbound_loop (ping_or_pong ∷ events) s g = inbound_loop events s g
    inbound_loop (close ∷ events) s g = (s, g)
    inbound_loop (receive_error ∷ events) s g = (s, g)
    inbound_loop (shutdown ∷ events) s g = (s, g)
    inbound_loop (tick ts ∷ events) s g =
        let (goes_on, g') = send_ping ts g in
        elim goes_on [ true ↦ inbound_loop events s g' | false ↦ (s, g') ]

    abbrev pub delete_all : Text → List Text → Gateway serde ch services → Gateway serde ch services
    delete_all uid [] g = g
    delete_all uid (stream ∷ rest) g =
        delete_all uid rest (record g { state = delete services stream uid g.state })

    -- The presence entries of what is still subscribed are deleted when the loop ends.
    unfoldable pub clean_up : List Text → Gateway serde ch services → Gateway serde ch services
    clean_up heartbeats g = elim ctx.user_id [
      | none ↦ g
      | some uid ↦ elim app.has_presence [ true ↦ delete_all uid heartbeats g | false ↦ g ]
    ]

    abbrev pub serve : List Inbound → Gateway serde ch services → Gateway serde ch services
    serve events g = let (s, g') = inbound_loop events new_session g in clean_up s.heartbeats g'

  abbrev pub context : ℕ → Codec Value → Handles → List Text → Option Text → ConnContext Value
  context conn_id codec handles allowed_streams user_id = record {
    conn_id = conn_id;
    codec = codec;
    live_tx = handles.live_tx;
    replay_tx = handles.replay_tx;
    urgent_close_tx = handles.urgent_close_tx;
    allowed_streams = allowed_streams;
    user_id = user_id;
  }

  -- Identifier, registration and welcome of an accepted connection.
  unfoldable pub enter :
      Codec Value → Bool → Handles → Gateway serde ch services → ℕ × Gateway serde ch services
  enter codec is_binary handles g =
      let (conn_id, r) = allocate_id g.registry in
      (
        conn_id,
        record g {
          registry = register conn_id handles.live_tx is_binary handles.evict_tx r;
          world = send_message serde ch services codec handles.live_tx welcome g.world;
        },
      )

  -- `state.registry.deregister(conn_id)`
  unfoldable pub leave : ℕ → Gateway serde ch services → Gateway serde ch services
  leave conn_id g = record g { registry = deregister conn_id g.registry }

  -- An accepted connection, from its registration to the end of `inbound_loop` and its
  -- deregistration.
  unfoldable pub connected :
      Codec Value
      → Bool
      → Handles
      → List Text
      → Option Text
      → List Inbound
      → Gateway serde ch services
      → Gateway serde ch services
  connected codec is_binary handles allowed_streams user_id events g =
      let (conn_id, g') = enter codec is_binary handles g in
      leave conn_id (serve (context conn_id codec handles allowed_streams user_id) events g')

  module _ (jwt : Jwt) (Ip : Type 0) where
    pub record Node : Type 0 where
      pub limiter : ConnectionLimiter Ip
      pub verifier : Option (JwtVerifier jwt)
      pub gateway : Gateway serde ch services
      pub connections_rejected : ℕ
      pub connections_total : ℕ
      -- The close frames that were sent instead of a connection, the latest first.
      pub refusals : List Refusal

    abbrev pub refuse : Refusal → Node → Node
    refuse why n = record n {
      connections_rejected = n.connections_rejected + 1;
      refusals = why ∷ n.refusals;
    }

    -- An accepted connection, and the slot that it gives back before it awaits its outbound task.
    abbrev pub served :
        ⦃e : KeyEq Ip⦄
        → Codec Value
        → Ip
        → Text
        → Handles
        → List Inbound
        → List Text
        → Option Text
        → Node
        → Node
    served codec ip protocol handles events allowed_streams user_id n = record n {
      limiter = release ip n.limiter;
      gateway =
          connected codec (is_binary_protocol protocol) handles allowed_streams user_id events
            n.gateway;
      connections_total = n.connections_total + 1;
    }

    -- How far `handle_socket` gets by itself: to the panic of `expect`; to its end; or, its senders
    -- dropped, to the await of the outbound task, after which it only returns.
    pub data Course : Type 0 where
      panicked : Course
      returned awaits_outbound : Node → Course

    -- What follows the check of the token.
    unfoldable pub permitted :
        ⦃e : KeyEq Ip⦄ → Permission → Ip → Text → Handles → List Inbound → Node → Course
    permitted (refused why) ip protocol handles events n =
        returned (refuse why (record n { limiter = release ip n.limiter }))
    permitted (granted allowed_streams user_id) ip protocol handles events n =
        elim (codec_for_protocol serde protocol) [
          | none ↦ panicked
          | some codec ↦
              awaits_outbound (served codec ip protocol handles events allowed_streams user_id n)
        ]

    unfoldable pub handle_socket :
        ⦃e : KeyEq Ip⦄ → ℕ → Ip → Text → Option Text → Handles → List Inbound → Node → Course
    handle_socket now ip protocol token handles events n =
        let (acquired, limiter) = try_acquire ip n.limiter in
        elim acquired [
          | false ↦ returned (refuse too_many_connections (record n { limiter = limiter }))
          | true ↦
              permitted (authorize jwt now n.verifier token) ip protocol handles events
                (record n { limiter = limiter })
        ]
