-- ===== src/Socket/Life.antt =====
-- src/connection/handler.rs: what is left of a connection when `handle_socket` returns or
-- awaits the outbound task.
use turbocable_server.Prelude.{
  ℕ, ◌≡◌, refl, Bool, true, false, Option, none, List, Text, contains, if◌then◌else◌, KeyEq, eq_iff,
  nat_eq, text_eq, arith, Bool-cases, inl, inr,
}
use turbocable_server.Prelude.Dict.{get}
use turbocable_server.Auth.{Jwt}
use turbocable_server.Limiter.{ConnectionLimiter, try_acquire, release, count_for}
use turbocable_server.Limiter.Held.{try_acquire_lem, release_lem}
use turbocable_server.Channel.{Channels}
use turbocable_server.Protocol.{
  json_codec, msgpack_codec, Serde, Codec, protocol_for, is_binary_protocol,
}
use turbocable_server.Protocol.Negotiation.{codec_for_negotiated}
use turbocable_server.Registry.{subscribers, allocate_id, register}
use turbocable_server.Registry.Invariant.{Inv, allocate_id-Inv, register-Inv}
use turbocable_server.Registry.Departs.{deregister-Inv}
use turbocable_server.Registry.Deregister.{member-deregister, live-deregister}
use turbocable_server.Registry.View.{member_live}
use turbocable_server.Presence.{Services}
use turbocable_server.Handler.{AppState, ConnContext, Gateway}
use turbocable_server.Handler.Access.{IsAuthorized}
use turbocable_server.Socket.{
  Inbound, inbound_loop, new_session, serve, Handles, Node, handle_socket, connected, enter, leave,
  context, authorize, Permission, granted, refused, permitted, Course, panicked, returned,
  awaits_outbound,
}
use turbocable_server.Socket.Frames.{inbound_loop-IsAuthorized, serve-Inv}

module _ (serde : Serde) (ch : Channels) (services : Services) (app : AppState) where
  module _ (codec : Codec (Serde.Value serde)) (is_binary : Bool) (handles : Handles)
      (allowed_streams : List Text) (user_id : Option Text) (g : Gateway serde ch services)
      (v : Inv g.registry) (free : get g.registry.next_id g.registry.connections ≡ none) where
    abbrev entered : ℕ × Gateway serde ch services
    entered = enter serde ch services app codec is_binary handles g

    abbrev here : ConnContext (Serde.Value serde)
    here = context serde ch services app g.registry.next_id codec handles allowed_streams user_id

    enter-Inv : Inv entered.1.registry
    unfolding enter allocate_id
    enter-Inv =
        register-Inv (allocate_id g.registry).1 (allocate_id-Inv g.registry v) g.registry.next_id
          handles.live_tx handles.evict_tx is_binary free

    enter-IsAuthorized : IsAuthorized serde ch services app here entered.1.registry
    unfolding enter allocate_id register
    enter-IsAuthorized stream m =
        ground (arith, member_live g.registry v g.registry.next_id stream, free, m)

    -- A connection that enters a well-formed registry under an identifier that is not in use:
    -- after any events, it is subscribed only to streams that are the key of some identifier
    -- allowed to it.
    pub connected-IsAuthorized :
        (events : List Inbound)
        → IsAuthorized serde ch services app here
            (inbound_loop serde ch services app here events new_session entered.1).1.registry
    connected-IsAuthorized events =
        inbound_loop-IsAuthorized serde ch services app here events new_session entered.1
          enter-IsAuthorized

    abbrev left : List Inbound → Gateway serde ch services
    left events =
        connected serde ch services app codec is_binary handles allowed_streams user_id events g

    -- A connection that entered a well-formed registry under an identifier that was not in use:
    -- when it has ended, after any events, the registry is well formed, the connection is not in
    -- it, and no stream has it as a subscriber.
    pub connected_leaves :
        (events : List Inbound)
        → Inv (left events).registry
          × (get g.registry.next_id (left events).registry.connections ≡ none)
          × ((stream : Text)
              → contains g.registry.next_id (subscribers (left events).registry stream) ≡ false)
    unfolding connected leave enter allocate_id
    connected_leaves events =
        let r = (serve serde ch services app here events entered.1).registry in
        let w : Inv r = serve-Inv serde ch services app here events entered.1 enter-Inv in
        (
          deregister-Inv r w g.registry.next_id,
          ground (arith, live-deregister r w g.registry.next_id g.registry.next_id),
          λ stream.
              ground (arith, member-deregister r w g.registry.next_id g.registry.next_id stream),
        )

  module _ (jwt : Jwt) (Ip : Type 0) ⦃e : KeyEq Ip⦄ where
    -- What a node keeps over one connection, and, behind an accepted one, that it has left.
    abbrev pub Keeps :
        Node serde ch services app jwt Ip → Node serde ch services app jwt Ip → Type 0
    Keeps n n' =
        ((ip : Ip) → count_for ip n'.limiter ≡ count_for ip n.limiter) × Inv n'.gateway.registry

    abbrev pub HasLeft : ℕ → Node serde ch services app jwt Ip → Type 0
    HasLeft c n =
        (get c n.gateway.registry.connections ≡ none)
        × ((stream : Text) → contains c (subscribers n.gateway.registry stream) ≡ false)

    abbrev pub Settles :
        Node serde ch services app jwt Ip → Course serde ch services app jwt Ip → Type 0
    Settles n panicked = false ≡ true
    Settles n (returned n') = Keeps n n' × (n'.gateway ≡ n.gateway)
    Settles n (awaits_outbound n') = Keeps n n' × HasLeft n.gateway.registry.next_id n'

    abbrev pub run :
        ℕ
        → Ip
        → Text
        → Option Text
        → Handles
        → List Inbound
        → Node serde ch services app jwt Ip
        → Course serde ch services app jwt Ip
    run = handle_socket serde ch services app jwt Ip

    returned_slot :
        (ip j : Ip) (l : ConnectionLimiter Ip)
        → (try_acquire ip l).0 ≡ true
        → count_for j (release ip (try_acquire ip l).1) ≡ count_for j l
    returned_slot ip j l acquired = ground (
      arith,
      try_acquire_lem ip j l,
      release_lem ip j (try_acquire ip l).1,
      eq_iff ip j,
      acquired,
    )

    not_taken :
        (ip j : Ip) (l : ConnectionLimiter Ip)
        → (try_acquire ip l).0 ≡ false
        → count_for j (try_acquire ip l).1 ≡ count_for j l
    not_taken ip j l full = ground (arith, try_acquire_lem ip j l, full)

    negotiated : Option Text → Codec (Serde.Value serde)
    negotiated header =
        if is_binary_protocol (protocol_for header) then msgpack_codec serde else json_codec serde

    -- A connection that holds a slot of a node, which had `n` before it took it.
    permitted-Settles :
        (permission : Permission) (ip : Ip) (header : Option Text) (handles : Handles)
        (events : List Inbound) (n : Node serde ch services app jwt Ip)
        → Inv n.gateway.registry
        → get n.gateway.registry.next_id n.gateway.registry.connections ≡ none
        → (try_acquire ip n.limiter).0 ≡ true
        → Settles n (
            permitted serde ch services app jwt Ip permission ip
              (protocol_for header)
              handles
              events
              (record n { limiter = (try_acquire ip n.limiter).1 }))
    unfolding permitted negotiated
    permitted-Settles (refused why) ip header handles events n v free acquired =
        ((λ j. returned_slot ip j n.limiter acquired, v), refl)
    permitted-Settles (granted allowed_streams user_id) ip header handles events n v free acquired =
        let (v', gone, unsubscribed) =
          connected_leaves (negotiated header) (is_binary_protocol (protocol_for header)) handles
            allowed_streams user_id n.gateway v free events in
        rw (codec_for_negotiated serde header, permitted)
          ((λ j. returned_slot ip j n.limiter acquired, v'), (gone, unsubscribed))

    -- A connection whose protocol was negotiated from its header, on a node whose registry is well
    -- formed and whose next identifier is not in use: whatever the time, its token and its events,
    -- `handle_socket` does not panic. Either it refuses the connection and returns, with the
    -- gateway as it was; or it comes to the await of the outbound task, and by then the connection
    -- is neither registered nor a subscriber of any stream. In both cases the limiter counts every
    -- address as before, and the registry is well formed.
    pub handle_socket-Settles :
        (now : ℕ) (ip : Ip) (header token : Option Text) (handles : Handles) (events : List Inbound)
        → (n : Node serde ch services app jwt Ip) → Inv n.gateway.registry
        → get n.gateway.registry.next_id n.gateway.registry.connections ≡ none
        → Settles n (run now ip (protocol_for header) token handles events n)
    unfolding handle_socket
    handle_socket-Settles now ip header token handles events n v free =
        elim (Bool-cases (try_acquire ip n.limiter).0) [
          | inl e ↦
              rw (e, handle_socket)
                (permitted-Settles (authorize jwt now n.verifier token) ip header handles events n v
                  free e)
          | inr e ↦ rw (e, handle_socket) ((λ j. not_taken ip j n.limiter e, v), refl)
        ]
