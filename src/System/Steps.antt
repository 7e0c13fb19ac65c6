-- ===== src/System/Steps.antt =====
-- Each step of the node keeps its state sound.
use turbocable_server.Prelude.{
  ℕ, ◌+◌, ◌≤◌, ◌<◌, ◌≡◌, ap, refl, sym, subst, Bool, true, false, Option, some, List, Text, Bytes,
  ◌==◌, KeyEq, nat_eq, text_eq, arith, Option-cases, Bool-cases, inl, inr,
}
use turbocable_server.Prelude.Dict.{get}
use turbocable_server.Auth.{Jwt}
use turbocable_server.Limiter.{try_acquire}
use turbocable_server.Channel.{Channels}
use turbocable_server.Protocol.{Serde, Codec, protocol_for, is_binary_protocol}
use turbocable_server.Protocol.Negotiation.{codec_for_negotiated}
use turbocable_server.Presence.{Services}
use turbocable_server.RateLimiter.{F64}
use turbocable_server.Registry.{Registry, u64_mod, allocate_id, register, deregister}
use turbocable_server.Nats.{NatsMessage}
use turbocable_server.Handler.{AppState, Gateway, handle_client_frame}
use turbocable_server.Handler.Access.{Changes-IsAuthorized, handle_client_frame-Changes}
use turbocable_server.Socket.{
  Handles, Permission, granted, refused, authorize, enter, leave, send_ping, clean_up,
}
use turbocable_server.Socket.Frames.{send_ping-registry, clean_up-registry}
use turbocable_server.System.{
  Move, opens, frame, pings, ends, arrives, rotates, rotate, Conn, System, with_gateway, admit,
  run_frame, deliver_message, permit, accept, run_end, after_ping, run_ping, of_running, step,
}
use turbocable_server.System.Evolves.{
  Evolves, nobody, process-Evolves, Changes-Evolves, deregister-Evolves,
}
use turbocable_server.System.Sound.{IsSound, evolve-IsSound, frame-IsSound, end-IsSound}
use turbocable_server.System.Accept.{full-IsSound, denied-IsSound, enter-IsSound}

module _ (serde : Serde) (f : F64) (ch : Channels) (services : Services) (app : AppState)
    (jwt : Jwt) (Ip : Type 0) ⦃e : KeyEq Ip⦄ where
  abbrev pub Node : Type 0
  Node = System serde f ch services app jwt Ip

  abbrev pub Sound : Node → Type 0
  Sound s = IsSound serde f ch services app jwt Ip s.node.gateway.registry s.node.limiter s.running

  abbrev pub next_of : Node → ℕ
  next_of s = s.node.gateway.registry.next_id

  -- What a step does: it keeps the node sound, and gives out at most one identifier.
  abbrev pub Steps : Node → Node → Type 0
  Steps s s' = Sound s' × (next_of s' ≤ next_of s + 1)

  run_end-Steps :
      (c : ℕ) (conn : Conn serde f ch services app jwt Ip) (s : Node)
      → Sound s
      → get c s.running ≡ some conn
      → Steps s (run_end serde f ch services app jwt Ip c conn s)
  unfolding run_end leave
  run_end-Steps c conn s v here =
      let r = s.node.gateway.registry in
      let cleaned : (clean_up serde ch services app conn.ctx conn.session.heartbeats
            s.node.gateway).registry
          ≡ r =
        clean_up-registry serde ch services app conn.ctx conn.session.heartbeats s.node.gateway in
      let gone : Evolves nobody r (deregister conn.ctx.conn_id r) =
        deregister-Evolves conn.ctx.conn_id r v.well_formed in
      rw cleaned (
        end-IsSound serde f ch services app jwt Ip r s.node.limiter s.running v c conn here,
        omega (arith, gone.next),
      )

  run_frame-Steps :
      (bytes : Bytes) (c : ℕ) (conn : Conn serde f ch services app jwt Ip) (s : Node)
      → Sound s
      → get c s.running ≡ some conn
      → Steps s (run_frame serde f ch services app jwt Ip bytes c conn s)
  unfolding run_frame
  run_frame-Steps bytes c conn s v here =
      let r = s.node.gateway.registry in
      let after =
        handle_client_frame serde ch services app conn.ctx bytes conn.session s.node.gateway in
      let change =
        handle_client_frame-Changes serde ch services app conn.ctx bytes conn.session
          s.node.gateway in
      let w : Evolves (λ d. c == d) r after.1.registry =
        subst (λ k. Evolves (λ d. k == d) r after.1.registry) (v.keyed c conn here)
          (Changes-Evolves serde ch services app conn.ctx r after.1.registry change
            v.well_formed) in
      (
        frame-IsSound serde f ch services app jwt Ip r s.node.limiter s.running v c conn here
            after.0 after.1.registry w
            (Changes-IsAuthorized serde ch services app conn.ctx r after.1.registry change
              (v.authorized c conn here)),
        omega (arith, w.next),
      )

  run_ping-Steps :
      (ts c : ℕ) (conn : Conn serde f ch services app jwt Ip) (s : Node)
      → Sound s
      → get c s.running ≡ some conn
      → Steps s (run_ping serde f ch services app jwt Ip ts c conn s)
  unfolding run_ping
  run_ping-Steps ts c conn s v here =
      pinged (send_ping serde ch services app conn.ctx ts s.node.gateway)
        (send_ping-registry serde ch services app conn.ctx ts s.node.gateway)
    where
      pinged :
          (sent : Bool × Gateway serde ch services)
          → sent.1.registry ≡ s.node.gateway.registry
          → Steps s (after_ping serde f ch services app jwt Ip c conn sent s)
      pinged (true, g) kept = rw kept (v, omega arith)
      pinged (false, g) kept =
          let (sound, bound) =
            run_end-Steps c conn (with_gateway serde f ch services app jwt Ip g s)
              (subst (λ q. IsSound serde f ch services app jwt Ip q s.node.limiter s.running)
                (sym kept) v)
              here in
          (sound, omega (arith, bound, ap (λ (q : Registry). q.next_id) kept))

  -- The node while a connection that got a slot is checked.
  abbrev acquired : Ip → Node → Node
  acquired ip s = record s { node = record s.node { limiter = (try_acquire ip s.node.limiter).1 } }

  admit-Steps :
      (codec : Codec (Serde.Value serde)) (ip : Ip) (protocol : Text) (handles : Handles)
      (allowed_streams : List Text) (user_id : Option Text) (s : Node)
      → Sound s
      → next_of s + 1 < u64_mod
      → (try_acquire ip s.node.limiter).0 ≡ true
      → Steps s (
          admit serde f ch services app jwt Ip codec ip protocol handles allowed_streams user_id
            (acquired ip s))
  unfolding admit enter allocate_id register
  admit-Steps codec ip protocol handles allowed_streams user_id s v room slot = (
    enter-IsSound serde f ch services app jwt Ip s.node.gateway.registry s.node.limiter s.running v
        _ refl room slot handles.live_tx handles.evict_tx (is_binary_protocol protocol),
    omega arith,
  )

  permit-Steps :
      (permission : Permission) (ip : Ip) (header : Option Text) (handles : Handles) (s : Node)
      → Sound s
      → next_of s + 1 < u64_mod
      → (try_acquire ip s.node.limiter).0 ≡ true
      → Steps s (
          permit serde f ch services app jwt Ip permission ip
            (protocol_for header)
            handles
            (acquired ip s))
  unfolding permit
  permit-Steps (refused why) ip header handles s v room slot = (
    denied-IsSound serde f ch services app jwt Ip s.node.gateway.registry s.node.limiter s.running v
        ip slot,
    omega arith,
  )
  permit-Steps (granted allowed_streams user_id) ip header handles s v room slot =
      rw (codec_for_negotiated serde header, permit)
        (admit-Steps _ ip (protocol_for header) handles allowed_streams user_id s v room slot)

  accept-Steps :
      (now : ℕ) (ip : Ip) (header token : Option Text) (handles : Handles) (s : Node)
      → Sound s
      → next_of s + 1 < u64_mod
      → Steps s (accept serde f ch services app jwt Ip now ip (protocol_for header) token handles s)
  unfolding accept
  accept-Steps now ip header token handles s v room =
      elim (Bool-cases (try_acquire ip s.node.limiter).0) [
        | inl slot ↦
            rw (slot, accept)
              (permit-Steps (authorize jwt now s.node.verifier token) ip header handles s v room
                slot)
        | inr no_slot ↦
            rw (no_slot, accept)
              (
                full-IsSound serde f ch services app jwt Ip s.node.gateway.registry s.node.limiter
                    s.running v ip no_slot,
                omega arith,
              )
      ]

  deliver_message-Steps :
      (now : ℕ) (msg : NatsMessage) (s : Node)
      → Sound s
      → Steps s (deliver_message serde f ch services app jwt Ip now msg s)
  unfolding deliver_message
  deliver_message-Steps now msg s v =
      let r = s.node.gateway.registry in
      let w =
        process-Evolves serde f ch now msg
          (record s.consumer { registry = r; world = s.node.gateway.world }) v.well_formed in
      (
        evolve-IsSound serde f ch services app jwt Ip r s.node.limiter s.running v _ w,
        omega (arith, w.next),
      )

  of_running-Steps :
      (c : ℕ) (act : Conn serde f ch services app jwt Ip → Node → Node) (s : Node)
      → Sound s
      → ((conn : Conn serde f ch services app jwt Ip)
          → get c s.running ≡ some conn
          → Steps s (act conn s))
      → Steps s (of_running serde f ch services app jwt Ip c act s)
  of_running-Steps c act s v acts = elim (Option-cases (get c s.running)) [
    | inl gone ↦ rw (gone, of_running) (v, omega arith)
    | inr (conn, here) ↦ rw (here, of_running) (acts conn here)
  ]

  pub step-Steps :
      (move : Move Ip) (s : Node)
      → Sound s
      → next_of s + 1 < u64_mod
      → Steps s (step serde f ch services app jwt Ip move s)
  unfolding step rotate
  step-Steps (opens now ip header token handles) s v room =
      accept-Steps now ip header token handles s v room
  step-Steps (frame c bytes) s v room =
      of_running-Steps c (run_frame serde f ch services app jwt Ip bytes c) s v
        (λ conn. run_frame-Steps bytes c conn s v)
  step-Steps (pings c ts) s v room =
      of_running-Steps c (run_ping serde f ch services app jwt Ip ts c) s v
        (λ conn. run_ping-Steps ts c conn s v)
  step-Steps (ends c) s v room =
      of_running-Steps c (run_end serde f ch services app jwt Ip c) s v
        (λ conn. run_end-Steps c conn s v)
  step-Steps (arrives now msg) s v room = deliver_message-Steps now msg s v
  step-Steps (rotates item) s v room = (v, omega arith)
