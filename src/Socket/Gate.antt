-- ===== src/Socket/Gate.antt =====
-- src/connection/handler.rs: the handshake comes first, in the enforcing phases.
use turbocable_server.Prelude.{
  ℕ, ◌≡◌, refl, ap, ◌∙◌, Bool, true, false, Option, none, some, List, [], ◌∷◌, Option-cases, inl,
  inr,
}
use turbocable_server.Text.Utf8.{as_bytes}
use turbocable_server.Channel.{Channels}
use turbocable_server.Config.{requires_hello_first}
use turbocable_server.Protocol.{
  Serde, ClientFrame, hello, command, ClientCommand, subscribe, unsubscribe, message, ping,
}
use turbocable_server.Presence.{Services}
use turbocable_server.Handler.{
  AppState, ConnContext, Session, Gateway, awaiting_hello, handle_client_frame, handle_decoded,
  handle_command, reject_command, count_rejected,
}
use turbocable_server.Socket.{
  Inbound, text, binary, ping_or_pong, close, receive_error, shutdown, tick, inbound_loop,
  send_ping,
}

module _ (serde : Serde) (ch : Channels) (services : Services) (app : AppState)
    (ctx : ConnContext (Serde.Value serde)) where
  -- A frame that is no hello.
  abbrev pub IsNoHello : Option ClientFrame → Type 0
  IsNoHello none = Unit
  IsNoHello (some (hello _)) = ⊥
  IsNoHello (some (command _)) = Unit

  -- No event carries a hello.
  abbrev pub HasNoHello : List Inbound → Type 0
  HasNoHello [] = Unit
  HasNoHello (text t ∷ events) = IsNoHello (ctx.codec.decode (as_bytes t)) × HasNoHello events
  HasNoHello (binary b ∷ events) = IsNoHello (ctx.codec.decode b) × HasNoHello events
  HasNoHello (ping_or_pong ∷ events) = HasNoHello events
  HasNoHello (close ∷ events) = HasNoHello events
  HasNoHello (receive_error ∷ events) = HasNoHello events
  HasNoHello (shutdown ∷ events) = HasNoHello events
  HasNoHello (tick _ ∷ events) = HasNoHello events

  -- Registry, NATS and the replay tasks are as before; channels and counters may differ.
  abbrev pub Untouched : Gateway serde ch services → Gateway serde ch services → Type 0
  Untouched g g' = (g'.registry ≡ g.registry) × (g'.state ≡ g.state) × (g'.tasks ≡ g.tasks)

  Untouched-trans :
      (a b c : Gateway serde ch services) → Untouched a b → Untouched b c → Untouched a c
  Untouched-trans a b c (p, q, r) (p', q', r') = (p' ∙ p, q' ∙ q, r' ∙ r)

  reject_command-Untouched :
      (cmd : ClientCommand) (g : Gateway serde ch services)
      → Untouched g (
          reject_command serde ch services app ctx cmd (count_rejected serde ch services app ctx g))
  reject_command-Untouched (subscribe _) g = (refl, refl, refl)
  reject_command-Untouched (unsubscribe _) g = (refl, refl, refl)
  reject_command-Untouched (message _ _) g = (refl, refl, refl)

  send_ping-Untouched :
      (ts : ℕ) (g : Gateway serde ch services)
      → Untouched g (send_ping serde ch services app ctx ts g).1
  unfolding send_ping
  send_ping-Untouched ts g = elim (Option-cases (ctx.codec.encode (ping ts))) [
    | inl e ↦ rw (e, send_ping) (refl, refl, refl)
    | inr (frame, e) ↦ rw (e, send_ping) (refl, refl, refl)
  ]

  module _ (enforced : requires_hello_first app.replay_enforcement ≡ true) where
    -- What a step leaves of the session and of the node.
    abbrev pub Waits :
        Session → Gateway serde ch services → Session × Gateway serde ch services → Type 0
    Waits s g result = (result.0 ≡ s) × Untouched g result.1

    handle_decoded-Waits :
        (frame : Option ClientFrame) (s : Session) (g : Gateway serde ch services)
        → IsNoHello frame
        → s.conn_state ≡ awaiting_hello
        → Waits s g (handle_decoded serde ch services app ctx frame s g)
    unfolding handle_decoded handle_command
    handle_decoded-Waits none s g quiet waiting = (refl, (refl, refl, refl))
    handle_decoded-Waits (some (hello _)) s g quiet waiting = elim quiet [ ]
    handle_decoded-Waits (some (command cmd)) s g quiet waiting =
        rw (waiting, handle_decoded, handle_command, enforced)
          (refl, reject_command-Untouched cmd g)

    -- The rest of the events, after a step that waits.
    Rest : List Inbound → Type 0
    Rest events =
        (s : Session) (g : Gateway serde ch services)
        → HasNoHello events
        → s.conn_state ≡ awaiting_hello
        → Waits s g (inbound_loop serde ch services app ctx events s g)

    then-Waits :
        (events : List Inbound) (s : Session) (g : Gateway serde ch services)
        → (step : Session × Gateway serde ch services) → Rest events
        → Waits s g step
        → HasNoHello events
        → s.conn_state ≡ awaiting_hello
        → Waits s g (inbound_loop serde ch services app ctx events step.0 step.1)
    unfolding Rest
    then-Waits events s g step ih (session, before) quiet waiting =
        let (session', after) = ih step.0 step.1 quiet (ap (λ z. z.conn_state) session ∙ waiting) in
        (
          session' ∙ session,
          Untouched-trans g step.1 (inbound_loop serde ch services app ctx events step.0 step.1).1
              before after,
        )

    ping-Waits :
        (events : List Inbound) (s : Session) (g : Gateway serde ch services)
        → (sent : Bool × Gateway serde ch services) → Untouched g sent.1
        → Rest events
        → HasNoHello events
        → s.conn_state ≡ awaiting_hello
        → Waits s g (elim sent.0 as (λ _. Session × Gateway serde ch services) [
          | true ↦ inbound_loop serde ch services app ctx events s sent.1
          | false ↦ (s, sent.1)
        ])
    ping-Waits events s g (true, g') before ih quiet waiting =
        then-Waits events s g (s, g') ih (refl, before) quiet waiting
    ping-Waits events s g (false, g') before ih quiet waiting = (refl, before)

    -- In a phase that requires a hello first, from a session that awaits it, and through any
    -- events of which none is a hello: the session stays as it is, and so do the registry, what
    -- was written to NATS and the replay tasks.
    pub inbound_loop-Waits :
        (events : List Inbound) (s : Session) (g : Gateway serde ch services)
        → HasNoHello events
        → s.conn_state ≡ awaiting_hello
        → Waits s g (inbound_loop serde ch services app ctx events s g)
    unfolding inbound_loop handle_client_frame Rest
    inbound_loop-Waits [] s g quiet waiting = (refl, (refl, refl, refl))
    inbound_loop-Waits (text t ∷ events) s g (quiet, rest) waiting =
        then-Waits events s g (handle_client_frame serde ch services app ctx (as_bytes t) s g)
          (inbound_loop-Waits events)
          (handle_decoded-Waits (ctx.codec.decode (as_bytes t)) s g quiet waiting) rest waiting
    inbound_loop-Waits (binary b ∷ events) s g (quiet, rest) waiting =
        then-Waits events s g (handle_client_frame serde ch services app ctx b s g)
          (inbound_loop-Waits events) (handle_decoded-Waits (ctx.codec.decode b) s g quiet waiting)
          rest waiting
    inbound_loop-Waits (ping_or_pong ∷ events) s g quiet waiting =
        inbound_loop-Waits events s g quiet waiting
    inbound_loop-Waits (close ∷ events) s g quiet waiting = (refl, (refl, refl, refl))
    inbound_loop-Waits (receive_error ∷ events) s g quiet waiting = (refl, (refl, refl, refl))
    inbound_loop-Waits (shutdown ∷ events) s g quiet waiting = (refl, (refl, refl, refl))
    inbound_loop-Waits (tick ts ∷ events) s g quiet waiting =
        ping-Waits events s g (send_ping serde ch services app ctx ts g) (send_ping-Untouched ts g)
          (inbound_loop-Waits events) quiet waiting
