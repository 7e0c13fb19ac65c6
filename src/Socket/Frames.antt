-- ===== src/Socket/Frames.antt =====
-- src/connection/handler.rs: the frames of one connection, from the first to the last.
use turbocable_server.Prelude.{
  ℕ, ◌≡◌, refl, sym, subst, Bool, true, false, List, [], ◌∷◌, Text, nat_eq, text_eq, Option-cases,
  Bool-cases, inl, inr,
}
use turbocable_server.Text.Utf8.{as_bytes}
use turbocable_server.Channel.{Channels}
use turbocable_server.Protocol.{Serde, ping}
use turbocable_server.Registry.{Registry}
use turbocable_server.Registry.Invariant.{Inv}
use turbocable_server.Presence.{Services}
use turbocable_server.Handler.{AppState, ConnContext, Session, Gateway, handle_client_frame}
use turbocable_server.Handler.Access.{
  Changes, Changes-Inv, Changes-IsAuthorized, IsAuthorized, handle_client_frame-Changes,
}
use turbocable_server.Socket.{
  Inbound, text, binary, ping_or_pong, close, receive_error, shutdown, tick, inbound_loop,
  send_ping, clean_up, new_session, serve, delete_all,
}

module _ (serde : Serde) (ch : Channels) (services : Services) (app : AppState) where
  module _ (ctx : ConnContext (Serde.Value serde)) where
    pub send_ping-registry :
        (ts : ℕ) (g : Gateway serde ch services)
        → (send_ping serde ch services app ctx ts g).1.registry ≡ g.registry
    unfolding send_ping
    send_ping-registry ts g = elim (Option-cases (ctx.codec.encode (ping ts))) [
      | inl e ↦ rw (e, send_ping) refl
      | inr (frame, e) ↦ rw (e, send_ping) refl
    ]

    -- What every change of a frame keeps, the loop keeps.
    module _ (P : Registry → Type 0)
        (keeps : (r r' : Registry) → Changes serde ch services app ctx r r' → P r → P r') where
      inbound_keeps :
          (events : List Inbound) (s : Session) (g : Gateway serde ch services)
          → P g.registry
          → P (inbound_loop serde ch services app ctx events s g).1.registry
      unfolding inbound_loop
      inbound_keeps [] s g h = h
      inbound_keeps (text t ∷ events) s g h =
          let (s', g') = handle_client_frame serde ch services app ctx (as_bytes t) s g in
          inbound_keeps events s' g'
            (keeps _ _ (handle_client_frame-Changes serde ch services app ctx (as_bytes t) s g) h)
      inbound_keeps (binary b ∷ events) s g h =
          let (s', g') = handle_client_frame serde ch services app ctx b s g in
          inbound_keeps events s' g'
            (keeps _ _ (handle_client_frame-Changes serde ch services app ctx b s g) h)
      inbound_keeps (ping_or_pong ∷ events) s g h = inbound_keeps events s g h
      inbound_keeps (close ∷ events) s g h = h
      inbound_keeps (receive_error ∷ events) s g h = h
      inbound_keeps (shutdown ∷ events) s g h = h
      inbound_keeps (tick ts ∷ events) s g h =
          after (inbound_keeps events s) (send_ping serde ch services app ctx ts g)
            (subst P (sym (send_ping-registry ts g)) h)
        where
          after :
              ((g' : Gateway serde ch services)
                → P g'.registry
                → P (inbound_loop serde ch services app ctx events s g').1.registry)
              → (sent : Bool × Gateway serde ch services) → P sent.1.registry
              → P
                  (elim sent.0 as (λ _. Session × Gateway serde ch services) [
                    | true ↦ inbound_loop serde ch services app ctx events s sent.1
                    | false ↦ (s, sent.1)
                  ]).1.registry
          after next (true, g') h' = next g' h'
          after next (false, g') h' = h'

    -- Through all frames of a connection, it stays out of every stream that its token does not allow.
    pub inbound_loop-IsAuthorized :
        (events : List Inbound) (s : Session) (g : Gateway serde ch services)
        → IsAuthorized serde ch services app ctx g.registry
        → IsAuthorized serde ch services app ctx
            (inbound_loop serde ch services app ctx events s g).1.registry
    inbound_loop-IsAuthorized events s g h =
        inbound_keeps (IsAuthorized serde ch services app ctx)
          (Changes-IsAuthorized serde ch services app ctx) events s g h

    delete_all-registry :
        (uid : Text) (streams : List Text) (g : Gateway serde ch services)
        → (delete_all serde ch services app ctx uid streams g).registry ≡ g.registry
    delete_all-registry uid [] g = refl
    delete_all-registry uid (stream ∷ rest) g = delete_all-registry uid rest _

    pub clean_up-registry :
        (streams : List Text) (g : Gateway serde ch services)
        → (clean_up serde ch services app ctx streams g).registry ≡ g.registry
    unfolding clean_up
    clean_up-registry streams g = elim (Option-cases ctx.user_id) [
      | inl e ↦ rw (e, clean_up) refl
      | inr (uid, e) ↦ elim (Bool-cases app.has_presence) [
        | inl e' ↦ rw (e, e', clean_up) (delete_all-registry uid streams g)
        | inr e' ↦ rw (e, e', clean_up) refl
      ]
    ]

    pub serve-Inv :
        (events : List Inbound) (g : Gateway serde ch services)
        → Inv g.registry
        → Inv (serve serde ch services app ctx events g).registry
    serve-Inv events g v =
        subst Inv (sym (clean_up-registry _ _))
          (inbound_keeps Inv (Changes-Inv serde ch services app ctx) events new_session g v)
