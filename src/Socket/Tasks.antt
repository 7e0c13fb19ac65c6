-- ===== src/Socket/Tasks.antt =====
-- src/connection/handler.rs: pings and the end of `inbound_loop` start no replays.
use turbocable_server.Prelude.{
  ℕ, ◌≡◌, refl, List, [], ◌∷◌, Text, Option-cases, Bool-cases, inl, inr,
}
use turbocable_server.Channel.{Channels}
use turbocable_server.Protocol.{Serde, ping}
use turbocable_server.Presence.{Services}
use turbocable_server.Handler.{AppState, ConnContext, Gateway}
use turbocable_server.Socket.{send_ping, clean_up, delete_all}

module _ (serde : Serde) (ch : Channels) (services : Services) (app : AppState)
    (ctx : ConnContext (Serde.Value serde)) where
  pub send_ping-tasks :
      (ts : ℕ) (g : Gateway serde ch services)
      → (send_ping serde ch services app ctx ts g).1.tasks ≡ g.tasks
  unfolding send_ping
  send_ping-tasks ts g = elim (Option-cases (ctx.codec.encode (ping ts))) [
    | inl e ↦ rw (e, send_ping) refl
    | inr (frame, e) ↦ rw (e, send_ping) refl
  ]

  delete_all-tasks :
      (uid : Text) (streams : List Text) (g : Gateway serde ch services)
      → (delete_all serde ch services app ctx uid streams g).tasks ≡ g.tasks
  delete_all-tasks uid [] g = refl
  delete_all-tasks uid (stream ∷ rest) g = delete_all-tasks uid rest _

  pub clean_up-tasks :
      (streams : List Text) (g : Gateway serde ch services)
      → (clean_up serde ch services app ctx streams g).tasks ≡ g.tasks
  unfolding clean_up
  clean_up-tasks streams g = elim (Option-cases ctx.user_id) [
    | inl e ↦ rw (e, clean_up) refl
    | inr (uid, e) ↦ elim (Bool-cases app.has_presence) [
      | inl e' ↦ rw (e, e', clean_up) (delete_all-tasks uid streams g)
      | inr e' ↦ rw (e, e', clean_up) refl
    ]
  ]
