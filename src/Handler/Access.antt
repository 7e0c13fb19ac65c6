-- ===== src/Handler/Access.antt =====
-- src/connection/handler.rs: which streams a connection can get into.
use turbocable_server.Prelude.{
  ℕ, ◌≡◌, ◌⊎◌, inl, inr, refl, sym, subst, ◌∙◌, true, not, ◌&&◌, Option, none, some, [], ◌∷◌, Text,
  Bytes, contains, contains-append, contains-retain_ne, eq_iff, ◌==◌, nat_eq, text_eq, arith,
  Option-cases, Bool-cases,
}
use turbocable_server.Prelude.Dict.{get}
use turbocable_server.Auth.{is_allowed}
use turbocable_server.Config.{rejects_non_replay_subscribe, is_soft_enforce, requires_hello_first}
use turbocable_server.Channel.{Channels}
use turbocable_server.Protocol.{
  Serde, ClientCommand, subscribe, unsubscribe, message, ClientFrame, hello, command,
}
use turbocable_server.Registry.{Registry, subscribers, forget_stream, remove_subscriber_from_stream}
use turbocable_server.Registry as registry
use turbocable_server.Registry.Streams.{get-push_subscriber, subscribers-remove_subscriber}
use turbocable_server.Registry.Invariant.{Inv}
use turbocable_server.Registry.Joins.{subscribe-Inv, unsubscribe-Inv}
use turbocable_server.Presence.{Services}
use turbocable_server.Handler.{
  ConnectionState, awaiting_hello, active, AppState, ConnContext, Session, Gateway,
  stream_key_from_identifier, announce, replay_or_confirm, accept_subscribe, note_soft,
  check_allowed, handle_subscribe, handle_unsubscribe, handle_message, dispatch_command,
  handle_hello, handle_command, handle_decoded, handle_client_frame, reject_command, count_rejected,
}

-- A subscription adds nobody but the caller to the stream it names.
pub member-subscribe :
    (c d : ℕ) (s t : Text) (r : Registry)
    → contains d (subscribers (registry.subscribe c s r) t) ≡ true
    → (contains d (subscribers r t) ≡ true) ⊎ (s ≡ t)
unfolding registry.subscribe contains
member-subscribe c d s t r h = elim (Bool-cases (s == t)) [
  | inl e ↦ inr (ground (arith, eq_iff s t))
  | inr e ↦ elim (Option-cases (get c r.conn_streams)) [
    | inl e' ↦ inl (ground arith)
    | inr (names, e') ↦ inl (
        ground (
          arith,
          get-push_subscriber s t c r.streams,
          contains-append d (subscribers r t) (c ∷ []),
        ))
  ]
]

pub member-unsubscribe :
    (c d : ℕ) (s t : Text) (r : Registry)
    → contains d (subscribers (registry.unsubscribe c s r) t) ≡ true
    → contains d (subscribers r t) ≡ true
unfolding registry.unsubscribe forget_stream contains
member-unsubscribe c d s t r h = ground (
  arith,
  subscribers-remove_subscriber s c r t,
  contains-retain_ne c d (subscribers r t),
  Option-cases (get c (remove_subscriber_from_stream s c r).conn_streams),
)

module _ (serde : Serde) (ch : Channels) (services : Services) (app : AppState)
    (ctx : ConnContext (Serde.Value serde)) where
  -- What a frame may do to the registry: nothing, one subscription that the token allows, or the end
  -- of a subscription.
  pub data Changes : Registry → Registry → Type 0 where
    same : (r r' : Registry) → r' ≡ r → Changes r r'
    joins :
        (identifier : Text) (r r' : Registry)
        → is_allowed ctx.allowed_streams identifier ≡ true
        → r' ≡ registry.subscribe ctx.conn_id (stream_key_from_identifier serde identifier) r
        → Changes r r'
    leaves :
        (identifier : Text) (r r' : Registry)
        → r' ≡ registry.unsubscribe ctx.conn_id (stream_key_from_identifier serde identifier) r
        → Changes r r'

  -- The connection is in no stream but those whose identifiers its token allows.
  abbrev pub IsAuthorized : Registry → Type 0
  IsAuthorized r =
      (stream : Text)
      → contains ctx.conn_id (subscribers r stream) ≡ true
      → (identifier : Text) × (is_allowed ctx.allowed_streams identifier ≡ true)
        × (stream_key_from_identifier serde identifier ≡ stream)

  announce-registry :
      (identifier : Text) (s : Session) (g : Gateway serde ch services)
      → (announce serde ch services app ctx identifier (s, g)).1.registry ≡ g.registry
  unfolding announce
  announce-registry identifier s g = elim (Option-cases ctx.user_id) [
    | inl e ↦ ground arith
    | inr (uid, e) ↦ ground arith
  ]

  replay_or_confirm-registry :
      (identifier : Text) (s : Session) (g : Gateway serde ch services)
      → (replay_or_confirm serde ch services app ctx identifier s g).registry ≡ g.registry
  unfolding replay_or_confirm
  replay_or_confirm-registry identifier s g = elim (Option-cases s.last_seq) [
    | inl e ↦ ground arith
    | inr (seq, e) ↦ ground arith
  ]

  accept_subscribe-registry :
      (identifier : Text) (s : Session) (g : Gateway serde ch services)
      → (accept_subscribe serde ch services app ctx identifier s g).1.registry
        ≡ registry.subscribe ctx.conn_id (stream_key_from_identifier serde identifier) g.registry
  unfolding accept_subscribe
  accept_subscribe-registry identifier s g =
      replay_or_confirm-registry identifier _ _ ∙ announce-registry identifier s _

  note_soft-registry :
      (s : Session) (g : Gateway serde ch services)
      → (note_soft serde ch services app ctx s g).registry ≡ g.registry
  unfolding note_soft
  note_soft-registry s g =
      elim (Bool-cases (is_soft_enforce app.replay_enforcement && not s.replay_capable)) [
        | inl e ↦ rw e refl
        | inr e ↦ rw e refl
      ]

  check_allowed-Changes :
      (identifier : Text) (s : Session) (g : Gateway serde ch services)
      → Changes g.registry (check_allowed serde ch services app ctx identifier s g).1.registry
  unfolding check_allowed
  check_allowed-Changes identifier s g =
      elim (Bool-cases (is_allowed ctx.allowed_streams identifier)) [
        | inl e ↦ joins identifier _ _ e (rw e (accept_subscribe-registry identifier s g))
        | inr e ↦ same _ _ (rw e refl)
      ]

  handle_subscribe-Changes :
      (identifier : Text) (s : Session) (g : Gateway serde ch services)
      → Changes g.registry (handle_subscribe serde ch services app ctx identifier s g).1.registry
  unfolding handle_subscribe
  handle_subscribe-Changes identifier s g =
      elim (Bool-cases
        (rejects_non_replay_subscribe app.replay_enforcement && not s.replay_capable)) [
          | inl e ↦ same _ _ (rw e refl)
          | inr e ↦ rw e (
              subst
                (λ r.
                  Changes r
                    (check_allowed serde ch services app ctx identifier s
                      (note_soft serde ch services app ctx s g)).1.registry)
                (note_soft-registry s g)
                (check_allowed-Changes identifier s (note_soft serde ch services app ctx s g)))
        ]

  handle_unsubscribe-registry :
      (identifier : Text) (s : Session) (g : Gateway serde ch services)
      → (handle_unsubscribe serde ch services app ctx identifier s g).1.registry
        ≡ registry.unsubscribe ctx.conn_id (stream_key_from_identifier serde identifier) g.registry
  unfolding handle_unsubscribe
  handle_unsubscribe-registry identifier s g = elim (Option-cases ctx.user_id) [
    | inl e ↦ ground arith
    | inr (uid, e) ↦ ground arith
  ]

  handle_message-registry :
      (identifier data_text : Text) (s : Session) (g : Gateway serde ch services)
      → (handle_message serde ch services app ctx identifier data_text s g).1.registry ≡ g.registry
  unfolding handle_message
  handle_message-registry identifier data_text s g = elim (Bool-cases app.has_nats) [
    | inl e ↦ rw e refl
    | inr e ↦ rw e refl
  ]

  dispatch_command-Changes :
      (cmd : ClientCommand) (s : Session) (g : Gateway serde ch services)
      → Changes g.registry (dispatch_command serde ch services app ctx cmd s g).1.registry
  unfolding dispatch_command
  dispatch_command-Changes (subscribe identifier) s g = handle_subscribe-Changes identifier s g
  dispatch_command-Changes (unsubscribe identifier) s g =
      leaves identifier _ _ (handle_unsubscribe-registry identifier s g)
  dispatch_command-Changes (message identifier data_text) s g =
      same _ _ (handle_message-registry identifier data_text s g)

  reject_command-registry :
      (cmd : ClientCommand) (g : Gateway serde ch services)
      → (reject_command serde ch services app ctx cmd g).registry ≡ g.registry
  reject_command-registry (subscribe _) g = refl
  reject_command-registry (unsubscribe _) g = refl
  reject_command-registry (message _ _) g = refl

  handle_command-Changes :
      (state : ConnectionState) (cmd : ClientCommand) (s : Session) (g : Gateway serde ch services)
      → Changes g.registry (handle_command serde ch services app ctx state cmd s g).1.registry
  unfolding handle_command
  handle_command-Changes active cmd s g = dispatch_command-Changes cmd s g
  handle_command-Changes awaiting_hello cmd s g =
      elim (Bool-cases (requires_hello_first app.replay_enforcement)) [
        | inl e ↦
            same _ _
              (rw e (reject_command-registry cmd (count_rejected serde ch services app ctx g)))
        | inr e ↦ rw e (dispatch_command-Changes cmd _ _)
      ]

  handle_decoded-Changes :
      (frame : Option ClientFrame) (s : Session) (g : Gateway serde ch services)
      → Changes g.registry (handle_decoded serde ch services app ctx frame s g).1.registry
  unfolding handle_decoded handle_hello
  handle_decoded-Changes none s g = same _ _ refl
  handle_decoded-Changes (some (hello x)) s g = same _ _ refl
  handle_decoded-Changes (some (command cmd)) s g = handle_command-Changes s.conn_state cmd s g

  pub handle_client_frame-Changes :
      (bytes : Bytes) (s : Session) (g : Gateway serde ch services)
      → Changes g.registry (handle_client_frame serde ch services app ctx bytes s g).1.registry
  unfolding handle_client_frame
  handle_client_frame-Changes bytes s g = handle_decoded-Changes (ctx.codec.decode bytes) s g

  pub Changes-IsAuthorized : (r r' : Registry) → Changes r r' → IsAuthorized r → IsAuthorized r'
  Changes-IsAuthorized _ _ (same r r' e) h = subst IsAuthorized (sym e) h
  Changes-IsAuthorized _ _ (joins identifier r r' allowed e) h =
      subst IsAuthorized (sym e) (λ stream m.
        elim (member-subscribe ctx.conn_id ctx.conn_id (stream_key_from_identifier serde identifier)
          stream r m) [ inl before ↦ h stream before | inr at_key ↦ (identifier, allowed, at_key) ])
  Changes-IsAuthorized _ _ (leaves identifier r r' e) h = subst IsAuthorized (sym e) (λ stream m.
      h stream (
        member-unsubscribe ctx.conn_id ctx.conn_id (stream_key_from_identifier serde identifier)
          stream r m))

  pub Changes-Inv : (r r' : Registry) → Changes r r' → Inv r → Inv r'
  Changes-Inv _ _ (same r r' e) v = subst Inv (sym e) v
  Changes-Inv _ _ (joins identifier r r' allowed e) v =
      subst Inv (sym e)
        (subscribe-Inv r v ctx.conn_id (stream_key_from_identifier serde identifier))
  Changes-Inv _ _ (leaves identifier r r' e) v =
      subst Inv (sym e)
        (unsubscribe-Inv r v ctx.conn_id (stream_key_from_identifier serde identifier))
