-- ===== src/Handler/Tasks.antt =====
-- src/connection/handler.rs: which replays a connection can start.
use turbocable_server.Prelude.{
  ℕ, ◌≡◌, true, not, ◌&&◌, Option, none, some, List, [], ◌∷◌, ◌++◌, Text, Bytes, text_eq,
  Option-cases, Bool-cases, inl, inr,
}
use turbocable_server.Auth.{is_allowed}
use turbocable_server.Config.{rejects_non_replay_subscribe, is_soft_enforce, requires_hello_first}
use turbocable_server.Channel.{Channels}
use turbocable_server.Protocol.{
  Serde, ClientCommand, subscribe, unsubscribe, message, ClientFrame, hello, command,
}
use turbocable_server.Presence.{Services}
use turbocable_server.Handler.{
  ConnectionState, awaiting_hello, active, AppState, ConnContext, Session, ReplayTask, Gateway,
  task_for, announce, replay_or_confirm, accept_subscribe, note_soft, check_allowed,
  handle_subscribe, handle_unsubscribe, handle_message, dispatch_command, handle_hello,
  handle_command, handle_decoded, handle_client_frame, reject_command, count_rejected,
}

module _ (serde : Serde) (ch : Channels) (services : Services) where
  module _ (Q : ReplayTask (Serde.Value serde) → Type 0) where
    abbrev pub AllTasks : List (ReplayTask (Serde.Value serde)) → Type 0
    AllTasks [] = Unit
    AllTasks (task ∷ tasks) = Q task × AllTasks tasks

    snoc-AllTasks :
        (tasks : List (ReplayTask (Serde.Value serde))) (task : ReplayTask (Serde.Value serde))
        → AllTasks tasks
        → Q task
        → AllTasks (tasks ++ task ∷ [])
    snoc-AllTasks [] task h q = (q, tt)
    snoc-AllTasks (t ∷ tasks) task h q = (h.0, snoc-AllTasks tasks task h.1 q)

    module _ (app : AppState) (ctx : ConnContext (Serde.Value serde))
        (asked : (identifier : Text) (seq : ℕ)
          → is_allowed ctx.allowed_streams identifier ≡ true
          → Q (task_for serde ch services app ctx identifier seq)) where
      abbrev Holds : Gateway serde ch services → Type 0
      Holds g = AllTasks g.tasks

      announce-Holds :
          (identifier : Text) (s : Session) (g : Gateway serde ch services)
          → Holds g
          → Holds (announce serde ch services app ctx identifier (s, g)).1
      unfolding announce
      announce-Holds identifier s g h = elim (Option-cases ctx.user_id) [
        | inl e ↦ rw (e, announce) h
        | inr (uid, e) ↦ elim (Bool-cases app.has_presence) [
          | inl e' ↦ rw (e, e', announce) h
          | inr e' ↦ rw (e, e', announce) h
        ]
      ]

      replay_or_confirm-Holds :
          (identifier : Text) (s : Session) (g : Gateway serde ch services)
          → is_allowed ctx.allowed_streams identifier ≡ true
          → Holds g
          → Holds (replay_or_confirm serde ch services app ctx identifier s g)
      unfolding replay_or_confirm
      replay_or_confirm-Holds identifier s g allowed h = elim (Option-cases s.last_seq) [
        | inl e ↦ rw (e, replay_or_confirm) h
        | inr (seq, e) ↦ elim (Bool-cases app.has_nats) [
          | inl e' ↦
              rw (e, e', replay_or_confirm)
                (snoc-AllTasks g.tasks _ h (asked identifier seq allowed))
          | inr e' ↦ rw (e, e', replay_or_confirm) h
        ]
      ]

      check_allowed-Holds :
          (identifier : Text) (s : Session) (g : Gateway serde ch services)
          → Holds g
          → Holds (check_allowed serde ch services app ctx identifier s g).1
      unfolding check_allowed accept_subscribe
      check_allowed-Holds identifier s g h =
          elim (Bool-cases (is_allowed ctx.allowed_streams identifier)) [
            | inl e ↦
                rw e (replay_or_confirm-Holds identifier _ _ e (announce-Holds identifier s _ h))
            | inr e ↦ rw e h
          ]

      note_soft-Holds :
          (s : Session) (g : Gateway serde ch services)
          → Holds g
          → Holds (note_soft serde ch services app ctx s g)
      unfolding note_soft
      note_soft-Holds s g h =
          elim (Bool-cases (is_soft_enforce app.replay_enforcement && not s.replay_capable)) [
            | inl e ↦ rw e h
            | inr e ↦ rw e h
          ]

      handle_subscribe-Holds :
          (identifier : Text) (s : Session) (g : Gateway serde ch services)
          → Holds g
          → Holds (handle_subscribe serde ch services app ctx identifier s g).1
      unfolding handle_subscribe
      handle_subscribe-Holds identifier s g h =
          elim (Bool-cases
            (rejects_non_replay_subscribe app.replay_enforcement && not s.replay_capable)) [
              | inl e ↦ rw e h
              | inr e ↦ rw e (check_allowed-Holds identifier s _ (note_soft-Holds s g h))
            ]

      handle_unsubscribe-Holds :
          (identifier : Text) (s : Session) (g : Gateway serde ch services)
          → Holds g
          → Holds (handle_unsubscribe serde ch services app ctx identifier s g).1
      unfolding handle_unsubscribe
      handle_unsubscribe-Holds identifier s g h = elim (Option-cases ctx.user_id) [
        | inl e ↦ rw (e, handle_unsubscribe) h
        | inr (uid, e) ↦ elim (Bool-cases app.has_presence) [
          | inl e' ↦ rw (e, e', handle_unsubscribe) h
          | inr e' ↦ rw (e, e', handle_unsubscribe) h
        ]
      ]

      dispatch_command-Holds :
          (cmd : ClientCommand) (s : Session) (g : Gateway serde ch services)
          → Holds g
          → Holds (dispatch_command serde ch services app ctx cmd s g).1
      unfolding dispatch_command handle_message
      dispatch_command-Holds (subscribe identifier) s g h = handle_subscribe-Holds identifier s g h
      dispatch_command-Holds (unsubscribe identifier) s g h =
          handle_unsubscribe-Holds identifier s g h
      dispatch_command-Holds (message identifier data_text) s g h = elim (Bool-cases app.has_nats) [
        | inl e ↦ rw e h
        | inr e ↦ rw e h
      ]

      reject_command-Holds :
          (cmd : ClientCommand) (g : Gateway serde ch services)
          → Holds g
          → Holds (reject_command serde ch services app ctx cmd g)
      reject_command-Holds (subscribe _) g h = h
      reject_command-Holds (unsubscribe _) g h = h
      reject_command-Holds (message _ _) g h = h

      handle_command-Holds :
          (state : ConnectionState) (cmd : ClientCommand) (s : Session)
          (g : Gateway serde ch services)
          → Holds g
          → Holds (handle_command serde ch services app ctx state cmd s g).1
      unfolding handle_command
      handle_command-Holds active cmd s g h = dispatch_command-Holds cmd s g h
      handle_command-Holds awaiting_hello cmd s g h =
          elim (Bool-cases (requires_hello_first app.replay_enforcement)) [
            | inl e ↦ rw e (reject_command-Holds cmd (count_rejected serde ch services app ctx g) h)
            | inr e ↦ rw e (dispatch_command-Holds cmd _ _ h)
          ]

      handle_decoded-Holds :
          (frame : Option ClientFrame) (s : Session) (g : Gateway serde ch services)
          → Holds g
          → Holds (handle_decoded serde ch services app ctx frame s g).1
      unfolding handle_decoded handle_hello
      handle_decoded-Holds none s g h = h
      handle_decoded-Holds (some (hello x)) s g h = h
      handle_decoded-Holds (some (command cmd)) s g h = handle_command-Holds s.conn_state cmd s g h

      -- A frame starts no replay but of an identifier that the token allows.
      pub handle_client_frame-AllTasks :
          (bytes : Bytes) (s : Session) (g : Gateway serde ch services)
          → AllTasks g.tasks
          → AllTasks (handle_client_frame serde ch services app ctx bytes s g).1.tasks
      unfolding handle_client_frame
      handle_client_frame-AllTasks bytes s g h = handle_decoded-Holds (ctx.codec.decode bytes) s g h
