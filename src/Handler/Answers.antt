-- ===== src/Handler/Answers.antt =====
-- src/connection/handler.rs: the answer to a subscribe command.
use turbocable_server.Prelude.{
  ◌≡◌, ◌⊎◌, inl, inr, refl, ap, ◌∙◌, Bool, true, false, not, ◌&&◌, some, is_some, [], ◌∷◌, ◌++◌,
  Text, Option-cases, Bool-cases, arith,
}
use turbocable_server.Auth.{is_allowed}
use turbocable_server.Config.{rejects_non_replay_subscribe, is_soft_enforce}
use turbocable_server.Channel.{Channels}
use turbocable_server.Protocol.{Serde, confirm_subscription, reject_subscription}
use turbocable_server.Registry as registry
use turbocable_server.Presence.{Services}
use turbocable_server.Handler.{
  AppState, ConnContext, Session, Gateway, ReplayTask, send_message, announce, replay_or_confirm,
  accept_subscribe, note_soft, task_for, stream_key_from_identifier, check_allowed,
  handle_subscribe,
}

module _ (serde : Serde) (ch : Channels) (services : Services) (app : AppState)
    (ctx : ConnContext (Serde.Value serde)) where
  -- The channels after a message on the live channel of the connection.
  abbrev pub answered : Gateway serde ch services → Text → Bool → Channels.World ch
  answered g identifier true =
      send_message serde ch services ctx.codec ctx.live_tx (confirm_subscription identifier) g.world
  answered g identifier false =
      send_message serde ch services ctx.codec ctx.live_tx (reject_subscription identifier) g.world

  -- A frame on the live channel, and no replay task.
  abbrev pub Replies : Text → Bool → Gateway serde ch services → Gateway serde ch services → Type 0
  Replies identifier accepted g g' =
      (g'.world ≡ answered g identifier accepted) × (g'.tasks ≡ g.tasks)

  -- A replay task for the stream from the client's last sequence, and no frame.
  abbrev pub Spawns :
      Text → Session → Gateway serde ch services → Gateway serde ch services → Type 0
  Spawns identifier s g g' =
      (g'.world ≡ g.world)
      × (task : ReplayTask (Serde.Value serde)) × (g'.tasks ≡ g.tasks ++ task ∷ [])
      × (task.task_stream ≡ identifier)
      × (some task.seq ≡ s.last_seq)

  -- Whether the phase and the token let a subscription through.
  abbrev pub passes : Text → Session → Bool
  passes identifier s =
      not (rejects_non_replay_subscribe app.replay_enforcement && not s.replay_capable)
      && is_allowed ctx.allowed_streams identifier

  -- Whether there is something to replay from.
  abbrev pub can_replay : Session → Bool
  can_replay s = is_some s.last_seq && app.has_nats

  abbrev pub Answers :
      Text → Session → Gateway serde ch services → Gateway serde ch services → Type 0
  Answers identifier s g g' =
      ((passes identifier s ≡ false) × Replies identifier false g g')
      ⊎ ((passes identifier s ≡ true) × (can_replay s ≡ false) × Replies identifier true g g')
      ⊎ ((passes identifier s ≡ true) × (can_replay s ≡ true) × Spawns identifier s g g')

  -- What the last step of an accepted subscription does.
  abbrev Accepts : Text → Session → Gateway serde ch services → Gateway serde ch services → Type 0
  Accepts identifier s g g' =
      ((can_replay s ≡ false) × Replies identifier true g g')
      ⊎ ((can_replay s ≡ true) × Spawns identifier s g g')

  replay_or_confirm-Accepts :
      (identifier : Text) (s s' : Session) (g g' : Gateway serde ch services)
      → s'.last_seq ≡ s.last_seq
      → g'.world ≡ g.world
      → g'.tasks ≡ g.tasks
      → Accepts identifier s g (replay_or_confirm serde ch services app ctx identifier s' g')
  unfolding replay_or_confirm
  replay_or_confirm-Accepts identifier s s' g g' last world tasks =
      elim (Option-cases s'.last_seq) [
        | inl e ↦ inl (ground arith, (ground arith, ground arith))
        | inr (seq, e) ↦ elim (Bool-cases app.has_nats) [
          | inl e' ↦ inr (
            ground arith,
            (
              ground arith,
              task_for serde ch services app ctx identifier seq,
              ground arith,
              refl,
              ground arith,
            ),
          )
          | inr e' ↦ inl (ground arith, (ground arith, ground arith))
        ]
      ]

  announce_keeps :
      (identifier : Text) (s : Session) (g : Gateway serde ch services)
      → ((announce serde ch services app ctx identifier (s, g)).0.last_seq ≡ s.last_seq)
        × ((announce serde ch services app ctx identifier (s, g)).1.world ≡ g.world)
        × ((announce serde ch services app ctx identifier (s, g)).1.tasks ≡ g.tasks)
  unfolding announce
  announce_keeps identifier s g = elim (Option-cases ctx.user_id) [
    | inl e ↦ ground arith
    | inr (uid, e) ↦ ground arith
  ]

  note_soft_keeps :
      (s : Session) (g : Gateway serde ch services)
      → ((note_soft serde ch services app ctx s g).world ≡ g.world)
        × ((note_soft serde ch services app ctx s g).tasks ≡ g.tasks)
  unfolding note_soft
  note_soft_keeps s g =
      elim (Bool-cases (is_soft_enforce app.replay_enforcement && not s.replay_capable)) [
        | inl e ↦ rw (e, note_soft) (refl, refl)
        | inr e ↦ rw (e, note_soft) (refl, refl)
      ]

  accept_subscribe-Accepts :
      (identifier : Text) (s : Session) (g g' : Gateway serde ch services)
      → g'.world ≡ g.world
      → g'.tasks ≡ g.tasks
      → Accepts identifier s g (accept_subscribe serde ch services app ctx identifier s g').1
  unfolding accept_subscribe
  accept_subscribe-Accepts identifier s g g' world tasks =
      let g1 : Gateway serde ch services = record g' {
        registry =
            registry.subscribe ctx.conn_id (stream_key_from_identifier serde identifier)
              g'.registry;
      } in
      let (last, world', tasks') = announce_keeps identifier s g1 in
      replay_or_confirm-Accepts identifier s
        (announce serde ch services app ctx identifier (s, g1)).0 g
        (announce serde ch services app ctx identifier (s, g1)).1 last (world' ∙ world)
        (tasks' ∙ tasks)

  answers :
      (identifier : Text) (s : Session) (g g' : Gateway serde ch services)
      → passes identifier s ≡ true
      → Accepts identifier s g g'
      → Answers identifier s g g'
  answers identifier s g g' pass (inl (fresh, replies)) = inr (inl (pass, fresh, replies))
  answers identifier s g g' pass (inr (behind, spawns)) = inr (inr (pass, behind, spawns))

  -- Every subscribe command is answered in exactly one way: by a rejection where the phase or the
  -- token does not let it through; else by a replay task for its stream from the client's last
  -- sequence, if there is one and NATS is there; else by a confirmation. No other frame is sent and
  -- no other task is started.
  pub handle_subscribe-Answers :
      (identifier : Text) (s : Session) (g : Gateway serde ch services)
      → Answers identifier s g (handle_subscribe serde ch services app ctx identifier s g).1
  unfolding handle_subscribe check_allowed
  handle_subscribe-Answers identifier s g =
      elim (Bool-cases
        (rejects_non_replay_subscribe app.replay_enforcement && not s.replay_capable)) [
          | inl e ↦ inl (ground arith, rw (e, handle_subscribe) (refl, refl))
          | inr e ↦ elim (Bool-cases (is_allowed ctx.allowed_streams identifier)) [
            | inl e' ↦
                let (world, tasks) = note_soft_keeps s g in
                answers identifier s g (handle_subscribe serde ch services app ctx identifier s g).1
                  (ground arith)
                  (rw (e, handle_subscribe, check_allowed, e')
                    (accept_subscribe-Accepts identifier s g
                      (note_soft serde ch services app ctx s g) world tasks))
            | inr e' ↦
                let (world, tasks) = note_soft_keeps s g in
                inl (
                  ground arith,
                  rw (e, handle_subscribe, check_allowed, e')
                      (
                        ap
                            (λ w.
                              send_message serde ch services ctx.codec ctx.live_tx
                                (reject_subscription identifier) w)
                            world,
                        tasks,
                      ),
                )
          ]
        ]
