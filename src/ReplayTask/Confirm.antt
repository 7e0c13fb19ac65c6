-- ===== src/ReplayTask/Confirm.antt =====
-- src/connection/handler.rs: the end of a replay task, and its counters.
use turbocable_server.Prelude.{
  ℕ, ◌+◌, ◌-◌, ◌≡◌, ◌≢◌, none, codes, if◌then◌else◌, refl, sym, ◌∙◌, true, some, List, [], ◌∷◌,
  ◌++◌, Bytes, eq_iff, eq_refl, nat_eq, arith, Option-cases, Bool-cases, inl, inr,
}
use mathlib.Core.List.{append-nil}
use turbocable_server.Channel.{Channels}
use turbocable_server.Protocol.{Serde, Codec, ServerMessage, confirm_subscription}
use turbocable_server.Presence.{Services}
use turbocable_server.Handler.{ReplayTask, send_message}
use turbocable_server.Replay.{
  Source, replay_since, ReplayResult, ok, err, window_exceeded, truncated, jet_stream,
}
use turbocable_server.Replay.Outcome.{Delivers, fetches_of, replay_since-Delivers}
use turbocable_server.ReplayTask.{
  ReplayMetrics, count_result, answer, run_replay_task, disconnect_for,
}

-- The five counters of the results.
abbrev pub results : ReplayMetrics → ℕ
results m =
    m.replay_aborted_peer_gone_total + m.replay_success_total + m.replay_window_exceeded_total
    + m.replay_truncated_total + m.replay_failure_total

count_result-results :
    (result : ReplayResult) (m : ReplayMetrics)
    → (results (count_result result m) ≡ results m + 1)
      × ((count_result result m).replay_catch_up_observations ≡ m.replay_catch_up_observations + 1)
      × ((count_result result m).replay_in_flight ≡ m.replay_in_flight)
unfolding count_result
count_result-results (ok d) m = elim (Bool-cases d.peer_gone) [
  | inl e ↦ elim (Option-cases d.first_delivery_elapsed) [
    | inl e' ↦ ground arith
    | inr (t, e') ↦ ground arith
  ]
  | inr e ↦ elim (Option-cases d.first_delivery_elapsed) [
    | inl e' ↦ ground arith
    | inr (t, e') ↦ ground arith
  ]
]
count_result-results (err (window_exceeded _ _)) m = ground arith
count_result-results (err (truncated _ _)) m = ground arith
count_result-results (err jet_stream) m = ground arith

module _ (serde : Serde) (ch : Channels) (services : Services) where
  open serde use {Value}
  open ch use {World, send, queued, queued-send}

  -- A replay task with a permit adds one to the sum of the five result counters and one to the
  -- observed durations, and leaves the gauge of running replays as it was.
  pub run_replay_task_counts :
      (task : ReplayTask Value) (source : Source) (m : ReplayMetrics) (w : World)
      → let m' = (run_replay_task serde ch services true task source (m, w)).0 in
        (results m' ≡ results m + 1)
        × (m'.replay_catch_up_observations ≡ m.replay_catch_up_observations + 1)
        × (m'.replay_in_flight ≡ m.replay_in_flight)
  unfolding run_replay_task
  run_replay_task_counts task source m w =
      let result =
        (replay_since serde ch task.task_stream task.task_replay_tx task.task_codec source task.seq
          w).0 in
      let (one, duration, gauge) =
        count_result-results result (record m { replay_in_flight = m.replay_in_flight + 1 - 1 }) in
      (one, duration, gauge ∙ omega arith)

  -- The frame of a message, if it can be encoded and its channel takes it.
  abbrev pub sent_frame : Codec Value → ℕ → ServerMessage Value → World → List Bytes
  sent_frame codec tx msg w = elim (codec.encode msg) [
    | none ↦ []
    | some frame ↦ if (send tx frame w).0 then frame ∷ [] else []
  ]

  sent_appends :
      (codec : Codec Value) (tx : ℕ) (msg : ServerMessage Value) (w : World)
      → queued (send_message serde ch services codec tx msg w) tx
        ≡ queued w tx ++ sent_frame codec tx msg w
  unfolding send_message
  sent_appends codec tx msg w = elim (Option-cases (codec.encode msg)) [
    | inl e ↦ rw (send_message, sent_frame, e) (sym (append-nil (queued w tx)))
    | inr (frame, e) ↦ elim (Bool-cases (send tx frame w).0) [
      | inl e' ↦
          rw (send_message, sent_frame, e, e')
            (ground (arith, queued-send tx tx frame w, eq_refl tx))
      | inr e' ↦
          rw (send_message, sent_frame, e, e')
            (ground (arith, queued-send tx tx frame w, append-nil (queued w tx)))
    ]
  ]

  sent_elsewhere :
      (codec : Codec Value) (s t : ℕ) (msg : ServerMessage Value) (w : World)
      → s ≢ t
      → queued (send_message serde ch services codec s msg w) t ≡ queued w t
  unfolding send_message
  sent_elsewhere codec s t msg w other = elim (Option-cases (codec.encode msg)) [
    | inl e ↦ rw (e, send_message) refl
    | inr (frame, e) ↦
        rw (e, send_message) (ground (arith, queued-send s t frame w, eq_iff s t, other))
  ]

  -- What a replay with this result is confirmed with: nothing if the receiver is gone, the window
  -- is exceeded or the replay was cut off; else the frame of the confirmation.
  abbrev pub confirmation : ReplayTask Value → ReplayResult → World → List Bytes
  confirmation task (ok d) w =
      if d.peer_gone
      then []
      else sent_frame task.task_codec task.task_replay_tx (confirm_subscription task.task_stream) w
  confirmation task (err (window_exceeded _ _)) w = []
  confirmation task (err (truncated _ _)) w = []
  confirmation task (err jet_stream) w =
      sent_frame task.task_codec task.task_replay_tx (confirm_subscription task.task_stream) w

  -- What a replay with this result tells the urgent channel: why the client has to start over.
  abbrev pub farewell : ReplayTask Value → ReplayResult → World → List Bytes
  farewell task (err (window_exceeded _ _)) w =
      sent_frame task.task_codec task.task_urgent_tx
        (disconnect_for serde ch services (codes "replay_window_exceeded")) w
  farewell task (err (truncated _ _)) w =
      sent_frame task.task_codec task.task_urgent_tx
        (disconnect_for serde ch services (codes "replay_truncated")) w
  farewell task (ok _) w = []
  farewell task (err jet_stream) w = []

  -- A channel that gets nothing.
  nothing_more :
      (w w' : World) (tx : ℕ) → queued w' tx ≡ queued w tx → queued w' tx ≡ queued w tx ++ []
  nothing_more w w' tx e = e ∙ sym (append-nil (queued w tx))

  confirmed :
      (task : ReplayTask Value) (w : World)
      → task.task_urgent_tx ≢ task.task_replay_tx
      → let msg = confirm_subscription task.task_stream in
        let w' = send_message serde ch services task.task_codec task.task_replay_tx msg w in
        (queued w' task.task_replay_tx
          ≡ queued w task.task_replay_tx ++ sent_frame task.task_codec task.task_replay_tx msg w)
        × (queued w' task.task_urgent_tx ≡ queued w task.task_urgent_tx ++ [])
  confirmed task w other = (
    sent_appends task.task_codec task.task_replay_tx _ w,
    nothing_more w _ task.task_urgent_tx (
        sent_elsewhere task.task_codec task.task_replay_tx task.task_urgent_tx _ w
          (λ e. other (sym e))),
  )

  answer_says :
      (task : ReplayTask Value) (result : ReplayResult) (w : World)
      → task.task_urgent_tx ≢ task.task_replay_tx
      → let w' = answer serde ch services task result w in
        (queued w' task.task_replay_tx ≡ queued w task.task_replay_tx ++ confirmation task result w)
        × (queued w' task.task_urgent_tx ≡ queued w task.task_urgent_tx ++ farewell task result w)
  unfolding answer
  answer_says task (ok d) w other = elim (Bool-cases d.peer_gone) [
    | inl e ↦
        rw (e, answer)
          (nothing_more w w task.task_replay_tx refl, nothing_more w w task.task_urgent_tx refl)
    | inr e ↦ rw (e, answer) (confirmed task w other)
  ]
  answer_says task (err (window_exceeded _ _)) w other = (
    nothing_more w _ task.task_replay_tx
        (sent_elsewhere task.task_codec task.task_urgent_tx task.task_replay_tx _ w other),
    sent_appends task.task_codec task.task_urgent_tx _ w,
  )
  answer_says task (err (truncated _ _)) w other = (
    nothing_more w _ task.task_replay_tx
        (sent_elsewhere task.task_codec task.task_urgent_tx task.task_replay_tx _ w other),
    sent_appends task.task_codec task.task_urgent_tx _ w,
  )
  answer_says task (err jet_stream) w other = confirmed task w other

  -- A replay task with a permit, whose urgent channel is not its replay channel, adds to the
  -- replay channel what the replay delivers, the encodings of fetched messages in the order of the
  -- fetches, with sequences that rise strictly from above the client's last one and as many as the
  -- result counts; and behind them the confirmation of its stream, once, if the result is a replay
  -- whose receiver stayed or a failure of JetStream, and nothing otherwise. A client out of the
  -- window or with more messages than the limit gets the disconnect on the urgent channel behind
  -- what the replay left there. A message that cannot be encoded or whose channel takes no frame is
  -- left out.
  pub run_replay_task_confirms_last :
      (task : ReplayTask Value) (source : Source) (m : ReplayMetrics) (w : World)
      → task.task_urgent_tx ≢ task.task_replay_tx
      → let replayed =
          replay_since serde ch task.task_stream task.task_replay_tx task.task_codec source task.seq
            w in
        let w' = (run_replay_task serde ch services true task source (m, w)).1 in
        Delivers serde ch task.task_stream task.task_replay_tx task.task_codec
          (fetches_of source)
          task.seq
          w
          replayed
        × (queued w' task.task_replay_tx
            ≡ queued replayed.1 task.task_replay_tx ++ confirmation task replayed.0 replayed.1)
        × (queued w' task.task_urgent_tx
            ≡ queued replayed.1 task.task_urgent_tx ++ farewell task replayed.0 replayed.1)
  unfolding run_replay_task
  run_replay_task_confirms_last task source m w other =
      let replayed =
        replay_since serde ch task.task_stream task.task_replay_tx task.task_codec source task.seq
          w in
      let (confirms, tells) = answer_says task replayed.0 replayed.1 other in
      (
        replay_since-Delivers serde ch task.task_stream task.task_replay_tx task.task_codec source
            task.seq w,
        confirms,
        tells,
      )
