-- ===== src/ReplayTask.antt =====
-- src/connection/handler.rs: the background task of `dispatch_command` that replays a stream. The
-- permit of the semaphore and the answers of JetStream come in. Of the two histograms of durations,
-- the number of observations is kept.
pub mod Confirm
use turbocable_server.Prelude.{ℕ, ◌+◌, ◌-◌, Bool, true, false, Option, none, some, Text, codes}
use turbocable_server.Channel.{Channels}
use turbocable_server.Protocol.{Serde, Codec, ServerMessage, confirm_subscription, disconnect}
use turbocable_server.Presence.{Services}
use turbocable_server.Handler.{ReplayTask, send_message}
use turbocable_server.Replay.{
  Source, replay_since, ReplayResult, ok, err, window_exceeded, truncated, jet_stream,
  ReplayDelivery,
}

pub record ReplayMetrics : Type 0 where
  pub replay_in_flight : ℕ
  pub replay_aborted_peer_gone_total : ℕ
  pub replay_success_total : ℕ
  pub replay_window_exceeded_total : ℕ
  pub replay_truncated_total : ℕ
  pub replay_failure_total : ℕ
  pub replay_catch_up_observations : ℕ
  pub replay_first_delivery_observations : ℕ

abbrev observe_catch_up : ReplayMetrics → ReplayMetrics
observe_catch_up m = record m { replay_catch_up_observations = m.replay_catch_up_observations + 1 }

abbrev observe_first_delivery : Option ℕ → ReplayMetrics → ReplayMetrics
observe_first_delivery none m = m
observe_first_delivery (some elapsed) m = record m {
  replay_first_delivery_observations = m.replay_first_delivery_observations + 1;
}

-- The counters of the five arms.
unfoldable pub count_result : ReplayResult → ReplayMetrics → ReplayMetrics
count_result (ok d) m = elim d.peer_gone [
  | true ↦ observe_first_delivery d.first_delivery_elapsed (
      observe_catch_up
        (record m { replay_aborted_peer_gone_total = m.replay_aborted_peer_gone_total + 1 }))
  | false ↦
      observe_first_delivery d.first_delivery_elapsed
        (observe_catch_up (record m { replay_success_total = m.replay_success_total + 1 }))
]
count_result (err (window_exceeded _ _)) m =
    observe_catch_up
      (record m { replay_window_exceeded_total = m.replay_window_exceeded_total + 1 })
count_result (err (truncated _ _)) m =
    observe_catch_up (record m { replay_truncated_total = m.replay_truncated_total + 1 })
count_result (err jet_stream) m =
    observe_catch_up (record m { replay_failure_total = m.replay_failure_total + 1 })

module _ (serde : Serde) (ch : Channels) (services : Services) where
  open serde use {Value}
  open ch use {World}

  abbrev pub disconnect_for : Text → ServerMessage Value
  disconnect_for reason = disconnect reason (some true)

  -- What the five arms send: a confirmation behind the replayed frames, a disconnect on the urgent
  -- channel, or nothing.
  unfoldable pub answer : ReplayTask Value → ReplayResult → World → World
  answer task (ok d) w = elim d.peer_gone [
    | true ↦ w
    | false ↦
        send_message serde ch services task.task_codec task.task_replay_tx
          (confirm_subscription task.task_stream) w
  ]
  answer task (err (window_exceeded _ _)) w =
      send_message serde ch services task.task_codec task.task_urgent_tx
        (disconnect_for (codes "replay_window_exceeded")) w
  answer task (err (truncated _ _)) w =
      send_message serde ch services task.task_codec task.task_urgent_tx
        (disconnect_for (codes "replay_truncated")) w
  answer task (err jet_stream) w =
      send_message serde ch services task.task_codec task.task_replay_tx
        (confirm_subscription task.task_stream) w

  -- The whole task; without a permit the server is shutting down.
  unfoldable pub run_replay_task :
      Bool → ReplayTask Value → Source → ReplayMetrics × World → ReplayMetrics × World
  run_replay_task false task source (m, w) = (m, w)
  run_replay_task true task source (m, w) =
      let started = record m { replay_in_flight = m.replay_in_flight + 1 } in
      let (result, w') =
        replay_since serde ch task.task_stream task.task_replay_tx task.task_codec source task.seq
          w in
      let finished = record started { replay_in_flight = started.replay_in_flight - 1 } in
      (count_result result finished, answer task result w')
