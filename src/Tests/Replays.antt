-- ===== src/Tests/Replays.antt =====
-- Replays of a stream of two stored messages.
use turbocable_server.Prelude.{
  ◌≡◌, ◌⊎◌, ◌≤◌, ◌<◌, refl, true, none, some, List, [], ◌∷◌, ◌++◌, Bytes, length, take, arith,
}
use turbocable_server.Channel.Bounded.{bounded, idle}
use turbocable_server.Protocol.{
  ServerMessage, confirm_subscription, welcome, ping, reject_subscription, disconnect, broadcast,
}
use turbocable_server.Handler.{ReplayTask}
use turbocable_server.Replay.{
  Source, replay_since, max_replay_messages, err, truncated, check_window,
}
use turbocable_server.Replay.Complete.{Stored, fetched, written_all, IsDelivery, replay_since_all}
use turbocable_server.Replay.Outcome.{Delivers, fetches_of, replay_since-Delivers}
use turbocable_server.ReplayTask.{ReplayMetrics, run_replay_task}
use turbocable_server.ReplayTask.Confirm.{
  results, run_replay_task_counts, run_replay_task_confirms_last, confirmation, farewell,
}
use turbocable_server.Tests.Fixtures.{room, plain, plain_codec, counting}

abbrev stored : List Stored
stored = (5, b'a' ∷ [], 1) ∷ (6, b'b' ∷ [], 2) ∷ []

abbrev source : Source
source = record { info = some (3, 4); messages = some (fetched stored) }

abbrev behind : Source
behind = record { info = some (30, 4); messages = some (fetched stored) }

in_window : check_window 4 3 4 ≡ none
unfolding check_window
in_window = refl

abbrev written : ServerMessage Bytes → Bytes
written m = elim (plain_codec.encode m) [ none ↦ [] | some frame ↦ frame ]

encodes : (m : ServerMessage Bytes) → plain_codec.encode m ≡ some (written m)
encodes welcome = refl
encodes (ping ts) = refl
encodes (confirm_subscription identifier) = refl
encodes (reject_subscription identifier) = refl
encodes (disconnect reason reconnect) = refl
encodes (broadcast name value replayed seq) = refl

replay_since_all_example :
    let replayed = replay_since plain bounded room 9 plain_codec source 4 (idle 1) in
    (replayed.1.queues 9
      ≡ written_all plain bounded room 9 plain_codec written encodes
          (λ m w. refl)
          (take max_replay_messages stored))
    × (((length stored ≤ max_replay_messages)
          × IsDelivery plain bounded room 9 plain_codec written encodes
              (λ m w. refl)
              (length stored)
              replayed.0)
        ⊎ ((max_replay_messages < length stored)
            × (replayed.0 ≡ err (truncated max_replay_messages max_replay_messages))))
replay_since_all_example =
    replay_since_all plain bounded room 9 plain_codec written encodes (λ m w. refl) 3 4 4 stored
      (idle 1) in_window (omega arith, (omega arith, tt))

replay_since-Delivers_example :
    Delivers plain bounded room 9 plain_codec
      (fetched stored)
      5
      (idle 1)
      (replay_since plain bounded room 9 plain_codec source 5 (idle 1))
replay_since-Delivers_example =
    replay_since-Delivers plain bounded room 9 plain_codec source 5 (idle 1)

abbrev task : ReplayTask Bytes
task = record {
  task_replay_tx = 9;
  task_urgent_tx = 8;
  task_codec = plain_codec;
  task_stream = room;
  seq = 4;
}

abbrev no_metrics : ReplayMetrics
no_metrics = record {
  replay_in_flight = 0;
  replay_aborted_peer_gone_total = 0;
  replay_success_total = 0;
  replay_window_exceeded_total = 0;
  replay_truncated_total = 0;
  replay_failure_total = 0;
  replay_catch_up_observations = 0;
  replay_first_delivery_observations = 0;
}

run_replay_task_confirms_last_example :
    let replayed = replay_since plain bounded room 9 plain_codec source 4 (idle 1) in
    let w = (run_replay_task plain bounded counting true task source (no_metrics, idle 1)).1 in
    Delivers plain bounded room 9 plain_codec (fetches_of source) 4 (idle 1) replayed
    × (w.queues 9
        ≡ replayed.1.queues 9 ++ confirmation plain bounded counting task replayed.0 replayed.1)
    × (w.queues task.task_urgent_tx
        ≡ replayed.1.queues task.task_urgent_tx
          ++ farewell plain bounded counting task replayed.0 replayed.1)
run_replay_task_confirms_last_example =
    run_replay_task_confirms_last plain bounded counting task source no_metrics (idle 1)
      (omega arith)

run_replay_task_counts_example :
    let m = (run_replay_task plain bounded counting true task source (no_metrics, idle 1)).0 in
    (results m ≡ 1) × (m.replay_catch_up_observations ≡ 1) × (m.replay_in_flight ≡ 0)
run_replay_task_counts_example =
    run_replay_task_counts plain bounded counting task source no_metrics (idle 1)
