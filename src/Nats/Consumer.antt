-- ===== src/Nats/Consumer.antt =====
-- src/pubsub/nats.rs: the loops of the consumer. What JetStream answers and delivers is a list of
-- events; the pause between two attempts, and the tasks that send the acknowledgements, are not
-- modelled.
pub mod Acks
use turbocable_server.Prelude.{
  ℕ, ◌+◌, ◌%◌, ◌^◌, Bool, true, false, Option, none, some, List, [], ◌∷◌, ◌++◌, nat_beq,
  if◌then◌else◌,
}
use turbocable_server.Channel.{Channels}
use turbocable_server.Protocol.{Serde}
use turbocable_server.RateLimiter.{F64}
use turbocable_server.Nats.{NatsMessage, Node, process_nats_message}

-- What the arms of the `select!` deliver: a message with its time, or an error of the stream, or a
-- tick of the lag interval. With them comes the number of pending messages that `consumer.info()`
-- answers if it is asked then.
pub data Delivered : Type 0 where
  message : ℕ → NatsMessage → Option ℕ → Delivered
  message_error : Delivered
  lag_tick : Option ℕ → Delivered

-- What JetStream answers while the consumer is set up, and what it delivers then.
pub record Attempt : Type 0 where
  pub has_stream : Bool
  pub has_consumer : Bool
  pub info : Option ℕ
  pub has_messages : Bool
  pub events : List Delivered

-- `Ok(())`, or an error.
pub data Ending : Type 0 where
  stream_ended failed : Ending

module _ (serde : Serde) (f : F64) (ch : Channels) where
  -- The node, the lag gauge, the counter of the loop, and the messages whose acknowledgement was
  -- started, the earliest first.
  pub record Consumer : Type 0 where
    pub node : Node serde f ch
    pub nats_consumer_lag : ℕ
    pub processed : ℕ
    pub acked : List NatsMessage

  unfoldable pub update_consumer_lag : Option ℕ → Consumer → Consumer
  update_consumer_lag none s = s
  update_consumer_lag (some num_pending) s = record s { nats_consumer_lag = num_pending }

  -- A message is processed, acknowledged and counted; the gauge follows every 10 000 of them.
  unfoldable pub take_message : ℕ → NatsMessage → Option ℕ → Consumer → Consumer
  unfolding update_consumer_lag
  take_message now msg info s =
      let processed = (s.processed + 1) % 2 ^ 64 in
      let s' = record s {
        node = process_nats_message serde f ch now msg s.node;
        acked = s.acked ++ msg ∷ [];
        processed = processed;
      } in
      if nat_beq (processed % 10_000) 0 then update_consumer_lag info s' else s'

  unfoldable pub consume : List Delivered → Consumer → Ending × Consumer
  consume [] s = (stream_ended, s)
  consume (message_error ∷ events) s = (failed, s)
  consume (lag_tick info ∷ events) s = consume events (update_consumer_lag info s)
  consume (message now msg info ∷ events) s = consume events (take_message now msg info s)

  unfoldable pub run_consumer : Attempt → Consumer → Ending × Consumer
  run_consumer a s = elim a.has_stream [
    | false ↦ (failed, s)
    | true ↦ elim a.has_consumer [
      | false ↦ (failed, s)
      | true ↦
          let s' = update_consumer_lag a.info s in
          elim a.has_messages [
            | false ↦ (failed, s')
            | true ↦ consume a.events (record s' { processed = 0 })
          ]
    ]
  ]

  -- The outer loop, over the attempts made so far.
  unfoldable pub fanout_loop : List Attempt → Consumer → Consumer
  fanout_loop [] s = s
  fanout_loop (a ∷ attempts) s = fanout_loop attempts (run_consumer a s).1
