-- ===== src/Nats/Consumer/Acks.antt =====
-- src/pubsub/nats.rs: what the consumer makes of the messages, over all its attempts.
use turbocable_server.Prelude.{
  ℕ, ◌≡◌, refl, ap, sym, ◌∙◌, Option, none, some, List, [], ◌∷◌, ◌++◌, map, ◌&&◌, if◌then◌else◌,
  Bool-cases, inl, inr, arith,
}
use mathlib.Core.List.{append_assoc, append-nil, map-append}
use turbocable_server.Channel.{Channels}
use turbocable_server.Protocol.{Serde}
use turbocable_server.RateLimiter.{F64}
use turbocable_server.Nats.{NatsMessage, Node, process_nats_message, process_all}
use turbocable_server.Nats.Consumer.{
  Delivered, message, message_error, lag_tick, Attempt, Consumer, update_consumer_lag, take_message,
  consume, run_consumer, fanout_loop,
}

-- The messages of one attempt, up to its first error, each with its time.
unfoldable pub taken_events : List Delivered → List (ℕ × NatsMessage)
taken_events [] = []
taken_events (message_error ∷ events) = []
taken_events (lag_tick info ∷ events) = taken_events events
taken_events (message now msg info ∷ events) = (now, msg) ∷ taken_events events

-- The messages of all attempts; one that is not set up in every part brings none.
unfoldable pub taken : List Attempt → List (ℕ × NatsMessage)
taken [] = []
taken (a ∷ attempts) =
    (if a.has_stream && a.has_consumer && a.has_messages then taken_events a.events else [])
    ++ taken attempts

module _ (serde : Serde) (f : F64) (ch : Channels) where
  -- A consumer that has come through some messages.
  abbrev pub Through : List (ℕ × NatsMessage) → Consumer serde f ch → Consumer serde f ch → Type 0
  Through messages s s' =
      (s'.node ≡ process_all serde f ch messages s.node)
      × (s'.acked ≡ s.acked ++ map (λ (m : ℕ × NatsMessage). m.1) messages)

  process_all-append :
      (ms ns : List (ℕ × NatsMessage)) (n : Node serde f ch)
      → process_all serde f ch (ms ++ ns) n
        ≡ process_all serde f ch ns (process_all serde f ch ms n)
  unfolding process_all
  process_all-append [] ns n = refl
  process_all-append ((now, msg) ∷ ms) ns n =
      process_all-append ms ns (process_nats_message serde f ch now msg n)

  Through-none :
      (s s' : Consumer serde f ch) → s'.node ≡ s.node → s'.acked ≡ s.acked → Through [] s s'
  unfolding process_all
  Through-none s s' p q = (p, simp (append-nil) q)

  Through-trans :
      (ms ns : List (ℕ × NatsMessage)) (s s' s'' : Consumer serde f ch)
      → Through ms s s'
      → Through ns s' s''
      → Through (ms ++ ns) s s''
  Through-trans ms ns s s' s'' h k = (
    k.0 ∙ ap (process_all serde f ch ns) (h.0) ∙ sym (process_all-append ms ns s.node),
    simp (k.1, h.1, map-append, append_assoc),
  )

  lag-Through :
      (info : Option ℕ) (s : Consumer serde f ch)
      → Through [] s (update_consumer_lag serde f ch info s)
  unfolding update_consumer_lag
  lag-Through none s = Through-none s s refl refl
  lag-Through (some pending) s = Through-none s (record s { nats_consumer_lag = pending }) refl refl

  take_message-Through :
      (now : ℕ) (msg : NatsMessage) (info : Option ℕ) (s : Consumer serde f ch)
      → Through ((now, msg) ∷ []) s (take_message serde f ch now msg info s)
  unfolding take_message update_consumer_lag process_all
  take_message-Through now msg none s = (ground arith, ground arith)
  take_message-Through now msg (some pending) s = (ground arith, ground arith)

  consume-Through :
      (events : List Delivered) (s : Consumer serde f ch)
      → Through (taken_events events) s (consume serde f ch events s).1
  unfolding consume taken_events
  consume-Through [] s = Through-none s s refl refl
  consume-Through (message_error ∷ events) s = Through-none s s refl refl
  consume-Through (lag_tick info ∷ events) s =
      let s' = update_consumer_lag serde f ch info s in
      Through-trans [] (taken_events events) s s' (consume serde f ch events s').1
        (lag-Through info s) (consume-Through events s')
  consume-Through (message now msg info ∷ events) s =
      let s' = take_message serde f ch now msg info s in
      Through-trans ((now, msg) ∷ []) (taken_events events) s s' (consume serde f ch events s').1
        (take_message-Through now msg info s) (consume-Through events s')

  run_consumer-Through :
      (a : Attempt) (s : Consumer serde f ch)
      → Through
          (if a.has_stream && a.has_consumer && a.has_messages then taken_events a.events else [])
          s
          (run_consumer serde f ch a s).1
  unfolding run_consumer
  run_consumer-Through a s = elim (Bool-cases a.has_stream) [
    | inr no_stream ↦ rw (no_stream, run_consumer) (Through-none s s refl refl)
    | inl stream ↦ elim (Bool-cases a.has_consumer) [
      | inr no_consumer ↦ rw (stream, no_consumer, run_consumer) (Through-none s s refl refl)
      | inl consumer ↦
          let s' = update_consumer_lag serde f ch a.info s in
          elim (Bool-cases a.has_messages) [
            | inr no_messages ↦
                rw (stream, consumer, no_messages, run_consumer) (lag-Through a.info s)
            | inl messages ↦
                let s'' = record s' { processed = 0 } in
                rw (stream, consumer, messages, run_consumer)
                  (Through-trans [] (taken_events a.events) s s''
                    (consume serde f ch a.events s'').1 (lag-Through a.info s)
                    (consume-Through a.events s''))
          ]
    ]
  ]

  -- Over any attempts of the outer loop, with errors and ends of the stream in any places: the
  -- node is that of the messages taken, one after the other, and exactly these messages are
  -- acknowledged, once for each time they were taken, in that order, whether the rate limiter let
  -- them pass or not. Taken are the messages of each attempt that was set up, up to its first
  -- error.
  pub fanout_loop_acks :
      (attempts : List Attempt) (s : Consumer serde f ch)
      → ((fanout_loop serde f ch attempts s).node ≡ process_all serde f ch (taken attempts) s.node)
        × ((fanout_loop serde f ch attempts s).acked
            ≡ s.acked ++ map (λ (m : ℕ × NatsMessage). m.1) (taken attempts))
  unfolding fanout_loop taken
  fanout_loop_acks [] s = Through-none s s refl refl
  fanout_loop_acks (a ∷ attempts) s =
      let s' = (run_consumer serde f ch a s).1 in
      Through-trans _ (taken attempts) s s' (fanout_loop serde f ch attempts s')
        (run_consumer-Through a s) (fanout_loop_acks attempts s')
