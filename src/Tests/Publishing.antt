-- ===== src/Tests/Publishing.antt =====
-- The publisher of load tests, at one message every half second.
use turbocable_server.Prelude.{ℕ, ◌+◌, ◌*◌, ◌<◌, ◌≡◌, refl, some, true, codes, arith}
use turbocable_server.Publish.{
  digits, last_first, Args, Environment, Outcome, interval, nanos_per_sec, publish_main, message,
}
use turbocable_server.Publish.Counts.{Stops, Ticked, messages, publish_main_counts}

abbrev bench : Args
bench = record {
  nats_url = codes "nats://localhost:4222";
  stream = codes "bench";
  rate = 2;
  duration = 2;
}

abbrev quiet_night : Environment
quiet_night = record {
  accepts = λ url. true;
  start = 10;
  last_instant = 100_000_000_000;
  instant_after = λ k. 20 + k * 500_000_000;
  millis_after = λ k. 5 + k * 500;
  publishes = λ k. true;
  flushes = true;
}

third_payload :
    (message quiet_night bench 2 2).payload
    ≡ codes "{\"seq\":2,\"sent_at\":1005,\"stream\":\"bench\"}"
unfolding digits last_first
third_payload = refl

publish_main_counts_example :
    (n : ℕ) × (o : Outcome) × (publish_main quiet_night bench
      ≡ some (o, messages quiet_night bench 0 n))
    × Stops quiet_night bench n o
    × Ticked quiet_night bench n
    × (n * interval quiet_night bench < bench.duration * nanos_per_sec + interval quiet_night bench)
publish_main_counts_example =
    publish_main_counts quiet_night bench (λ k. omega arith) refl (omega arith) (omega arith)
      (omega arith)
