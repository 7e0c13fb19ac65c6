-- ===== src/Metrics.antt =====
-- src/metrics.rs: the metrics of the process and their registration. The registry of the crate
-- prometheus is an interface. A bucket bound is a number of 10 microseconds. Rendering is left out.
pub mod Singleton
use Prim.Native.String.{String}
use turbocable_server.Prelude.{
  ℕ, zero, suc, ◌≡◌, Bool, true, false, ◌&&◌, ◌||◌, Option, none, some, List, [], ◌∷◌, ◌++◌, Text,
  codes, contains, if◌then◌else◌, ltb, leb, ◌==◌, nat_eq, text_eq, nat_beq,
}

-- The macro that registers a metric, with the bucket bounds or the labels that it is given.
pub data Kind : Type 0 where
  int_gauge int_counter : Kind
  histogram : List ℕ → Kind
  int_counter_vec int_gauge_vec : List Text → Kind

pub record Metric : Type 0 where
  pub kind : Kind
  pub name : Text
  pub help : Text

abbrev metric : Kind → String → String → Metric
metric kind name help = record { kind = kind; name = codes name; help = codes help }

-- What prometheus asks of a name, of a help text, of bucket bounds and of labels.
abbrev is_name_start : ℕ → Bool
is_name_start c =
    (leb b'a' c && leb c b'z') || (leb b'A' c && leb c b'Z') || nat_beq c b'_' || nat_beq c b':'

unfoldable pub is_name_rest : Text → Bool
is_name_rest [] = true
is_name_rest (c ∷ cs) = (is_name_start c || (leb b'0' c && leb c b'9')) && is_name_rest cs

unfoldable pub is_name : Text → Bool
unfolding is_name_rest
is_name [] = false
is_name (c ∷ cs) = is_name_start c && is_name_rest cs

unfoldable pub rises : List ℕ → Bool
rises [] = true
rises (bound ∷ []) = true
rises (bound ∷ next ∷ bounds) = ltb bound next && rises (next ∷ bounds)

unfoldable pub all_names : List Text → Bool
unfolding is_name
all_names [] = true
all_names (label ∷ labels) = is_name label && all_names labels

abbrev pub is_kind : Kind → Bool
is_kind int_gauge = true
is_kind int_counter = true
is_kind (histogram bounds) = rises bounds
is_kind (int_counter_vec labels) = all_names labels
is_kind (int_gauge_vec labels) = all_names labels

abbrev pub is_help : Text → Bool
is_help [] = false
is_help (c ∷ cs) = true

unfoldable pub is_valid : Metric → Bool
unfolding is_name rises all_names
is_valid m = is_name m.name && is_help m.help && is_kind m.kind

-- The default registry: a valid metric is registered if its name is not taken, and otherwise
-- registration is an error.
pub record Prometheus : Type 1 where
  pub Registry : Type 0
  pub is_taken : Registry → Text → Bool
  pub register : Metric → Registry → Option Registry
  pub registers :
      (m : Metric) (r : Registry)
      → is_valid m ≡ true
      → is_taken r m.name ≡ false
      → (r' : Registry) × (register m r ≡ some r')
        × ((n : Text) → is_taken r' n ≡ ((m.name == n) || is_taken r n))
  pub refuses : (m : Metric) (r : Registry) → is_taken r m.name ≡ true → register m r ≡ none

abbrev gateway_metrics : List Metric
gateway_metrics =
    metric int_gauge "turbocable_connections_active" "Current number of open WebSocket connections"
    ∷ metric int_counter "turbocable_connections_total"
        "Total WebSocket connections accepted since startup"
    ∷ metric int_counter "turbocable_client_reconnect_handshake_total"
        "Client hello frames with last_seq > 0 (resume / reconnect with delivery history)"
    ∷ metric int_counter "turbocable_connections_rejected_total"
        "Connections rejected due to auth failure or per-IP limit"
    ∷ metric int_counter "turbocable_messages_fanned_out_total"
        "Total WebSocket frames delivered to clients via fan-out"
    ∷ metric
        (histogram (5 ∷ 10 ∷ 25 ∷ 50 ∷ 100 ∷ 250 ∷ 500 ∷ 1000 ∷ 2500 ∷ 5000 ∷ 10000 ∷ 25000 ∷ []))
        "turbocable_fanout_duration_seconds" "Fan-out latency in seconds"
    ∷ metric int_gauge "turbocable_nats_consumer_lag"
        "NATS JetStream consumer pending message count"
    ∷ metric (histogram (5 ∷ 10 ∷ 25 ∷ 50 ∷ 100 ∷ 250 ∷ 500 ∷ 1000 ∷ 2500 ∷ []))
        "turbocable_auth_duration_seconds" "JWT verification latency in seconds"
    ∷ metric int_counter "turbocable_handshake_ok_replay_capable_total"
        "Clients that completed hello handshake with replay_v1 capability"
    ∷ metric int_counter "turbocable_handshake_ok_legacy_total"
        "Clients that completed hello handshake without replay_v1 capability"
    ∷ metric int_counter "turbocable_handshake_legacy_warn_total"
        "Commands received before hello in compat mode (legacy client signal)"
    ∷ metric int_counter "turbocable_handshake_rejected_total"
        "Commands rejected because client had not sent hello (enforce mode)"
    ∷ metric int_counter "turbocable_handshake_rejected_non_replay_capable_total"
        "Subscribe rejected in hard_enforce: client not replay_v1-capable"
    ∷ metric int_counter "turbocable_handshake_soft_non_replay_subscribe_allowed_total"
        "Subscribe allowed in soft_enforce without replay_v1 (legacy client signal)"
    ∷ metric int_counter "turbocable_forced_reconnect_backpressure_total"
        "Connections evicted due to full outbound channel (backpressure reconnect)"
    ∷ []

abbrev replay_metrics : List Metric
replay_metrics =
    metric int_counter "turbocable_replay_success_total" "Replay tasks that completed without error"
    ∷ metric int_counter "turbocable_replay_failure_total"
        "Replay tasks that failed with a transient JetStream error"
    ∷ metric int_counter "turbocable_replay_window_exceeded_total"
        "Replay tasks aborted due to client last_seq outside the retention window"
    ∷ metric int_counter "turbocable_replay_aborted_peer_gone_total"
        "Replay tasks stopped because the WebSocket outbound channel closed mid-replay"
    ∷ metric int_counter "turbocable_replay_truncated_total"
        "Replay tasks that hit the per-stream message cap and required client resync"
    ∷ metric int_gauge "turbocable_replay_in_flight" "Number of active replay tasks"
    ∷ metric
        (histogram (
          5000 ∷ 10000 ∷ 25000 ∷ 50000 ∷ 100000 ∷ 200000 ∷ 500000 ∷ 1000000 ∷ 3000000 ∷ 6000000
          ∷ []))
        "turbocable_replay_catch_up_duration_seconds"
        "Total wall-clock time for a replay task from start to completion"
    ∷ metric
        (histogram
          (100 ∷ 500 ∷ 1000 ∷ 2500 ∷ 5000 ∷ 10000 ∷ 25000 ∷ 50000 ∷ 100000 ∷ 200000 ∷ 500000 ∷ []))
        "turbocable_replay_first_delivery_seconds"
        "Time from replay start to first message enqueued in the outbound channel"
    ∷ metric (int_counter_vec (codes "stream" ∷ [])) "turbocable_stream_rate_limited_total"
        "Messages dropped due to per-stream rate limiting"
    ∷ metric (int_gauge_vec (codes "stream" ∷ [])) "turbocable_stream_tokens_available"
        "Current token count for the per-stream rate limiter (gauge sample)"
    ∷ []

-- The metrics in the order in which `create` registers them.
unfoldable pub all_metrics : List Metric
all_metrics = gateway_metrics ++ replay_metrics

module _ (prometheus : Prometheus) where
  open prometheus use {Registry, register}

  -- The registrations one after the other; false is the panic of `expect`.
  unfoldable pub create : List Metric → Registry → Bool × Registry
  create [] r = (true, r)
  create (m ∷ ms) r = elim (register m r) [ none ↦ (false, r) | some r' ↦ create ms r' ]

  -- `METRICS_INSTANCE` and the default registry.
  pub record Process : Type 0 where
    pub instance_set : Option (List Metric)
    pub registry : Registry

  -- `get_or_init`: a panic leaves the instance unset.
  unfoldable pub new : Process → Option (List Metric) × Process
  new p = elim p.instance_set [
    | some metrics ↦ (some metrics, p)
    | none ↦
        let (done, r) = create all_metrics p.registry in
        let handle : Option (List Metric) = if done then some all_metrics else none in
        (handle, record { instance_set = handle; registry = r })
  ]

  -- Further calls.
  unfoldable pub calls : ℕ → Process → Process
  calls zero p = p
  calls (suc n) p = calls n (new p).1
