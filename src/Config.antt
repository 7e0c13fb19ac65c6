-- ===== src/Config.antt =====
-- src/config.rs: the replay enforcement phases and the rate-limit overrides. The other options are
-- plain values that `clap` parses.
pub mod Overrides
use turbocable_server.Prelude.{
  ℕ, Bool, true, false, Option, none, some, List, [], ◌∷◌, Text, ◌>>=◌, text_eq,
}
use turbocable_server.Prelude.Dict.{Dict, insert}
use turbocable_server.Text.{split, split_once, trim, parse_u64}

pub data ReplayEnforcement : Type 0 where
  compat soft_enforce hard_enforce : ReplayEnforcement

abbrev pub requires_hello_first : ReplayEnforcement → Bool
requires_hello_first compat = false
requires_hello_first soft_enforce = true
requires_hello_first hard_enforce = true

abbrev pub rejects_non_replay_subscribe : ReplayEnforcement → Bool
rejects_non_replay_subscribe compat = false
rejects_non_replay_subscribe soft_enforce = false
rejects_non_replay_subscribe hard_enforce = true

abbrev pub is_soft_enforce : ReplayEnforcement → Bool
is_soft_enforce compat = false
is_soft_enforce soft_enforce = true
is_soft_enforce hard_enforce = false

-- One `name=rps:burst` entry; `none` where the closure returns early.
unfoldable pub parse_entry : Text → Option (Text × (ℕ × ℕ))
parse_entry entry = do
  (name, rest) ← split_once b'=' entry
  (rps_str, burst_str) ← split_once b':' rest
  rps ← parse_u64 (trim rps_str)
  burst ← parse_u64 (trim burst_str)
  some (trim name, (rps, burst))

-- `.filter_map(parse_entry).collect()`: a later entry replaces an earlier one of the same name.
unfoldable pub collect_entries : List Text → Dict Text (ℕ × ℕ) → Dict Text (ℕ × ℕ)
collect_entries [] m = m
collect_entries (piece ∷ pieces) m = elim (parse_entry piece) [
  | none ↦ collect_entries pieces m
  | some (name, limits) ↦ collect_entries pieces (insert name limits m)
]

unfoldable pub parse_stream_rate_overrides : Text → Dict Text (ℕ × ℕ)
parse_stream_rate_overrides [] = []
parse_stream_rate_overrides (c ∷ s) = collect_entries (split b';' (c ∷ s)) []

-- The options, as `clap` parses them.
pub record Config : Type 0 where
  pub port : ℕ
  pub nats_url : Text
  pub node_id : Text
  pub ping_interval_secs : ℕ
  pub max_connections_per_ip : ℕ
  pub ws_channel_capacity : ℕ
  pub ws_replay_channel_capacity : ℕ
  pub jwt_public_key_path : Option Text
  pub max_ack_pending : ℕ
  pub nats_stream_replicas : ℕ
  pub replay_enforcement : ReplayEnforcement
  pub max_replay_concurrency : ℕ
  pub stream_rate_limit_rps : ℕ
  pub stream_rate_limit_burst : ℕ
  pub stream_rate_overrides : Text
