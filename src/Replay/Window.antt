-- ===== src/Replay/Window.antt =====
-- src/pubsub/nats.rs: when `replay_since` answers `WindowExceeded`.
use turbocable_server.Prelude.{ℕ, Bool, true, false, List, Text}
use turbocable_server.Channel.{Channels}
use turbocable_server.Protocol.{Serde, Codec}
use turbocable_server.Replay.{
  Fetch, Round, ReplayResult, ok, err, truncated, window_exceeded, jet_stream, conclude,
}

abbrev pub is_window_exceeded : ReplayResult → Bool
is_window_exceeded (ok _) = false
is_window_exceeded (err (window_exceeded _ _)) = true
is_window_exceeded (err (truncated _ _)) = false
is_window_exceeded (err jet_stream) = false

module _ (serde : Serde) (ch : Channels) (stream_name : Text) (tx : ℕ)
    (codec : Codec (Serde.Value serde)) where
  open ch use {World, send, queued}

  abbrev concluding : Round serde ch × List Fetch → ReplayResult × World
  concluding = conclude serde ch stream_name tx codec
