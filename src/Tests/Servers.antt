-- ===== src/Tests/Servers.antt =====
-- The start and the end of the process at concrete inputs.
use turbocable_server.Prelude.{
  inl, text_beq, ◌==◌, ◌≢◌, ◌≤◌, leb, ◌&&◌, eq_iff, ℕ, eq_refl, ◌+◌, ◌*◌, ◌≡◌, ◌<◌, refl, Bool,
  true, false, Option, none, some, List, [], ◌∷◌, Text, Bytes, codes, if◌then◌else◌, ltb, nat_eq,
  text_eq, arith,
}
use turbocable_server.Auth.{Entry, entry, watch_error, new_verifier, verify, watch_loop, update_key}
use turbocable_server.KeyWatcher.{KeyStore, missing, start_nats_key_watcher}
use turbocable_server.Channel.Bounded.{bounded}
use turbocable_server.RateLimiter.Exact.{exact}
use turbocable_server.Registry as registry
use turbocable_server.Nats.{process_all}
use turbocable_server.Auth.Rotation.{last_valid}
use turbocable_server.Socket.{authorize}
use turbocable_server.Server.{
  Poll, Drained, drain_loop, drain_timeout_ms, build_rate_limiter, configured, init_jwt_verifier,
  running,
}
use turbocable_server.Server.Drain.{IsPaced, Ends, drain_loop-Ends}
use turbocable_server.Server.Limits.{Agree, limited_by, build_rate_limiter_agrees}
use turbocable_server.Server.Setup.{NatsServer, boot}
use turbocable_server.Server.Start.{node_of, start, start_agrees}
use turbocable_server.Server.Serves.{Serves, boot-Serves}
use turbocable_server.Channel.Bounded.{idle}
use turbocable_server.Presence.{presence_key}
use turbocable_server.Presence.Heartbeat.{
  Expiring, Request, puts, deletes, presence_ttl_ms, start_heartbeat, heartbeat_keeps_present,
}
use turbocable_server.Prelude.Dict.{Dict, get, insert, remove, get-insert, get-remove}
use turbocable_server.Nats.Consumer.{
  Attempt, Consumer, message, lag_tick, message_error, fanout_loop,
}
use turbocable_server.Nats.Consumer.Acks.{taken, taken_events, fanout_loop_acks}
use turbocable_server.Text.Utf8.{as_bytes, encode_char}
use turbocable_server.Auth.{current_pem}
use turbocable_server.Server.{pubkey_handler, pem_file}
use turbocable_server.Server.Pubkey.{pubkey_shows_last_valid}
use turbocable_server.Auth.{star}
use turbocable_server.Socket.{granted}
use turbocable_server.KeyWatcher.{found}
use turbocable_server.Server.Open.{runs_open}
use turbocable_server.Server.Keys.{Holds, init_jwt_verifier_guards}
use turbocable_server.Tests.Fixtures.{room, plain, trusting, counting}
use turbocable_server.Tests.Registries.{two}
use turbocable_server.Tests.Connections.{news, limited}
use turbocable_server.Tests.Systems.{options, busy}

-- Connections remain for three rounds.
abbrev polls : ℕ → Poll
polls i = record { now = 5 + 100 * i; registry = if ltb i 3 then two else registry.new }

polls-IsPaced : IsPaced polls 5
polls-IsPaced = record { first = omega arith; later = λ i. omega arith }

drain_loop-Ends_example :
    (r : Drained) × (drain_loop 301 polls (5 + drain_timeout_ms) 0 ≡ some r) × Ends polls 5 r
drain_loop-Ends_example = drain_loop-Ends polls 5 polls-IsPaced

build_rate_limiter_agrees_example :
    Agree exact plain bounded
      (process_all plain exact bounded
        ((5, news) ∷ (6, news) ∷ [])
        (limited_by exact plain bounded (build_rate_limiter exact options) limited))
      (process_all plain exact bounded
        ((5, news) ∷ (6, news) ∷ [])
        (limited_by exact plain bounded (some (configured exact options)) limited))
build_rate_limiter_agrees_example =
    build_rate_limiter_agrees exact plain bounded options ((5, news) ∷ (6, news) ∷ []) limited

abbrev key_file : Text → Option Bytes
key_file path = some (b'k' ∷ [])

-- NATS has the bucket, and a watch of it.
abbrev store : KeyStore
store = record { connects = true; has_bucket = true; fetched = missing; watches = true }

abbrev rotation : List Entry
rotation = entry [] ∷ entry (b'n' ∷ []) ∷ watch_error ∷ []

started :
    init_jwt_verifier trusting key_file store options
    ≡ running (some (record { key = b'k' ∷ []; pem = b'k' ∷ [] }), true)
unfolding init_jwt_verifier new_verifier start_nats_key_watcher
started = refl

init_jwt_verifier_guards_example :
    (pem key : Bytes) × (key_file (codes "key.pem") ≡ some pem)
    × (trusting.from_rsa_pem (last_valid trusting pem rotation) ≡ some key)
    × Holds trusting 50 key (some (b'u' ∷ [])) (room ∷ []) (some (b'u' ∷ []))
unfolding watch_loop update_key authorize verify
init_jwt_verifier_guards_example =
    init_jwt_verifier_guards trusting key_file store options (codes "key.pem") _ true refl started
      rotation 50 (some (b'u' ∷ [])) (room ∷ []) (some (b'u' ∷ [])) refl

-- A node that finds everything it asks for.
abbrev ready : NatsServer
ready = record {
  accepts = λ url. true;
  has_stream = λ config. true;
  has_bucket = λ name. false;
  creates_bucket = λ config. true;
}

abbrev binds : ℕ → Bool
binds port = ltb 1023 port

boot-Serves_example :
    Serves plain exact bounded counting trusting ℕ key_file store ready binds
      (idle 4)
      0
      options
      busy
      (omega arith)
      (boot plain exact bounded counting trusting ℕ key_file store ready binds (idle 4) 0 options)
boot-Serves_example =
    boot-Serves plain exact bounded counting trusting ℕ key_file store ready binds (idle 4) 0
      options busy (omega arith)

start_agrees_example :
    node_of plain exact bounded counting trusting ℕ key_file store ready binds
      (idle 4)
      0
      options
      (boot plain exact bounded counting trusting ℕ key_file store ready binds (idle 4) 0 options)
    ≡ start plain exact bounded counting trusting ℕ key_file store ready binds (idle 4) 0 options
start_agrees_example =
    start_agrees plain exact bounded counting trusting ℕ key_file store ready binds (idle 4) 0
      options (inl refl)

-- Two messages, an error, and an attempt that finds no stream; the limiter refuses the first.
abbrev attempts : List Attempt
attempts =
    record {
      has_stream = true;
      has_consumer = true;
      info = some 2;
      has_messages = true;
      events = message 5 news none ∷ lag_tick (some 1) ∷ message 7 news none ∷ message_error ∷ [];
    }
    ∷ record {
      has_stream = false;
      has_consumer = true;
      info = none;
      has_messages = true;
      events = [];
    }
    ∷ []

abbrev consumer : Consumer plain exact bounded
consumer = record { node = limited; nats_consumer_lag = 0; processed = 0; acked = [] }

fanout_loop_acks_example :
    ((fanout_loop plain exact bounded attempts consumer).node
      ≡ process_all plain exact bounded ((5, news) ∷ (7, news) ∷ []) limited)
    × ((fanout_loop plain exact bounded attempts consumer).acked ≡ news ∷ news ∷ [])
unfolding taken taken_events
fanout_loop_acks_example = fanout_loop_acks plain exact bounded attempts consumer

-- A bucket that keeps the time of the last write of each key.
abbrev dated_present : Text → ℕ → Dict Text ℕ → Bool
dated_present key now bucket = elim (get key bucket) [
  | none ↦ false
  | some last ↦ leb last now && ltb now (last + presence_ttl_ms)
]

dated_write :
    (key : Text) (written now : ℕ) (bucket : Dict Text ℕ)
    → written ≤ now
    → now < written + presence_ttl_ms
    → dated_present key now (insert key written bucket) ≡ true
dated_write key written now bucket before h =
    ground (arith, get-insert key key written bucket, eq_refl key)

dated_write_other :
    (key other : Text) (written now : ℕ) (bucket : Dict Text ℕ)
    → other ≢ key
    → dated_present key now (insert other written bucket) ≡ dated_present key now bucket
dated_write_other key other written now bucket distinct =
    ground (arith, get-insert other key written bucket, eq_iff other key)

dated_erase_other :
    (key other : Text) (now : ℕ) (bucket : Dict Text ℕ)
    → other ≢ key
    → dated_present key now (remove other bucket) ≡ dated_present key now bucket
dated_erase_other key other now bucket distinct =
    ground (arith, get-remove other key bucket, eq_iff other key)

abbrev dated : Expiring
dated = record {
  Bucket = Dict Text ℕ;
  write = insert;
  erase = remove;
  is_present = dated_present;
  is_present-write = dated_write;
  is_present-write_other = dated_write_other;
  is_present-erase_other = dated_erase_other;
}

abbrev here : Text
here = presence_key room (codes "u")

abbrev elsewhere : Text
elsewhere = presence_key room (codes "v")

elsewhere-ne-here : elsewhere ≢ here
unfolding presence_key text_beq
elsewhere-ne-here =
    let apart : (elsewhere == here) ≡ false = refl in ground (arith, eq_iff elsewhere here)

-- Another connection of the user refreshes the entry, and another user leaves.
abbrev requests : ℕ → List Request
requests n = puts here 80_000 ∷ deletes elsewhere ∷ []

-- Writes that are 40 ms late.
heartbeat_keeps_present_example :
    dated.is_present here 90_000
      (start_heartbeat dated room (codes "u") 1010 (λ n. 40) requests 3 (dated.write here 1000 []))
    ≡ true
heartbeat_keeps_present_example =
    heartbeat_keeps_present dated room (codes "u") 1000 1010 (λ n. 40) requests (omega arith)
      (λ n. omega arith) [] 3 90_000 (omega arith) (omega arith)
      (omega arith, omega arith, (elsewhere-ne-here, tt))

-- A key whose PEM ends in a letter of two bytes.
pubkey_shows_last_valid_example :
    pubkey_handler trusting (
      some (
        watch_loop trusting
          (entry (b'n' ∷ 195 ∷ 169 ∷ []) ∷ watch_error ∷ entry [] ∷ [])
          (record { key = b'k' ∷ []; pem = b'k' ∷ [] })))
    ≡ pem_file (b'n' ∷ 233 ∷ [])
unfolding last_valid current_pem as_bytes encode_char
pubkey_shows_last_valid_example =
    pubkey_shows_last_valid trusting (entry (b'n' ∷ 195 ∷ 169 ∷ []) ∷ watch_error ∷ entry [] ∷ [])
      (record { key = b'k' ∷ []; pem = b'k' ∷ [] }) (b'n' ∷ 233 ∷ []) refl (omega arith) refl

-- NATS has a key, but does not let it be watched, and no file is configured.
abbrev unwatched : KeyStore
unwatched = record {
  connects = true;
  has_bucket = true;
  fetched = found (b'k' ∷ []);
  watches = false;
}

runs_open_example :
    (init_jwt_verifier trusting key_file unwatched (record options { jwt_public_key_path = none })
      ≡ running (none, false))
    × ((now : ℕ) (token : Option Text)
        → authorize trusting now none token ≡ granted (star ∷ []) none)
runs_open_example =
    runs_open trusting key_file unwatched (record options { jwt_public_key_path = none }) refl refl
