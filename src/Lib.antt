-- ===== src/Lib.antt =====
-- turbocable-server: a WebSocket gateway that fans messages of NATS JetStream out to the subscribers
-- of streams. Clients connect over WebSocket, say hello, and subscribe to streams; messages that are
-- published on a stream come in from JetStream and go out to each subscriber in its encoding; a client
-- that reconnects gets what it missed by a replay.
--
-- The parts, the files of the repository, and the modules that model them:
-- * The registry of connections and subscriptions, src/connection/registry.rs: Registry. A `DashMap` is
--   a dictionary (Prelude.Dict), an `AtomicU64` a number modulo 2 ^ 64, and each method one step on the
--   whole registry. Registry.Spec is the abstract registry, two relations and a counter.
--   Registry.Concurrent has the same methods access by access, for tasks that run at the same time.
-- * The channels between the tasks are tokio's: the interface Channel, and Channel.Bounded as an
--   instance. A sender is a handle, and all channels are one `World`.
-- * The limits: src/connection/limiter.rs in Limiter, src/fanout/mod.rs in RateLimiter. Floating-point
--   numbers are the interface `F64`, with the laws of order that the code relies on, and
--   RateLimiter.Exact is an instance that counts billionths.
-- * The tokens and keys, src/auth: Auth, over the interface `Jwt` of the crate jsonwebtoken, and
--   KeyWatcher for the requests that load a key from NATS and follow it there.
-- * The frames and codecs, src/protocol: Protocol, over the interface `Serde` of the serializers.
-- * The messages of JetStream, src/pubsub/nats.rs: Nats for `process_nats_message`, Nats.Consumer for
--   `run_consumer` and `fanout_loop`, Replay for `replay_since`. What JetStream answers and delivers
--   comes in as values.
-- * The connections, src/connection/handler.rs: Handler for `handle_client_frame` and
--   `dispatch_command`, ReplayTask for the task that a subscription spawns, Socket for `inbound_loop`
--   and `handle_socket` up to its await of the outbound task, Outbound for `outbound_loop`, and Outbound.Arrivals for what other tasks put
--   on its channels between its turns.
-- * Presence, src/presence/mod.rs: Presence, over the interface `Services` of the NATS client, and
--   Presence.Heartbeat, over the bucket `Expiring`.
-- * Configuration, src/config.rs: Config, for the options, the enforcement phases and the rate-limit
--   overrides.
-- * The whole node, src/connection/handler.rs and src/pubsub/nats.rs together: System. Its state holds
--   all running connections; a `Move` is the acceptance of a connection, a frame, a ping or the end of
--   one, a message of JetStream or an entry of the key watch, and `run` takes any list of moves. System.Evolves says what a step
--   may do to the registry, System.Sound what every reachable state satisfies, and System.Traced which
--   tokens stand behind its replays.
-- * The process, src/server.rs: Server for the verifier and the limiter that `run` sets up, the drain at
--   its end and the handlers of /health and /pubkey, Server.Setup for its start as a whole and
--   Server.Start for the start that the integration tests use.
-- * The metrics, src/metrics.rs: Metrics, the table of them and its registration once per process, over
--   the interface `Prometheus` of that crate.
-- * The publisher for load tests, src/bin/publish.rs: Publish, over what NATS and the clocks answer.
-- * Text has the functions of `str` that the code calls, over code points, and Text.Utf8 the encoding.
--
-- How they interact: Socket accepts a connection through Limiter, Auth and Registry, runs Handler on
-- each frame, and gives all of it back at the end; Handler subscribes in Registry and hands replays to
-- ReplayTask, which runs Replay; Nats fans a message out through RateLimiter and Registry; and what all
-- of them put on channels is what Outbound writes to the socket. System lets all of this run
-- interleaved, from the state that Server.Setup builds.
--
-- Loops are recursions on the list that they consume: fetches, payloads, events, subscribers, moves.
-- Three have fuel. The outbound loop has a number of turns: while the channels are open and something
-- waits, a turn sends at least one payload, so one more turn than there are payloads is enough for it
-- to wait. The drain loop has a number of rounds: 301 are enough, since a round takes at least 100 ms
-- and the deadline is 30 s away. The loop of the publisher has one turn for each nanosecond of its
-- duration and one more, since a tick comes at least a nanosecond after the one before.
--
-- Not modelled: what NATS does with a request, HTTP routes, the options of the listener and the
-- signals, the rendering of the metrics, logging, and the timers other than the heartbeat and the drain.
-- A frame is one step of the node: it touches the registry at most once, and what other tasks do while
-- it waits for a channel or for NATS is put before or after it. In System a method of the registry is
-- one step too; what its single accesses do when they interleave is shown in Registry.Concurrent, where
-- the calls for one connection come from its own task, one after the other. A burst of `outbound_loop`
-- is one turn: what arrives during it is put before or after it. The text of errors is left out.
mod Prelude
pub mod Channel
pub mod Text
pub mod Auth
pub mod Limiter
pub mod Config
pub mod RateLimiter
pub mod Protocol
pub mod Nats
pub mod Replay
pub mod Registry
pub mod Presence
pub mod Handler
pub mod Socket
pub mod ReplayTask
pub mod Outbound
pub mod KeyWatcher
pub mod Metrics
pub mod System
pub mod Server
pub mod Publish
mod Tests
