-- ===== src/Server/Shutdown.antt =====
-- src/server.rs with src/connection/handler.rs: the shutdown of a node. After the signal no connection
-- is accepted, and each running one ends by the shutdown arm of its `inbound_loop`, at any time and
-- in any order.
use turbocable_server.Prelude.{
  ℕ, suc, ◌+◌, ◌<◌, ◌≡◌, refl, subst, Bool, true, false, ◌||◌, Option, none, some, List, [], ◌∷◌,
  ◌++◌, Text, Bytes, is_some, length, eq_iff, ◌==◌, KeyEq, nat_eq, text_eq, arith, Option-cases,
  inl, inr, if◌then◌else◌,
}
use turbocable_server.Prelude.Dict.{get, get-insert, get-remove}
use turbocable_server.Config.{Config}
use turbocable_server.Auth.{Jwt, JwtVerifier}
use turbocable_server.Limiter.{count_for}
use turbocable_server.Channel.{Channels}
use turbocable_server.Protocol.{Serde}
use turbocable_server.Presence.{Services}
use turbocable_server.RateLimiter.{F64, StreamRateLimiter}
use turbocable_server.Registry.{u64_mod, subscribers, connection_count}
use turbocable_server.Handler.{AppState, Gateway, handle_client_frame}
use turbocable_server.Socket.{send_ping}
use turbocable_server.System.{
  Move, opens, frame, pings, ends, arrives, rotates, rotate, Conn, System, run_frame, run_end,
  run_ping, after_ping, of_running, deliver_message, step, run, initial,
}
use turbocable_server.System.Privacy.{nothing_left, get_nothing}
use turbocable_server.Server.{Poll, drained, drain_loop}

-- What may happen after the signal, and the end of a connection.
unfoldable pub is_open : {Ip : Type 0} → Move Ip → Bool
is_open (opens _ _ _ _ _) = true
is_open (frame _ _) = false
is_open (pings _ _) = false
is_open (ends _) = false
is_open (arrives _ _) = false
is_open (rotates _) = false

unfoldable pub none_opens : {Ip : Type 0} → List (Move Ip) → Bool
unfolding is_open
none_opens [] = true
none_opens (move ∷ moves) = let rest = none_opens moves in if is_open move then false else rest

abbrev pub is_end : {Ip : Type 0} → ℕ → Move Ip → Bool
is_end c (ends d) = d == c
is_end c (opens _ _ _ _ _) = false
is_end c (frame _ _) = false
is_end c (pings _ _) = false
is_end c (arrives _ _) = false
is_end c (rotates _) = false

unfoldable pub ends_in : {Ip : Type 0} → ℕ → List (Move Ip) → Bool
ends_in c [] = false
ends_in c (move ∷ moves) = is_end c move || ends_in c moves

module _ (serde : Serde) (f : F64) (ch : Channels) (services : Services) (app : AppState)
    (jwt : Jwt) (Ip : Type 0) ⦃e : KeyEq Ip⦄ where
  abbrev Node : Type 0
  Node = System serde f ch services app jwt Ip

  abbrev runs : ℕ → Node → Bool
  runs c s = is_some (get c s.running)

  -- A step that accepts nobody lets nobody in, and the end of a connection takes it out.
  abbrev Shrinks : ℕ → Bool → Node → Node → Type 0
  Shrinks d gone s s' = runs d s' ≡ true → (runs d s ≡ true) × (gone ≡ false)

  run_end-Shrinks :
      (d c : ℕ) (conn : Conn serde f ch services app jwt Ip) (s : Node)
      → Shrinks d (c == d) s (run_end serde f ch services app jwt Ip c conn s)
  unfolding run_end
  run_end-Shrinks d c conn s h = ground (arith, get-remove c d s.running)

  run_frame-Shrinks :
      (d : ℕ) (bytes : Bytes) (c : ℕ) (conn : Conn serde f ch services app jwt Ip) (s : Node)
      → get c s.running ≡ some conn
      → Shrinks d false s (run_frame serde f ch services app jwt Ip bytes c conn s)
  unfolding run_frame
  run_frame-Shrinks d bytes c conn s here h =
      let after =
        handle_client_frame serde ch services app conn.ctx bytes conn.session s.node.gateway in
      ground (arith, get-insert c d (record conn { session = after.0 }) s.running, eq_iff c d, here)

  run_ping-Shrinks :
      (d ts c : ℕ) (conn : Conn serde f ch services app jwt Ip) (s : Node)
      → Shrinks d false s (run_ping serde f ch services app jwt Ip ts c conn s)
  unfolding run_ping run_end
  run_ping-Shrinks d ts c conn s =
      pinged (send_ping serde ch services app conn.ctx ts s.node.gateway)
    where
      pinged :
          (sent : Bool × Gateway serde ch services)
          → Shrinks d false s (after_ping serde f ch services app jwt Ip c conn sent s)
      pinged (true, g) h = (h, refl)
      pinged (false, g) h = ground (arith, get-remove c d s.running)

  of_running-Shrinks :
      (d c : ℕ) (gone : Bool) (act : Conn serde f ch services app jwt Ip → Node → Node) (s : Node)
      → (get c s.running ≡ none → runs d s ≡ true → gone ≡ false)
      → ((conn : Conn serde f ch services app jwt Ip)
          → get c s.running ≡ some conn
          → Shrinks d gone s (act conn s))
      → Shrinks d gone s (of_running serde f ch services app jwt Ip c act s)
  of_running-Shrinks d c gone act s absent acts = elim (Option-cases (get c s.running)) [
    | inl over ↦ rw (over, of_running) (λ h. (h, absent over h))
    | inr (conn, here) ↦ rw (here, of_running) (acts conn here)
  ]

  step-Shrinks :
      (d : ℕ) (move : Move Ip) (s : Node)
      → is_open move ≡ false
      → Shrinks d (is_end d move) s (step serde f ch services app jwt Ip move s)
  unfolding step is_open deliver_message rotate
  step-Shrinks d (opens _ _ _ _ _) s shut = cc
  step-Shrinks d (frame c bytes) s shut =
      of_running-Shrinks d c false (run_frame serde f ch services app jwt Ip bytes c) s
        (λ _ _. refl) (λ conn here. run_frame-Shrinks d bytes c conn s here)
  step-Shrinks d (pings c ts) s shut =
      of_running-Shrinks d c false (run_ping serde f ch services app jwt Ip ts c) s (λ _ _. refl)
        (λ conn here. run_ping-Shrinks d ts c conn s)
  step-Shrinks d (ends c) s shut =
      of_running-Shrinks d c (c == d) (run_end serde f ch services app jwt Ip c) s
        (λ over h. ground (arith, eq_iff c d, over, h)) (λ conn here. run_end-Shrinks d c conn s)
  step-Shrinks d (arrives now msg) s shut = λ h. (h, refl)
  step-Shrinks d (rotates item) s shut = λ h. (h, refl)

  run-Shrinks :
      (d : ℕ) (moves : List (Move Ip)) (s : Node)
      → none_opens moves ≡ true
      → Shrinks d (ends_in d moves) s (run serde f ch services app jwt Ip moves s)
  unfolding run none_opens ends_in
  run-Shrinks d [] s shut h = (h, refl)
  run-Shrinks d (move ∷ moves) s shut h =
      let (still, later) =
        run-Shrinks d moves (step serde f ch services app jwt Ip move s) (ground arith) h in
      let (here, now) = step-Shrinks d move s (ground arith) still in
      (here, ground (arith, later, now))

  run-append :
      (before after : List (Move Ip)) (s : Node)
      → run serde f ch services app jwt Ip (before ++ after) s
        ≡ run serde f ch services app jwt Ip after (run serde f ch services app jwt Ip before s)
  unfolding run
  run-append [] after s = refl
  run-append (move ∷ before) after s =
      run-append before after (step serde f ch services app jwt Ip move s)

  module _ (cfg : Config) (verifier : Option (JwtVerifier jwt) × Bool)
      (rate_limiter : Option (StreamRateLimiter f)) (world : Channels.World ch)
      (state : Services.State services) (before after : List (Move Ip))
      (room : length (before ++ after) + 1 < u64_mod) where
    -- The node when the signal comes, and when all that happens after it has happened.
    abbrev pub signalled : Node
    signalled =
        run serde f ch services app jwt Ip before
          (initial serde f ch services app jwt Ip cfg verifier rate_limiter world state)

    abbrev pub finished : Node
    finished = run serde f ch services app jwt Ip after signalled

    all_gone :
        none_opens after ≡ true
        → ((c : ℕ) → is_some (get c signalled.running) ≡ true → ends_in c after ≡ true)
        → finished.running ≡ []
    all_gone shut closing =
        get_nothing finished.running
          (λ c. ground (arith, run-Shrinks c after signalled shut, closing c))

    -- From any state that the node reaches, over fewer than 2 ^ 64 - 1 steps in all, and however
    -- frames, pings, messages and ends follow one another after the signal: once no connection is
    -- accepted any more and each running one has had its end, no address holds a slot of the
    -- limiter, nothing is registered, no stream has a subscriber, and a round of the drain loop that
    -- finds this registry ends the drain as complete, whatever the time.
    pub shutdown_drains :
        none_opens after ≡ true
        → ((c : ℕ) → is_some (get c signalled.running) ≡ true → ends_in c after ≡ true)
        → (polls : ℕ → Poll) (fuel deadline i : ℕ)
        → (polls i).registry ≡ finished.node.gateway.registry
        → ((ip : Ip) → count_for ip finished.node.limiter ≡ 0)
          × (finished.node.gateway.registry.connections ≡ [])
          × ((stream : Text) → subscribers finished.node.gateway.registry stream ≡ [])
          × (drain_loop (suc fuel) polls deadline i ≡ some (drained i))
    unfolding drain_loop connection_count
    shutdown_drains shut closing polls fuel deadline i seen =
        let joined =
          run-append before after
            (initial serde f ch services app jwt Ip cfg verifier rate_limiter world state) in
        let (slots, connections, active, streams) =
          subst
            (λ (s : Node).
              s.running ≡ []
              → ((ip : Ip) → count_for ip s.node.limiter ≡ 0)
                × (s.node.gateway.registry.connections ≡ [])
                × (s.node.gateway.registry.active ≡ 0)
                × ((stream : Text) → subscribers s.node.gateway.registry stream ≡ []))
            joined
            (nothing_left serde f ch services app jwt Ip cfg verifier rate_limiter world state
              (before ++ after) room)
            (all_gone shut closing) in
        (slots, connections, streams, ground (arith, seen, active))
