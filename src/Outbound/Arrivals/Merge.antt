-- ===== src/Outbound/Arrivals/Merge.antt =====
-- src/connection/handler.rs: the frames of a connection from its channels to its socket, whatever
-- arrives between the turns of `outbound_loop`.
use turbocable_server.Prelude.{◌≡◌, refl, sym, ap, ◌∙◌, Bool, true, List, [], ◌∷◌, ◌++◌, Bytes}
use mathlib.Core.List.{append-nil, append_assoc}
use turbocable_server.Outbound.{Message, Sink, Outbound, Turn, pending, next, finished}
use turbocable_server.Outbound.Order.{sent_all}
use turbocable_server.Outbound.Arrivals.{
  Event, live_frame, replay_frame, urgent_frame, evicts, shuts_down, senders_drop, takes_turn,
  arrive, with_event, happen, run_events, replays_of, lives_of,
}
use turbocable_server.Outbound.Arrivals.Turns.{
  Same, Ended, Did, waits, goes_on, replays, lives, ends, turn-Did,
}

-- A list is made of two, each in its order.
pub data IsMerge : List Bytes → List Bytes → List Bytes → Type 0 where
  done : IsMerge [] [] []
  replay :
      {rs ls out : List Bytes} (frame : Bytes)
      → IsMerge rs ls out
      → IsMerge (frame ∷ rs) ls (frame ∷ out)
  live :
      {rs ls out : List Bytes} (frame : Bytes)
      → IsMerge rs ls out
      → IsMerge rs (frame ∷ ls) (frame ∷ out)

replays-IsMerge : (burst : List Bytes) → IsMerge burst [] burst
replays-IsMerge [] = done
replays-IsMerge (frame ∷ burst) = replay frame (replays-IsMerge burst)

lives-IsMerge : (burst : List Bytes) → IsMerge [] burst burst
lives-IsMerge [] = done
lives-IsMerge (frame ∷ burst) = live frame (lives-IsMerge burst)

append-IsMerge :
    {rs ls out : List Bytes} (rs' ls' out' : List Bytes)
    → IsMerge rs ls out
    → IsMerge rs' ls' out'
    → IsMerge (rs ++ rs') (ls ++ ls') (out ++ out')
append-IsMerge rs' ls' out' done m' = m'
append-IsMerge rs' ls' out' (replay frame m) m' = replay frame (append-IsMerge rs' ls' out' m m')
append-IsMerge rs' ls' out' (live frame m) m' = live frame (append-IsMerge rs' ls' out' m m')

module _ (sink : Sink) (is_binary : Bool) (disconnect_frame : Bytes) where
  open sink use {Socket, send, close}

  abbrev sent : List Bytes → Socket → Socket
  sent = sent_all sink is_binary disconnect_frame

  sent-append :
      (xs ys : List Bytes) (socket : Socket) → sent (xs ++ ys) socket ≡ sent ys (sent xs socket)
  sent-append [] ys socket = refl
  sent-append (x ∷ xs) ys socket = sent-append xs ys _

  module _ (first : Socket) where
    -- The socket has taken a merge of frames of the two channels, and what arrived on a channel is
    -- what of it was sent, then what waits.
    pub record Accounts (replayed lived : List Bytes) (o : Outbound sink) : Type 0 where
      pub sent_replays : List Bytes
      pub sent_lives : List Bytes
      pub out : List Bytes
      pub is_merge : IsMerge sent_replays sent_lives out
      pub replay_parts : sent_replays ++ o.replay_rx.waiting ≡ replayed
      pub live_parts : sent_lives ++ o.live_rx.waiting ≡ lived
      pub written : o.socket ≡ sent out first

    -- A loop that has ended did so from a state that accounts for what had arrived by then.
    abbrev pub Accounted : List Bytes → List Bytes → Turn sink → Type 0
    Accounted replayed lived (pending o) = Accounts replayed lived o
    Accounted replayed lived (next o) = Accounts replayed lived o
    Accounted replayed lived (finished o) =
        (o' : Outbound sink) × (replayed' : List Bytes) × (later : List Bytes) × (lived' : List
          Bytes)
        × (later' : List Bytes) × (replayed' ++ later ≡ replayed)
        × (lived' ++ later' ≡ lived)
        × Accounts replayed' lived' o'
        × Ended sink is_binary disconnect_frame o' o

    module _ (works : (msg : Message) (socket : Socket) → (send msg socket).0 ≡ true) where
      sends-Accounts :
          (replayed lived rs ls burst : List Bytes) (o o' : Outbound sink)
          → Accounts replayed lived o
          → IsMerge rs ls burst
          → o.replay_rx.waiting ≡ rs ++ o'.replay_rx.waiting
          → o.live_rx.waiting ≡ ls ++ o'.live_rx.waiting
          → o'.socket ≡ sent burst o.socket
          → Accounts replayed lived o'
      sends-Accounts replayed lived rs ls burst o o' a m er el es = record {
        sent_replays = a.sent_replays ++ rs;
        sent_lives = a.sent_lives ++ ls;
        out = a.out ++ burst;
        is_merge = append-IsMerge rs ls burst a.is_merge m;
        replay_parts =
            append_assoc a.sent_replays rs o'.replay_rx.waiting
            ∙ ap (λ z. a.sent_replays ++ z) (sym er)
            ∙ a.replay_parts;
        live_parts =
            append_assoc a.sent_lives ls o'.live_rx.waiting
            ∙ ap (λ z. a.sent_lives ++ z) (sym el)
            ∙ a.live_parts;
        written = es ∙ ap (sent burst) a.written ∙ sym (sent-append a.out burst first);
      }

      quiet_turn-Accounts :
          (replayed lived : List Bytes) (o o' : Outbound sink)
          → Accounts replayed lived o
          → Same sink is_binary disconnect_frame o o'
          → Accounts replayed lived o'
      quiet_turn-Accounts replayed lived o o' a (er, el, es) =
          sends-Accounts replayed lived [] [] [] o o' a done (sym er) (sym el) es

      turn-Accounted :
          (replayed lived : List Bytes) (o : Outbound sink)
          → Accounts replayed lived o
          → (t : Turn sink) → Did sink is_binary disconnect_frame o t
          → Accounted replayed lived t
      turn-Accounted replayed lived o a _ (waits o' same) =
          quiet_turn-Accounts replayed lived o o' a same
      turn-Accounted replayed lived o a _ (goes_on o' same) =
          quiet_turn-Accounts replayed lived o o' a same
      turn-Accounted replayed lived o a _ (replays burst o' er el es) =
          sends-Accounts replayed lived burst [] burst o o' a (replays-IsMerge burst) er (sym el) es
      turn-Accounted replayed lived o a _ (lives payload o' er el es) =
          sends-Accounts replayed lived [] (payload ∷ []) (payload ∷ []) o o' a
            (lives-IsMerge (payload ∷ [])) (sym er) el es
      turn-Accounted replayed lived o a _ (ends o' ended) =
          (o, replayed, [], lived, [], append-nil replayed, append-nil lived, a, ended)

      -- Frames that arrive wait behind what is there.
      gains-Accounts :
          (replayed lived rs ls : List Bytes) (o o' : Outbound sink)
          → Accounts replayed lived o
          → o'.replay_rx.waiting ≡ o.replay_rx.waiting ++ rs
          → o'.live_rx.waiting ≡ o.live_rx.waiting ++ ls
          → o'.socket ≡ o.socket
          → Accounts (replayed ++ rs) (lived ++ ls) o'
      gains-Accounts replayed lived rs ls o o' a er el es = record {
        sent_replays = a.sent_replays;
        sent_lives = a.sent_lives;
        out = a.out;
        is_merge = a.is_merge;
        replay_parts =
            ap (λ z. a.sent_replays ++ z) er
            ∙ sym (append_assoc a.sent_replays o.replay_rx.waiting rs)
            ∙ ap (λ z. z ++ rs) a.replay_parts;
        live_parts =
            ap (λ z. a.sent_lives ++ z) el
            ∙ sym (append_assoc a.sent_lives o.live_rx.waiting ls)
            ∙ ap (λ z. z ++ ls) a.live_parts;
        written = es ∙ a.written;
      }

      event-Accounted :
          (replayed lived : List Bytes) (event : Event) (o : Outbound sink)
          → Accounts replayed lived o
          → Accounted
              (replayed ++ replays_of (event ∷ []))
              (lived ++ lives_of (event ∷ []))
              (with_event sink is_binary disconnect_frame event o)
      unfolding arrive
      event-Accounted replayed lived (live_frame payload) o a =
          gains-Accounts replayed lived [] (payload ∷ []) o _ a (sym (append-nil _)) refl refl
      event-Accounted replayed lived (replay_frame payload) o a =
          gains-Accounts replayed lived (payload ∷ []) [] o _ a refl (sym (append-nil _)) refl
      event-Accounted replayed lived (urgent_frame payload) o a =
          gains-Accounts replayed lived [] [] o _ a (sym (append-nil _)) (sym (append-nil _)) refl
      event-Accounted replayed lived evicts o a =
          gains-Accounts replayed lived [] [] o _ a (sym (append-nil _)) (sym (append-nil _)) refl
      event-Accounted replayed lived shuts_down o a =
          gains-Accounts replayed lived [] [] o _ a (sym (append-nil _)) (sym (append-nil _)) refl
      event-Accounted replayed lived senders_drop o a =
          gains-Accounts replayed lived [] [] o _ a (sym (append-nil _)) (sym (append-nil _)) refl
      event-Accounted replayed lived takes_turn o a =
          rw (append-nil replayed, append-nil lived)
            (turn-Accounted replayed lived o a _ (turn-Did sink is_binary disconnect_frame works o))

      happen-Accounted :
          (replayed lived : List Bytes) (event : Event) (t : Turn sink)
          → Accounted replayed lived t
          → Accounted
              (replayed ++ replays_of (event ∷ []))
              (lived ++ lives_of (event ∷ []))
              (happen sink is_binary disconnect_frame event t)
      unfolding happen
      happen-Accounted replayed lived event (pending o) a = event-Accounted replayed lived event o a
      happen-Accounted replayed lived event (next o) a = event-Accounted replayed lived event o a
      happen-Accounted replayed lived event (finished o)
            (o', replayed', later, lived', later', er, el, a, ended) =
          let rs = replays_of (event ∷ []) in
          let ls = lives_of (event ∷ []) in
          (
            o',
            replayed',
            later ++ rs,
            lived',
            later' ++ ls,
            sym (append_assoc replayed' later rs) ∙ ap (λ z. z ++ rs) er,
            sym (append_assoc lived' later' ls) ∙ ap (λ z. z ++ ls) el,
            a,
            ended,
          )

      replays_of-cons :
          (event : Event) (events : List Event)
          → replays_of (event ∷ events) ≡ replays_of (event ∷ []) ++ replays_of events
      replays_of-cons (live_frame _) events = refl
      replays_of-cons (replay_frame _) events = refl
      replays_of-cons (urgent_frame _) events = refl
      replays_of-cons evicts events = refl
      replays_of-cons shuts_down events = refl
      replays_of-cons senders_drop events = refl
      replays_of-cons takes_turn events = refl

      lives_of-cons :
          (event : Event) (events : List Event)
          → lives_of (event ∷ events) ≡ lives_of (event ∷ []) ++ lives_of events
      lives_of-cons (live_frame _) events = refl
      lives_of-cons (replay_frame _) events = refl
      lives_of-cons (urgent_frame _) events = refl
      lives_of-cons evicts events = refl
      lives_of-cons shuts_down events = refl
      lives_of-cons senders_drop events = refl
      lives_of-cons takes_turn events = refl

      run-Accounted :
          (events : List Event) (replayed lived : List Bytes) (t : Turn sink)
          → Accounted replayed lived t
          → Accounted
              (replayed ++ replays_of events)
              (lived ++ lives_of events)
              (run_events sink is_binary disconnect_frame events t)
      unfolding run_events
      run-Accounted [] replayed lived t a = rw (append-nil replayed, append-nil lived) a
      run-Accounted (event ∷ events) replayed lived t a =
          rw
            (
              replays_of-cons event events,
              lives_of-cons event events,
              ← append_assoc replayed (replays_of (event ∷ [])) (replays_of events),
              ← append_assoc lived (lives_of (event ∷ [])) (lives_of events),
            )
            (run-Accounted events _ _ _ (happen-Accounted replayed lived event t a))

  -- On a socket that takes every frame, from any state and whatever happens between the turns: as
  -- long as the loop runs, what went out is a merge of frames of the replay channel and the live
  -- channel, and on each channel the frames that went out, followed by those that wait, are the
  -- ones that arrived, in their order. A loop that has ended did so from such a state, for one of
  -- four reasons: it was evicted, or an urgent frame waited, and it closed the socket after the
  -- disconnect frame or that frame; or the shutdown was signalled, and it flushed both channels
  -- before the close frame 1001; or the live senders were gone and no live frame waited, and it
  -- closed the socket.
  pub outbound_loop_accounts :
      (works : (msg : Message) (socket : Socket) → (send msg socket).0 ≡ true)
      → (events : List Event) (o : Outbound sink)
      → Accounted o.socket
          (o.replay_rx.waiting ++ replays_of events)
          (o.live_rx.waiting ++ lives_of events)
          (run_events sink is_binary disconnect_frame events (next o))
  outbound_loop_accounts works events o =
      run-Accounted o.socket works events o.replay_rx.waiting o.live_rx.waiting (next o) (record {
        sent_replays = [];
        sent_lives = [];
        out = [];
        is_merge = done;
        replay_parts = refl;
        live_parts = refl;
        written = refl;
      })
