-- ===== src/Channel/Bounded.antt =====
-- A concrete value of the channel interface: queues of one common capacity whose receivers stay
-- open. It shows that the laws of the interface can be met, and it runs in the tests.
use turbocable_server.Prelude.{
  ℕ, ◌≡◌, refl, Bool, true, false, List, [], ◌∷◌, ◌++◌, Bytes, if◌then◌else◌, ◌==◌, nat_eq, arith,
  ltb, length,
}
use turbocable_server.Channel.{Channels}

pub record Queues : Type 0 where
  pub capacity : ℕ
  pub queues : ℕ → List Bytes
  pub signals : ℕ → Bool

abbrev pub put : ℕ → Bytes → Queues → Queues
put s m w = record w { queues = λ t. if s == t then w.queues t ++ m ∷ [] else w.queues t }

abbrev pub offer : ℕ → Bytes → Queues → Bool × Queues
offer s m w = if ltb (length (w.queues s)) w.capacity then (true, put s m w) else (false, w)

pub queued-offer :
    (s t : ℕ) (m : Bytes) (w : Queues)
    → (offer s m w).1.queues t
      ≡ (if (if (offer s m w).0 then s == t else false) then w.queues t ++ m ∷ [] else w.queues t)
queued-offer s t m w = ground arith

pub signals-offer : (s t : ℕ) (m : Bytes) (w : Queues) → (offer s m w).1.signals t ≡ w.signals t
signals-offer s t m w = ground arith

abbrev pub bounded : Channels
bounded = record {
  World = Queues;
  try_send = offer;
  send = λ s m w. (true, put s m w);
  signal = λ s w. record w { signals = λ t. if s == t then true else w.signals t };
  queued = λ w. w.queues;
  signalled = λ w. w.signals;
  queued-try_send = queued-offer;
  queued-send = λ s t m w. refl;
  queued-signal = λ s t w. refl;
  signalled-try_send = signals-offer;
  signalled-send = λ s t m w. refl;
  signalled-signal = λ s t w. refl;
}

-- Empty channels with room for `n` payloads each.
abbrev pub idle : ℕ → Queues
idle n = record { capacity = n; queues = λ t. []; signals = λ t. false }
