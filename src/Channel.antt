-- ===== src/Channel.antt =====
-- The bounded channels of tokio (`mpsc::Sender`), which the gateway calls and does not implement:
-- an interface with the behaviour that tokio documents. A sender is a handle, and its clones are
-- the same handle. `World` is the state of all channels.
pub mod Bounded
use turbocable_server.Prelude.{
  ℕ, ◌≡◌, Bool, true, false, List, [], ◌∷◌, ◌++◌, Bytes, if◌then◌else◌, ◌==◌, nat_eq,
}

pub record Channels : Type 1 where
  pub World : Type 0
  -- `sender.try_send(payload)`: whether it was accepted, and the channels afterwards.
  pub try_send : ℕ → Bytes → World → Bool × World
  -- `sender.send(payload).await`: false when the receiver is gone.
  pub send : ℕ → Bytes → World → Bool × World
  -- `evict_tx.try_send(())`, whose result is not looked at.
  pub signal : ℕ → World → World
  -- What was accepted on a channel and is still to be received, oldest first.
  pub queued : World → ℕ → List Bytes
  -- Whether an eviction signal waits on a channel.
  pub signalled : World → ℕ → Bool
  pub queued-try_send :
      (s t : ℕ) (m : Bytes) (w : World)
      → queued (try_send s m w).1 t ≡ (
          if (if (try_send s m w).0 then s == t else false)
          then queued w t ++ m ∷ []
          else queued w t)
  pub queued-send :
      (s t : ℕ) (m : Bytes) (w : World)
      → queued (send s m w).1 t
        ≡ (if (if (send s m w).0 then s == t else false) then queued w t ++ m ∷ [] else queued w t)
  pub queued-signal : (s t : ℕ) (w : World) → queued (signal s w) t ≡ queued w t
  pub signalled-try_send :
      (s t : ℕ) (m : Bytes) (w : World) → signalled (try_send s m w).1 t ≡ signalled w t
  pub signalled-send :
      (s t : ℕ) (m : Bytes) (w : World) → signalled (send s m w).1 t ≡ signalled w t
  pub signalled-signal :
      (s t : ℕ) (w : World) → signalled (signal s w) t ≡ (if s == t then true else signalled w t)
