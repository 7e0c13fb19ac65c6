-- ===== src/Presence/Heartbeat.antt =====
-- src/presence/mod.rs: the heartbeat of a presence entry against the expiry of the bucket, while
-- other tasks write and delete. Times are in milliseconds. The bucket is NATS', and enters as the
-- interface `Expiring`, with what NATS documents of a key and of `max_age`: an entry is kept that
-- long after it was written, unless its key is written again or deleted.
use turbocable_server.Prelude.{
  ℕ, zero, suc, ◌+◌, ◌*◌, ◌≤◌, ◌<◌, ◌≡◌, ◌≢◌, ◌∙◌, Bool, true, List, [], ◌∷◌, Text, text_eq, ◌==◌,
  eq_iff, subst, sym, Bool-cases, inl, inr, arith,
}
use turbocable_server.Presence.{presence_key}

-- `PRESENCE_TTL_SECS`, the `max_age` of the bucket, and `HEARTBEAT_INTERVAL_SECS`.
abbrev pub presence_ttl_ms : ℕ
presence_ttl_ms = 30 * 1000

abbrev pub heartbeat_interval_ms : ℕ
heartbeat_interval_ms = 25 * 1000

pub record Expiring : Type 1 where
  pub Bucket : Type 0
  -- A write of a key that reaches the bucket at a time, a delete that does, and whether a reader
  -- finds a key at a time.
  pub write : Text → ℕ → Bucket → Bucket
  pub erase : Text → Bucket → Bucket
  pub is_present : Text → ℕ → Bucket → Bool
  pub is_present-write :
      (key : Text) (written now : ℕ) (bucket : Bucket)
      → written ≤ now
      → now < written + presence_ttl_ms
      → is_present key now (write key written bucket) ≡ true
  pub is_present-write_other :
      (key other : Text) (written now : ℕ) (bucket : Bucket)
      → other ≢ key
      → is_present key now (write other written bucket) ≡ is_present key now bucket
  pub is_present-erase_other :
      (key other : Text) (now : ℕ) (bucket : Bucket)
      → other ≢ key
      → is_present key now (erase other bucket) ≡ is_present key now bucket

-- What another task does to the bucket: a write that reaches it at a time, or a delete.
pub data Request : Type 0 where
  puts : Text → ℕ → Request
  deletes : Text → Request

-- Requests from one time to another that do not delete the key.
abbrev pub Spares : Text → ℕ → ℕ → List Request → Type 0
Spares key since now [] = Unit
Spares key since now (puts other written ∷ rest) =
    (since ≤ written) × (written ≤ now) × Spares key since now rest
Spares key since now (deletes other ∷ rest) = (other ≢ key) × Spares key since now rest

module _ (kv : Expiring) where
  open kv use {
    Bucket, write, erase, is_present, is_present-write, is_present-write_other,
    is_present-erase_other,
  }

  abbrev pub reached : List Request → Bucket → Bucket
  reached [] bucket = bucket
  reached (puts key written ∷ rest) bucket = reached rest (write key written bucket)
  reached (deletes key ∷ rest) bucket = reached rest (erase key bucket)

  is_present-reached :
      (key : Text) (since now : ℕ) (requests : List Request) (bucket : Bucket)
      → now < since + presence_ttl_ms
      → Spares key since now requests
      → is_present key now bucket ≡ true
      → is_present key now (reached requests bucket) ≡ true
  is_present-reached key since now [] bucket soon spares h = h
  is_present-reached key since now (puts other written ∷ rest) bucket soon spares h =
      is_present-reached key since now rest (write other written bucket) soon spares.2
        (elim (Bool-cases (other == key)) [
          | inl same ↦
              let e : key ≡ other = sym ((eq_iff other key).0 same) in
              subst (λ k. is_present key now (write k written bucket) ≡ true) e
                (is_present-write key written now bucket spares.1 (omega (arith, spares.0)))
          | inr distinct ↦
              is_present-write_other key other written now bucket (ground (arith, eq_iff other key))
              ∙ h
        ])
  is_present-reached key since now (deletes other ∷ rest) bucket soon spares h =
      is_present-reached key since now rest (erase other bucket) soon spares.1
        (is_present-erase_other key other now bucket spares.0 ∙ h)

  -- The loop of the heartbeat task that was started at `start`, in its first rounds: the write
  -- after each tick but the first reaches the bucket `late` after the tick. `others` is what other
  -- tasks request after each of its writes and before the next one.
  unfoldable pub start_heartbeat :
      Text → Text → ℕ → (ℕ → ℕ) → (ℕ → List Request) → ℕ → Bucket → Bucket
  start_heartbeat stream user_id start late others zero bucket = reached (others 0) bucket
  start_heartbeat stream user_id start late others (suc n) bucket = reached (others (suc n)) (
      write (presence_key stream user_id) (start + heartbeat_interval_ms * suc n + late (suc n))
        (start_heartbeat stream user_id start late others n bucket))

  module _ (stream user_id : Text) (first start : ℕ) (late : ℕ → ℕ) (others : ℕ → List Request)
      (before : first ≤ start) (timely : (n : ℕ) → start + late n < first + 5000)
      (bucket : Bucket) where
    -- The bucket once the subscription has written the key and the heartbeat has written it n times.
    abbrev pub kept : ℕ → Bucket
    kept n =
        start_heartbeat stream user_id start late others n
          (write (presence_key stream user_id) first bucket)

    -- The time of the last of these writes.
    abbrev pub landed : ℕ → ℕ
    landed zero = first
    landed (suc n) = start + heartbeat_interval_ms * suc n + late (suc n)

    next_write : (n : ℕ) → landed (suc n) < landed n + presence_ttl_ms
    next_write zero = omega (arith, timely 1)
    next_write (suc n) = omega (arith, timely (suc (suc n)))

    -- The subscription wrote the key at `first`, and the heartbeat was started at `start`; each of
    -- its writes reaches the bucket so soon after its tick that less than 5 s are lost, those from
    -- `first` to `start` included. Then, whatever else was written and deleted earlier, the entry
    -- is there at every moment from one of these writes, that of the subscription included, to the
    -- next, provided that since that write no other task has deleted the key, as another
    -- connection of the same user does when it leaves the stream.
    pub heartbeat_keeps_present :
        (n now : ℕ)
        → landed n ≤ now
        → now < landed (suc n)
        → Spares (presence_key stream user_id) (landed n) now (others n)
        → is_present (presence_key stream user_id) now (kept n) ≡ true
    unfolding start_heartbeat
    heartbeat_keeps_present zero now since h spares =
        let soon : now < first + presence_ttl_ms = omega (arith, h, next_write zero) in
        is_present-reached _ first now (others 0) _ soon spares
          (is_present-write _ first now _ since soon)
    heartbeat_keeps_present (suc n) now since h spares =
        let soon : now < landed (suc n) + presence_ttl_ms = omega (arith, h, next_write (suc n)) in
        is_present-reached _ (landed (suc n)) now (others (suc n)) _ soon spares
          (is_present-write _ (landed (suc n)) now _ since soon)
