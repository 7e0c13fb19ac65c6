-- ===== src/Presence.antt =====
-- src/presence/mod.rs and the publishing side of src/pubsub/nats.rs: what the gateway writes to
-- NATS. The client of NATS is the interface `Services`; a failed write is only logged.
pub mod Heartbeat
use turbocable_server.Prelude.{[], ◌∷◌, ◌++◌, Text, Bytes}
use turbocable_server.Nats.{subject_for}

pub record Services : Type 1 where
  pub State : Type 0
  -- `kv.put` and `kv.delete` on the bucket `TC_PRESENCE`, and `jetstream.publish` with its
  -- acknowledgement.
  pub kv_put : Text → Bytes → State → State
  pub kv_delete : Text → State → State
  pub js_publish : Text → Bytes → State → State

-- `format!("{stream}.{user_id}")`
unfoldable pub presence_key : Text → Text → Text
presence_key stream user_id = stream ++ b'.' ∷ user_id

module _ (services : Services) where
  open services use {State, kv_put, kv_delete, js_publish}

  unfoldable pub put : Text → Text → State → State
  put stream user_id = kv_put (presence_key stream user_id) (b'1' ∷ [])

  unfoldable pub delete : Text → Text → State → State
  delete stream user_id = kv_delete (presence_key stream user_id)

  -- `NatsConsumer::publish`
  unfoldable pub publish : Text → Bytes → State → State
  publish stream_name = js_publish (subject_for stream_name)
