-- ===== src/Registry/Spec.antt =====
-- src/connection/registry.rs against what it promises: a set of live connections, a subscription
-- relation between connections and streams, and identifiers that are never given out twice.
use turbocable_server.Prelude.{
  ℕ, ◌+◌, ◌≤◌, ◌≡◌, Bool, false, ◌&&◌, ◌||◌, none, List, [], ◌∷◌, Text, contains, is_some,
  if◌then◌else◌, ◌==◌, nat_eq, text_eq,
}
use turbocable_server.Prelude.Dict.{get}
use turbocable_server.Registry.{
  Registry, allocate_id, register, deregister, subscribe, unsubscribe, subscribers,
}

pub record Spec : Type 0 where
  pub live : ℕ → Bool
  pub member : ℕ → Text → Bool
  pub next : ℕ

-- The methods that the gateway calls on a registry; `connect` takes an identifier and registers it.
pub data Call : Type 0 where
  connect : ℕ → Bool → ℕ → Call
  subscribes unsubscribes : ℕ → Text → Call
  deregisters : ℕ → Call

unfoldable pub connect_new : ℕ → Bool → ℕ → Registry → Registry
connect_new sender is_binary evict_tx r =
    let (conn_id, r') = allocate_id r in register conn_id sender is_binary evict_tx r'

unfoldable pub step : Registry → Call → Registry
unfolding connect_new
step r (connect sender is_binary evict_tx) = connect_new sender is_binary evict_tx r
step r (subscribes c s) = subscribe c s r
step r (unsubscribes c s) = unsubscribe c s r
step r (deregisters c) = deregister c r

unfoldable pub spec_step : Spec → Call → Spec
spec_step a (connect _ _ _) = record a { live = λ d. (a.next == d) || a.live d; next = a.next + 1 }
spec_step a (subscribes c s) = record a {
  member = λ d t. ((c == d) && (s == t) && a.live c) || a.member d t;
}
spec_step a (unsubscribes c s) = record a {
  member = λ d t. if (c == d) && (s == t) then false else a.member d t;
}
spec_step a (deregisters c) = record a {
  live = λ d. if c == d then false else a.live d;
  member = λ d t. if c == d then false else a.member d t;
}

unfoldable pub run : Registry → List Call → Registry
run r [] = r
run r (k ∷ ks) = run (step r k) ks

unfoldable pub spec_run : Spec → List Call → Spec
spec_run a [] = a
spec_run a (k ∷ ks) = spec_run (spec_step a k) ks

abbrev pub view : Registry → Spec
view r = record {
  live = λ c. is_some (get c r.connections);
  member = λ c s. contains c (subscribers r s);
  next = r.next_id;
}

-- No identifier from `next_id` on is in use.
abbrev pub IsFresh : Registry → Type 0
IsFresh r = (c : ℕ) → r.next_id ≤ c → get c r.connections ≡ none
