-- ===== src/Registry/Concurrent/Fine.antt =====
-- src/connection/registry.rs: the state of the registry while methods are pending.
use turbocable_server.Prelude.{
  ℕ, ◌+◌, ◌%◌, ◌≤◌, ◌<◌, ◌≡◌, Bool, true, false, ◌||◌, some, List, [], ◌∷◌, Text, contains, is_some,
  length, Distinct, nat_eq, text_eq, arith,
}
use turbocable_server.Prelude.Dict.{get, IsUnique}
use turbocable_server.Registry.{Registry, u64_mod, subscribers, joined}
use turbocable_server.Registry.Concurrent.{Pending, any, arrives, serves, taken}
use turbocable_server.Registry.Concurrent.Pendings.{
  any-taken, total-taken, joins, forgets, purges, departs, sweeps, enters, links, uncounted,
  overcounted, total,
}

-- Between two accesses. Each map agrees with the others up to what pending methods will still do,
-- and the counter counts the connections up to what they will still add or take away.
pub record Fine (r : Registry) (ps : List Pending) : Type 0 where
  pub to_joined :
      (c : ℕ) (s : Text)
      → contains c (subscribers r s) ≡ true
      → (contains s (joined r c) || any (purges c s) ps || any (joins c s) ps) ≡ true
  pub to_subscribers :
      (c : ℕ) (s : Text)
      → (contains s (joined r c) || any (joins c s) ps) ≡ true
      → (contains c (subscribers r s) || any (forgets c s) ps) ≡ true
  pub gone : (c : ℕ) (s : Text) → any (forgets c s) ps ≡ true → contains c (subscribers r s) ≡ false
  pub locked :
      (c : ℕ) (s : Text)
      → any (joins c s) ps ≡ true
      → (is_some (get c r.conn_streams) ≡ true) × (contains s (joined r c) ≡ false)
  pub one_call : (c : ℕ) → total (serves c) ps ≤ 1
  pub swept : (s : Text) → get s r.streams ≡ some [] → any (sweeps s) ps ≡ true
  pub distinct : (s : Text) → Distinct (subscribers r s)
  pub distinct_joined : (c : ℕ) → Distinct (joined r c)
  pub live : (c : ℕ) → is_some (get c r.conn_streams) ≡ true → is_some (get c r.connections) ≡ true
  pub kept :
      (c : ℕ)
      → is_some (get c r.connections) ≡ true
      → (is_some (get c r.conn_streams) || any (departs c) ps || any (links c) ps) ≡ true
  pub departed : (c : ℕ) → any (departs c) ps ≡ true → is_some (get c r.conn_streams) ≡ false
  pub unknown :
      (c : ℕ)
      → any (arrives c) ps ≡ true
      → (is_some (get c r.conn_streams) ≡ false) × (any (departs c) ps ≡ false) × (c < r.next_id)
  pub one_arrival : (c : ℕ) → total (arrives c) ps ≤ 1
  pub entering : (c : ℕ) → any (enters c) ps ≡ true → is_some (get c r.connections) ≡ false
  pub linked : (c : ℕ) → any (links c) ps ≡ true → is_some (get c r.connections) ≡ true
  pub fresh :
      (c : ℕ)
      → r.next_id ≤ c
      → (is_some (get c r.conn_streams) ≡ false)
        × (is_some (get c r.connections) ≡ false)
        × (any (departs c) ps ≡ false)
        × (total (arrives c) ps ≡ 0)
  pub unique : IsUnique r.connections
  pub bounded : r.active < u64_mod
  pub counted :
      (r.active + total uncounted ps) % u64_mod
      ≡ (length r.connections + total overcounted ps) % u64_mod

pub Fine-taken :
    (i : ℕ) (r : Registry) (ps : List Pending) (p : Pending) (rest : List Pending)
    → taken i ps ≡ some (p, rest)
    → Fine r ps
    → Fine r (p ∷ rest)
Fine-taken i r ps p rest e v = record {
  to_joined = λ c s h. ground (arith, v.to_joined c s, same (purges c s), same (joins c s));
  to_subscribers =
      λ c s h. ground (arith, v.to_subscribers c s, same (joins c s), same (forgets c s));
  gone = λ c s h. ground (arith, v.gone c s, same (forgets c s));
  locked = λ c s h. ground (arith, v.locked c s, same (joins c s));
  one_call = λ c. ground (arith, v.one_call c, count (serves c));
  swept = λ s h. ground (arith, v.swept s, same (sweeps s));
  distinct = v.distinct;
  distinct_joined = v.distinct_joined;
  live = v.live;
  kept = λ c h. ground (arith, v.kept c, same (departs c), same (links c));
  departed = λ c h. ground (arith, v.departed c, same (departs c));
  unknown = λ c h. ground (arith, v.unknown c, same (arrives c), same (departs c));
  one_arrival = λ c. ground (arith, v.one_arrival c, count (arrives c));
  entering = λ c h. ground (arith, v.entering c, same (enters c));
  linked = λ c h. ground (arith, v.linked c, same (links c));
  fresh = λ c h. ground (arith, v.fresh c, same (departs c), count (arrives c));
  bounded = v.bounded;
  unique = v.unique;
  counted = ground (arith, v.counted, count uncounted, count overcounted);
}
  where
    same : (f : Pending → Bool) → any f (p ∷ rest) ≡ any f ps
    same f = any-taken f i ps p rest e

    count : (f : Pending → Bool) → total f (p ∷ rest) ≡ total f ps
    count f = total-taken f i ps p rest e
