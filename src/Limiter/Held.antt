-- ===== src/Limiter/Held.antt =====
-- src/connection/limiter.rs: the counts against the slots that are held.
use turbocable_server.Prelude.{
  ℕ, ◌+◌, ◌-◌, ◌≤◌, ◌≡◌, true, false, List, [], ◌∷◌, leb, nat_beq, if◌then◌else◌, KeyEq, ◌==◌,
  eq_iff, arith, Option-cases, inl, inr,
}
use turbocable_server.Prelude.Dict.{get, insert, get-insert, get-remove}
use turbocable_server.Limiter.{ConnectionLimiter, try_acquire, release, count_for}

-- The life of connections as the limiter sees it: the addresses that hold a slot, newest first.
-- `opens` is a new connection; `closes` is the end of one that holds a slot of the address.
pub data Event (Ip : Type 0) : Type 0 where
  opens closes : Ip → Event Ip

pub record Node (Ip : Type 0) : Type 0 where
  pub limiter : ConnectionLimiter Ip
  pub held : List Ip

module _ {Ip : Type 0} ⦃e : KeyEq Ip⦄ where
  -- `try_acquire` succeeds exactly below the limit, counts one more for its address then, and
  -- changes no other count.
  pub try_acquire_lem :
      (ip j : Ip) (l : ConnectionLimiter Ip)
      → ((try_acquire ip l).0 ≡ (if leb l.max_per_ip (count_for ip l) then false else true))
        × (count_for j (try_acquire ip l).1 ≡ (
            if (if (try_acquire ip l).0 then ip == j else false)
            then count_for j l + 1
            else count_for j l))
        × ((try_acquire ip l).1.max_per_ip ≡ l.max_per_ip)
  unfolding try_acquire count_for
  try_acquire_lem ip j l = ground (
    arith,
    get-insert ip j (count_for ip l) l.counts,
    get-insert ip j (count_for ip l + 1) l.counts,
    eq_iff ip j,
  )

  -- `release` gives back one slot of its address, if there is one, and changes no other count.
  pub release_lem :
      (ip j : Ip) (l : ConnectionLimiter Ip)
      → (count_for j (release ip l) ≡ (if ip == j then count_for j l - 1 else count_for j l))
        × ((release ip l).max_per_ip ≡ l.max_per_ip)
  unfolding release count_for
  release_lem ip j l = elim (Option-cases (get ip l.counts)) [
    | inl p ↦ ground (arith, eq_iff ip j)
    | inr (count, p) ↦ ground (
      arith,
      get-insert ip j (count - 1) l.counts,
      get-insert ip ip (count - 1) l.counts,
      get-remove ip j (insert ip (count - 1) l.counts),
      eq_iff ip j,
      eq_iff ip ip,
    )
  ]

  unfoldable pub count : Ip → List Ip → ℕ
  count ip [] = 0
  count ip (j ∷ held) = let rest = count ip held in if j == ip then rest + 1 else rest

  pub drop_one : Ip → List Ip → List Ip
  drop_one ip [] = []
  drop_one ip (j ∷ held) = let rest = drop_one ip held in if j == ip then held else j ∷ rest

  -- A close of an address that holds nothing does not happen.
  pub node_step : Node Ip → Event Ip → Node Ip
  node_step n (opens ip) =
      let (granted, l) = try_acquire ip n.limiter in
      record { limiter = l; held = if granted then ip ∷ n.held else n.held }
  node_step n (closes ip) =
      if nat_beq (count ip n.held) 0
      then n
      else record { limiter = release ip n.limiter; held = drop_one ip n.held }

  pub node_run : Node Ip → List (Event Ip) → Node Ip
  node_run n [] = n
  node_run n (k ∷ ks) = node_run (node_step n k) ks

  pub record IsCounted (n : Node Ip) : Type 0 where
    pub exact : (ip : Ip) → count_for ip n.limiter ≡ count ip n.held
    pub within : (ip : Ip) → count ip n.held ≤ n.limiter.max_per_ip

  count-drop_one :
      (ip j : Ip) (held : List Ip)
      → count j (drop_one ip held) ≡ (if ip == j then count j held - 1 else count j held)
  unfolding count drop_one
  count-drop_one ip j [] = ground arith
  count-drop_one ip j (k ∷ held) =
      ground (arith, count-drop_one ip j held, eq_iff k ip, eq_iff k j, eq_iff ip j)

  node_step-IsCounted : (n : Node Ip) (k : Event Ip) → IsCounted n → IsCounted (node_step n k)
  unfolding node_step count
  node_step-IsCounted n (opens ip) v = record {
    exact = λ j. ground (arith, try_acquire_lem ip j n.limiter, v.exact j, eq_iff ip j);
    within =
        λ j. ground (arith, try_acquire_lem ip j n.limiter, v.exact ip, v.within j, eq_iff ip j);
  }
  node_step-IsCounted n (closes ip) v = record {
    exact = λ j. ground (arith, release_lem ip j n.limiter, v.exact j, count-drop_one ip j n.held);
    within =
        λ j. ground (arith, release_lem ip j n.limiter, v.within j, count-drop_one ip j n.held);
  }

  -- Over any history of accepted, refused and closed connections, the limiter's count of each
  -- address is the number of its open connections, which never passes the limit.
  pub node_run-IsCounted :
      (n : Node Ip) (ks : List (Event Ip)) → IsCounted n → IsCounted (node_run n ks)
  unfolding node_run
  node_run-IsCounted n [] v = v
  node_run-IsCounted n (k ∷ ks) v =
      node_run-IsCounted (node_step n k) ks (node_step-IsCounted n k v)
