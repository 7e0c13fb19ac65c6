-- ===== src/Limiter.antt =====
-- src/connection/limiter.rs: the per-IP connection limiter. Each method holds the entry's lock, so
-- it is one step. An address is any type with equality.
pub mod Held
use turbocable_server.Prelude.{
  ℕ, ◌+◌, ◌-◌, ◌≡◌, Bool, true, false, Option, none, some, [], ◌∷◌, leb, nat_beq, if◌then◌else◌,
  KeyEq,
}
use turbocable_server.Prelude.Dict.{Dict, get, insert, remove, get_or}

pub record ConnectionLimiter (Ip : Type 0) : Type 0 where
  pub counts : Dict Ip ℕ
  pub max_per_ip : ℕ

module _ {Ip : Type 0} ⦃e : KeyEq Ip⦄ where
  unfoldable pub new : ℕ → ConnectionLimiter Ip
  new max_per_ip = record { counts = []; max_per_ip = max_per_ip }

  -- `entry(ip).or_insert(0)` leaves the entry there also when the slot is refused.
  unfoldable pub try_acquire : Ip → ConnectionLimiter Ip → Bool × ConnectionLimiter Ip
  try_acquire ip l =
      let count = get_or 0 ip l.counts in
      if leb l.max_per_ip count
      then (false, record l { counts = insert ip count l.counts })
      else (true, record l { counts = insert ip (count + 1) l.counts })

  -- `counts.remove_if(&ip, |_, v| *v == 0)`
  abbrev pub remove_if_zero : Ip → Dict Ip ℕ → Dict Ip ℕ
  remove_if_zero ip counts = elim (get ip counts) [
    | none ↦ counts
    | some count ↦ if nat_beq count 0 then remove ip counts else counts
  ]

  unfoldable pub release : Ip → ConnectionLimiter Ip → ConnectionLimiter Ip
  release ip l = elim (get ip l.counts) [
    | none ↦ l
    | some count ↦
        let counts = insert ip (count - 1) l.counts in
        if nat_beq (count - 1) 0
        then record l { counts = remove_if_zero ip counts }
        else record l { counts = counts }
  ]

  unfoldable pub count_for : Ip → ConnectionLimiter Ip → ℕ
  count_for ip l = get_or 0 ip l.counts
