-- ===== src/Registry/Concurrent/Pendings.antt =====
-- src/connection/registry.rs: what pending methods will still do.
use turbocable_server.Prelude.{
  ℕ, zero, suc, ◌≡◌, refl, Bool, true, false, ◌&&◌, some, List, [], ◌∷◌, Text, contains,
  if◌then◌else◌, ◌==◌, nat_eq, text_eq, arith, Option-cases, inl, inr,
}
use turbocable_server.Registry.Concurrent.{
  Pending, allocated, linking, activating, joining, leaving_empty, forgetting, purging,
  purging_empty, releasing, any, arrives, serves, holds, taken,
}

abbrev pub joins : ℕ → Text → Pending → Bool
joins c s (joining d t) = (d == c) && (t == s)
joins c s _ = false

-- The connection is out of the stream's list, and the stream still in the connection's.
abbrev pub forgets : ℕ → Text → Pending → Bool
forgets c s (leaving_empty d t) = (d == c) && (t == s)
forgets c s (forgetting d t) = (d == c) && (t == s)
forgets c s _ = false

abbrev pub purges : ℕ → Text → Pending → Bool
purges c s (purging d names) = (d == c) && contains s names
purges c s (purging_empty _ d names) = (d == c) && contains s names
purges c s _ = false

abbrev pub departs : ℕ → Pending → Bool
departs c (purging d _) = d == c
departs c (purging_empty _ d _) = d == c
departs c _ = false

-- An empty entry of the stream is about to be removed.
abbrev pub sweeps : Text → Pending → Bool
sweeps s (leaving_empty _ t) = t == s
sweeps s (purging_empty t _ _) = t == s
sweeps s _ = false

abbrev pub enters : ℕ → Pending → Bool
enters c (allocated d _) = d == c
enters c _ = false

abbrev pub links : ℕ → Pending → Bool
links c (linking d) = d == c
links c _ = false

abbrev pub uncounted : Pending → Bool
uncounted (linking _) = true
uncounted activating = true
uncounted _ = false

abbrev pub overcounted : Pending → Bool
overcounted releasing = true
overcounted _ = false

abbrev pub total : (Pending → Bool) → List Pending → ℕ
total f [] = 0
total f (p ∷ ps) = if f p then suc (total f ps) else total f ps

pub any-taken :
    (f : Pending → Bool) (i : ℕ) (ps : List Pending) (p : Pending) (rest : List Pending)
    → taken i ps ≡ some (p, rest)
    → any f (p ∷ rest) ≡ any f ps
any-taken f i [] p rest e = ground arith
any-taken f zero (q ∷ ps) p rest e = ground arith
any-taken f (suc i) (q ∷ ps) p rest e = elim (Option-cases (taken i ps)) [
  | inl e' ↦ ground arith
  | inr ((q', qs), e') ↦ ground (arith, any-taken f i ps q' qs)
]

pub total-taken :
    (f : Pending → Bool) (i : ℕ) (ps : List Pending) (p : Pending) (rest : List Pending)
    → taken i ps ≡ some (p, rest)
    → total f (p ∷ rest) ≡ total f ps
total-taken f i [] p rest e = ground arith
total-taken f zero (q ∷ ps) p rest e = ground arith
total-taken f (suc i) (q ∷ ps) p rest e = elim (Option-cases (taken i ps)) [
  | inl e' ↦ ground arith
  | inr ((q', qs), e') ↦ ground (arith, total-taken f i ps q' qs)
]

pub any_zero : (f : Pending → Bool) (ps : List Pending) → total f ps ≡ 0 → any f ps ≡ false
any_zero f [] e = refl
any_zero f (p ∷ ps) e = ground (arith, any_zero f ps)

pub zero_any : (f : Pending → Bool) (ps : List Pending) → any f ps ≡ false → total f ps ≡ 0
zero_any f [] e = refl
zero_any f (p ∷ ps) e = ground (arith, zero_any f ps)

-- What no task does by a weaker test, none does by a stronger one.
pub any_weaker :
    (f g : Pending → Bool) (ps : List Pending)
    → ((p : Pending) → f p ≡ true → g p ≡ true)
    → any g ps ≡ false
    → any f ps ≡ false
any_weaker f g [] h e = e
any_weaker f g (p ∷ ps) h e = ground (arith, h p, any_weaker f g ps h)

pub joins-holds : (c : ℕ) (s : Text) (p : Pending) → joins c s p ≡ true → holds c p ≡ true
joins-holds c s (allocated d _) h = ground arith
joins-holds c s (linking d) h = ground arith
joins-holds c s activating h = ground arith
joins-holds c s (joining d t) h = ground arith
joins-holds c s (leaving_empty d t) h = ground arith
joins-holds c s (forgetting d t) h = ground arith
joins-holds c s (purging d names) h = ground arith
joins-holds c s (purging_empty t d names) h = ground arith
joins-holds c s releasing h = ground arith

pub holds-serves : (c : ℕ) (p : Pending) → holds c p ≡ true → serves c p ≡ true
holds-serves c (allocated d _) h = ground arith
holds-serves c (linking d) h = ground arith
holds-serves c activating h = ground arith
holds-serves c (joining d t) h = ground arith
holds-serves c (leaving_empty d t) h = ground arith
holds-serves c (forgetting d t) h = ground arith
holds-serves c (purging d names) h = ground arith
holds-serves c (purging_empty t d names) h = ground arith
holds-serves c releasing h = ground arith

pub forgets-serves : (c : ℕ) (s : Text) (p : Pending) → forgets c s p ≡ true → serves c p ≡ true
forgets-serves c s (allocated d _) h = ground arith
forgets-serves c s (linking d) h = ground arith
forgets-serves c s activating h = ground arith
forgets-serves c s (joining d t) h = ground arith
forgets-serves c s (leaving_empty d t) h = ground arith
forgets-serves c s (forgetting d t) h = ground arith
forgets-serves c s (purging d names) h = ground arith
forgets-serves c s (purging_empty t d names) h = ground arith
forgets-serves c s releasing h = ground arith

pub purges-departs : (c : ℕ) (s : Text) (p : Pending) → purges c s p ≡ true → departs c p ≡ true
purges-departs c s (allocated d _) h = ground arith
purges-departs c s (linking d) h = ground arith
purges-departs c s activating h = ground arith
purges-departs c s (joining d t) h = ground arith
purges-departs c s (leaving_empty d t) h = ground arith
purges-departs c s (forgetting d t) h = ground arith
purges-departs c s (purging d names) h = ground arith
purges-departs c s (purging_empty t d names) h = ground arith
purges-departs c s releasing h = ground arith

pub enters-arrives : (c : ℕ) (p : Pending) → enters c p ≡ true → arrives c p ≡ true
enters-arrives c (allocated d _) h = ground arith
enters-arrives c (linking d) h = ground arith
enters-arrives c activating h = ground arith
enters-arrives c (joining d t) h = ground arith
enters-arrives c (leaving_empty d t) h = ground arith
enters-arrives c (forgetting d t) h = ground arith
enters-arrives c (purging d names) h = ground arith
enters-arrives c (purging_empty t d names) h = ground arith
enters-arrives c releasing h = ground arith

pub links-arrives : (c : ℕ) (p : Pending) → links c p ≡ true → arrives c p ≡ true
links-arrives c (allocated d _) h = ground arith
links-arrives c (linking d) h = ground arith
links-arrives c activating h = ground arith
links-arrives c (joining d t) h = ground arith
links-arrives c (leaving_empty d t) h = ground arith
links-arrives c (forgetting d t) h = ground arith
links-arrives c (purging d names) h = ground arith
links-arrives c (purging_empty t d names) h = ground arith
links-arrives c releasing h = ground arith

-- Of a connection that has no identifier yet, no call, or no end, nothing particular is pending.
module _ (c : ℕ) (s : Text) (ps : List Pending) where
  pub not_held : any (holds c) ps ≡ false → any (joins c s) ps ≡ false
  not_held h = any_weaker (joins c s) (holds c) ps (joins-holds c s) h

  pub not_served :
      any (serves c) ps ≡ false
      → (any (joins c s) ps ≡ false) × (any (forgets c s) ps ≡ false) × (total (serves c) ps ≡ 0)
  not_served h = (
    not_held (any_weaker (holds c) (serves c) ps (holds-serves c) h),
    any_weaker (forgets c s) (serves c) ps (forgets-serves c s) h,
    zero_any (serves c) ps h,
  )

  pub not_departed : any (departs c) ps ≡ false → any (purges c s) ps ≡ false
  not_departed h = any_weaker (purges c s) (departs c) ps (purges-departs c s) h

pub not_arriving :
    (c : ℕ) (ps : List Pending)
    → any (arrives c) ps ≡ false
    → (any (enters c) ps ≡ false) × (any (links c) ps ≡ false)
not_arriving c ps h = (
  any_weaker (enters c) (arrives c) ps (enters-arrives c) h,
  any_weaker (links c) (arrives c) ps (links-arrives c) h,
)
