-- ===== src/Metrics/Singleton.antt =====
-- src/metrics.rs: the metrics can be registered once, and are.
use turbocable_server.Prelude.{
  ◌∙◌, ℕ, zero, suc, ◌≡◌, refl, ◌∙◌, Bool, true, false, ◌&&◌, ◌||◌, none, some, List, [], ◌∷◌, Text,
  contains, not, ◌==◌, eq_iff, eq_refl, nat_eq, text_eq, text_beq, arith,
}
use turbocable_server.Metrics.{
  Metric, is_valid, Prometheus, all_metrics, create, Process, new, calls,
}

abbrev pub names : List Metric → List Text
names [] = []
names (m ∷ ms) = m.name ∷ names ms

all_valid : List Metric → Bool
all_valid [] = true
all_valid (m ∷ ms) = is_valid m && all_valid ms

all_distinct : List Metric → Bool
all_distinct [] = true
all_distinct (m ∷ ms) = not (contains m.name (names ms)) && all_distinct ms

all_metrics-all_valid : all_valid all_metrics ≡ true
unfolding all_valid is_valid all_metrics
all_metrics-all_valid = refl

all_metrics-all_distinct : all_distinct all_metrics ≡ true
unfolding all_distinct contains text_beq all_metrics
all_metrics-all_distinct = refl

module _ (prometheus : Prometheus) where
  open prometheus use {Registry, register, is_taken, registers, refuses}

  -- No name of the metrics is taken.
  abbrev pub IsFree : List Metric → Registry → Type 0
  IsFree [] r = Unit
  IsFree (m ∷ ms) r = (is_taken r m.name ≡ false) × IsFree ms r

  -- Afterwards the names of the metrics are taken, and those that were before.
  abbrev pub Takes : List Metric → Registry → Registry → Type 0
  Takes ms r r' = (n : Text) → is_taken r' n ≡ (contains n (names ms) || is_taken r n)

  IsFree-register :
      (m : Metric) (ms : List Metric) (r r' : Registry)
      → ((n : Text) → is_taken r' n ≡ ((m.name == n) || is_taken r n))
      → contains m.name (names ms) ≡ false
      → IsFree ms r
      → IsFree ms r'
  unfolding contains
  IsFree-register m [] r r' e new free = tt
  IsFree-register m (x ∷ ms) r r' e new free = (
    ground (arith, e x.name, eq_iff m.name x.name, eq_iff x.name m.name),
    IsFree-register m ms r r' e (ground arith) free.1,
  )

  create_registers :
      (ms : List Metric) (r : Registry)
      → all_valid ms ≡ true
      → all_distinct ms ≡ true
      → IsFree ms r
      → ((create prometheus ms r).0 ≡ true) × Takes ms r (create prometheus ms r).1
  unfolding create all_valid all_distinct contains
  create_registers [] r valid distinct free = (refl, λ n. refl)
  create_registers (m ∷ ms) r valid distinct free =
      let (r', e, taken) = registers m r (ground arith) free.0 in
      let (done, more) =
        create_registers ms r' (ground arith) (ground arith)
          (IsFree-register m ms r r' taken (ground arith) free.1) in
      rw (e, create) (done, λ n. ground (arith, more n, taken n))

  calls_same :
      (p : Process prometheus) (ms : List Metric) (k : ℕ)
      → p.instance_set ≡ some ms
      → (calls prometheus k p ≡ p) × (new prometheus p ≡ (some ms, p))
  unfolding calls new
  calls_same p ms zero e = (refl, ground arith)
  calls_same p ms (suc k) e = ground (arith, calls_same p ms k)

  create_refuses :
      (m : Metric) (ms : List Metric) (r r' : Registry)
      → Takes (m ∷ ms) r r'
      → (create prometheus (m ∷ ms) r').0 ≡ false
  unfolding create contains
  create_refuses m ms r r' taken =
      let e = refuses m r' (ground (arith, taken m.name, eq_refl m.name)) in rw (create, e) refl

  recreate_refuses :
      (r r' : Registry) → Takes all_metrics r r' → (create prometheus all_metrics r').0 ≡ false
  unfolding all_metrics
  recreate_refuses r r' taken = create_refuses _ _ r r' taken

  new_unset :
      (p : Process prometheus)
      → p.instance_set ≡ none
      → (create prometheus all_metrics p.registry).0 ≡ true
      → new prometheus p ≡ (
        some all_metrics,
        record {
          instance_set = some all_metrics;
          registry = (create prometheus all_metrics p.registry).1;
        },
      )
  unfolding new
  new_unset p unset done = ground arith

  -- In a process in which no name of the metrics is taken and the instance is not set: however
  -- often the metrics are asked for, every call gives them, and the registry is the one after the
  -- first call, in which exactly their names are taken besides those that were. To create them once
  -- more would panic.
  pub new_registers_once :
      (p : Process prometheus) (k : ℕ)
      → p.instance_set ≡ none
      → IsFree all_metrics p.registry
      → let after = (new prometheus p).1 in
        ((new prometheus p).0 ≡ some all_metrics)
        × ((new prometheus (calls prometheus k after)).0 ≡ some all_metrics)
        × (calls prometheus k after ≡ after)
        × Takes all_metrics p.registry after.registry
        × ((create prometheus all_metrics after.registry).0 ≡ false)
  new_registers_once p k unset free =
      let (done, taken) =
        create_registers all_metrics p.registry all_metrics-all_valid all_metrics-all_distinct
          free in
      let after : Process prometheus = record {
        instance_set = some all_metrics;
        registry = (create prometheus all_metrics p.registry).1;
      } in
      let (same, given) = calls_same after all_metrics k refl in
      rw (new_unset p unset done) (
        refl,
        (λ i. (new prometheus (same i)).0) ∙ (λ i. (given i).0),
        same,
        taken,
        recreate_refuses p.registry after.registry taken,
      )
