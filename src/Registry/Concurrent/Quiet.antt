-- ===== src/Registry/Concurrent/Quiet.antt =====
-- src/connection/registry.rs: the registry once the calls that have begun are over.
use turbocable_server.Prelude.{
  ℕ, zero, suc, ◌+◌, ◌*◌, ◌≤◌, ◌<◌, ◌≡◌, refl, ap, Option, none, some, List, [], ◌∷◌, contains,
  is_some, subst, length, arith, Option-cases, Bool-cases, inl, inr, nat_eq, text_eq,
}
use turbocable_server.Prelude.Dict.{get}
use turbocable_server.Registry.{
  Registry, u64_mod, new, allocate_id, forget_stream, subscribers, joined,
}
use turbocable_server.Registry.Invariant.{Inv}
use turbocable_server.Registry.Spec.{Call, connect, subscribes, unsubscribes, deregisters}
use turbocable_server.Registry.Concurrent.{
  Pending, allocated, linking, activating, joining, leaving_empty, forgetting, purging,
  purging_empty, releasing, Shared, Move, begins, continues, begin, continue, step, run,
  begin_subscribe, begin_unsubscribe, begin_deregister, resume, taken, trim,
}
use turbocable_server.Registry.Concurrent.Fine.{Fine}
use turbocable_server.Registry.Concurrent.Begins.{FineShared}
use turbocable_server.Registry.Concurrent.Continues.{step-Fine, go_on-Fine}

-- How many accesses a pending method may still make.
abbrev pub weight : Pending → ℕ
weight (allocated _ _) = 3
weight (linking _) = 2
weight activating = 1
weight (joining _ _) = 1
weight (leaving_empty _ _) = 2
weight (forgetting _ _) = 1
weight (purging _ names) = 2 + 2 * length names
weight (purging_empty _ _ names) = 3 + 2 * length names
weight releasing = 1

abbrev pub weights : List Pending → ℕ
weights [] = 0
weights (p ∷ ps) = weight p + weights ps

abbrev weight_left : Option Pending → ℕ
weight_left none = 0
weight_left (some p) = weight p

-- No new call begins, and the pending ones go on `n` times.
abbrev pub goes_on : ℕ → List Move
goes_on zero = []
goes_on (suc n) = continues 0 ∷ goes_on n

weightless : (ps : List Pending) → weights ps ≡ 0 → ps ≡ []
weightless [] e = refl
weightless (p ∷ ps) e = absurd (heavy p (omega arith))
  where
    heavy : (q : Pending) → ¬ (weight q ≡ 0)
    heavy (allocated _ _) h = omega arith
    heavy (linking _) h = omega arith
    heavy activating h = omega arith
    heavy (joining _ _) h = omega arith
    heavy (leaving_empty _ _) h = omega arith
    heavy (forgetting _ _) h = omega arith
    heavy (purging _ _) h = omega arith
    heavy (purging_empty _ _ _) h = omega arith
    heavy releasing h = omega arith

continue_lighter : (p : Pending) (r : Registry) → weight_left (continue p r).0 < weight p
unfolding continue
continue_lighter (allocated c entry) r = omega arith
continue_lighter (linking c) r = omega arith
continue_lighter activating r = omega arith
continue_lighter (joining c s) r = omega arith
continue_lighter (leaving_empty c s) r = omega arith
continue_lighter (forgetting c s) r = omega arith
continue_lighter (purging c []) r = ground arith
continue_lighter (purging c (s ∷ names)) r = elim (Bool-cases (trim s c r.streams).0) [
  | inl e ↦ rw (e) (omega arith)
  | inr e ↦ rw (e) (omega arith)
]
continue_lighter (purging_empty s c names) r = omega arith
continue_lighter releasing r = omega arith

weights-resume :
    (q : Option Pending × Registry) (rest : List Pending)
    → weights (resume q rest).tasks ≡ weight_left q.0 + weights rest
weights-resume (none, r) rest = omega arith
weights-resume (some p, r) rest = refl

-- Only `connect` gives out an identifier.
continue-next_id : (p : Pending) (r : Registry) → (continue p r).1.next_id ≡ r.next_id
unfolding continue forget_stream
continue-next_id (allocated c entry) r = refl
continue-next_id (linking c) r = refl
continue-next_id activating r = refl
continue-next_id (joining c s) r = ground arith
continue-next_id (leaving_empty c s) r = refl
continue-next_id (forgetting c s) r = ground arith
continue-next_id (purging c []) r = ground arith
continue-next_id (purging c (s ∷ names)) r = refl
continue-next_id (purging_empty s c names) r = refl
continue-next_id releasing r = refl

begin-next_id :
    (tasks : List Pending) (call : Call) (r : Registry)
    → (begin tasks call r).1.next_id ≤ r.next_id + 1
unfolding begin begin_subscribe begin_unsubscribe begin_deregister allocate_id
begin-next_id tasks (connect sender is_binary evict_tx) r = omega arith
begin-next_id tasks (subscribes c s) r = ground arith
begin-next_id tasks (unsubscribes c s) r = ground arith
begin-next_id tasks (deregisters c) r = ground arith

resume-registry :
    (q : Option Pending × Registry) (rest : List Pending) → (resume q rest).registry ≡ q.1
resume-registry (none, r) rest = refl
resume-registry (some p, r) rest = refl

pub step-next_id :
    (move : Move) (st : Shared) → (step move st).registry.next_id ≤ st.registry.next_id + 1
unfolding step
step-next_id (begins call) st = omega (
  arith,
  begin-next_id st.tasks call st.registry,
  ap (λ (r : Registry). r.next_id) (resume-registry (begin st.tasks call st.registry) st.tasks),
)
step-next_id (continues i) st = elim (Option-cases (taken i st.tasks)) [
  | inl e ↦ rw (e, step) (omega arith)
  | inr ((p, rest), e) ↦
      rw (e, step)
        (omega (
          arith,
          continue-next_id p st.registry,
          ap (λ (r : Registry). r.next_id) (resume-registry (continue p st.registry) rest),
        ))
]

run-Fine :
    (moves : List Move) (st : Shared)
    → FineShared st
    → st.registry.next_id + length moves < u64_mod
    → FineShared (run moves st)
      × ((run moves st).registry.next_id ≤ st.registry.next_id + length moves)
unfolding run
run-Fine [] st v room = (v, omega arith)
run-Fine (move ∷ moves) st v room =
    let (fine, bound) =
      run-Fine moves (step move st) (step-Fine move st v (omega arith))
        (omega (arith, step-next_id move st)) in
    (fine, omega (arith, bound, step-next_id move st))

go_on_lighter :
    (n : ℕ) (r : Registry) (ps : List Pending)
    → weights ps ≤ suc n
    → weights (step (continues 0) (record { registry = r; tasks = ps })).tasks ≤ n
unfolding step
go_on_lighter n r [] h = omega arith
go_on_lighter n r (p ∷ ps) h = omega (arith, weights-resume (continue p r) ps, continue_lighter p r)

-- Enough accesses finish all pending methods.
settles :
    (n : ℕ) (st : Shared)
    → FineShared st
    → weights st.tasks ≤ n
    → FineShared (run (goes_on n) st) × ((run (goes_on n) st).tasks ≡ [])
unfolding run
settles zero st v h = (v, weightless st.tasks (omega arith))
settles (suc n) st v h =
    settles n (step (continues 0) st) (go_on-Fine 0 st v) (go_on_lighter n st.registry st.tasks h)

Fine-Inv : (r : Registry) → Fine r [] → Inv r
unfolding contains
Fine-Inv r v = record {
  linked = λ c s. ground (
    arith,
    v.to_joined c s,
    v.to_subscribers c s,
    Bool-cases (contains c (subscribers r s)),
    Bool-cases (contains s (joined r c)),
  );
  no_empty = λ s e. cc (v.swept s e);
  distinct = v.distinct;
  distinct_joined = v.distinct_joined;
  same_keys = λ c. ground (
    arith,
    v.live c,
    v.kept c,
    Bool-cases (is_some (get c r.connections)),
    Bool-cases (is_some (get c r.conn_streams)),
  );
  unique = v.unique;
  counted = ground (arith, v.counted, v.bounded);
}

abbrev pub at_start : Shared
at_start = record { registry = new; tasks = [] }

pub start-Fine : Fine new [] × (new.next_id ≡ 1)
unfolding new contains get
start-Fine = (
  record {
    to_joined = λ c s h. cc;
    to_subscribers = λ c s h. cc;
    gone = λ c s h. cc;
    locked = λ c s h. cc;
    one_call = λ c. omega arith;
    swept = λ s h. cc;
    distinct = λ s. tt;
    distinct_joined = λ c. tt;
    live = λ c h. cc;
    kept = λ c h. cc;
    departed = λ c h. cc;
    unknown = λ c h. cc;
    one_arrival = λ c. omega arith;
    entering = λ c h. cc;
    linked = λ c h. cc;
    fresh = λ c h. (refl, refl, refl, refl);
    bounded = omega arith;
    unique = tt;
    counted = refl;
  },
  refl,
)

pub reached-Fine :
    (moves : List Move) → length moves + 1 < u64_mod → FineShared (run moves at_start)
reached-Fine moves room = (run-Fine moves at_start start-Fine.0 (omega (arith, start-Fine.1))).0

-- However the single accesses of fewer than 2 ^ 64 - 1 steps of any calls interleave, starting from
-- a new registry: when no more calls begin, the pending ones end, after at most so many accesses as
-- they have left; and then the registry keeps its invariant.
pub interleaved-Inv :
    (moves : List Move)
    → length moves + 1 < u64_mod
    → let st = run moves at_start in
      let settled = run (goes_on (weights st.tasks)) st in
      (settled.tasks ≡ []) × Inv settled.registry
interleaved-Inv moves room =
    let st = run moves at_start in
    let settled = run (goes_on (weights st.tasks)) st in
    let (fine, over) = settles (weights st.tasks) st (reached-Fine moves room) (omega arith) in
    (over, Fine-Inv settled.registry (subst (λ ps. Fine settled.registry ps) over fine))
