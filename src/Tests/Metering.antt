-- ===== src/Tests/Metering.antt =====
-- The metrics with a registry that is the list of the names.
use turbocable_server.Prelude.{
  ◌≡◌, refl, ◌&&◌, ◌||◌, true, false, not, Option, none, some, List, [], ◌∷◌, Text, contains,
  text_eq, eq_iff, arith, if◌then◌else◌, ◌==◌,
}
use turbocable_server.Metrics.{
  Metric, is_valid, Prometheus, all_metrics, create, Process, new, calls,
}
use turbocable_server.Metrics.Singleton.{IsFree, Takes, new_registers_once}

unfoldable register : Metric → List Text → Option (List Text)
register m names = if is_valid m && not (contains m.name names) then some (m.name ∷ names) else none

registers :
    (m : Metric) (names : List Text)
    → is_valid m ≡ true
    → contains m.name names ≡ false
    → (names' : List Text) × (register m names ≡ some names')
      × ((n : Text) → contains n names' ≡ ((m.name == n) || contains n names))
unfolding register contains
registers m names valid free =
    (m.name ∷ names, ground arith, λ n. ground (arith, eq_iff m.name n, eq_iff n m.name))

refuses : (m : Metric) (names : List Text) → contains m.name names ≡ true → register m names ≡ none
unfolding register
refuses m names taken = ground arith

abbrev names_of_registry : Prometheus
names_of_registry = record {
  Registry = List Text;
  is_taken = λ names n. contains n names;
  register = register;
  registers = registers;
  refuses = refuses;
}

all-IsFree : (ms : List Metric) → IsFree names_of_registry ms []
unfolding contains
all-IsFree [] = tt
all-IsFree (m ∷ ms) = (refl, all-IsFree ms)

abbrev fresh : Process names_of_registry
fresh = record { instance_set = none; registry = [] }

abbrev started : Process names_of_registry
started = (new names_of_registry fresh).1

new_registers_once_example :
    ((new names_of_registry fresh).0 ≡ some all_metrics)
    × ((new names_of_registry (calls names_of_registry 2 started)).0 ≡ some all_metrics)
    × (calls names_of_registry 2 started ≡ started)
    × Takes names_of_registry all_metrics [] started.registry
    × ((create names_of_registry all_metrics started.registry).0 ≡ false)
new_registers_once_example =
    new_registers_once names_of_registry fresh 2 refl (all-IsFree all_metrics)
