-- ===== src/Build/Graph/Tests.antt =====
-- A build of three steps: two compile, and the third links what they wrote. The log adds that the
-- second used the first.
use shuriken.Fs.Fingerprint.{Fingerprint}
use mathlib.Core.Path.{subst}
use shuriken.Prelude.{
  List, [], ◌∷◌, ◌≡◌, refl, arith, inl, ltb, nat_eq, Bool-cases, inr, true, false,
}
use shuriken.Build.Data.{Step, Entry, Invocations, no_step, StepIndex}
use shuriken.Build.Graph.{
  Plan, make_plan, construct, done, visit_steps, visit_step, add_dependencies, add_dependency,
  add_logged, compute_ready_steps, ready_from, step_indices_from, ◌>>=◌, Build, new_node,
}
use shuriken.Build.Graph.Progress.{declared, logged}
use shuriken.Build.Graph.Visit.{IsInRange}
use shuriken.Build.Graph.Construct.{IsConstructed, construct_correct}

abbrev pub steps : List Step
steps =
    record no_step { hash = 10; command = "cc a" }
    ∷ record no_step { hash = 11; command = "cc b" }
    ∷ record no_step { hash = 12; command = "ld"; dependencies = 0 ∷ 1 ∷ [] }
    ∷ []

abbrev first_entry : Entry
first_entry = record {
  output_files = 0 ∷ [];
  input_files = [];
  ignored_dependencies = [];
  additional_dependencies = [];
}

abbrev second_entry : Entry
second_entry = record {
  output_files = 1 ∷ [];
  input_files = [];
  ignored_dependencies = [];
  additional_dependencies = 10 ∷ [];
}

abbrev pub object_fingerprint : Fingerprint
object_fingerprint = record {
  stat = record { size = 5; ino = 40; mode = 33188; mtime = 10 };
  racily_clean = false;
  hash = 77;
}

abbrev pub invocations : Invocations
invocations = record {
  fingerprints = ("a.o", object_fingerprint) ∷ ("b.o", object_fingerprint) ∷ [];
  entries = (10, first_entry) ∷ (11, second_entry) ∷ [];
  created_directories = [];
}

abbrev pub plan : Plan
plan = make_plan steps invocations

pub plan-IsInRange : IsInRange plan 3
unfolding step_indices_from
plan-IsInRange i d (declared e) = elim (Bool-cases (ltb i 3)) [
  | inl l ↦ ground arith
  | inr l ↦ ground arith
]
plan-IsInRange i d (logged h e l) = ground arith

construct-steps :
    (construct steps invocations 1 (2 ∷ []) >>= λ b. done b.ready_steps) ≡ done (0 ∷ [])
unfolding construct visit_steps visit_step add_dependencies add_dependency add_logged
    compute_ready_steps ready_from step_indices_from
construct-steps = refl

construct_correct_example : IsConstructed plan (2 ∷ []) (construct steps invocations 1 (2 ∷ []))
construct_correct_example =
    construct_correct steps invocations 1 (2 ∷ []) plan-IsInRange (omega arith, tt)

abbrev pub targets : List StepIndex
targets = 2 ∷ []

abbrev pub built : Build
built = record {
  step_nodes =
      record new_node { dependents = 2 ∷ 1 ∷ []; should_build = true }
      ∷ record new_node { dependents = 2 ∷ []; dependencies = 1; should_build = true }
      ∷ record new_node { dependencies = 2; should_build = true }
      ∷ [];
  ready_steps = 0 ∷ [];
  remaining_failures = 1;
  invoked_commands = 0;
  written_files = [];
  output_files = [];
}

pub construct-built : construct steps invocations 1 targets ≡ done built
unfolding construct visit_steps visit_step add_dependencies add_dependency add_logged
    compute_ready_steps ready_from step_indices_from
construct-built = refl

pub built-IsConstructed : IsConstructed plan targets (done built)
built-IsConstructed =
    subst (IsConstructed plan targets) construct-built
      (construct_correct steps invocations 1 targets plan-IsInRange (omega arith, tt))
