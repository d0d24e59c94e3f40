-- ===== src/Build/Run/Kept.antt =====
-- About the commands of a build (build.cpp): what holds of a running build.
use shuriken.Build.Ready.Allowed.{mark-remaining_failures}
use shuriken.Fs.FileId.{FileId}
use shuriken.Build.Ready.{mark_step_node_as_done}
use shuriken.Build.Graph.Nodes.{count, count-append, to_number}
use shuriken.Build.Data.{StepIndex}
use shuriken.Build.Schedule.{Execution, Execution-IsRun, start, finish, note, IsRun-IsOrdered}
use shuriken.Build.Run.{
  Running, Going, ◌>>=◌, went, io_failed, build_failed, endless, Parameters, context_of,
}
use shuriken.Build.Graph.{done, same_output, internal, BuildError, Build, Plan}
use shuriken.Build.Ready.Order.{IsRun, count-unsnoc, with_step}
use shuriken.Prelude.{
  nat_eq, refl, ◌≡◌, Bool, ◌⊎◌, ℕ, ◌<◌, true, false, ◌≤◌, List, unsnoc, some, arith, ◌++◌, ◌∷◌, [],
  ◌+◌, ◌==◌, ◌-◌,
}

-- The step index is finished or fails as it may.
abbrev pub IsBuildError : BuildError → Type 0
IsBuildError e = (e ≡ same_output) ⊎ (e ≡ internal)

-- It is over, with a value for which `P` holds, or with an exception, but with no failed assertion.
abbrev pub Fine {ℓ} : {A : Type ℓ} → (A → Type 0) → Going A → Type 0
Fine P (went a) = P a
Fine P (io_failed code) = Unit {0}
Fine P (build_failed e) = IsBuildError e
Fine P endless = ⊥

pub bind-Fine {ℓ κ} :
    {A : Type ℓ} {B : Type κ} (P : A → Type 0) (Q : B → Type 0) (m : Going A) (f : A → Going B)
    → Fine P m
    → ((a : A) → m ≡ went a → P a → Fine Q (f a))
    → Fine Q (m >>= f)
bind-Fine P Q (went a) f h k = k a refl h
bind-Fine P Q (io_failed code) f h k = h
bind-Fine P Q (build_failed e) f h k = h
bind-Fine P Q endless f h k = h

module _ (params : Parameters) (skipped : StepIndex → Bool) (first : Build)
    (failures_allowed : ℕ) where
  -- The build is a state of the execution; the steps whose commands run were started and are not
  -- finished, and stand there once; without a failure so far, they are the only such steps.
  pub record IsRunning (started finished : StepIndex → Bool) (build : Build)
      (running : List StepIndex) : Type 0 where
    pub execution : Execution (context_of params) skipped first started finished build
    pub active : (i : StepIndex) → 0 < count i running → (started i ≡ true) × (finished i ≡ false)
    pub single : (i : StepIndex) → count i running ≤ 1
    pub bounded : build.remaining_failures ≤ failures_allowed
    pub accounted :
        (i : StepIndex)
        → build.remaining_failures ≡ failures_allowed
        → started i ≡ true
        → finished i ≡ false
        → 0 < count i running

  abbrev pub IsUnderWay : {W : Type 0} → Running W → Type 0
  IsUnderWay run =
      (started : StepIndex → Bool) × (finished : StepIndex → Bool) × IsRunning started finished
        run.build run.running

  module _ (plan : Plan) (base : IsRun plan skipped skipped first.step_nodes first.ready_steps)
      (started finished : StepIndex → Bool) (build : Build) (running : List StepIndex)
      (state : IsRunning started finished build running) where
    abbrev pub run_of : IsRun plan started finished build.step_nodes build.ready_steps
    run_of = Execution-IsRun plan (context_of params) base state.execution

    module _ (rest : List StepIndex) (s : StepIndex)
        (last : unsnoc build.ready_steps ≡ some (rest, s)) where
      pub fresh : (started s ≡ false) × (finished s ≡ false) × (count s running ≡ 0)
      fresh =
          let once =
            (IsRun-IsOrdered plan (context_of params) started finished build run_of).once s in
          let started_before = run_of.finished_started s in
          let inactive = state.active s in
          let found = count-unsnoc s s build.ready_steps rest last in ground arith

      -- A ready step whose command starts
      pub start-IsRunning :
          (after : Build)
          → after.step_nodes ≡ build.step_nodes
          → after.ready_steps ≡ rest
          → after.remaining_failures ≡ build.remaining_failures
          → IsRunning (with_step started s) finished after (running ++ s ∷ [])
      start-IsRunning after nodes ready failures = record {
        execution = note after (start rest s state.execution last) nodes ready;
        active = λ i h.
            let facts = fresh in ground (arith, state.active i, count-append i running (s ∷ []));
        single = λ i.
            let facts = fresh in ground (arith, state.single i, count-append i running (s ∷ []));
        bounded = omega (arith, state.bounded);
        accounted = λ i none_failed st fin.
            ground (arith, state.accounted i, count-append i running (s ∷ []));
      }

      -- A ready step that is skipped
      pub skip-IsRunning :
          (taken after : Build) (ids : List FileId)
          → taken.step_nodes ≡ build.step_nodes
          → taken.ready_steps ≡ rest
          → taken.remaining_failures ≡ build.remaining_failures
          → mark_step_node_as_done (context_of params) taken s ids true ≡ done after
          → IsRunning (with_step started s) (with_step finished s) after running
      skip-IsRunning taken after ids nodes ready failures marked = record {
        execution =
            finish s ids true (note taken (start rest s state.execution last) nodes ready)
              (ground arith) (fresh.1) marked;
        active = λ i h. let facts = fresh in ground (arith, state.active i);
        single = state.single;
        bounded = omega (
          arith,
          state.bounded,
          mark-remaining_failures (context_of params) taken after s ids true marked,
        );
        accounted = λ i none_failed st fin.
            let same = mark-remaining_failures (context_of params) taken after s ids true marked in
            ground (arith, state.accounted i);
      }

    module _ (s : StepIndex) (rest : List StepIndex)
        (taken_out : (i : StepIndex) → count i running ≡ count i rest + to_number (s == i)) where
      pub was_active : (started s ≡ true) × (finished s ≡ false) × (count s rest ≡ 0)
      was_active =
          let out = taken_out s in
          let active = state.active s in let single = state.single s in ground arith

      -- A command that succeeded
      pub success-IsRunning :
          (noted after : Build) (ids : List FileId)
          → noted.step_nodes ≡ build.step_nodes
          → noted.ready_steps ≡ build.ready_steps
          → noted.remaining_failures ≡ build.remaining_failures
          → mark_step_node_as_done (context_of params) noted s ids false ≡ done after
          → IsRunning started (with_step finished s) after rest
      success-IsRunning noted after ids nodes ready failures marked = record {
        execution =
            finish s ids false (note noted state.execution nodes ready) (was_active.0)
              (was_active.1) marked;
        active = λ i h. let facts = was_active in ground (arith, state.active i, taken_out i);
        single = λ i. ground (arith, state.single i, taken_out i);
        bounded = omega (
          arith,
          state.bounded,
          mark-remaining_failures (context_of params) noted after s ids false marked,
        );
        accounted = λ i none_failed st fin.
            let same = mark-remaining_failures (context_of params) noted after s ids false marked in
            ground (arith, state.accounted i, taken_out i);
      }

      -- A command that failed, or was interrupted
      pub failure-IsRunning :
          (after : Build)
          → 0 < failures_allowed
          → after.step_nodes ≡ build.step_nodes
          → after.ready_steps ≡ build.ready_steps
          → after.remaining_failures ≡ build.remaining_failures - 1
          → IsRunning started finished after rest
      failure-IsRunning after some_allowed nodes ready failures = record {
        execution = note after state.execution nodes ready;
        active = λ i h. ground (arith, state.active i, taken_out i);
        single = λ i. ground (arith, state.single i, taken_out i);
        bounded = omega (arith, state.bounded);
        accounted = λ i none_failed st fin. absurd (omega (arith, state.bounded));
      }
