-- ===== src/Build/Run/Scheduled.antt =====
-- About `build` of build.cpp, composed: what it constructs, discards, and then runs.
use shuriken.Build.Ready.Discarding.{IsDiscarded, discard_clean_steps-IsDiscarded}
use mathlib.Core.Path.{subst}
use shuriken.Build.Ready.Round.{is_discardable}
use shuriken.Build.Ready.{discard_clean_steps}
use shuriken.Build.Graph.Visit.{IsInRange}
use shuriken.Build.Ready.Order.{IsRun, IsGraphOf-IsRun}
use shuriken.Build.Cleanup.{World}
use shuriken.Build.Graph.{Build, Plan, Nodes, make_plan, node_at, construct, done}
use shuriken.Build.Data.{StepIndex}
use shuriken.Build.Run.Correct.{run_build-IsEnd, IsResult, IsEnd}
use shuriken.Build.Run.Kept.{Fine, IsRunning}
use shuriken.Build.Run.Loop.{
  RunnerEvent, End, returned, waits, no_work_to_do, build_success, build_failure, build_interrupted,
  run_build, accepts,
}
use shuriken.Build.Run.{
  Surroundings, Parameters, Running, Going, went, io_failed, build_failed, endless, context_of,
}
use shuriken.Build.Schedule.{Execution, Execution-IsRun, begin, IsOrdered, IsRun-IsOrdered}
use shuriken.Build.Ready.Allowed.{discard-remaining_failures}
use shuriken.Build.Graph.Construct.{construct-remaining_failures, IsConstructed, construct_correct}
use shuriken.Build.Graph.Nodes.{count, is_ready}
use shuriken.Prelude.{
  nat_eq, ℕ, Bool, List, [], ◌<◌, ◌≡◌, true, length, false, All, ◌⊎◌, ◌≤◌, ◌∙◌, arith, inl, inr, ap,
}

-- A result without failures says that every step of the build that waits for no other is finished.
abbrev pub Completes : (StepIndex → Bool) → Nodes → End → Type 0
Completes finished nodes (returned no_work_to_do) =
    (i : StepIndex) → is_ready (node_at nodes i) ≡ true → finished i ≡ true
Completes finished nodes (returned build_success) =
    (i : StepIndex) → is_ready (node_at nodes i) ≡ true → finished i ≡ true
Completes finished nodes _ = Unit

module _ {W : Type 0} (around : Surroundings W) (params : Parameters) (plan : Plan)
    (skipped : StepIndex → Bool) (first : Build) (failures_allowed : ℕ) where
  -- What holds when `build` returns, or when nothing more happens
  pub record IsBuildEnd (end : End) (run : Running W) : Type 0 where
    pub started : StepIndex → Bool
    pub finished : StepIndex → Bool
    pub execution : Execution (context_of params) skipped first started finished run.build
    pub ordered : IsOrdered plan (context_of params) started finished run.build
    pub active :
        (i : StepIndex) → 0 < count i run.running → (started i ≡ true) × (finished i ≡ false)
    pub single : (i : StepIndex) → count i run.running ≤ 1
    pub stalled : (run.build.ready_steps ≡ []) ⊎ (accepts around params run ≡ false)
    pub result : IsResult failures_allowed end run
    pub completes : Completes finished run.build.step_nodes end

  module _ (base : IsRun plan skipped skipped first.step_nodes first.ready_steps)
      (some_allowed : 0 < failures_allowed)
      (can_start : (files : W) → around.can_run_more [] files ≡ true) where
    all_finished :
        (started finished : StepIndex → Bool) (run : Running W)
        → IsRunning params skipped first failures_allowed started finished run.build run.running
        → (run.build.ready_steps ≡ []) ⊎ (accepts around params run ≡ false)
        → run.running ≡ []
        → run.build.remaining_failures ≡ failures_allowed
        → (i : StepIndex) → is_ready (node_at run.build.step_nodes i) ≡ true
        → finished i ≡ true
    all_finished started finished run state stalled idle left i ready =
        let none_ready : run.build.ready_steps ≡ [] = elim stalled [
          | inl e ↦ e
          | inr refused ↦
              let able =
                ap (λ running. around.can_run_more running run.world.files) idle
                ∙ can_start run.world.files in
              absurd (ground (arith, some_allowed))
        ] in
        let run_state = Execution-IsRun plan (context_of params) base state.execution in
        let exact = run_state.exact i in
        let none_of_it = ap (count i) none_ready in
        let none_runs = ap (count i) idle in let accounted = state.accounted i left in ground arith

    IsResult-Completes :
        (end : End) (started finished : StepIndex → Bool) (run : Running W)
        → IsRunning params skipped first failures_allowed started finished run.build run.running
        → (run.build.ready_steps ≡ []) ⊎ (accepts around params run ≡ false)
        → IsResult failures_allowed end run
        → Completes finished run.build.step_nodes end
    IsResult-Completes (returned no_work_to_do) started finished run state stalled (idle, left, _) =
        all_finished started finished run state stalled idle left
    IsResult-Completes (returned build_success) started finished run state stalled (idle, left, _) =
        all_finished started finished run state stalled idle left
    IsResult-Completes (returned build_failure) started finished run state stalled r = tt
    IsResult-Completes (returned build_interrupted) started finished run state stalled r = tt
    IsResult-Completes waits started finished run state stalled r = tt

    IsEnd-IsBuildEnd :
        (o : Going (End × Running W))
        → Fine (IsEnd around params skipped first failures_allowed plan base some_allowed) o
        → Fine (λ r. IsBuildEnd r.0 r.1) o
    IsEnd-IsBuildEnd (went (end, run)) (((started, finished, state), stalled), r) = record {
      started = started;
      finished = finished;
      execution = state.execution;
      ordered =
          IsRun-IsOrdered plan (context_of params) started finished run.build
            (Execution-IsRun plan (context_of params) base state.execution);
      active = state.active;
      single = state.single;
      stalled = stalled;
      result = r;
      completes = IsResult-Completes end started finished run state stalled r;
    }
    IsEnd-IsBuildEnd (io_failed code) h = h
    IsEnd-IsBuildEnd (build_failed e) h = h
    IsEnd-IsBuildEnd endless h = h

abbrev pub begun : {W : Type 0} → Build → World W → Running W
begun build world = record { build = build; running = []; world = world; reports = [] }

-- For a build that is constructed of steps whose dependencies are indices of steps, whose clean steps
-- are discarded, that allows a failure, and a runner that can run more when nothing runs: whatever
-- commands end in whatever order and with whatever result, the build goes on to an end, an `IoError`,
-- two steps that wrote the same file or an internal error of the memo, but fails no assertion and
-- never goes round for ever. Then its state is one of an execution, so that every step that was
-- started has all its dependencies finished or discarded; each running command is that of a step that
-- was started and is not finished, and runs once; no step is ready, or none is accepted. A result is
-- only returned when no command runs, unless the build was interrupted; it is a failure exactly when
-- the number of failures that are allowed has changed, and otherwise every step of the build that
-- waits for no other is finished.
pub run_build-IsBuildEnd :
    {W : Type 0} (around : Surroundings W) (params : Parameters) (failures_allowed : ℕ)
    (targets : List StepIndex) (constructed build : Build) (discarded : ℕ)
    (events : List (RunnerEvent W)) (world : World W)
    → IsInRange (make_plan params.steps params.invocations) (length params.steps)
    → All (λ t. t < length params.steps) targets
    → construct params.steps params.invocations failures_allowed targets ≡ done constructed
    → discard_clean_steps
        (context_of params)
        params.fingerprint_matches_memo
        params.clean_steps
        constructed
      ≡ done (build, discarded)
    → 0 < failures_allowed
    → ((files : W) → around.can_run_more [] files ≡ true)
    → (skipped : StepIndex → Bool) × ((i : StepIndex)
        → skipped i ≡ true
        → is_discardable (context_of params) params.clean_steps i ≡ true)
      × Fine
          (λ r.
            IsBuildEnd around params
              (make_plan params.steps params.invocations)
              skipped
              build
              failures_allowed
              r.0
              r.1)
          (run_build around params failures_allowed events (begun build world))
run_build-IsBuildEnd {W} around params failures_allowed targets constructed build discarded events
      world in_range inside c d some_allowed can_start =
    let plan = make_plan params.steps params.invocations in
    let graph : IsConstructed plan targets (done constructed) =
      subst (IsConstructed plan targets) c (
        construct_correct params.steps params.invocations failures_allowed targets in_range
          inside) in
    let run =
      IsGraphOf-IsRun plan targets constructed.step_nodes constructed.ready_steps graph.0 graph.1 in
    let (skipped, base, clean, _) : IsDiscarded plan (context_of params)
        params.fingerprint_matches_memo params.clean_steps (done (build, discarded)) =
      subst
        (IsDiscarded plan (context_of params) params.fingerprint_matches_memo params.clean_steps) d
        (discard_clean_steps-IsDiscarded plan (context_of params) params.fingerprint_matches_memo
          params.clean_steps constructed run) in
    let allowed : build.remaining_failures ≡ failures_allowed =
      discard-remaining_failures (context_of params) params.fingerprint_matches_memo
        params.clean_steps constructed build discarded d
      ∙ construct-remaining_failures params.steps params.invocations failures_allowed targets
          constructed c in
    let state : IsRunning params skipped build failures_allowed skipped skipped build [] = record {
      execution = begin;
      active = λ i h. absurd (omega arith);
      single = λ i. omega arith;
      bounded = omega arith;
      accounted = λ i none_failed st fin. absurd (cc);
    } in
    (
      skipped,
      clean,
      IsEnd-IsBuildEnd around params plan skipped build failures_allowed base some_allowed can_start
          (run_build around params failures_allowed events (begun build world))
          (run_build-IsEnd around params skipped build failures_allowed plan base some_allowed
            events (begun build world) (skipped, skipped, state)),
    )
