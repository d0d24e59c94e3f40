-- ===== src/Build/Schedule.antt =====
-- The order in which a build starts its steps: build.cpp from `Build::construct` over
-- `Build::discardCleanSteps` to `enqueueBuildCommand`, which takes the step at the back of
-- `ready_steps`, and `commandDone`, which marks a step whose command succeeded, or that was skipped,
-- as done. Commands run at once and end in any order, and one that fails is never marked.
pub mod Built
pub mod Skips
mod Tests
use shuriken.Build.Ready.Discarding.{IsDiscarded, discard_clean_steps-IsDiscarded}
use shuriken.Build.Graph.Construct.{IsConstructed, construct_correct}
use shuriken.Build.Ready.Round.{is_discardable}
use shuriken.Build.Graph.Nodes.{count}
use shuriken.Fs.FileId.{FileId}
use shuriken.Build.Graph.Visit.{IsInRange}
use shuriken.Build.Graph.Progress.{Edge}
use mathlib.Core.Path.{subst}
use shuriken.Build.Ready.Finish.{IsMarkResult, mark_step_node_as_done-IsRun}
use shuriken.Build.Ready.Order.{
  IsRun, IsRun-take, dependencies_finished, with_step, IsGraphOf-IsRun,
}
use shuriken.Build.Data.{StepIndex, Step, Invocations, FingerprintMatchesMemo, CleanSteps}
use shuriken.Prelude.{
  List, Bool, ℕ, unsnoc, ◌≡◌, some, true, inr, ◌≢◌, inl, ◌<◌, false, arith, length, All, sym,
}
use shuriken.Build.Graph.{
  Plan, Build, Outcome, failed, make_plan, assertion, done, construct, out_of_fuel,
}
use shuriken.Build.Ready.{Context, mark_step_node_as_done, discard_clean_steps}

pub data Execution (context : Context) (skipped : StepIndex → Bool) (build : Build)
    : (StepIndex → Bool) → (StepIndex → Bool) → Build → Type 0 where
  begin : Execution context skipped build skipped skipped build
  start :
      {started finished : StepIndex → Bool} {b : Build} (rest : List StepIndex) (s : StepIndex)
      → Execution context skipped build started finished b
      → unsnoc b.ready_steps ≡ some (rest, s)
      → Execution context skipped build
          (with_step started s)
          finished
          (record b { ready_steps = rest })
  finish :
      {started finished : StepIndex → Bool} {b after : Build} (s : StepIndex) (ids : List FileId)
      (skip : Bool)
      → Execution context skipped build started finished b
      → started s ≡ true
      → finished s ≡ false
      → mark_step_node_as_done context b s ids skip ≡ done after
      → Execution context skipped build started (with_step finished s) after
  -- What a build keeps besides its nodes and ready steps changes freely.
  note :
      {started finished : StepIndex → Bool} {b : Build} (after : Build)
      → Execution context skipped build started finished b
      → after.step_nodes ≡ b.step_nodes
      → after.ready_steps ≡ b.ready_steps
      → Execution context skipped build started finished after

pub Execution-IsRun :
    (plan : Plan) (context : Context) {skipped : StepIndex → Bool} {build : Build}
    {started finished : StepIndex → Bool} {b : Build}
    → IsRun plan skipped skipped build.step_nodes build.ready_steps
    → Execution context skipped build started finished b
    → IsRun plan started finished b.step_nodes b.ready_steps
Execution-IsRun plan context run begin = run
Execution-IsRun plan context run (start {started} {finished} {b} rest s e last) =
    IsRun-take plan started finished b.step_nodes b.ready_steps rest s
      (Execution-IsRun plan context run e) last
Execution-IsRun plan context run (finish {started} {finished} {b} {after} s ids skip e st fin m) =
    (subst (IsMarkResult plan started (with_step finished s) b) m (
      mark_step_node_as_done-IsRun plan started finished context b s ids skip
        (Execution-IsRun plan context run e) st fin)).0
Execution-IsRun plan context run (note {started} {finished} {b} after e nodes ready) =
    subst (λ n. IsRun plan started finished n after.ready_steps) (sym nodes)
      (subst (λ r. IsRun plan started finished b.step_nodes r) (sym ready)
        (Execution-IsRun plan context run e))

-- What holds in every state of an execution
pub record IsOrdered (plan : Plan) (context : Context) (started finished : StepIndex → Bool)
    (b : Build) : Type 0 where
  pub in_order : (i d : StepIndex) → started i ≡ true → Edge plan i d → finished d ≡ true
  pub ready_in_order :
      (i d : StepIndex) → 0 < count i b.ready_steps → Edge plan i d → finished d ≡ true
  pub once :
      (i : StepIndex)
      → 0 < count i b.ready_steps
      → (started i ≡ false) × (count i b.ready_steps ≡ 1)
  pub no_assertion :
      (s : StepIndex) (ids : List FileId) (skip : Bool)
      → started s ≡ true
      → finished s ≡ false
      → mark_step_node_as_done context b s ids skip ≢ failed assertion

IsMarkResult-no_assertion :
    (plan : Plan) (started finished : StepIndex → Bool) (b : Build) (o : Outcome Build)
    → IsMarkResult plan started finished b o
    → o ≢ failed assertion
IsMarkResult-no_assertion plan started finished b (done a) m e = absurd (cc)
IsMarkResult-no_assertion plan started finished b (failed f) m e = absurd (cc)
IsMarkResult-no_assertion plan started finished b out_of_fuel m e = m

pub IsRun-IsOrdered :
    (plan : Plan) (context : Context) (started finished : StepIndex → Bool) (b : Build)
    → IsRun plan started finished b.step_nodes b.ready_steps
    → IsOrdered plan context started finished b
IsRun-IsOrdered plan context started finished b run = record {
  in_order = λ i d h.
      dependencies_finished plan started finished b.step_nodes b.ready_steps i d run (inr h);
  ready_in_order = λ i d h.
      dependencies_finished plan started finished b.step_nodes b.ready_steps i d run (inl h);
  once = λ i h. (ground (arith, run.exact i), ground (arith, run.exact i));
  no_assertion = λ s ids skip st fin.
      IsMarkResult-no_assertion plan started (with_step finished s) b _
        (mark_step_node_as_done-IsRun plan started finished context b s ids skip run st fin);
}

-- Where all dependencies, declared or logged, and all targets are indices of steps, and a build of
-- them is constructed and its clean steps discarded: the discarded steps are clean or phony; and in
-- every state that starting ready steps and marking started ones as done reaches, in whatever order
-- the commands end, a step that was started, or is ready, has all its dependencies done or
-- discarded; a ready step was not started before and is ready once; and marking a running step as
-- done fails no assertion.
pub Execution-IsOrdered :
    (steps : List Step) (invocations : Invocations) (failures_allowed : ℕ)
    (targets : List StepIndex) (memo : FingerprintMatchesMemo) (clean_steps : CleanSteps)
    (constructed build : Build) (discarded : ℕ)
    → IsInRange (make_plan steps invocations) (length steps)
    → All (λ t. t < length steps) targets
    → construct steps invocations failures_allowed targets ≡ done constructed
    → discard_clean_steps
        (record { steps = steps; invocations = invocations })
        memo
        clean_steps
        constructed
      ≡ done (build, discarded)
    → (skipped : StepIndex → Bool) × ((i : StepIndex)
        → skipped i ≡ true
        → is_discardable (record { steps = steps; invocations = invocations }) clean_steps i ≡ true)
      × ((started finished : StepIndex → Bool) (b : Build)
          → Execution
              (record { steps = steps; invocations = invocations })
              skipped
              build
              started
              finished
              b
          → IsOrdered
              (make_plan steps invocations)
              (record { steps = steps; invocations = invocations })
              started
              finished
              b)
Execution-IsOrdered steps invocations failures_allowed targets memo clean_steps constructed build
      discarded in_range inside c d =
    let plan = make_plan steps invocations in
    let context : Context = record { steps = steps; invocations = invocations } in
    let graph : IsConstructed plan targets (done constructed) =
      subst (IsConstructed plan targets) c
        (construct_correct steps invocations failures_allowed targets in_range inside) in
    let run =
      IsGraphOf-IsRun plan targets constructed.step_nodes constructed.ready_steps graph.0 graph.1 in
    let (skipped, r, clean, _) : IsDiscarded plan context memo clean_steps
        (done (build, discarded)) =
      subst (IsDiscarded plan context memo clean_steps) d
        (discard_clean_steps-IsDiscarded plan context memo clean_steps constructed run) in
    (
      skipped,
      clean,
      λ started finished b e.
          IsRun-IsOrdered plan context started finished b (Execution-IsRun plan context r e),
    )
