-- ===== src/Build/Run/Enqueued.antt =====
-- About `enqueueBuildCommand` and `enqueueBuildCommands` of build.cpp: they keep what holds of a running
-- build, and end.
use mathlib.Core.Path.{subst}
use shuriken.Build.Ready.Order.{IsRun, with_step}
use shuriken.Build.Graph.Nodes.{all_dependencies, count}
use shuriken.Build.Ready.{Context, mark_step_node_as_done, output_file_ids_for_build_step}
use shuriken.Log.Data.{Logged}
use shuriken.Fs.FileId.{FileId}
use shuriken.Build.Data.{StepIndex, step_at, Step}
use shuriken.Build.Graph.{Build, Outcome, Plan, done, failed, out_of_fuel}
use shuriken.Build.Run.Kept.{
  Fine, bind-Fine, IsRunning, IsUnderWay, start-IsRunning, skip-IsRunning, fresh,
}
use shuriken.Build.Run.Quiet.{prepare_command-Quiet}
use shuriken.Build.Run.Prepare.{prepare_command}
use shuriken.Build.Run.Commands.{command_bypassed, start_command, report}
use shuriken.Build.Run.Loop.{take_step}
use shuriken.Build.Run.{
  Surroundings, Parameters, Running, ◌>>=◌, went, of_did, of_outcome, logged_of, context_of,
  step_finished,
}
use shuriken.Build.Cleanup.Stale.{EndsQuietly}
use shuriken.Build.Cleanup.{Did, did, raised, starved, Os}
use shuriken.Build.Ready.Finish.{IsMarkResult, mark_step_node_as_done-IsRun}
use shuriken.Build.Ready.Outputs.{IsFound, output_file_ids-IsFound}
use shuriken.Build.Schedule.{Execution-IsRun, start, note}
use shuriken.Prelude.{
  nat_eq, refl, List, ℕ, Bool, ◌≡◌, true, unsnoc, ◌+◌, length, false, inr, some, inl, ap, ◌≤◌,
  unsnoc-some, length-append, ◌∷◌, [], arith, ◌++◌, sym, ◌∙◌,
}

abbrev pub measure : Build → ℕ
measure b = all_dependencies b.step_nodes + length b.ready_steps

pub mark-Fine :
    (plan : Plan) (started finished : StepIndex → Bool) (context : Context) (build : Build)
    (s : StepIndex) (ids : List FileId) (skip : Bool)
    → IsRun plan started finished build.step_nodes build.ready_steps
    → started s ≡ true
    → finished s ≡ false
    → Fine
        (λ after.
          (mark_step_node_as_done context build s ids skip ≡ done after)
          × (measure after ≤ measure build))
        (of_outcome (mark_step_node_as_done context build s ids skip))
mark-Fine plan started finished context build s ids skip run st fin =
    go (mark_step_node_as_done context build s ids skip) refl
      (mark_step_node_as_done-IsRun plan started finished context build s ids skip run st fin)
  where
    go :
        (o : Outcome Build)
        → mark_step_node_as_done context build s ids skip ≡ o
        → IsMarkResult plan started (with_step finished s) build o
        → Fine
            (λ after.
              (mark_step_node_as_done context build s ids skip ≡ done after)
              × (measure after ≤ measure build))
            (of_outcome o)
    go (done after) e m = (e, m.2)
    go (failed error) e m = inl m
    go out_of_fuel e m = m

pub of_outcome-IsFound :
    (o : Outcome (List FileId)) → IsFound o → Fine (λ ids. Unit {0}) (of_outcome o)
of_outcome-IsFound (done ids) h = tt
of_outcome-IsFound (failed e) h = inr h
of_outcome-IsFound out_of_fuel h = h

pub of_did-Fine :
    {W : Type 0} (os : Os W) (logged : Logged) (run : Running W) (outcome : Did W (Unit {0}))
    → EndsQuietly os logged run.world outcome
    → Fine (λ next. (next.build ≡ run.build) × (next.running ≡ run.running)) (of_did run outcome)
of_did-Fine os logged run (did done_it world) h = (refl, refl)
of_did-Fine os logged run (raised code world) h = tt
of_did-Fine os logged run starved h = h

-- The step that leaves the ready steps changes nothing else that matters here.
pub record IsTaken {W : Type 0} (rest : List StepIndex) (run taken : Running W) : Type 0 where
  pub nodes : taken.build.step_nodes ≡ run.build.step_nodes
  pub ready : taken.build.ready_steps ≡ rest
  pub failures : taken.build.remaining_failures ≡ run.build.remaining_failures
  pub running : taken.running ≡ run.running

pub take_step-IsTaken :
    {W : Type 0} (around : Surroundings W) (params : Parameters) (rest : List StepIndex)
    (s : StepIndex) (run : Running W)
    → IsTaken rest run (take_step around params rest s run)
unfolding take_step
take_step-IsTaken around params rest s run = record {
  nodes = refl;
  ready = refl;
  failures = refl;
  running = refl;
}

module _ {W : Type 0} (around : Surroundings W) (params : Parameters) (skipped : StepIndex → Bool)
    (first : Build) (failures_allowed : ℕ) (plan : Plan)
    (base : IsRun plan skipped skipped first.step_nodes first.ready_steps) where
  abbrev UnderWay : Running W → Type 0
  UnderWay = IsUnderWay params skipped first failures_allowed

  module _ (started finished : StepIndex → Bool) (run taken : Running W)
      (state : IsRunning params skipped first failures_allowed started finished run.build
        run.running)
      (rest : List StepIndex) (s : StepIndex) (last : unsnoc run.build.ready_steps ≡ some (rest, s))
      (t : IsTaken rest run taken) where
    measure_taken : measure taken.build + 1 ≡ measure run.build
    measure_taken =
        let e = ap length (unsnoc-some run.build.ready_steps rest s last) in
        let l = length-append rest (s ∷ []) in
        let n = ap all_dependencies t.nodes in
        let r = ap length t.ready in omega (arith, e, l, n, r)

    taken-IsRun :
        IsRun plan (with_step started s) finished taken.build.step_nodes taken.build.ready_steps
    taken-IsRun =
        Execution-IsRun plan (context_of params) base
          (note taken.build (start rest s state.execution last) t.nodes t.ready)

    abbrev facts : (started s ≡ false) × (finished s ≡ false) × (count s run.running ≡ 0)
    facts =
        fresh params skipped first failures_allowed plan base started finished run.build run.running
          state rest s last

    pub command_bypassed-Fine :
        Fine
          (λ next. UnderWay next × (measure next.build + 1 ≤ measure run.build))
          (command_bypassed around params s taken)
    unfolding command_bypassed
    command_bypassed-Fine =
        bind-Fine (λ ids. Unit) Next
          (of_outcome (
            output_file_ids_for_build_step params.invocations params.fingerprint_matches_memo step))
          (λ ids. of_outcome (mark ids) >>= λ build. went (record reported { build = build }))
          (of_outcome-IsFound
            (output_file_ids_for_build_step params.invocations params.fingerprint_matches_memo step)
            (output_file_ids-IsFound params.invocations params.fingerprint_matches_memo step))
          (λ ids e found.
            bind-Fine (λ after. (mark ids ≡ done after) × (measure after ≤ measure taken.build))
              Next (of_outcome (mark ids)) (λ build. went (record reported { build = build }))
              (mark-Fine plan (with_step started s) finished (context_of params) taken.build s ids
                true taken-IsRun (ground arith) facts.1)
              (λ after e' (marked, less). (
                (
                  with_step started s,
                  with_step finished s,
                  subst
                      (λ r.
                        IsRunning params skipped first failures_allowed (with_step started s)
                          (with_step finished s) after r)
                      (sym t.running)
                      (skip-IsRunning params skipped first failures_allowed plan base started
                        finished run.build run.running state rest s last taken.build after ids
                        t.nodes t.ready t.failures marked),
                ),
                omega (arith, measure_taken),
              )))
      where
        step : Step
        step = step_at params.steps s

        reported : Running W
        reported = report step (step_finished s true "") taken

        mark : List FileId → Outcome Build
        mark ids = mark_step_node_as_done (context_of params) taken.build s ids true

        Next : Running W → Type 0
        Next next = UnderWay next × (measure next.build + 1 ≤ measure run.build)

    pub start_command-Fine :
        Fine
          (λ next. UnderWay next × (measure next.build + 1 ≤ measure run.build))
          (start_command around params s taken)
    unfolding start_command
    start_command-Fine =
        bind-Fine
          (λ (next : Running W). (next.build ≡ taken.build) × (next.running ≡ taken.running))
          (λ (next : Running W). UnderWay next × (measure next.build + 1 ≤ measure run.build))
          (of_did taken (prepare_command around params (step_at params.steps s) taken.world))
          (λ ready. went (record ready { running = ready.running ++ s ∷ [] }))
          (of_did-Fine around.os (logged_of around.bytes params) taken
            (prepare_command around params (step_at params.steps s) taken.world)
            (prepare_command-Quiet around params (step_at params.steps s) taken.world))
          (λ next e (build, running). (
            (
              with_step started s,
              finished,
              subst
                  (λ r.
                    IsRunning params skipped first failures_allowed (with_step started s) finished
                      next.build (r ++ s ∷ []))
                  (sym (running ∙ t.running))
                  (start-IsRunning params skipped first failures_allowed plan base started finished
                    run.build run.running state rest s last next.build
                    (ap (λ (b : Build). b.step_nodes) build ∙ t.nodes)
                    (ap (λ (b : Build). b.ready_steps) build ∙ t.ready)
                    (ap (λ (b : Build). b.remaining_failures) build ∙ t.failures)),
            ),
            omega (arith, measure_taken, ap measure build),
          ))
