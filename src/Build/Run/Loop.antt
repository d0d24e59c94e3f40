-- ===== src/Build/Run/Loop.antt =====
-- build.cpp: `enqueueBuildCommand`, `enqueueBuildCommands`, `commandDone`, and `build` from its first
-- command on.
use shuriken.Build.Graph.Nodes.{all_dependencies}
use shuriken.Build.Clean.{can_skip_build_command}
use shuriken.Build.Graph.{Build, node_at}
use shuriken.Build.Run.Commands.{start_command, command_bypassed, finish_command, report}
use shuriken.Build.Run.{
  Surroundings, Parameters, Running, Going, ◌>>=◌, went, endless, step_started, Result,
}
use shuriken.Build.Data.{phony, step_at, StepIndex}
use shuriken.Prelude.{
  nat_eq, zero, ℕ, Bool, List, suc, Option, unsnoc, ◌&&◌, if◌then◌else◌, none, nat_beq, not,
  is_empty, ◌+◌, ◌∷◌, false, length, some, true, [],
}

-- What happens while the runner waits: the command at a position among those that run ends, with a
-- result and the files as they then are, or the build is interrupted.
pub data RunnerEvent (W : Type 0) : Type 0 where
  command_ended : ℕ → Result → W → RunnerEvent W
  interruption : RunnerEvent W

-- `BuildResult`
pub data BuildResult : Type 0 where
  no_work_to_do build_success build_interrupted build_failure : BuildResult

-- A result, or commands that still run when no more happens
pub data End : Type 0 where
  returned : BuildResult → End
  waits : End

-- The element at a position, and the others
unfoldable pub take_out {ℓ} : {A : Type ℓ} → ℕ → List A → Option (List A × A)
take_out k [] = none
take_out zero (x ∷ xs) = some (xs, x)
take_out (suc k) (x ∷ xs) = elim (take_out k xs) [
  | none ↦ none
  | some (rest, y) ↦ some (x ∷ rest, y)
]

abbrev pub result_of_build : ℕ → Build → BuildResult
result_of_build failures_allowed build =
    if nat_beq build.remaining_failures failures_allowed
    then (if nat_beq build.invoked_commands 0 then no_work_to_do else build_success)
    else build_failure

module _ {W : Type 0} (around : Surroundings W) (params : Parameters) where
  -- Whether a step can be taken: the first test of `enqueueBuildCommand`, less the ready steps
  abbrev pub accepts : Running W → Bool
  accepts run =
      around.can_run_more run.running run.world.files
      && not (nat_beq run.build.remaining_failures 0)

  abbrev pub can_skip : Running W → StepIndex → Bool
  can_skip run s =
      can_skip_build_command (around.file_system run.world.files) params.clean_steps
        run.build.written_files params.invocations
        (node_at run.build.step_nodes s).no_direct_dependencies_built (step_at params.steps s) s

  -- The step leaves the ready steps.
  unfoldable pub take_step : List StepIndex → StepIndex → Running W → Running W
  take_step rest s run =
      let step = step_at params.steps s in
      report step (step_started s) (record run {
        build = record run.build {
          ready_steps = rest;
          invoked_commands = run.build.invoked_commands + (if phony step then 0 else 1);
        };
      })

  -- What is returned says whether to go on.
  unfoldable pub enqueue_step : Running W → List StepIndex → StepIndex → Going (Bool × Running W)
  enqueue_step run rest s =
      let taken = take_step rest s run in
      let skipping = command_bypassed around params s taken in
      let starting = start_command around params s taken in
      if not (accepts run)
      then went (false, run)
      else (if can_skip taken s then skipping else starting) >>= λ next. went (true, next)

  unfoldable pub enqueue_build_command : Running W → Going (Bool × Running W)
  enqueue_build_command run = elim (unsnoc run.build.ready_steps) [
    | none ↦ went (false, run)
    | some (rest, s) ↦ enqueue_step run rest s
  ]

  unfoldable pub enqueue_loop : ℕ → Running W → Going (Running W)
  enqueue_loop zero run = endless
  enqueue_loop (suc fuel) run = enqueue_build_command run >>= λ (more, next).
      let rest = enqueue_loop fuel next in if more then rest else went next

  -- Each round lowers the sum of the counters and the number of ready steps.
  unfoldable pub enqueue_build_commands : Running W → Going (Running W)
  enqueue_build_commands run =
      enqueue_loop (suc (all_dependencies run.build.step_nodes + length run.build.ready_steps)) run

  unfoldable pub command_done : StepIndex → Result → Running W → Going (Running W)
  command_done s result run =
      finish_command around params s result run >>= λ finished. enqueue_build_commands finished

  -- The loop of `build` over `runCommands`
  unfoldable pub run_commands : ℕ → List (RunnerEvent W) → Running W → Going (End × Running W)
  run_commands failures_allowed [] run = went (
    if is_empty run.running then returned (result_of_build failures_allowed run.build) else waits,
    run,
  )
  run_commands failures_allowed (interruption ∷ es) run = went (
    if is_empty run.running
        then returned (result_of_build failures_allowed run.build)
        else returned build_interrupted,
    run,
  )
  run_commands failures_allowed (command_ended k result files ∷ es) run =
      elim (take_out k run.running) [
        | none ↦ run_commands failures_allowed es run
        | some (rest, s) ↦
            let begun = record run { running = rest; world = record run.world { files = files } } in
            command_done s result begun >>= λ next. run_commands failures_allowed es next
      ]

  unfoldable pub run_build : ℕ → List (RunnerEvent W) → Running W → Going (End × Running W)
  run_build failures_allowed events run =
      enqueue_build_commands run >>= λ begun. run_commands failures_allowed events begun
