-- ===== src/Build/Run/Stalled.antt =====
-- About `enqueueBuildCommands` of build.cpp: it ends, and nothing that could start is left.
use shuriken.Build.Ready.Order.{IsRun}
use shuriken.Build.Graph.{Build, Plan}
use shuriken.Build.Data.{StepIndex}
use shuriken.Build.Run.Enqueued.{
  take_step-IsTaken, command_bypassed-Fine, start_command-Fine, measure,
}
use shuriken.Build.Run.Kept.{Fine, bind-Fine, IsRunning, IsUnderWay}
use shuriken.Build.Run.Commands.{command_bypassed, start_command}
use shuriken.Build.Run.Loop.{
  enqueue_step, take_step, accepts, can_skip, enqueue_build_command, enqueue_loop,
  enqueue_build_commands,
}
use shuriken.Build.Run.{Surroundings, Parameters, Running, Going, ◌>>=◌, went}
use shuriken.Prelude.{
  nat_eq, zero, Bool, ℕ, List, suc, ◌≡◌, ◌+◌, [], unsnoc, arith, ◌≤◌, some, ◌⊎◌, if◌then◌else◌,
  true, false, Option-cases, inl, unsnoc-none, inr, Bool-cases,
}

module _ {W : Type 0} (around : Surroundings W) (params : Parameters) (skipped : StepIndex → Bool)
    (first : Build) (failures_allowed : ℕ) (plan : Plan)
    (base : IsRun plan skipped skipped first.step_nodes first.ready_steps) where
  -- No step is ready, or none is accepted.
  abbrev pub IsStalled : Running W → Type 0
  IsStalled run = (run.build.ready_steps ≡ []) ⊎ (accepts around params run ≡ false)

  abbrev Keeps : Running W → Type 0
  Keeps = IsUnderWay params skipped first failures_allowed

  abbrev IsRound : Running W → Bool × Running W → Type 0
  IsRound run (true, next) = Keeps next × (measure next.build + 1 ≤ measure run.build)
  IsRound run (false, next) = Keeps next × IsStalled next

  going_on :
      (run : Running W) (m : Going (Running W))
      → Fine (λ next. Keeps next × (measure next.build + 1 ≤ measure run.build)) m
      → Fine (IsRound run) (m >>= λ next. went (true, next))
  going_on run m h =
      bind-Fine (λ next. Keeps next × (measure next.build + 1 ≤ measure run.build)) (IsRound run) m
        (λ next. went (true, next)) h (λ next e kept. kept)

  enqueue_step-IsRound :
      (started finished : StepIndex → Bool) (run : Running W)
      → IsRunning params skipped first failures_allowed started finished run.build run.running
      → (rest : List StepIndex) (s : StepIndex) → unsnoc run.build.ready_steps ≡ some (rest, s)
      → Fine (IsRound run) (enqueue_step around params run rest s)
  unfolding enqueue_step
  enqueue_step-IsRound started finished run state rest s last =
      let taken = take_step around params rest s run in
      let took = take_step-IsTaken around params rest s run in
      elim (Bool-cases (accepts around params run)) [
        | inr refused ↦ rw refused ((started, finished, state), inr refused)
        | inl accepted ↦ elim (Bool-cases (can_skip around params taken s)) [
          | inl skips ↦
              rw (accepted, skips)
                (going_on run (command_bypassed around params s taken) (
                  command_bypassed-Fine around params skipped first failures_allowed plan base
                    started finished run taken state rest s last took))
          | inr runs ↦
              rw (accepted, runs)
                (going_on run (start_command around params s taken) (
                  start_command-Fine around params skipped first failures_allowed plan base started
                    finished run taken state rest s last took))
        ]
      ]

  enqueue_build_command-IsRound :
      (run : Running W) → Keeps run → Fine (IsRound run) (enqueue_build_command around params run)
  unfolding enqueue_build_command
  enqueue_build_command-IsRound run (started, finished, state) =
      elim (Option-cases (unsnoc run.build.ready_steps)) [
        | inl empty ↦
            rw (empty, enqueue_build_command)
              ((started, finished, state), inl (unsnoc-none run.build.ready_steps empty))
        | inr ((rest, s), last) ↦
            rw (last, enqueue_build_command)
              (enqueue_step-IsRound started finished run state rest s last)
      ]

  enqueue_loop-IsStalled :
      (fuel : ℕ) (run : Running W)
      → Keeps run
      → measure run.build + 1 ≤ fuel
      → Fine (λ next. Keeps next × IsStalled next) (enqueue_loop around params fuel run)
  unfolding enqueue_loop
  enqueue_loop-IsStalled zero run keeps enough = absurd (omega arith)
  enqueue_loop-IsStalled (suc fuel) run keeps enough =
      bind-Fine (IsRound run) (λ next. Keeps next × IsStalled next)
        (enqueue_build_command around params run)
        (λ (more, next).
          let rest = enqueue_loop around params fuel next in if more then rest else went next)
        (enqueue_build_command-IsRound run keeps)
        (λ round e. go round (λ kept less. enqueue_loop-IsStalled fuel round.1 kept (omega arith)))
    where
      go :
          (round : Bool × Running W)
          → (Keeps round.1
              → measure round.1.build + 1 ≤ measure run.build
              → Fine
                  (λ next. Keeps next × IsStalled next)
                  (enqueue_loop around params fuel round.1))
          → IsRound run round
          → Fine
              (λ next. Keeps next × IsStalled next)
              (let rest = enqueue_loop around params fuel round.1 in
                if round.0 then rest else went round.1)
      go (true, next) again (kept, less) = again kept less
      go (false, next) again stalled = stalled

  pub enqueue_build_commands-IsStalled :
      (run : Running W)
      → Keeps run
      → Fine (λ next. Keeps next × IsStalled next) (enqueue_build_commands around params run)
  unfolding enqueue_build_commands
  enqueue_build_commands-IsStalled run keeps =
      enqueue_loop-IsStalled (suc (measure run.build)) run keeps (omega arith)
