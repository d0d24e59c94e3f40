-- ===== src/Build/Run/Correct.antt =====
-- About `build` of build.cpp from its first command on: whatever commands end in whatever order, the
-- steps run in the order of their dependencies, and what is returned is true.
use shuriken.Build.Graph.Nodes.{count, to_number}
use shuriken.Build.Ready.Order.{IsRun}
use shuriken.Build.Graph.{Build, Plan}
use shuriken.Build.Data.{StepIndex}
use shuriken.Build.Run.Ended.{finish_command-Fine, count-take_out}
use shuriken.Build.Run.Stalled.{IsStalled, enqueue_build_commands-IsStalled}
use shuriken.Build.Run.Kept.{Fine, bind-Fine, IsUnderWay}
use shuriken.Build.Run.Loop.{
  RunnerEvent, command_ended, interruption, End, returned, waits, no_work_to_do, build_success,
  build_failure, build_interrupted, result_of_build, run_commands, run_build, command_done,
  enqueue_build_commands, take_out,
}
use shuriken.Build.Run.Commands.{finish_command}
use shuriken.Build.Run.{Surroundings, Parameters, Running, Result}
use shuriken.Prelude.{
  nat_eq, refl, ℕ, List, Bool, ◌≡◌, [], ◌≢◌, ◌<◌, Option-cases, if◌then◌else◌, is_empty, inl, ◌+◌,
  inr, ◌==◌, nat_beq, Bool-cases, true, false, arith, ◌∷◌, nat_beq_iff,
}

-- What a result says
abbrev pub IsResult : {W : Type 0} → ℕ → End → Running W → Type 0
IsResult failures_allowed (returned no_work_to_do) run =
    (run.running ≡ [])
    × (run.build.remaining_failures ≡ failures_allowed)
    × (run.build.invoked_commands ≡ 0)
IsResult failures_allowed (returned build_success) run =
    (run.running ≡ [])
    × (run.build.remaining_failures ≡ failures_allowed)
    × (run.build.invoked_commands ≢ 0)
IsResult failures_allowed (returned build_failure) run =
    (run.running ≡ []) × (run.build.remaining_failures ≢ failures_allowed)
IsResult failures_allowed (returned build_interrupted) run = run.running ≢ []
IsResult failures_allowed waits run = run.running ≢ []

differs : (a b : ℕ) → nat_beq a b ≡ false → a ≢ b
differs a b h e = ground (arith, nat_beq_iff a b)

result_of_build-IsResult :
    {W : Type 0} (failures_allowed : ℕ) (run : Running W)
    → run.running ≡ []
    → IsResult failures_allowed (returned (result_of_build failures_allowed run.build)) run
result_of_build-IsResult failures_allowed run none_runs =
    elim (Bool-cases (nat_beq run.build.remaining_failures failures_allowed)) [
      | inr failures ↦
          rw (failures, IsResult)
            (none_runs, differs run.build.remaining_failures failures_allowed failures)
      | inl no_failures ↦
          let same : run.build.remaining_failures ≡ failures_allowed = ground arith in
          elim (Bool-cases (nat_beq run.build.invoked_commands 0)) [
            | inl idle ↦ rw (no_failures, idle, IsResult) (none_runs, same, ground arith)
            | inr busy ↦
                rw (no_failures, busy, IsResult)
                  (none_runs, same, differs run.build.invoked_commands 0 busy)
          ]
    ]

is_empty-nil : (xs : List StepIndex) → is_empty xs ≡ true → xs ≡ []
is_empty-nil [] h = refl
is_empty-nil (x ∷ xs) h = absurd (cc)

is_empty-cons : (xs : List StepIndex) → is_empty xs ≡ false → xs ≢ []
is_empty-cons [] h e = absurd (cc)
is_empty-cons (x ∷ xs) h e = absurd (cc)

module _ {W : Type 0} (around : Surroundings W) (params : Parameters) (skipped : StepIndex → Bool)
    (first : Build) (failures_allowed : ℕ) (plan : Plan)
    (base : IsRun plan skipped skipped first.step_nodes first.ready_steps)
    (some_allowed : 0 < failures_allowed) where
  abbrev pub Stays : Running W → Type 0
  Stays run =
      IsUnderWay params skipped first failures_allowed run
      × IsStalled around params skipped first failures_allowed plan base run

  abbrev pub IsEnd : End × Running W → Type 0
  IsEnd (end, run) = Stays run × IsResult failures_allowed end run

  ending-IsResult :
      (run : Running W) (others : End)
      → (run.running ≢ [] → IsResult failures_allowed others run)
      → IsResult failures_allowed
          (if is_empty run.running
            then returned (result_of_build failures_allowed run.build)
            else others)
          run
  ending-IsResult run others h = elim (Bool-cases (is_empty run.running)) [
    | inl idle ↦
        rw (idle, IsResult)
          (result_of_build-IsResult failures_allowed run (is_empty-nil run.running idle))
    | inr busy ↦ rw (busy, IsResult) (h (is_empty-cons run.running busy))
  ]

  command_done-Stays :
      (s : StepIndex) (result : Result) (run : Running W) (running : List StepIndex)
      → IsUnderWay params skipped first failures_allowed (record run { running = running })
      → ((i : StepIndex) → count i running ≡ count i run.running + to_number (s == i))
      → Fine Stays (command_done around params s result run)
  unfolding command_done
  command_done-Stays s result run running (started, finished, state) taken_out =
      bind-Fine (IsUnderWay params skipped first failures_allowed) Stays
        (finish_command around params s result run)
        (λ finished. enqueue_build_commands around params finished)
        (finish_command-Fine around params skipped first failures_allowed plan base some_allowed
          started finished run.build running run.running state s taken_out result run refl refl)
        (λ next e kept.
          enqueue_build_commands-IsStalled around params skipped first failures_allowed plan base
            next kept)

  run_commands-IsEnd :
      (events : List (RunnerEvent W)) (run : Running W)
      → Stays run
      → Fine IsEnd (run_commands around params failures_allowed events run)
  unfolding run_commands
  run_commands-IsEnd [] run stays = (stays, ending-IsResult run waits (λ h. h))
  run_commands-IsEnd (interruption ∷ es) run stays =
      (stays, ending-IsResult run (returned build_interrupted) (λ h. h))
  run_commands-IsEnd (command_ended k result files ∷ es) run stays =
      elim (Option-cases (take_out k run.running)) [
        | inl absent ↦ rw (absent, run_commands) (run_commands-IsEnd es run stays)
        | inr ((rest, s), out) ↦
            rw (out, run_commands)
              (let begun = record run {
                running = rest;
                world = record run.world { files = files };
              } in
                bind-Fine Stays IsEnd (command_done around params s result begun)
                  (λ next. run_commands around params failures_allowed es next)
                  (command_done-Stays s result begun run.running stays.0
                    (λ i. count-take_out k run.running rest s i out))
                  (λ next e kept. run_commands-IsEnd es next kept))
      ]

  pub run_build-IsEnd :
      (events : List (RunnerEvent W)) (run : Running W)
      → IsUnderWay params skipped first failures_allowed run
      → Fine IsEnd (run_build around params failures_allowed events run)
  unfolding run_build
  run_build-IsEnd events run kept =
      bind-Fine Stays IsEnd (enqueue_build_commands around params run)
        (run_commands around params failures_allowed events)
        (enqueue_build_commands-IsStalled around params skipped first failures_allowed plan base run
          kept)
        (λ next e stays. run_commands-IsEnd events next stays)
