-- ===== src/Build/Run/Ended.antt =====
-- About `commandDone` of build.cpp: a command that ends keeps what holds of a running build.
use shuriken.Build.Schedule.{Execution-IsRun, note}
use mathlib.Core.Path.{subst}
use shuriken.Build.Ready.{mark_step_node_as_done}
use shuriken.Build.Graph.Nodes.{to_number}
use shuriken.Build.Ready.Order.{IsRun, with_step}
use shuriken.Fs.FileId.{FileId}
use shuriken.Build.Graph.{Build, Plan, done}
use shuriken.Fs.Fingerprint.{Fingerprint}
use shuriken.Build.Data.{StepIndex, Step, step_at}
use Prim.Native.String.{String}
use shuriken.Fs.FileSystem.{Io, ok, io_error}
use shuriken.Build.Graph.Nodes.{count}
use shuriken.Build.Run.Enqueued.{mark-Fine, of_did-Fine, measure}
use shuriken.Build.Run.Kept.{
  Fine, bind-Fine, IsRunning, IsUnderWay, success-IsRunning, failure-IsRunning, was_active,
}
use shuriken.Build.Run.Commands.{
  fail_once, finish_command, settle_command, note_output, note_outputs, note_inputs, Outputs,
  report, succeeded, log_command,
}
use shuriken.Build.Run.Prepare.{delete_side_files}
use shuriken.Build.Run.Quiet.{delete_side_files-Quiet}
use shuriken.Build.Run.Loop.{take_out}
use shuriken.Build.Run.{
  Surroundings, Parameters, Running, Going, ◌>>=◌, went, of_did, of_io, of_outcome, logged_of,
  context_of, Result, success, failure, interrupted, step_finished, io_failed, build_failed,
  ExitStatus, endless,
}
use shuriken.Prelude.{
  nat_eq, zero, List, ◌∷◌, Bool, [], ℕ, ◌<◌, ◌≡◌, ◌+◌, ◌==◌, Option, arith, some, false, suc, none,
  ap, ◌≤◌, ◌∙◌, sym, ◌-◌,
}

-- The element that is taken out was there once more.
abbrev IsOut : List StepIndex → StepIndex → Option (List StepIndex × StepIndex) → Type 0
IsOut xs i none = Unit
IsOut xs i (some (rest, s)) = count i xs ≡ count i rest + to_number (s == i)

take_out-IsOut : (k : ℕ) (xs : List StepIndex) (i : StepIndex) → IsOut xs i (take_out k xs)
unfolding take_out
take_out-IsOut k [] i = tt
take_out-IsOut zero (x ∷ xs) i = ground arith
take_out-IsOut (suc k) (x ∷ xs) i = go (take_out k xs) (take_out-IsOut k xs i)
  where
    go :
        (o : Option (List StepIndex × StepIndex))
        → IsOut xs i o
        → IsOut (x ∷ xs) i (elim o [ none ↦ none | some (rest, y) ↦ some (x ∷ rest, y) ])
    go none h = tt
    go (some (rest, y)) h = omega (arith, h)

pub count-take_out :
    (k : ℕ) (xs rest : List StepIndex) (s i : StepIndex)
    → take_out k xs ≡ some (rest, s)
    → count i xs ≡ count i rest + to_number (s == i)
count-take_out k xs rest s i h = subst (IsOut xs i) h (take_out-IsOut k xs i)

of_io-Fine {ℓ} : {A : Type ℓ} (io : Io A) → Fine (λ a. Unit {0}) (of_io io)
of_io-Fine (ok a) = tt
of_io-Fine (io_error code) = tt

module _ {W : Type 0} (around : Surroundings W) (params : Parameters) where
  note_output-Fine :
      (files : W) (file : String) (outputs : Outputs)
      → Fine (λ o. Unit {0}) (note_output around params files file outputs)
  unfolding note_output
  note_output-Fine files file outputs = go _ (around.fingerprint file files)
    where
      go :
          (f : Fingerprint × FileId → Outputs) (io : Io (Fingerprint × FileId))
          → Fine (λ o. Unit {0}) (of_io io >>= λ a. went (f a))
      go f (ok a) = tt
      go f (io_error code) = tt

  note_outputs-Fine :
      (files : W) (fs : List String) (outputs : Outputs)
      → Fine (λ o. Unit {0}) (note_outputs around params files fs outputs)
  unfolding note_outputs
  note_outputs-Fine files [] outputs = tt
  note_outputs-Fine files (f ∷ fs) outputs =
      bind-Fine (λ o. Unit {0}) (λ o. Unit {0}) (note_output around params files f outputs)
        (λ noted. note_outputs around params files fs noted) (note_output-Fine files f outputs)
        (λ noted e h. note_outputs-Fine files fs noted)

  note_inputs-Fine :
      (files : W) (fs : List String) → Fine (λ o. Unit {0}) (note_inputs around params files fs)
  unfolding note_inputs
  note_inputs-Fine files [] = tt
  note_inputs-Fine files (f ∷ fs) =
      go (around.fingerprint f files) (note_inputs around params files fs)
        (note_inputs-Fine files fs)
    where
      go :
          (io : Io (Fingerprint × FileId)) (rest : Going (List Fingerprint × List FileId))
          → Fine (λ o. Unit {0}) rest
          → Fine {A = List Fingerprint × List FileId}
              (λ o. Unit {0})
              (of_io io >>= λ (fingerprint, id).
                rest >>= λ (fingerprints, ids). went (fingerprint ∷ fingerprints, id ∷ ids))
      go (io_error code) rest h = tt
      go (ok a) (went r) h = tt
      go (ok a) (io_failed code) h = tt
      go (ok a) (build_failed e) h = h
      go (ok a) endless h = h

module _ {W : Type 0} (around : Surroundings W) (params : Parameters) (skipped : StepIndex → Bool)
    (first : Build) (failures_allowed : ℕ) (plan : Plan)
    (base : IsRun plan skipped skipped first.step_nodes first.ready_steps)
    (some_allowed : 0 < failures_allowed) (started finished : StepIndex → Bool) (before : Build)
    (running rest : List StepIndex)
    (state : IsRunning params skipped first failures_allowed started finished before running)
    (s : StepIndex)
    (taken_out : (i : StepIndex) → count i running ≡ count i rest + to_number (s == i)) where
  abbrev Keeps : Running W → Type 0
  Keeps = IsUnderWay params skipped first failures_allowed

  fail_once-Keeps :
      (run : Running W)
      → run.build.step_nodes ≡ before.step_nodes
      → run.build.ready_steps ≡ before.ready_steps
      → run.build.remaining_failures ≡ before.remaining_failures
      → run.running ≡ rest
      → Keeps (fail_once around params run)
  fail_once-Keeps run nodes ready failures same =
      let failed_build = record run.build {
        remaining_failures = run.build.remaining_failures - 1;
      } in
      (
        started,
        finished,
        subst (IsRunning params skipped first failures_allowed started finished failed_build)
            (sym same)
            (failure-IsRunning params skipped first failures_allowed plan base started finished
              before running state s rest taken_out failed_build some_allowed nodes ready
              (ap (λ n. n - 1) failures)),
      )

  settle_command-Fine :
      (status : ExitStatus) (result : Result) (outputs : Outputs)
      (inputs : List Fingerprint × List FileId) (run : Running W)
      → run.build.step_nodes ≡ before.step_nodes
      → run.build.ready_steps ≡ before.ready_steps
      → run.build.remaining_failures ≡ before.remaining_failures
      → run.running ≡ rest
      → Fine Keeps (settle_command around params status s result outputs inputs run)
  unfolding settle_command
  settle_command-Fine success result outputs inputs run nodes ready failures same =
      let mark = mark_step_node_as_done (context_of params) run.build s outputs.file_ids false in
      let logged = log_command around params (step_at params.steps s) result outputs inputs run in
      let active =
        was_active params skipped first failures_allowed plan base started finished before running
          state s rest taken_out in
      bind-Fine (λ after. (mark ≡ done after) × (measure after ≤ measure run.build)) Keeps
        (of_outcome mark) (λ build. went (record logged { build = build }))
        (mark-Fine plan started finished (context_of params) run.build s outputs.file_ids false
          (Execution-IsRun plan (context_of params) base
            (note run.build state.execution nodes ready))
          active.0 active.1)
        (λ after e (marked, less). (
          started,
          with_step finished s,
          subst
              (IsRunning params skipped first failures_allowed started (with_step finished s) after)
              (sym same)
              (success-IsRunning params skipped first failures_allowed plan base started finished
                before running state s rest taken_out run.build after outputs.file_ids nodes ready
                failures marked),
        ))
  settle_command-Fine failure result outputs inputs run nodes ready failures same =
      fail_once-Keeps run nodes ready failures same
  settle_command-Fine interrupted result outputs inputs run nodes ready failures same =
      fail_once-Keeps run nodes ready failures same

  pub finish_command-Fine :
      (result : Result) (run : Running W)
      → run.build ≡ before
      → run.running ≡ rest
      → Fine Keeps (finish_command around params s result run)
  unfolding finish_command
  finish_command-Fine result run build same =
      bind-Fine (λ (next : Running W). (next.build ≡ run.build) × (next.running ≡ run.running))
        Keeps (of_did run (delete_side_files around params step result.exit_status run.world))
        noting
        (of_did-Fine around.os (logged_of around.bytes params) run
          (delete_side_files around params step result.exit_status run.world)
          (delete_side_files-Quiet around params step result.exit_status run.world))
        (λ next e (b, r). noting-Fine next (b ∙ build) (r ∙ same))
    where
      step : Step
      step = step_at params.steps s

      none_yet : Running W → Outputs
      none_yet run = record {
        fingerprints = [];
        file_ids = [];
        written_files = run.build.written_files;
        exit_status = result.exit_status;
        output = result.output;
      }

      settling : Running W → Outputs → List Fingerprint × List FileId → Going (Running W)
      settling run outputs inputs =
          settle_command around params outputs.exit_status s result outputs inputs (
            report step (step_finished s (succeeded outputs.exit_status) outputs.output)
              (record run { build = record run.build { written_files = outputs.written_files } }))

      noting : Running W → Going (Running W)
      noting run =
          note_outputs around params run.world.files result.output_files (none_yet run)
          >>= λ outputs. note_inputs around params run.world.files result.input_files >>= λ inputs.
              settling run outputs inputs

      noting-Fine :
          (next : Running W) → next.build ≡ before → next.running ≡ rest → Fine Keeps (noting next)
      noting-Fine next b r =
          bind-Fine (λ o. Unit {0}) Keeps
            (note_outputs around params next.world.files result.output_files (none_yet next))
            (λ outputs. note_inputs around params next.world.files result.input_files >>= λ inputs.
              settling next outputs inputs)
            (note_outputs-Fine around params next.world.files result.output_files (none_yet next))
            (λ outputs e h.
              bind-Fine (λ o. Unit {0}) Keeps
                (note_inputs around params next.world.files result.input_files)
                (settling next outputs)
                (note_inputs-Fine around params next.world.files result.input_files)
                (λ inputs e' h'.
                  settle_command-Fine outputs.exit_status result outputs inputs _
                    (ap (λ (x : Build). x.step_nodes) b) (ap (λ (x : Build). x.ready_steps) b)
                    (ap (λ (x : Build). x.remaining_failures) b) r))
