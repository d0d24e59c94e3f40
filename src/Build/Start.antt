-- ===== src/Build/Start.antt =====
-- build.cpp: `build` up to its first command.
pub mod Outputs
pub mod Correct
mod Tests
use shuriken.Build.Ready.{discard_clean_steps}
use shuriken.Build.Memo.{compute_fingerprint_matches_memo, entries_from}
use shuriken.Build.Clean.{compute_steps_to_build, compute_clean_steps, count_steps_to_build}
use shuriken.Fs.Fingerprint.{Fingerprint}
use Prim.Native.String.{String}
use shuriken.Prelude.{List, ℕ, ◌-◌}
use shuriken.Build.Data.{
  FingerprintMatchesMemo, CleanSteps, Entry, StepIndex, Manifest, Invocations,
}
use shuriken.Fs.FileSystem.{FileSystem}
use shuriken.Build.Graph.{Build, Outcome, ◌>>=◌, construct, done}

-- What `build` has when it starts to run commands
pub record Started : Type 0 where
  pub build : Build
  pub fingerprint_matches_memo : FingerprintMatchesMemo
  pub clean_steps : CleanSteps
  pub total_steps : ℕ

-- `fingerprint_files` is an operation of the log, and `share_out` is how the threads share out the log
-- entries.
module _ (fs : FileSystem) (fingerprint_files : List String → List Fingerprint)
    (share_out : List Entry → List (List Entry)) (manifest : Manifest)
    (invocations : Invocations) where
  -- From `discardCleanSteps` on. The total that the status is made with is a difference of ints, and
  -- never negative: a step that is discarded and not phony is one to build.
  pub start_with_clean_steps : FingerprintMatchesMemo → Build → CleanSteps → Outcome Started
  start_with_clean_steps memo build clean_steps =
      discard_clean_steps (record { steps = manifest.steps; invocations = invocations }) memo
        clean_steps build
      >>= λ (ready, discarded). count_steps_to_build manifest.steps ready >>= λ total.
          done (record {
            build = ready;
            fingerprint_matches_memo = memo;
            clean_steps = clean_steps;
            total_steps = total - discarded;
          })

  -- From `computeCleanSteps` on
  pub start_with_memo : Build → FingerprintMatchesMemo → Outcome Started
  start_with_memo build memo =
      compute_clean_steps fs fingerprint_files memo invocations manifest.steps build.step_nodes
      >>= λ (clean_steps, log). start_with_clean_steps memo build clean_steps

  -- From `computeFingerprintMatchesMemo` on
  pub start_with_build : Build → Outcome Started
  start_with_build build =
      compute_fingerprint_matches_memo fs invocations
        (share_out (entries_from invocations manifest.steps 0 build.step_nodes))
      >>= λ memo. start_with_memo build memo

  pub start_build : ℕ → List StepIndex → Outcome Started
  start_build failures_allowed specified = compute_steps_to_build manifest specified >>= λ targets.
      construct manifest.steps invocations failures_allowed targets >>= λ build.
      start_with_build build
