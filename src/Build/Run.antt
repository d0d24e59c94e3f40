-- ===== src/Build/Run.antt =====
-- build.cpp: the commands of a build, from `enqueueBuildCommand` over `commandDone` to the loop of
-- `build`. The command runner is known by the steps whose commands it runs (src/shk/src/cmd/command_runner.h:
-- a callback is only made by `runCommands`, once for each command), and what happens while it waits is
-- an event: a command's end, with the files as it left them, or an interruption.
pub mod Prepare
pub mod Commands
pub mod Loop
pub mod Kept
pub mod Enqueued
pub mod Stalled
pub mod Ended
pub mod Correct
pub mod Scheduled
mod Tests
pub mod Quiet
use shuriken.Fs.FileId.{FileId}
use shuriken.Fs.Fingerprint.{Fingerprint}
use shuriken.Build.Ready.{Context}
use shuriken.Build.Data.{Step, StepIndex, Invocations, FingerprintMatchesMemo, CleanSteps}
use Prim.Native.String.{String}
use shuriken.Prelude.Assoc.{Assoc}
use shuriken.Build.Cleanup.{Os, World, Did, did, raised, starved}
use shuriken.Build.Graph.{Build, BuildError, Outcome, done, failed, out_of_fuel}
use shuriken.Log.Data.{LogPath, Logged}
use shuriken.Fs.FileSystem.{FileSystem, Io, ok, io_error}
use shuriken.Prelude.{List, ℕ, Bool, Option, map}

-- src/shk/src/exit_status.h
pub data ExitStatus : Type 0 where
  success failure interrupted : ExitStatus

-- `CommandRunner::Result`
pub record Result : Type 0 where
  pub input_files : List String
  pub output_files : List String
  pub exit_status : ExitStatus
  pub output : String

-- What a build calls: the operating system, `mkdirs` and `writeFile`, which change the files, the
-- functions that read them, the log's `fingerprint`, and the runner's `canRunMore`, which goes by the
-- steps that run and the state outside, of which the load of the machine is a part. `bytes` are those of a text.
pub record Surroundings (W : Type 0) : Type 0 where
  pub os : Os W
  pub mkdirs : LogPath → W → (List LogPath × Option ℕ) × W
  pub write_file : LogPath → LogPath → W → Option ℕ × W
  pub file_system : W → FileSystem
  pub fingerprint : String → W → Io (Fingerprint × FileId)
  pub can_run_more : List StepIndex → W → Bool
  pub bytes : String → LogPath

-- `BuildCommandParameters`, less what changes
pub record Parameters : Type 0 where
  pub steps : List Step
  pub invocations : Invocations
  pub fingerprint_matches_memo : FingerprintMatchesMemo
  pub clean_steps : CleanSteps

-- What the build status is told
pub data Report : Type 0 where
  step_started : StepIndex → Report
  step_finished : StepIndex → Bool → String → Report

-- What changes
pub record Running (W : Type 0) : Type 0 where
  pub build : Build
  pub running : List StepIndex
  pub world : World W
  pub reports : List Report

-- A value, an `IoError`, another exception, or no fuel.
pub data Going {ℓ} (A : Type ℓ) : Type ℓ where
  went : A → Going A
  io_failed : ℕ → Going A
  build_failed : BuildError → Going A
  endless : Going A

infixl 5 ◌>>=◌
abbrev pub ◌>>=◌ {ℓ κ} : {A : Type ℓ} {B : Type κ} → Going A → (A → Going B) → Going B
went a >>= f = f a
io_failed code >>= f = io_failed code
build_failed e >>= f = build_failed e
endless >>= f = endless

abbrev pub of_outcome {ℓ} : {A : Type ℓ} → Outcome A → Going A
of_outcome (done a) = went a
of_outcome (failed e) = build_failed e
of_outcome out_of_fuel = endless

abbrev pub of_io {ℓ} : {A : Type ℓ} → Io A → Going A
of_io (ok a) = went a
of_io (io_error code) = io_failed code

-- An action on the files and the log
abbrev pub of_did : {W : Type 0} → Running W → Did W (Unit {0}) → Going (Running W)
of_did run (did _ world) = went (record run { world = world })
of_did run (raised code world) = io_failed code
of_did run starved = endless

abbrev pub logged_of : (String → LogPath) → Parameters → Logged
logged_of bytes params = record {
  fingerprints =
      map (λ (path, fingerprint). (bytes path, fingerprint)) params.invocations.fingerprints;
  entries = params.invocations.entries;
  created_directories = map (λ (id, path). (id, bytes path)) params.invocations.created_directories;
}

abbrev pub context_of : Parameters → Context
context_of params = record { steps = params.steps; invocations = params.invocations }
