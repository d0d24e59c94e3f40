-- ===== src/Build/Run/Commands.antt =====
-- build.cpp: how a command starts and how it ends. `start_command` is the part of `enqueueBuildCommand`
-- from `deleteOldOutputs` on, and `finish_command` is `commandDone` up to its last line.
use shuriken.Log.Synced.Effects.{ran}
use shuriken.Fs.FileSystem.{Hash}
use shuriken.Build.Deps.{ignored_and_additional_of_files}
use shuriken.Prelude.Assoc.{emplace, Assoc}
use shuriken.Build.Ready.{output_file_ids_for_build_step, mark_step_node_as_done}
use shuriken.Fs.Fingerprint.{Fingerprint, could_access}
use shuriken.Build.Run.{
  Surroundings, Parameters, Running, Going, ◌>>=◌, went, of_outcome, of_io, of_did, context_of,
  Report, step_finished, Result, ExitStatus, success, failure, interrupted,
}
use Prim.Native.String.{String, ◌++◌ as append}
use shuriken.Build.Run.Prepare.{prepare_command, delete_side_files}
use shuriken.Log.Operations.{RanCommand}
use shuriken.Build.Data.{Step, phony, step_at, StepIndex}
use shuriken.Prelude.{
  string_eq, nat_eq, Bool, List, ◌++◌, true, ◌∷◌, [], ◌==◌, if◌then◌else◌, false, not, map, ◌-◌,
  ◌&&◌,
}
use shuriken.Fs.FileId.{file_id_eq, FileId}

-- Phony steps are not reported.
abbrev pub report : {W : Type 0} → Step → Report → Running W → Running W
report step r run = record run {
  reports = if phony step then run.reports else run.reports ++ r ∷ [];
}

abbrev pub is_console_pool : String → Bool
is_console_pool pool = pool == "console"

-- What the loop over the outputs of a command gathers
pub record Outputs : Type 0 where
  pub fingerprints : List Fingerprint
  pub file_ids : List FileId
  pub written_files : Assoc FileId Hash
  pub exit_status : ExitStatus
  pub output : String

abbrev overwrote : String → String
overwrote file =
    append "shk: Build step wrote to file that other build step has already written to: "
      (append file "\n")

abbrev pub succeeded : ExitStatus → Bool
succeeded success = true
succeeded _ = false

module _ {W : Type 0} (around : Surroundings W) (params : Parameters) where
  unfoldable pub command_bypassed : StepIndex → Running W → Going (Running W)
  command_bypassed s run =
      let step = step_at params.steps s in
      let reported = report step (step_finished s true "") run in
      of_outcome
        (output_file_ids_for_build_step params.invocations params.fingerprint_matches_memo step)
      >>= λ ids.
          of_outcome (mark_step_node_as_done (context_of params) run.build s ids true) >>= λ build.
          went (record reported { build = build })

  unfoldable pub start_command : StepIndex → Running W → Going (Running W)
  start_command s run =
      of_did run (prepare_command around params (step_at params.steps s) run.world) >>= λ ready.
      went (record ready { running = ready.running ++ s ∷ [] })

  -- The round of the loop over the outputs, for one file
  unfoldable pub note_output : W → String → Outputs → Going Outputs
  note_output files file outputs = of_io (around.fingerprint file files) >>= λ (fingerprint, id).
      let noted = record outputs {
        fingerprints = outputs.fingerprints ++ fingerprint ∷ [];
        file_ids = outputs.file_ids ++ id ∷ [];
      } in
      let (written, inserted) = emplace id fingerprint.hash outputs.written_files in
      went (
        if not (could_access fingerprint.stat)
        then noted
        else if inserted
        then record noted { written_files = written }
        else record noted {
          exit_status = failure;
          output = append outputs.output (overwrote file);
        })

  unfoldable pub note_outputs : W → List String → Outputs → Going Outputs
  note_outputs files [] outputs = went outputs
  note_outputs files (f ∷ fs) outputs =
      note_output files f outputs >>= λ noted. note_outputs files fs noted

  -- The loop over the inputs
  unfoldable pub note_inputs : W → List String → Going (List Fingerprint × List FileId)
  note_inputs files [] = went ([], [])
  note_inputs files (f ∷ fs) = of_io (around.fingerprint f files) >>= λ (fingerprint, id).
      note_inputs files fs >>= λ (fingerprints, ids). went (fingerprint ∷ fingerprints, id ∷ ids)

  -- What is logged of a command that succeeded
  abbrev pub log_command :
      Step → Result → Outputs → List Fingerprint × List FileId → Running W → Running W
  log_command step result outputs (input_fingerprints, input_ids) run =
      let (ignored, additional) =
        ignored_and_additional_of_files run.build.output_files params.steps step input_ids in
      let cmd : RanCommand = record {
        build_step_hash = step.hash;
        output_files = map around.bytes result.output_files;
        output_fingerprints = outputs.fingerprints;
        input_files = map around.bytes result.input_files;
        input_fingerprints = input_fingerprints;
        ignored_dependencies = ignored;
        additional_dependencies = additional;
      } in
      let is_logged = not (is_console_pool step.pool_name) && not (phony step) in
      record run {
        world = record run.world {
          calls = if is_logged then run.world.calls ++ ran cmd ∷ [] else run.world.calls;
        };
      }

  abbrev pub fail_once : Running W → Running W
  fail_once run = record run {
    build = record run.build { remaining_failures = run.build.remaining_failures - 1 };
  }

  -- The switch over the exit status
  unfoldable pub settle_command :
      ExitStatus
      → StepIndex
      → Result
      → Outputs
      → List Fingerprint × List FileId
      → Running W
      → Going (Running W)
  settle_command success s result outputs inputs run =
      let logged = log_command (step_at params.steps s) result outputs inputs run in
      of_outcome (mark_step_node_as_done (context_of params) run.build s outputs.file_ids false)
      >>= λ build. went (record logged { build = build })
  settle_command interrupted s result outputs inputs run = went (fail_once run)
  settle_command failure s result outputs inputs run = went (fail_once run)

  unfoldable pub finish_command : StepIndex → Result → Running W → Going (Running W)
  finish_command s result run =
      let step = step_at params.steps s in
      of_did run (delete_side_files around params step result.exit_status run.world) >>= λ run.
      note_outputs run.world.files result.output_files (record {
        fingerprints = [];
        file_ids = [];
        written_files = run.build.written_files;
        exit_status = result.exit_status;
        output = result.output;
      })
      >>= λ outputs. note_inputs run.world.files result.input_files >>= λ inputs.
          let noted = record run {
            build = record run.build { written_files = outputs.written_files };
          } in
          settle_command outputs.exit_status s result outputs inputs
            (report step (step_finished s (succeeded outputs.exit_status) outputs.output) noted)
