-- ===== src/Build/Run/Tests.antt =====
-- A build of two steps after a third was discarded: one command at a time, each of which succeeds.
use shuriken.Build.Deps.{step_is_ignored, ignored_and_additional_of_files}
use shuriken.Build.Ready.{mark_step_node_as_done, mark_dependents, record_outputs, note_built}
use shuriken.Build.Clean.{can_skip_build_command}
use shuriken.Util.Split.{dirname, basename_split_piece, find_last_slash, find_last_nonslash}
use shuriken.Build.Cleanup.{
  delete_old_outputs, delete_outputs, delete_build_product, delete_ancestors,
}
use shuriken.Build.Run.Prepare.{
  prepare_command, write_rspfile, mkdirs_all, delete_side_files, delete_file,
}
use shuriken.Build.Run.Commands.{
  start_command, finish_command, settle_command, note_outputs, note_output, note_inputs,
}
use shuriken.Build.Ready.Round.{is_discardable}
use shuriken.Log.Data.{LogPath}
use shuriken.Build.Data.{StepIndex}
use shuriken.Fs.Fingerprint.{Fingerprint, could_access}
use shuriken.Build.Run.Scheduled.{IsBuildEnd, run_build-IsBuildEnd, begun}
use shuriken.Build.Run.Kept.{Fine}
use shuriken.Build.Run.Loop.{
  RunnerEvent, End, command_ended, returned, build_success, run_build, run_commands, command_done,
  enqueue_build_commands, enqueue_loop, enqueue_build_command, enqueue_step, take_step, take_out,
}
use shuriken.Build.Run.{Surroundings, Parameters, Running, Going, went, Result, success}
use shuriken.Build.Ready.Tests.{
  memo, clean_steps, without_first, discard_clean_steps-built, context,
}
use shuriken.Build.Graph.Tests.{
  steps, invocations, plan, targets, built, plan-IsInRange, construct-built,
}
use shuriken.Build.Cleanup.Tests.{disk, before}
use shuriken.Fs.FileSystem.{FileSystem, Stat, ok, io_error}
use shuriken.Prelude.{
  nat_eq, refl, list_eq, List, [], Option, ◌≡◌, false, ℕ, some, Bool, ◌∷◌, none, true, is_empty,
  arith,
}

abbrev missing : Stat
missing = record { result = 2; mode = 0; size = 0; ino = 0; dev = 0; mtime = 0 }

abbrev nothing_there : FileSystem
nothing_there = record {
  stat = λ path. missing;
  lstat = λ path. missing;
  hash_dir = λ path extra. io_error 2;
  hash_symlink = λ path extra. io_error 2;
  hash_file = λ path extra. io_error 2;
}

abbrev written : Fingerprint
written = record {
  stat = record { size = 3; ino = 7; mode = 33188; mtime = 1000 };
  racily_clean = false;
  hash = 99;
}

abbrev around : Surroundings (List LogPath)
around = record {
  os = disk;
  mkdirs = λ path names. (([], none), names);
  write_file = λ path contents names. (none, names);
  file_system = λ names. nothing_there;
  fingerprint = λ path names. ok (written, record { ino = 7; dev = 1 });
  can_run_more = λ running names. is_empty running;
  bytes = λ text. [];
}

abbrev params : Parameters
params = record {
  steps = steps;
  invocations = invocations;
  fingerprint_matches_memo = memo;
  clean_steps = clean_steps;
}

abbrev result : Result
result = record { input_files = []; output_files = "out" ∷ []; exit_status = success; output = "" }

abbrev quiet : Result
quiet = record result { output_files = [] }

abbrev events : List (RunnerEvent (List LogPath))
events = command_ended 0 result [] ∷ command_ended 0 quiet [] ∷ []

abbrev end_of : {W : Type 0} → Going (End × Running W) → Option (End × List StepIndex × ℕ)
end_of (went (end, run)) = some (end, run.running, run.build.invoked_commands)
end_of _ = none

run_build-runs :
    end_of (run_build around params 1 events (begun without_first before))
    ≡ some (returned build_success, [], 2)
unfolding run_build run_commands command_done enqueue_build_commands enqueue_loop
    enqueue_build_command enqueue_step take_step take_out start_command prepare_command
    write_rspfile mkdirs_all delete_old_outputs delete_outputs delete_build_product delete_ancestors
    dirname basename_split_piece find_last_slash find_last_nonslash finish_command settle_command
    note_outputs note_output note_inputs delete_side_files delete_file can_skip_build_command
    mark_step_node_as_done mark_dependents record_outputs note_built step_is_ignored could_access
    ignored_and_additional_of_files
run_build-runs = refl

run_build-IsBuildEnd_example :
    (skipped : StepIndex → Bool) × ((i : StepIndex)
      → skipped i ≡ true
      → is_discardable context clean_steps i ≡ true)
    × Fine
        (λ r. IsBuildEnd around params plan skipped without_first 1 r.0 r.1)
        (run_build around params 1 events (begun without_first before))
run_build-IsBuildEnd_example =
    run_build-IsBuildEnd around params 1 targets built without_first 1 events before plan-IsInRange
      (omega arith, tt) construct-built discard_clean_steps-built (omega arith) (λ files. refl)
