-- ===== src/Build/Schedule/Tests.antt =====
-- The build of three steps once more: the first was discarded, the second has run, and the third is next.
use shuriken.Prelude.Assoc.{lookup}
use shuriken.Prelude.Sorted.{binary_search}
use shuriken.Fs.FileSystem.{Stat, FileSystem, io_error}
use shuriken.Build.Deps.{step_is_ignored}
use shuriken.Build.Graph.{Build, new_node, done}
use shuriken.Fs.FileId.{FileId}
use shuriken.Build.Data.{StepIndex, step_at, Entry}
use shuriken.Build.Schedule.{Execution, begin, start, finish}
use shuriken.Build.Schedule.Built.{built}
use shuriken.Build.Schedule.Skips.{NoDependencyBuilt, can_skip-NoDependencyBuilt}
use shuriken.Build.Ready.Flags.{flag}
use shuriken.Build.Ready.Order.{with_step}
use shuriken.Build.Ready.Tests.{
  memo, clean_steps, without_first, discard_clean_steps-built, context,
}
use shuriken.Build.Graph.Tests.{
  steps, invocations, plan, targets, built as three_steps, plan-IsInRange, construct-built,
}
use shuriken.Build.Clean.Skipped.{AllUnchanged}
use shuriken.Build.Clean.{can_skip_build_command}
use shuriken.Build.Ready.{mark_step_node_as_done, mark_dependents, record_outputs, note_built}
use shuriken.Prelude.{
  nat_eq, refl, [], ◌∷◌, Bool, false, nat_beq, true, ◌≡◌, ◌↔◌, get_or, ◌⊎◌, some, arith,
}

abbrev discarded_first : StepIndex → Bool
discarded_first i = nat_beq i 0

abbrev second_object : FileId
second_object = record { ino = 41; dev = 1 }

abbrev after_second : Build
after_second = record without_first {
  step_nodes =
      record new_node { dependents = 2 ∷ 1 ∷ []; should_build = true }
      ∷ record new_node { dependents = 2 ∷ []; should_build = true }
      ∷ record new_node { should_build = true; no_direct_dependencies_built = false }
      ∷ [];
  ready_steps = 2 ∷ [];
  output_files = (second_object, 1) ∷ without_first.output_files;
}

marked_second :
    mark_step_node_as_done context
      (record without_first { ready_steps = [] })
      1
      (second_object ∷ [])
      false
    ≡ done after_second
unfolding mark_step_node_as_done mark_dependents record_outputs note_built step_is_ignored
    binary_search
marked_second = refl

abbrev second_run :
    Execution context discarded_first without_first
      (with_step discarded_first 1)
      (with_step discarded_first 1)
      after_second
second_run = finish 1 (second_object ∷ []) false (start [] 1 begin refl) refl refl marked_second

abbrev no_file : Stat
no_file = record { result = 2; mode = 0; size = 0; ino = 0; dev = 0; mtime = 0 }

abbrev no_files : FileSystem
no_files = record {
  stat = λ path. no_file;
  lstat = λ path. no_file;
  hash_dir = λ path extra. io_error 2;
  hash_symlink = λ path extra. io_error 2;
  hash_file = λ path extra. io_error 2;
}

can_skip-NoDependencyBuilt_example :
    (can_skip_build_command no_files clean_steps [] invocations
        (flag after_second.step_nodes 2)
        (step_at steps 2)
        2
      ≡ true)
    ↔ ((get_or clean_steps 2 false ≡ true)
        × (NoDependencyBuilt plan context (built second_run) 2
            ⊎ ((entry : Entry) × (lookup 12 invocations.entries ≡ some entry)
                × AllUnchanged no_files [] invocations entry.input_files)))
can_skip-NoDependencyBuilt_example =
    can_skip-NoDependencyBuilt steps invocations 1 targets memo clean_steps three_steps
      without_first 1 no_files 2 plan-IsInRange (omega arith, tt) construct-built
      discard_clean_steps-built second_run refl
