-- ===== src/Build/Ready/Tests.antt =====
-- The build of three steps, from its construction to the end of its first step.
use shuriken.Prelude.Sorted.{binary_search}
use shuriken.Build.Deps.{step_is_ignored}
use shuriken.Prelude.{[], ◌∷◌, true, false, Bool, some, ◌≡◌, refl, arith, inl}
use shuriken.Fs.FileId.{FileId}
use shuriken.Build.Data.{StepIndex, FingerprintMatchesMemo, CleanSteps}
use shuriken.Build.Graph.{Build, done, failed, out_of_fuel, step_indices_from, new_node}
use shuriken.Build.Graph.Progress.{logged}
use shuriken.Build.Graph.Tests.{
  steps, invocations, plan, targets, built, built-IsConstructed, plan-IsInRange, construct-built,
}
use shuriken.Build.Ready.{
  Context, mark_step_node_as_done, mark_dependents, record_outputs, discard_clean_steps, note_built,
  discard_loop, discard_step, output_file_ids_for_build_step, matched_file_ids,
}
use shuriken.Build.Ready.Order.{
  IsRun, with_step, IsGraphOf-IsRun, IsRun-take, dependencies_finished,
}
use shuriken.Build.Ready.Outputs.{IsRecorded, record_outputs-IsRecorded}
use shuriken.Build.Ready.Finish.{IsMarkResult, mark_step_node_as_done-IsRun}
use shuriken.Build.Schedule.{Execution, IsOrdered, Execution-IsOrdered}
use shuriken.Build.Ready.Round.{is_discardable}
use shuriken.Build.Ready.Discarding.{IsDiscarded, discard_clean_steps-IsDiscarded}

abbrev pub context : Context
context = record { steps = steps; invocations = invocations }

abbrev nothing : StepIndex → Bool
nothing i = false

abbrev first : StepIndex → Bool
first = with_step nothing 0

abbrev object : FileId
object = record { ino = 40; dev = 1 }

abbrev pub memo : FingerprintMatchesMemo
memo =
    some (record { clean = true; should_update = false; file_id = object })
    ∷ some (record { clean = false; should_update = false; file_id = record { ino = 0; dev = 0 } })
    ∷ []

abbrev pub clean_steps : CleanSteps
clean_steps = true ∷ false ∷ false ∷ []

built-IsRun : IsRun plan nothing nothing built.step_nodes built.ready_steps
built-IsRun =
    IsGraphOf-IsRun plan targets built.step_nodes built.ready_steps built-IsConstructed.0
      built-IsConstructed.1

abbrev popped : Build
popped = record built { ready_steps = [] }

popped-IsRun : IsRun plan first nothing popped.step_nodes popped.ready_steps
popped-IsRun =
    IsRun-take plan nothing nothing built.step_nodes built.ready_steps [] 0 built-IsRun refl

record_outputs-IsRecorded_example :
    IsRecorded 0 (object ∷ object ∷ []) [] (record_outputs 0 (object ∷ object ∷ []) [])
record_outputs-IsRecorded_example = record_outputs-IsRecorded 0 (object ∷ object ∷ []) []

mark_step_node_as_done-IsRun_example :
    IsMarkResult plan first
      (with_step nothing 0)
      popped
      (mark_step_node_as_done context popped 0 (object ∷ []) false)
mark_step_node_as_done-IsRun_example =
    mark_step_node_as_done-IsRun plan first nothing context popped 0 (object ∷ []) false
      popped-IsRun refl refl

abbrev after : Build
after = elim (mark_step_node_as_done context popped 0 (object ∷ []) false) [
  | done b ↦ b
  | failed e ↦ popped
  | out_of_fuel ↦ popped
]

after-IsRun : IsRun plan first first after.step_nodes after.ready_steps
unfolding mark_step_node_as_done mark_dependents record_outputs
after-IsRun =
    (mark_step_node_as_done-IsRun plan first nothing context popped 0 (object ∷ []) false
      popped-IsRun refl refl).0

dependencies_finished_example : first 0 ≡ true
unfolding mark_step_node_as_done mark_dependents record_outputs note_built step_is_ignored
    binary_search step_indices_from
dependencies_finished_example =
    dependencies_finished plan first first after.step_nodes after.ready_steps 1 0 after-IsRun
      (inl (omega arith)) (logged 10 refl refl)

discard_clean_steps-IsDiscarded_example :
    IsDiscarded plan context memo clean_steps (discard_clean_steps context memo clean_steps built)
discard_clean_steps-IsDiscarded_example =
    discard_clean_steps-IsDiscarded plan context memo clean_steps built built-IsRun

abbrev pub without_first : Build
without_first = record {
  step_nodes =
      record new_node { dependents = 2 ∷ 1 ∷ []; should_build = true }
      ∷ record new_node { dependents = 2 ∷ []; should_build = true }
      ∷ record new_node { dependencies = 1; should_build = true }
      ∷ [];
  ready_steps = 1 ∷ [];
  remaining_failures = 1;
  invoked_commands = 0;
  written_files = [];
  output_files = (object, 0) ∷ [];
}

pub discard_clean_steps-built :
    discard_clean_steps context memo clean_steps built ≡ done (without_first, 1)
unfolding discard_clean_steps discard_loop discard_step output_file_ids_for_build_step
    matched_file_ids mark_step_node_as_done mark_dependents record_outputs note_built
discard_clean_steps-built = refl

Execution-IsOrdered_example :
    (skipped : StepIndex → Bool) × ((i : StepIndex)
      → skipped i ≡ true
      → is_discardable context clean_steps i ≡ true)
    × ((started finished : StepIndex → Bool) (b : Build)
        → Execution context skipped without_first started finished b
        → IsOrdered plan context started finished b)
Execution-IsOrdered_example =
    Execution-IsOrdered steps invocations 1 targets memo clean_steps built without_first 1
      plan-IsInRange (omega arith, tt) construct-built discard_clean_steps-built
