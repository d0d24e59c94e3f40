-- ===== src/Build/Ready/Allowed.antt =====
-- About `Build::markStepNodeAsDone` and `Build::discardCleanSteps` of build.cpp: the number of failures
-- that are still allowed stays.
use shuriken.Build.Ready.Related.{discard-related}
use shuriken.Prelude.Assoc.{Assoc}
use mathlib.Core.Path.{subst}
use shuriken.Fs.FileId.{FileId}
use shuriken.Build.Data.{StepIndex, FingerprintMatchesMemo, CleanSteps}
use shuriken.Build.Graph.{◌>>=◌, Build, Outcome, done, failed, Nodes, out_of_fuel, node_at}
use shuriken.Build.Ready.{
  discard_clean_steps, mark_step_node_as_done, mark_dependents, record_outputs, Context,
}
use shuriken.Prelude.{nat_eq, refl, ℕ, List, ◌≡◌, Bool, ◌∙◌, true}

abbrev Keeps : Build → Outcome Build → Type 0
Keeps before (done after) = after.remaining_failures ≡ before.remaining_failures
Keeps before (failed e) = Unit
Keeps before out_of_fuel = Unit

mark_step_node_as_done-Keeps :
    (context : Context) (build : Build) (s : StepIndex) (ids : List FileId) (skip : Bool)
    → Keeps build (mark_step_node_as_done context build s ids skip)
unfolding mark_step_node_as_done
mark_step_node_as_done-Keeps context build s ids skip = go (record_outputs s ids build.output_files)
  where
    marked : Outcome (Nodes × List StepIndex)
    marked =
        mark_dependents context s skip (node_at build.step_nodes s).dependents build.step_nodes
          build.ready_steps

    finished_with : Assoc FileId StepIndex → Outcome (Nodes × List StepIndex) → Outcome Build
    finished_with files m =
        (m >>= λ (nodes, ready).
        done (record build { step_nodes = nodes; ready_steps = ready; output_files = files }))

    inner :
        (files : Assoc FileId StepIndex) (m : Outcome (Nodes × List StepIndex))
        → Keeps build (finished_with files m)
    inner files (done m) = refl
    inner files (failed e) = tt
    inner files out_of_fuel = tt

    go :
        (o : Outcome (Assoc FileId StepIndex))
        → Keeps build (o >>= λ files. finished_with files marked)
    go (done files) = inner files marked
    go (failed e) = tt
    go out_of_fuel = tt

pub mark-remaining_failures :
    (context : Context) (build after : Build) (s : StepIndex) (ids : List FileId) (skip : Bool)
    → mark_step_node_as_done context build s ids skip ≡ done after
    → after.remaining_failures ≡ build.remaining_failures
mark-remaining_failures context build after s ids skip e =
    subst (Keeps build) e (mark_step_node_as_done-Keeps context build s ids skip)

pub discard-remaining_failures :
    (context : Context) (memo : FingerprintMatchesMemo) (clean_steps : CleanSteps)
    (build after : Build) (discarded : ℕ)
    → discard_clean_steps context memo clean_steps build ≡ done (after, discarded)
    → after.remaining_failures ≡ build.remaining_failures
discard-remaining_failures context memo clean_steps =
    discard-related context memo clean_steps (λ b a. a.remaining_failures ≡ b.remaining_failures)
      (λ b a nodes failures. failures) (λ a b c p q. q ∙ p)
      (λ b a s ids e. mark-remaining_failures context b a s ids true e)
