-- ===== src/Build/Ready.antt =====
-- build.cpp: `Build::markStepNodeAsDone` and `Build::discardCleanSteps`.
pub mod Mark
pub mod Order
pub mod Outputs
pub mod Finish
pub mod Round
pub mod Discarding
pub mod Allowed
pub mod Related
pub mod Flags
pub mod Unflagged
pub mod Tests
use shuriken.Build.Graph.Nodes.{all_dependencies}
use shuriken.Build.Deps.{step_is_ignored}
use shuriken.Prelude.Assoc.{Assoc, emplace, lookup}
use shuriken.Fs.FileId.{FileId, missing, file_id_eq}
use shuriken.Build.Graph.{
  StepNode, Build, Nodes, Outcome, done, out_of_fuel, ◌>>=◌, update_node, node_at, failed,
  same_output, assertion, internal,
}
use shuriken.Build.Data.{
  StepIndex, FingerprintMatchesMemo, Invocations, Step, CleanSteps, phony, step_at,
}
use shuriken.Prelude.{
  List, Bool, ℕ, ◌-◌, if◌then◌else◌, not, ◌∷◌, suc, get_or, set, unsnoc, ◌&&◌, ◌||◌, ◌+◌, nat_beq,
  none, [], true, length, false, replicate, some, ◌++◌, nat_eq, zero,
}

-- What `Build` refers to: the steps and the invocations
pub record Context : Type 0 where
  pub steps : List Step
  pub invocations : Invocations

-- The loop over the files that a step wrote
unfoldable pub record_outputs :
    StepIndex → List FileId → Assoc FileId StepIndex → Outcome (Assoc FileId StepIndex)
record_outputs step [] files = done files
record_outputs step (f ∷ fs) files =
    let rest = record_outputs step fs files in
    let (files', inserted) = emplace f step files in
    let further = record_outputs step fs files' in
    if missing f then rest else if inserted then further else failed same_output

-- The flag of a dependent: unchanged where the step was skipped or the dependent ignores it.
unfoldable pub note_built : Context → StepIndex → Bool → StepIndex → StepNode → StepNode
note_built context step skipped dependent n =
    if not skipped && n.no_direct_dependencies_built
    then if step_is_ignored context.invocations (step_at context.steps dependent).hash step
      then n
      else record n { no_direct_dependencies_built = false }
    else n

abbrev pub discount : StepNode → StepNode
discount n = record n { dependencies = n.dependencies - 1 }

-- The loop over the dependents. `SHK_ASSERT` of a counter that is 0 stops the program.
unfoldable pub mark_dependents :
    Context
    → StepIndex
    → Bool
    → List StepIndex
    → Nodes
    → List StepIndex
    → Outcome (Nodes × List StepIndex)
mark_dependents context step skipped [] nodes ready = done (nodes, ready)
mark_dependents context step skipped (d ∷ ds) nodes ready =
    let nodes' = update_node nodes d (λ n. discount (note_built context step skipped d n)) in
    let rest =
      mark_dependents context step skipped ds nodes'
        (if nat_beq (node_at nodes' d).dependencies 0 then ready ++ d ∷ [] else ready) in
    if nat_beq (node_at nodes d).dependencies 0 then failed assertion else rest

unfoldable pub mark_step_node_as_done :
    Context → Build → StepIndex → List FileId → Bool → Outcome Build
mark_step_node_as_done context build step output_file_ids skipped =
    record_outputs step output_file_ids build.output_files >>= λ files.
    mark_dependents context step skipped (node_at build.step_nodes step).dependents build.step_nodes
      build.ready_steps
    >>= λ (nodes, ready).
        done (record build { step_nodes = nodes; ready_steps = ready; output_files = files })

-- The fingerprints' loop of `outputFileIdsForBuildStep`; a fingerprint that is not in the memo is
-- an internal error.
unfoldable pub matched_file_ids : FingerprintMatchesMemo → List ℕ → Outcome (List FileId)
matched_file_ids memo [] = done []
matched_file_ids memo (i ∷ is) = elim (get_or memo i none) [
  | none ↦ failed internal
  | some r ↦ matched_file_ids memo is >>= λ ids. done (r.file_id ∷ ids)
]

unfoldable pub output_file_ids_for_build_step :
    Invocations → FingerprintMatchesMemo → Step → Outcome (List FileId)
output_file_ids_for_build_step invocations memo step =
    if phony step || step.generator then done [] else elim (lookup step.hash invocations.entries) [
      | none ↦ failed internal
      | some entry ↦ matched_file_ids memo entry.output_files
    ]

-- The loop of `discardCleanSteps`: its variables
pub record Discard : Type 0 where
  pub build : Build
  pub new_ready_steps : List StepIndex
  pub visited : List Bool
  pub discarded_steps : ℕ

module _ (context : Context) (memo : FingerprintMatchesMemo) (clean_steps : CleanSteps) where
  -- One round, for the step that left the back of `ready_steps`
  pub discard_step : Discard → List StepIndex → StepIndex → Outcome Discard
  discard_step d rest step =
      let build = d.build in
      let popped = record build { ready_steps = rest } in
      let s = step_at context.steps step in
      let visited = set d.visited step true in
      if get_or d.visited step false
      then done (record d { build = popped })
      else if get_or clean_steps step false || phony s
      then (output_file_ids_for_build_step context.invocations memo s >>= λ ids.
          mark_step_node_as_done context popped step ids true >>= λ build'. done (record {
            build = build';
            new_ready_steps = d.new_ready_steps;
            visited = visited;
            discarded_steps = d.discarded_steps + (if phony s then 0 else 1);
          }))
      else done (record {
        build = popped;
        new_ready_steps = d.new_ready_steps ++ step ∷ [];
        visited = visited;
        discarded_steps = d.discarded_steps;
      })

  pub discard_loop : ℕ → Discard → Outcome Discard
  discard_loop zero d = out_of_fuel
  discard_loop (suc fuel) d = elim (unsnoc d.build.ready_steps) [
    | none ↦ done d
    | some (rest, step) ↦ discard_step d rest step >>= λ d'. discard_loop fuel d'
  ]

  -- Each round lowers the sum of the counters and the number of ready steps, so the fuel is enough.
  pub discard_clean_steps : Build → Outcome (Build × ℕ)
  discard_clean_steps build =
      discard_loop (suc (all_dependencies build.step_nodes + length build.ready_steps)) (record {
        build = build;
        new_ready_steps = [];
        visited = replicate (length build.step_nodes) false;
        discarded_steps = 0;
      })
      >>= λ d. done (record d.build { ready_steps = d.new_ready_steps }, d.discarded_steps)
