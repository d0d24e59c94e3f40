-- ===== src/Build/Clean.antt =====
-- build.cpp: which steps are clean at the start of a build (`isClean`, `computeCleanSteps`), which
-- turn out to be clean when their turn comes (`canSkipBuildCommand`), and how many there are to build
-- (`countStepsToBuild`); from src/shk/src/manifest/compiled_manifest.cpp, the times of files that
-- generator steps compare (`maxMtime`, `minMtime`).
pub mod Checked
pub mod Skipped
mod Tests
use shuriken.Build.Memo.{no_fingerprint}
use shuriken.Fs.FileId.{FileId, file_id_eq}
use shuriken.Fs.Fingerprint.{Fingerprint, matches_new_stat}
use shuriken.Prelude.Assoc.{Assoc, lookup}
use shuriken.Build.Graph.{Outcome, done, Nodes, Build, failed, assertion, no_roots, ◌>>=◌}
use Prim.Native.String.{String}
use shuriken.Build.Data.{
  FingerprintMatchesMemo, Invocations, Manifest, Step, CleanSteps, StepIndex, Entry, step_at, phony,
}
use shuriken.Fs.FileSystem.{FileSystem, Hash, file_id_of}
use shuriken.Prelude.{
  ℕ, Option, Bool, List, if◌then◌else◌, some, ltb, ◌∷◌, none, leb, is_empty, get_or, not, nat_beq,
  false, [], true, ◌||◌, ◌+◌, ◌&&◌, map, length, nat_eq, ◌++◌,
}

abbrev least : ℕ → ℕ → ℕ
least a b = if ltb b a then b else a

abbrev greatest : ℕ → ℕ → ℕ
greatest a b = if ltb a b then b else a

-- The loop of `foldMtime`; `ans` is what the files so far gave.
pub fold_mtime : FileSystem → (ℕ → ℕ → ℕ) → List String → Option ℕ → Option ℕ
fold_mtime fs cb [] ans = ans
fold_mtime fs cb (file ∷ files) ans =
    let s = fs.stat file in
    let rest =
      fold_mtime fs cb files (elim ans [ none ↦ some s.mtime | some a ↦ some (cb a s.mtime) ]) in
    if nat_beq s.result 0 then rest else none

pub max_mtime : FileSystem → List String → Option ℕ
max_mtime fs files = fold_mtime fs greatest files none

pub min_mtime : FileSystem → List String → Option ℕ
min_mtime fs files = fold_mtime fs least files none

abbrev at_most : Option ℕ → Option ℕ → Bool
at_most (some a) (some b) = leb a b
at_most _ _ = false

pub generator_step_is_clean : FileSystem → Step → Bool
generator_step_is_clean fs step =
    if is_empty step.generator_inputs || is_empty step.generator_outputs
    then true
    else at_most (max_mtime fs step.generator_inputs) (min_mtime fs step.generator_outputs)

-- The variables of `nonGeneratorStepIsClean`
pub record Verdict : Type 0 where
  pub clean : Bool
  pub should_update : Bool

-- The lambda `process_files`. `SHK_ASSERT` of a match that is not there stops the program.
pub process_files : FingerprintMatchesMemo → List ℕ → Verdict → Outcome Verdict
process_files memo [] v = done v
process_files memo (i ∷ is) v =
    if v.clean
    then elim (get_or memo i none) [
      | none ↦ failed assertion
      | some r ↦
          process_files memo is
            (record { clean = r.clean; should_update = v.should_update || r.should_update })
    ]
    else done v

-- What `ranCommand` of the log is called with
pub record RanCommand : Type 0 where
  pub hash : Hash
  pub output_files : List String
  pub output_fingerprints : List Fingerprint
  pub input_files : List String
  pub input_fingerprints : List Fingerprint
  pub ignored_dependencies : List ℕ
  pub additional_dependencies : List Hash

abbrev path_at : Invocations → ℕ → String
path_at invocations i = (get_or invocations.fingerprints i no_fingerprint).0

-- `fingerprint_files` is the operation of the log.
pub relog_command : (List String → List Fingerprint) → Invocations → Entry → Hash → RanCommand
relog_command fingerprint_files invocations entry hash =
    let outputs = map (path_at invocations) entry.output_files in
    let inputs = map (path_at invocations) entry.input_files in
    record {
      hash = hash;
      output_files = outputs;
      output_fingerprints = fingerprint_files outputs;
      input_files = inputs;
      input_fingerprints = fingerprint_files inputs;
      ignored_dependencies = entry.ignored_dependencies;
      additional_dependencies = entry.additional_dependencies;
    }

module _ (fs : FileSystem) (fingerprint_files : List String → List Fingerprint)
    (memo : FingerprintMatchesMemo) (invocations : Invocations) where
  -- Whether the step is clean, and what the log is told
  pub non_generator_step_is_clean : Step → Outcome (Bool × List RanCommand)
  non_generator_step_is_clean step = elim (lookup step.hash invocations.entries) [
    | none ↦ done (false, [])
    | some entry ↦
        process_files memo entry.output_files (record { clean = true; should_update = false })
        >>= λ v. process_files memo entry.input_files v >>= λ w. done (
          w.clean,
          if w.should_update && w.clean
              then relog_command fingerprint_files invocations entry step.hash ∷ []
              else [],
        )
  ]

  pub is_clean : Step → Outcome (Bool × List RanCommand)
  is_clean step =
      if step.generator
      then done (generator_step_is_clean fs step, [])
      else non_generator_step_is_clean step

  -- The loop of `computeCleanSteps`; the first node has index `i`.
  pub clean_from : List Step → ℕ → Nodes → Outcome (CleanSteps × List RanCommand)
  clean_from steps i [] = done ([], [])
  clean_from steps i (n ∷ ns) =
      let rest = clean_from steps (i + 1) ns in
      if n.should_build
      then (is_clean (step_at steps i) >>= λ (c, log).
          rest >>= λ (cs, logs). done (c ∷ cs, log ++ logs))
      else (rest >>= λ (cs, logs). done (false ∷ cs, logs))

  pub compute_clean_steps : List Step → Nodes → Outcome (CleanSteps × List RanCommand)
  compute_clean_steps steps nodes =
      if nat_beq (length steps) (length nodes) then clean_from steps 0 nodes else failed assertion

-- The loop over the input files of `canSkipBuildCommand`
unfoldable pub inputs_unchanged : FileSystem → Assoc FileId Hash → Invocations → List ℕ → Bool
inputs_unchanged fs written_files invocations [] = true
inputs_unchanged fs written_files invocations (i ∷ is) =
    let (path, original) = get_or invocations.fingerprints i no_fingerprint in
    let new_stat = fs.lstat path in
    let rest = inputs_unchanged fs written_files invocations is in
    elim (lookup (file_id_of new_stat) written_files) [
      | none ↦ rest
      | some new_hash ↦ if matches_new_stat original new_stat new_hash then rest else false
    ]

unfoldable pub can_skip_build_command :
    FileSystem → CleanSteps → Assoc FileId Hash → Invocations → Bool → Step → StepIndex → Bool
can_skip_build_command fs clean_steps written_files invocations no_direct_dependencies_built step
      i =
    if get_or clean_steps i false
    then if no_direct_dependencies_built
      then true
      else elim (lookup step.hash invocations.entries) [
        | none ↦ false
        | some entry ↦ inputs_unchanged fs written_files invocations entry.input_files
      ]
    else false

-- The loop of `countStepsToBuild`; the first node has index `i`.
pub count_steps_from : List Step → ℕ → Nodes → ℕ
count_steps_from steps i [] = 0
count_steps_from steps i (n ∷ ns) =
    (if n.should_build && not (phony (step_at steps i)) then 1 else 0)
    + count_steps_from steps (i + 1) ns

unfoldable pub count_steps_to_build : List Step → Build → Outcome ℕ
count_steps_to_build steps build =
    if nat_beq (length steps) (length build.step_nodes)
    then done (count_steps_from steps 0 build.step_nodes)
    else failed assertion

-- `computeStepsToBuild`: the steps that were asked for, or the defaults, or the roots
unfoldable pub compute_steps_to_build : Manifest → List StepIndex → Outcome (List StepIndex)
compute_steps_to_build manifest specified =
    if not (is_empty specified)
    then done specified
    else if not (is_empty manifest.defaults)
    then done manifest.defaults
    else if is_empty manifest.roots && not (is_empty manifest.steps)
    then failed no_roots
    else done manifest.roots
