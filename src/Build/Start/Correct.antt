-- ===== src/Build/Start/Correct.antt =====
-- About `build` of build.cpp, up to its first command.
use shuriken.Fs.Fingerprint.{Fingerprint}
use Prim.Native.String.{String}
use shuriken.Build.Start.Outputs.{output_file_ids-done}
use shuriken.Build.Graph.Nodes.{count}
use shuriken.Build.Ready.Discarding.{IsDiscarded, discard_clean_steps-IsDiscarded}
use shuriken.Build.Ready.Round.{is_discardable}
use shuriken.Build.Ready.Order.{IsRun, IsGraphOf-IsRun}
use shuriken.Build.Memo.{match_at, entries_from}
use shuriken.Build.Clean.Checked.{is_up_to_date, compute_clean_steps-eq}
use shuriken.Build.Memo.Covered.{IsCovered, IsComputed, IsSharedOut, compute_memo-IsComputed}
use shuriken.Build.Graph.Construct.{IsConstructed, IsWanted, construct_correct}
use shuriken.Build.Start.{
  Started, start_with_memo, start_with_build, start_build, start_with_clean_steps,
}
use shuriken.Build.Ready.{Context}
use shuriken.Fs.FileSystem.{FileSystem, io_error}
use mathlib.Core.Path.{subst}
use shuriken.Build.Memo.Used.{uses}
use shuriken.Prelude.Assoc.{lookup}
use shuriken.Build.Graph.{
  make_plan, Outcome, done, failed, no_roots, out_of_fuel, Plan, BuildError, Build,
  dependency_cycle, terminate, node_at, same_output, ◌>>=◌, construct,
}
use shuriken.Build.Graph.Visit.{IsInRange, HasCycle}
use shuriken.Prelude.{
  List, length, All, ◌<◌, ℕ, ◌≡◌, [], some, true, nat_eq, List-cases, inr, inl, Bool-cases,
  is_empty, refl, get_or, ◌⊎◌, false, ◌↔◌, Bool, ◌&&◌, ◌-◌, nat_beq, arith, sym,
}
use shuriken.Build.Clean.{compute_steps_to_build, count_steps_to_build}
use shuriken.Build.Data.{
  Manifest, Invocations, StepIndex, Entry, step_at, FingerprintMatchesMemo, CleanSteps, phony,
}

-- What a valid log and a valid manifest promise: each index that they hold is in range.
pub record IsValid (manifest : Manifest) (invocations : Invocations) : Type 0 where
  pub dependencies : IsInRange (make_plan manifest.steps invocations) (length manifest.steps)
  pub defaults : All (λ t. t < length manifest.steps) manifest.defaults
  pub roots : All (λ t. t < length manifest.steps) manifest.roots
  pub files :
      (j : StepIndex) (e : Entry) (f : ℕ)
      → lookup (step_at manifest.steps j).hash invocations.entries ≡ some e
      → uses e f ≡ true
      → f < length invocations.fingerprints

-- The steps that a build is asked for
abbrev IsTargets : Manifest → List StepIndex → Outcome (List StepIndex) → Type 0
IsTargets manifest specified (done targets) = All (λ t. t < length manifest.steps) targets
IsTargets manifest specified (failed e) =
    (e ≡ no_roots) × (specified ≡ []) × (manifest.defaults ≡ []) × (manifest.roots ≡ [])
IsTargets manifest specified out_of_fuel = ⊥

compute_steps_to_build-IsTargets :
    (manifest : Manifest) (invocations : Invocations) (specified : List StepIndex)
    → IsValid manifest invocations
    → All (λ t. t < length manifest.steps) specified
    → IsTargets manifest specified (compute_steps_to_build manifest specified)
unfolding compute_steps_to_build
compute_steps_to_build-IsTargets manifest invocations specified v inside =
    elim (List-cases specified) [
      | inr (x, xs, e) ↦ rw (e, IsTargets) (subst (All (λ t. t < length manifest.steps)) e inside)
      | inl e ↦ elim (List-cases manifest.defaults) [
        | inr (x, xs, d) ↦
            rw (e, d, IsTargets) (subst (All (λ t. t < length manifest.steps)) d v.defaults)
        | inl d ↦ elim (List-cases manifest.roots) [
          | inr (x, xs, r) ↦
              rw (e, d, r, IsTargets) (subst (All (λ t. t < length manifest.steps)) r v.roots)
          | inl r ↦ elim (Bool-cases (is_empty manifest.steps)) [
            | inl s ↦ rw (e, d, r, s, IsTargets) tt
            | inr s ↦ rw (e, d, r, s, IsTargets) (refl, e, d, r)
          ]
        ]
      ]
    ]

module _ (fs : FileSystem) (manifest : Manifest) (invocations : Invocations)
    (specified : List StepIndex) where
  abbrev plan : Plan
  plan = make_plan manifest.steps invocations

  abbrev context : Context
  context = record { steps = manifest.steps; invocations = invocations }

  -- The build is a running build whose started steps are those that were skipped. They are clean or
  -- phony, and no ready step is. A step is clean exactly if it is asked for, or a step that is asked
  -- for depends on it, and all its files match the log.
  abbrev pub IsReadyToRun : List StepIndex → Started → Type 0
  IsReadyToRun targets r =
      ((i : StepIndex)
        → (get_or r.clean_steps i false ≡ true) ↔ (
            IsWanted plan targets i
            × (is_up_to_date fs invocations (step_at manifest.steps i) ≡ true)))
      × (skipped : StepIndex → Bool) × IsRun plan skipped skipped r.build.step_nodes
          r.build.ready_steps
      × ((i : StepIndex) → skipped i ≡ true → is_discardable context r.clean_steps i ≡ true)
      × ((i : StepIndex)
          → 0 < count i r.build.ready_steps
          → is_discardable context r.clean_steps i ≡ false)

  -- The ways in which starting fails
  abbrev pub IsStartFailure : BuildError → Type 0
  IsStartFailure e =
      ((e ≡ no_roots) × (specified ≡ []) × (manifest.defaults ≡ []) × (manifest.roots ≡ []))
      ⊎ (((e ≡ dependency_cycle) × HasCycle plan)
          ⊎ (((e ≡ terminate)
                × (i : ℕ) × (code : ℕ) × (match_at fs invocations.fingerprints i ≡ io_error code))
              ⊎ (e ≡ same_output)))

  abbrev pub IsStarted : Outcome Started → Type 0
  IsStarted (done r) =
      (targets : List StepIndex) × (compute_steps_to_build manifest specified ≡ done targets)
      × IsReadyToRun targets r
  IsStarted (failed e) = IsStartFailure e
  IsStarted out_of_fuel = ⊥

  module _ (v : IsValid manifest invocations) (targets : List StepIndex)
      (found : compute_steps_to_build manifest specified ≡ done targets) where
    module _ (build : Build) (graph : IsConstructed plan targets (done build)) where
      module _ (memo : FingerprintMatchesMemo)
          (covered : IsCovered fs invocations manifest.steps build.step_nodes memo)
          (clean_steps : CleanSteps)
          (clean : (i : StepIndex)
            → get_or clean_steps i false ≡ (
                (node_at build.step_nodes i).should_build
                && is_up_to_date fs invocations (step_at manifest.steps i))) where
        discarded-IsStarted :
            (o : Outcome (Build × ℕ))
            → IsDiscarded plan context memo clean_steps o
            → IsStarted (
                o >>= λ (ready, discarded). count_steps_to_build manifest.steps ready >>= λ total.
                done (record {
                  build = ready;
                  fingerprint_matches_memo = memo;
                  clean_steps = clean_steps;
                  total_steps = total - discarded;
                }))
        unfolding count_steps_to_build
        discarded-IsStarted (done (ready, n)) (skipped, run, are_clean, are_dirty) =
            let same : nat_beq (length manifest.steps) (length ready.step_nodes) ≡ true =
              ground (arith, run.all_nodes) in
            rw (same, IsStarted)
              (
                targets,
                found,
                (
                  λ i. (
                    λ h. (graph.0.sound i (ground (arith, clean i)), ground (arith, clean i)),
                    λ (w, u). let b = graph.0.complete i w in ground (arith, clean i),
                  ),
                  skipped,
                  run,
                  are_clean,
                  are_dirty,
                ),
              )
        discarded-IsStarted (failed e) (inl h) = inr (inr (inr h))
        discarded-IsStarted (failed e) (inr (h, i, d, out)) =
            let (ids, p) =
              output_file_ids-done fs invocations memo manifest.steps build.step_nodes i v.files
                covered
                (elim (Bool-cases (phony (step_at manifest.steps i))) [
                  | inl ph ↦ inl ph
                  | inr ph ↦ inr (ground (arith, clean i), ground (arith, clean i))
                ]) in
            absurd (cc (out, p))
        discarded-IsStarted out_of_fuel h = h

      memo-IsStarted :
          (fingerprint_files : List String → List Fingerprint)
          (share_out : List Entry → List (List Entry)) (o : Outcome FingerprintMatchesMemo)
          → IsComputed fs invocations manifest.steps build.step_nodes o
          → IsStarted (
              o >>= λ memo.
              start_with_memo fs fingerprint_files share_out manifest invocations build memo)
      unfolding start_with_memo start_with_clean_steps
      memo-IsStarted fingerprint_files share_out (done memo) covered =
          let (clean_steps, log, p, size, clean) =
            compute_clean_steps-eq fs invocations fingerprint_files memo manifest.steps
              build.step_nodes (sym graph.0.size) v.files covered in
          rw p (
            discarded-IsStarted memo covered clean_steps clean _ (
              discard_clean_steps-IsDiscarded plan context memo clean_steps build
                (IsGraphOf-IsRun plan targets build.step_nodes build.ready_steps graph.0 graph.1)))
      memo-IsStarted fingerprint_files share_out (failed e) h = inr (inr (inl h))
      memo-IsStarted fingerprint_files share_out out_of_fuel h = h

    build-IsStarted :
        (fingerprint_files : List String → List Fingerprint)
        (share_out : List Entry → List (List Entry))
        → ((entries : List Entry) → IsSharedOut entries (share_out entries))
        → (o : Outcome Build) → IsConstructed plan targets o
        → IsStarted (
            o >>= λ build.
            start_with_build fs fingerprint_files share_out manifest invocations build)
    unfolding start_with_build
    build-IsStarted fingerprint_files share_out shared (done build) graph =
        let entries = entries_from invocations manifest.steps 0 build.step_nodes in
        memo-IsStarted build graph fingerprint_files share_out _ (
          compute_memo-IsComputed fs invocations manifest.steps build.step_nodes (share_out entries)
            (shared entries))
    build-IsStarted fingerprint_files share_out shared (failed e) h = inr (inl h)
    build-IsStarted fingerprint_files share_out shared out_of_fuel h = h

-- Where the indices of the manifest, of the log and of the steps that are asked for are in range, and
-- however the threads share out their work: starting a build ends. If it succeeds, the clean steps
-- are those that are asked for, or that a step that is asked for depends on, and whose files match
-- the log; the build is a running build whose started steps are those that were skipped; these are
-- clean or phony, and no ready step is. It fails only where nothing is asked for and there are
-- neither defaults nor roots, where there is a cycle, where a fingerprint cannot be compared, and
-- where two steps wrote the same file: no assertion and no internal error.
pub start_build-IsStarted :
    (fs : FileSystem) (fingerprint_files : List String → List Fingerprint)
    (share_out : List Entry → List (List Entry)) (manifest : Manifest) (invocations : Invocations)
    (failures_allowed : ℕ) (specified : List StepIndex)
    → IsValid manifest invocations
    → All (λ t. t < length manifest.steps) specified
    → ((entries : List Entry) → IsSharedOut entries (share_out entries))
    → IsStarted fs manifest invocations specified
        (start_build fs fingerprint_files share_out manifest invocations failures_allowed specified)
unfolding start_build
start_build-IsStarted fs fingerprint_files share_out manifest invocations failures_allowed specified
      v inside shared =
    go (compute_steps_to_build manifest specified) refl
      (compute_steps_to_build-IsTargets manifest invocations specified v inside)
  where
    go :
        (o : Outcome (List StepIndex))
        → compute_steps_to_build manifest specified ≡ o
        → IsTargets manifest specified o
        → IsStarted fs manifest invocations specified (
            o >>= λ targets.
            construct manifest.steps invocations failures_allowed targets >>= λ build.
            start_with_build fs fingerprint_files share_out manifest invocations build)
    go (done targets) found t =
        build-IsStarted fs manifest invocations specified v targets found fingerprint_files
          share_out shared _
          (construct_correct manifest.steps invocations failures_allowed targets v.dependencies t)
    go (failed e) found h = inl h
    go out_of_fuel found h = h
