-- ===== src/Build/Start/Outputs.antt =====
-- About `outputFileIdsForBuildStep` of build.cpp, on clean steps.
use shuriken.Build.Clean.Checked.{is_up_to_date}
use mathlib.Core.Path.{subst}
use shuriken.Build.Graph.Progress.{IsBuilt}
use shuriken.Build.Memo.Covered.{IsCovered}
use shuriken.Fs.FileId.{FileId}
use shuriken.Build.Memo.Used.{uses}
use shuriken.Build.Memo.Filled.{IsMatchAt}
use shuriken.Prelude.Assoc.{lookup}
use shuriken.Build.Graph.{Nodes, done}
use shuriken.Fs.Fingerprint.{Fingerprint}
use Prim.Native.String.{String}
use shuriken.Build.Data.{
  Invocations, FingerprintMatchesMemo, Step, StepIndex, Entry, step_at, phony,
}
use shuriken.Prelude.{
  List, ℕ, elem, ◌≡◌, true, get_or, some, none, ◌<◌, length, ◌∷◌, arith, Option-cases, ◌⊎◌, inl, [],
  inr, Bool-cases, nat_eq, ◌||◌, refl,
}
use shuriken.Fs.FileSystem.{FileSystem}
use shuriken.Build.Ready.{matched_file_ids, output_file_ids_for_build_step}

matched_file_ids-done :
    (fs : FileSystem) (fingerprints : List (String × Fingerprint)) (memo : FingerprintMatchesMemo)
    (is : List ℕ)
    → ((f : ℕ) → elem f is ≡ true → IsMatchAt fs fingerprints f (get_or memo f none))
    → (ids : List FileId) × (matched_file_ids memo is ≡ done ids)
unfolding matched_file_ids
matched_file_ids-done fs fingerprints memo [] h = ([], refl)
matched_file_ids-done fs fingerprints memo (i ∷ is) h =
    let (ids, p) = matched_file_ids-done fs fingerprints memo is (λ f m. h f (ground arith)) in
    elim (Option-cases (get_or memo i none)) [
      | inl n ↦ absurd (subst (IsMatchAt fs fingerprints i) n (h i (ground arith)))
      | inr (r, e) ↦ (r.file_id ∷ ids, ground (arith, p))
    ]

-- Where the memo covers the steps of the build
pub output_file_ids-done :
    (fs : FileSystem) (invocations : Invocations) (memo : FingerprintMatchesMemo)
    (steps : List Step) (nodes : Nodes) (i : StepIndex)
    → ((j : StepIndex) (e : Entry) (f : ℕ)
        → lookup (step_at steps j).hash invocations.entries ≡ some e
        → uses e f ≡ true
        → f < length invocations.fingerprints)
    → IsCovered fs invocations steps nodes memo
    → (phony (step_at steps i) ≡ true)
      ⊎ (IsBuilt nodes i × (is_up_to_date fs invocations (step_at steps i) ≡ true))
    → (ids : List FileId) × (output_file_ids_for_build_step invocations memo (step_at steps i)
        ≡ done ids)
unfolding output_file_ids_for_build_step
output_file_ids-done fs invocations memo steps nodes i in_range covered (inl p) = ([], ground arith)
output_file_ids-done fs invocations memo steps nodes i in_range covered (inr (b, u)) =
    elim (Bool-cases (phony (step_at steps i) || (step_at steps i).generator)) [
      | inl g ↦ ([], rw g refl)
      | inr g ↦ elim (Option-cases (lookup (step_at steps i).hash invocations.entries)) [
        | inl n ↦ absurd (ground arith)
        | inr (e, l) ↦
            let (ids, p) =
              matched_file_ids-done fs invocations.fingerprints memo e.output_files
                (λ f m. covered i e f b l (ground arith) (in_range i e f l (ground arith))) in
            (ids, ground (arith, p))
      ]
    ]
