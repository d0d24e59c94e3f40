-- ===== src/Build/Ready/Outputs.antt =====
-- About the loop over the files in `Build::markStepNodeAsDone` of build.cpp, and
-- `outputFileIdsForBuildStep`.
use shuriken.Fs.Fingerprint.{MatchesResult}
use mathlib.Core.Path.{subst}
use mathlib.Core.Logic.{⊎_elim}
use shuriken.Build.Graph.{Outcome, done, failed, same_output, out_of_fuel, internal, ◌>>=◌}
use shuriken.Prelude.Assoc.{Assoc, lookup, has}
use shuriken.Build.Ready.{record_outputs, matched_file_ids, output_file_ids_for_build_step}
use shuriken.Prelude.{
  List, ℕ, ◌∷◌, arith, Bool-cases, if◌then◌else◌, inl, ◌==◌, ◌≡◌, not, true, false, inr, ◌+◌, ◌&&◌,
  [], ltb, some, ◌<◌, none, ◌⊎◌, refl, Option-cases, ◌||◌, get_or, nat_eq,
}
use shuriken.Build.Data.{StepIndex, FingerprintMatchesMemo, Invocations, Step, phony}
use shuriken.Fs.FileId.{FileId, missing, file_id_beq_iff, file_id_eq, file_id_beq}

-- How often a file stands in a list
abbrev pub times : FileId → List FileId → ℕ
times f [] = 0
times f (g ∷ gs) = (if g == f then 1 else 0) + times f gs

-- `record_outputs` succeeds exactly if no file that is there is listed twice or recorded before, and
-- then records the step for the files that are there.
abbrev pub IsRecorded :
    StepIndex → List FileId → Assoc FileId StepIndex → Outcome (Assoc FileId StepIndex) → Type 0
IsRecorded s ids files (done files') =
    ((f : FileId)
      → lookup f files'
        ≡ (if not (missing f) && ltb 0 (times f ids) then some s else lookup f files))
    × ((f : FileId)
        → missing f ≡ false
        → 0 < times f ids
        → (times f ids ≡ 1) × (lookup f files ≡ none))
IsRecorded s ids files (failed e) =
    (e ≡ same_output)
    × (f : FileId) × (missing f ≡ false)
    × (0 < times f ids)
    × ((1 < times f ids) ⊎ (has (lookup f files) ≡ true))
IsRecorded s ids files out_of_fuel = ⊥

module _ (s : StepIndex) where
  IsRecorded-skip :
      (g : FileId) (gs : List FileId) (files : Assoc FileId StepIndex)
      (o : Outcome (Assoc FileId StepIndex))
      → missing g ≡ true
      → IsRecorded s gs files o
      → IsRecorded s (g ∷ gs) files o
  IsRecorded-skip g gs files (done files') m (l, o) = (
    λ f. ground (arith, l f, file_id_beq_iff g f),
    λ f mf t. ground (arith, o f, file_id_beq_iff g f),
  )
  IsRecorded-skip g gs files (failed e) m (q, f, mf, t, c) =
      (q, f, mf, omega arith, ⊎_elim (λ h. inl (omega arith)) inr c)
  IsRecorded-skip g gs files out_of_fuel m h = h

  IsRecorded-add :
      (g : FileId) (gs : List FileId) (files : Assoc FileId StepIndex)
      (o : Outcome (Assoc FileId StepIndex))
      → missing g ≡ false
      → has (lookup g files) ≡ false
      → IsRecorded s gs ((g, s) ∷ files) o
      → IsRecorded s (g ∷ gs) files o
  IsRecorded-add g gs files (done files') m n (l, o) = (
    λ f. ground (arith, l f, file_id_beq_iff g f),
    λ f mf t. elim (Bool-cases (file_id_beq g f)) [
      | inl e ↦
          let same : g ≡ f = (file_id_beq_iff g f).0 e in
          let absent : has (lookup f files) ≡ false =
            subst (λ h. has (lookup h files) ≡ false) same n in
          ground (arith, o f mf)
      | inr e ↦ ground (arith, o f mf)
    ],
  )
  IsRecorded-add g gs files (failed e) m n (q, f, mf, t, c) = (
    q,
    f,
    mf,
    omega arith,
    elim c [
      | inl h ↦ inl (omega arith)
      | inr h ↦ elim (Bool-cases (file_id_beq g f)) [
        | inl e ↦ inl (rw e (omega arith))
        | inr e ↦ inr (ground arith)
      ]
    ],
  )
  IsRecorded-add g gs files out_of_fuel m n h = h

  -- Recording the files of a step succeeds only if no file that is there is listed twice or recorded
  -- before, and then the map has the step for exactly the listed files that are there and is
  -- otherwise unchanged. It fails only with the error of two steps that wrote the same file, and then
  -- some file that is there is listed twice or was recorded before. It does not run out of fuel.
  pub record_outputs-IsRecorded :
      (ids : List FileId) (files : Assoc FileId StepIndex)
      → IsRecorded s ids files (record_outputs s ids files)
  unfolding record_outputs
  record_outputs-IsRecorded [] files = (λ f. ground arith, λ f m t. absurd (omega arith))
  record_outputs-IsRecorded (g ∷ gs) files = elim (Bool-cases (missing g)) [
    | inl m ↦ rw m (IsRecorded-skip g gs files _ m (record_outputs-IsRecorded gs files))
    | inr m ↦ elim (Bool-cases (has (lookup g files))) [
      | inl h ↦ rw (m, h) (refl, g, m, ground (arith, file_id_beq_iff g g), inr h)
      | inr n ↦
          rw (m, n)
            (IsRecorded-add g gs files _ m n (record_outputs-IsRecorded gs ((g, s) ∷ files)))
    ]
  ]

-- The file ids of a step are found, or there is an internal error.
abbrev pub IsFound : Outcome (List FileId) → Type 0
IsFound (done ids) = Unit {0}
IsFound (failed e) = e ≡ internal
IsFound out_of_fuel = ⊥

matched_file_ids-IsFound :
    (memo : FingerprintMatchesMemo) (is : List ℕ) → IsFound (matched_file_ids memo is)
unfolding matched_file_ids
matched_file_ids-IsFound memo [] = tt
matched_file_ids-IsFound memo (i ∷ is) = elim (Option-cases (get_or memo i none)) [
  | inl e ↦ rw (e, IsFound) refl
  | inr (r, e) ↦
      rw (e, matched_file_ids) (go r (matched_file_ids memo is) (matched_file_ids-IsFound memo is))
]
  where
    go :
        (r : MatchesResult) (o : Outcome (List FileId))
        → IsFound o
        → IsFound (o >>= λ ids. done (r.file_id ∷ ids))
    go r (done ids) h = tt
    go r (failed e) h = h
    go r out_of_fuel h = h

pub output_file_ids-IsFound :
    (invocations : Invocations) (memo : FingerprintMatchesMemo) (s : Step)
    → IsFound (output_file_ids_for_build_step invocations memo s)
unfolding output_file_ids_for_build_step
output_file_ids-IsFound invocations memo s = elim (Bool-cases (phony s || s.generator)) [
  | inl e ↦ rw e tt
  | inr e ↦ elim (Option-cases (lookup s.hash invocations.entries)) [
    | inl n ↦ rw (e, n) refl
    | inr (entry, f) ↦ rw (e, f) (matched_file_ids-IsFound memo entry.output_files)
  ]
]
