-- ===== src/Build/Deps/Used.antt =====
-- About `usedDependencies` of build.cpp.
use shuriken.Prelude.Sorted.{Ascending, unique-Ascending, sort-Sorted, elem-unique, elem-sort}
use shuriken.Build.Deps.{writers_of, used_dependencies, sort}
use shuriken.Prelude.{
  List, elem, ◌≡◌, true, false, some, nat_eq, ◌∷◌, arith, Bool-cases, inl, ◌==◌, ◌↔◌, inr,
  Option-cases, [], ◌∙◌, sym,
}
use shuriken.Build.Data.{StepIndex}
use shuriken.Fs.FileId.{FileId, missing, file_id_eq, file_id_beq_iff}
use shuriken.Prelude.Assoc.{Assoc, lookup}

-- A file that some step wrote
abbrev pub IsWriterOf : Assoc FileId StepIndex → List FileId → StepIndex → Type 0
IsWriterOf written files i =
    (f : FileId) × (elem f files ≡ true) × (missing f ≡ false) × (lookup f written ≡ some i)

writers_of_sound :
    (written : Assoc FileId StepIndex) (files : List FileId) (i : StepIndex)
    → elem i (writers_of written files) ≡ true
    → IsWriterOf written files i
unfolding writers_of
writers_of_sound written [] i h = absurd (cc)
writers_of_sound written (f ∷ fs) i h = pick (writers_of_sound written fs i)
  where
    later :
        (elem i (writers_of written fs) ≡ true → IsWriterOf written fs i)
        → elem i (writers_of written fs) ≡ true
        → IsWriterOf written (f ∷ fs) i
    later ih t = let (g, e, m, l) = ih t in (g, ground arith, m, l)

    pick :
        (elem i (writers_of written fs) ≡ true → IsWriterOf written fs i)
        → IsWriterOf written (f ∷ fs) i
    pick ih = elim (Bool-cases (missing f)) [
      | inl m ↦ later ih (ground arith)
      | inr m ↦ elim (Option-cases (lookup f written)) [
        | inl e ↦ later ih (ground arith)
        | inr (j, e) ↦ elim (Bool-cases (j == i)) [
          | inl q ↦ (f, ground (arith, file_id_beq_iff f f), m, ground arith)
          | inr q ↦ later ih (ground arith)
        ]
      ]
    ]

writers_of_complete :
    (written : Assoc FileId StepIndex) (files : List FileId) (i : StepIndex) (f : FileId)
    → elem f files ≡ true
    → missing f ≡ false
    → lookup f written ≡ some i
    → elem i (writers_of written files) ≡ true
unfolding writers_of
writers_of_complete written [] i f e m l = absurd (cc)
writers_of_complete written (g ∷ fs) i f e m l = elim (Bool-cases (g == f)) [
  | inl q ↦ let same : g ≡ f = (file_id_beq_iff g f).0 q in rw same (ground arith)
  | inr q ↦ ground (arith, writers_of_complete written fs i f)
]

-- The result is sorted and free of duplicates, and it holds exactly the steps that wrote one of the
-- files: a step is in it if and only if the map gives that step for a file of the list that is not
-- missing.
pub used_dependencies_correct :
    (written : Assoc FileId StepIndex) (files : List FileId)
    → Ascending (used_dependencies written files)
      × ((i : StepIndex)
          → (elem i (used_dependencies written files) ≡ true) ↔ IsWriterOf written files i)
unfolding used_dependencies
used_dependencies_correct written files =
    let found = writers_of written files in
    (
      unique-Ascending (sort found) (sort-Sorted found),
      λ i.
          let same = elem-unique i (sort found) ∙ elem-sort i found in
          (
            λ h. writers_of_sound written files i (sym same ∙ h),
            λ (f, e, m, l). same ∙ writers_of_complete written files i f e m l,
          ),
    )
