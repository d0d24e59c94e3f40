-- ===== src/Build/Deps.antt =====
-- build.cpp: which steps a command turned out to use, and how that compares with its manifest entry.
pub mod Used
pub mod Compared
pub mod Ignored
mod Tests
use shuriken.Fs.FileSystem.{Hash}
use shuriken.Fs.FileId.{FileId, missing, file_id_eq}
use shuriken.Build.Data.{Invocations, StepIndex, Step, step_at}
use shuriken.Prelude.{List, ◌∷◌, Bool, if◌then◌else◌, none, [], false, some, nat_eq, ◌==◌, ltb}
use shuriken.Prelude.Assoc.{Assoc, lookup}
use shuriken.Prelude.Sorted.{sort, unique, binary_search}

-- The loop of `usedDependencies`, before the sort
writers_of : Assoc FileId StepIndex → List FileId → List StepIndex
writers_of written [] = []
writers_of written (f ∷ fs) =
    let rest = writers_of written fs in
    if missing f then rest else elim (lookup f written) [ none ↦ rest | some i ↦ i ∷ rest ]

unfoldable pub used_dependencies : Assoc FileId StepIndex → List FileId → List StepIndex
unfolding writers_of
used_dependencies written files = unique (sort (writers_of written files))

abbrev pub Comparison : Type 0
Comparison = List StepIndex × List Hash

-- The loop of `ignoredAndAdditionalDependencies`, before the sort: two iterators over two lists
compare_dependencies : List Step → List StepIndex → List StepIndex → Comparison
compare_dependencies steps [] [] = ([], [])
compare_dependencies steps (d ∷ deps) [] =
    let (ignored, additional) = compare_dependencies steps deps [] in (d ∷ ignored, additional)
compare_dependencies steps [] (u ∷ used) =
    let (ignored, additional) = compare_dependencies steps [] used in
    (ignored, (step_at steps u).hash ∷ additional)
compare_dependencies steps (d ∷ deps) (u ∷ used) =
    let both = compare_dependencies steps deps used in
    let unused = compare_dependencies steps deps (u ∷ used) in
    let extra = compare_dependencies steps (d ∷ deps) used in
    if d == u
    then both
    else if ltb d u
    then (d ∷ unused.0, unused.1)
    else (extra.0, (step_at steps u).hash ∷ extra.1)

unfoldable pub ignored_and_additional_dependencies : List Step → Step → List StepIndex → Comparison
unfolding compare_dependencies
ignored_and_additional_dependencies steps step used =
    let (ignored, additional) = compare_dependencies steps step.dependencies used in
    (ignored, sort additional)

-- The overload that takes the written files
unfoldable pub ignored_and_additional_of_files :
    Assoc FileId StepIndex → List Step → Step → List FileId → Comparison
ignored_and_additional_of_files written steps step files =
    ignored_and_additional_dependencies steps step (used_dependencies written files)

unfoldable pub step_is_ignored : Invocations → Hash → StepIndex → Bool
step_is_ignored invocations ignoring ignored = elim (lookup ignoring invocations.entries) [
  | none ↦ false
  | some entry ↦ binary_search entry.ignored_dependencies ignored
]
