-- ===== src/Build/Deps/Tests.antt =====
-- A step that declares two dependencies, and that read a file of one of them and of a third step.
use shuriken.Prelude.{List, [], ◌∷◌, true, ◌≡◌, refl, arith, elem, keep, ◌&&◌, ◌↔◌, nat_eq, map}
use shuriken.Prelude.Sorted.{sort, unique, Ascending}
use shuriken.Prelude.Assoc.{Assoc}
use shuriken.Fs.FileId.{FileId}
use shuriken.Build.Data.{Step, StepIndex, Entry, Invocations, no_step}
use shuriken.Build.Deps.{
  used_dependencies, ignored_and_additional_dependencies, step_is_ignored, writers_of,
  compare_dependencies,
}
use shuriken.Build.Deps.Used.{IsWriterOf, used_dependencies_correct}
use shuriken.Build.Deps.Compared.{unless_in, hash_at, ignored_and_additional-eq}
use shuriken.Build.Deps.Ignored.{step_is_ignored-logged}

abbrev steps : List Step
steps =
    record no_step { hash = 13 }
    ∷ record no_step { hash = 11 }
    ∷ record no_step { hash = 12; dependencies = 1 ∷ 3 ∷ [] }
    ∷ record no_step { hash = 10 }
    ∷ []

abbrev linking : Step
linking = record no_step { hash = 12; dependencies = 1 ∷ 3 ∷ [] }

abbrev written : Assoc FileId StepIndex
written = (record { ino = 5; dev = 1 }, 1) ∷ (record { ino = 6; dev = 1 }, 0) ∷ []

abbrev read : List FileId
read =
    record { ino = 5; dev = 1 }
    ∷ record { ino = 0; dev = 0 }
    ∷ record { ino = 6; dev = 1 }
    ∷ record { ino = 7; dev = 1 }
    ∷ []

used_dependencies-read : used_dependencies written read ≡ 0 ∷ 1 ∷ []
unfolding used_dependencies writers_of sort unique
used_dependencies-read = refl

dependencies_of_linking :
    ignored_and_additional_dependencies steps linking (0 ∷ 1 ∷ []) ≡ (3 ∷ [], 13 ∷ [])
unfolding ignored_and_additional_dependencies compare_dependencies sort
dependencies_of_linking = refl

used_dependencies_correct_example :
    Ascending (used_dependencies written read)
    × ((i : StepIndex)
        → (elem i (used_dependencies written read) ≡ true) ↔ IsWriterOf written read i)
used_dependencies_correct_example = used_dependencies_correct written read

ignored_and_additional-eq_example :
    ignored_and_additional_dependencies steps linking (0 ∷ 1 ∷ []) ≡ (
      keep (unless_in (0 ∷ 1 ∷ [])) (1 ∷ 3 ∷ []),
      sort (map (hash_at steps) (keep (unless_in (1 ∷ 3 ∷ [])) (0 ∷ 1 ∷ []))),
    )
ignored_and_additional-eq_example =
    ignored_and_additional-eq steps linking (0 ∷ 1 ∷ []) ((omega arith, tt), (tt, tt))
      ((omega arith, tt), (tt, tt))

abbrev entry : Entry
entry = record {
  output_files = [];
  input_files = [];
  ignored_dependencies = 3 ∷ [];
  additional_dependencies = 13 ∷ [];
}

abbrev invocations : Invocations
invocations = record { fingerprints = []; entries = (12, entry) ∷ []; created_directories = [] }

entry-logged :
    entry.ignored_dependencies ≡ (ignored_and_additional_dependencies steps linking (0 ∷ 1 ∷ [])).0
unfolding ignored_and_additional_dependencies compare_dependencies
entry-logged = refl

step_is_ignored-logged_example :
    step_is_ignored invocations 12 3 ≡ (elem 3 linking.dependencies && unless_in (0 ∷ 1 ∷ []) 3)
step_is_ignored-logged_example =
    step_is_ignored-logged invocations steps linking (0 ∷ 1 ∷ []) entry 3
      ((omega arith, tt), (tt, tt)) ((omega arith, tt), (tt, tt)) refl entry-logged
