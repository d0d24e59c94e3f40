-- ===== src/Build/Deps/Ignored.antt =====
-- About `stepIsIgnored` of build.cpp, on what `ignoredAndAdditionalDependencies` computed.
use shuriken.Build.Deps.Compared.{unless_in, ignored_and_additional-eq}
use shuriken.Build.Data.{Entry}
use shuriken.Prelude.Sorted.{Ascending, binary_search-Ascending}
use shuriken.Build.Deps.{
  step_is_ignored, Invocations, Step, StepIndex, lookup, ignored_and_additional_dependencies,
  Comparison,
}
use shuriken.Prelude.{
  ℕ, Bool, List, All, elem, keep, ◌∷◌, ◌≡◌, Bool-cases, ◌&&◌, some, inl, ◌==◌, arith, inr, nat_eq,
  [], ◌∙◌, refl, ap,
}

All-keep : (P : ℕ → Type 0) (p : ℕ → Bool) (xs : List ℕ) → All P xs → All P (keep p xs)
All-keep P p [] h = tt
All-keep P p (x ∷ xs) h = elim (Bool-cases (p x)) [
  | inl e ↦ rw e (h.0, All-keep P p xs h.1)
  | inr e ↦ rw e (All-keep P p xs h.1)
]

keep-Ascending : (p : ℕ → Bool) (xs : List ℕ) → Ascending xs → Ascending (keep p xs)
keep-Ascending p [] h = tt
keep-Ascending p (x ∷ xs) h = elim (Bool-cases (p x)) [
  | inl e ↦ rw e (All-keep _ p xs h.0, keep-Ascending p xs h.1)
  | inr e ↦ rw e (keep-Ascending p xs h.1)
]

elem-keep : (a : ℕ) (p : ℕ → Bool) (xs : List ℕ) → elem a (keep p xs) ≡ (elem a xs && p a)
elem-keep a p [] = refl
elem-keep a p (x ∷ xs) = elim (Bool-cases (x == a)) [
  | inl e ↦ let same : x ≡ a = ground arith in rw same (ground (arith, elem-keep a p xs))
  | inr e ↦ ground (arith, elem-keep a p xs)
]

-- For a step whose dependencies are sorted and free of duplicates, as are the steps that it used: if
-- the log holds the ignored dependencies that were computed for it, a step counts as ignored exactly
-- if it is a declared dependency and was not used.
pub step_is_ignored-logged :
    (invocations : Invocations) (steps : List Step) (step : Step) (used : List StepIndex)
    (entry : Entry) (d : StepIndex)
    → Ascending step.dependencies
    → Ascending used
    → lookup step.hash invocations.entries ≡ some entry
    → entry.ignored_dependencies ≡ (ignored_and_additional_dependencies steps step used).0
    → step_is_ignored invocations step.hash d ≡ (elem d step.dependencies && unless_in used d)
unfolding step_is_ignored
step_is_ignored-logged invocations steps step used entry d p q found logged =
    let ignored = keep (unless_in used) step.dependencies in
    let same : entry.ignored_dependencies ≡ ignored =
      logged ∙ ap (λ (c : Comparison). c.0) (ignored_and_additional-eq steps step used p q) in
    rw (found, step_is_ignored)
      (rw same (
        binary_search-Ascending ignored d (keep-Ascending (unless_in used) step.dependencies p)
        ∙ elem-keep d (unless_in used) step.dependencies))
