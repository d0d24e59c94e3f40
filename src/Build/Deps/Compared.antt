-- ===== src/Build/Deps/Compared.antt =====
-- About `ignoredAndAdditionalDependencies` of build.cpp, compared with set differences.
use shuriken.Prelude.Sorted.{Ascending, elem-below, All-weaken}
use shuriken.Build.Deps.{
  ignored_and_additional_dependencies, Step, StepIndex, compare_dependencies, Hash, step_at, sort,
  ltb,
}
use shuriken.Prelude.{
  List, ℕ, Bool, All, ◌<◌, not, keep, elem, nat_eq, ◌∷◌, ◌≡◌, arith, false, map, [], refl, true,
  ltb→lt, Bool-cases, ◌==◌, inl, inr,
}
use native.Mathlib.Nat.{lt_trans}

abbrev pub unless_in : List ℕ → ℕ → Bool
unless_in xs x = not (elem x xs)

-- What lies above a value is not that value.
keep-unless_in-below :
    (z : ℕ) (zs xs : List ℕ)
    → All (λ x. z < x) xs
    → keep (unless_in (z ∷ zs)) xs ≡ keep (unless_in zs) xs
keep-unless_in-below z zs [] h = refl
keep-unless_in-below z zs (x ∷ xs) h =
    let lt = h.0 in ground (arith, keep-unless_in-below z zs xs h.1)

below-cons : {d u : ℕ} (us : List ℕ) → d < u → All (λ x. u < x) us → elem d (u ∷ us) ≡ false
below-cons {d} {u} us lt h = elem-below d (u ∷ us) (lt, All-weaken _ _ us (λ x g. lt_trans lt g) h)

module _ (steps : List Step) where
  abbrev pub hash_at : StepIndex → Hash
  hash_at u = (step_at steps u).hash

  compare_dependencies-eq :
      (deps used : List StepIndex)
      → Ascending deps
      → Ascending used
      → compare_dependencies steps deps used
        ≡ (keep (unless_in used) deps, map hash_at (keep (unless_in deps) used))
  unfolding compare_dependencies
  compare_dependencies-eq [] [] p q = refl
  compare_dependencies-eq (d ∷ deps) [] p q = ground (arith, compare_dependencies-eq deps [] p.1 q)
  compare_dependencies-eq [] (u ∷ used) p q = ground (arith, compare_dependencies-eq [] used p q.1)
  compare_dependencies-eq (d ∷ deps) (u ∷ used) p q = elim (Bool-cases (d == u)) [
    | inl e ↦
        let same : d ≡ u = ground arith in
        let below_deps = keep-unless_in-below u used deps (rw (← same) p.0) in
        let below_used = keep-unless_in-below d deps used (rw same q.0) in
        ground (arith, compare_dependencies-eq deps used p.1 q.1, below_deps, below_used)
    | inr e ↦ elim (Bool-cases (ltb d u)) [
      | inl lt ↦
          let above = below-cons used (ltb→lt d u lt) q.0 in
          let below_used = keep-unless_in-below d deps (u ∷ used) (ltb→lt d u lt, later lt q.0) in
          ground (arith, compare_dependencies-eq deps (u ∷ used) p.1 q, above, below_used)
      | inr ge ↦
          let gt : u < d = ground arith in
          let above = below-cons deps gt p.0 in
          let below_deps =
            keep-unless_in-below u used (d ∷ deps)
              (gt, All-weaken _ _ deps (λ x g. lt_trans gt g) p.0) in
          ground (arith, compare_dependencies-eq (d ∷ deps) used p q.1, above, below_deps)
    ]
  ]
    where
      later : ltb d u ≡ true → All (λ x. u < x) used → All (λ x. d < x) used
      later lt = All-weaken _ _ used (λ x g. lt_trans (ltb→lt d u lt) g)

-- For a step whose dependencies are sorted and free of duplicates, as are the steps that it used:
-- the ignored dependencies are the declared ones that it did not use, in their order, and the
-- additional ones are the hashes, sorted, of the steps that it used and did not declare.
pub ignored_and_additional-eq :
    (steps : List Step) (step : Step) (used : List StepIndex)
    → Ascending step.dependencies
    → Ascending used
    → ignored_and_additional_dependencies steps step used ≡ (
      keep (unless_in used) step.dependencies,
      sort (map (hash_at steps) (keep (unless_in step.dependencies) used)),
    )
unfolding ignored_and_additional_dependencies
ignored_and_additional-eq steps step used p q =
    rw (compare_dependencies-eq steps step.dependencies used p q)
