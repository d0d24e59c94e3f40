-- ===== src/Build/Schedule/Skips.antt =====
-- About `canSkipBuildCommand` of build.cpp in a build that runs: the flag that it reads says what was built.
use mathlib.Core.Logic.{⊎_elim}
use mathlib.Core.Path.{subst}
use shuriken.Prelude.Assoc.{has, lookup}
use shuriken.Fs.FileSystem.{Hash, FileSystem}
use shuriken.Build.Data.{
  StepIndex, Step, Invocations, FingerprintMatchesMemo, CleanSteps, step_at, Entry,
}
use shuriken.Build.Schedule.{Execution}
use shuriken.Build.Schedule.Built.{built, IsTracked, Execution-IsTracked, IsUntouched}
use shuriken.Build.Ready.Unflagged.{discard-IsUnflagged, IsUnflagged}
use shuriken.Build.Ready.Flags.{flag, dependents, is_ignored_by}
use shuriken.Build.Graph.Known.{construct-IsKnown, IsKnown}
use shuriken.Build.Graph.Grown.{all_known}
use shuriken.Build.Graph.Construct.{construct_correct, IsConstructed}
use shuriken.Build.Graph.Visit.{IsInRange}
use shuriken.Build.Graph.Progress.{Edge, IsBuilt}
use shuriken.Build.Clean.Skipped.{can_skip_iff, AllUnchanged}
use shuriken.Build.Clean.{can_skip_build_command}
use shuriken.Build.Ready.{Context, discard_clean_steps}
use shuriken.Build.Graph.{construct, make_plan, logged_dependencies, done, Build, Plan}
use shuriken.Prelude.{
  nat_eq, refl, List, Bool, elem, ◌≡◌, true, ℕ, ◌↔◌, ap, ◌∷◌, sym, Bool-cases, arith, length, ◌∙◌,
  nat_beq_iff, All, ◌==◌, inl, ◌<◌, [], get_or, inr, false, ◌⊎◌, some,
}

-- No dependency of a step was built, as far as that is known: the manifest has all steps that the log says
-- it depends on too, and each of its dependencies that was built is one that it did not use.
abbrev pub NoDependencyBuilt : Plan → Context → (StepIndex → Bool) → StepIndex → Type 0
NoDependencyBuilt plan context was_built i =
    ((h : Hash)
      → elem h (logged_dependencies plan i) ≡ true
      → has (lookup h plan.step_indices) ≡ true)
    × ((d : StepIndex) → was_built d ≡ true → Edge plan i d → is_ignored_by context i d ≡ true)

all_known-each :
    (plan : Plan) (hs : List Hash)
    → all_known plan hs ≡ true
    → (h : Hash) → elem h hs ≡ true
    → has (lookup h plan.step_indices) ≡ true
all_known-each plan [] a h e = absurd (cc)
all_known-each plan (k ∷ ks) a h e = elim (Bool-cases (k == h)) [
  | inl same ↦
      let eq : k ≡ h = ground (arith, nat_beq_iff k h) in
      subst (λ x. has (lookup x plan.step_indices) ≡ true) eq (ground arith)
  | inr other ↦ all_known-each plan ks (ground arith) h (ground arith)
]

all_known_of :
    (plan : Plan) (hs : List Hash)
    → ((h : Hash) → elem h hs ≡ true → has (lookup h plan.step_indices) ≡ true)
    → all_known plan hs ≡ true
all_known_of plan [] f = refl
all_known_of plan (k ∷ ks) f =
    let first = f k (ground (arith, nat_beq_iff k k)) in
    let others = all_known_of plan ks (λ h e. f h (ground arith)) in ground arith

-- What the flag of a step in the build says
flag_iff :
    (plan : Plan) (context : Context) (constructed build b : Build) (was_built : StepIndex → Bool)
    (i : StepIndex)
    → IsKnown plan constructed.step_nodes
    → ((d : StepIndex) → Edge plan i d → elem i (dependents constructed.step_nodes d) ≡ true)
    → IsUnflagged constructed.step_nodes build.step_nodes
    → IsTracked context build was_built b
    → IsBuilt constructed.step_nodes i
    → (flag b.step_nodes i ≡ true) ↔ NoDependencyBuilt plan context was_built i
flag_iff plan context constructed build b was_built i known linked unflagged tracked in_build =
    (λ h. forward (tracked.kept i h), λ (k, u). back k u)
  where
    listed :
        (d : StepIndex)
        → elem i (dependents build.step_nodes d) ≡ elem i (dependents constructed.step_nodes d)
    listed d = ap (elem i) (unflagged.same d)

    forward :
        (flag build.step_nodes i ≡ true) × IsUntouched context build was_built i
        → NoDependencyBuilt plan context was_built i
    forward (f, u) = (
      all_known-each plan (logged_dependencies plan i)
          (sym (known.flags i in_build) ∙ sym (unflagged.flags i) ∙ f),
      λ d w edge. u d w (listed d ∙ linked d edge),
    )

    back :
        ((h : Hash)
          → elem h (logged_dependencies plan i) ≡ true
          → has (lookup h plan.step_indices) ≡ true)
        → ((d : StepIndex) → was_built d ≡ true → Edge plan i d → is_ignored_by context i d ≡ true)
        → flag b.step_nodes i ≡ true
    back k u =
        tracked.untouched i
          (unflagged.flags i
            ∙ known.flags i in_build
            ∙ all_known_of plan (logged_dependencies plan i) k)
          (λ d w e. u d w (known.edges i d (sym (listed d) ∙ e)))

-- In a build that is constructed of steps whose dependencies are indices of steps, whose clean steps
-- are discarded, and that then runs, a step of the build is skipped exactly if it was clean at the
-- start, and either the manifest has every step that the log says it depends on, and each of its
-- dependencies that was finished in this build, and not as a skipped one, is one that the log says it
-- did not use; or it is in the log, and each of its inputs whose file is among the written files of
-- the build has the size and mode of the fingerprint in the log, and is there with its hash.
pub can_skip-NoDependencyBuilt :
    (steps : List Step) (invocations : Invocations) (failures_allowed : ℕ)
    (targets : List StepIndex) (memo : FingerprintMatchesMemo) (clean_steps : CleanSteps)
    (constructed build : Build) (discarded : ℕ) {skipped started finished : StepIndex → Bool}
    {b : Build} (fs : FileSystem) (i : StepIndex)
    → IsInRange (make_plan steps invocations) (length steps)
    → All (λ t. t < length steps) targets
    → construct steps invocations failures_allowed targets ≡ done constructed
    → discard_clean_steps
        (record { steps = steps; invocations = invocations })
        memo
        clean_steps
        constructed
      ≡ done (build, discarded)
    → (e : Execution
        (record { steps = steps; invocations = invocations })
        skipped
        build
        started
        finished
        b)
    → IsBuilt constructed.step_nodes i
    → (can_skip_build_command fs clean_steps b.written_files invocations
          (flag b.step_nodes i)
          (step_at steps i)
          i
        ≡ true)
      ↔ ((get_or clean_steps i false ≡ true)
          × (NoDependencyBuilt
                (make_plan steps invocations)
                (record { steps = steps; invocations = invocations })
                (built e)
                i
              ⊎ ((entry : Entry) × (lookup (step_at steps i).hash invocations.entries ≡ some entry)
                  × AllUnchanged fs b.written_files invocations entry.input_files)))
can_skip-NoDependencyBuilt steps invocations failures_allowed targets memo clean_steps constructed
      build discarded {b = b} fs i in_range inside c d e in_build =
    let plan = make_plan steps invocations in
    let context : Context = record { steps = steps; invocations = invocations } in
    let graph : IsConstructed plan targets (done constructed) =
      subst (IsConstructed plan targets) c
        (construct_correct steps invocations failures_allowed targets in_range inside) in
    let says =
      flag_iff plan context constructed build b (built e) i
        (construct-IsKnown steps invocations failures_allowed targets constructed in_range inside c)
        (λ j edge. graph.0.linked i j in_build edge)
        (discard-IsUnflagged context memo clean_steps constructed build discarded d)
        (Execution-IsTracked e) in_build in
    let skips =
      can_skip_iff fs b.written_files invocations clean_steps (flag b.step_nodes i)
        (step_at steps i) i in
    (
      λ h. let (clean, why) = skips.0 h in (clean, ⊎_elim (λ f. inl (says.0 f)) inr why),
      λ (clean, why). skips.1 (clean, ⊎_elim (λ f. inl (says.1 f)) inr why),
    )
