-- ===== src/Build/Schedule/Built.antt =====
-- About an execution of a build (build.cpp): which steps have been built in it, and so which steps still
-- have `no_direct_dependencies_built`.
use mathlib.Core.Path.{subst}
use shuriken.Build.Graph.{Build}
use shuriken.Build.Data.{StepIndex}
use shuriken.Build.Schedule.{Execution, begin, start, finish, note}
use shuriken.Build.Ready.{Context}
use shuriken.Build.Ready.Flags.{
  flag, dependents, is_ignored_by, IsFlagged, mark_step_node_as_done-IsFlagged,
}
use shuriken.Prelude.{
  nat_eq, refl, Bool, false, ◌≡◌, ◌||◌, not, true, ap, elem, ◌&&◌, ◌∙◌, sym, ◌==◌, Bool-cases, inl,
  inr, arith, nat_beq_iff,
}

-- The steps whose commands succeeded: they were marked as done, and not as skipped.
pub built :
    {context : Context} {skipped : StepIndex → Bool} {build : Build}
    {started finished : StepIndex → Bool} {b : Build}
    → Execution context skipped build started finished b
    → StepIndex
    → Bool
built begin d = false
built (start rest s e last) d = built e d
built (finish s ids skip e st fin m) d = built e d || (not skip && s == d)
built (note after e nodes ready) d = built e d

-- Of the steps that were built, those that a step depends on are ignored by it.
abbrev pub IsUntouched : Context → Build → (StepIndex → Bool) → StepIndex → Type 0
IsUntouched context build was_built i =
    (d : StepIndex)
    → was_built d ≡ true
    → elem i (dependents build.step_nodes d) ≡ true
    → is_ignored_by context i d ≡ true

pub record IsTracked (context : Context) (build : Build) (was_built : StepIndex → Bool) (b : Build)
    : Type 0 where
  pub same : (i : StepIndex) → dependents b.step_nodes i ≡ dependents build.step_nodes i
  pub kept :
      (i : StepIndex)
      → flag b.step_nodes i ≡ true
      → (flag build.step_nodes i ≡ true) × IsUntouched context build was_built i
  pub untouched :
      (i : StepIndex)
      → flag build.step_nodes i ≡ true
      → IsUntouched context build was_built i
      → flag b.step_nodes i ≡ true

module _ (context : Context) (build : Build) where
  IsTracked-note :
      (was_built : StepIndex → Bool) (b after : Build)
      → after.step_nodes ≡ b.step_nodes
      → IsTracked context build was_built b
      → IsTracked context build was_built after
  IsTracked-note was_built b after e t = record {
    same = λ i. ap (λ nodes. dependents nodes i) e ∙ t.same i;
    kept = λ i h. t.kept i (ap (λ nodes. flag nodes i) (sym e) ∙ h);
    untouched = λ i h u. ap (λ nodes. flag nodes i) e ∙ t.untouched i h u;
  }

  IsTracked-finish :
      (was_built : StepIndex → Bool) (b after : Build) (s : StepIndex) (skip : Bool)
      → IsFlagged context s skip (dependents b.step_nodes s) b.step_nodes after.step_nodes
      → IsTracked context build was_built b
      → IsTracked context build (λ d. was_built d || (not skip && s == d)) after
  IsTracked-finish was_built b after s skip m t = record {
    same = λ i. m.same i ∙ t.same i;
    kept = λ i h.
        let before : flag b.step_nodes i ≡ true = ground (arith, m.flags i) in
        let (first, untouched) = t.kept i before in
        (first, λ d was_built_now edge. still i h d (untouched d) was_built_now edge);
    untouched = λ i h u.
        let before = t.untouched i h (λ d w edge. u d (ground arith) edge) in
        let listed = ap (elem i) (t.same s) in
        let last = u s in
        elim (Bool-cases skip) [
          | inl k ↦ ground (arith, m.flags i)
          | inr k ↦ elim (Bool-cases (elem i (dependents build.step_nodes s))) [
            | inl edge ↦
                let ignored = last (ground (arith, nat_beq_iff s s)) edge in
                ground (arith, m.flags i)
            | inr none_of_it ↦ ground (arith, m.flags i)
          ]
        ];
  }
    where
      still :
          (i : StepIndex)
          → flag after.step_nodes i ≡ true
          → (d : StepIndex)
          → (was_built d ≡ true
              → elem i (dependents build.step_nodes d) ≡ true
              → is_ignored_by context i d ≡ true)
          → (was_built d || (not skip && s == d)) ≡ true
          → elem i (dependents build.step_nodes d) ≡ true
          → is_ignored_by context i d ≡ true
      still i h d untouched now edge = elim (Bool-cases (was_built d)) [
        | inl w ↦ untouched w edge
        | inr w ↦
            let same : s ≡ d = ground (arith, nat_beq_iff s d) in
            let edge_s : elem i (dependents b.step_nodes s) ≡ true =
              ap (elem i) (t.same s ∙ ap (dependents build.step_nodes) same) ∙ edge in
            subst (λ x. is_ignored_by context i x ≡ true) same (ground (arith, m.flags i))
      ]

pub Execution-IsTracked :
    {context : Context} {skipped : StepIndex → Bool} {build : Build}
    {started finished : StepIndex → Bool} {b : Build}
    (e : Execution context skipped build started finished b)
    → IsTracked context build (built e) b
unfolding built
Execution-IsTracked begin = record {
  same = λ i. refl;
  kept = λ i h. (h, λ d w edge. absurd (cc));
  untouched = λ i h u. h;
}
Execution-IsTracked {context} {build = build} (start {b = b} rest s e last) =
    IsTracked-note context build (built e) b (record b { ready_steps = rest }) refl
      (Execution-IsTracked e)
Execution-IsTracked {context} {build = build}
      (finish {b = b} {after = after} s ids skip e st fin m) =
    IsTracked-finish context build (built e) b after s skip
      (mark_step_node_as_done-IsFlagged context s skip b after ids m) (Execution-IsTracked e)
Execution-IsTracked {context} {build = build} (note {b = b} after e nodes ready) =
    IsTracked-note context build (built e) b after nodes (Execution-IsTracked e)
