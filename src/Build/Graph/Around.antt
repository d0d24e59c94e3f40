-- ===== src/Build/Graph/Around.antt =====
-- About `visitStep` of build.cpp: the visit of one step, around the visits of its dependencies.
use mathlib.Core.Logic.{⊎_elim}
use mathlib.Core.Path.{subst}
use shuriken.Build.Graph.Nodes.{edges_to-set, node_at-update_node, unbuilt-set}
use shuriken.Build.Graph.Progress.{
  visiting, Progress, Walk, Edge, IsBuilt, IsClosed, IsBalanced, Reached, IsLinked, IsDependent,
  HasBuiltDependents,
}
use shuriken.Build.Graph.{Plan, Nodes, update_node, begin_visit, end_visit, node_at}
use shuriken.Build.Data.{StepIndex}
use shuriken.Prelude.{
  length, ◌≡◌, ◌<◌, false, arith, if◌then◌else◌, length-set, ◌==◌, ◌∙◌, Bool-cases, inl, nat_eq,
  inr, sym,
}

abbrev pub begun : Nodes → StepIndex → Nodes
begun nodes idx = update_node nodes idx begin_visit

module _ (nodes after : Nodes) (idx : StepIndex) where
  abbrev pub ended : Nodes
  ended = update_node after idx end_visit

  module _ {plan : Plan} (inside : idx < length nodes)
      (fresh : (node_at nodes idx).should_build ≡ false) (idle : visiting nodes idx ≡ false)
      (inner : Progress plan (Walk plan idx) (begun nodes idx) after)
      (full : (d : StepIndex) → Edge plan idx d → IsLinked after idx d) where
    at_begun :
        (i : StepIndex)
        → node_at (begun nodes idx) i
          ≡ (if idx == i then begin_visit (node_at nodes i) else node_at nodes i)
    at_begun i = node_at-update_node nodes idx i begin_visit inside

    at_ended :
        (i : StepIndex)
        → node_at ended i ≡ (if idx == i then end_visit (node_at after i) else node_at after i)
    at_ended i = node_at-update_node after idx i end_visit (rw inner.size (rw length-set inside))

    built-ended : (i : StepIndex) → (node_at ended i).should_build ≡ (node_at after i).should_build
    built-ended i = ground (arith, at_ended i)

    IsDependent-ended : (i d : StepIndex) → IsDependent after i d → IsDependent ended i d
    IsDependent-ended i d h = ground (arith, at_ended d)

    IsLinked-ended : (i d : StepIndex) → IsLinked after i d → IsLinked ended i d
    IsLinked-ended i d l = (built-ended d ∙ l.0, IsDependent-ended i d l.1)

    ended-IsClosed : IsClosed plan nodes → IsClosed plan ended
    ended-IsClosed c i d b v g = IsLinked-ended i d (elim (Bool-cases (idx == i)) [
      | inl e ↦
          let same : idx ≡ i = ground arith in
          subst (λ j. IsLinked after j d) same (full d (rw same g))
      | inr e ↦
          inner.closed begun-closed i d (sym (built-ended i) ∙ b) (ground (arith, at_ended i)) g
    ])
      where
        begun-closed : IsClosed plan (begun nodes idx)
        begun-closed i d b v g =
            let old = c i d (ground (arith, at_begun i)) (ground (arith, at_begun i)) g in
            (ground (arith, at_begun d), ground (arith, at_begun d))

    ended-IsBalanced : IsBalanced nodes → IsBalanced ended
    ended-IsBalanced b i = ground (
      arith,
      at_ended i,
      inner.balanced begun-balanced i,
      edges_to-set i after idx (end_visit (node_at after idx))
          (rw inner.size (rw length-set inside)),
    )
      where
        begun-balanced : IsBalanced (begun nodes idx)
        begun-balanced i = ground (
          arith,
          at_begun i,
          b i,
          edges_to-set i nodes idx (begin_visit (node_at nodes idx)) inside,
        )

    ended-dependents_built : HasBuiltDependents nodes → HasBuiltDependents ended
    ended-dependents_built old i e h =
        built-ended i
        ∙ inner.dependents_built
            (λ j f g. let b = old j f (ground (arith, at_begun f)) in ground (arith, at_begun j)) i
            e (ground (arith, at_ended e))

    pub visit-Progress : Progress plan (Reached plan idx) nodes ended × IsBuilt ended idx
    visit-Progress = (
      record {
        size = rw (length-set, inner.size) (rw length-set);
        work = omega (
          arith,
          inner.work,
          unbuilt-set nodes idx (begin_visit (node_at nodes idx)) inside,
          unbuilt-set after idx (end_visit (node_at after idx))
              (rw inner.size (rw length-set inside)),
        );
        monotone = λ i b. built-ended i ∙ inner.monotone i (ground (arith, at_begun i));
        same_visiting = λ i. ground (arith, at_ended i, at_begun i, inner.same_visiting i);
        sound = λ i b. elim (Bool-cases (idx == i)) [
          | inl e ↦ let same : idx ≡ i = ground arith in inr (inl same)
          | inr e ↦
              ⊎_elim (λ old. inl (ground (arith, at_begun i))) (λ w. inr (inr w))
                (inner.sound i (sym (built-ended i) ∙ b))
        ];
        keeps = λ i d h. IsDependent-ended i d (inner.keeps i d (ground (arith, at_begun d)));
        closed = ended-IsClosed;
        balanced = ended-IsBalanced;
        dependents_built = ended-dependents_built;
      },
      built-ended idx ∙ inner.monotone idx (ground (arith, at_begun idx)),
    )
