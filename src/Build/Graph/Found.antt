-- ===== src/Build/Graph/Found.antt =====
-- About `visitStep` of build.cpp: what a visit does to the node of its own step, and what an edge adds.

use shuriken.Build.Data.{StepIndex}
use shuriken.Build.Graph.{
  Plan, Nodes, node_at, update_node, StepNode, forget_direct, begin_visit, end_visit, add_dependent,
  count_dependency,
}
use shuriken.Build.Graph.Progress.{Edge, edge_added}
use shuriken.Build.Graph.Nodes.{node_at-update_node}
use mathlib.Core.Path.{subst}
use shuriken.Prelude.{
  nat_eq, refl, Bool, ◌<◌, true, length, false, inl, ◌∙◌, ◌∷◌, Bool-cases, ◌≡◌, inr, if◌then◌else◌,
  ◌==◌, arith, nat_beq_iff, ◌&&◌, [], length-set, ap, elem-append, elem, sym,
}
use shuriken.Build.Graph.Grown.{
  IsGrown, flag_of, is_built, none_apart, IsGrown-apart, IsGrown-trans,
}

module _ (plan : Plan) where
  -- A change of one node that keeps the dependents
  module _ (nodes : Nodes) (j : StepIndex) (f : StepNode → StepNode) (inside : j < length nodes)
      (dependents_kept : (f (node_at nodes j)).dependents ≡ (node_at nodes j).dependents) where
    abbrev changed : Nodes
    changed = update_node nodes j f

    at :
        (i : StepIndex)
        → node_at changed i ≡ (if j == i then f (node_at nodes i) else node_at nodes i)
    at i = node_at-update_node nodes j i f inside

    changed_dependents :
        (i : StepIndex) → (node_at changed i).dependents ≡ (node_at nodes i).dependents
    changed_dependents i = elim (Bool-cases (j == i)) [
      | inl e ↦
          let same : j ≡ i = ground (arith, nat_beq_iff j i) in
          let kept : (f (node_at nodes i)).dependents ≡ (node_at nodes i).dependents =
            subst (λ k. (f (node_at nodes k)).dependents ≡ (node_at nodes k).dependents) same
              dependents_kept in
          ground (arith, at i)
      | inr e ↦ ground (arith, at i)
    ]

  abbrev pub this : StepIndex → StepIndex → Bool
  this idx i = idx == i

  -- What a visit of a step does to its own flag, for the hashes that were looked up
  abbrev pub IsFound : StepIndex → Bool → Nodes → Nodes → Type 0
  IsFound idx known before after =
      IsGrown plan (this idx) before after × (flag_of after idx ≡ (flag_of before idx && known))

  pub IsFound-trans :
      (idx : StepIndex) (p q : Bool) (a b c : Nodes)
      → IsFound idx p a b
      → IsFound idx q b c
      → IsFound idx (p && q) a c
  IsFound-trans idx p q a b c (g, f) (h, k) =
      (IsGrown-trans plan (this idx) a b c g h, ground (arith, f, k))

  pub IsGrown-IsFound :
      (idx : StepIndex) (a b : Nodes)
      → is_built a idx ≡ true
      → IsGrown plan none_apart a b
      → IsFound idx true a b
  IsGrown-IsFound idx a b built p =
      let kept = p.old idx refl built in (IsGrown-apart plan (this idx) a b p, ground (arith, kept))

  pub edge_added-IsGrown :
      (nodes : Nodes) (idx d : StepIndex)
      → idx < length nodes
      → d < length nodes
      → Edge plan idx d
      → IsGrown plan none_apart nodes (edge_added nodes idx d)
  edge_added-IsGrown nodes idx d in_idx in_d edge = record {
    size = length-set half idx _ ∙ length-set nodes d _;
    grows = λ i h. ground (arith, first i, second i);
    old = λ i a b. ground (arith, first i, second i);
    fresh = λ i a b c h. absurd (ground (arith, first i, second i));
    rest = λ i h. ground (arith, first i, second i);
    edges = λ i e h. elim (Bool-cases (d == e)) [
      | inr other ↦ inl (ground (arith, first e, second e))
      | inl same ↦ elim (Bool-cases (idx == i)) [
        | inl mine ↦
            let same_d : d ≡ e = ground (arith, nat_beq_iff d e) in
            let same_i : idx ≡ i = ground (arith, nat_beq_iff idx i) in
            inr (subst (λ x. Edge plan i x) same_d (subst (λ x. Edge plan x d) same_i edge))
        | inr other ↦ inl (
            ground
              (arith, first e, second e, elem-append i (node_at nodes e).dependents (idx ∷ [])))
      ]
    ];
  }
    where
      half : Nodes
      half = update_node nodes d (add_dependent idx)

      in_half : idx < length half
      in_half = rw length-set in_idx

      first :
          (i : StepIndex)
          → node_at half i
            ≡ (if d == i then add_dependent idx (node_at nodes i) else node_at nodes i)
      first i = node_at-update_node nodes d i (add_dependent idx) in_d

      second :
          (i : StepIndex)
          → node_at (edge_added nodes idx d) i
            ≡ (if idx == i then count_dependency (node_at half i) else node_at half i)
      second i = node_at-update_node half idx i count_dependency in_half

  pub begun-IsFound :
      (nodes : Nodes) (idx : StepIndex)
      → idx < length nodes
      → IsFound idx true nodes (update_node nodes idx begin_visit)
        × (is_built (update_node nodes idx begin_visit) idx ≡ true)
  begun-IsFound nodes idx inside = (
    (
      record {
        size = length-set nodes idx _;
        grows = λ i h. ground (arith, at nodes idx begin_visit inside refl i);
        old = λ i s h. ground (arith, at nodes idx begin_visit inside refl i);
        fresh = λ i s u v h. absurd (ground (arith, at nodes idx begin_visit inside refl i));
        rest = λ i h. ground (arith, at nodes idx begin_visit inside refl i);
        edges = λ i d h.
            inl (ap (elem i) (sym (changed_dependents nodes idx begin_visit inside refl d)) ∙ h);
      },
      ground (arith, at nodes idx begin_visit inside refl idx, nat_beq_iff idx idx),
    ),
    ground (arith, at nodes idx begin_visit inside refl idx, nat_beq_iff idx idx),
  )

  pub ended-IsGrown :
      (nodes : Nodes) (idx : StepIndex)
      → idx < length nodes
      → IsGrown plan none_apart nodes (update_node nodes idx end_visit)
  ended-IsGrown nodes idx inside = record {
    size = length-set nodes idx _;
    grows = λ i h. ground (arith, at nodes idx end_visit inside refl i);
    old = λ i s h. ground (arith, at nodes idx end_visit inside refl i);
    fresh = λ i s u v h. absurd (ground (arith, at nodes idx end_visit inside refl i));
    rest = λ i h. ground (arith, at nodes idx end_visit inside refl i);
    edges =
        λ i d h. inl (ap (elem i) (sym (changed_dependents nodes idx end_visit inside refl d)) ∙ h);
  }

  pub forgotten-IsFound :
      (nodes : Nodes) (idx : StepIndex)
      → idx < length nodes
      → is_built nodes idx ≡ true
      → IsFound idx false nodes (update_node nodes idx forget_direct)
  forgotten-IsFound nodes idx inside built = (
    record {
      size = length-set nodes idx _;
      grows = λ i h. ground (arith, at nodes idx forget_direct inside refl i);
      old = λ i s h. ground (arith, at nodes idx forget_direct inside refl i);
      fresh = λ i s u v h. absurd (ground (arith, at nodes idx forget_direct inside refl i));
      rest = λ i h. elim (Bool-cases (idx == i)) [
        | inl e ↦
            let same : idx ≡ i = ground (arith, nat_beq_iff idx i) in
            let built_i : is_built nodes i ≡ true =
              subst (λ k. is_built nodes k ≡ true) same built in
            absurd (ground (arith, at nodes idx forget_direct inside refl i))
        | inr e ↦ ground (arith, at nodes idx forget_direct inside refl i)
      ];
      edges = λ i d h.
          inl (ap (elem i) (sym (changed_dependents nodes idx forget_direct inside refl d)) ∙ h);
    },
    ground (arith, at nodes idx forget_direct inside refl idx, nat_beq_iff idx idx),
  )
