-- ===== src/Build/Graph/Grows.antt =====
-- About `visitStep` of build.cpp: what a visit does to the flags and the edges of all nodes.

use mathlib.Core.Path.{subst}
use shuriken.Prelude.Assoc.{lookup}
use shuriken.Fs.FileSystem.{Hash}
use shuriken.Build.Data.{StepIndex, step_at}
use shuriken.Build.Graph.Grown.{
  IsGrown, Results, Results-bind, Results-weaken, IsGrown-refl, IsGrown-trans, none_apart, flag_of,
  is_built, all_known, knows,
}
use shuriken.Build.Graph.Found.{
  IsFound, IsFound-trans, IsGrown-IsFound, edge_added-IsGrown, begun-IsFound, ended-IsGrown,
  forgotten-IsFound, this,
}
use shuriken.Build.Graph.{
  ◌>>=◌, Plan, Nodes, Outcome, done, node_at, update_node, add_dependency, add_dependencies,
  add_logged, visit_step, visit_steps, forget_direct, begin_visit, end_visit, logged_dependencies,
}
use shuriken.Build.Graph.Progress.{Edge, declared, logged, edge_added}
use shuriken.Build.Graph.Visit.{IsInRange}
use shuriken.Prelude.{
  nat_eq, zero, ℕ, length, ◌<◌, Bool, List, ◌≡◌, true, false, elem, Bool-cases, ◌∙◌, ◌∷◌, inl,
  arith, some, Option-cases, nat_beq_iff, [], inr, ◌&&◌, All, suc,
}

module _ (plan : Plan) (n : ℕ) (in_range : IsInRange plan n) where
  abbrev Grows : (Nodes → StepIndex → Outcome Nodes) → Type 0
  Grows visit =
      (nodes : Nodes) (idx : StepIndex)
      → length nodes ≡ n
      → idx < n
      → Results plan (IsGrown plan none_apart nodes) (visit nodes idx)

  module _ (visit : Nodes → StepIndex → Outcome Nodes) (grows : Grows visit) (idx : StepIndex)
      (inside : idx < n) where
    abbrev Finds : Bool → Nodes → Nodes → Type 0
    Finds = IsFound plan idx

    add_dependency-Finds :
        (nodes : Nodes) (d : StepIndex)
        → length nodes ≡ n
        → is_built nodes idx ≡ true
        → Edge plan idx d
        → Results plan (Finds true nodes) (add_dependency plan visit idx nodes d)
    unfolding add_dependency
    add_dependency-Finds nodes d size built edge =
        let in_idx : idx < length nodes = rw size inside in
        let in_d : d < length nodes = rw size (in_range idx d edge) in
        let added = edge_added-IsGrown plan nodes idx d in_idx in_d edge in
        Results-weaken plan (IsGrown plan none_apart (edge_added nodes idx d)) (Finds true nodes) _
          (λ after g.
            IsGrown-IsFound plan idx nodes after built
              (IsGrown-trans plan none_apart nodes (edge_added nodes idx d) after added g))
          (grows (edge_added nodes idx d) d (added.size ∙ size) (in_range idx d edge))

    add_dependencies-Finds :
        (ds : List StepIndex) (nodes : Nodes)
        → length nodes ≡ n
        → is_built nodes idx ≡ true
        → ((d : StepIndex) → elem d ds ≡ true → Edge plan idx d)
        → Results plan (Finds true nodes) (add_dependencies plan visit idx ds nodes)
    unfolding add_dependencies
    add_dependencies-Finds [] nodes size built edges =
        IsGrown-IsFound plan idx nodes nodes built (IsGrown-refl plan none_apart nodes)
    add_dependencies-Finds (d ∷ ds) nodes size built edges =
        Results-bind plan (Finds true nodes) (Finds true nodes)
          (add_dependency plan visit idx nodes d) (add_dependencies plan visit idx ds)
          (add_dependency-Finds nodes d size built (edges d (ground arith)))
          (λ a p.
            Results-weaken plan (Finds true a) (Finds true nodes) _
              (λ b q. IsFound-trans plan idx true true nodes a b p q)
              (add_dependencies-Finds ds a (p.0.size ∙ size) (p.0.grows idx built)
                (λ e h. edges e (ground arith))))

    add_logged-Finds :
        (hs : List Hash) (nodes : Nodes)
        → length nodes ≡ n
        → is_built nodes idx ≡ true
        → ((h : Hash) (d : StepIndex)
            → elem h hs ≡ true
            → lookup h plan.step_indices ≡ some d
            → Edge plan idx d)
        → Results plan (Finds (all_known plan hs) nodes) (add_logged plan visit idx hs nodes)
    unfolding add_logged
    add_logged-Finds [] nodes size built edges =
        IsGrown-IsFound plan idx nodes nodes built (IsGrown-refl plan none_apart nodes)
    add_logged-Finds (h ∷ hs) nodes size built edges =
        let more_edges =
          λ (k : Hash) (d : StepIndex) (e : elem k hs ≡ true)
              (l : lookup k plan.step_indices ≡ some d).
            edges k d (ground arith) l in
        elim (Option-cases (lookup h plan.step_indices)) [
          | inl unknown ↦
              let forgotten = forgotten-IsFound plan nodes idx (rw size inside) built in
              let next = update_node nodes idx forget_direct in
              rw (unknown, add_logged, all_known)
                (Results-weaken plan (Finds (all_known plan hs) next) (Finds false nodes) _
                  (λ b q. IsFound-trans plan idx false (all_known plan hs) nodes next b forgotten q)
                  (add_logged-Finds hs next (forgotten.0.size ∙ size) (forgotten.0.grows idx built)
                    more_edges))
          | inr (d, known) ↦
              rw (known, add_logged, all_known)
                (Results-bind plan (Finds true nodes) (Finds (all_known plan hs) nodes)
                  (add_dependency plan visit idx nodes d) (add_logged plan visit idx hs)
                  (add_dependency-Finds nodes d size built (edges h d (ground arith) known))
                  (λ a p.
                    Results-weaken plan (Finds (all_known plan hs) a)
                      (Finds (all_known plan hs) nodes) _
                      (λ b q. IsFound-trans plan idx true (all_known plan hs) nodes a b p q)
                      (add_logged-Finds hs a (p.0.size ∙ size) (p.0.grows idx built) more_edges)))
        ]

    -- A step that is new in the build has the flag that its hashes give it.
    IsFound-IsGrown :
        (before after : Nodes)
        → is_built before idx ≡ false
        → is_built after idx ≡ true
        → Finds (knows plan idx) before after
        → IsGrown plan none_apart before after
    IsFound-IsGrown before after new built (g, f) = record {
      size = g.size;
      grows = g.grows;
      old = λ i s h. elim (Bool-cases (this plan idx i)) [
        | inl e ↦
            let same : idx ≡ i = ground (arith, nat_beq_iff idx i) in
            absurd (cc (subst (λ k. is_built before k ≡ false) same new, h))
        | inr e ↦ g.old i e h
      ];
      fresh = λ i s u v h. elim (Bool-cases (this plan idx i)) [
        | inl e ↦
            let same : idx ≡ i = ground (arith, nat_beq_iff idx i) in
            let found = subst (λ k. flag_of after k ≡ (flag_of before k && knows plan k)) same f in
            ground (arith, found)
        | inr e ↦ g.fresh i e u v h
      ];
      rest = g.rest;
      edges = g.edges;
    }

    visit_new :
        (nodes : Nodes)
        → length nodes ≡ n
        → is_built nodes idx ≡ false
        → Results plan (IsGrown plan none_apart nodes) (
            add_dependencies plan visit idx
              (step_at plan.steps idx).dependencies
              (update_node nodes idx begin_visit)
            >>= λ m. add_logged plan visit idx (logged_dependencies plan idx) m >>= λ m.
                done (update_node m idx end_visit))
    visit_new nodes size new =
        let begun = update_node nodes idx begin_visit in
        let (b, built) = begun-IsFound plan nodes idx (rw size inside) in
        let deps = (step_at plan.steps idx).dependencies in
        let hashes = logged_dependencies plan idx in
        Results-bind plan (Finds true begun) (IsGrown plan none_apart nodes)
          (add_dependencies plan visit idx deps begun)
          (λ m. add_logged plan visit idx hashes m >>= λ m. done (update_node m idx end_visit))
          (add_dependencies-Finds deps begun (b.0.size ∙ size) built (λ d e. declared e))
          (λ a p.
            Results-bind plan (Finds (knows plan idx) a) (IsGrown plan none_apart nodes)
              (add_logged plan visit idx hashes a) (λ m. done (update_node m idx end_visit))
              (add_logged-Finds hashes a (p.0.size ∙ b.0.size ∙ size) (p.0.grows idx built)
                (λ h d e l. logged h e l))
              (λ c q.
                let found =
                  IsFound-trans plan idx true (knows plan idx) nodes begun c b
                    (IsFound-trans plan idx true (knows plan idx) begun a c p q) in
                let grown =
                  IsFound-IsGrown nodes c new (q.0.grows idx (p.0.grows idx built)) found in
                IsGrown-trans plan none_apart nodes c (update_node c idx end_visit) grown
                  (ended-IsGrown plan c idx (rw (grown.size ∙ size) inside))))

  visit_step-Grows : (fuel : ℕ) → Grows (visit_step plan fuel)
  unfolding visit_step
  visit_step-Grows zero nodes idx size inside = tt
  visit_step-Grows (suc fuel) nodes idx size inside =
      elim (Bool-cases (node_at nodes idx).currently_visited) [
        | inl visiting ↦ rw visiting tt
        | inr idle ↦ elim (Bool-cases (is_built nodes idx)) [
          | inl seen ↦ rw (idle, seen) (IsGrown-refl plan none_apart nodes)
          | inr new ↦
              rw (idle, new)
                (visit_new (visit_step plan fuel) (visit_step-Grows fuel) idx inside nodes size new)
        ]
      ]

  pub visit_steps-IsGrown :
      (targets : List StepIndex) (nodes : Nodes)
      → All (λ t. t < n) targets
      → length nodes ≡ n
      → Results plan (IsGrown plan none_apart nodes) (visit_steps plan targets nodes)
  unfolding visit_steps
  visit_steps-IsGrown [] nodes inside size = IsGrown-refl plan none_apart nodes
  visit_steps-IsGrown (t ∷ ts) nodes inside size =
      Results-bind plan (IsGrown plan none_apart nodes) (IsGrown plan none_apart nodes)
        (visit_step plan (suc (length plan.steps)) nodes t) (visit_steps plan ts)
        (visit_step-Grows (suc (length plan.steps)) nodes t size inside.0)
        (λ a p.
          Results-weaken plan (IsGrown plan none_apart a) (IsGrown plan none_apart nodes) _
            (λ b q. IsGrown-trans plan none_apart nodes a b p q)
            (visit_steps-IsGrown ts a inside.1 (p.size ∙ size)))
