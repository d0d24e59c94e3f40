-- ===== src/Build/Ready/Mark.antt =====
-- About the loop over the dependents in `Build::markStepNodeAsDone` of build.cpp.
use mathlib.Core.Path.{subst}
use shuriken.Build.Graph.Nodes.{
  count, node_at-update_node, count-append, to_number, all_dependencies, all_dependencies-set,
}
use shuriken.Build.Data.{StepIndex}
use shuriken.Build.Ready.{Context, note_built, mark_dependents, discount}
use shuriken.Build.Graph.{Nodes, node_at, StepNode, update_node, done, Outcome}
use shuriken.Prelude.{
  Bool, List, ℕ, length, ◌<◌, arith, ◌≡◌, ◌∷◌, ◌+◌, if◌then◌else◌, ◌≤◌, ltb, suc, ◌==◌, nat_beq,
  ◌&&◌, ◌-◌, [], ◌++◌, zero, nat_eq, ◌∙◌, length-set, refl, Bool-cases, inl, inr, ap, length-append,
}

abbrev pub counter : Nodes → StepIndex → ℕ
counter nodes i = (node_at nodes i).dependencies

pub record IsMarked (ds : List StepIndex) (nodes : Nodes) (ready : List StepIndex) (nodes' : Nodes)
    (ready' : List StepIndex) : Type 0 where
  pub size : length nodes' ≡ length nodes
  pub total : all_dependencies nodes' + length ds ≡ all_dependencies nodes
  pub room : length ready' ≤ length ready + length ds
  pub counters : (i : StepIndex) → counter nodes' i + count i ds ≡ counter nodes i
  pub same_dependents :
      (i : StepIndex) → (node_at nodes' i).dependents ≡ (node_at nodes i).dependents
  pub same_built :
      (i : StepIndex) → (node_at nodes' i).should_build ≡ (node_at nodes i).should_build
  pub pushed :
      (i : StepIndex)
      → count i ready'
        ≡ count i ready + to_number (ltb 0 (count i ds) && nat_beq (counter nodes' i) 0)

-- A step outside the build has nothing to wait for.
pub lt-length_of_counter : (nodes : Nodes) (i : StepIndex) → 0 < counter nodes i → i < length nodes
lt-length_of_counter [] i h = absurd (omega arith)
lt-length_of_counter (n ∷ ns) zero h = omega arith
lt-length_of_counter (n ∷ ns) (suc i) h = omega (arith, lt-length_of_counter ns i h)

module _ (context : Context) (step : StepIndex) (skipped : Bool) where
  abbrev discounted : StepIndex → StepNode → StepNode
  discounted d n = discount (note_built context step skipped d n)

  discounted_fields :
      (d : StepIndex) (n : StepNode)
      → ((discounted d n).dependents ≡ n.dependents)
        × ((discounted d n).should_build ≡ n.should_build)
        × ((discounted d n).dependencies ≡ n.dependencies - 1)
  unfolding note_built
  discounted_fields d n = ground arith

  module _ (nodes : Nodes) (d : StepIndex) where
    abbrev lowered : Nodes
    lowered = update_node nodes d (discounted d)

    abbrev extended : List StepIndex → List StepIndex
    extended ready = if nat_beq (counter lowered d) 0 then ready ++ d ∷ [] else ready

    at_lowered :
        (i : StepIndex)
        → d < length nodes
        → ((node_at lowered i).dependents ≡ (node_at nodes i).dependents)
          × ((node_at lowered i).should_build ≡ (node_at nodes i).should_build)
          × (counter lowered i ≡ (if d == i then counter nodes i - 1 else counter nodes i))
    at_lowered i h = elim (Bool-cases (d == i)) [
      | inl e ↦
          let at : node_at lowered i ≡ discounted d (node_at nodes i) =
            node_at-update_node nodes d i (discounted d) h
            ∙ ap (λ b. if b then discounted d (node_at nodes i) else node_at nodes i) e in
          let fields = discounted_fields d (node_at nodes i) in
          (
            ap (λ (n : StepNode). n.dependents) at ∙ fields.0,
            ap (λ (n : StepNode). n.should_build) at ∙ fields.1,
            rw e (ap (λ (n : StepNode). n.dependencies) at ∙ fields.2),
          )
      | inr e ↦
          let at : node_at lowered i ≡ node_at nodes i =
            node_at-update_node nodes d i (discounted d) h
            ∙ ap (λ b. if b then discounted d (node_at nodes i) else node_at nodes i) e in
          (
            ap (λ (n : StepNode). n.dependents) at,
            ap (λ (n : StepNode). n.should_build) at,
            rw e (ap (λ (n : StepNode). n.dependencies) at),
          )
    ]

    count-extended :
        (i : StepIndex) (ready : List StepIndex)
        → count i (extended ready)
          ≡ count i ready + to_number (d == i && nat_beq (counter lowered i) 0)
    count-extended i ready = elim (Bool-cases (d == i)) [
      | inl e ↦
          let same : d ≡ i = ground arith in
          subst
            (λ (j : StepIndex).
              count j (extended ready)
              ≡ count j ready + to_number (d == j && nat_beq (counter lowered j) 0))
            same (ground (arith, count-append d ready (d ∷ [])))
      | inr e ↦ ground (arith, count-append i ready (d ∷ []))
    ]

    IsMarked-cons :
        (ds ready : List StepIndex) (nodes' : Nodes) (ready' : List StepIndex)
        → d < length nodes
        → 0 < counter nodes d
        → IsMarked ds lowered (extended ready) nodes' ready'
        → IsMarked (d ∷ ds) nodes ready nodes' ready'
    IsMarked-cons ds ready nodes' ready' inside positive m = record {
      size = m.size ∙ length-set nodes d _;
      total = ground (
        arith,
        m.total,
        all_dependencies-set nodes d (discounted d (node_at nodes d)) inside,
        (discounted_fields d (node_at nodes d)).2,
      );
      room = ground (arith, m.room, length-append ready (d ∷ []));
      counters = counters;
      same_dependents = λ i. m.same_dependents i ∙ (at_lowered i inside).0;
      same_built = λ i. m.same_built i ∙ (at_lowered i inside).1;
      pushed = λ i. ground (arith, m.pushed i, count-extended i ready, m.counters i);
    }
      where
        counters : (i : StepIndex) → counter nodes' i + count i (d ∷ ds) ≡ counter nodes i
        counters i = elim (Bool-cases (d == i)) [
          | inl e ↦
              let same : d ≡ i = ground arith in
              let pos : 0 < counter nodes i = subst (λ j. 0 < counter nodes j) same positive in
              ground (arith, m.counters i, (at_lowered i inside).2)
          | inr e ↦ ground (arith, m.counters i, (at_lowered i inside).2)
        ]

  pub mark_dependents-IsMarked :
      (ds : List StepIndex) (nodes : Nodes) (ready : List StepIndex)
      → ((i : StepIndex) → count i ds ≤ counter nodes i)
      → (nodes' : Nodes) × (ready' : List StepIndex) × (mark_dependents context step skipped ds
            nodes ready
          ≡ done (nodes', ready'))
        × IsMarked ds nodes ready nodes' ready'
  unfolding mark_dependents
  mark_dependents-IsMarked [] nodes ready h = (
    nodes,
    ready,
    refl,
    record {
      size = refl;
      total = omega arith;
      room = omega arith;
      counters = λ i. omega arith;
      same_dependents = λ i. refl;
      same_built = λ i. refl;
      pushed = λ i. omega arith;
    },
  )
  mark_dependents-IsMarked (d ∷ ds) nodes ready h =
      let positive : 0 < counter nodes d = ground (arith, h d) in
      let inside = lt-length_of_counter nodes d positive in
      let (nodes', ready', e, m) =
        mark_dependents-IsMarked ds (lowered nodes d) (extended nodes d ready)
          (λ i. ground (arith, h i, (at_lowered nodes d i inside).2)) in
      (
        nodes',
        ready',
        step_done positive e,
        IsMarked-cons nodes d ds ready nodes' ready' inside positive m,
      )
    where
      step_done :
          {r : Outcome (Nodes × List StepIndex)}
          → 0 < counter nodes d
          → mark_dependents context step skipped ds (lowered nodes d) (extended nodes d ready) ≡ r
          → mark_dependents context step skipped (d ∷ ds) nodes ready ≡ r
      step_done positive e = ground arith
