-- ===== src/Build/Graph/Progress.antt =====
-- What a part of the traversal does to the nodes, and what each change of a node adds to that.
use mathlib.Core.Logic.{⊎_elim}
use mathlib.Core.Path.{subst}
use shuriken.Build.Graph.Nodes.{
  edges_to, unbuilt, node_at-update_node, unbuilt-set, edges_to-set, count-append,
}
use shuriken.Prelude.{
  Bool, elem, ◌≡◌, arith, ◌∙◌, ◌<◌, true, false, inl, length-set, ◌⊎◌, sym, ◌≤◌, some, nat_eq, refl,
  inr, ◌+◌, if◌then◌else◌, ◌==◌, ◌∷◌, [], elem-append, Bool-cases,
}
use shuriken.Build.Graph.{
  Plan, Nodes, StepIndex, node_at, length, update_node, step_at, add_dependent, Hash,
  count_dependency, logged_dependencies, lookup, forget_direct,
}

pub data Edge (plan : Plan) (i d : StepIndex) : Type 0 where
  declared : elem d (step_at plan.steps i).dependencies ≡ true → Edge plan i d
  logged :
      (h : Hash)
      → elem h (logged_dependencies plan i) ≡ true
      → lookup h plan.step_indices ≡ some d
      → Edge plan i d

-- A path of one edge or more
pub data Walk (plan : Plan) (i : StepIndex) : StepIndex → Type 0 where
  one : {j : StepIndex} → Edge plan i j → Walk plan i j
  more : {j k : StepIndex} → Walk plan i j → Edge plan j k → Walk plan i k

pub Walk-cons : {plan : Plan} {i j k : StepIndex} → Edge plan i j → Walk plan j k → Walk plan i k
Walk-cons e (one e') = more (one e) e'
Walk-cons e (more w e') = more (Walk-cons e w) e'

abbrev pub Reached : Plan → StepIndex → StepIndex → Type 0
Reached plan i j = (i ≡ j) ⊎ Walk plan i j

abbrev pub IsBuilt : Nodes → StepIndex → Type 0
IsBuilt nodes i = (node_at nodes i).should_build ≡ true

abbrev pub visiting : Nodes → StepIndex → Bool
visiting nodes i = (node_at nodes i).currently_visited

abbrev pub IsDependent : Nodes → StepIndex → StepIndex → Type 0
IsDependent nodes i d = elem i (node_at nodes d).dependents ≡ true

-- `d` is in the build, and knows of `i` as a dependent.
abbrev pub IsLinked : Nodes → StepIndex → StepIndex → Type 0
IsLinked nodes i d = IsBuilt nodes d × IsDependent nodes i d

-- A step whose visit is over is linked to all its dependencies.
abbrev pub IsClosed : Plan → Nodes → Type 0
IsClosed plan nodes =
    (i d : StepIndex)
    → IsBuilt nodes i
    → visiting nodes i ≡ false
    → Edge plan i d
    → IsLinked nodes i d

-- The counter of each step is the number of edges into it.
abbrev pub IsBalanced : Nodes → Type 0
IsBalanced nodes = (i : StepIndex) → (node_at nodes i).dependencies ≡ edges_to i nodes

-- Every dependent is in the build.
abbrev pub HasBuiltDependents : Nodes → Type 0
HasBuiltDependents nodes = (i d : StepIndex) → IsDependent nodes i d → IsBuilt nodes i

pub record Progress (plan : Plan) (R : StepIndex → Type 0) (before after : Nodes) : Type 0 where
  pub size : length after ≡ length before
  pub work : unbuilt after ≤ unbuilt before
  pub monotone : (i : StepIndex) → IsBuilt before i → IsBuilt after i
  pub same_visiting : (i : StepIndex) → visiting after i ≡ visiting before i
  pub sound : (i : StepIndex) → IsBuilt after i → IsBuilt before i ⊎ R i
  pub keeps : (i d : StepIndex) → IsDependent before i d → IsDependent after i d
  pub closed : IsClosed plan before → IsClosed plan after
  pub balanced : IsBalanced before → IsBalanced after
  pub dependents_built : HasBuiltDependents before → HasBuiltDependents after

module _ {plan : Plan} (R : StepIndex → Type 0) where
  pub Progress-refl : (nodes : Nodes) → Progress plan R nodes nodes
  Progress-refl nodes = record {
    size = refl;
    work = omega arith;
    monotone = λ i b. b;
    same_visiting = λ i. refl;
    sound = λ i b. inl b;
    keeps = λ i d e. e;
    closed = λ c. c;
    balanced = λ b. b;
    dependents_built = λ b. b;
  }

  pub Progress-trans :
      {a b c : Nodes} → Progress plan R a b → Progress plan R b c → Progress plan R a c
  Progress-trans p q = record {
    size = q.size ∙ p.size;
    work = omega (arith, p.work, q.work);
    monotone = λ i b. q.monotone i (p.monotone i b);
    same_visiting = λ i. q.same_visiting i ∙ p.same_visiting i;
    sound = λ i b. ⊎_elim (p.sound i) inr (q.sound i b);
    keeps = λ i d e. q.keeps i d (p.keeps i d e);
    closed = λ c. q.closed (p.closed c);
    balanced = λ b. q.balanced (p.balanced b);
    dependents_built = λ b. q.dependents_built (p.dependents_built b);
  }

pub Progress-weaken :
    {plan : Plan} {R S : StepIndex → Type 0} {a b : Nodes}
    → ((i : StepIndex) → R i → S i)
    → Progress plan R a b
    → Progress plan S a b
Progress-weaken f p = record {
  size = p.size;
  work = p.work;
  monotone = p.monotone;
  same_visiting = p.same_visiting;
  sound = λ i b. ⊎_elim inl (λ r. inr (f i r)) (p.sound i b);
  keeps = p.keeps;
  closed = p.closed;
  balanced = p.balanced;
  dependents_built = p.dependents_built;
}

-- The two changes that record an edge
module _ (nodes : Nodes) (idx d : StepIndex) where
  abbrev half_added : Nodes
  half_added = update_node nodes d (add_dependent idx)

  abbrev pub edge_added : Nodes
  edge_added = update_node half_added idx count_dependency

  module _ (in_idx : idx < length nodes) (in_d : d < length nodes) where
    in_half : idx < length half_added
    in_half = rw length-set in_idx

    built-edge_added :
        (i : StepIndex) → (node_at edge_added i).should_build ≡ (node_at nodes i).should_build
    built-edge_added i = ground (
      arith,
      node_at-update_node half_added idx i count_dependency in_half,
      node_at-update_node nodes d i (add_dependent idx) in_d,
    )

    visiting-edge_added : (i : StepIndex) → visiting edge_added i ≡ visiting nodes i
    visiting-edge_added i = ground (
      arith,
      node_at-update_node half_added idx i count_dependency in_half,
      node_at-update_node nodes d i (add_dependent idx) in_d,
    )

    keeps-edge_added : (i e : StepIndex) → IsDependent nodes i e → IsDependent edge_added i e
    keeps-edge_added i e h = ground (
      arith,
      node_at-update_node half_added idx e count_dependency in_half,
      node_at-update_node nodes d e (add_dependent idx) in_d,
      elem-append i (node_at nodes e).dependents (idx ∷ []),
    )

    pub IsDependent-edge_added : IsDependent edge_added idx d
    IsDependent-edge_added = ground (
      arith,
      node_at-update_node half_added idx d count_dependency in_half,
      node_at-update_node nodes d d (add_dependent idx) in_d,
      elem-append idx (node_at nodes d).dependents (idx ∷ []),
    )

    dependencies-edge_added :
        (i : StepIndex)
        → (node_at edge_added i).dependencies
          ≡ (node_at nodes i).dependencies + (if idx == i then 1 else 0)
    dependencies-edge_added i = ground (
      arith,
      node_at-update_node half_added idx i count_dependency in_half,
      node_at-update_node nodes d i (add_dependent idx) in_d,
    )

    edges_to-edge_added :
        (i : StepIndex) → edges_to i edge_added ≡ edges_to i nodes + (if idx == i then 1 else 0)
    edges_to-edge_added i = omega (
      arith,
      edges_to-set i half_added idx (count_dependency (node_at half_added idx)) in_half,
      edges_to-set i nodes d (add_dependent idx (node_at nodes d)) in_d,
      count-append i (node_at nodes d).dependents (idx ∷ []),
    )

    unbuilt-edge_added : unbuilt edge_added ≡ unbuilt nodes
    unbuilt-edge_added = omega (
      arith,
      unbuilt-set half_added idx (count_dependency (node_at half_added idx)) in_half,
      unbuilt-set nodes d (add_dependent idx (node_at nodes d)) in_d,
    )

    dependents_built-edge_added :
        IsBuilt nodes idx → HasBuiltDependents nodes → HasBuiltDependents edge_added
    dependents_built-edge_added b old i e h = built-edge_added i ∙ elim (Bool-cases (idx == i)) [
      | inl q ↦ let same : idx ≡ i = ground arith in subst (IsBuilt nodes) same b
      | inr q ↦ old i e (
          ground (
            arith,
            node_at-update_node half_added idx e count_dependency in_half,
            node_at-update_node nodes d e (add_dependent idx) in_d,
            elem-append i (node_at nodes e).dependents (idx ∷ []),
          ))
    ]

    pub add_edge-Progress :
        (plan : Plan) (R : StepIndex → Type 0)
        → IsBuilt nodes idx
        → Progress plan R nodes edge_added
    add_edge-Progress plan R here = record {
      size = rw (length-set, length-set);
      work = omega (arith, unbuilt-edge_added);
      monotone = λ i b. built-edge_added i ∙ b;
      same_visiting = visiting-edge_added;
      sound = λ i b. inl (sym (built-edge_added i) ∙ b);
      keeps = keeps-edge_added;
      closed = λ c i e b v g.
          let old = c i e (sym (built-edge_added i) ∙ b) (sym (visiting-edge_added i) ∙ v) g in
          (built-edge_added e ∙ old.0, keeps-edge_added i e old.1);
      balanced = λ b i. omega (arith, dependencies-edge_added i, edges_to-edge_added i, b i);
      dependents_built = dependents_built-edge_added here;
    }

-- A change that leaves all but `no_direct_dependencies_built` alone
module _ (plan : Plan) (R : StepIndex → Type 0) (nodes : Nodes) (idx : StepIndex) where
  module _ (inside : idx < length nodes) where
    pub forget_direct-Progress : Progress plan R nodes (update_node nodes idx forget_direct)
    forget_direct-Progress = record {
      size = rw length-set;
      work = omega (arith, unbuilt-set nodes idx (forget_direct (node_at nodes idx)) inside);
      monotone = λ i b. ground (arith, same i);
      same_visiting = λ i. ground (arith, same i);
      sound = λ i b. inl (ground (arith, same i));
      keeps = λ i e h. ground (arith, same e);
      closed = λ c i e b v g.
          let old = c i e (ground (arith, same i)) (ground (arith, same i)) g in
          (ground (arith, same e), ground (arith, same e));
      balanced = λ b i.
          ground (
            arith,
            same i,
            b i,
            edges_to-set i nodes idx (forget_direct (node_at nodes idx)) inside,
          );
      dependents_built =
          λ b i e h. let old = b i e (ground (arith, same e)) in ground (arith, same i);
    }
      where
        same :
            (i : StepIndex)
            → node_at (update_node nodes idx forget_direct) i
              ≡ (if idx == i then forget_direct (node_at nodes i) else node_at nodes i)
        same i = node_at-update_node nodes idx i forget_direct inside
