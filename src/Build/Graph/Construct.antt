-- ===== src/Build/Graph/Construct.antt =====
-- About `Build::construct` of build.cpp.
use mathlib.Core.Logic.{⊎_elim}
use mathlib.Core.Path.{subst}
use shuriken.Build.Graph.Nodes.{
  unbuilt-le-length, edges_to-replicate, is_ready, count-compute_ready_steps, count, to_number,
}
use shuriken.Build.Graph.Progress.{
  Progress, IsClosed, visiting, Reached, IsBuilt, Edge, Walk, IsDependent, Progress-refl, one,
  IsBalanced, more, Progress-trans, Progress-weaken, HasBuiltDependents,
}
use shuriken.Build.Graph.Visit.{
  IsInRange, Ensures, Ensures-bind, Visited, visit_step-IsVisit, Ensures-weaken, HasCycle,
}
use shuriken.Build.Data.{StepIndex, Step, Invocations}
use shuriken.Prelude.{
  List, ℕ, length, elem, All, replicate, ◌≡◌, true, ◌<◌, false, get_or-replicate, nat_eq, ◌∙◌, ◌∷◌,
  ap, length-replicate, suc, arith, [], Bool-cases, ◌==◌, inl, inr, refl,
}
use shuriken.Build.Graph.{
  Plan, visit_steps, Nodes, new_node, node_at, StepNode, visit_step, Outcome, construct, Build,
  done, make_plan, compute_ready_steps, failed, dependency_cycle, ◌>>=◌, out_of_fuel,
}

-- A step to build, or one that a step to build depends on, over any number of edges
abbrev pub IsWanted : Plan → List StepIndex → StepIndex → Type 0
IsWanted plan targets i = (t : StepIndex) × (elem t targets ≡ true) × Reached plan t i

pub record IsGraphOf (plan : Plan) (targets : List StepIndex) (nodes : Nodes) : Type 0 where
  pub size : length nodes ≡ length plan.steps
  pub idle : (i : StepIndex) → visiting nodes i ≡ false
  pub sound : (i : StepIndex) → IsBuilt nodes i → IsWanted plan targets i
  pub complete : (i : StepIndex) → IsWanted plan targets i → IsBuilt nodes i
  pub linked : (i d : StepIndex) → IsBuilt nodes i → Edge plan i d → IsDependent nodes i d
  pub balanced : IsBalanced nodes
  pub dependents_built : HasBuiltDependents nodes

module _ (plan : Plan) where
  abbrev size : ℕ
  size = length plan.steps

  abbrev Toward : List StepIndex → Nodes → Nodes → Type 0
  Toward targets before after =
      Progress plan (IsWanted plan targets) before after
      × ((t : StepIndex) → elem t targets ≡ true → IsBuilt after t)

  visit_steps-Ensures :
      IsInRange plan size
      → (targets : List StepIndex) (nodes : Nodes) → All (λ t. t < size) targets
      → length nodes ≡ size
      → ((i : StepIndex) → visiting nodes i ≡ false)
      → Ensures plan (Toward targets nodes) (visit_steps plan targets nodes)
  unfolding visit_steps
  visit_steps-Ensures in_range [] nodes inside same idle =
      (Progress-refl _ nodes, λ t e. absurd (cc))
  visit_steps-Ensures in_range (t ∷ ts) nodes inside same idle =
      Ensures-bind plan (Visited plan size nodes t) _ (visit_step plan (suc size) nodes t) _
        (visit_step-IsVisit plan size in_range (suc size) nodes t same inside.0
          (omega (arith, unbuilt-le-length nodes)) (λ i v. absurd (ground (arith, idle i))))
        (λ a v.
          Ensures-weaken plan (Toward ts a) _ (visit_steps plan ts a)
            (λ b w. (
              Progress-trans _ (Progress-weaken (λ i r. (t, ground arith, r)) v.0)
                  (Progress-weaken (λ i (u, e, r). (u, ground arith, r)) w.0),
              λ u e. elim (Bool-cases (t == u)) [
                | inl q ↦
                    let same_step : t ≡ u = ground arith in
                    w.0.monotone u (subst (IsBuilt a) same_step v.1)
                | inr q ↦ w.1 u (ground arith)
              ],
            ))
            (visit_steps-Ensures in_range ts a inside.1 (v.0.size ∙ same)
              (λ i. v.0.same_visiting i ∙ idle i)))

  closed-Walk :
      (nodes : Nodes) {i j : StepIndex}
      → IsClosed plan nodes
      → ((k : StepIndex) → visiting nodes k ≡ false)
      → IsBuilt nodes i
      → Walk plan i j
      → IsBuilt nodes j
  closed-Walk nodes {i = i} c idle b (one {j} e) = (c i j b (idle i) e).0
  closed-Walk nodes c idle b (more {j} {k} w e) =
      (c j k (closed-Walk nodes c idle b w) (idle j) e).0

  Toward-IsGraphOf :
      (targets : List StepIndex) (nodes : Nodes)
      → Toward targets (replicate size new_node) nodes
      → IsGraphOf plan targets nodes
  Toward-IsGraphOf targets nodes (p, b) = record {
    size = p.size ∙ length-replicate size new_node;
    idle = idle;
    sound = λ i h. ⊎_elim (λ old. absurd (cc (old, fresh i))) (λ w. w) (p.sound i h);
    complete = λ i (t, e, r).
        ⊎_elim (λ same. subst (IsBuilt nodes) same (b t e))
          (λ w. closed-Walk nodes closed idle (b t e) w) r;
    linked = λ i d h e. (closed i d h (idle i) e).1;
    balanced = p.balanced (λ i. cc (fresh i, edges_to-replicate i size));
    dependents_built = p.dependents_built (λ i d h. absurd (cc (h, fresh d)));
  }
    where
      fresh : (i : StepIndex) → node_at (replicate size new_node) i ≡ new_node
      fresh i = get_or-replicate size i new_node

      idle : (i : StepIndex) → visiting nodes i ≡ false
      idle i = p.same_visiting i ∙ ap (λ (n : StepNode). n.currently_visited) (fresh i)

      closed : IsClosed plan nodes
      closed = p.closed (λ i d h v e. absurd (cc (h, fresh i)))

-- What `construct` promises: never out of fuel.
abbrev pub IsConstructed : Plan → List StepIndex → Outcome Build → Type 0
IsConstructed plan targets (done build) =
    IsGraphOf plan targets build.step_nodes
    × ((i : StepIndex)
        → count i build.ready_steps ≡ to_number (is_ready (node_at build.step_nodes i)))
IsConstructed plan targets (failed e) = (e ≡ dependency_cycle) × HasCycle plan
IsConstructed plan targets out_of_fuel = ⊥

-- Where all dependencies and all targets are indices of steps, construction ends. If it succeeds,
-- the steps in the build are exactly the targets and what they depend on, declared or logged; each
-- is a dependent of all that it depends on; every dependent is in the build; the counter of each is
-- the number of edges into it; no visit is open; and the ready steps are exactly the steps of the
-- build whose counter is 0, each once. If it throws, the error is a dependency cycle and there is
-- one.
pub construct_correct :
    (steps : List Step) (invocations : Invocations) (failures_allowed : ℕ)
    (targets : List StepIndex)
    → IsInRange (make_plan steps invocations) (length steps)
    → All (λ t. t < length steps) targets
    → IsConstructed
        (make_plan steps invocations)
        targets
        (construct steps invocations failures_allowed targets)
unfolding construct
construct_correct steps invocations failures_allowed targets in_range inside = go _ (
    visit_steps-Ensures plan in_range targets start inside (length-replicate n new_node)
      (λ i. ap (λ (n : StepNode). n.currently_visited) (get_or-replicate n i new_node)))
  where
    n : ℕ
    n = length steps

    plan : Plan
    plan = make_plan steps invocations

    start : Nodes
    start = replicate n new_node

    finish : Nodes → Outcome Build
    finish nodes = done (record {
      step_nodes = nodes;
      ready_steps = compute_ready_steps nodes;
      remaining_failures = failures_allowed;
      invoked_commands = 0;
      written_files = [];
      output_files = [];
    })

    go :
        (m : Outcome Nodes)
        → Ensures plan (Toward plan targets start) m
        → IsConstructed plan targets (m >>= finish)
    go (done nodes) t =
        (Toward-IsGraphOf plan targets nodes t, λ i. count-compute_ready_steps i nodes)
    go (failed e) t = t
    go out_of_fuel t = t

pub construct-remaining_failures :
    (steps : List Step) (invocations : Invocations) (failures_allowed : ℕ)
    (targets : List StepIndex) (build : Build)
    → construct steps invocations failures_allowed targets ≡ done build
    → build.remaining_failures ≡ failures_allowed
unfolding construct
construct-remaining_failures steps invocations failures_allowed targets build e =
    subst Allowed e (go (visit_steps plan targets (replicate (length steps) new_node)))
  where
    plan : Plan
    plan = make_plan steps invocations

    Allowed : Outcome Build → Type 0
    Allowed o = elim o [
      | done b ↦ b.remaining_failures ≡ failures_allowed
      | failed e ↦ Unit {0}
      | out_of_fuel ↦ Unit {0}
    ]

    go :
        (o : Outcome Nodes)
        → Allowed (
            o >>= λ nodes. done (record {
              step_nodes = nodes;
              ready_steps = compute_ready_steps nodes;
              remaining_failures = failures_allowed;
              invoked_commands = 0;
              written_files = [];
              output_files = [];
            }))
    go (done nodes) = refl
    go (failed e) = tt
    go out_of_fuel = tt
