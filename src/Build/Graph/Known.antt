-- ===== src/Build/Graph/Known.antt =====
-- About `Build::construct` of build.cpp: the flags of a graph that was constructed.
use mathlib.Core.Logic.{⊎_elim}
use mathlib.Core.Path.{subst}
use shuriken.Build.Data.{StepIndex, Step, Invocations}
use shuriken.Build.Graph.Grown.{IsGrown, Results, none_apart, flag_of, is_built, knows}
use shuriken.Build.Graph.{
  ◌>>=◌, Plan, Nodes, Outcome, done, failed, out_of_fuel, Build, node_at, visit_steps, construct,
  new_node, make_plan, compute_ready_steps, StepNode,
}
use shuriken.Build.Graph.Progress.{Edge, IsDependent}
use shuriken.Build.Graph.Visit.{IsInRange}
use shuriken.Prelude.{
  nat_eq, refl, ℕ, length, ◌<◌, List, ◌≡◌, true, [], All, replicate, get_or-replicate, ap,
  length-replicate,
}
use shuriken.Build.Graph.Grows.{visit_steps-IsGrown}

-- The flags and the dependents of a graph that was constructed
pub record IsKnown (plan : Plan) (nodes : Nodes) : Type 0 where
  pub flags : (i : StepIndex) → is_built nodes i ≡ true → flag_of nodes i ≡ knows plan i
  pub edges : (i d : StepIndex) → IsDependent nodes i d → Edge plan i d

pub construct-IsKnown :
    (steps : List Step) (invocations : Invocations) (failures_allowed : ℕ)
    (targets : List StepIndex) (build : Build)
    → IsInRange (make_plan steps invocations) (length steps)
    → All (λ t. t < length steps) targets
    → construct steps invocations failures_allowed targets ≡ done build
    → IsKnown (make_plan steps invocations) build.step_nodes
unfolding construct
construct-IsKnown steps invocations failures_allowed targets build in_range inside e =
    subst Known e (
      go (visit_steps plan targets start) (
        visit_steps-IsGrown plan (length steps) in_range targets start inside
          (length-replicate (length steps) new_node)))
  where
    plan : Plan
    plan = make_plan steps invocations

    start : Nodes
    start = replicate (length steps) new_node

    blank : (i : StepIndex) → node_at start i ≡ new_node
    blank i = get_or-replicate (length steps) i new_node

    Known : Outcome Build → Type 0
    Known o = elim o [
      | done b ↦ IsKnown plan b.step_nodes
      | failed e ↦ Unit {0}
      | out_of_fuel ↦ Unit {0}
    ]

    known_nodes : (nodes : Nodes) → IsGrown plan none_apart start nodes → IsKnown plan nodes
    known_nodes nodes g = record {
      flags = λ i h.
          g.fresh i refl (ap (λ (n : StepNode). n.should_build) (blank i)) h
            (ap (λ (n : StepNode). n.no_direct_dependencies_built) (blank i));
      edges = λ i d h. ⊎_elim (λ old. absurd (cc (old, blank d))) (λ edge. edge) (g.edges i d h);
    }

    go :
        (o : Outcome Nodes)
        → Results plan (IsGrown plan none_apart start) o
        → Known (
            o >>= λ nodes. done (record {
              step_nodes = nodes;
              ready_steps = compute_ready_steps nodes;
              remaining_failures = failures_allowed;
              invoked_commands = 0;
              written_files = [];
              output_files = [];
            }))
    go (done nodes) g = known_nodes nodes g
    go (failed e) g = tt
    go out_of_fuel g = tt
