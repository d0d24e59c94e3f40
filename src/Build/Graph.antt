-- ===== src/Build/Graph.antt =====
-- build.cpp: the nodes of a build and the depth-first traversal that fills them in.
pub mod Nodes
pub mod Progress
pub mod Around
pub mod Visit
pub mod Construct
pub mod Grown
pub mod Found
pub mod Grows
pub mod Known
pub mod Tests
use shuriken.Fs.FileId.{FileId}
use shuriken.Fs.FileSystem.{Hash}
use shuriken.Prelude.Assoc.{Assoc, insert, lookup}
use shuriken.Build.Data.{StepIndex, Step, Invocations, step_at}
use shuriken.Prelude.{
  List, [], ℕ, true, false, ◌+◌, Bool, get_or, set, ◌∷◌, suc, ◌++◌, length, if◌then◌else◌,
  replicate, nat_eq, ◌&&◌, none, zero, nat_beq, some,
}

pub record StepNode : Type 0 where
  pub dependents : List StepIndex
  pub dependencies : ℕ
  pub no_direct_dependencies_built : Bool
  pub should_build : Bool
  pub currently_visited : Bool

abbrev pub new_node : StepNode
new_node = record {
  dependents = [];
  dependencies = 0;
  no_direct_dependencies_built = true;
  should_build = false;
  currently_visited = false;
}

abbrev pub Nodes : Type 0
Nodes = List StepNode

abbrev pub node_at : Nodes → StepIndex → StepNode
node_at nodes i = get_or nodes i new_node

-- A change of `step_nodes[i]`
abbrev pub update_node : Nodes → StepIndex → (StepNode → StepNode) → Nodes
update_node nodes i f = set nodes i (f (node_at nodes i))

-- `Build`, less the references to the invocations and the steps
pub record Build : Type 0 where
  pub step_nodes : Nodes
  pub ready_steps : List StepIndex
  pub remaining_failures : ℕ
  pub invoked_commands : ℕ
  pub written_files : Assoc FileId Hash
  pub output_files : Assoc FileId StepIndex

pub data BuildError : Type 0 where
  dependency_cycle same_output no_roots internal assertion terminate : BuildError

-- `failed` is an exception. Recursion is on fuel, and `out_of_fuel` is no result of the program.
pub data Outcome {ℓ} (A : Type ℓ) : Type ℓ where
  done : A → Outcome A
  failed : BuildError → Outcome A
  out_of_fuel : Outcome A

infixl 5 ◌>>=◌
abbrev pub ◌>>=◌ {ℓ κ} : {A : Type ℓ} {B : Type κ} → Outcome A → (A → Outcome B) → Outcome B
done a >>= f = f a
failed e >>= f = failed e
out_of_fuel >>= f = out_of_fuel

-- The loop of `computeReadySteps` from index `i` on
pub ready_from : ℕ → Nodes → List StepIndex
ready_from i [] = []
ready_from i (n ∷ ns) =
    let rest = ready_from (i + 1) ns in
    if n.should_build && nat_beq n.dependencies 0 then i ∷ rest else rest

pub compute_ready_steps : Nodes → List StepIndex
unfolding ready_from
compute_ready_steps nodes = ready_from 0 nodes

-- `step_indices_map`: a later step with the same hash replaces an earlier one.
unfoldable pub step_indices_from : ℕ → List Step → Assoc Hash StepIndex → Assoc Hash StepIndex
step_indices_from i [] m = m
step_indices_from i (s ∷ steps) m = step_indices_from (i + 1) steps (insert s.hash i m)

abbrev pub begin_visit : StepNode → StepNode
begin_visit n = record n { should_build = true; currently_visited = true }

abbrev pub end_visit : StepNode → StepNode
end_visit n = record n { currently_visited = false }

abbrev pub add_dependent : StepIndex → StepNode → StepNode
add_dependent i n = record n { dependents = n.dependents ++ i ∷ [] }

abbrev pub count_dependency : StepNode → StepNode
count_dependency n = record n { dependencies = n.dependencies + 1 }

abbrev pub forget_direct : StepNode → StepNode
forget_direct n = record n { no_direct_dependencies_built = false }

-- What `visitStep` reads and does not change
pub record Plan : Type 0 where
  pub steps : List Step
  pub step_indices : Assoc Hash StepIndex
  pub invocations : Invocations

-- The additional dependencies that the log has for a step
abbrev pub logged_dependencies : Plan → StepIndex → List Hash
logged_dependencies plan i = elim (lookup (step_at plan.steps i).hash plan.invocations.entries) [
  | none ↦ []
  | some entry ↦ entry.additional_dependencies
]

-- The lambda `add_dependency`; `visit` is the recursive call.
module _ (plan : Plan) (visit : Nodes → StepIndex → Outcome Nodes) (idx : StepIndex) where
  pub add_dependency : Nodes → StepIndex → Outcome Nodes
  add_dependency nodes d =
      visit (update_node (update_node nodes d (add_dependent idx)) idx count_dependency) d

  -- The loop over the dependencies of the manifest
  pub add_dependencies : List StepIndex → Nodes → Outcome Nodes
  add_dependencies [] nodes = done nodes
  add_dependencies (d ∷ ds) nodes = add_dependency nodes d >>= λ n. add_dependencies ds n

  -- The loop over the additional dependencies of the log
  pub add_logged : List Hash → Nodes → Outcome Nodes
  add_logged [] nodes = done nodes
  add_logged (h ∷ hs) nodes = elim (lookup h plan.step_indices) [
    | none ↦ add_logged hs (update_node nodes idx forget_direct)
    | some d ↦ add_dependency nodes d >>= λ n. add_logged hs n
  ]

pub visit_step : Plan → ℕ → Nodes → StepIndex → Outcome Nodes
visit_step plan zero nodes idx = out_of_fuel
visit_step plan (suc fuel) nodes idx =
    let next =
      add_dependencies plan (visit_step plan fuel) idx (step_at plan.steps idx).dependencies
        (update_node nodes idx begin_visit)
      >>= λ n. add_logged plan (visit_step plan fuel) idx (logged_dependencies plan idx) n >>= λ n.
          done (update_node n idx end_visit) in
    if (node_at nodes idx).currently_visited
    then failed dependency_cycle
    else if (node_at nodes idx).should_build
    then done nodes
    else next

-- The loop over `steps_to_build`. One more than the number of steps is enough fuel.
pub visit_steps : Plan → List StepIndex → Nodes → Outcome Nodes
visit_steps plan [] nodes = done nodes
visit_steps plan (i ∷ is) nodes =
    visit_step plan (suc (length plan.steps)) nodes i >>= λ n. visit_steps plan is n

abbrev pub make_plan : List Step → Invocations → Plan
make_plan steps invocations = record {
  steps = steps;
  step_indices = step_indices_from 0 steps [];
  invocations = invocations;
}

pub construct : List Step → Invocations → ℕ → List StepIndex → Outcome Build
construct steps invocations failures_allowed steps_to_build =
    visit_steps (make_plan steps invocations) steps_to_build (replicate (length steps) new_node)
    >>= λ nodes. done (record {
      step_nodes = nodes;
      ready_steps = compute_ready_steps nodes;
      remaining_failures = failures_allowed;
      invoked_commands = 0;
      written_files = [];
      output_files = [];
    })
