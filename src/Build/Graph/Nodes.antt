-- ===== src/Build/Graph/Nodes.antt =====
-- Reading nodes after a change, and two counts over all nodes.
use shuriken.Prelude.{
  ℕ, List, ◌∷◌, ◌<◌, if◌then◌else◌, ◌==◌, ◌++◌, ◌+◌, ◌≡◌, [], arith, suc, nat_eq, Bool-cases, zero,
  inl, refl, get_or-set_self, inr, ◌≢◌, get_or-set_ne, ◌≤◌, Bool, ◌&&◌, nat_beq, false, true,
}
use shuriken.Build.Data.{StepIndex}
use shuriken.Build.Graph.{
  Nodes, StepNode, replicate, length, new_node, node_at, set, update_node, ready_from,
  compute_ready_steps,
}

pub node_at-update_node :
    (nodes : Nodes) (i j : StepIndex) (f : StepNode → StepNode)
    → i < length nodes
    → node_at (update_node nodes i f) j ≡ (if i == j then f (node_at nodes j) else node_at nodes j)
node_at-update_node nodes i j f h = elim (Bool-cases (i == j)) [
  | inl e ↦
      let same : i ≡ j = ground arith in
      rw e (rw (← same) (get_or-set_self nodes i (f (node_at nodes i)) new_node h))
  | inr e ↦
      let ne : i ≢ j = ground arith in
      rw e (get_or-set_ne nodes i j (f (node_at nodes i)) new_node ne)
]

abbrev pub count : StepIndex → List StepIndex → ℕ
count i [] = 0
count i (j ∷ js) = (if j == i then 1 else 0) + count i js

pub count-append :
    (i : StepIndex) (xs ys : List StepIndex) → count i (xs ++ ys) ≡ count i xs + count i ys
count-append i [] ys = omega arith
count-append i (x ∷ xs) ys = omega (arith, count-append i xs ys)

-- The edges into a step: how often the step stands in the `dependents` of all nodes.
abbrev pub edges_to : StepIndex → Nodes → ℕ
edges_to i [] = 0
edges_to i (n ∷ ns) = count i n.dependents + edges_to i ns

pub edges_to-set :
    (i : StepIndex) (nodes : Nodes) (j : StepIndex) (n : StepNode)
    → j < length nodes
    → edges_to i (set nodes j n) + count i (node_at nodes j).dependents
      ≡ edges_to i nodes + count i n.dependents
edges_to-set i [] j n h = absurd (omega arith)
edges_to-set i (m ∷ ms) zero n h = omega arith
edges_to-set i (m ∷ ms) (suc j) n h = omega (arith, edges_to-set i ms j n (omega arith))

-- The sum of all counters
abbrev pub all_dependencies : Nodes → ℕ
all_dependencies [] = 0
all_dependencies (n ∷ ns) = n.dependencies + all_dependencies ns

pub all_dependencies-set :
    (nodes : Nodes) (j : StepIndex) (n : StepNode)
    → j < length nodes
    → all_dependencies (set nodes j n) + (node_at nodes j).dependencies
      ≡ all_dependencies nodes + n.dependencies
all_dependencies-set [] j n h = absurd (omega arith)
all_dependencies-set (m ∷ ms) zero n h = omega arith
all_dependencies-set (m ∷ ms) (suc j) n h = omega (arith, all_dependencies-set ms j n (omega arith))

-- The nodes that the traversal has not reached yet.
abbrev pub unbuilt : Nodes → ℕ
unbuilt [] = 0
unbuilt (n ∷ ns) = (if n.should_build then 0 else 1) + unbuilt ns

abbrev built_count : StepNode → ℕ
built_count n = if n.should_build then 0 else 1

pub unbuilt-set :
    (nodes : Nodes) (j : StepIndex) (n : StepNode)
    → j < length nodes
    → unbuilt (set nodes j n) + built_count (node_at nodes j) ≡ unbuilt nodes + built_count n
unbuilt-set [] j n h = absurd (omega arith)
unbuilt-set (m ∷ ms) zero n h = omega arith
unbuilt-set (m ∷ ms) (suc j) n h = omega (arith, unbuilt-set ms j n (omega arith))

pub unbuilt-le-length : (nodes : Nodes) → unbuilt nodes ≤ length nodes
unbuilt-le-length [] = omega arith
unbuilt-le-length (n ∷ ns) = ground (arith, unbuilt-le-length ns)

pub edges_to-replicate : (i : StepIndex) (n : ℕ) → edges_to i (replicate n new_node) ≡ 0
edges_to-replicate i zero = refl
edges_to-replicate i (suc n) = omega (arith, edges_to-replicate i n)

-- `computeReadySteps`
abbrev pub is_ready : StepNode → Bool
is_ready n = n.should_build && nat_beq n.dependencies 0

abbrev pub to_number : Bool → ℕ
to_number true = 1
to_number false = 0

ready_from-below : (i k : ℕ) (nodes : Nodes) → i < k → count i (ready_from k nodes) ≡ 0
unfolding ready_from
ready_from-below i k [] h = refl
ready_from-below i k (n ∷ ns) h = ground (arith, ready_from-below i (k + 1) ns)

count-ready_from :
    (i k j : ℕ) (nodes : Nodes)
    → i ≡ k + j
    → count i (ready_from k nodes) ≡ to_number (is_ready (node_at nodes j))
unfolding ready_from
count-ready_from i k j [] h = refl
count-ready_from i k zero (n ∷ ns) h = ground (arith, ready_from-below i (k + 1) ns)
count-ready_from i k (suc j) (n ∷ ns) h = ground (arith, count-ready_from i (k + 1) j ns)

-- A step is ready, once, if and only if it is in the build and waits for nothing.
pub count-compute_ready_steps :
    (i : StepIndex) (nodes : Nodes)
    → count i (compute_ready_steps nodes) ≡ to_number (is_ready (node_at nodes i))
unfolding compute_ready_steps
count-compute_ready_steps i nodes = count-ready_from i 0 i nodes (omega arith)
