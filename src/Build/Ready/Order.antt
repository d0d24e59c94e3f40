-- ===== src/Build/Ready/Order.antt =====
-- The state of a running build: the counters of build.cpp, and which steps were started and
-- finished.
use mathlib.Core.Path.{subst}
use shuriken.Build.Graph.Progress.{Edge, IsBuilt, IsDependent, HasBuiltDependents}
use shuriken.Build.Graph.Nodes.{count, edges_to, to_number, is_ready, count-append}
use shuriken.Build.Graph.Construct.{IsGraphOf}
use shuriken.Build.Ready.Mark.{counter}
use shuriken.Prelude.{
  ℕ, Bool, List, ◌∷◌, false, elem, ◌||◌, ◌≡◌, ◌<◌, true, if◌then◌else◌, ◌==◌, ◌+◌, arith, nat_eq,
  ◌⊎◌, [], ◌≤◌, refl, Bool-cases, ◌&&◌, ◌∙◌, not, sym, suc, inl, inr, zero, unsnoc, some, ap,
  unsnoc-some, length,
}
use shuriken.Build.Graph.{Plan, Nodes, node_at}
use shuriken.Build.Data.{StepIndex}

-- The edges into a step from steps that are not finished; the first node has index `k`.
abbrev pub open_edges : (StepIndex → Bool) → ℕ → StepIndex → Nodes → ℕ
open_edges finished k i [] = 0
open_edges finished k i (n ∷ ns) =
    (if finished k then 0 else count i n.dependents) + open_edges finished (k + 1) i ns

abbrev pub with_step : (StepIndex → Bool) → StepIndex → StepIndex → Bool
with_step p s i = p i || s == i

-- The state of a running build. `started` are the steps that have left the ready steps, `finished`
-- those that have been marked as done.
pub record IsRun (plan : Plan) (started finished : StepIndex → Bool) (nodes : Nodes)
    (ready : List StepIndex) : Type 0 where
  pub all_nodes : length nodes ≡ length plan.steps
  pub waiting : (i : StepIndex) → counter nodes i ≡ open_edges finished 0 i nodes
  pub exact :
      (i : StepIndex) → count i ready ≡ to_number (is_ready (node_at nodes i) && not (started i))
  pub started_ready : (i : StepIndex) → started i ≡ true → is_ready (node_at nodes i) ≡ true
  pub finished_started : (i : StepIndex) → finished i ≡ true → started i ≡ true
  pub linked : (i d : StepIndex) → IsBuilt nodes i → Edge plan i d → IsDependent nodes i d
  pub dependents_built : HasBuiltDependents nodes

open_edges-none :
    (k : ℕ) (i : StepIndex) (nodes : Nodes) → open_edges (λ _. false) k i nodes ≡ edges_to i nodes
open_edges-none k i [] = refl
open_edges-none k i (n ∷ ns) = omega (arith, open_edges-none (k + 1) i ns)

-- A build that was constructed and has not begun
pub IsGraphOf-IsRun :
    (plan : Plan) (targets : List StepIndex) (nodes : Nodes) (ready : List StepIndex)
    → IsGraphOf plan targets nodes
    → ((i : StepIndex) → count i ready ≡ to_number (is_ready (node_at nodes i)))
    → IsRun plan (λ _. false) (λ _. false) nodes ready
IsGraphOf-IsRun plan targets nodes ready g r = record {
  all_nodes = g.size;
  waiting = λ i. g.balanced i ∙ sym (open_edges-none 0 i nodes);
  exact = λ i. ground (arith, r i);
  started_ready = λ i h. absurd (cc);
  finished_started = λ i h. h;
  linked = g.linked;
  dependents_built = g.dependents_built;
}

pub open_edges-unfinished :
    (finished : StepIndex → Bool) (k : ℕ) (i d e : StepIndex) (nodes : Nodes)
    → e ≡ k + d
    → finished e ≡ false
    → count i (node_at nodes d).dependents ≤ open_edges finished k i nodes
open_edges-unfinished finished k i d e [] h f = omega arith
open_edges-unfinished finished k i zero e (n ∷ ns) h f =
    let same : e ≡ k = omega arith in
    let f' : finished k ≡ false = subst (λ x. finished x ≡ false) same f in rw f' (omega arith)
open_edges-unfinished finished k i (suc d) e (n ∷ ns) h f =
    omega (arith, open_edges-unfinished finished (k + 1) i d e ns (omega arith) f)

count-pos : (i : StepIndex) (xs : List StepIndex) → elem i xs ≡ true → 0 < count i xs
count-pos i [] h = absurd (cc)
count-pos i (x ∷ xs) h = ground (arith, count-pos i xs)

ready-is_ready :
    (plan : Plan) (started finished : StepIndex → Bool) (nodes : Nodes) (ready : List StepIndex)
    (i : StepIndex)
    → IsRun plan started finished nodes ready
    → (0 < count i ready) ⊎ (started i ≡ true)
    → is_ready (node_at nodes i) ≡ true
ready-is_ready plan started finished nodes ready i run (inl h) = ground (arith, run.exact i)
ready-is_ready plan started finished nodes ready i run (inr h) = run.started_ready i h

-- In a running build, a step of the build that is ready, or that has been started, has all its
-- dependencies finished, those that the manifest declares and those that the log adds.
pub dependencies_finished :
    (plan : Plan) (started finished : StepIndex → Bool) (nodes : Nodes) (ready : List StepIndex)
    (i d : StepIndex)
    → IsRun plan started finished nodes ready
    → (0 < count i ready) ⊎ (started i ≡ true)
    → Edge plan i d
    → finished d ≡ true
dependencies_finished plan started finished nodes ready i d run h e =
    elim (Bool-cases (finished d)) [
      | inl yes_it_is ↦ yes_it_is
      | inr f ↦
          let r = ready-is_ready plan started finished nodes ready i run h in
          let some_left = open_edges-unfinished finished 0 i d d nodes (omega arith) f in
          let pos = count-pos i (node_at nodes d).dependents (run.linked i d (ground arith) e) in
          absurd (ground (arith, run.waiting i))
    ]

-- The step at the back of the ready steps leaves them.
pub count-unsnoc :
    (i s : StepIndex) (xs rest : List StepIndex)
    → unsnoc xs ≡ some (rest, s)
    → count i xs ≡ count i rest + to_number (s == i)
count-unsnoc i s xs rest h =
    ground (arith, ap (count i) (unsnoc-some xs rest s h), count-append i rest (s ∷ []))

pub IsRun-take :
    (plan : Plan) (started finished : StepIndex → Bool) (nodes : Nodes)
    (ready rest : List StepIndex) (s : StepIndex)
    → IsRun plan started finished nodes ready
    → unsnoc ready ≡ some (rest, s)
    → IsRun plan (with_step started s) finished nodes rest
IsRun-take plan started finished nodes ready rest s run e = record {
  all_nodes = run.all_nodes;
  waiting = run.waiting;
  exact = λ i. take_exact i;
  started_ready = λ i h. elim (Bool-cases (s == i)) [
    | inl q ↦
        let same : s ≡ i = ground arith in
        ready-is_ready plan started finished nodes ready i run
          (inl (ground (arith, count-unsnoc i s ready rest e)))
    | inr q ↦ run.started_ready i (ground arith)
  ];
  finished_started = λ i h. ground (arith, run.finished_started i h);
  linked = run.linked;
  dependents_built = run.dependents_built;
}
  where
    take_exact :
        (i : StepIndex)
        → count i rest ≡ to_number (is_ready (node_at nodes i) && not (with_step started s i))
    take_exact i = ground (arith, run.exact i, count-unsnoc i s ready rest e)
