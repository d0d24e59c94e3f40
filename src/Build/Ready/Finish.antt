-- ===== src/Build/Ready/Finish.antt =====
-- About `Build::markStepNodeAsDone` of build.cpp, in a running build.
use shuriken.Build.Ready.Outputs.{IsRecorded, record_outputs-IsRecorded}
use shuriken.Prelude.Assoc.{Assoc}
use shuriken.Fs.FileId.{FileId, file_id_eq}
use shuriken.Build.Graph.Progress.{IsBuilt}
use shuriken.Build.Ready.{Context, mark_dependents, record_outputs, mark_step_node_as_done}
use shuriken.Build.Ready.Mark.{IsMarked, counter, mark_dependents-IsMarked}
use mathlib.Core.Path.{subst}
use shuriken.Build.Graph.Nodes.{count, to_number, is_ready, all_dependencies}
use shuriken.Build.Ready.Order.{open_edges, IsRun, with_step, open_edges-unfinished}
use shuriken.Prelude.{
  Bool, List, ℕ, ◌<◌, length, ◌≡◌, elem, true, ◌+◌, ◌∷◌, false, arith, [], ap, nat_eq, ◌≤◌, refl,
  suc, zero, ◌&&◌, not, Bool-cases, ◌==◌, inl, inr, ◌∙◌, sym,
}
use shuriken.Build.Graph.{
  Plan, Nodes, node_at, done, Build, Outcome, failed, same_output, ◌>>=◌, out_of_fuel,
}
use shuriken.Build.Data.{StepIndex}

open_edges-above :
    (finished : StepIndex → Bool) (k : ℕ) (i e : StepIndex) (nodes : Nodes)
    → e < k
    → open_edges (with_step finished e) k i nodes ≡ open_edges finished k i nodes
open_edges-above finished k i e [] h = refl
open_edges-above finished k i e (n ∷ ns) h =
    ground (arith, open_edges-above finished (k + 1) i e ns)

open_edges-finish :
    (finished : StepIndex → Bool) (k : ℕ) (i d e : StepIndex) (nodes : Nodes)
    → e ≡ k + d
    → finished e ≡ false
    → open_edges (with_step finished e) k i nodes + count i (node_at nodes d).dependents
      ≡ open_edges finished k i nodes
open_edges-finish finished k i d e [] h f = omega arith
open_edges-finish finished k i zero e (n ∷ ns) h f =
    let same : e ≡ k = omega arith in
    let f' : finished k ≡ false = subst (λ x. finished x ≡ false) same f in
    ground (arith, open_edges-above finished (k + 1) i e ns)
open_edges-finish finished k i (suc d) e (n ∷ ns) h f =
    ground (arith, open_edges-finish finished (k + 1) i d e ns)

open_edges-cong :
    (finished : StepIndex → Bool) (k : ℕ) (i : StepIndex) (xs ys : Nodes)
    → length xs ≡ length ys
    → ((j : StepIndex) → (node_at xs j).dependents ≡ (node_at ys j).dependents)
    → open_edges finished k i xs ≡ open_edges finished k i ys
open_edges-cong finished k i [] [] l h = refl
open_edges-cong finished k i [] (y ∷ ys) l h = absurd (omega arith)
open_edges-cong finished k i (x ∷ xs) [] l h = absurd (omega arith)
open_edges-cong finished k i (x ∷ xs) (y ∷ ys) l h =
    let head = ap (count i) (h 0) in
    let rest = open_edges-cong finished (k + 1) i xs ys (omega arith) (λ j. h (suc j)) in
    ground arith

elem_of_count : (i : StepIndex) (xs : List StepIndex) → 0 < count i xs → elem i xs ≡ true
elem_of_count i [] h = absurd (omega arith)
elem_of_count i (x ∷ xs) h = ground (arith, elem_of_count i xs)

module _ (plan : Plan) (started finished : StepIndex → Bool) (nodes : Nodes)
    (ready : List StepIndex) (s : StepIndex) (run : IsRun plan started finished nodes ready)
    (was_started : started s ≡ true) (unfinished : finished s ≡ false) where
  abbrev dependents : List StepIndex
  dependents = (node_at nodes s).dependents

  dependents_wait : (i : StepIndex) → count i dependents ≤ counter nodes i
  dependents_wait i =
      omega (
        arith,
        run.waiting i,
        open_edges-unfinished finished 0 i s s nodes (omega arith) unfinished,
      )

  IsMarked-IsRun :
      (nodes' : Nodes) (ready' : List StepIndex)
      → IsMarked dependents nodes ready nodes' ready'
      → IsRun plan started (with_step finished s) nodes' ready'
  IsMarked-IsRun nodes' ready' m = record {
    all_nodes = m.size ∙ run.all_nodes;
    waiting = λ i. omega (
      arith,
      m.counters i,
      run.waiting i,
      open_edges-finish finished 0 i s s nodes (omega arith) unfinished,
      open_edges-cong (with_step finished s) 0 i nodes' nodes m.size m.same_dependents,
    );
    exact = exact;
    started_ready = λ i h. ground (arith, run.started_ready i, m.counters i, m.same_built i);
    finished_started = λ i h. elim (Bool-cases (s == i)) [
      | inl e ↦ let same : s ≡ i = ground arith in subst (λ j. started j ≡ true) same was_started
      | inr e ↦ run.finished_started i (ground arith)
    ];
    linked =
        λ i d b e. ap (elem i) (m.same_dependents d) ∙ run.linked i d (sym (m.same_built i) ∙ b) e;
    dependents_built = λ i d h.
        m.same_built i ∙ run.dependents_built i d (sym (ap (elem i) (m.same_dependents d)) ∙ h);
  }
    where
      built : (i : StepIndex) → 0 < count i dependents → IsBuilt nodes i
      built i h = run.dependents_built i s (elem_of_count i dependents h)

      exact :
          (i : StepIndex)
          → count i ready' ≡ to_number (is_ready (node_at nodes' i) && not (started i))
      exact i = ground (
        arith,
        run.exact i,
        run.started_ready i,
        m.counters i,
        m.pushed i,
        m.same_built i,
        built i,
      )

  -- The loop over the dependents of the step succeeds.
  pub mark_dependents-IsRun :
      (context : Context) (skipped : Bool)
      → (nodes' : Nodes) × (ready' : List StepIndex) × (mark_dependents context s skipped dependents
            nodes ready
          ≡ done (nodes', ready'))
        × IsRun plan started (with_step finished s) nodes' ready'
        × (length nodes' ≡ length nodes)
        × (all_dependencies nodes' + length ready' ≤ all_dependencies nodes + length ready)
  mark_dependents-IsRun context skipped =
      let (nodes', ready', e, m) =
        mark_dependents-IsMarked context s skipped dependents nodes ready dependents_wait in
      (nodes', ready', e, IsMarked-IsRun nodes' ready' m, m.size, omega (arith, m.total, m.room))

-- What `mark_step_node_as_done` promises: a file of two steps is its only failure.
abbrev pub IsMarkResult :
    Plan → (StepIndex → Bool) → (StepIndex → Bool) → Build → Outcome Build → Type 0
IsMarkResult plan started finished before (done build) =
    IsRun plan started finished build.step_nodes build.ready_steps
    × (length build.step_nodes ≡ length before.step_nodes)
    × (all_dependencies build.step_nodes + length build.ready_steps
        ≤ all_dependencies before.step_nodes + length before.ready_steps)
IsMarkResult plan started finished before (failed e) = e ≡ same_output
IsMarkResult plan started finished before out_of_fuel = ⊥

-- Marking a started and unfinished step of a running build as done leaves a running build in which
-- it is finished: no assertion fails, the number of nodes is the same, and the sum of the counters
-- and the number of ready steps does not grow. The only failure is that of two steps that wrote the
-- same file.
pub mark_step_node_as_done-IsRun :
    (plan : Plan) (started finished : StepIndex → Bool) (context : Context) (build : Build)
    (s : StepIndex) (ids : List FileId) (skipped : Bool)
    → IsRun plan started finished build.step_nodes build.ready_steps
    → started s ≡ true
    → finished s ≡ false
    → IsMarkResult plan started
        (with_step finished s)
        build
        (mark_step_node_as_done context build s ids skipped)
unfolding mark_step_node_as_done
mark_step_node_as_done-IsRun plan started finished context build s ids skipped run st fin =
    go (record_outputs s ids build.output_files)
      (record_outputs-IsRecorded s ids build.output_files)
  where
    mark : Outcome (Nodes × List StepIndex)
    mark =
        mark_dependents context s skipped (node_at build.step_nodes s).dependents build.step_nodes
          build.ready_steps

    marked :
        (nodes' : Nodes) × (ready' : List StepIndex) × (mark ≡ done (nodes', ready'))
        × IsRun plan started (with_step finished s) nodes' ready'
        × (length nodes' ≡ length build.step_nodes)
        × (all_dependencies nodes' + length ready'
            ≤ all_dependencies build.step_nodes + length build.ready_steps)
    marked =
        mark_dependents-IsRun plan started finished build.step_nodes build.ready_steps s run st fin
          context skipped

    finish : Assoc FileId StepIndex → Outcome Build
    finish files = mark >>= λ (nodes, ready).
        done (record build { step_nodes = nodes; ready_steps = ready; output_files = files })

    finish-IsMarkResult :
        (files : Assoc FileId StepIndex)
        → IsMarkResult plan started (with_step finished s) build (finish files)
    finish-IsMarkResult files =
        let (nodes', ready', e, r, l, w) = marked in
        subst
          (λ (m : Outcome (Nodes × List StepIndex)).
            IsMarkResult plan started (with_step finished s) build (
              m >>= λ (nodes, ready).
              done
                (record build { step_nodes = nodes; ready_steps = ready; output_files = files })))
          (sym e) (r, l, w)

    go :
        (o : Outcome (Assoc FileId StepIndex))
        → IsRecorded s ids build.output_files o
        → IsMarkResult plan started (with_step finished s) build (o >>= finish)
    go (done files) f = finish-IsMarkResult files
    go (failed e) f = f.0
    go out_of_fuel f = f
