-- ===== src/Build/Ready/Discarding.antt =====
-- About `Build::discardCleanSteps` of build.cpp.
use shuriken.Build.Graph.Nodes.{count, to_number, is_ready, all_dependencies}
use shuriken.Build.Ready.Round.{
  Discarding, measure, IsFailure, is_discardable, IsDiscarding, IsRound, round,
}
use shuriken.Build.Ready.Order.{IsRun}
use shuriken.Prelude.{
  ℕ, false, Bool, [], replicate, ◌≡◌, true, length, ◌<◌, arith, suc, Option-cases, ◌&&◌, unsnoc,
  not, ap, inl, unsnoc-none, sym, inr, ◌∙◌, ◌+◌, length-replicate, get_or-replicate, zero, refl,
}
use shuriken.Build.Data.{FingerprintMatchesMemo, CleanSteps, StepIndex}
use shuriken.Build.Ready.{discard_clean_steps, Context, discard_loop, Discard, discard_step}
use shuriken.Build.Graph.{Plan, Outcome, Build, done, failed, node_at, ◌>>=◌, out_of_fuel}

module _ (plan : Plan) (context : Context) (memo : FingerprintMatchesMemo)
    (clean_steps : CleanSteps) where
  abbrev IsEnd : Outcome Discard → Type 0
  IsEnd (done d) =
      (started : StepIndex → Bool) × (finished : StepIndex → Bool) × Discarding plan context memo
        clean_steps started finished d
      × (d.build.ready_steps ≡ [])
  IsEnd (failed e) = IsFailure plan context memo clean_steps e
  IsEnd out_of_fuel = ⊥

  discard_loop-IsEnd :
      (fuel : ℕ) (started finished : StepIndex → Bool) (d : Discard)
      → Discarding plan context memo clean_steps started finished d
      → measure d < fuel
      → IsEnd (discard_loop context memo clean_steps fuel d)
  unfolding discard_loop
  discard_loop-IsEnd zero started finished d inv h = absurd (omega arith)
  discard_loop-IsEnd (suc fuel) started finished d inv h =
      elim (Option-cases (unsnoc d.build.ready_steps)) [
        | inl e ↦ rw (e, discard_loop) (started, finished, inv, unsnoc-none d.build.ready_steps e)
        | inr ((rest, s), e) ↦
            rw (e, discard_loop)
              (go (λ st fin d'. discard_loop-IsEnd fuel st fin d')
                (discard_step context memo clean_steps d rest s)
                (round plan context memo clean_steps started finished d rest s inv e))
      ]
    where
      go :
          ((st fin : StepIndex → Bool) (d' : Discard)
            → Discarding plan context memo clean_steps st fin d'
            → measure d' < fuel
            → IsEnd (discard_loop context memo clean_steps fuel d'))
          → (o : Outcome Discard) → IsRound plan context memo clean_steps (measure d) o
          → IsEnd (o >>= λ d'. discard_loop context memo clean_steps fuel d')
      go again (done d') (st, fin, i, m) = again st fin d' i (omega arith)
      go again (failed e) f = f
      go again out_of_fuel f = f

-- What `discard_clean_steps` promises
abbrev pub IsDiscarded :
    Plan → Context → FingerprintMatchesMemo → CleanSteps → Outcome (Build × ℕ) → Type 0
IsDiscarded plan context memo clean_steps (done (build, n)) =
    (finished : StepIndex → Bool) × IsRun plan finished finished build.step_nodes build.ready_steps
    × ((i : StepIndex) → finished i ≡ true → is_discardable context clean_steps i ≡ true)
    × ((i : StepIndex)
        → 0 < count i build.ready_steps
        → is_discardable context clean_steps i ≡ false)
IsDiscarded plan context memo clean_steps (failed e) = IsFailure plan context memo clean_steps e
IsDiscarded plan context memo clean_steps out_of_fuel = ⊥

-- From a build that was constructed and has not begun, discarding ends. If it succeeds, the build is
-- a running build whose started steps are the finished ones, the discarded; each of them is clean or
-- phony, and no step that is ready is. No assertion fails: it fails only where two steps wrote one
-- file, or where the outputs of a clean or phony step are not in the log or the memo.
pub discard_clean_steps-IsDiscarded :
    (plan : Plan) (context : Context) (memo : FingerprintMatchesMemo) (clean_steps : CleanSteps)
    (build : Build)
    → IsRun plan (λ _. false) (λ _. false) build.step_nodes build.ready_steps
    → IsDiscarded plan context memo clean_steps (discard_clean_steps context memo clean_steps build)
unfolding discard_clean_steps
discard_clean_steps-IsDiscarded plan context memo clean_steps build run = go _ (
    discard_loop-IsEnd plan context memo clean_steps
      (suc (all_dependencies build.step_nodes + length build.ready_steps)) (λ _. false) (λ _. false)
      start
      (record {
        run = run;
        kept = λ i. refl;
        size = length-replicate (length build.step_nodes) false;
        seen = λ i. get_or-replicate (length build.step_nodes) i false;
        clean = λ i h. absurd (cc);
      })
      (omega arith))
  where
    start : Discard
    start = record {
      build = build;
      new_ready_steps = [];
      visited = replicate (length build.step_nodes) false;
      discarded_steps = 0;
    }

    exact :
        {started finished : StepIndex → Bool} (d : Discard)
        → IsDiscarding plan context clean_steps started finished d
        → d.build.ready_steps ≡ []
        → (i : StepIndex)
        → count i d.new_ready_steps
          ≡ to_number (is_ready (node_at d.build.step_nodes i) && not (finished i))
    exact d inv e i =
        ground (arith, inv.run.exact i, inv.run.started_ready i, inv.kept i, ap (count i) e)

    go :
        (o : Outcome Discard)
        → IsEnd plan context memo clean_steps o
        → IsDiscarded plan context memo clean_steps (
            o >>= λ d. done (record d.build { ready_steps = d.new_ready_steps }, d.discarded_steps))
    go (done d) (started, finished, inv, e) = (
      finished,
      record {
        all_nodes = inv.run.all_nodes;
        waiting = inv.run.waiting;
        exact = exact d inv e;
        started_ready = λ i h. inv.run.started_ready i (inv.run.finished_started i h);
        finished_started = λ i h. h;
        linked = inv.run.linked;
        dependents_built = inv.run.dependents_built;
      },
      λ i h. sym (inv.clean i (inv.run.finished_started i h)) ∙ h,
      λ i h. sym (inv.clean i (ground (arith, inv.kept i))) ∙ (ground (arith, inv.kept i)),
    )
    go (failed e) f = f
    go out_of_fuel f = f
