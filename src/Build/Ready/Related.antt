-- ===== src/Build/Ready/Related.antt =====
-- About `Build::discardCleanSteps` of build.cpp: what marking a step as skipped keeps, it keeps too.
use shuriken.Build.Graph.Nodes.{all_dependencies}
use mathlib.Core.Path.{subst}
use shuriken.Fs.FileId.{FileId}
use shuriken.Build.Data.{FingerprintMatchesMemo, CleanSteps, StepIndex, step_at, phony}
use shuriken.Build.Graph.{◌>>=◌, Build, done, Outcome, failed, out_of_fuel}
use shuriken.Build.Ready.{
  discard_step, discard_loop, discard_clean_steps, mark_step_node_as_done, Context, Discard,
  output_file_ids_for_build_step,
}
use shuriken.Prelude.{
  nat_eq, refl, zero, ◌≡◌, List, true, ℕ, suc, sym, Option-cases, unsnoc, ◌+◌, Bool-cases, length,
  inl, get_or, [], inr, false, replicate, ◌||◌,
}

module _ (context : Context) (memo : FingerprintMatchesMemo) (clean_steps : CleanSteps)
    (R : Build → Build → Type 0)
    (R_same : (b a : Build)
      → a.step_nodes ≡ b.step_nodes
      → a.remaining_failures ≡ b.remaining_failures
      → R b a)
    (R_trans : (a b c : Build) → R a b → R b c → R a c)
    (R_mark : (b a : Build) (s : StepIndex) (ids : List FileId)
      → mark_step_node_as_done context b s ids true ≡ done a
      → R b a) where
  abbrev KeepsAll : Build → Outcome Discard → Type 0
  KeepsAll before (done d) = R before d.build
  KeepsAll before (failed e) = Unit
  KeepsAll before out_of_fuel = Unit

  discard_step-KeepsAll :
      (d : Discard) (rest : List StepIndex) (step : StepIndex)
      → KeepsAll d.build (discard_step context memo clean_steps d rest step)
  unfolding discard_step
  discard_step-KeepsAll d rest step =
      let s = step_at context.steps step in
      elim (Bool-cases (get_or d.visited step false)) [
        | inl seen ↦ rw seen (R_same d.build popped refl refl)
        | inr new ↦ elim (Bool-cases (get_or clean_steps step false || phony s)) [
          | inr kept ↦ rw (new, kept) (R_same d.build popped refl refl)
          | inl clean ↦
              rw (new, clean)
                (go _ (λ b. refl) (output_file_ids_for_build_step context.invocations memo s))
        ]
      ]
    where
      popped : Build
      popped = record d.build { ready_steps = rest }

      marking :
          (f : Build → Discard)
          → ((b : Build) → (f b).build ≡ b)
          → (ids : List FileId) (o : Outcome Build)
          → mark_step_node_as_done context popped step ids true ≡ o
          → KeepsAll d.build (o >>= λ b. done (f b))
      marking f same ids (done b) e =
          subst (R d.build) (sym (same b)) (
            R_trans d.build popped b (R_same d.build popped refl refl) (R_mark popped b step ids e))
      marking f same ids (failed error) e = tt
      marking f same ids out_of_fuel e = tt

      go :
          (f : Build → Discard)
          → ((b : Build) → (f b).build ≡ b)
          → (o : Outcome (List FileId))
          → KeepsAll d.build
              (o >>= λ ids. mark_step_node_as_done context popped step ids true >>= λ b. done (f b))
      go f same (done ids) =
          marking f same ids (mark_step_node_as_done context popped step ids true) refl
      go f same (failed e) = tt
      go f same out_of_fuel = tt

  through : (a b : Build) → R a b → (o : Outcome Discard) → KeepsAll b o → KeepsAll a o
  through a b h (done d) k = R_trans a b d.build h k
  through a b h (failed e) k = tt
  through a b h out_of_fuel k = tt

  discard_loop-KeepsAll :
      (fuel : ℕ) (d : Discard) → KeepsAll d.build (discard_loop context memo clean_steps fuel d)
  unfolding discard_loop
  discard_loop-KeepsAll zero d = tt
  discard_loop-KeepsAll (suc fuel) d = elim (Option-cases (unsnoc d.build.ready_steps)) [
    | inl empty ↦ rw (empty, discard_loop) (R_same d.build d.build refl refl)
    | inr ((rest, s), last) ↦
        rw (last, discard_loop)
          (go (discard_step context memo clean_steps d rest s) (discard_step-KeepsAll d rest s)
            (discard_loop-KeepsAll fuel))
  ]
    where
      go :
          (o : Outcome Discard)
          → KeepsAll d.build o
          → ((next : Discard)
              → KeepsAll next.build (discard_loop context memo clean_steps fuel next))
          → KeepsAll d.build (o >>= λ next. discard_loop context memo clean_steps fuel next)
      go (done next) h again =
          through d.build next.build h (discard_loop context memo clean_steps fuel next)
            (again next)
      go (failed e) h again = tt
      go out_of_fuel h again = tt

  pub discard-related :
      (build after : Build) (discarded : ℕ)
      → discard_clean_steps context memo clean_steps build ≡ done (after, discarded)
      → R build after
  unfolding discard_clean_steps
  discard-related build after discarded e = subst Kept e (go _ (discard_loop-KeepsAll fuel begun))
    where
      fuel : ℕ
      fuel = suc (all_dependencies build.step_nodes + length build.ready_steps)

      begun : Discard
      begun = record {
        build = build;
        new_ready_steps = [];
        visited = replicate (length build.step_nodes) false;
        discarded_steps = 0;
      }

      Kept : Outcome (Build × ℕ) → Type 0
      Kept o = elim o [ done r ↦ R build r.0 | failed e ↦ Unit {0} | out_of_fuel ↦ Unit {0} ]

      go :
          (o : Outcome Discard)
          → KeepsAll build o
          → Kept (
              o >>= λ d.
              done (record d.build { ready_steps = d.new_ready_steps }, d.discarded_steps))
      go (done d) h =
          R_trans build d.build (record d.build { ready_steps = d.new_ready_steps }) h
            (R_same d.build (record d.build { ready_steps = d.new_ready_steps }) refl refl)
      go (failed e) h = tt
      go out_of_fuel h = tt
