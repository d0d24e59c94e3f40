-- ===== src/Build/Ready/Flags.antt =====
-- About `no_direct_dependencies_built` in `Build::markStepNodeAsDone` of build.cpp.
use mathlib.Core.Path.{subst}
use shuriken.Prelude.Assoc.{Assoc}
use shuriken.Fs.FileId.{FileId}
use shuriken.Build.Deps.{step_is_ignored}
use shuriken.Build.Data.{StepIndex, step_at}
use shuriken.Build.Ready.{
  Context, note_built, mark_dependents, discount, mark_step_node_as_done, record_outputs,
}
use shuriken.Build.Ready.Mark.{lt-length_of_counter, counter}
use shuriken.Build.Graph.Nodes.{node_at-update_node}
use shuriken.Build.Graph.{
  ◌>>=◌, Build, Outcome, done, failed, out_of_fuel, Nodes, node_at, update_node, StepNode,
}
use shuriken.Prelude.{
  nat_eq, refl, zero, Bool, List, arith, ◌≡◌, ◌<◌, length, ◌∷◌, ◌&&◌, ℕ, ◌||◌, not, nat_beq, elem,
  false, Bool-cases, suc, inl, ◌==◌, inr, ◌∙◌, ap, [], if◌then◌else◌, sym,
}

abbrev pub flag : Nodes → StepIndex → Bool
flag nodes i = (node_at nodes i).no_direct_dependencies_built

abbrev pub dependents : Nodes → StepIndex → List StepIndex
dependents nodes i = (node_at nodes i).dependents

-- Whether a step does not count as a dependency of another, since that did not use it
abbrev pub is_ignored_by : Context → StepIndex → StepIndex → Bool
is_ignored_by context i d = step_is_ignored context.invocations (step_at context.steps i).hash d

-- The flags after a step was marked, with its dependents
pub record IsFlagged (context : Context) (step : StepIndex) (skipped : Bool) (ds : List StepIndex)
    (before after : Nodes) : Type 0 where
  pub flags :
      (i : StepIndex)
      → flag after i
        ≡ (flag before i && (skipped || not (elem i ds) || is_ignored_by context i step))
  pub same : (i : StepIndex) → dependents after i ≡ dependents before i

module _ (context : Context) (step : StepIndex) (skipped : Bool) where
  note_built-flag :
      (i : StepIndex) (n : StepNode)
      → ((discount (note_built context step skipped i n)).no_direct_dependencies_built
          ≡ (n.no_direct_dependencies_built && (skipped || is_ignored_by context i step)))
        × ((discount (note_built context step skipped i n)).dependents ≡ n.dependents)
  unfolding note_built
  note_built-flag i n = ground arith

  IsFlagged-cons :
      (d : StepIndex) (ds : List StepIndex) (nodes after : Nodes)
      → d < length nodes
      → IsFlagged context step skipped ds
          (update_node nodes d (λ n. discount (note_built context step skipped d n)))
          after
      → IsFlagged context step skipped (d ∷ ds) nodes after
  IsFlagged-cons d ds nodes after inside m = record { flags = λ i. (at i).0; same = λ i. (at i).1 }
    where
      at :
          (i : StepIndex)
          → (flag after i ≡ (
              flag nodes i && (skipped || not (elem i (d ∷ ds)) || is_ignored_by context i step)))
            × (dependents after i ≡ dependents nodes i)
      at i =
          let change = λ (n : StepNode). discount (note_built context step skipped d n) in
          let updated = node_at-update_node nodes d i change inside in
          elim (Bool-cases (d == i)) [
            | inl e ↦
                let same : d ≡ i = ground arith in
                let node =
                  updated ∙ ap (λ b. if b then change (node_at nodes i) else node_at nodes i) e in
                let fields =
                  subst
                    (λ j.
                      ((discount (
                          note_built context step skipped j
                            (node_at nodes i))).no_direct_dependencies_built
                        ≡ (flag nodes i && (skipped || is_ignored_by context i step)))
                      × ((discount (note_built context step skipped j (node_at nodes i))).dependents
                          ≡ dependents nodes i))
                    (sym same) (note_built-flag i (node_at nodes i)) in
                let flag_now =
                  ap (λ (n : StepNode). n.no_direct_dependencies_built) node ∙ fields.0 in
                (
                  ground (arith, m.flags i, flag_now),
                  m.same i ∙ ap (λ (n : StepNode). n.dependents) node ∙ fields.1,
                )
            | inr e ↦
                let node =
                  updated ∙ ap (λ b. if b then change (node_at nodes i) else node_at nodes i) e in
                let flag_now = ap (λ (n : StepNode). n.no_direct_dependencies_built) node in
                (
                  ground (arith, m.flags i, flag_now),
                  m.same i ∙ ap (λ (n : StepNode). n.dependents) node,
                )
          ]

  abbrev pub AreFlagged : List StepIndex → Nodes → Outcome (Nodes × List StepIndex) → Type 0
  AreFlagged ds before (done r) = IsFlagged context step skipped ds before r.0
  AreFlagged ds before (failed e) = Unit
  AreFlagged ds before out_of_fuel = Unit

  mark_dependents-AreFlagged :
      (ds : List StepIndex) (nodes : Nodes) (ready : List StepIndex)
      → AreFlagged ds nodes (mark_dependents context step skipped ds nodes ready)
  unfolding mark_dependents
  mark_dependents-AreFlagged [] nodes ready = record { flags = λ i. ground arith; same = λ i. refl }
  mark_dependents-AreFlagged (d ∷ ds) nodes ready =
      elim (Bool-cases (nat_beq (node_at nodes d).dependencies 0)) [
        | inl none_left ↦ rw none_left tt
        | inr some_left ↦
            let inside = lt-length_of_counter nodes d (positive (counter nodes d) some_left) in
            rw some_left (go inside _ (mark_dependents-AreFlagged ds _ _))
      ]
    where
      positive : (n : ℕ) → nat_beq n 0 ≡ false → 0 < n
      positive zero h = absurd (ground arith)
      positive (suc n) h = omega arith

      go :
          d < length nodes
          → (o : Outcome (Nodes × List StepIndex))
          → AreFlagged ds
              (update_node nodes d (λ n. discount (note_built context step skipped d n)))
              o
          → AreFlagged (d ∷ ds) nodes o
      go inside (done r) m = IsFlagged-cons d ds nodes r.0 inside m
      go inside (failed e) m = tt
      go inside out_of_fuel m = tt

  abbrev BuildFlagged : Build → Outcome Build → Type 0
  BuildFlagged before (done after) =
      IsFlagged context step skipped (dependents before.step_nodes step) before.step_nodes
        after.step_nodes
  BuildFlagged before (failed e) = Unit
  BuildFlagged before out_of_fuel = Unit

  mark_step_node_as_done-BuildFlagged :
      (build : Build) (ids : List FileId)
      → BuildFlagged build (mark_step_node_as_done context build step ids skipped)
  unfolding mark_step_node_as_done
  mark_step_node_as_done-BuildFlagged build ids = go (record_outputs step ids build.output_files)
    where
      ds : List StepIndex
      ds = dependents build.step_nodes step

      marked : Outcome (Nodes × List StepIndex)
      marked = mark_dependents context step skipped ds build.step_nodes build.ready_steps

      finished : Assoc FileId StepIndex → Outcome (Nodes × List StepIndex) → Outcome Build
      finished files m = m >>= λ (nodes, ready).
          done (record build { step_nodes = nodes; ready_steps = ready; output_files = files })

      inner :
          (files : Assoc FileId StepIndex) (m : Outcome (Nodes × List StepIndex))
          → AreFlagged ds build.step_nodes m
          → BuildFlagged build (finished files m)
      inner files (done r) h = h
      inner files (failed e) h = tt
      inner files out_of_fuel h = tt

      go :
          (o : Outcome (Assoc FileId StepIndex))
          → BuildFlagged build (o >>= λ files. finished files marked)
      go (done files) =
          inner files marked (mark_dependents-AreFlagged ds build.step_nodes build.ready_steps)
      go (failed e) = tt
      go out_of_fuel = tt

  pub mark_step_node_as_done-IsFlagged :
      (build after : Build) (ids : List FileId)
      → mark_step_node_as_done context build step ids skipped ≡ done after
      → IsFlagged context step skipped
          (dependents build.step_nodes step)
          build.step_nodes
          after.step_nodes
  mark_step_node_as_done-IsFlagged build after ids e =
      subst (BuildFlagged build) e (mark_step_node_as_done-BuildFlagged build ids)
