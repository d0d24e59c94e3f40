-- ===== src/Build/Ready/Unflagged.antt =====
-- About `Build::discardCleanSteps` of build.cpp: it leaves `no_direct_dependencies_built` as it was.
use shuriken.Build.Data.{StepIndex, FingerprintMatchesMemo, CleanSteps}
use shuriken.Build.Graph.{Nodes, Build, done}
use shuriken.Build.Ready.Related.{discard-related}
use shuriken.Build.Ready.Flags.{flag, dependents, mark_step_node_as_done-IsFlagged, IsFlagged}
use shuriken.Build.Ready.{discard_clean_steps, Context}
use shuriken.Prelude.{nat_eq, ◌≡◌, ap, List, true, arith, ℕ, ◌∙◌}

-- The flags and the dependents are what they were.
pub record IsUnflagged (before after : Nodes) : Type 0 where
  pub flags : (i : StepIndex) → flag after i ≡ flag before i
  pub same : (i : StepIndex) → dependents after i ≡ dependents before i

IsUnflagged-same : (before after : Nodes) → after ≡ before → IsUnflagged before after
IsUnflagged-same before after e = record {
  flags = λ i. ap (λ nodes. flag nodes i) e;
  same = λ i. ap (λ nodes. dependents nodes i) e;
}

IsFlagged-IsUnflagged :
    (context : Context) (step : StepIndex) (ds : List StepIndex) (before after : Nodes)
    → IsFlagged context step true ds before after
    → IsUnflagged before after
IsFlagged-IsUnflagged context step ds before after m = record {
  flags = λ i. ground (arith, m.flags i);
  same = m.same;
}

pub discard-IsUnflagged :
    (context : Context) (memo : FingerprintMatchesMemo) (clean_steps : CleanSteps)
    (build after : Build) (discarded : ℕ)
    → discard_clean_steps context memo clean_steps build ≡ done (after, discarded)
    → IsUnflagged build.step_nodes after.step_nodes
discard-IsUnflagged context memo clean_steps =
    discard-related context memo clean_steps (λ b a. IsUnflagged b.step_nodes a.step_nodes)
      (λ b a nodes failures. IsUnflagged-same b.step_nodes a.step_nodes nodes)
      (λ a b c p q. record { flags = λ i. q.flags i ∙ p.flags i; same = λ i. q.same i ∙ p.same i })
      (λ b a s ids e.
        IsFlagged-IsUnflagged context s (dependents b.step_nodes s) b.step_nodes a.step_nodes
          (mark_step_node_as_done-IsFlagged context s true b a ids e))
