-- ===== src/Build/Graph/Grown.antt =====
-- About `visitStep` of build.cpp: what becomes of `no_direct_dependencies_built`, and that each dependent
-- stands for a dependency.
use shuriken.Prelude.Assoc.{has, lookup}
use shuriken.Fs.FileSystem.{Hash}
use shuriken.Build.Data.{StepIndex}
use shuriken.Build.Graph.{
  ◌>>=◌, Plan, Nodes, Outcome, done, failed, out_of_fuel, node_at, logged_dependencies,
}
use shuriken.Build.Graph.Progress.{Edge, IsDependent}
use mathlib.Core.Logic.{⊎_elim}
use shuriken.Prelude.{
  nat_eq, refl, List, Bool, true, length, false, inl, ◌∙◌, ◌∷◌, Bool-cases, ◌≡◌, inr, ◌⊎◌, ◌&&◌, [],
}

abbrev pub flag_of : Nodes → StepIndex → Bool
flag_of nodes i = (node_at nodes i).no_direct_dependencies_built

abbrev pub is_built : Nodes → StepIndex → Bool
is_built nodes i = (node_at nodes i).should_build

-- Whether the manifest has a step for each hash
abbrev pub all_known : Plan → List Hash → Bool
all_known plan [] = true
all_known plan (h ∷ hs) = has (lookup h plan.step_indices) && all_known plan hs

-- Whether the manifest has every step that the log says a step depends on too
abbrev pub knows : Plan → StepIndex → Bool
knows plan i = all_known plan (logged_dependencies plan i)

-- What a visit does, but for the flags of the steps that are set apart
pub record IsGrown (plan : Plan) (apart : StepIndex → Bool) (before after : Nodes) : Type 0 where
  pub size : length after ≡ length before
  pub grows : (i : StepIndex) → is_built before i ≡ true → is_built after i ≡ true
  pub old :
      (i : StepIndex)
      → apart i ≡ false
      → is_built before i ≡ true
      → flag_of after i ≡ flag_of before i
  pub fresh :
      (i : StepIndex)
      → apart i ≡ false
      → is_built before i ≡ false
      → is_built after i ≡ true
      → flag_of before i ≡ true
      → flag_of after i ≡ knows plan i
  pub rest : (i : StepIndex) → is_built after i ≡ false → flag_of after i ≡ flag_of before i
  pub edges : (i d : StepIndex) → IsDependent after i d → IsDependent before i d ⊎ Edge plan i d

abbrev pub none_apart : StepIndex → Bool
none_apart i = false

module _ (plan : Plan) where
  abbrev pub Results : (Nodes → Type 0) → Outcome Nodes → Type 0
  Results P (done nodes) = P nodes
  Results P (failed e) = Unit
  Results P out_of_fuel = Unit

  pub Results-bind :
      (P Q : Nodes → Type 0) (m : Outcome Nodes) (f : Nodes → Outcome Nodes)
      → Results P m
      → ((a : Nodes) → P a → Results Q (f a))
      → Results Q (m >>= f)
  Results-bind P Q (done a) f h k = k a h
  Results-bind P Q (failed e) f h k = tt
  Results-bind P Q out_of_fuel f h k = tt

  pub Results-weaken :
      (P Q : Nodes → Type 0) (m : Outcome Nodes)
      → ((a : Nodes) → P a → Q a)
      → Results P m
      → Results Q m
  Results-weaken P Q (done a) f h = f a h
  Results-weaken P Q (failed e) f h = tt
  Results-weaken P Q out_of_fuel f h = tt

  pub IsGrown-refl : (apart : StepIndex → Bool) (nodes : Nodes) → IsGrown plan apart nodes nodes
  IsGrown-refl apart nodes = record {
    size = refl;
    grows = λ i b. b;
    old = λ i a b. refl;
    fresh = λ i a b c h. absurd (cc (b, c));
    rest = λ i b. refl;
    edges = λ i d h. inl h;
  }

  pub IsGrown-trans :
      (apart : StepIndex → Bool) (a b c : Nodes)
      → IsGrown plan apart a b
      → IsGrown plan apart b c
      → IsGrown plan apart a c
  IsGrown-trans apart a b c p q = record {
    size = q.size ∙ p.size;
    grows = λ i h. q.grows i (p.grows i h);
    old = λ i s h. q.old i s (p.grows i h) ∙ p.old i s h;
    fresh = λ i s u v h. elim (Bool-cases (is_built b i)) [
      | inl w ↦ q.old i s w ∙ p.fresh i s u w h
      | inr w ↦ q.fresh i s w v (p.rest i w ∙ h)
    ];
    rest = λ i h. elim (Bool-cases (is_built b i)) [
      | inl w ↦ absurd (cc (q.grows i w, h))
      | inr w ↦ q.rest i h ∙ p.rest i w
    ];
    edges = λ i d h. ⊎_elim (p.edges i d) inr (q.edges i d h);
  }

  pub IsGrown-apart :
      (apart : StepIndex → Bool) (a b : Nodes)
      → IsGrown plan none_apart a b
      → IsGrown plan apart a b
  IsGrown-apart apart a b p = record {
    size = p.size;
    grows = p.grows;
    old = λ i s. p.old i refl;
    fresh = λ i s. p.fresh i refl;
    rest = p.rest;
    edges = p.edges;
  }
