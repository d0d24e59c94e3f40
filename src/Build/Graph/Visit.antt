-- ===== src/Build/Graph/Visit.antt =====
-- About `visitStep` of build.cpp: the recursion.
use shuriken.Build.Graph.Around.{begun, visit-Progress}
use mathlib.Core.Logic.{⊎_elim}
use mathlib.Core.Path.{subst}
use shuriken.Build.Graph.Nodes.{unbuilt, unbuilt-set, node_at-update_node}
use shuriken.Build.Graph.Progress.{
  Walk, Edge, visiting, Progress, Reached, IsBuilt, add_edge-Progress, one, edge_added,
  Progress-trans, Progress-weaken, Progress-refl, Walk-cons, more, forget_direct-Progress, declared,
  logged, IsLinked, IsDependent-edge_added,
}
use shuriken.Prelude.{
  ℕ, ◌<◌, ◌≡◌, true, ◌∙◌, arith, sym, List, inl, ◌⊎◌, elem, inr, ◌∷◌, some, nat_eq, [], Bool-cases,
  Option-cases, suc, false, ◌==◌, length-set, zero, refl,
}
use shuriken.Build.Graph.{
  Plan, StepIndex, Nodes, Outcome, length, done, ◌>>=◌, add_dependency, failed, dependency_cycle,
  out_of_fuel, add_dependencies, add_logged, Hash, lookup, visit_step, node_at, update_node,
  step_at, forget_direct, logged_dependencies, end_visit, begin_visit,
}

-- The exception that a visit can throw, and what it means
abbrev pub HasCycle : Plan → Type 0
HasCycle plan = (i : StepIndex) × Walk plan i i

-- `P` holds of the result, an exception tells of a cycle, and the fuel was enough.
abbrev pub Ensures : Plan → (Nodes → Type 0) → Outcome Nodes → Type 0
Ensures plan P (done nodes) = P nodes
Ensures plan P (failed e) = (e ≡ dependency_cycle) × HasCycle plan
Ensures plan P out_of_fuel = ⊥

pub Ensures-bind :
    (plan : Plan) (P Q : Nodes → Type 0) (m : Outcome Nodes) (f : Nodes → Outcome Nodes)
    → Ensures plan P m
    → ((a : Nodes) → P a → Ensures plan Q (f a))
    → Ensures plan Q (m >>= f)
Ensures-bind plan P Q (done a) f h k = k a h
Ensures-bind plan P Q (failed e) f h k = h
Ensures-bind plan P Q out_of_fuel f h k = h

pub Ensures-weaken :
    (plan : Plan) (P Q : Nodes → Type 0) (m : Outcome Nodes)
    → ((a : Nodes) → P a → Q a)
    → Ensures plan P m
    → Ensures plan Q m
Ensures-weaken plan P Q (done a) f h = f a h
Ensures-weaken plan P Q (failed e) f h = h
Ensures-weaken plan P Q out_of_fuel f h = h

Reached-Walk : {plan : Plan} {i j k : StepIndex} → Edge plan i j → Reached plan j k → Walk plan i k
Reached-Walk {plan} {i} g (inl e) = one (subst (Edge plan i) e g)
Reached-Walk g (inr w) = Walk-cons g w

Walk-Reached : {plan : Plan} {i j k : StepIndex} → Reached plan i j → Edge plan j k → Walk plan i k
Walk-Reached {plan} {k = k} (inl e) g = one (subst (λ x. Edge plan x k) (sym e) g)
Walk-Reached (inr w) g = more w g

module _ (plan : Plan) (n : ℕ) where
  -- Dependencies are indices of steps.
  abbrev pub IsInRange : Type 0
  IsInRange = (i d : StepIndex) → Edge plan i d → d < n

  -- When a step is visited, the steps whose visits are not over lead to it.
  abbrev pub LeadsTo : Nodes → StepIndex → Type 0
  LeadsTo nodes idx = (i : StepIndex) → visiting nodes i ≡ true → Walk plan i idx

  abbrev pub Visited : Nodes → StepIndex → Nodes → Type 0
  Visited nodes idx after = Progress plan (Reached plan idx) nodes after × IsBuilt after idx

  abbrev pub IsVisit : ℕ → (Nodes → StepIndex → Outcome Nodes) → Type 0
  IsVisit fuel visit =
      (nodes : Nodes) (idx : StepIndex)
      → length nodes ≡ n
      → idx < n
      → unbuilt nodes < fuel
      → LeadsTo nodes idx
      → Ensures plan (Visited nodes idx) (visit nodes idx)

  abbrev IsLogged : List Hash → StepIndex → Type 0
  IsLogged hs d = (h : Hash) × (elem h hs ≡ true) × (lookup h plan.step_indices ≡ some d)

  IsLinked-Progress :
      (i d : StepIndex) {R : StepIndex → Type 0} {a b : Nodes}
      → Progress plan R a b
      → IsLinked a i d
      → IsLinked b i d
  IsLinked-Progress i d p l = (p.monotone d l.0, p.keeps i d l.1)

  abbrev Added : StepIndex → (StepIndex → Type 0) → Nodes → Nodes → Type 0
  Added idx S nodes after =
      Progress plan (Walk plan idx) nodes after × ((d : StepIndex) → S d → IsLinked after idx d)

  -- Both loops together bring all dependencies of a step into the build.
  full :
      {idx : StepIndex} {a b c : Nodes} {d : StepIndex}
      → Added idx (λ d. elem d (step_at plan.steps idx).dependencies ≡ true) a b
      → Added idx (IsLogged (logged_dependencies plan idx)) b c
      → Edge plan idx d
      → IsLinked c idx d
  full {idx} {d = d} p q (declared e) = IsLinked-Progress idx d q.0 (p.1 d e)
  full {idx} {d = d} p q (logged h e l) = q.1 d (h, e, l)

  IsLogged-cons :
      (h : Hash) (hs : List Hash) (d : StepIndex)
      → IsLogged (h ∷ hs) d
      → (lookup h plan.step_indices ≡ some d) ⊎ IsLogged hs d
  IsLogged-cons h hs d (k, e, l) = elim (Bool-cases (h == k)) [
    | inl q ↦ let same : h ≡ k = ground arith in inl (rw same l)
    | inr q ↦ inr (k, ground arith, l)
  ]

  IsLogged-tail : (h : Hash) (hs : List Hash) (d : StepIndex) → IsLogged hs d → IsLogged (h ∷ hs) d
  IsLogged-tail h hs d (k, e, l) = (k, ground arith, l)

  module _ (in_range : IsInRange) (fuel : ℕ) (visit : Nodes → StepIndex → Outcome Nodes)
      (visit-IsVisit : IsVisit fuel visit) (idx : StepIndex) (inside : idx < n) where
    -- What holds of the nodes between two dependencies of `idx`
    record IsReady (nodes : Nodes) : Type 0 where
      size : length nodes ≡ n
      work : unbuilt nodes < fuel
      leads : (i : StepIndex) → visiting nodes i ≡ true → Reached plan i idx
      current : IsBuilt nodes idx

    begun-IsReady :
        (nodes : Nodes)
        → length nodes ≡ n
        → unbuilt nodes < suc fuel
        → LeadsTo nodes idx
        → (node_at nodes idx).should_build ≡ false
        → IsReady (begun nodes idx)
    begun-IsReady nodes size work leads fresh =
        let in_idx : idx < length nodes = rw size inside in
        record {
          size = length-set nodes idx _ ∙ size;
          work = ground (arith, unbuilt-set nodes idx (begin_visit (node_at nodes idx)) in_idx);
          leads = λ i v. elim (Bool-cases (i == idx)) [
            | inl e ↦ inl (ground arith)
            | inr e ↦
                inr (leads i (ground (arith, node_at-update_node nodes idx i begin_visit in_idx)))
          ];
          current = ground (arith, node_at-update_node nodes idx idx begin_visit in_idx);
        }

    IsReady-Progress :
        {nodes after : Nodes}
        → Progress plan (Walk plan idx) nodes after
        → IsReady nodes
        → IsReady after
    IsReady-Progress p r = record {
      size = p.size ∙ r.size;
      work = omega (arith, p.work, r.work);
      leads = λ i v. r.leads i (sym (p.same_visiting i) ∙ v);
      current = p.monotone idx r.current;
    }

    add_dependency-Ensures :
        (nodes : Nodes) (d : StepIndex)
        → IsReady nodes
        → Edge plan idx d
        → Ensures plan (Added idx (λ e. d ≡ e) nodes) (add_dependency plan visit idx nodes d)
    unfolding add_dependency
    add_dependency-Ensures nodes d r g =
        let in_idx : idx < length nodes = rw r.size inside in
        let in_d : d < length nodes = rw r.size (in_range idx d g) in
        let step = add_edge-Progress nodes idx d in_idx in_d plan (Walk plan idx) r.current in
        let ready = IsReady-Progress step r in
        Ensures-weaken plan (Visited (edge_added nodes idx d) d) (Added idx (λ e. d ≡ e) nodes) _
          (λ after v. (
            Progress-trans _ step (Progress-weaken (λ i. Reached-Walk g) v.0),
            λ e same.
                subst (IsLinked after idx) same
                  (v.1, v.0.keeps idx d (IsDependent-edge_added nodes idx d in_idx in_d)),
          ))
          (visit-IsVisit (edge_added nodes idx d) d ready.size (in_range idx d g) ready.work
            (λ i v. Walk-Reached (ready.leads i v) g))

    Added-trans :
        {S T U : StepIndex → Type 0} {a b c : Nodes}
        → ((d : StepIndex) → U d → S d ⊎ T d)
        → Added idx S a b
        → Added idx T b c
        → Added idx U a c
    Added-trans split p q = (
      Progress-trans _ p.0 q.0,
      λ d u. ⊎_elim (λ s. IsLinked-Progress idx d q.0 (p.1 d s)) (q.1 d) (split d u),
    )

    add_dependencies-Ensures :
        (ds : List StepIndex) (nodes : Nodes)
        → IsReady nodes
        → ((d : StepIndex) → elem d ds ≡ true → Edge plan idx d)
        → Ensures plan
            (Added idx (λ d. elem d ds ≡ true) nodes)
            (add_dependencies plan visit idx ds nodes)
    unfolding add_dependencies
    add_dependencies-Ensures [] nodes r g = (Progress-refl _ nodes, λ d e. absurd (cc))
    add_dependencies-Ensures (d ∷ ds) nodes r g =
        Ensures-bind plan (Added idx (λ e. d ≡ e) nodes) _ (add_dependency plan visit idx nodes d) _
          (add_dependency-Ensures nodes d r (g d (ground arith)))
          (λ a p.
            Ensures-weaken plan (Added idx (λ e. elem e ds ≡ true) a) _
              (add_dependencies plan visit idx ds a) (λ b q. Added-trans (λ e h. ground arith) p q)
              (add_dependencies-Ensures ds a (IsReady-Progress p.0 r) (λ e h. g e (ground arith))))

    add_logged-Ensures :
        (hs : List Hash) (nodes : Nodes)
        → IsReady nodes
        → ((d : StepIndex) → IsLogged hs d → Edge plan idx d)
        → Ensures plan (Added idx (IsLogged hs) nodes) (add_logged plan visit idx hs nodes)
    unfolding add_logged
    add_logged-Ensures [] nodes r g = (Progress-refl _ nodes, λ d (h, e, l). absurd (cc))
    add_logged-Ensures (h ∷ hs) nodes r g = elim (Option-cases (lookup h plan.step_indices)) [
      | inl e ↦
          let step = forget_direct-Progress plan (Walk plan idx) nodes idx (rw r.size inside) in
          rw (e, add_logged)
            (Ensures-weaken plan (Added idx (IsLogged hs) (update_node nodes idx forget_direct)) _ _
              (λ b q. (
                Progress-trans _ step q.0,
                λ d l. q.1 d (⊎_elim (λ found. absurd (cc)) (λ t. t) (IsLogged-cons h hs d l)),
              ))
              (add_logged-Ensures hs (update_node nodes idx forget_direct) (IsReady-Progress step r)
                (λ d l. g d (IsLogged-tail h hs d l))))
      | inr (d, e) ↦
          rw (e, add_logged)
            (Ensures-bind plan (Added idx (λ e. d ≡ e) nodes) _
              (add_dependency plan visit idx nodes d) _
              (add_dependency-Ensures nodes d r (g d (h, ground arith, e)))
              (λ a p.
                Ensures-weaken plan (Added idx (IsLogged hs) a) _ (add_logged plan visit idx hs a)
                  (λ b q.
                    Added-trans
                      (λ d' l. ⊎_elim (λ found. inl (ground arith)) inr (IsLogged-cons h hs d' l)) p
                      q)
                  (add_logged-Ensures hs a (IsReady-Progress p.0 r)
                    (λ d' l. g d' (IsLogged-tail h hs d' l)))))
    ]

  -- A step that is not in the build yet: its dependencies, then the additional ones.
  fresh-Ensures :
      (in_range : IsInRange) (fuel : ℕ) (visit : Nodes → StepIndex → Outcome Nodes)
      → IsVisit fuel visit
      → (nodes : Nodes) (idx : StepIndex) → length nodes ≡ n
      → idx < n
      → unbuilt nodes < suc fuel
      → LeadsTo nodes idx
      → visiting nodes idx ≡ false
      → (node_at nodes idx).should_build ≡ false
      → Ensures plan (Visited nodes idx) (
          add_dependencies plan visit idx (step_at plan.steps idx).dependencies (begun nodes idx)
          >>= λ n. add_logged plan visit idx (logged_dependencies plan idx) n >>= λ n.
              done (update_node n idx end_visit))
  fresh-Ensures in_range fuel visit is_visit nodes idx size inside work leads idle fresh =
      let deps = (step_at plan.steps idx).dependencies in
      let hashes = logged_dependencies plan idx in
      let in_idx : idx < length nodes = rw size inside in
      let ready =
        begun-IsReady in_range fuel visit is_visit idx inside nodes size work leads fresh in
      Ensures-bind plan (Added idx (λ d. elem d deps ≡ true) (begun nodes idx)) _
        (add_dependencies plan visit idx deps (begun nodes idx)) _
        (add_dependencies-Ensures in_range fuel visit is_visit idx inside deps (begun nodes idx)
          ready (λ d e. declared e))
        (λ a p.
          Ensures-bind plan (Added idx (IsLogged hashes) a) _ (add_logged plan visit idx hashes a) _
            (add_logged-Ensures in_range fuel visit is_visit idx inside hashes a
              (IsReady-Progress in_range fuel visit is_visit idx inside p.0 ready)
              (λ d (h, e, l). logged h e l))
            (λ b q.
              visit-Progress nodes b idx in_idx fresh idle (Progress-trans _ p.0 q.0)
                (λ d g. full p q g)))

  pub visit_step-IsVisit : IsInRange → (fuel : ℕ) → IsVisit fuel (visit_step plan fuel)
  unfolding visit_step
  visit_step-IsVisit in_range zero nodes idx size inside work leads = absurd (omega arith)
  visit_step-IsVisit in_range (suc fuel) nodes idx size inside work leads =
      elim (Bool-cases (visiting nodes idx)) [
        | inl v ↦ rw v (refl, (idx, leads idx v))
        | inr idle ↦ elim (Bool-cases (node_at nodes idx).should_build) [
          | inl b ↦ rw (idle, b) (Progress-refl _ nodes, b)
          | inr fresh ↦
              rw (idle, fresh)
                (fresh-Ensures in_range fuel (visit_step plan fuel)
                  (visit_step-IsVisit in_range fuel) nodes idx size inside work leads idle fresh)
        ]
      ]
