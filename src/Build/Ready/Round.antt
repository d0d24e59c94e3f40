-- ===== src/Build/Ready/Round.antt =====
-- About one round of `Build::discardCleanSteps` of build.cpp.
use shuriken.Build.Ready.Outputs.{IsFound, output_file_ids-IsFound}
use shuriken.Build.Ready.Finish.{IsMarkResult, mark_step_node_as_done-IsRun}
use shuriken.Fs.FileId.{FileId}
use mathlib.Core.Path.{subst}
use shuriken.Build.Ready.Order.{IsRun, with_step, IsRun-take, count-unsnoc}
use shuriken.Build.Graph.Progress.{IsBuilt}
use shuriken.Build.Graph.Nodes.{all_dependencies, count, to_number, is_ready, count-append}
use shuriken.Prelude.{
  ℕ, ◌≡◌, Bool, get_or, List, ◌+◌, ◌⊎◌, ◌<◌, false, length, unsnoc, ◌∷◌, some, ◌||◌, arith, set,
  ◌&&◌, ◌++◌, not, ap, true, [], suc, unsnoc-some, Bool-cases, length-set, zero, length-append,
  ◌==◌, ◌∙◌, inl, get_or-set_self, sym, inr, nat_eq, ◌≢◌, get_or-set_ne, if◌then◌else◌, refl,
}
use shuriken.Build.Data.{CleanSteps, StepIndex, FingerprintMatchesMemo, phony, step_at}
use shuriken.Build.Graph.{
  Plan, BuildError, Nodes, same_output, Outcome, done, internal, failed, Build, node_at,
  out_of_fuel, ◌>>=◌,
}
use shuriken.Build.Ready.{
  Context, Discard, discard_step, mark_step_node_as_done, output_file_ids_for_build_step,
}

-- What the loop may discard
abbrev pub is_discardable : Context → CleanSteps → StepIndex → Bool
is_discardable context clean_steps i = get_or clean_steps i false || phony (step_at context.steps i)

-- `started` are the steps that were looked at, `finished` those of them that were discarded.
pub record IsDiscarding (plan : Plan) (context : Context) (clean_steps : CleanSteps)
    (started finished : StepIndex → Bool) (d : Discard) : Type 0 where
  pub run : IsRun plan started finished d.build.step_nodes d.build.ready_steps
  pub kept : (i : StepIndex) → count i d.new_ready_steps ≡ to_number (started i && not (finished i))
  pub size : length d.visited ≡ length d.build.step_nodes
  pub seen : (i : StepIndex) → get_or d.visited i false ≡ started i
  pub clean : (i : StepIndex) → started i ≡ true → finished i ≡ is_discardable context clean_steps i

abbrev pub measure : Discard → ℕ
measure d = all_dependencies d.build.step_nodes + length d.build.ready_steps

lt-length_of_built : (nodes : Nodes) (i : StepIndex) → IsBuilt nodes i → i < length nodes
lt-length_of_built [] i h = absurd (cc)
lt-length_of_built (n ∷ ns) zero h = omega arith
lt-length_of_built (n ∷ ns) (suc i) h = omega (arith, lt-length_of_built ns i h)

module _ (plan : Plan) (context : Context) (memo : FingerprintMatchesMemo)
    (clean_steps : CleanSteps) where
  abbrev pub Discarding : (StepIndex → Bool) → (StepIndex → Bool) → Discard → Type 0
  Discarding = IsDiscarding plan context clean_steps

  -- Two steps wrote one file, or a step to discard has outputs that the log or the memo lacks.
  abbrev pub IsFailure : BuildError → Type 0
  IsFailure e =
      (e ≡ same_output)
      ⊎ ((e ≡ internal)
          × (i : StepIndex) × (is_discardable context clean_steps i ≡ true)
          × (output_file_ids_for_build_step context.invocations memo (step_at context.steps i)
              ≡ failed internal))

  -- One round
  abbrev pub IsRound : ℕ → Outcome Discard → Type 0
  IsRound bound (done d) =
      (started : StepIndex → Bool) × (finished : StepIndex → Bool) × Discarding started finished d
      × (measure d < bound)
  IsRound bound (failed e) = IsFailure e
  IsRound bound out_of_fuel = ⊥

  module _ (started finished : StepIndex → Bool) (d : Discard) (rest : List StepIndex)
      (s : StepIndex) (inv : Discarding started finished d)
      (last : unsnoc d.build.ready_steps ≡ some (rest, s)) where
    open inv use {run, kept, size, seen, clean}

    abbrev popped : Build
    popped = record d.build { ready_steps = rest }

    taken : IsRun plan (with_step started s) finished popped.step_nodes popped.ready_steps
    taken = IsRun-take plan started finished d.build.step_nodes d.build.ready_steps rest s run last

    was_ready : is_ready (node_at d.build.step_nodes s) ≡ true
    was_ready = taken.started_ready s (ground arith)

    unstarted : started s ≡ false
    unstarted = ground (arith, run.exact s, count-unsnoc s s d.build.ready_steps rest last)

    unfinished : finished s ≡ false
    unfinished = ground (arith, run.finished_started s, unstarted)

    shorter : length d.build.ready_steps ≡ length rest + 1
    shorter = ground (
      arith,
      ap (length {A = StepIndex}) (unsnoc-some d.build.ready_steps rest s last),
      length-append rest (s ∷ []),
    )

    seen_after : (i : StepIndex) → get_or (set d.visited s true) i false ≡ with_step started s i
    seen_after i = elim (Bool-cases (s == i)) [
      | inl e ↦
          let same : s ≡ i = ground arith in
          let inside = lt-length_of_built d.build.step_nodes s (ground (arith, was_ready)) in
          subst (λ j. get_or (set d.visited s true) j false ≡ with_step started s j) same
            (ground (arith, get_or-set_self d.visited s true false (rw size inside)))
      | inr e ↦
          let ne : s ≢ i = ground arith in
          ground (arith, get_or-set_ne d.visited s i true false ne, seen i)
    ]

    abbrev is_clean : Bool
    is_clean = is_discardable context clean_steps s

    kept_dirty :
        (i : StepIndex)
        → count i (d.new_ready_steps ++ s ∷ [])
          ≡ to_number (with_step started s i && not (finished i))
    kept_dirty i = elim (Bool-cases (s == i)) [
      | inl e ↦
          let same : s ≡ i = ground arith in
          subst
            (λ j.
              count j (d.new_ready_steps ++ s ∷ [])
              ≡ to_number (with_step started s j && not (finished j)))
            same
            (ground
              (arith, count-append s d.new_ready_steps (s ∷ []), kept s, unstarted, unfinished))
      | inr e ↦ ground (arith, count-append i d.new_ready_steps (s ∷ []), kept i)
    ]

    kept_clean :
        (i : StepIndex)
        → count i d.new_ready_steps
          ≡ to_number (with_step started s i && not (with_step finished s i))
    kept_clean i = elim (Bool-cases (s == i)) [
      | inl e ↦
          let same : s ≡ i = ground arith in
          subst
            (λ j.
              count j d.new_ready_steps
              ≡ to_number (with_step started s j && not (with_step finished s j)))
            same (ground (arith, kept s, unstarted))
      | inr e ↦ ground (arith, kept i)
    ]

    dirty-IsRound :
        is_clean ≡ false
        → IsRound (measure d) (
            done (record {
              build = popped;
              new_ready_steps = d.new_ready_steps ++ s ∷ [];
              visited = set d.visited s true;
              discarded_steps = d.discarded_steps;
            }))
    dirty-IsRound dirty = (
      with_step started s,
      finished,
      record {
        run = taken;
        kept = kept_dirty;
        size = length-set d.visited s true ∙ size;
        seen = seen_after;
        clean = λ i h. elim (Bool-cases (s == i)) [
          | inl e ↦
              let same : s ≡ i = ground arith in
              subst (λ j. finished j ≡ is_discardable context clean_steps j) same
                (unfinished ∙ sym dirty)
          | inr e ↦ clean i (ground arith)
        ];
      },
      omega (arith, shorter),
    )

    clean-IsRound :
        is_clean ≡ true
        → (n : ℕ) (o : Outcome Build)
        → IsMarkResult plan (with_step started s) (with_step finished s) popped o
        → IsRound (measure d) (
            o >>= λ build. done (record {
              build = build;
              new_ready_steps = d.new_ready_steps;
              visited = set d.visited s true;
              discarded_steps = n;
            }))
    clean-IsRound c n (done build) (r, l, w) = (
      with_step started s,
      with_step finished s,
      record {
        run = r;
        kept = kept_clean;
        size = length-set d.visited s true ∙ size ∙ sym l;
        seen = seen_after;
        clean = λ i h. elim (Bool-cases (s == i)) [
          | inl e ↦
              let same : s ≡ i = ground arith in
              subst (λ j. with_step finished s j ≡ is_discardable context clean_steps j) same
                (ground (arith, c))
          | inr e ↦ ground (arith, clean i)
        ];
      },
      omega (arith, shorter, w),
    )
    clean-IsRound c n (failed e) h = inl h
    clean-IsRound c n out_of_fuel h = h

    marked :
        (ids : List FileId)
        → IsMarkResult plan
            (with_step started s)
            (with_step finished s)
            popped
            (mark_step_node_as_done context popped s ids true)
    marked ids =
        mark_step_node_as_done-IsRun plan (with_step started s) finished context popped s ids true
          taken (ground arith) unfinished

    clean_outcome :
        is_clean ≡ true
        → (o : Outcome (List FileId))
        → output_file_ids_for_build_step context.invocations memo (step_at context.steps s) ≡ o
        → IsFound o
        → IsRound (measure d) (
            o >>= λ ids. mark_step_node_as_done context popped s ids true >>= λ build.
            done (record {
              build = build;
              new_ready_steps = d.new_ready_steps;
              visited = set d.visited s true;
              discarded_steps =
                  d.discarded_steps + (if phony (step_at context.steps s) then 0 else 1);
            }))
    clean_outcome c (done ids) eq h = clean-IsRound c _ _ (marked ids)
    clean_outcome c (failed e) eq h = inr (
      h,
      s,
      c,
      subst
          (λ x.
            output_file_ids_for_build_step context.invocations memo (step_at context.steps s)
            ≡ failed x)
          h eq,
    )
    clean_outcome c out_of_fuel eq h = h

    pub round : IsRound (measure d) (discard_step context memo clean_steps d rest s)
    unfolding discard_step
    round = elim (Bool-cases (get_or d.visited s false)) [
      | inl v ↦ absurd (cc (v, seen s, unstarted))
      | inr v ↦ elim (Bool-cases is_clean) [
        | inl c ↦
            rw (v, c)
              (clean_outcome c _ refl
                (output_file_ids-IsFound context.invocations memo (step_at context.steps s)))
        | inr c ↦ rw (v, c) (dirty-IsRound c)
      ]
    ]
