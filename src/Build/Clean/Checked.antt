-- ===== src/Build/Clean/Checked.antt =====
-- About `isClean` and `computeCleanSteps` of build.cpp, compared with a check without a memo.
use shuriken.Build.Memo.Covered.{IsCovered}
use shuriken.Build.Memo.Used.{uses}
use shuriken.Build.Graph.Progress.{IsBuilt}
use mathlib.Core.Path.{subst}
use shuriken.Prelude.Assoc.{lookup}
use shuriken.Build.Memo.Filled.{IsMatchAt}
use shuriken.Build.Graph.{done, Outcome, Nodes, node_at}
use shuriken.Build.Memo.{match_at}
use shuriken.Fs.Fingerprint.{Fingerprint, MatchesResult}
use Prim.Native.String.{String}
use shuriken.Build.Clean.{
  process_files, Verdict, generator_step_is_clean, non_generator_step_is_clean, is_clean,
  RanCommand, relog_command, clean_from, compute_clean_steps,
}
use shuriken.Prelude.{
  ℕ, List, Bool, elem, Option, true, if◌then◌else◌, ◌≡◌, ◌∷◌, some, get_or, arith, ◌&&◌, false,
  none, Bool-cases, [], inl, nat_eq, Option-cases, inr, refl, ◌||◌, length, ◌+◌, ◌<◌, suc, ◌++◌,
  Nat-cases, ap, sym,
}
use shuriken.Build.Data.{
  Invocations, Step, FingerprintMatchesMemo, Entry, StepIndex, step_at, CleanSteps,
}
use shuriken.Fs.FileSystem.{FileSystem, ok, io_error}

module _ (fs : FileSystem) (invocations : Invocations) where
  -- Whether the file of a fingerprint matches it, without a memo
  abbrev pub matches_now : ℕ → Bool
  matches_now i = elim (match_at fs invocations.fingerprints i) [
    | ok r ↦ r.clean
    | io_error e ↦ false
  ]

  abbrev pub all_match : List ℕ → Bool
  all_match [] = true
  all_match (i ∷ is) = matches_now i && all_match is

  -- A generator step goes by the times of its files. Another is up to date if it is in the log and
  -- all of its files match.
  abbrev pub is_up_to_date : Step → Bool
  is_up_to_date s =
      if s.generator
      then generator_step_is_clean fs s
      else elim (lookup s.hash invocations.entries) [
        | none ↦ false
        | some e ↦ all_match e.output_files && all_match e.input_files
      ]

  -- The memo has the matches of the files.
  abbrev HasMatches : FingerprintMatchesMemo → List ℕ → Type 0
  HasMatches memo is =
      (i : ℕ) → elem i is ≡ true → IsMatchAt fs invocations.fingerprints i (get_or memo i none)

  matches_now-IsMatchAt :
      (i : ℕ) (o : Option MatchesResult) (r : MatchesResult)
      → o ≡ some r
      → IsMatchAt fs invocations.fingerprints i o
      → matches_now i ≡ r.clean
  matches_now-IsMatchAt i none r e m = absurd m
  matches_now-IsMatchAt i (some q) r e m = ground arith

  process_files-eq :
      (memo : FingerprintMatchesMemo) (is : List ℕ) (v : Verdict)
      → HasMatches memo is
      → (w : Verdict) × (process_files memo is v ≡ done w) × (w.clean ≡ (v.clean && all_match is))
  unfolding process_files
  process_files-eq memo [] v h = (v, refl, ground arith)
  process_files-eq memo (i ∷ is) v h = elim (Bool-cases v.clean) [
    | inl c ↦ elim (Option-cases (get_or memo i none)) [
      | inl n ↦ absurd (subst (IsMatchAt fs invocations.fingerprints i) n (h i (ground arith)))
      | inr (r, e) ↦
          let now = matches_now-IsMatchAt i (get_or memo i none) r e (h i (ground arith)) in
          let (w, p, q) =
            process_files-eq memo is
              (record { clean = r.clean; should_update = v.should_update || r.should_update })
              (λ j m. h j (ground arith)) in
          (w, rw (c, e) p, ground (arith, now, q))
    ]
    | inr c ↦ (v, rw c refl, ground arith)
  ]

  module _ (fingerprint_files : List String → List Fingerprint)
      (memo : FingerprintMatchesMemo) where
    abbrev IsVerdict : Bool → Outcome (Bool × List RanCommand) → Type 0
    IsVerdict b o = (log : List RanCommand) × (o ≡ done (b, log))

    non_generator_step_is_clean-IsVerdict :
        (s : Step) (e : Entry)
        → lookup s.hash invocations.entries ≡ some e
        → HasMatches memo e.output_files
        → HasMatches memo e.input_files
        → IsVerdict
            (all_match e.output_files && all_match e.input_files)
            (non_generator_step_is_clean fs fingerprint_files memo invocations s)
    unfolding non_generator_step_is_clean
    non_generator_step_is_clean-IsVerdict s e l outs ins =
        let (v, p, q) =
          process_files-eq memo e.output_files (record { clean = true; should_update = false })
            outs in
        let (w, p', q') = process_files-eq memo e.input_files v ins in
        (
          if w.should_update && w.clean
              then relog_command fingerprint_files invocations e s.hash ∷ []
              else [],
          ground (arith, p, p', q', q),
        )

    is_clean-IsVerdict :
        (s : Step)
        → ((e : Entry)
            → lookup s.hash invocations.entries ≡ some e
            → HasMatches memo e.output_files × HasMatches memo e.input_files)
        → IsVerdict (is_up_to_date s) (is_clean fs fingerprint_files memo invocations s)
    unfolding is_clean
    is_clean-IsVerdict s h = elim (Bool-cases s.generator) [
      | inl g ↦ ([], ground arith)
      | inr g ↦ elim (Option-cases (lookup s.hash invocations.entries)) [
        | inl n ↦ ([], unfold non_generator_step_is_clean in ground arith)
        | inr (e, l) ↦
            let (outs, ins) = h e l in
            let (log, p) = non_generator_step_is_clean-IsVerdict s e l outs ins in
            (log, ground (arith, p))
      ]
    ]

    clean_from-IsVerdict :
        (steps : List Step) (k : ℕ) (nodes : Nodes)
        → ((i j : StepIndex) (e : Entry)
            → j ≡ k + i
            → IsBuilt nodes i
            → lookup (step_at steps j).hash invocations.entries ≡ some e
            → HasMatches memo e.output_files × HasMatches memo e.input_files)
        → (clean : CleanSteps) × (log : List RanCommand) × (clean_from fs fingerprint_files memo
              invocations steps k nodes
            ≡ done (clean, log))
          × (length clean ≡ length nodes)
          × ((i j : StepIndex)
              → j ≡ k + i
              → get_or clean i false
                ≡ ((node_at nodes i).should_build && is_up_to_date (step_at steps j)))
    unfolding clean_from
    clean_from-IsVerdict steps k [] h = ([], [], refl, refl, λ i j e. refl)
    clean_from-IsVerdict steps k (n ∷ ns) h =
        let (cs, logs, p, size, at) =
          clean_from-IsVerdict steps (k + 1) ns (λ i j e q b l. h (suc i) j e (omega arith) b l) in
        elim (Bool-cases n.should_build) [
          | inl b ↦
              let (log, v) =
                is_clean-IsVerdict (step_at steps k) (λ e l. h 0 k e (omega arith) b l) in
              (
                is_up_to_date (step_at steps k) ∷ cs,
                log ++ logs,
                ground (arith, v, p),
                omega (arith, size),
                λ i j q. elim (Nat-cases i) [
                  | inl z ↦
                      let same : j ≡ k = omega arith in
                      rw (z, b) (ap (λ x. is_up_to_date (step_at steps x)) (sym same))
                  | inr (i', z) ↦ rw z (at i' j (omega arith))
                ],
              )
          | inr b ↦ (
            false ∷ cs,
            logs,
            ground (arith, p),
            omega (arith, size),
            λ i j q. elim (Nat-cases i) [
              | inl z ↦ rw (z, b) refl
              | inr (i', z) ↦ rw z (at i' j (omega arith))
            ],
          )
        ]

    -- For a build whose memo covers the files of its steps, where the log's indices are in range and
    -- there is a node for each step: computing the clean steps fails no assertion, and a step is clean
    -- exactly if it is in the build and is up to date: a generator step goes by the times of its files,
    -- and another step is in the log with each of its files matching its fingerprint now.
    pub compute_clean_steps-eq :
        (steps : List Step) (nodes : Nodes)
        → length steps ≡ length nodes
        → ((i : StepIndex) (e : Entry) (f : ℕ)
            → lookup (step_at steps i).hash invocations.entries ≡ some e
            → uses e f ≡ true
            → f < length invocations.fingerprints)
        → IsCovered fs invocations steps nodes memo
        → (clean : CleanSteps) × (log : List RanCommand) × (compute_clean_steps fs fingerprint_files
              memo invocations steps nodes
            ≡ done (clean, log))
          × (length clean ≡ length nodes)
          × ((i : StepIndex)
              → get_or clean i false
                ≡ ((node_at nodes i).should_build && is_up_to_date (step_at steps i)))
    unfolding compute_clean_steps
    compute_clean_steps-eq steps nodes same in_range covered =
        let (clean, log, p, size, at) = clean_from-IsVerdict steps 0 nodes (λ i j e q b l.
          let eq : j ≡ i = omega arith in
          let l' = subst (λ x. lookup (step_at steps x).hash invocations.entries ≡ some e) eq l in
          (
            λ f m. covered i e f b l' (ground arith) (in_range i e f l' (ground arith)),
            λ f m. covered i e f b l' (ground arith) (in_range i e f l' (ground arith)),
          )) in
        (clean, log, ground (arith, p), size, λ i. at i i (omega arith))
