-- ===== src/Build/Memo/Covered.antt =====
-- About `computeFingerprintMatchesMemo` of build.cpp, for the entries of a build.
use shuriken.Build.Memo.Filled.{IsMatchAt, IsFilled, fill_memo-IsFilled}
use mathlib.Core.Path.{subst}
use Prim.Native.String.{String}
use shuriken.Prelude.Assoc.{lookup}
use shuriken.Build.Graph.Progress.{IsBuilt}
use shuriken.Fs.Fingerprint.{MatchesResult, Fingerprint}
use shuriken.Build.Graph.{Nodes, done, Outcome, failed, out_of_fuel, terminate}
use shuriken.Build.Memo.Used.{IsIn, uses, elem-fingerprints_for}
use shuriken.Build.Data.{Invocations, Entry, Step, FingerprintMatchesMemo, StepIndex, step_at}
use shuriken.Fs.FileSystem.{FileSystem, io_error}
use shuriken.Prelude.{
  List, ℕ, ◌≡◌, ◌+◌, some, ◌∷◌, arith, true, replicate, length, ◌<◌, inl, none, get_or, suc,
  Bool-cases, nat_eq, Option-cases, inr, [], zero, length-replicate, Option, refl,
}
use shuriken.Build.Memo.{
  entries_from, compute_fingerprint_matches_memo, compute_used_memo, match_at, fingerprints_for,
}

IsIn-entries_from :
    (invocations : Invocations) (steps : List Step) (k i j : ℕ) (nodes : Nodes) (e : Entry)
    → j ≡ k + i
    → IsBuilt nodes i
    → lookup (step_at steps j).hash invocations.entries ≡ some e
    → IsIn e (entries_from invocations steps k nodes)
unfolding entries_from
IsIn-entries_from invocations steps k i j [] e eq b h = absurd (cc)
IsIn-entries_from invocations steps k zero j (n ∷ ns) e eq b h =
    let same : j ≡ k = omega arith in
    let found : lookup (step_at steps k).hash invocations.entries ≡ some e =
      subst (λ x. lookup (step_at steps x).hash invocations.entries ≡ some e) same h in
    rw (b, found, IsIn) (inl refl)
IsIn-entries_from invocations steps k (suc i) j (n ∷ ns) e eq b h =
    skip (IsIn-entries_from invocations steps (k + 1) i j ns e (omega arith) b h)
  where
    rest : List Entry
    rest = entries_from invocations steps (k + 1) ns

    skip : IsIn e rest → IsIn e (entries_from invocations steps k (n ∷ ns))
    skip r = elim (Bool-cases n.should_build) [
      | inl s ↦ elim (Option-cases (lookup (step_at steps k).hash invocations.entries)) [
        | inl l ↦ rw (s, l) r
        | inr (x, l) ↦ rw (s, l, IsIn) (inr r)
      ]
      | inr s ↦ rw s r
    ]

-- The threads share out all entries.
abbrev pub IsSharedOut : List Entry → List (List Entry) → Type 0
IsSharedOut entries shares =
    (e : Entry) → IsIn e entries → (es : List Entry) × IsIn es shares × IsIn e es

-- Each file of each logged step in the build has a match in the memo.
abbrev pub IsCovered :
    FileSystem → Invocations → List Step → Nodes → FingerprintMatchesMemo → Type 0
IsCovered fs invocations steps nodes memo =
    (i : StepIndex) (e : Entry) (f : ℕ)
    → IsBuilt nodes i
    → lookup (step_at steps i).hash invocations.entries ≡ some e
    → uses e f ≡ true
    → f < length invocations.fingerprints
    → IsMatchAt fs invocations.fingerprints f (get_or memo f none)

-- The memo is computed, or a fingerprint could not be compared and the program ends.
abbrev pub IsComputed :
    FileSystem → Invocations → List Step → Nodes → Outcome FingerprintMatchesMemo → Type 0
IsComputed fs invocations steps nodes (done memo) = IsCovered fs invocations steps nodes memo
IsComputed fs invocations steps nodes (failed e) =
    (e ≡ terminate)
    × (i : ℕ) × (code : ℕ) × (match_at fs invocations.fingerprints i ≡ io_error code)
IsComputed fs invocations steps nodes out_of_fuel = ⊥

-- However the threads share out the log entries of the steps in the build: if computing the memo
-- succeeds, then for each step in the build that is in the log, each of its files has the result of
-- comparing its fingerprint. If not, some fingerprint could not be compared, and the program ends.
pub compute_memo-IsComputed :
    (fs : FileSystem) (invocations : Invocations) (steps : List Step) (nodes : Nodes)
    (shares : List (List Entry))
    → IsSharedOut (entries_from invocations steps 0 nodes) shares
    → IsComputed fs invocations steps nodes (compute_fingerprint_matches_memo fs invocations shares)
unfolding compute_fingerprint_matches_memo compute_used_memo
compute_memo-IsComputed fs invocations steps nodes shares shared =
    go _ (fill_memo-IsFilled fs fingerprints used start)
  where
    fingerprints : List (String × Fingerprint)
    fingerprints = invocations.fingerprints

    used : List ℕ
    used = fingerprints_for invocations shares

    start : FingerprintMatchesMemo
    start = replicate (length fingerprints) none

    go :
        (o : Outcome FingerprintMatchesMemo)
        → IsFilled fs fingerprints used start o
        → IsComputed fs invocations steps nodes o
    go (done memo) (size, at, other) = λ i e f b l u lt.
        let (es, s, m) =
          shared e (IsIn-entries_from invocations steps 0 i i nodes e (omega arith) b l) in
        at f (elem-fingerprints_for invocations shares es e f s m u lt)
          (omega (arith, length-replicate {A = Option MatchesResult} (length fingerprints) none))
    go (failed x) (t, i, u, c, h) = (t, i, c, h)
    go out_of_fuel f = f
