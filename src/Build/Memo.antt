-- ===== src/Build/Memo.antt =====
-- Which fingerprints a build uses, and whether they match: `Invocations::fingerprintsFor` of
-- src/shk/src/log/invocations.cpp, and `computeFingerprintMatchesMemo` of build.cpp. Threads share the
-- work. In `fingerprintsFor` each has its own flags, so what matters is which entries each one got,
-- which is a parameter, `shares`. In the memo each index is written by one thread, with a value that
-- the others do not change, so one order of the indices stands for all.
pub mod Used
pub mod Filled
pub mod Covered
use shuriken.Prelude.Assoc.{lookup}
use shuriken.Build.Graph.{Nodes, Outcome, done, failed, terminate}
use shuriken.Fs.Fingerprint.{Fingerprint, no_stat, MatchesResult, fingerprint_matches}
use shuriken.Fs.FileSystem.{FileSystem, Io, ok, io_error}
use shuriken.Build.Data.{Invocations, Entry, Step, FingerprintMatchesMemo, step_at}
use shuriken.Prelude.{
  List, ℕ, Bool, ◌∷◌, map, false, [], length, set, replicate, get_or, suc, ◌+◌, true, none, ◌||◌,
  if◌then◌else◌, some, zero, nat_eq,
}
use Prim.Native.String.{String}

-- A fingerprint index that is out of range has this path and fingerprint.
abbrev pub no_fingerprint : String × Fingerprint
no_fingerprint = ("", record { stat = no_stat; racily_clean = false; hash = 0 })

pub flag_all : List ℕ → List Bool → List Bool
flag_all [] flags = flags
flag_all (i ∷ is) flags = flag_all is (set flags i true)

-- What one thread flags
pub flag_entries : List Entry → List Bool → List Bool
flag_entries [] flags = flags
flag_entries (e ∷ es) flags =
    flag_entries es (flag_all e.input_files (flag_all e.output_files flags))

pub find_used_fingerprints : ℕ → List (List Entry) → List (List Bool)
find_used_fingerprints size shares = map (λ es. flag_entries es (replicate size false)) shares

-- Whether a thread flagged the index
pub flagged : List (List Bool) → ℕ → Bool
flagged [] i = false
flagged (flags ∷ rest) i = get_or flags i false || flagged rest i

-- The loop of `fingerprintsFor`: `n` indices from `i` on
pub flagged_from : List (List Bool) → ℕ → ℕ → List ℕ
flagged_from used i zero = []
flagged_from used i (suc n) =
    let rest = flagged_from used (i + 1) n in if flagged used i then i ∷ rest else rest

pub fingerprints_for : Invocations → List (List Entry) → List ℕ
fingerprints_for invocations shares =
    let size = length invocations.fingerprints in
    flagged_from (find_used_fingerprints size shares) 0 size

-- The log entries of the steps in the build; the first node has index `i`.
pub entries_from : Invocations → List Step → ℕ → Nodes → List Entry
entries_from invocations steps i [] = []
entries_from invocations steps i (n ∷ ns) =
    let rest = entries_from invocations steps (i + 1) ns in
    if n.should_build
    then elim (lookup (step_at steps i).hash invocations.entries) [
      | none ↦ rest
      | some entry ↦ entry ∷ rest
    ]
    else rest

-- `fingerprintMatches` of the fingerprint with an index
abbrev pub match_at : FileSystem → List (String × Fingerprint) → ℕ → Io MatchesResult
match_at fs fingerprints i =
    let (path, fp) = get_or fingerprints i no_fingerprint in fingerprint_matches fs path fp

-- The loop over the used fingerprints. An exception in a thread ends the program.
pub fill_memo :
    FileSystem
    → List (String × Fingerprint)
    → List ℕ
    → FingerprintMatchesMemo
    → Outcome FingerprintMatchesMemo
fill_memo fs fingerprints [] memo = done memo
fill_memo fs fingerprints (i ∷ is) memo = elim (match_at fs fingerprints i) [
  | ok r ↦ fill_memo fs fingerprints is (set memo i (some r))
  | io_error e ↦ failed terminate
]

pub compute_used_memo :
    FileSystem → List (String × Fingerprint) → List ℕ → Outcome FingerprintMatchesMemo
compute_used_memo fs fingerprints used =
    fill_memo fs fingerprints used (replicate (length fingerprints) none)

-- `shares` is how the threads share out the entries of the build.
pub compute_fingerprint_matches_memo :
    FileSystem → Invocations → List (List Entry) → Outcome FingerprintMatchesMemo
compute_fingerprint_matches_memo fs invocations shares =
    compute_used_memo fs invocations.fingerprints (fingerprints_for invocations shares)
