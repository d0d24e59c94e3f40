-- ===== src/Build/Memo/Filled.antt =====
-- About the loop of `computeFingerprintMatchesMemo` of build.cpp.
use mathlib.Core.Path.{subst}
use shuriken.Build.Graph.{Outcome, done, failed, terminate, out_of_fuel}
use shuriken.Build.Data.{FingerprintMatchesMemo}
use shuriken.Build.Memo.{fill_memo, match_at}
use shuriken.Fs.Fingerprint.{Fingerprint, MatchesResult}
use Prim.Native.String.{String}
use shuriken.Prelude.{
  List, ℕ, Option, ◌∷◌, some, length, ◌≡◌, elem, set, true, length-set, none, ◌<◌, ◌∙◌, get_or,
  Bool-cases, false, arith, inl, inr, nat_eq, [], sym, refl, get_or-set_self, get_or-set_ne,
}
use shuriken.Fs.FileSystem.{FileSystem, Io, ok, io_error}

module _ (fs : FileSystem) (fingerprints : List (String × Fingerprint)) where
  abbrev pub IsMatchAt : ℕ → Option MatchesResult → Type 0
  IsMatchAt i none = ⊥
  IsMatchAt i (some r) = match_at fs fingerprints i ≡ ok r

  -- `before` is the memo that the loop begins with.
  abbrev pub IsFilled : List ℕ → FingerprintMatchesMemo → Outcome FingerprintMatchesMemo → Type 0
  IsFilled used before (done memo) =
      (length memo ≡ length before)
      × ((i : ℕ) → elem i used ≡ true → i < length before → IsMatchAt i (get_or memo i none))
      × ((i : ℕ) → elem i used ≡ false → get_or memo i none ≡ get_or before i none)
  IsFilled used before (failed e) =
      (e ≡ terminate)
      × (i : ℕ) × (elem i used ≡ true)
      × (code : ℕ) × (match_at fs fingerprints i ≡ io_error code)
  IsFilled used before out_of_fuel = ⊥

  IsFilled-cons :
      (i : ℕ) (is : List ℕ) (before : FingerprintMatchesMemo) (r : MatchesResult)
      (o : Outcome FingerprintMatchesMemo)
      → match_at fs fingerprints i ≡ ok r
      → IsFilled is (set before i (some r)) o
      → IsFilled (i ∷ is) before o
  IsFilled-cons i is before r (done memo) m (size, at, other) =
      let same_size = length-set before i (some r) in
      (
        size ∙ same_size,
        λ j e lt. elim (Bool-cases (elem j is)) [
          | inl later ↦ at j later (omega (arith, same_size))
          | inr last ↦
              let same : i ≡ j = ground arith in
              let written : get_or memo i none ≡ some r =
                other i (subst (λ k. elem k is ≡ false) (sym same) last)
                ∙ get_or-set_self before i (some r) none (rw same lt) in
              subst (λ k. IsMatchAt k (get_or memo k none)) same (rw (written, IsMatchAt) m)
        ],
        λ j e. other j (ground arith) ∙ get_or-set_ne before i j (some r) none (ground arith),
      )
  IsFilled-cons i is before r (failed e) m (t, j, u, c, h) = (t, j, ground arith, c, h)
  IsFilled-cons i is before r out_of_fuel m h = h

  pub fill_memo-IsFilled :
      (used : List ℕ) (before : FingerprintMatchesMemo)
      → IsFilled used before (fill_memo fs fingerprints used before)
  unfolding fill_memo
  fill_memo-IsFilled [] before = (refl, λ i h. absurd (cc), λ i h. refl)
  fill_memo-IsFilled (i ∷ is) before =
      go (match_at fs fingerprints i) refl (λ r. fill_memo-IsFilled is (set before i (some r)))
    where
      go :
          (m : Io MatchesResult)
          → match_at fs fingerprints i ≡ m
          → ((r : MatchesResult)
              → IsFilled is
                  (set before i (some r))
                  (fill_memo fs fingerprints is (set before i (some r))))
          → IsFilled (i ∷ is) before (elim m [
            | ok r ↦ fill_memo fs fingerprints is (set before i (some r))
            | io_error e ↦ failed terminate
          ])
      go (ok r) e rest = IsFilled-cons i is before r _ e (rest r)
      go (io_error c) e rest = (refl, i, ground arith, c, e)
