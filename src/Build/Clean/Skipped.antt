-- ===== src/Build/Clean/Skipped.antt =====
-- About `canSkipBuildCommand` of build.cpp.
use mathlib.Core.Path.{subst}
use shuriken.Build.Memo.{no_fingerprint}
use shuriken.Fs.Fingerprint.Taken.{current}
use shuriken.Build.Clean.{inputs_unchanged, can_skip_build_command}
use shuriken.Prelude.{
  List, ℕ, elem, Bool, ◌≡◌, some, true, get_or, arith, ◌∷◌, ◌↔◌, Option-cases, false, nat_eq, inl,
  ◌⊎◌, Bool-cases, inr, ◌==◌, [], refl,
}
use shuriken.Fs.Fingerprint.{Fingerprint, matches_new_stat, matches_stat_hash}
use shuriken.Build.Data.{Invocations, CleanSteps, Step, StepIndex, Entry}
use Prim.Native.String.{String}
use shuriken.Fs.FileId.{FileId, file_id_eq}
use shuriken.Prelude.Assoc.{Assoc, lookup}
use shuriken.Fs.FileSystem.{FileSystem, Hash, file_id_of}

-- An input file that was written in this build is what it was when the step last ran.
abbrev pub IsUnchanged : FileSystem → Assoc FileId Hash → String × Fingerprint → Type 0
IsUnchanged fs written (path, fp) =
    (h : Hash)
    → lookup (file_id_of (fs.lstat path)) written ≡ some h
    → ((current fs path).size ≡ fp.stat.size)
      × ((current fs path).mode ≡ fp.stat.mode)
      × (h ≡ fp.hash)

abbrev pub AllUnchanged : FileSystem → Assoc FileId Hash → Invocations → List ℕ → Type 0
AllUnchanged fs written invocations is =
    (i : ℕ)
    → elem i is ≡ true
    → IsUnchanged fs written (get_or invocations.fingerprints i no_fingerprint)

module _ (fs : FileSystem) (written : Assoc FileId Hash) (invocations : Invocations) where
  matches-IsUnchanged :
      (path : String) (fp : Fingerprint) (h : Hash)
      → lookup (file_id_of (fs.lstat path)) written ≡ some h
      → matches_new_stat fp (fs.lstat path) h ≡ true
      → IsUnchanged fs written (path, fp)
  unfolding matches_new_stat matches_stat_hash
  matches-IsUnchanged path fp h l m g e = (ground arith, ground arith, ground arith)

  IsUnchanged-matches :
      (path : String) (fp : Fingerprint) (h : Hash)
      → lookup (file_id_of (fs.lstat path)) written ≡ some h
      → IsUnchanged fs written (path, fp)
      → matches_new_stat fp (fs.lstat path) h ≡ true
  unfolding matches_new_stat matches_stat_hash
  IsUnchanged-matches path fp h l u = let (s, m, e) = u h l in ground arith

  inputs_unchanged_sound :
      (is : List ℕ)
      → inputs_unchanged fs written invocations is ≡ true
      → AllUnchanged fs written invocations is
  unfolding inputs_unchanged
  inputs_unchanged_sound [] h i e = absurd (cc)
  inputs_unchanged_sound (j ∷ is) h i e =
      let (path, fp) = get_or invocations.fingerprints j no_fingerprint in
      elim (Option-cases (lookup (file_id_of (fs.lstat path)) written)) [
        | inl n ↦ elim (Bool-cases (j == i)) [
          | inl q ↦
              let same : j ≡ i = ground arith in
              subst (λ k. IsUnchanged fs written (get_or invocations.fingerprints k no_fingerprint))
                same (λ g l. absurd (cc (n, l)))
          | inr q ↦ inputs_unchanged_sound is (ground arith) i (ground arith)
        ]
        | inr (g, l) ↦ elim (Bool-cases (j == i)) [
          | inl q ↦
              let same : j ≡ i = ground arith in
              subst (λ k. IsUnchanged fs written (get_or invocations.fingerprints k no_fingerprint))
                same (matches-IsUnchanged path fp g l (ground arith))
          | inr q ↦ inputs_unchanged_sound is (ground arith) i (ground arith)
        ]
      ]

  inputs_unchanged_complete :
      (is : List ℕ)
      → AllUnchanged fs written invocations is
      → inputs_unchanged fs written invocations is ≡ true
  unfolding inputs_unchanged
  inputs_unchanged_complete [] h = refl
  inputs_unchanged_complete (j ∷ is) h =
      let (path, fp) = get_or invocations.fingerprints j no_fingerprint in
      let rest = inputs_unchanged_complete is (λ i e. h i (ground arith)) in
      elim (Option-cases (lookup (file_id_of (fs.lstat path)) written)) [
        | inl n ↦ ground (arith, n, rest)
        | inr (g, l) ↦ ground (arith, l, rest, IsUnchanged-matches path fp g l (h j (ground arith)))
      ]

  pub can_skip_iff :
      (clean_steps : CleanSteps) (no_direct : Bool) (step : Step) (i : StepIndex)
      → (can_skip_build_command fs clean_steps written invocations no_direct step i ≡ true) ↔ (
          (get_or clean_steps i false ≡ true)
          × ((no_direct ≡ true)
              ⊎ ((entry : Entry) × (lookup step.hash invocations.entries ≡ some entry)
                  × AllUnchanged fs written invocations entry.input_files)))
  unfolding can_skip_build_command
  can_skip_iff clean_steps no_direct step i = (λ h. forward h, λ (c, r). back c r)
    where
      forward :
          can_skip_build_command fs clean_steps written invocations no_direct step i ≡ true
          → (get_or clean_steps i false ≡ true)
            × ((no_direct ≡ true)
                ⊎ ((entry : Entry) × (lookup step.hash invocations.entries ≡ some entry)
                    × AllUnchanged fs written invocations entry.input_files))
      forward h = elim (Bool-cases (get_or clean_steps i false)) [
        | inl c ↦ (
          c,
          elim (Bool-cases no_direct) [
            | inl n ↦ inl n
            | inr n ↦ elim (Option-cases (lookup step.hash invocations.entries)) [
              | inl l ↦ absurd (ground arith)
              | inr (entry, l) ↦
                  inr (entry, l, inputs_unchanged_sound entry.input_files (ground arith))
            ]
          ],
        )
        | inr c ↦ absurd (ground arith)
      ]

      back :
          get_or clean_steps i false ≡ true
          → (no_direct ≡ true)
            ⊎ ((entry : Entry) × (lookup step.hash invocations.entries ≡ some entry)
                × AllUnchanged fs written invocations entry.input_files)
          → can_skip_build_command fs clean_steps written invocations no_direct step i ≡ true
      back c (inl n) = ground arith
      back c (inr (entry, l, u)) = ground (arith, inputs_unchanged_complete entry.input_files u)
