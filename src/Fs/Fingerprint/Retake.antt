-- ===== src/Fs/Fingerprint/Retake.antt =====
-- About `retakeFingerprint` of fingerprint.cpp, compared with `takeFingerprint`.
use shuriken.Fs.FileSystem.{Stat}
use shuriken.Prelude.{refl, ◌≡◌, Bool-cases, inl, arith, inr, ◌<◌, nat_beq, ap, false, sym, ◌∙◌}
use shuriken.Fs.Fingerprint.Taken.{IsTaken, IsUntampered, current, fast_path-hash}
use shuriken.Fs.Fingerprint.{
  retake_fingerprint, take_fingerprint, matches_with, matches_stat_hash, FileSystem, ℕ, String,
  Fingerprint, needs_no_hash, fingerprint_mode, from_stat, from_stat_over, no_stat, FingerprintStat,
  same_size_mode,
}

-- A file that could be looked at has a mode that is not 0.
fingerprint_mode_positive : (mode : ℕ) → 0 < fingerprint_mode mode
unfolding fingerprint_mode
fingerprint_mode_positive mode = omega arith

from_stat-missing : (stat : Stat) → nat_beq stat.result 0 ≡ false → from_stat stat ≡ no_stat
unfolding from_stat
from_stat-missing stat h = rw h refl

from_stat-no_mode : (stat : Stat) → (from_stat stat).mode ≡ 0 → from_stat stat ≡ no_stat
unfolding from_stat
from_stat-no_mode stat h = elim (Bool-cases (nat_beq stat.result 0)) [
  | inl there ↦ let positive = fingerprint_mode_positive stat.mode in absurd (ground arith)
  | inr gone ↦ rw gone refl
]

-- Where the file is as accessible as it was when the fingerprint was taken, keeping the old stat of a
-- file that is missing makes no difference.
stat_over-eq :
    (before after : FileSystem) (t : ℕ) (path : String) (old : Fingerprint)
    → IsTaken before t path old
    → (current after path).mode ≡ old.stat.mode
    → from_stat_over old.stat (after.lstat path) ≡ current after path
stat_over-eq before after t path old taken h =
    elim (Bool-cases (nat_beq (after.lstat path).result 0)) [
      | inl there ↦ rw there refl
      | inr gone ↦
          let empty = from_stat-missing (after.lstat path) gone in
          let no_mode : (current before path).mode ≡ 0 =
            ap (λ (s : FingerprintStat). s.mode) (sym taken.stat_eq)
            ∙ sym h
            ∙ ap (λ (s : FingerprintStat). s.mode) empty in
          let old_empty = taken.stat_eq ∙ from_stat-no_mode (before.lstat path) no_mode in
          rw gone (old_empty ∙ sym empty)
    ]

-- Of files whose times were not tampered with since the old fingerprint was taken, retaking returns
-- what taking returns: the same fingerprint and file id, or the same error.
pub retake-eq-take :
    (before after : FileSystem) (t now : ℕ) (path : String) (old : Fingerprint)
    → IsTaken before t path old
    → IsUntampered before after t path
    → retake_fingerprint after now path old ≡ take_fingerprint after now path
unfolding retake_fingerprint take_fingerprint matches_with matches_stat_hash
retake-eq-take before after t now path old taken untampered =
    elim (Bool-cases (needs_no_hash old (current after path))) [
      | inl e ↦
          let (same, hash) = fast_path-hash before after t path old taken untampered e in
          let kept =
            stat_over-eq before after t path old taken
              (ap (λ (s : FingerprintStat). s.mode) same) in
          ground (arith, kept)
      | inr e ↦ elim (Bool-cases (same_size_mode old (current after path))) [
        | inl m ↦
            let kept = stat_over-eq before after t path old taken (ground arith) in
            ground (arith, kept)
        | inr m ↦ ground arith
      ]
    ]
