-- ===== src/Fs/Fingerprint/Mode.antt =====
-- About `Fingerprint::Stat::fromStat` of fingerprint.cpp, and the type bits of `st_mode`.
use shuriken.Prelude.{◌/◌, ◌≡◌, ◌%◌, arith, Bool-cases, inl, inr}
use Prim.Native.Nat.{ℕ}
use shuriken.Fs.Fingerprint.{
  fingerprint_mode, from_stat, could_access, is_dir, is_dir_mode, Stat, nat_beq,
}

fingerprint_mode-type : (mode : ℕ) → fingerprint_mode mode / 4096 % 16 ≡ mode / 4096 % 16
unfolding fingerprint_mode
fingerprint_mode-type mode = ground arith

-- The stat of a fingerprint can be accessed exactly if lstat succeeded, and where it did it is a
-- directory's exactly if the file is a directory.
pub from_stat-keeps_type :
    (s : Stat)
    → (could_access (from_stat s) ≡ nat_beq s.result 0)
      × (s.result ≡ 0 → is_dir (from_stat s) ≡ is_dir_mode s.mode)
unfolding could_access from_stat is_dir
from_stat-keeps_type s = elim (Bool-cases (nat_beq s.result 0)) [
  | inl e ↦ rw e (unfold fingerprint_mode in ground arith, λ h. rw fingerprint_mode-type)
  | inr e ↦ rw e (ground arith, λ h. absurd (ground arith))
]
