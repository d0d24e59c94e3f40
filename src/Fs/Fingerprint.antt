-- ===== src/Fs/Fingerprint.antt =====
-- src/shk/src/fs/fingerprint.h and fingerprint.cpp. The masks of `st_mode` are written as division and
-- remainder: the bits that are joined by `|` never overlap, so `|` is `+`.
pub mod Mode
pub mod Taken
pub mod Retake
use Prim.Native.String.{String}
use shuriken.Prelude.{
  ℕ, ◌+◌, ◌*◌, ◌/◌, ◌%◌, ◌^◌, Bool, true, false, not, ◌&&◌, ◌||◌, nat_beq, leb, if◌then◌else◌,
}
use shuriken.Fs.FileId.{FileId}
use shuriken.Fs.FileSystem.{Hash, Stat, file_id_of, Io, ok, io_error, ExtraData, FileSystem}

-- `Fingerprint::Stat`
pub record FingerprintStat : Type 0 where
  pub size : ℕ
  pub ino : ℕ
  pub mode : ℕ
  pub mtime : ℕ

abbrev pub no_stat : FingerprintStat
no_stat = record { size = 0; ino = 0; mode = 0; mtime = 0 }

-- `mode & S_IXUSR`
abbrev pub is_executable : ℕ → Bool
is_executable mode = nat_beq (mode / 64 % 2) 1

-- `mode & (S_IFMT | S_ISUID | S_ISGID)`, the bits 10 to 15
abbrev pub masked_mode : ℕ → ℕ
masked_mode mode = mode / 1024 % 64 * 1024

-- 0644, 0111 for an executable, and the masked bits
unfoldable pub fingerprint_mode : ℕ → ℕ
fingerprint_mode mode = 420 + (if is_executable mode then 73 else 0) + masked_mode mode

unfoldable pub from_stat : Stat → FingerprintStat
from_stat stat =
    if nat_beq stat.result 0
    then record {
      size = stat.size;
      ino = stat.ino;
      mode = fingerprint_mode stat.mode;
      mtime = stat.mtime;
    }
    else no_stat

-- `fromStat` leaves what `out` was where the file could not be looked at.
abbrev pub from_stat_over : FingerprintStat → Stat → FingerprintStat
from_stat_over out stat = if nat_beq stat.result 0 then from_stat stat else out

unfoldable pub could_access : FingerprintStat → Bool
could_access s = not (nat_beq s.mode 0)

-- `S_ISDIR`, `S_ISLNK` and `S_ISREG`: the four bits of the file type
abbrev pub is_dir_mode : ℕ → Bool
is_dir_mode mode = nat_beq (mode / 4096 % 16) 4

abbrev pub is_link_mode : ℕ → Bool
is_link_mode mode = nat_beq (mode / 4096 % 16) 10

abbrev pub is_regular_mode : ℕ → Bool
is_regular_mode mode = nat_beq (mode / 4096 % 16) 8

unfoldable pub is_dir : FingerprintStat → Bool
is_dir s = is_dir_mode s.mode

-- `operator==`
abbrev pub stat_beq : FingerprintStat → FingerprintStat → Bool
stat_beq a b =
    nat_beq a.size b.size && nat_beq a.ino b.ino && nat_beq a.mode b.mode && nat_beq a.mtime b.mtime

pub record Fingerprint : Type 0 where
  pub stat : FingerprintStat
  pub racily_clean : Bool
  pub hash : Hash

-- `operator==`
unfoldable pub fingerprint_beq : Fingerprint → Fingerprint → Bool
fingerprint_beq a b =
    stat_beq a.stat b.stat
    && (if a.racily_clean then b.racily_clean else not b.racily_clean)
    && nat_beq a.hash b.hash

pub record MatchesResult : Type 0 where
  pub clean : Bool
  pub should_update : Bool
  pub file_id : FileId

unfoldable pub is_racily_clean : FingerprintStat → ℕ → Bool
is_racily_clean stat timestamp = leb timestamp stat.mtime

abbrev pub extra_data : ℕ → ℕ → ExtraData
extra_data size mode = record {
  header_size = 16;
  file_size = size % 2 ^ 64;
  file_mode = mode % 2 ^ 32;
}

unfoldable pub compute_fingerprint_hash : FileSystem → ℕ → ℕ → String → Io Hash
compute_fingerprint_hash fs size mode path =
    if is_dir_mode mode
    then fs.hash_dir path (extra_data size mode)
    else if is_link_mode mode
    then fs.hash_symlink path (extra_data size mode)
    else if is_regular_mode mode
    then fs.hash_file path (extra_data size mode)
    else ok 0

-- `fingerprintMatches` of a fingerprint, a stat and a hash
unfoldable pub matches_stat_hash : Fingerprint → FingerprintStat → Hash → Bool
matches_stat_hash original new_stat new_hash =
    nat_beq original.stat.size new_stat.size
    && nat_beq original.stat.mode new_stat.mode
    && nat_beq original.hash new_hash

-- `fingerprintMatches` of a fingerprint, a `Stat` of the file system and a hash
unfoldable pub matches_new_stat : Fingerprint → Stat → Hash → Bool
matches_new_stat original new_stat new_hash =
    matches_stat_hash original (from_stat new_stat) new_hash

abbrev pub hash_then : {A : Type 0} → Io Hash → (Hash → Io A) → Io A
hash_then (ok h) f = f h
hash_then (io_error e) f = io_error e

abbrev pub needs_no_hash : Fingerprint → FingerprintStat → Bool
needs_no_hash fp current =
    stat_beq current fp.stat && (not fp.racily_clean || nat_beq fp.stat.mode 0)

abbrev pub same_size_mode : Fingerprint → FingerprintStat → Bool
same_size_mode fp current = nat_beq current.size fp.stat.size && nat_beq current.mode fp.stat.mode

-- The shared `fingerprintMatches`. `hash` is the value of the output parameter before the call, and
-- the second component its value afterwards.
unfoldable pub matches_with :
    FileSystem → String → Fingerprint → Stat → Hash → Io (MatchesResult × Hash)
matches_with fs path fp current hash =
    let id = file_id_of current in
    if needs_no_hash fp (from_stat current)
    then ok (record { clean = true; should_update = false; file_id = id }, hash)
    else if same_size_mode fp (from_stat current)
    then hash_then (compute_fingerprint_hash fs fp.stat.size fp.stat.mode path) (λ h. ok (
      record {
        clean = matches_stat_hash fp (from_stat current) h;
        should_update = true;
        file_id = id;
      },
      h,
    ))
    else ok (record { clean = false; should_update = false; file_id = id }, hash)

-- `fingerprintMatches` of a path
unfoldable pub fingerprint_matches : FileSystem → String → Fingerprint → Io MatchesResult
fingerprint_matches fs path fp = elim (matches_with fs path fp (fs.lstat path) 0) [
  | ok (r, _) ↦ ok r
  | io_error e ↦ io_error e
]

unfoldable pub take_fingerprint : FileSystem → ℕ → String → Io (Fingerprint × FileId)
take_fingerprint fs timestamp path =
    let stat = from_stat (fs.lstat path) in
    hash_then (compute_fingerprint_hash fs stat.size stat.mode path) (λ h. ok (
      record { stat = stat; racily_clean = is_racily_clean stat timestamp; hash = h },
      file_id_of (fs.lstat path),
    ))

unfoldable pub retake_fingerprint :
    FileSystem → ℕ → String → Fingerprint → Io (Fingerprint × FileId)
retake_fingerprint fs timestamp path old =
    let stat = fs.lstat path in
    elim (matches_with fs path old stat old.hash) [
      | ok (r, h) ↦
          if r.clean || r.should_update
          then ok (
            record {
              stat = from_stat_over old.stat stat;
              racily_clean = is_racily_clean (from_stat_over old.stat stat) timestamp;
              hash = h;
            },
            file_id_of stat,
          )
          else take_fingerprint fs timestamp path
      | io_error e ↦ io_error e
    ]
