-- ===== src/Fs/Tests.antt =====
-- Fingerprints of one source file in four states of the files.
use shuriken.Prelude.{ℕ, true, false, ◌≡◌, refl}
use shuriken.Fs.FileSystem.{Stat, FileSystem, ok, io_error}
use shuriken.Fs.Fingerprint.{
  Fingerprint, MatchesResult, from_stat, is_racily_clean, compute_fingerprint_hash,
  fingerprint_matches, take_fingerprint, retake_fingerprint, could_access, is_dir, matches_with,
  matches_stat_hash, fingerprint_mode,
}
use shuriken.Fs.Fingerprint.Mode.{from_stat-keeps_type}
use shuriken.Fs.Fingerprint.Taken.{
  IsTaken, IsUntampered, current, fingerprint_matches-clean, fingerprint_matches_complete,
}
use shuriken.Fs.Fingerprint.Retake.{retake-eq-take}

-- A regular file with mode 0644 that was modified at the time
abbrev file_stat : ℕ → Stat
file_stat mtime = record { result = 0; mode = 33188; size = 5; ino = 9; dev = 1; mtime = mtime }

-- A directory with mode 0755
abbrev dir_stat : Stat
dir_stat = record { result = 0; mode = 16877; size = 5; ino = 3; dev = 1; mtime = 10 }

-- A state of the files in which each is the file, with this time and contents that hash to this.
abbrev one_file : ℕ → ℕ → FileSystem
one_file mtime h = record {
  stat = λ _. file_stat mtime;
  lstat = λ _. file_stat mtime;
  hash_dir = λ _ _. io_error 20;
  hash_symlink = λ _ _. io_error 20;
  hash_file = λ _ _. ok h;
}

abbrev written : Fingerprint
written = record {
  stat = record { size = 5; ino = 9; mode = 33188; mtime = 10 };
  racily_clean = false;
  hash = 77;
}

from_stat-dir : is_dir (from_stat dir_stat) ≡ true
unfolding is_dir from_stat fingerprint_mode
from_stat-dir = refl

fingerprint_matches-touched :
    fingerprint_matches (one_file 50 77) "a.c" written
    ≡ ok (record { clean = true; should_update = true; file_id = record { ino = 9; dev = 1 } })
unfolding fingerprint_matches matches_with matches_stat_hash compute_fingerprint_hash from_stat
    fingerprint_mode
fingerprint_matches-touched = refl

fingerprint_matches-edited :
    fingerprint_matches (one_file 50 78) "a.c" written
    ≡ ok (record { clean = false; should_update = true; file_id = record { ino = 9; dev = 1 } })
unfolding fingerprint_matches matches_with matches_stat_hash compute_fingerprint_hash from_stat
    fingerprint_mode
fingerprint_matches-edited = refl

written-IsTaken : IsTaken (one_file 10 77) 20 "a.c" written
unfolding from_stat is_racily_clean compute_fingerprint_hash fingerprint_mode
written-IsTaken = record { stat_eq = refl; racy_eq = refl; hash_eq = refl }

touched-IsUntampered : IsUntampered (one_file 10 77) (one_file 50 77) 20 "a.c"
unfolding compute_fingerprint_hash
touched-IsUntampered = record { same_hash = λ s b a lt. refl }

from_stat-keeps_type_example :
    (could_access (from_stat dir_stat) ≡ true)
    × (dir_stat.result ≡ 0 → is_dir (from_stat dir_stat) ≡ true)
from_stat-keeps_type_example = from_stat-keeps_type dir_stat

fingerprint_matches-clean_example :
    ((current (one_file 50 77) "a.c").size ≡ 5)
    × ((current (one_file 50 77) "a.c").mode ≡ 33188)
    × (compute_fingerprint_hash (one_file 50 77) 5 33188 "a.c" ≡ ok 77)
fingerprint_matches-clean_example =
    fingerprint_matches-clean (one_file 10 77) (one_file 50 77) 20 "a.c" written
      (record { clean = true; should_update = true; file_id = record { ino = 9; dev = 1 } })
      written-IsTaken touched-IsUntampered fingerprint_matches-touched refl

fingerprint_matches_complete_example :
    (r : MatchesResult) × (fingerprint_matches (one_file 50 77) "a.c" written ≡ ok r)
    × (r.clean ≡ true)
unfolding from_stat compute_fingerprint_hash fingerprint_mode
fingerprint_matches_complete_example =
    fingerprint_matches_complete (one_file 10 77) (one_file 50 77) 20 "a.c" written refl refl refl

retake-eq-take_example :
    retake_fingerprint (one_file 50 77) 60 "a.c" written
    ≡ take_fingerprint (one_file 50 77) 60 "a.c"
retake-eq-take_example =
    retake-eq-take (one_file 10 77) (one_file 50 77) 20 60 "a.c" written written-IsTaken
      touched-IsUntampered
