-- ===== src/Build/Clean/Tests.antt =====
-- A step with one input file, which another step of the build wrote, or which is gone.
use shuriken.Build.Clean.Checked.{is_up_to_date, compute_clean_steps-eq}
use shuriken.Build.Memo.Covered.{IsCovered, IsComputed, compute_memo-IsComputed}
use shuriken.Build.Memo.Used.{uses}
use shuriken.Prelude.Assoc.{lookup}
use shuriken.Prelude.{
  false, [], true, some, ℕ, List, ◌∷◌, ◌≡◌, refl, get_or, length, ◌<◌, arith, suc, nat_eq, ◌&&◌,
  zero, inl,
}
use shuriken.Build.Memo.{entries_from, compute_fingerprint_matches_memo}
use shuriken.Build.Graph.{Nodes, new_node, done, node_at}
use shuriken.Build.Clean.{can_skip_build_command, inputs_unchanged, RanCommand, compute_clean_steps}
use shuriken.Fs.FileId.{FileId}
use shuriken.Fs.FileSystem.{Stat, FileSystem, io_error, ok}
use shuriken.Build.Data.{
  Entry, Invocations, Step, FingerprintMatchesMemo, StepIndex, CleanSteps, no_step, step_at,
}
use shuriken.Fs.Fingerprint.{
  Fingerprint, fingerprint_matches, matches_with, matches_new_stat, matches_stat_hash, from_stat,
  compute_fingerprint_hash, fingerprint_mode,
}

abbrev header_fingerprint : Fingerprint
header_fingerprint = record {
  stat = record { size = 5; ino = 40; mode = 33188; mtime = 10 };
  racily_clean = false;
  hash = 77;
}

abbrev entry : Entry
entry = record {
  output_files = [];
  input_files = 0 ∷ [];
  ignored_dependencies = [];
  additional_dependencies = [];
}

abbrev invocations : Invocations
invocations = record {
  fingerprints = ("a.h", header_fingerprint) ∷ [];
  entries = (10, entry) ∷ [];
  created_directories = [];
}

abbrev compile : Step
compile = record no_step { hash = 10; command = "cc" }

-- Every path has this stat.
abbrev files_with : Stat → FileSystem
files_with s = record {
  stat = λ _. s;
  lstat = λ _. s;
  hash_dir = λ _ _. io_error 20;
  hash_symlink = λ _ _. io_error 20;
  hash_file = λ _ _. ok 77;
}

abbrev there : Stat
there = record { result = 0; mode = 33188; size = 5; ino = 40; dev = 1; mtime = 90 }

abbrev gone : Stat
gone = record { result = 2; mode = 0; size = 0; ino = 0; dev = 0; mtime = 0 }

abbrev header : FileId
header = record { ino = 40; dev = 1 }

can_skip-same :
    can_skip_build_command
      (files_with there)
      (true ∷ [])
      ((header, 77) ∷ [])
      invocations
      false
      compile
      0
    ≡ true
unfolding can_skip_build_command inputs_unchanged matches_new_stat matches_stat_hash from_stat
    fingerprint_mode
can_skip-same = refl

can_skip-changed :
    can_skip_build_command
      (files_with there)
      (true ∷ [])
      ((header, 78) ∷ [])
      invocations
      false
      compile
      0
    ≡ false
unfolding can_skip_build_command inputs_unchanged matches_new_stat matches_stat_hash from_stat
    fingerprint_mode
can_skip-changed = refl

-- An input that is gone was not written in this build, so the step is skipped.
can_skip-gone :
    can_skip_build_command (files_with gone) (true ∷ []) [] invocations false compile 0 ≡ true
unfolding can_skip_build_command inputs_unchanged
can_skip-gone = refl

-- The memo that the next theorem is applied to
abbrev memo : FingerprintMatchesMemo
memo = some (record { clean = true; should_update = true; file_id = header }) ∷ []

abbrev nodes : Nodes
nodes = record new_node { should_build = true } ∷ []

memo-IsCovered : IsCovered (files_with there) invocations (compile ∷ []) nodes memo
unfolding fingerprint_matches matches_with matches_stat_hash compute_fingerprint_hash from_stat
    fingerprint_mode
memo-IsCovered i e zero b l u lt = refl
memo-IsCovered i e (suc f) b l u lt = absurd (omega arith)

files_in_range :
    (i : StepIndex) (e : Entry) (f : ℕ)
    → lookup (step_at (compile ∷ []) i).hash invocations.entries ≡ some e
    → uses e f ≡ true
    → f < length invocations.fingerprints
files_in_range i e f l u = ground arith

compute_clean_steps-eq_example :
    (clean : CleanSteps) × (log : List RanCommand) × (compute_clean_steps
        (files_with there)
        (λ _. [])
        memo
        invocations
        (compile ∷ [])
        nodes
      ≡ done (clean, log))
    × (length clean ≡ length nodes)
    × ((i : StepIndex)
        → get_or clean i false ≡ (
            (node_at nodes i).should_build
            && is_up_to_date (files_with there) invocations (step_at (compile ∷ []) i)))
compute_clean_steps-eq_example =
    compute_clean_steps-eq (files_with there) invocations (λ _. []) memo (compile ∷ []) nodes refl
      files_in_range memo-IsCovered

compute_memo-IsComputed_example : IsComputed (files_with there) invocations (compile ∷ []) nodes (
    compute_fingerprint_matches_memo
      (files_with there)
      invocations
      (entries_from invocations (compile ∷ []) 0 nodes ∷ []))
compute_memo-IsComputed_example =
    compute_memo-IsComputed (files_with there) invocations (compile ∷ []) nodes
      (entries_from invocations (compile ∷ []) 0 nodes ∷ [])
      (λ e m. (entries_from invocations (compile ∷ []) 0 nodes, inl refl, m))
