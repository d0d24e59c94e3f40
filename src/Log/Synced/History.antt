-- ===== src/Log/Synced/History.antt =====
-- A `PersistentInvocationLog` from its first operation on, and what `parsePersistentInvocationLog` makes
-- of the file that it leaves.
use shuriken.Log.Synced.Reread.{parse_bytes-file}
use mathlib.Core.Path.{subst}
use shuriken.Log.Bytes.RoundTrip.{length-put_u32}
use shuriken.Log.Bytes.{put_u32}
use shuriken.Log.Parser.{Parsing}
use shuriken.Build.Data.{Entry}
use shuriken.Log.Synced.Meaning.{Known, meaning}
use shuriken.Log.Synced.Tables.{IsSynced, few_paths}
use shuriken.Log.Synced.{file_start, IsFile-start}
use shuriken.Fs.FileSystem.{Stat, Hash, ok}
use shuriken.Log.Operations.{opened}
use shuriken.Log.Parse.{
  parse_persistent_invocation_log, no_parsing, LogOutcome, LogFile, ParseResult, returned,
  unchanged, result_of,
}
use shuriken.Prelude.Assoc.{Assoc}
use shuriken.Log.Data.{LogPath, Logged, no_parse_data, file_signature, file_version}
use shuriken.Log.Synced.Effects.{
  Operation, perform_all, IsOperation, total_cost, after_all, perform_all-IsAfter,
}
use shuriken.Log.Writer.Appends.{IsWorking, put_bytes_then, put_bytes-eq, bind-wrote}
use shuriken.Log.Writer.{◌>>◌, Stream, Log, write_file_header, Wrote, wrote, put_bytes}
use shuriken.Prelude.{
  refl, list_eq, nat_eq, List, [], ◌≡◌, length, ◌<◌, none, ◌^◌, ◌∙◌, All, ◌%◌, arith, ◌+◌,
  length-append,
}

-- A log in a new file
abbrev pub run_log : Stream → List Operation → Wrote (Unit {0})
run_log stream ops = (do write_file_header stream; perform_all stream ops) (opened [] no_parse_data)

-- The file that a log has written
abbrev pub holding : LogFile → Log → LogFile
holding disk log = record disk { mmap = ok log.written }

module _ (stream : Stream) (working : IsWorking stream) where
  abbrev new_log : Log
  new_log = opened file_start no_parse_data

  write_file_header-new : write_file_header stream (opened [] no_parse_data) ≡ wrote tt new_log
  unfolding write_file_header
  write_file_header-new =
      put_bytes_then stream working file_signature (put_bytes stream (put_u32 file_version))
        (opened [] no_parse_data)
      ∙ put_bytes-eq stream working (put_u32 file_version) (opened file_signature no_parse_data)

  new_log-IsSynced : (lstat : LogPath → Stat) → IsSynced lstat new_log no_parsing
  new_log-IsSynced lstat = record {
    file = IsFile-start lstat;
    same_paths = refl;
    same_fingerprints = refl;
    path_count = refl;
    fingerprint_count = refl;
    paths_known = λ path id h. cc;
    fingerprints_known = λ path v h. absurd (cc);
    in_range = tt;
  }

  -- What a reading of the file gives: no warning, what is known of the steps, and the tables of the
  -- log, so that a log that is opened with them is the same.
  pub record IsReread (m : Assoc Hash Known) (log : Log) (outcome : LogOutcome) : Type 0 where
    pub answer : ParseResult
    pub whole : outcome ≡ returned answer unchanged
    pub silent : answer.warning ≡ none
    pub means : meaning answer.invocations.fingerprints answer.invocations.entries ≡ m
    pub reopens : opened log.written answer.parse_data ≡ log

  synced-IsReread :
      (share : Logged → List (List Entry)) (disk : LogFile) (log : Log) (p : Parsing)
      → IsSynced disk.lstat log p
      → length log.written < 2 ^ 32
      → IsReread
          (meaning p.invocations.fingerprints p.invocations.entries)
          log
          (parse_persistent_invocation_log share (holding disk log))
  unfolding parse_persistent_invocation_log
  synced-IsReread share disk log p s small =
      let few = few_paths disk.lstat log p s in
      let fingerprint_count = s.fingerprint_count in
      let path_count = s.path_count in
      let fingerprints_fit : length p.invocations.fingerprints % 2 ^ 32
          ≡ log.fingerprint_entry_count =
        omega arith in
      let paths_fit : length p.paths_by_id % 2 ^ 32 ≡ log.path_entry_count = omega arith in
      let same_paths = s.same_paths in
      let same_fingerprints = s.same_fingerprints in
      record {
        answer = result_of (share p.invocations) p s.file.read.rounds none;
        whole = parse_bytes-file share (holding disk log) log.written p s.file;
        silent = refl;
        means = refl;
        reopens = cc;
      }

  -- Any operations on a new log, on a stream without errors, come to an end without an error, and
  -- reading the file that they leave gives no warning and what they say of each step: the files
  -- that its last run wrote and read and that are no directories, with their fingerprints, and its
  -- dependencies. A log that is opened with the tables of that reading is the log that wrote the
  -- file. This is so while the operations fit the types of their parameters and the file stays
  -- below 4 GiB.
  pub run_log-IsReread :
      (share : Logged → List (List Entry)) (disk : LogFile) (ops : List Operation)
      → All (IsOperation stream working disk.lstat) ops
      → 16 + total_cost stream working disk.lstat ops < 2 ^ 32
      → (log : Log) × (run_log stream ops ≡ wrote tt log)
        × IsReread (after_all ops []) log (parse_persistent_invocation_log share (holding disk log))
  run_log-IsReread share disk ops valid small =
      let start = new_log-IsSynced disk.lstat in
      let size : length new_log.written ≡ 16 =
        omega (arith, length-append file_signature (put_u32 1), length-put_u32 1) in
      let (u, log, p, e, a) =
        perform_all-IsAfter stream working disk.lstat ops new_log no_parsing start valid
          (omega arith) in
      let longer = a.longer in
      (
        log,
        bind-wrote (write_file_header stream) (λ _. perform_all stream ops) _ write_file_header-new
            ∙ e,
        subst (λ m. IsReread m log (parse_persistent_invocation_log share (holding disk log)))
            a.means (synced-IsReread share disk log p a.synced (omega arith)),
      )
