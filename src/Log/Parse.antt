-- ===== src/Log/Parse.antt =====
-- src/shk/src/log/persistent_invocation_log.cpp: `parsePersistentInvocationLog`, and
-- `countUsedFingerprints` of src/shk/src/log/invocations.cpp. Each round of the loop takes an entry of at
-- least four bytes off the view, so the length of the view is enough fuel.
pub mod Total
pub mod Ended
pub mod Rounds
pub mod Names
pub mod Entries
use shuriken.Log.Parsed.{parsed, Parsed, parse_error, aborted}
use Prim.Native.String.{String}
use shuriken.Build.Data.{Entry}
use shuriken.Log.Bytes.{Bytes, u32_size, fingerprint_size}
use shuriken.Log.Data.{
  Logged, LogPath, no_invocations, ParseData, no_parse_data, path_type,
  created_dir_or_fingerprint_type, invocation_type,
}
use shuriken.Fs.FileSystem.{Io, Stat, ok, io_error}
use shuriken.Build.Memo.{find_used_fingerprints, flagged}
use shuriken.Prelude.{
  ℕ, List, Option, Bool, some, length, false, [], suc, if◌then◌else◌, none, nat_beq, ◌+◌, ◌%◌, ◌∷◌,
  ltb, ◌^◌, ◌-◌, zero, ◌&&◌, ◌*◌, take, drop,
}
use shuriken.Log.Parser.{
  parse_path, entry_header, Parsing, parse_signature, parse_created_dir, ensure_entry_len,
  parse_fingerprint, advance, parse_invocation, parse_deleted, entry_size, entry_type,
}
use shuriken.Log.Parsed.{◌>>=◌, ◌>>◌}

unfoldable pub parse_entry : (LogPath → Stat) → ℕ → Bytes → Parsing → Parsed Parsing
unfolding parse_path parse_created_dir parse_fingerprint parse_invocation parse_deleted
parse_entry lstat type entry result =
    if nat_beq type path_type
    then parse_path entry result
    else if nat_beq type created_dir_or_fingerprint_type
    then (if nat_beq (length entry) u32_size
        then parse_created_dir lstat entry result
        else if nat_beq (length entry) (u32_size + fingerprint_size)
        then parse_fingerprint entry result
        else parse_error "invalid invocation log: truncated invocation")
    else if nat_beq type invocation_type
    then parse_invocation entry result
    else parse_deleted lstat entry result

-- One round: the entry at the front of the view, and the view after it.
unfoldable pub parse_round : (LogPath → Stat) → Bytes → Parsing → Parsed (Parsing × Bytes)
unfolding parse_entry entry_header ensure_entry_len advance
parse_round lstat view result = do
  header ← entry_header view
  ensure_entry_len view (entry_size header + u32_size)
  result ←
      parse_entry lstat (entry_type header) (take (entry_size header) (drop u32_size view)) result
  view ← advance view (u32_size + entry_size header)
  parsed (result, view)

-- What the loop leaves: the entries that it read and their number, and the view with the text of the
-- error at its front, if there is one. `stuck` is out of fuel.
pub data Looped : Type 0 where
  looped : Parsing → ℕ → Bytes → Option String → Looped
  killed : Looped
  stuck : Looped

unfoldable pub parse_loop : ℕ → (LogPath → Stat) → Bytes → Parsing → ℕ → Looped
parse_loop fuel lstat [] result count = looped result count [] none
parse_loop zero lstat (b ∷ bs) result count = stuck
parse_loop (suc fuel) lstat (b ∷ bs) result count = elim (parse_round lstat (b ∷ bs) result) [
  | parsed (next, view) ↦ parse_loop fuel lstat view next (count + 1)
  | parse_error message ↦ looped result count (b ∷ bs) (some message)
  | aborted ↦ killed
]

-- The loops of `countUsedFingerprints`: indices from `i` on that a thread flagged
abbrev pub count_flagged : List (List Bool) → ℕ → ℕ → ℕ
count_flagged used i zero = 0
count_flagged used i (suc n) = (if flagged used i then 1 else 0) + count_flagged used (i + 1) n

-- `countUsedFingerprints`; `shares` is how the threads share out the entries.
unfoldable pub count_used_fingerprints : List (List Entry) → Logged → ℕ
count_used_fingerprints shares inv =
    let size = length inv.fingerprints in count_flagged (find_used_fingerprints size shares) 0 size

-- `kMinCompactionEntryCount` and `kCompactionRatio`
abbrev pub min_compaction_entry_count : ℕ
min_compaction_entry_count = 1000

abbrev pub compaction_ratio : ℕ
compaction_ratio = 3

unfoldable pub needs_recompaction : List (List Entry) → Parsing → ℕ → Bool
unfolding count_used_fingerprints
needs_recompaction shares result entry_count =
    let inv = result.invocations in
    let unique_record_count =
      length inv.entries
      + length inv.created_directories
      + length result.path_ids
      + count_used_fingerprints shares inv in
    ltb min_compaction_entry_count entry_count
    && ltb (unique_record_count * compaction_ratio) entry_count

-- The log file, as the file system gives it: its bytes, the answers of `unlink` and of `truncate`, and
-- what `lstat` says of other paths.
pub record LogFile : Type 0 where
  pub mmap : Io Bytes
  pub unlink : Option ℕ
  pub truncate : ℕ → Option ℕ
  pub lstat : LogPath → Stat

-- `InvocationLogParseResult`
pub record ParseResult : Type 0 where
  pub invocations : Logged
  pub warning : Option String
  pub needs_recompaction : Bool
  pub parse_data : ParseData

abbrev pub no_result : Option String → ParseResult
no_result warning = record {
  invocations = no_invocations;
  warning = warning;
  needs_recompaction = false;
  parse_data = no_parse_data;
}

-- What the call does to the file
pub data Change : Type 0 where
  unchanged : Change
  unlinked : Change
  truncated : ℕ → Change

-- The outcome of the call: its result and what it did to the file, or the `IoError` that it throws.
pub data LogOutcome : Type 0 where
  returned : ParseResult → Change → LogOutcome
  thrown : ℕ → LogOutcome
  stopped : LogOutcome
  no_fuel : LogOutcome

abbrev pub no_parsing : Parsing
no_parsing = record {
  invocations = no_invocations;
  path_ids = [];
  fingerprint_ids = [];
  paths_by_id = [];
}

abbrev pub result_of : List (List Entry) → Parsing → ℕ → Option String → ParseResult
result_of shares result entry_count warning = record {
  invocations = result.invocations;
  warning = warning;
  needs_recompaction = needs_recompaction shares result entry_count;
  parse_data = record {
    path_ids = result.path_ids;
    fingerprint_ids = result.fingerprint_ids;
    fingerprint_entry_count = length result.invocations.fingerprints % 2 ^ 32;
    path_entry_count = length result.paths_by_id % 2 ^ 32;
  };
}

-- After an effect that may fail
abbrev pub unless_failed : Option ℕ → LogOutcome → LogOutcome
unless_failed none outcome = outcome
unless_failed (some code) outcome = thrown code

-- After the loop: a file that was not read to its end loses what was not read.
unfoldable pub finish_parse : (Logged → List (List Entry)) → LogFile → ℕ → Looped → LogOutcome
unfolding needs_recompaction
finish_parse share file file_size (looped result count rest warning) =
    let answer = result_of (share result.invocations) result count warning in
    if nat_beq (length rest) 0
    then returned answer unchanged
    else unless_failed (file.truncate (file_size - length rest))
        (returned answer (truncated (file_size - length rest)))
finish_parse share file file_size killed = stopped
finish_parse share file file_size stuck = no_fuel

unfoldable pub parse_bytes : (Logged → List (List Entry)) → LogFile → Bytes → LogOutcome
unfolding parse_signature parse_loop finish_parse
parse_bytes share file contents = elim (parse_signature contents) [
  | parsed view ↦
      finish_parse share file (length contents)
        (parse_loop (length view) file.lstat view no_parsing 0)
  | parse_error message ↦ unless_failed file.unlink (returned (no_result (some message)) unlinked)
  | aborted ↦ stopped
]

abbrev pub enoent : ℕ
enoent = 2

-- `parsePersistentInvocationLog`; `share` is how the threads of `countUsedFingerprints` share out the
-- entries.
unfoldable pub parse_persistent_invocation_log : (Logged → List (List Entry)) → LogFile → LogOutcome
unfolding parse_bytes
parse_persistent_invocation_log share file = elim file.mmap [
  | ok contents ↦ parse_bytes share file contents
  | io_error code ↦ if nat_beq code enoent then returned (no_result none) unchanged else thrown code
]
