-- ===== src/Log/Parser.antt =====
-- src/shk/src/log/persistent_invocation_log.cpp: reading the log. A view is the bytes from a position
-- on; `lstat` is the file system's.
use shuriken.Prelude.Assoc.{emplace, erase, insert}
use shuriken.Fs.FileId.{FileId, file_id_eq}
use shuriken.Fs.FileSystem.{Stat, Hash, file_id_of}
use shuriken.Log.Parsed.{Parsed, refuse, parse_error, parsed, aborted}
use shuriken.Log.Data.{
  Logged, LogPath, PathIds, entry_types, FingerprintIds, file_signature, file_version,
  invalid_entry,
}
use shuriken.Prelude.{
  ℕ, Option, List, Bool, ◌/◌, ◌%◌, length, true, some, if◌then◌else◌, ltb, ◌∷◌, not, nat_beq, ◌*◌,
  ◌+◌, ◌&&◌, none, drop, take, get_or, [], ◌==◌, ◌-◌, suc, zero, get_elem?, ◌||◌, ◌^◌, ◌++◌,
}
use shuriken.Log.Bytes.{
  Bytes, get_u32s, u32_size, get_u32, hash_size, get_fingerprint, get_hash, get_hashes,
}
use shuriken.Log.Parsed.{◌>>=◌, ◌>>◌}
use shuriken.Prelude.{list_eq, nat_eq}

-- `advance`
unfoldable pub advance : Bytes → ℕ → Parsed Bytes
advance view len = if ltb (length view) len then aborted else parsed (drop len view)

-- `parseInvocationLogSignature`: the view after the signature, or the text of `err`
unfoldable pub parse_signature : Bytes → Parsed Bytes
parse_signature view =
    let size = length file_signature + u32_size in
    if ltb (length view) size
    then parse_error "invalid invocation log file signature (too short)"
    else if not (take (length file_signature) view == file_signature)
    then parse_error "invalid invocation log file signature"
    else if not (nat_beq (get_u32 (drop (length file_signature) view)) file_version)
    then parse_error "invalid invocation log file version or bad byte order"
    else advance view size

-- `EntryHeader`, `entrySize` and `entryType`
unfoldable pub entry_header : Bytes → Parsed ℕ
entry_header view =
    if ltb (length view) u32_size
    then parse_error "invalid invocation log: encountered truncated entry"
    else parsed (get_u32 view)

abbrev pub entry_size : ℕ → ℕ
entry_size header = header / entry_types * entry_types

abbrev pub entry_type : ℕ → ℕ
entry_type header = header % entry_types

unfoldable pub ensure_entry_len : Bytes → ℕ → Parsed (Unit {0})
ensure_entry_len view min_size =
    refuse (ltb (length view) min_size) "invalid invocation log: encountered invalid entry"

-- `read<uint32_t>` and `read<Hash>`
unfoldable pub read_u32 : Bytes → Parsed ℕ
unfolding ensure_entry_len
read_u32 view = do ensure_entry_len view u32_size; parsed (get_u32 view)

unfoldable pub read_hash : Bytes → Parsed Hash
unfolding ensure_entry_len
read_hash view = do ensure_entry_len view hash_size; parsed (get_hash view)

abbrev pub all_below : ℕ → List ℕ → Bool
all_below n [] = true
all_below n (v ∷ vs) = ltb v n && all_below n vs

unfoldable pub read_indices : ℕ → Bytes → Parsed (List ℕ)
read_indices end_index view =
    let ids = get_u32s (length view / u32_size) view in
    do
      refuse (ltb end_index invalid_entry && not (all_below end_index ids))
          "invalid invocation log: encountered invalid fingerprint ref"
      parsed ids

unfoldable pub read_hashes : Bytes → ℕ → Parsed (List Hash)
read_hashes view n = do
  refuse (ltb (length view) (n * hash_size))
      "invalid invocation log: encountered invalid additional deps list"
  parsed (get_hashes n view)

abbrev pub path_or_error : Option LogPath → Parsed LogPath
path_or_error none = parse_error "invalid invocation log: encountered invalid path ref"
path_or_error (some path) = parsed path

unfoldable pub read_path : List LogPath → Bytes → Parsed LogPath
unfolding read_u32
read_path paths_by_id view = do
  path_id ← read_u32 view
  path_or_error (get_elem? paths_by_id path_id)

-- `InvocationLogParseResult` and `paths_by_id` while the entries are read
pub record Parsing : Type 0 where
  pub invocations : Logged
  pub path_ids : PathIds
  pub fingerprint_ids : FingerprintIds
  pub paths_by_id : List LogPath

-- The trailing zeros come off one by one: after three of them a fourth is an error.
unfoldable pub path_size_from : ℕ → Bytes → ℕ → Parsed ℕ
path_size_from zero entry size =
    if not (nat_beq size 0) && nat_beq (get_or entry (size - 1) 0) 0
    then parse_error "invalid invocation log: Encountered path with too many null terminators"
    else parsed size
path_size_from (suc more) entry size =
    let shorter = path_size_from more entry (size - 1) in
    if not (nat_beq size 0) && nat_beq (get_or entry (size - 1) 0) 0 then shorter else parsed size

unfoldable pub parse_path : Bytes → Parsing → Parsed Parsing
unfolding path_size_from
parse_path entry result = do
  refuse (nat_beq (length entry) 0 || not (nat_beq (get_or entry (length entry - 1) 0) 0))
      "invalid invocation log: Encountered non null terminated path"
  size ← path_size_from 3 entry (length entry - 1)
  let path = take size entry
  parsed (record result {
    path_ids = insert path (length result.paths_by_id % 2 ^ 32) result.path_ids;
    paths_by_id = result.paths_by_id ++ path ∷ [];
  })

-- The `FileId` of a path that `lstat` finds
abbrev pub id_of_path : (LogPath → Stat) → LogPath → Option FileId
id_of_path lstat path =
    if nat_beq (lstat path).result 0 then some (file_id_of (lstat path)) else none

-- `created_directories.emplace` and `erase` where `lstat` finds the directory
abbrev pub emplace_directory : Option FileId → LogPath → Logged → Logged
emplace_directory none path inv = inv
emplace_directory (some id) path inv = record inv {
  created_directories = (emplace id path inv.created_directories).0;
}

abbrev pub erase_directory : Option FileId → Logged → Logged
erase_directory none inv = inv
erase_directory (some id) inv = record inv {
  created_directories = erase id inv.created_directories;
}

unfoldable pub parse_created_dir : (LogPath → Stat) → Bytes → Parsing → Parsed Parsing
unfolding read_path
parse_created_dir lstat entry result = do
  path ← read_path result.paths_by_id entry
  parsed (record result {
    invocations = emplace_directory (id_of_path lstat path) path result.invocations;
  })

unfoldable pub parse_fingerprint : Bytes → Parsing → Parsed Parsing
unfolding read_path advance
parse_fingerprint entry result = do
  path ← read_path result.paths_by_id entry
  entry ← advance entry u32_size
  let fingerprint = get_fingerprint entry
  let fingerprints = result.invocations.fingerprints
  parsed (record result {
    fingerprint_ids =
        insert path (record { record_id = length fingerprints % 2 ^ 32; fingerprint = fingerprint })
          result.fingerprint_ids;
    invocations = record result.invocations {
      fingerprints = fingerprints ++ (path, fingerprint) ∷ [];
    };
  })

-- In `parseInvocation`: the ignored dependencies, and the view after them
unfoldable pub read_ignored : Bytes → Parsed (List ℕ × Bytes)
unfolding read_u32 advance read_indices
read_ignored entry = do
  num_ignored ← read_u32 entry
  entry ← advance entry u32_size
  refuse (ltb (length entry) (u32_size * num_ignored))
      "invalid invocation log: truncated invocation"
  ignored ← read_indices invalid_entry (take (u32_size * num_ignored) entry)
  entry ← advance entry (length ignored * u32_size)
  parsed (ignored, entry)

-- The additional dependencies
unfoldable pub read_additional : Bytes → Parsed (List Hash × Bytes)
unfolding read_u32 advance read_hashes
read_additional entry = do
  num_additional ← read_u32 entry
  entry ← advance entry u32_size
  additional ← read_hashes entry num_additional
  entry ← advance entry (length additional * hash_size)
  parsed (additional, entry)

-- The output and the input files, up to the end of the view
unfoldable pub read_files : ℕ → Bytes → Parsed (List ℕ × List ℕ)
unfolding read_u32 advance read_indices
read_files fingerprint_count entry = do
  outputs ← read_u32 entry
  entry ← advance entry u32_size
  refuse (ltb (length entry) (u32_size * outputs)) "invalid invocation log: truncated invocation"
  output_files ← read_indices fingerprint_count (take (u32_size * outputs) entry)
  entry ← advance entry (u32_size * outputs)
  input_files ← read_indices fingerprint_count entry
  parsed (output_files, input_files)

unfoldable pub parse_invocation : Bytes → Parsing → Parsed Parsing
unfolding read_hash advance read_ignored read_additional read_files
parse_invocation entry result = do
  hash ← read_hash entry
  entry ← advance entry hash_size
  (ignored, entry) ← read_ignored entry
  (additional, entry) ← read_additional entry
  (output_files, input_files) ← read_files (length result.invocations.fingerprints % 2 ^ 32) entry
  parsed (record result {
    invocations = record result.invocations {
      entries =
          insert hash
            (record {
              output_files = output_files;
              input_files = input_files;
              ignored_dependencies = ignored;
              additional_dependencies = additional;
            })
            result.invocations.entries;
    };
  })

unfoldable pub parse_deleted : (LogPath → Stat) → Bytes → Parsing → Parsed Parsing
unfolding read_path read_hash
parse_deleted lstat entry result =
    if nat_beq (length entry) u32_size
    then (do
      path ← read_path result.paths_by_id entry
      parsed (record result {
        invocations = erase_directory (id_of_path lstat path) result.invocations;
      }))
    else if nat_beq (length entry) hash_size
    then (do
      hash ← read_hash entry
      parsed (record result {
        invocations = record result.invocations { entries = erase hash result.invocations.entries };
      }))
    else parse_error "invalid invocation log: invalid deleted entry"
