-- ===== src/Log/Operations.antt =====
-- src/shk/src/log/persistent_invocation_log.cpp: what a build calls of `PersistentInvocationLog`, and the
-- functions that open and rewrite a log; `fingerprintFiles` of src/shk/src/log/invocation_log.cpp.
pub mod Appends
use shuriken.Build.Data.{Entry}
use shuriken.Fs.FileId.{FileId}
use shuriken.Fs.Fingerprint.{Fingerprint}
use shuriken.Prelude.Assoc.{Assoc, lookup}
use shuriken.Log.Data.{
  LogPath, ParseData, Logged, deleted_type, invocation_type, no_file_logged, no_parse_data,
}
use shuriken.Fs.FileSystem.{Hash, Io, ok, io_error}
use shuriken.Log.Bytes.{Bytes, hash_size, u32_size, put_hash, put_u32, put_u32s, put_hashes}
use shuriken.Log.Writer.{
  ◌>>=◌, ◌>>◌, Log, Stream, Writer, Wrote, ensure_path_is_written, get, write_header,
  write_all_paths_and_fingerprints, write_file_header, write_directory_entry,
  directory_as_directory_entry, pure, ignore_directory, put_bytes,
}
use shuriken.Prelude.{
  list_eq, nat_eq, List, ℕ, length, map, ◌+◌, ◌∷◌, get_or, [], none, some, ◌*◌, ◌%◌, ◌^◌,
}

-- What a log holds when it is opened: the tables of a parse
abbrev pub opened : Bytes → ParseData → Log
opened contents parse_data = record {
  written = contents;
  path_ids = parse_data.path_ids;
  fingerprint_ids = parse_data.fingerprint_ids;
  fingerprint_entry_count = parse_data.fingerprint_entry_count;
  path_entry_count = parse_data.path_entry_count;
}

-- `extractParseData`
abbrev pub extract_parse_data : Log → ParseData
extract_parse_data log = record {
  path_ids = log.path_ids;
  fingerprint_ids = log.fingerprint_ids;
  fingerprint_entry_count = log.fingerprint_entry_count;
  path_entry_count = log.path_entry_count;
}

-- What `ranCommand` is given
pub record RanCommand : Type 0 where
  pub build_step_hash : Hash
  pub output_files : List LogPath
  pub output_fingerprints : List Fingerprint
  pub input_files : List LogPath
  pub input_fingerprints : List Fingerprint
  pub ignored_dependencies : List ℕ
  pub additional_dependencies : List Hash

-- `takeFingerprint` and `retakeFingerprint` of a path, with the time of `_clock`
pub record Fingerprints : Type 0 where
  pub take : LogPath → Io (Fingerprint × FileId)
  pub retake : LogPath → Fingerprint → Io (Fingerprint × FileId)

-- `fingerprint`
unfoldable pub fingerprint_of : Fingerprints → Log → LogPath → Io (Fingerprint × FileId)
fingerprint_of fingerprints log path = elim (lookup path log.fingerprint_ids) [
  | none ↦ fingerprints.take path
  | some value ↦ fingerprints.retake path value.fingerprint
]

-- `fingerprintFiles`
unfoldable pub fingerprint_files :
    (LogPath → Io (Fingerprint × FileId)) → List LogPath → Io (List Fingerprint)
fingerprint_files fingerprint [] = ok []
fingerprint_files fingerprint (file ∷ files) =
    let rest = fingerprint_files fingerprint files in
    elim (fingerprint file) [
      | io_error code ↦ io_error code
      | ok (fp, id) ↦ elim rest [ io_error code ↦ io_error code | ok fps ↦ ok (fp ∷ fps) ]
    ]

-- `size` in `ranCommand`
abbrev pub invocation_size : RanCommand → ℕ → ℕ
invocation_size cmd total_entries =
    (hash_size
      + u32_size
      + u32_size * length cmd.ignored_dependencies
      + u32_size
      + u32_size
      + hash_size * length cmd.additional_dependencies
      + u32_size * total_entries)
    % 2 ^ 32

-- `fingerprints[file_idx]` for the indices of an entry, which are in range
abbrev pub files_at : List (LogPath × Fingerprint) → List ℕ → List (LogPath × Fingerprint)
files_at fingerprints ids = map (λ i. get_or fingerprints i no_file_logged) ids

module _ (stream : Stream) where
  -- The constructor
  unfoldable pub open_log : Bytes → ParseData → Wrote (Unit {0})
  open_log contents parse_data = write_file_header stream (opened contents parse_data)

  unfoldable pub created_directory : LogPath → Writer (Unit {0})
  created_directory path = do
    path_id ← ensure_path_is_written stream path
    write_directory_entry stream path_id

  unfoldable pub removed_directory : LogPath → Writer (Unit {0})
  removed_directory path = do
    log ← get
    elim (lookup path log.path_ids) [
      | none ↦ pure tt
      | some path_id ↦ do
        write_header stream u32_size deleted_type
        put_bytes stream (put_u32 path_id)
    ]

  unfoldable pub write_invocation : RanCommand → List ℕ → List ℕ → Writer (Unit {0})
  write_invocation cmd output_fp_ids input_fp_ids = do
    write_header stream (invocation_size cmd (length output_fp_ids + length input_fp_ids))
        invocation_type
    put_bytes stream (put_hash cmd.build_step_hash)
    put_bytes stream (put_u32 (length cmd.ignored_dependencies))
    put_bytes stream (put_u32s cmd.ignored_dependencies)
    put_bytes stream (put_u32 (length cmd.additional_dependencies))
    put_bytes stream (put_hashes cmd.additional_dependencies)
    put_bytes stream (put_u32 (length output_fp_ids))
    put_bytes stream (put_u32s output_fp_ids)
    put_bytes stream (put_u32s input_fp_ids)

  unfoldable pub ran_command : RanCommand → Writer (Unit {0})
  unfolding write_invocation
  ran_command cmd = do
    output_fp_ids ←
        write_all_paths_and_fingerprints stream directory_as_directory_entry cmd.output_files
          cmd.output_fingerprints
    input_fp_ids ←
        write_all_paths_and_fingerprints stream ignore_directory cmd.input_files
          cmd.input_fingerprints
    write_invocation cmd output_fp_ids input_fp_ids

  unfoldable pub cleaned_command : Hash → Writer (Unit {0})
  cleaned_command build_step_hash = do
    write_header stream hash_size deleted_type
    put_bytes stream (put_hash build_step_hash)

  unfoldable pub relog_command : Hash → List (LogPath × Fingerprint) → Entry → Writer (Unit {0})
  unfolding ran_command
  relog_command build_step_hash fingerprints entry =
      let outputs = files_at fingerprints entry.output_files in
      let inputs = files_at fingerprints entry.input_files in
      ran_command (record {
        build_step_hash = build_step_hash;
        output_files = map (λ f. f.0) outputs;
        output_fingerprints = map (λ f. f.1) outputs;
        input_files = map (λ f. f.0) inputs;
        input_fingerprints = map (λ f. f.1) inputs;
        ignored_dependencies = entry.ignored_dependencies;
        additional_dependencies = entry.additional_dependencies;
      })

  abbrev pub created_directories_from : Assoc FileId LogPath → Writer (Unit {0})
  created_directories_from [] = pure tt
  created_directories_from ((id, path) ∷ dirs) = do
    created_directory path
    created_directories_from dirs

  abbrev pub relog_from : List (LogPath × Fingerprint) → Assoc Hash Entry → Writer (Unit {0})
  relog_from fingerprints [] = pure tt
  relog_from fingerprints ((hash, entry) ∷ entries) = do
    relog_command hash fingerprints entry
    relog_from fingerprints entries

  -- `recompactPersistentInvocationLog`, on the empty file that `mkstemp` gives, up to the `rename` that
  -- puts it in place of the log
  unfoldable pub recompact : Logged → Wrote (Unit {0})
  recompact inv =
      (do
        write_file_header stream
        created_directories_from inv.created_directories
        relog_from inv.fingerprints inv.entries)
        (opened [] no_parse_data)
