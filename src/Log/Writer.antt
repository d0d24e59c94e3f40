-- ===== src/Log/Writer.antt =====
-- src/shk/src/log/persistent_invocation_log.cpp: `PersistentInvocationLog`, which appends to the log. The
-- stream is a parameter: what the file holds after a write, and the code of the error if it fails.
pub mod Appends
use shuriken.Prelude.Assoc.{lookup, insert}
use shuriken.Fs.Fingerprint.{Fingerprint, is_dir, fingerprint_beq}
use shuriken.Log.Data.{
  LogPath, PathIds, FingerprintIds, created_dir_or_fingerprint_type, entry_types, path_type,
  invalid_entry, file_signature, FingerprintIdsValue, file_version,
}
use shuriken.Prelude.{
  ℕ, Bool, if◌then◌else◌, List, Option, false, nat_beq, length, ◌-◌, none, true, ◌∷◌, some, ◌%◌,
  ◌+◌, not, ◌++◌, [], replicate, ◌^◌,
}
use shuriken.Log.Bytes.{Bytes, u32_size, put_u32, fingerprint_size, put_fingerprint}
use shuriken.Prelude.{list_eq, nat_eq}

abbrev pub Stream : Type 0
Stream = Bytes → Bytes → Bytes × Option ℕ

-- `PersistentInvocationLog`: what the file holds, and the fields. What `_buffer` owns stays alive, and
-- so has no part in this.
pub record Log : Type 0 where
  pub written : Bytes
  pub path_ids : PathIds
  pub fingerprint_ids : FingerprintIds
  pub fingerprint_entry_count : ℕ
  pub path_entry_count : ℕ

-- How a method ends: with a value, with the `IoError` or `runtime_error` that it throws, or in `fatal`.
-- An exception leaves the object as it is.
pub data Wrote {ℓ} (A : Type ℓ) : Type ℓ where
  wrote : A → Log → Wrote A
  threw : ℕ → Log → Wrote A
  mismatch : Log → Wrote A
  ended : Wrote A

abbrev pub Writer {ℓ} : Type ℓ → Type ℓ
Writer A = Log → Wrote A

infixl 5 ◌>>=◌ ◌>>◌
abbrev pub ◌>>=◌ {ℓ κ} : {A : Type ℓ} {B : Type κ} → Writer A → (A → Writer B) → Writer B
◌>>=◌ m f log = elim (m log) [
  | wrote a next ↦ f a next
  | threw code next ↦ threw code next
  | mismatch next ↦ mismatch next
  | ended ↦ ended
]

abbrev pub ◌>>◌ {ℓ} : {B : Type ℓ} → Writer (Unit {0}) → Writer B → Writer B
m >> k = m >>= λ _. k

abbrev pub pure {ℓ} : {A : Type ℓ} → A → Writer A
pure a log = wrote a log

-- `if (test) { ... }`
abbrev pub when : Bool → Writer (Unit {0}) → Writer (Unit {0})
when test body = if test then body else pure tt

-- The fields of the object, and a change to them
abbrev pub get : Writer Log
get log = wrote log log

abbrev pub modify : (Log → Log) → Writer (Unit {0})
modify f log = wrote tt (f log)

abbrev pub fatal : Writer (Unit {0})
fatal log = ended

-- `WriteType`
pub data WriteType : Type 0 where
  ignore_directory : WriteType
  directory_as_directory_entry : WriteType

abbrev pub writes_directory : WriteType → Bool
writes_directory ignore_directory = false
writes_directory directory_as_directory_entry = true

abbrev pub after_write : Log → Bytes × Option ℕ → Wrote (Unit {0})
after_write log (contents, none) = wrote tt (record log { written = contents })
after_write log (contents, some code) = threw code (record log { written = contents })

-- The zeros after a path and its terminator
abbrev pub padding_bytes : ℕ → ℕ
padding_bytes path_size = (4 - path_size % entry_types) % 4

module _ (stream : Stream) where
  -- `_stream->write`, and `throw error` where it fails
  unfoldable pub put_bytes : Bytes → Writer (Unit {0})
  put_bytes data_bytes log = after_write log (stream log.written data_bytes)

  -- `writeHeader` of a size and a type: the size is a multiple of four, so `|` is `+`.
  unfoldable pub write_header : ℕ → ℕ → Writer (Unit {0})
  write_header size type = do
    when (not (nat_beq (size % entry_types) 0)) fatal
    put_bytes (put_u32 (size + type))

  -- `writeHeader` of the file
  unfoldable pub write_file_header : Writer (Unit {0})
  write_file_header = do
    log ← get
    when (nat_beq (length log.written) 0)
        (do put_bytes file_signature; put_bytes (put_u32 file_version))

  unfoldable pub write_path_entry : LogPath → Writer (Unit {0})
  write_path_entry path = do
    let path_size = length path + 1
    write_header (path_size + padding_bytes path_size) path_type
    put_bytes (path ++ 0 ∷ [])
    put_bytes (replicate (padding_bytes path_size) 0)
    modify (λ log. record log { path_entry_count = (log.path_entry_count + 1) % 2 ^ 32 })

  unfoldable pub write_directory_entry : ℕ → Writer (Unit {0})
  write_directory_entry path_id = do
    write_header u32_size created_dir_or_fingerprint_type
    put_bytes (put_u32 path_id)

  -- The id of the entry
  unfoldable pub write_fingerprint_entry : ℕ → Fingerprint → Writer ℕ
  write_fingerprint_entry path_id fingerprint = do
    write_header (u32_size + fingerprint_size) created_dir_or_fingerprint_type
    put_bytes (put_u32 path_id)
    put_bytes (put_fingerprint fingerprint)
    log ← get
    modify (λ l. record l { fingerprint_entry_count = (l.fingerprint_entry_count + 1) % 2 ^ 32 })
    pure log.fingerprint_entry_count

  -- The id of the path
  unfoldable pub ensure_path_is_written : LogPath → Writer ℕ
  ensure_path_is_written path = do
    log ← get
    elim (lookup path log.path_ids) [
      | none ↦ do
        write_path_entry path
        modify (λ l. record l { path_ids = insert path log.path_entry_count l.path_ids })
        pure log.path_entry_count
      | some id ↦ pure id
    ]

  unfoldable pub write_fingerprint_or_directory_entry :
      ℕ → LogPath → Fingerprint → WriteType → Writer ℕ
  write_fingerprint_or_directory_entry path_id path fingerprint type =
      if is_dir fingerprint.stat
      then (do when (writes_directory type) (write_directory_entry path_id); pure invalid_entry)
      else (do
        log ← get
        let value : FingerprintIdsValue = record {
          record_id = log.fingerprint_entry_count;
          fingerprint = fingerprint;
        }
        entry_id ← write_fingerprint_entry path_id fingerprint
        modify (λ l. record l { fingerprint_ids = insert path value l.fingerprint_ids })
        pure entry_id)

  unfoldable pub ensure_recent_fingerprint_is_written : LogPath → Fingerprint → WriteType → Writer ℕ
  ensure_recent_fingerprint_is_written path fingerprint type = do
    path_id ← ensure_path_is_written path
    log ← get
    elim (lookup path log.fingerprint_ids) [
      | none ↦ write_fingerprint_or_directory_entry path_id path fingerprint type
      | some value ↦
          if not (fingerprint_beq value.fingerprint fingerprint)
          then write_fingerprint_or_directory_entry path_id path fingerprint type
          else pure value.record_id
    ]

  -- The loop of `writeOutputPathsAndFingerprints` and of `writeInputPathsAndFingerprints`
  unfoldable pub write_paths_and_fingerprints :
      WriteType → List LogPath → List Fingerprint → Writer (List ℕ)
  write_paths_and_fingerprints type [] fps = pure []
  write_paths_and_fingerprints type (path ∷ paths) [] = pure []
  write_paths_and_fingerprints type (path ∷ paths) (fp ∷ fps) = do
    entry_id ← ensure_recent_fingerprint_is_written path fp type
    ids ← write_paths_and_fingerprints type paths fps
    pure (if nat_beq entry_id invalid_entry then ids else entry_id ∷ ids)

  abbrev pub throw_mismatch : Writer (Unit {0})
  throw_mismatch log = mismatch log

  unfoldable pub write_all_paths_and_fingerprints :
      WriteType → List LogPath → List Fingerprint → Writer (List ℕ)
  write_all_paths_and_fingerprints type paths fps = do
    when (not (nat_beq (length paths) (length fps))) throw_mismatch
    write_paths_and_fingerprints type paths fps
