-- ===== src/Log/Data.antt =====
-- What the log holds: src/shk/src/log/invocations.h once more, with a path as the list of its bytes, and
-- the tables of src/shk/src/log/persistent_invocation_log.h that go from a parse to the next writer.
use shuriken.Fs.FileId.{FileId}
use shuriken.Build.Data.{Entry}
use shuriken.Fs.FileSystem.{Hash}
use shuriken.Fs.Fingerprint.{Fingerprint, no_stat}
use shuriken.Prelude.Assoc.{Assoc}
use shuriken.Prelude.{List, ℕ, [], ◌∷◌, false}
use shuriken.Log.Bytes.{Bytes}

abbrev pub LogPath : Type 0
LogPath = Bytes

-- `Invocations`
pub record Logged : Type 0 where
  pub fingerprints : List (LogPath × Fingerprint)
  pub entries : Assoc Hash Entry
  pub created_directories : Assoc FileId LogPath

pub record FingerprintIdsValue : Type 0 where
  pub record_id : ℕ
  pub fingerprint : Fingerprint

abbrev pub PathIds : Type 0
PathIds = Assoc LogPath ℕ

abbrev pub FingerprintIds : Type 0
FingerprintIds = Assoc LogPath FingerprintIdsValue

-- `InvocationLogParseResult::ParseData`
pub record ParseData : Type 0 where
  pub path_ids : PathIds
  pub fingerprint_ids : FingerprintIds
  pub fingerprint_entry_count : ℕ
  pub path_entry_count : ℕ

abbrev pub no_file_logged : LogPath × Fingerprint
no_file_logged = ([], record { stat = no_stat; racily_clean = false; hash = 0 })

abbrev pub no_invocations : Logged
no_invocations = record { fingerprints = []; entries = []; created_directories = [] }

abbrev pub no_parse_data : ParseData
no_parse_data = record {
  path_ids = [];
  fingerprint_ids = [];
  fingerprint_entry_count = 0;
  path_entry_count = 0;
}

-- `InvocationLogEntryType`, and `kInvocationLogEntryTypeMask + 1`
abbrev pub path_type : ℕ
path_type = 0

abbrev pub created_dir_or_fingerprint_type : ℕ
created_dir_or_fingerprint_type = 1

abbrev pub invocation_type : ℕ
invocation_type = 2

abbrev pub deleted_type : ℕ
deleted_type = 3

abbrev pub entry_types : ℕ
entry_types = 4

-- "invocations:"
abbrev pub file_signature : Bytes
file_signature = 105 ∷ 110 ∷ 118 ∷ 111 ∷ 99 ∷ 97 ∷ 116 ∷ 105 ∷ 111 ∷ 110 ∷ 115 ∷ 58 ∷ []

abbrev pub file_version : ℕ
file_version = 1

-- The largest `uint32_t`
abbrev pub invalid_entry : ℕ
invalid_entry = 4294967295
