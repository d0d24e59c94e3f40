-- ===== src/Fs/FileSystem.antt =====
-- src/shk/src/fs/file_system.h: the metadata that `lstat` returns, and the part of the `FileSystem`
-- interface that fingerprints use. The operating system stands behind the interface, so its
-- operations are parameters; a value of the record is one state of the files.
-- Times are seconds since 1970, and not before. A path is a text.
use Prim.Native.String.{String}
use shuriken.Prelude.{ℕ}
use shuriken.Fs.FileId.{FileId}

-- 20 bytes, read as one number with the first byte highest: `<` of the arrays is `<` of the numbers.
abbrev pub Hash : Type 0
Hash = ℕ

pub record Stat : Type 0 where
  pub result : ℕ
  pub mode : ℕ
  pub size : ℕ
  pub ino : ℕ
  pub dev : ℕ
  pub mtime : ℕ

-- `FileId(const Stat &)`
abbrev pub file_id_of : Stat → FileId
file_id_of s = record { ino = s.ino; dev = s.dev }

-- The error code of an `IoError`.
pub data Io {ℓ} (A : Type ℓ) : Type ℓ where
  ok : A → Io A
  io_error : ℕ → Io A

-- The bytes that are hashed before the contents, by field.
pub record ExtraData : Type 0 where
  pub header_size : ℕ
  pub file_size : ℕ
  pub file_mode : ℕ

pub record FileSystem : Type 0 where
  pub stat : String → Stat
  pub lstat : String → Stat
  pub hash_dir : String → ExtraData → Io Hash
  pub hash_symlink : String → ExtraData → Io Hash
  pub hash_file : String → ExtraData → Io Hash
