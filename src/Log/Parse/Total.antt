-- ===== src/Log/Parse/Total.antt =====
-- About the functions of persistent_invocation_log.cpp that read an entry: whether they reach `fatal`.

use shuriken.Fs.FileSystem.{Hash, Stat}
use shuriken.Log.Data.{LogPath}
use shuriken.Log.Parser.{
  advance, read_u32, read_hash, read_indices, read_hashes, read_path, ensure_entry_len,
  path_size_from, parse_path, parse_fingerprint, Parsing, parse_created_dir, parse_deleted,
  parse_invocation, read_ignored, read_additional, read_files,
}
use shuriken.Log.Bytes.{get_u32s, get_hashes, Bytes, u32_size}
use shuriken.Prelude.{
  ℕ, List, length, ◌≡◌, ◌≤◌, drop, take, arith, suc, ◌/◌, ◌∷◌, ap, ◌-◌, ◌*◌, refl, zero, [], ◌≢◌,
}
use shuriken.Log.Parsed.{Parsed, parsed, parse_error, ◌>>=◌, aborted}

pub length-drop {ℓ} : {A : Type ℓ} (n : ℕ) (xs : List A) → length (drop n xs) ≡ length xs - n
length-drop zero xs = omega arith
length-drop (suc n) [] = omega arith
length-drop (suc n) (x ∷ xs) = omega (arith, length-drop n xs)

pub length-take_le {ℓ} : {A : Type ℓ} (n : ℕ) (xs : List A) → n ≤ length xs → length (take n xs) ≡ n
length-take_le zero xs h = refl
length-take_le (suc n) [] h = absurd (omega arith)
length-take_le (suc n) (x ∷ xs) h = omega (arith, length-take_le n xs (omega arith))

length-get_u32s : (n : ℕ) (bs : Bytes) → length (get_u32s n bs) ≡ n
unfolding get_u32s
length-get_u32s zero bs = refl
length-get_u32s (suc n) bs = ap suc (length-get_u32s n (drop 4 bs))

length-get_hashes : (n : ℕ) (bs : Bytes) → length (get_hashes n bs) ≡ n
unfolding get_hashes
length-get_hashes zero bs = refl
length-get_hashes (suc n) bs = ap suc (length-get_hashes n (drop 20 bs))

pub advance-le : (view : Bytes) (n : ℕ) → n ≤ length view → advance view n ≡ parsed (drop n view)
unfolding advance
advance-le view n h = ground arith

-- What a read says about the view
read_u32_lives : (view : Bytes) → read_u32 view ≢ aborted
unfolding read_u32 ensure_entry_len
read_u32_lives view = ground arith

read_u32_long : (view : Bytes) (v : ℕ) → read_u32 view ≡ parsed v → 4 ≤ length view
unfolding read_u32 ensure_entry_len
read_u32_long view v h = ground arith

read_hash_lives : (view : Bytes) → read_hash view ≢ aborted
unfolding read_hash ensure_entry_len
read_hash_lives view = ground arith

read_hash_long : (view : Bytes) (v : Hash) → read_hash view ≡ parsed v → 20 ≤ length view
unfolding read_hash ensure_entry_len
read_hash_long view v h = ground arith

read_indices_lives : (n : ℕ) (view : Bytes) → read_indices n view ≢ aborted
unfolding read_indices
read_indices_lives n view = ground arith

read_hashes_lives : (view : Bytes) (n : ℕ) → read_hashes view n ≢ aborted
unfolding read_hashes
read_hashes_lives view n = ground arith

length-read_indices :
    (n : ℕ) (view : Bytes) (ids : List ℕ)
    → read_indices n view ≡ parsed ids
    → length ids ≡ length view / 4
unfolding read_indices
length-read_indices n view ids h = ground (arith, length-get_u32s (length view / u32_size) view)

length-read_hashes :
    (view : Bytes) (n : ℕ) (hashes : List Hash)
    → read_hashes view n ≡ parsed hashes
    → (length hashes ≡ n) × (n * 20 ≤ length view)
unfolding read_hashes
length-read_hashes view n hashes h = ground (arith, length-get_hashes n view)

read_path_lives : (paths : List LogPath) (view : Bytes) → read_path paths view ≢ aborted
unfolding read_path
read_path_lives paths view = ground (arith, read_u32_lives view)

read_path_long :
    (paths : List LogPath) (view : Bytes) (p : LogPath)
    → read_path paths view ≡ parsed p
    → 4 ≤ length view
unfolding read_path
read_path_long paths view p h = ground (arith, read_u32_long view)

path_size_from_lives : (k : ℕ) (entry : Bytes) (size : ℕ) → path_size_from k entry size ≢ aborted
unfolding path_size_from
path_size_from_lives zero entry size = ground arith
path_size_from_lives (suc k) entry size = ground (arith, path_size_from_lives k entry (size - 1))

pub parse_path_lives : (entry : Bytes) (p : Parsing) → parse_path entry p ≢ aborted
unfolding parse_path
parse_path_lives entry p = ground (arith, path_size_from_lives 3 entry (length entry - 1))

module _ (lstat : LogPath → Stat) where
  pub parse_created_dir_lives :
      (entry : Bytes) (p : Parsing) → parse_created_dir lstat entry p ≢ aborted
  unfolding parse_created_dir
  parse_created_dir_lives entry p = ground (arith, read_path_lives p.paths_by_id entry)

  pub parse_deleted_lives : (entry : Bytes) (p : Parsing) → parse_deleted lstat entry p ≢ aborted
  unfolding parse_deleted
  parse_deleted_lives entry p =
      ground (arith, read_path_lives p.paths_by_id entry, read_hash_lives entry)

pub parse_fingerprint_lives : (entry : Bytes) (p : Parsing) → parse_fingerprint entry p ≢ aborted
unfolding parse_fingerprint
parse_fingerprint_lives entry p = ground (
  arith,
  read_path_lives p.paths_by_id entry,
  read_path_long p.paths_by_id entry,
  advance-le entry 4,
)

length-take_drop : (n : ℕ) (view : Bytes) → 4 * n ≤ length view → length (take (4 * n) view) / 4 ≡ n
length-take_drop n view h = omega (arith, length-take_le (4 * n) view h)

-- A number, and the view after it
number_lives :
    {B : Type 0} (view : Bytes) (f : ℕ → Bytes → Parsed B)
    → ((v : ℕ) → f v (drop 4 view) ≢ aborted)
    → (read_u32 view >>= λ v. advance view 4 >>= f v) ≢ aborted
number_lives view f k = go (read_u32 view) refl
  where
    go : (o : Parsed ℕ) → read_u32 view ≡ o → (o >>= λ v. advance view 4 >>= f v) ≢ aborted
    go (parsed v) h = rw (advance-le view 4 (read_u32_long view v h)) (k v)
    go (parse_error message) h = λ e. cc
    go aborted h = absurd (read_u32_lives view h)

read_ignored_lives : (view : Bytes) → read_ignored view ≢ aborted
unfolding read_ignored read_indices
read_ignored_lives view = number_lives view _ (λ n.
    let front = take (4 * n) (drop 4 view) in
    let size = length front / 4 in
    ground (
      arith,
      length-get_u32s size front,
      length-take_le (4 * n) (drop 4 view),
      advance-le (drop 4 view) (length (get_u32s size front) * 4),
    ))

read_additional_lives : (view : Bytes) → read_additional view ≢ aborted
unfolding read_additional read_hashes
read_additional_lives view = number_lives view _ (λ n. ground (
  arith,
  length-get_hashes n (drop 4 view),
  advance-le (drop 4 view) (length (get_hashes n (drop 4 view)) * 20),
))

read_files_lives : (n : ℕ) (view : Bytes) → read_files n view ≢ aborted
unfolding read_files
read_files_lives n view = number_lives view _ (λ k. ground (
  arith,
  read_indices_lives n (take (4 * k) (drop 4 view)),
  read_indices_lives n (drop (4 * k) (drop 4 view)),
  advance-le (drop 4 view) (4 * k),
))

pub parse_invocation_lives : (entry : Bytes) (p : Parsing) → parse_invocation entry p ≢ aborted
unfolding parse_invocation
parse_invocation_lives entry p = grind (
  arith,
  read_hash_lives entry,
  read_hash_long entry,
  advance-le entry 20,
  read_ignored_lives,
  read_additional_lives,
  read_files_lives,
)
