-- ===== src/Build/Cleanup.antt =====
-- build.cpp: `deleteBuildProduct`, `deleteOldOutputs` and `deleteStaleOutputs`. The file system that they
-- change is a parameter: a state, and functions that give an error's code and the next state. What they
-- call of the log is a list of its operations, the oldest first. Paths are bytes, as in the log.
pub mod Removed
pub mod Stale
pub mod Tests
use shuriken.Prelude.Assoc.{lookup, Assoc, has}
use shuriken.Util.Split.{dirname}
use shuriken.Build.Data.{Step, Entry}
use shuriken.Fs.FileSystem.{Hash, Stat, file_id_of}
use shuriken.Log.Synced.Effects.{Operation, removed, cleaned}
use shuriken.Log.Data.{LogPath, Logged, no_file_logged}
use shuriken.Prelude.{
  zero, list_eq, nat_eq, List, ℕ, Option, Bool, length, ◌∷◌, some, suc, ◌++◌, [], nat_beq, get_or,
  map, if◌then◌else◌, ◌+◌, none, ◌&&◌, ◌==◌, not, elem, zero,
}
use shuriken.Fs.FileId.{file_id_eq}

-- The part of `FileSystem` that changes files. A name that is not there is ENOENT.
pub record Os (W : Type 0) : Type 0 where
  pub unlink : LogPath → W → Option ℕ × W
  pub rmdir : LogPath → W → Option ℕ × W
  pub lstat : LogPath → W → Stat

-- The files, and the calls of the log so far
pub record World (W : Type 0) : Type 0 where
  pub files : W
  pub calls : List Operation

-- An outcome, with what was done up to it: a value, an `IoError`, or no fuel.
pub data Did {ℓ} (W : Type 0) (A : Type ℓ) : Type ℓ where
  did : A → World W → Did W A
  raised : ℕ → World W → Did W A
  starved : Did W A

abbrev pub Action {ℓ} : Type 0 → Type ℓ → Type ℓ
Action W A = World W → Did W A

infixl 5 ◌>>=◌ ◌>>◌
abbrev pub ◌>>=◌ {ℓ κ} :
    {W : Type 0} {A : Type ℓ} {B : Type κ} → Action W A → (A → Action W B) → Action W B
◌>>=◌ m f w = elim (m w) [
  | did a next ↦ f a next
  | raised code next ↦ raised code next
  | starved ↦ starved
]

abbrev pub ◌>>◌ {ℓ} : {W : Type 0} {B : Type ℓ} → Action W (Unit {0}) → Action W B → Action W B
m >> k = m >>= λ _. k

abbrev pub finished : {W : Type 0} → Action W (Unit {0})
finished w = did tt w

-- A call of the file system, and its error
abbrev pub try : {W : Type 0} → (W → Option ℕ × W) → Action W (Option ℕ)
try f w = let (error, files) = f w.files in did error (record w { files = files })

abbrev pub or_raise : {W : Type 0} → Option ℕ → Action W (Unit {0})
or_raise none w = did tt w
or_raise (some code) w = raised code w

abbrev pub log_call : {W : Type 0} → Operation → Action W (Unit {0})
log_call op w = did tt (record w { calls = w.calls ++ op ∷ [] })

abbrev pub enoent : ℕ
enoent = 2

abbrev pub enotempty : ℕ
enotempty = 39

module _ {W : Type 0} (os : Os W) where
  -- Whether an earlier build created a directory that is there
  abbrev pub was_created : Logged → LogPath → W → Bool
  was_created invocations dir files =
      let stat = os.lstat dir files in
      nat_beq stat.result 0 && has (lookup (file_id_of stat) invocations.created_directories)

  -- What the loop over the ancestors does after `rmdir`
  abbrev pub after_rmdir : LogPath → Action W (Unit {0}) → Option ℕ → Action W (Unit {0})
  after_rmdir dir rest none w = (log_call (removed dir) >> rest) w
  after_rmdir dir rest (some code) w = if nat_beq code enotempty then did tt w else raised code w

  -- The loop over the ancestors of `dir`
  unfoldable pub delete_ancestors : ℕ → Logged → LogPath → Action W (Unit {0})
  delete_ancestors zero invocations dir w = starved
  delete_ancestors (suc fuel) invocations dir w =
      let parent = dirname dir in
      let rest = delete_ancestors fuel invocations parent in
      if parent == dir
      then did tt w
      else if not (was_created invocations parent w.files)
      then did tt w
      else (try (os.rmdir parent) >>= after_rmdir parent rest) w

  abbrev pub unlink_error : Option ℕ → Action W (Unit {0})
  unlink_error none w = did tt w
  unlink_error (some code) w = if nat_beq code enoent then did tt w else raised code w

  -- Three more than the length of the path is enough fuel.
  unfoldable pub delete_build_product : Logged → LogPath → Action W (Unit {0})
  unfolding delete_ancestors
  delete_build_product invocations path = do
    error ← try (os.unlink path)
    unlink_error error
    delete_ancestors (length path + 3) invocations path

  -- The loop over the outputs of an entry
  unfoldable pub delete_outputs : Logged → List ℕ → Action W (Unit {0})
  unfolding delete_build_product
  delete_outputs invocations [] = finished
  delete_outputs invocations (i ∷ is) = do
    delete_build_product invocations (get_or invocations.fingerprints i no_file_logged).0
    delete_outputs invocations is

  unfoldable pub delete_old_outputs : Logged → Hash → Action W (Unit {0})
  unfolding delete_outputs
  delete_old_outputs invocations step_hash w = elim (lookup step_hash invocations.entries) [
    | none ↦ did tt w
    | some entry ↦ delete_outputs invocations entry.output_files w
  ]

  -- The loop of `deleteStaleOutputs` over the entries
  unfoldable pub delete_stale_entries : Logged → List Hash → Assoc Hash Entry → Action W (Unit {0})
  unfolding delete_outputs
  delete_stale_entries invocations step_hashes [] = finished
  delete_stale_entries invocations step_hashes ((hash, entry) ∷ entries) =
      let rest = delete_stale_entries invocations step_hashes entries in
      if elem hash step_hashes
      then rest
      else (do delete_outputs invocations entry.output_files; log_call (cleaned hash); rest)

  unfoldable pub delete_stale_outputs : List Step → Logged → Action W (Unit {0})
  unfolding delete_stale_entries
  delete_stale_outputs steps invocations =
      delete_stale_entries invocations (map (λ s. s.hash) steps) invocations.entries
