-- ===== src/Build/Cleanup/Tests.antt =====
-- A build that made two directories and an object in them, whose step has left the manifest.
use shuriken.Util.Split.{dirname, basename_split_piece, find_last_slash, find_last_nonslash}
use shuriken.Log.Synced.Effects.{removed, cleaned}
use shuriken.Fs.FileId.{FileId}
use shuriken.Fs.FileSystem.{Stat}
use shuriken.Build.Data.{Entry, Step, no_step}
use shuriken.Log.Data.{LogPath, Logged, no_file_logged}
use shuriken.Build.Cleanup.Removed.{IsDeletion, delete_build_product-IsDeletion}
use shuriken.Build.Cleanup.Stale.{Cleans, delete_stale_outputs-Cleans}
use shuriken.Build.Cleanup.{
  Os, World, did, delete_build_product, delete_stale_outputs, delete_stale_entries, delete_outputs,
  delete_ancestors,
}
use shuriken.Prelude.{
  refl, list_eq, nat_eq, List, ℕ, ◌∷◌, [], Bool, if◌then◌else◌, false, elem, ◌==◌, length, none,
  some, ◌||◌, ◌≡◌,
}

-- "a", "a/b" and "a/b/o"
abbrev outer : LogPath
outer = 97 ∷ []

abbrev inner : LogPath
inner = 97 ∷ 47 ∷ 98 ∷ []

abbrev object : LogPath
object = 97 ∷ 47 ∷ 98 ∷ 47 ∷ 111 ∷ []

-- The names that are there. A name's inode is the length of its path.
abbrev without : LogPath → List LogPath → List LogPath
without path [] = []
without path (p ∷ ps) = let rest = without path ps in if p == path then rest else p ∷ rest

abbrev has_child : LogPath → List LogPath → Bool
has_child path [] = false
has_child path (p ∷ ps) = dirname p == path || has_child path ps

abbrev stat_of : LogPath → List LogPath → Stat
stat_of path names = record {
  result = if elem path names then 0 else 2;
  mode = 0;
  size = 0;
  ino = length path;
  dev = 1;
  mtime = 0;
}

abbrev pub disk : Os (List LogPath)
disk = record {
  unlink = λ path names. (if elem path names then none else some 2, without path names);
  rmdir =
      λ path names. if has_child path names then (some 39, names) else (none, without path names);
  lstat = stat_of;
}

abbrev old_entry : Entry
old_entry = record {
  output_files = 0 ∷ [];
  input_files = [];
  ignored_dependencies = [];
  additional_dependencies = [];
}

abbrev id_of_length : ℕ → FileId
id_of_length n = record { ino = n; dev = 1 }

abbrev earlier : Logged
earlier = record {
  fingerprints = (object, no_file_logged.1) ∷ [];
  entries = (5, old_entry) ∷ (6, old_entry) ∷ [];
  created_directories = (id_of_length 1, outer) ∷ (id_of_length 3, inner) ∷ [];
}

abbrev pub before : World (List LogPath)
before = record { files = outer ∷ inner ∷ object ∷ []; calls = [] }

abbrev kept_step : Step
kept_step = record no_step { hash = 6; command = "cc" }

abbrev after : World (List LogPath)
after = record { files = []; calls = removed inner ∷ removed outer ∷ cleaned 5 ∷ [] }

delete_stale_outputs-runs : delete_stale_outputs disk (kept_step ∷ []) earlier before ≡ did tt after
unfolding delete_stale_outputs delete_stale_entries delete_outputs delete_build_product
    delete_ancestors dirname basename_split_piece find_last_slash find_last_nonslash
delete_stale_outputs-runs = refl

delete_build_product-IsDeletion_example :
    IsDeletion disk earlier object before (delete_build_product disk earlier object before)
delete_build_product-IsDeletion_example = delete_build_product-IsDeletion disk earlier object before

delete_stale_outputs-Cleans_example :
    Cleans disk earlier (5 ∷ []) before (delete_stale_outputs disk (kept_step ∷ []) earlier before)
delete_stale_outputs-Cleans_example =
    delete_stale_outputs-Cleans disk earlier (kept_step ∷ []) before
