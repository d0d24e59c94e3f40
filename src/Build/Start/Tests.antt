-- ===== src/Build/Start/Tests.antt =====
-- The build of three steps starts with all object files as the log has them.
use shuriken.Build.Start.{start_build}
use shuriken.Build.Memo.Covered.{IsSharedOut}
use shuriken.Fs.Fingerprint.{Fingerprint}
use Prim.Native.String.{String}
use shuriken.Build.Graph.Tests.{steps, invocations, plan-IsInRange, object_fingerprint}
use shuriken.Build.Start.Correct.{IsValid, IsStarted, start_build-IsStarted}
use shuriken.Prelude.{List, [], ◌∷◌, map, inl, arith, refl}
use shuriken.Fs.FileSystem.{FileSystem, io_error, ok}
use shuriken.Build.Data.{Manifest, Entry}

abbrev manifest : Manifest
manifest = record { steps = steps; defaults = []; roots = 2 ∷ [] }

-- Every path is an object file that the log matches.
abbrev unchanged : FileSystem
unchanged = record {
  stat = λ _. record { result = 0; mode = 33188; size = 5; ino = 40; dev = 1; mtime = 10 };
  lstat = λ _. record { result = 0; mode = 33188; size = 5; ino = 40; dev = 1; mtime = 10 };
  hash_dir = λ _ _. io_error 20;
  hash_symlink = λ _ _. io_error 20;
  hash_file = λ _ _. ok 77;
}

abbrev fingerprint_files : List String → List Fingerprint
fingerprint_files paths = map (λ _. object_fingerprint) paths

abbrev one_thread : List Entry → List (List Entry)
one_thread entries = entries ∷ []

one_thread-IsSharedOut : (entries : List Entry) → IsSharedOut entries (one_thread entries)
one_thread-IsSharedOut entries e m = (entries, inl refl, m)

manifest-IsValid : IsValid manifest invocations
manifest-IsValid = record {
  dependencies = plan-IsInRange;
  defaults = tt;
  roots = (omega arith, tt);
  files = λ j e f l u. ground arith;
}

start_build-IsStarted_example :
    IsStarted unchanged manifest invocations []
      (start_build unchanged fingerprint_files one_thread manifest invocations 1 [])
start_build-IsStarted_example =
    start_build-IsStarted unchanged fingerprint_files one_thread manifest invocations 1 []
      manifest-IsValid tt one_thread-IsSharedOut
