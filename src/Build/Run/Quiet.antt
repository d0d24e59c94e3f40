-- ===== src/Build/Run/Quiet.antt =====
-- About what surrounds a command of a build (build.cpp): it ends, and no step is logged there.
use mathlib.Core.List.{append-nil}
use shuriken.Util.Split.{dirname}
use shuriken.Log.Synced.Effects.{created}
use Prim.Native.String.{String}
use shuriken.Build.Data.{Step}
use shuriken.Log.Data.{LogPath}
use shuriken.Build.Cleanup.Stale.{
  EndsQuietly, bind-EndsQuietly, delete_old_outputs-EndsQuietly, IsDeletion-quiet,
}
use shuriken.Build.Cleanup.Removed.{delete_build_product-IsDeletion}
use shuriken.Build.Run.Prepare.{
  mkdirs_and_log, mkdirs_all, write_rspfile, prepare_command, delete_file, delete_side_files,
  is_failure,
}
use shuriken.Build.Run.{Surroundings, Parameters, logged_of, ExitStatus}
use shuriken.Build.Cleanup.{
  ◌>>=◌, ◌>>◌, World, or_raise, try, finished, delete_old_outputs, delete_build_product, Did, did,
  raised,
}
use shuriken.Log.Delayed.Flushed.{steps_of, steps_of-append}
use shuriken.Prelude.{
  string_eq, nat_eq, refl, List, Option, map, ℕ, ◌∷◌, Bool-cases, if◌then◌else◌, some, inl, ◌==◌,
  none, [], inr, ◌≡◌, ◌++◌, ◌∙◌, ap,
}

steps_of-created : (paths : List LogPath) → steps_of (map created paths) ≡ []
steps_of-created [] = refl
steps_of-created (p ∷ ps) = steps_of-created ps

module _ {W : Type 0} (around : Surroundings W) (params : Parameters) where
  abbrev Quiet : World W → Did W (Unit {0}) → Type 0
  Quiet = EndsQuietly around.os (logged_of around.bytes params)

  mkdirs_and_log-Quiet :
      (path : LogPath) (w : World W) → Quiet w (mkdirs_and_log around params path w)
  unfolding mkdirs_and_log
  mkdirs_and_log-Quiet path w = go (around.mkdirs path w.files)
    where
      go :
          (result : (List LogPath × Option ℕ) × W)
          → Quiet w (elim result.0.1 [
            | none ↦ did tt (record { files = result.1; calls = w.calls ++ map created result.0.0 })
            | some code ↦ raised code (record w { files = result.1 })
          ])
      go ((dirs, none), files) =
          steps_of-append w.calls (map created dirs)
          ∙ ap (λ ops. steps_of w.calls ++ ops) (steps_of-created dirs)
          ∙ append-nil (steps_of w.calls)
      go ((dirs, some code), files) = refl

  mkdirs_all-Quiet : (dirs : List String) (w : World W) → Quiet w (mkdirs_all around params dirs w)
  unfolding mkdirs_all
  mkdirs_all-Quiet [] w = refl
  mkdirs_all-Quiet (dir ∷ dirs) w =
      bind-EndsQuietly around.os (logged_of around.bytes params)
        (mkdirs_and_log around params (around.bytes dir)) (mkdirs_all around params dirs) w
        (mkdirs_and_log-Quiet (around.bytes dir) w) (λ next. mkdirs_all-Quiet dirs next)

  or_raise-Quiet :
      (result : Option ℕ × W) (w : World W)
      → Quiet w (or_raise result.0 (record w { files = result.1 }))
  or_raise-Quiet (none, files) w = refl
  or_raise-Quiet (some code, files) w = refl

  write_rspfile-Quiet : (step : Step) (w : World W) → Quiet w (write_rspfile around params step w)
  unfolding write_rspfile
  write_rspfile-Quiet step w = elim (Bool-cases (step.rspfile == "")) [
    | inl empty ↦ rw empty refl
    | inr file ↦ rw file (
        bind-EndsQuietly around.os (logged_of around.bytes params)
          (mkdirs_and_log around params (dirname (around.bytes step.rspfile)))
          (try (around.write_file (around.bytes step.rspfile) (around.bytes step.rspfile_content))
            >>= or_raise)
          w (mkdirs_and_log-Quiet (dirname (around.bytes step.rspfile)) w)
          (λ next.
            or_raise-Quiet
              (around.write_file (around.bytes step.rspfile) (around.bytes step.rspfile_content)
                next.files)
              next))
  ]

  pub prepare_command-Quiet :
      (step : Step) (w : World W) → Quiet w (prepare_command around params step w)
  unfolding prepare_command
  prepare_command-Quiet step w =
      bind-EndsQuietly around.os (logged_of around.bytes params)
        (delete_old_outputs around.os (logged_of around.bytes params) step.hash)
        (write_rspfile around params step >> mkdirs_all around params step.output_dirs) w
        (delete_old_outputs-EndsQuietly around.os (logged_of around.bytes params) step.hash w)
        (λ next.
          bind-EndsQuietly around.os (logged_of around.bytes params)
            (write_rspfile around params step) (mkdirs_all around params step.output_dirs) next
            (write_rspfile-Quiet step next) (λ last. mkdirs_all-Quiet step.output_dirs last))

  delete_file-Quiet : (path : String) (w : World W) → Quiet w (delete_file around params path w)
  unfolding delete_file
  delete_file-Quiet path w =
      let product =
        delete_build_product around.os (logged_of around.bytes params) (around.bytes path) w in
      elim (Bool-cases (path == "")) [
        | inl none_given ↦ rw none_given refl
        | inr given ↦ rw given (
            IsDeletion-quiet around.os (logged_of around.bytes params) (around.bytes path) w product
              (delete_build_product-IsDeletion around.os (logged_of around.bytes params)
                (around.bytes path) w))
      ]

  pub delete_side_files-Quiet :
      (step : Step) (status : ExitStatus) (w : World W)
      → Quiet w (delete_side_files around params step status w)
  unfolding delete_side_files
  delete_side_files-Quiet step status w =
      bind-EndsQuietly around.os (logged_of around.bytes params)
        (delete_file around params step.depfile)
        (if is_failure around params status
          then finished
          else delete_file around params step.rspfile)
        w (delete_file-Quiet step.depfile w)
        (λ next. elim (Bool-cases (is_failure around params status)) [
          | inl failed_it ↦ rw failed_it refl
          | inr other ↦ rw other (delete_file-Quiet step.rspfile next)
        ])
