-- ===== src/Build/Run/Prepare.antt =====
-- build.cpp: what `enqueueBuildCommand` does before it calls the command runner, with `mkdirsAndLog`,
-- and what `commandDone` removes first. A text's bytes stand for it in the operating system and the log.
use shuriken.Log.Synced.Effects.{created}
use shuriken.Util.Split.{dirname}
use Prim.Native.String.{String}
use shuriken.Log.Data.{LogPath}
use shuriken.Build.Run.{Surroundings, Parameters, logged_of, ExitStatus, failure}
use shuriken.Build.Cleanup.{
  ◌>>=◌, ◌>>◌, Action, finished, or_raise, did, raised, try, delete_old_outputs,
  delete_build_product,
}
use shuriken.Build.Data.{Step}
use shuriken.Prelude.{
  string_eq, nat_eq, List, Bool, if◌then◌else◌, ◌∷◌, true, ◌==◌, none, false, ◌++◌, [], map, some,
}

module _ {W : Type 0} (around : Surroundings W) (params : Parameters) where
  -- `mkdirsAndLog`
  unfoldable pub mkdirs_and_log : LogPath → Action W (Unit {0})
  mkdirs_and_log path w =
      let ((created_dirs, error), files) = around.mkdirs path w.files in
      elim error [
        | none ↦ did tt (record { files = files; calls = w.calls ++ map created created_dirs })
        | some code ↦ raised code (record w { files = files })
      ]

  unfoldable pub mkdirs_all : List String → Action W (Unit {0})
  mkdirs_all [] = finished
  mkdirs_all (dir ∷ dirs) = do mkdirs_and_log (around.bytes dir); mkdirs_all dirs

  unfoldable pub write_rspfile : Step → Action W (Unit {0})
  write_rspfile step =
      let write = (do
        mkdirs_and_log (dirname (around.bytes step.rspfile))
        error ←
            try (around.write_file (around.bytes step.rspfile) (around.bytes step.rspfile_content))
        or_raise error) in
      if step.rspfile == "" then finished else write

  unfoldable pub prepare_command : Step → Action W (Unit {0})
  prepare_command step = do
    delete_old_outputs around.os (logged_of around.bytes params) step.hash
    write_rspfile step
    mkdirs_all step.output_dirs

  unfoldable pub delete_file : String → Action W (Unit {0})
  delete_file path =
      if path == ""
      then finished
      else delete_build_product around.os (logged_of around.bytes params) (around.bytes path)

  abbrev pub is_failure : ExitStatus → Bool
  is_failure failure = true
  is_failure _ = false

  -- The depfile and, where the command did not fail, the rspfile
  unfoldable pub delete_side_files : Step → ExitStatus → Action W (Unit {0})
  delete_side_files step status = do
    delete_file step.depfile
    if is_failure status then finished else delete_file step.rspfile
