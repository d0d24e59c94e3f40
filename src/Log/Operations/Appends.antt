-- ===== src/Log/Operations/Appends.antt =====
-- About `ranCommand` and `cleanedCommand` of `PersistentInvocationLog`: the entries that they write, on a
-- stream without errors.
use shuriken.Fs.FileSystem.{Hash}
use shuriken.Log.Bytes.{put_u32, put_hash, put_u32s, put_hashes}
use shuriken.Log.Data.{invocation_type, LogPath, deleted_type}
use shuriken.Log.Parse.Rounds.{chunk}
use shuriken.Log.Bytes.RoundTrip.{
  length-put_hash, length-put_u32, length-put_u32s, length-put_hashes,
}
use shuriken.Log.Parse.Entries.{invocation_payload}
use shuriken.Build.Data.{Entry}
use shuriken.Log.Writer.Appends.{
  IsWorking, appended, write_header_then, put_bytes_then, put_bytes-eq, appended_twice,
}
use shuriken.Prelude.{
  List, ℕ, length, ◌+◌, ◌*◌, ◌≡◌, ◌<◌, length-append, ◌^◌, arith, ◌∙◌, ap, ◌++◌, sym, some, none,
  refl,
}
use shuriken.Log.Operations.{
  RanCommand, write_invocation, invocation_size, cleaned_command, removed_directory,
}
use mathlib.Core.List.{append_assoc}
use shuriken.Prelude.Assoc.{lookup}
use shuriken.Prelude.{list_eq, nat_eq}
use shuriken.Log.Writer.{◌>>=◌, Stream, Log, wrote}

-- The entry that a command leaves
abbrev pub entry_of : RanCommand → List ℕ → List ℕ → Entry
entry_of cmd output_ids input_ids = record {
  output_files = output_ids;
  input_files = input_ids;
  ignored_dependencies = cmd.ignored_dependencies;
  additional_dependencies = cmd.additional_dependencies;
}

abbrev pub invocation_bytes : RanCommand → ℕ → ℕ
invocation_bytes cmd ids =
    32 + 4 * length cmd.ignored_dependencies + 20 * length cmd.additional_dependencies + 4 * ids

pub length-invocation_payload :
    (cmd : RanCommand) (outs ins : List ℕ)
    → length (invocation_payload cmd.build_step_hash (entry_of cmd outs ins))
      ≡ invocation_bytes cmd (length outs + length ins)
length-invocation_payload cmd outs ins =
    simp (length-append, length-put_hash, length-put_u32, length-put_u32s, length-put_hashes)
      (omega arith)

module _ (stream : Stream) (working : IsWorking stream) where
  pub write_invocation-eq :
      (cmd : RanCommand) (outs ins : List ℕ) (log : Log)
      → invocation_bytes cmd (length outs + length ins) < 2 ^ 32
      → write_invocation stream cmd outs ins log
        ≡ wrote tt (
            appended log (
              chunk invocation_type
                (invocation_payload cmd.build_step_hash (entry_of cmd outs ins))))
  unfolding write_invocation
  write_invocation-eq cmd outs ins log small =
      let total = length outs + length ins in
      let size = invocation_size cmd total in
      let exact : size ≡ length (invocation_payload cmd.build_step_hash (entry_of cmd outs ins)) =
        omega (arith, length-invocation_payload cmd outs ins) in
      let payload = invocation_payload cmd.build_step_hash (entry_of cmd outs ins) in
      write_header_then stream working size invocation_type _ log (omega (arith, exact))
      ∙ put_bytes_then stream working (put_hash cmd.build_step_hash) _ _
      ∙ put_bytes_then stream working (put_u32 (length cmd.ignored_dependencies)) _ _
      ∙ put_bytes_then stream working (put_u32s cmd.ignored_dependencies) _ _
      ∙ put_bytes_then stream working (put_u32 (length cmd.additional_dependencies)) _ _
      ∙ put_bytes_then stream working (put_hashes cmd.additional_dependencies) _ _
      ∙ put_bytes_then stream working (put_u32 (length outs)) _ _
      ∙ put_bytes_then stream working (put_u32s outs) _ _
      ∙ put_bytes-eq stream working (put_u32s ins) _
      ∙ ap (wrote tt)
          (simp append_assoc (ap (λ n. appended log (put_u32 (n + 2) ++ payload)) exact))

  pub cleaned_command-eq :
      (h : Hash) (log : Log)
      → cleaned_command stream h log ≡ wrote tt (appended log (chunk deleted_type (put_hash h)))
  unfolding cleaned_command
  cleaned_command-eq h log =
      write_header_then stream working 20 deleted_type _ log refl
      ∙ put_bytes-eq stream working (put_hash h) _
      ∙ ap (wrote tt) (appended_twice log (put_u32 23) (put_hash h))
      ∙ ap (λ n. wrote tt (appended log (put_u32 (n + 3) ++ put_hash h))) (sym (length-put_hash h))

  -- A directory that has an id
  pub removed_directory-eq :
      (path : LogPath) (id : ℕ) (log : Log)
      → lookup path log.path_ids ≡ some id
      → removed_directory stream path log
        ≡ wrote tt (appended log (chunk deleted_type (put_u32 id)))
  unfolding removed_directory
  removed_directory-eq path id log known =
      rw (known, ◌>>=◌)
        (write_header_then stream working 4 deleted_type _ log refl
          ∙ put_bytes-eq stream working (put_u32 id) _
          ∙ ap (wrote tt) (appended_twice log (put_u32 7) (put_u32 id))
          ∙ ap (λ n. wrote tt (appended log (put_u32 (n + 3) ++ put_u32 id)))
              (sym (length-put_u32 id)))

  pub removed_directory-unknown :
      (path : LogPath) (log : Log)
      → lookup path log.path_ids ≡ none
      → removed_directory stream path log ≡ wrote tt log
  unfolding removed_directory
  removed_directory-unknown path log unknown = rw (unknown, ◌>>=◌) refl
