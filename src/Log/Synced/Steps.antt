-- ===== src/Log/Synced/Steps.antt =====
-- About the operations of `PersistentInvocationLog`, next to what its file reads as.
use shuriken.Prelude.Assoc.{insert}
use shuriken.Log.Parse.Rounds.{chunk, length-chunk}
use shuriken.Log.Synced.Files.{Extends-trans, with_invocations-IsSynced}
use shuriken.Log.Parse.Entries.{invocation_payload, IsEntry, add_entry, parse_entry-invocation}
use shuriken.Log.Operations.Appends.{
  entry_of, invocation_bytes, write_invocation-eq, length-invocation_payload,
}
use shuriken.Log.Synced.Tables.{Ran, few_paths, IsSynced, bind-Ran}
use shuriken.Log.Synced.Commands.{
  IsListed, IsCommand, command_cost, IsLogged, Leads-Extends, Leads-below, ids-IsNumbers,
  insert-in_range, invocation-IsPayload, write_lists-IsListed,
}
use shuriken.Fs.Fingerprint.{Fingerprint}
use shuriken.Log.Parser.{Parsing, all_below}
use shuriken.Log.Operations.{RanCommand, write_invocation, ran_command}
use shuriken.Fs.FileSystem.{Stat}
use shuriken.Log.Data.{LogPath, invocation_type}
use shuriken.Log.Writer.Appends.{IsWorking, appended}
use shuriken.Log.Writer.{
  Stream, Log, write_all_paths_and_fingerprints, directory_as_directory_entry, ignore_directory,
}
use shuriken.Prelude.{
  list_eq, nat_eq, List, ℕ, length, ◌+◌, ◌<◌, ◌^◌, arith, ◌%◌, ◌≡◌, ap, ◌∙◌, length-append, refl,
}

module _ (stream : Stream) (working : IsWorking stream) (lstat : LogPath → Stat) where
  abbrev Listed : Log → Parsing → List LogPath → List Fingerprint → List ℕ → Log → Parsing → Type 0
  Listed = IsListed stream working lstat

  -- The entry of the command, after those of its files
  write_invocation-IsLogged :
      (cmd : RanCommand) (outs ins : List ℕ) (log mid next : Log) (p q r : Parsing)
      → IsCommand stream working lstat cmd
      → length log.written + command_cost stream working lstat cmd < 2 ^ 32
      → Listed log p cmd.output_files cmd.output_fingerprints outs mid q
      → Listed mid q cmd.input_files cmd.input_fingerprints ins next r
      → Ran (write_invocation stream cmd outs ins next) (λ u last s.
        IsLogged stream working lstat (command_cost stream working lstat cmd) log p cmd last s)
  write_invocation-IsLogged cmd outs ins log mid next p q r valid small a b =
      let before = a.longer in
      let after = b.longer in
      let entry = entry_of cmd outs ins in
      let payload = invocation_payload cmd.build_step_hash entry in
      let fps = r.invocations.fingerprints in
      let few = few_paths lstat next r b.synced in
      let bounded : invocation_bytes cmd (length outs + length ins) + 4 < 2 ^ 32 = omega arith in
      let leads_outs = Leads-Extends q r outs _ b.extends a.leads in
      let outs_below = Leads-below fps outs _ leads_outs in
      let ins_below = Leads-below fps ins _ b.leads in
      let wrapped : length fps % 2 ^ 32 ≡ length fps = omega arith in
      let in_entry : IsEntry (length fps % 2 ^ 32) entry = record {
        ignored = record { few = omega arith; fit = valid.ignored_fit };
        additional = record { few = omega arith; fit = valid.additional_fit };
        outputs =
            ids-IsNumbers stream working lstat (length fps) outs (omega arith) (omega arith)
              outs_below;
        inputs =
            ids-IsNumbers stream working lstat (length fps) ins (omega arith) (omega arith)
              ins_below;
        outputs_below = ap (λ n. all_below n outs) wrapped ∙ outs_below;
        inputs_below = ap (λ n. all_below n ins) wrapped ∙ ins_below;
      } in
      let x = Extends-trans p q r a.extends b.extends in
      (
        tt,
        appended next (chunk invocation_type payload),
        add_entry cmd.build_step_hash entry r,
        write_invocation-eq stream working cmd outs ins next (omega arith),
        record {
          synced =
              with_invocations-IsSynced stream working lstat next r
                (record r.invocations {
                  entries = insert cmd.build_step_hash entry r.invocations.entries;
                })
                invocation_type payload b.synced refl
                (insert-in_range stream working lstat (length fps) cmd.build_step_hash entry
                  r.invocations.entries (outs_below, ins_below) b.synced.in_range)
                (invocation-IsPayload stream working lstat cmd outs ins bounded)
                (parse_entry-invocation lstat cmd.build_step_hash entry r valid.hash_fits in_entry);
          more = x.more;
          behind = x.behind;
          outs = outs;
          ins = ins;
          entries = ap (insert cmd.build_step_hash entry) x.same_entries;
          outputs = leads_outs;
          inputs = b.leads;
          longer = omega (
            arith,
            length-append next.written (chunk invocation_type payload),
            length-chunk invocation_type payload,
            length-invocation_payload cmd outs ins,
          );
        },
      )

  pub ran_command-IsLogged :
      (cmd : RanCommand) (log : Log) (p : Parsing)
      → IsSynced lstat log p
      → IsCommand stream working lstat cmd
      → length log.written + command_cost stream working lstat cmd < 2 ^ 32
      → Ran (ran_command stream cmd log) (λ u last s.
        IsLogged stream working lstat (command_cost stream working lstat cmd) log p cmd last s)
  unfolding ran_command
  ran_command-IsLogged cmd log p s valid small =
      bind-Ran
        (write_all_paths_and_fingerprints stream directory_as_directory_entry cmd.output_files
          cmd.output_fingerprints)
        _ log (Listed log p cmd.output_files cmd.output_fingerprints) _
        (write_lists-IsListed stream working lstat _ _ _ log p s valid.outputs_match
          valid.output_paths valid.outputs_stored (omega arith))
        (λ outs mid q a.
          let before = a.longer in
          bind-Ran
            (write_all_paths_and_fingerprints stream ignore_directory cmd.input_files
              cmd.input_fingerprints)
            (write_invocation stream cmd outs) mid
            (Listed mid q cmd.input_files cmd.input_fingerprints) _
            (write_lists-IsListed stream working lstat _ _ _ mid q a.synced valid.inputs_match
              valid.input_paths valid.inputs_stored (omega arith))
            (λ ins next r b.
              write_invocation-IsLogged cmd outs ins log mid next p q r valid small a b))
