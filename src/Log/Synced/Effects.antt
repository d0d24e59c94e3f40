-- ===== src/Log/Synced/Effects.antt =====
-- The operations of a `PersistentInvocationLog`, and what its file says of the steps after each of them.
use shuriken.Fs.FileId.{FileId}
use shuriken.Log.Parse.Entries.{
  delete_entry, delete_directory, add_directory, parse_entry-deleted_invocation,
  parse_entry-deleted_directory,
}
use shuriken.Log.Bytes.{put_hash, put_u32}
use shuriken.Log.Operations.Appends.{
  entry_of, cleaned_command-eq, removed_directory-unknown, removed_directory-eq,
}
use shuriken.Log.Synced.Steps.{ran_command-IsLogged}
use shuriken.Log.Parse.Rounds.{chunk, length-chunk}
use shuriken.Log.Parse.Names.{IsPath}
use shuriken.Build.Data.{Entry}
use shuriken.Log.Synced.Tables.{
  IsSynced, Ran, IsInRange, bind-Ran, IsWritten, ensure_path_is_written-IsWritten, few_paths,
  get_elem?-below,
}
use shuriken.Log.Bytes.RoundTrip.{IsHash, IsU32, length-put_hash, length-put_u32}
use shuriken.Log.Parser.{Parsing, erase_directory, id_of_path}
use shuriken.Log.Synced.Commands.{files_of, IsCommand, command_cost}
use shuriken.Log.Data.{LogPath, deleted_type, Logged, created_dir_or_fingerprint_type}
use shuriken.Log.Writer.Appends.{IsWorking, appended, write_directory_entry-eq}
use shuriken.Log.Synced.Meaning.{
  Known, meaning, Leads-files_at, known, meaning-insert, meaning-append, meaning-erase,
}
use shuriken.Fs.FileSystem.{Hash, Stat}
use shuriken.Prelude.Assoc.{Assoc, insert, erase, lookup}
use shuriken.Log.Operations.{
  RanCommand, ran_command, cleaned_command, created_directory, removed_directory,
}
use shuriken.Log.Writer.{
  ◌>>◌, Stream, Writer, pure, Log, ensure_path_is_written, write_directory_entry,
}
use shuriken.Log.Synced.Files.{
  with_invocations-IsSynced, emplace_directory-keeps, in_range-kept, put_u32-IsPayload,
  with_directory-IsSynced,
}
use shuriken.Prelude.{
  refl, list_eq, nat_eq, List, ◌∷◌, [], ℕ, ◌+◌, length, All, ◌≡◌, ◌≤◌, ◌<◌, Bool-cases, ◌^◌, ◌==◌,
  inl, inr, ap, ◌∙◌, Option, Option-cases, arith, sym, some, none, ◌%◌, length-append,
}

pub data Operation : Type 0 where
  ran : RanCommand → Operation
  cleaned : Hash → Operation
  created : LogPath → Operation
  removed : LogPath → Operation

module _ (stream : Stream) where
  abbrev pub perform : Operation → Writer (Unit {0})
  perform (ran cmd) = ran_command stream cmd
  perform (cleaned h) = cleaned_command stream h
  perform (created path) = created_directory stream path
  perform (removed path) = removed_directory stream path

  abbrev pub perform_all : List Operation → Writer (Unit {0})
  perform_all [] = pure tt
  perform_all (op ∷ ops) = do perform op; perform_all ops

-- What is known of the steps after an operation
abbrev pub command_known : RanCommand → Known
command_known cmd = record {
  outputs = files_of cmd.output_files cmd.output_fingerprints;
  inputs = files_of cmd.input_files cmd.input_fingerprints;
  ignored = cmd.ignored_dependencies;
  additional = cmd.additional_dependencies;
}

abbrev pub after : Operation → Assoc Hash Known → Assoc Hash Known
after (ran cmd) m = insert cmd.build_step_hash (command_known cmd) m
after (cleaned h) m = erase h m
after (created path) m = m
after (removed path) m = m

abbrev pub after_all : List Operation → Assoc Hash Known → Assoc Hash Known
after_all [] m = m
after_all (op ∷ ops) m = after_all ops (after op m)

module _ (stream : Stream) (working : IsWorking stream) (lstat : LogPath → Stat) where
  abbrev pub IsOperation : Operation → Type 0
  IsOperation (ran cmd) = IsCommand stream working lstat cmd
  IsOperation (cleaned h) = IsHash h
  IsOperation (created path) = IsPath path
  IsOperation (removed path) = IsPath path

  abbrev pub operation_cost : Operation → ℕ
  operation_cost (ran cmd) = command_cost stream working lstat cmd
  operation_cost (cleaned h) = 24
  operation_cost (created path) = length path + 16
  operation_cost (removed path) = 8

  abbrev pub total_cost : List Operation → ℕ
  total_cost [] = 0
  total_cost (op ∷ ops) = operation_cost op + total_cost ops

  abbrev pub meaning_of : Parsing → Assoc Hash Known
  meaning_of p = meaning p.invocations.fingerprints p.invocations.entries

  pub record IsAfter (cost : ℕ) (log : Log) (m : Assoc Hash Known) (next : Log) (q : Parsing)
      : Type 0 where
    pub synced : IsSynced lstat next q
    pub means : meaning_of q ≡ m
    pub longer : length next.written ≤ length log.written + cost

  ran-IsAfter :
      (cmd : RanCommand) (log : Log) (p : Parsing)
      → IsSynced lstat log p
      → IsCommand stream working lstat cmd
      → length log.written + command_cost stream working lstat cmd < 2 ^ 32
      → Ran (ran_command stream cmd log) (λ u next q.
        IsAfter (command_cost stream working lstat cmd) log (after (ran cmd) (meaning_of p)) next q)
  ran-IsAfter cmd log p s valid small =
      let (u, next, q, e, a) = ran_command-IsLogged stream working lstat cmd log p s valid small in
      let fps = q.invocations.fingerprints in
      let entry = entry_of cmd a.outs a.ins in
      let outs = Leads-files_at fps a.outs _ a.outputs in
      let ins = Leads-files_at fps a.ins _ a.inputs in
      let same : known fps entry ≡ command_known cmd = rw (outs, ins) refl in
      (
        u,
        next,
        q,
        e,
        record {
          synced = a.synced;
          means =
              ap (meaning fps) a.entries
              ∙ meaning-insert fps cmd.build_step_hash entry p.invocations.entries
              ∙ ap (λ k. insert cmd.build_step_hash k (meaning fps p.invocations.entries)) same
              ∙ ap
                  (λ xs.
                    insert cmd.build_step_hash (command_known cmd)
                      (meaning xs p.invocations.entries))
                  a.behind
              ∙ ap (insert cmd.build_step_hash (command_known cmd)) (
                  meaning-append p.invocations.fingerprints a.more p.invocations.entries
                    s.in_range);
          longer = a.longer;
        },
      )

  erase-in_range :
      (n : ℕ) (h : Hash) (es : Assoc Hash Entry)
      → All (IsInRange n) es
      → All (IsInRange n) (erase h es)
  erase-in_range n h [] a = tt
  erase-in_range n h ((k, f) ∷ es) a = elim (Bool-cases (k == h)) [
    | inl same ↦ rw same (erase-in_range n h es a.1)
    | inr other ↦ rw other (a.0, erase-in_range n h es a.1)
  ]

  cleaned-IsAfter :
      (h : Hash) (log : Log) (p : Parsing)
      → IsSynced lstat log p
      → IsHash h
      → Ran
          (cleaned_command stream h log)
          (λ u next q. IsAfter 24 log (after (cleaned h) (meaning_of p)) next q)
  cleaned-IsAfter h log p s fits = (
    tt,
    appended log (chunk deleted_type (put_hash h)),
    delete_entry lstat h p,
    cleaned_command-eq stream working h log,
    record {
      synced =
          with_invocations-IsSynced stream working lstat log p
            (record p.invocations { entries = erase h p.invocations.entries }) deleted_type
            (put_hash h) s refl
            (erase-in_range (length p.invocations.fingerprints) h p.invocations.entries s.in_range)
            (record {
              aligned = ap (λ n. n % 4) (length-put_hash h);
              typed = omega arith;
              small = omega (arith, length-put_hash h);
            })
            (parse_entry-deleted_invocation lstat h p fits);
      means = meaning-erase p.invocations.fingerprints h p.invocations.entries;
      longer = omega (
        arith,
        length-append log.written (chunk deleted_type (put_hash h)),
        length-chunk deleted_type (put_hash h),
        length-put_hash h,
      );
    },
  )

  created-IsAfter :
      (path : LogPath) (log : Log) (p : Parsing)
      → IsSynced lstat log p
      → IsPath path
      → length log.written + (length path + 16) < 2 ^ 32
      → Ran
          (created_directory stream path log)
          (λ u next q. IsAfter (length path + 16) log (after (created path) (meaning_of p)) next q)
  unfolding created_directory
  created-IsAfter path log p s is_path small =
      bind-Ran (ensure_path_is_written stream path) (write_directory_entry stream) log
        (IsWritten stream working lstat log p path) _
        (ensure_path_is_written-IsWritten stream working lstat path log p s is_path (omega arith))
        (λ id next q w.
          let kept =
            emplace_directory-keeps stream working lstat (id_of_path lstat path) path
              q.invocations in
          let longer = w.longer in
          (
            tt,
            appended next (chunk created_dir_or_fingerprint_type (put_u32 id)),
            add_directory lstat path q,
            write_directory_entry-eq stream working id next,
            record {
              synced =
                  with_directory-IsSynced stream working lstat path id next q w.synced w.fits
                    w.named;
              means =
                  ap (λ fps. meaning fps (add_directory lstat path q).invocations.entries) kept.0
                  ∙ ap (meaning q.invocations.fingerprints) kept.1
                  ∙ ap (λ inv. meaning inv.fingerprints inv.entries) w.kept;
              longer = omega (
                arith,
                length-append next.written (chunk created_dir_or_fingerprint_type (put_u32 id)),
                length-chunk created_dir_or_fingerprint_type (put_u32 id),
                length-put_u32 id,
              );
            },
          ))

  erase_directory-keeps :
      (o : Option FileId) (inv : Logged)
      → ((erase_directory o inv).fingerprints ≡ inv.fingerprints)
        × ((erase_directory o inv).entries ≡ inv.entries)
  erase_directory-keeps none inv = (refl, refl)
  erase_directory-keeps (some id) inv = (refl, refl)

  removed-IsAfter :
      (path : LogPath) (log : Log) (p : Parsing)
      → IsSynced lstat log p
      → length log.written + 8 < 2 ^ 32
      → Ran
          (removed_directory stream path log)
          (λ u next q. IsAfter 8 log (after (removed path) (meaning_of p)) next q)
  removed-IsAfter path log p s small = elim (Option-cases (lookup path log.path_ids)) [
    | inl unknown ↦ (
      tt,
      log,
      p,
      removed_directory-unknown stream working path log unknown,
      record { synced = s; means = refl; longer = omega arith },
    )
    | inr (id, old) ↦
        let named = s.paths_known path id (ap (lookup path) (sym s.same_paths) ∙ old) in
        let few = few_paths lstat log p s in
        let inv = erase_directory (id_of_path lstat path) p.invocations in
        let kept = erase_directory-keeps (id_of_path lstat path) p.invocations in
        let fits : IsU32 id = omega (arith, get_elem?-below p.paths_by_id id path named) in
        (
          tt,
          appended log (chunk deleted_type (put_u32 id)),
          delete_directory lstat path p,
          removed_directory-eq stream working path id log old,
          record {
            synced =
                with_invocations-IsSynced stream working lstat log p inv deleted_type (put_u32 id) s
                  kept.0 (in_range-kept stream working lstat log p inv s kept.0 kept.1)
                  (put_u32-IsPayload stream working lstat id deleted_type (omega arith))
                  (parse_entry-deleted_directory lstat id path p fits named);
            means =
                ap (λ fps. meaning fps inv.entries) kept.0
                ∙ ap (meaning p.invocations.fingerprints) kept.1;
            longer = omega (
              arith,
              length-append log.written (chunk deleted_type (put_u32 id)),
              length-chunk deleted_type (put_u32 id),
              length-put_u32 id,
            );
          },
        )
  ]

  perform-IsAfter :
      (op : Operation) (log : Log) (p : Parsing)
      → IsSynced lstat log p
      → IsOperation op
      → length log.written + operation_cost op < 2 ^ 32
      → Ran
          (perform stream op log)
          (λ u next q. IsAfter (operation_cost op) log (after op (meaning_of p)) next q)
  perform-IsAfter (ran cmd) log p s h small = ran-IsAfter cmd log p s h small
  perform-IsAfter (cleaned h') log p s h small = cleaned-IsAfter h' log p s h
  perform-IsAfter (created path) log p s h small = created-IsAfter path log p s h small
  perform-IsAfter (removed path) log p s h small = removed-IsAfter path log p s small

  pub perform_all-IsAfter :
      (ops : List Operation) (log : Log) (p : Parsing)
      → IsSynced lstat log p
      → All IsOperation ops
      → length log.written + total_cost ops < 2 ^ 32
      → Ran
          (perform_all stream ops log)
          (λ u next q. IsAfter (total_cost ops) log (after_all ops (meaning_of p)) next q)
  perform_all-IsAfter [] log p s h small =
      (tt, log, p, refl, record { synced = s; means = refl; longer = omega arith })
  perform_all-IsAfter (op ∷ ops) log p s h small =
      bind-Ran (perform stream op) (λ _. perform_all stream ops) log
        (λ u next q. IsAfter (operation_cost op) log (after op (meaning_of p)) next q) _
        (perform-IsAfter op log p s h.0 (omega arith))
        (λ u next q a.
          let before = a.longer in
          let (v, last, r, e, b) = perform_all-IsAfter ops next q a.synced h.1 (omega arith) in
          (
            v,
            last,
            r,
            e,
            record {
              synced = b.synced;
              means = b.means ∙ ap (after_all ops) a.means;
              longer = let more = b.longer in omega arith;
            },
          ))
