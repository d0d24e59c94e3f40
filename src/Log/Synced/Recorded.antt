-- ===== src/Log/Synced/Recorded.antt =====
-- About `ensureRecentFingerprintIsWritten` and the loops over files of `PersistentInvocationLog`.
use mathlib.Core.List.{append-nil}
use shuriken.Log.Parse.Names.{IsPath}
use shuriken.Log.Bytes.{put_u32, put_fingerprint}
use shuriken.Log.Parse.Entries.{fingerprint_payload, add_fingerprint, add_directory}
use shuriken.Log.Parse.Rounds.{chunk, length-chunk}
use shuriken.Prelude.Assoc.{lookup}
use shuriken.Log.Bytes.RoundTrip.{IsU32, IsStored, length-put_u32, length-put_fingerprint}
use shuriken.Log.Synced.Tables.{
  IsSynced, Ran, few_paths, get_elem?-end, get_elem?-below, bind-Ran, IsWritten,
  ensure_path_is_written-IsWritten,
}
use shuriken.Log.Synced.Files.{
  with_fingerprint, IsRecorded, Extends-refl, with_fingerprint-IsSynced, with_directory-IsSynced,
  emplace_directory-keeps, fingerprint_beq→eq, Extends-trans,
}
use shuriken.Log.Parser.{Parsing, id_of_path}
use shuriken.Fs.Fingerprint.{Fingerprint, is_dir, fingerprint_beq}
use shuriken.Fs.FileSystem.{Stat}
use shuriken.Log.Writer.Appends.{
  IsWorking, appended, bind-wrote, write_fingerprint_entry-eq, write_directory_entry-eq,
}
use shuriken.Log.Data.{LogPath, created_dir_or_fingerprint_type, invalid_entry, FingerprintIdsValue}
use shuriken.Log.Writer.{
  ◌>>=◌, Stream, Log, write_fingerprint_or_directory_entry, WriteType, Writer, get, pure,
  write_fingerprint_entry, write_directory_entry, Wrote, ensure_recent_fingerprint_is_written,
  wrote, ensure_path_is_written, ignore_directory, directory_as_directory_entry,
}
use shuriken.Prelude.{
  list_eq, nat_eq, ℕ, length, ◌+◌, ◌≡◌, arith, length-append, true, false, get_elem?, none, some,
  ◌<◌, if◌then◌else◌, not, ◌^◌, Bool-cases, Option-cases, inl, inr, ◌∷◌, [], ap, ◌++◌, ◌∙◌, refl,
  sym,
}

-- What a file costs at most: its path, with header, terminator and padding, and its fingerprint
abbrev pub file_cost : LogPath → ℕ
file_cost path = length path + 72

pub Ran-eq {ℓ κ} :
    {A : Type ℓ} (m m' : Wrote A) (Q : A → Log → Parsing → Type κ) → m ≡ m' → Ran m' Q → Ran m Q
Ran-eq m m' Q e (a, next, q, e', h) = (a, next, q, e ∙ e', h)

module _ (stream : Stream) (working : IsWorking stream) (lstat : LogPath → Stat) where
  abbrev pub Recorded : ℕ → Log → Parsing → LogPath → Fingerprint → ℕ → Log → Parsing → Type 0
  Recorded = IsRecorded stream working lstat

  directory_entry_case :
      (path : LogPath) (id : ℕ) (fp : Fingerprint) (log : Log) (p : Parsing) (type : WriteType)
      → IsSynced lstat log p
      → IsU32 id
      → is_dir fp.stat ≡ true
      → get_elem? p.paths_by_id id ≡ some path
      → Ran
          (write_fingerprint_or_directory_entry stream id path fp type log)
          (Recorded 64 log p path fp)
  unfolding write_fingerprint_or_directory_entry
  directory_entry_case path id fp log p ignore_directory s fits dir known = (
    invalid_entry,
    log,
    p,
    rw dir refl,
    record {
      synced = s;
      extends = Extends-refl p p refl;
      points = inl (dir, refl);
      longer = omega arith;
    },
  )
  directory_entry_case path id fp log p directory_as_directory_entry s fits dir known = (
    invalid_entry,
    appended log (chunk created_dir_or_fingerprint_type (put_u32 id)),
    add_directory lstat path p,
    rw dir (
        bind-wrote (write_directory_entry stream id) _ log
          (write_directory_entry-eq stream working id log)),
    record {
      synced = with_directory-IsSynced stream working lstat path id log p s fits known;
      extends =
          let keeps =
            emplace_directory-keeps stream working lstat (id_of_path lstat path) path
              p.invocations in
          record {
            more = [];
            behind = keeps.0 ∙ sym (append-nil p.invocations.fingerprints);
            same_entries = keeps.1;
          };
      points = inl (dir, refl);
      longer = omega (
        arith,
        length-append log.written (chunk created_dir_or_fingerprint_type (put_u32 id)),
        length-chunk created_dir_or_fingerprint_type (put_u32 id),
        length-put_u32 id,
      );
    },
  )

  length-with_fingerprint :
      (id : ℕ) (path : LogPath) (fp : Fingerprint) (log : Log)
      → length (with_fingerprint stream working lstat id path fp log).written
        ≡ length log.written + 64
  length-with_fingerprint id path fp log = omega (
    arith,
    length-append log.written (chunk created_dir_or_fingerprint_type (fingerprint_payload id fp)),
    length-chunk created_dir_or_fingerprint_type (fingerprint_payload id fp),
    length-append (put_u32 id) (put_fingerprint fp),
    length-put_u32 id,
    length-put_fingerprint fp,
  )

  fingerprint_entry_case :
      (path : LogPath) (id : ℕ) (fp : Fingerprint) (log : Log) (p : Parsing) (type : WriteType)
      → IsSynced lstat log p
      → IsU32 id
      → IsStored fp
      → is_dir fp.stat ≡ false
      → get_elem? p.paths_by_id id ≡ some path
      → length log.written + 64 < 2 ^ 32
      → Ran
          (write_fingerprint_or_directory_entry stream id path fp type log)
          (Recorded 64 log p path fp)
  unfolding write_fingerprint_or_directory_entry
  fingerprint_entry_case path id fp log p type s fits stored file known small =
      let few = few_paths lstat log p s in
      let count = s.fingerprint_count in
      (
        log.fingerprint_entry_count,
        with_fingerprint stream working lstat id path fp log,
        add_fingerprint path fp p,
        rw file (
            bind-wrote (write_fingerprint_entry stream id fp) _ log
              (write_fingerprint_entry-eq stream working id fp log)),
        record {
          synced =
              with_fingerprint-IsSynced stream working lstat path id fp log p s fits stored file
                known small;
          extends = record { more = (path, fp) ∷ []; behind = refl; same_entries = refl };
          points = inr (
            file,
            omega arith,
            ap (get_elem? (p.invocations.fingerprints ++ (path, fp) ∷ [])) count
                ∙ get_elem?-end p.invocations.fingerprints (path, fp),
          );
          longer = omega (arith, length-with_fingerprint id path fp log);
        },
      )

  write_fingerprint_or_directory_entry-Recorded :
      (path : LogPath) (id : ℕ) (fp : Fingerprint) (log : Log) (p : Parsing) (type : WriteType)
      → IsSynced lstat log p
      → IsU32 id
      → IsStored fp
      → get_elem? p.paths_by_id id ≡ some path
      → length log.written + 64 < 2 ^ 32
      → Ran
          (write_fingerprint_or_directory_entry stream id path fp type log)
          (Recorded 64 log p path fp)
  write_fingerprint_or_directory_entry-Recorded path id fp log p type s fits stored known small =
      elim (Bool-cases (is_dir fp.stat)) [
        | inl dir ↦ directory_entry_case path id fp log p type s fits dir known
        | inr file ↦ fingerprint_entry_case path id fp log p type s fits stored file known small
      ]

  -- After the path is written
  abbrev by_table : LogPath → Fingerprint → WriteType → ℕ → Writer ℕ
  by_table path fp type path_id = do
    log ← get
    elim (lookup path log.fingerprint_ids) [
      | none ↦ write_fingerprint_or_directory_entry stream path_id path fp type
      | some value ↦
          if not (fingerprint_beq value.fingerprint fp)
          then write_fingerprint_or_directory_entry stream path_id path fp type
          else pure value.record_id
    ]

  by_table_new :
      (path : LogPath) (fp : Fingerprint) (type : WriteType) (id : ℕ) (log : Log)
      → lookup path log.fingerprint_ids ≡ none
      → by_table path fp type id log
        ≡ write_fingerprint_or_directory_entry stream id path fp type log
  by_table_new path fp type id log new = rw (new, ◌>>=◌) refl

  by_table_other :
      (path : LogPath) (fp : Fingerprint) (type : WriteType) (id : ℕ) (log : Log)
      (v : FingerprintIdsValue)
      → lookup path log.fingerprint_ids ≡ some v
      → fingerprint_beq v.fingerprint fp ≡ false
      → by_table path fp type id log
        ≡ write_fingerprint_or_directory_entry stream id path fp type log
  by_table_other path fp type id log v old other = rw (old, other, ◌>>=◌) refl

  by_table_same :
      (path : LogPath) (fp : Fingerprint) (type : WriteType) (id : ℕ) (log : Log)
      (v : FingerprintIdsValue)
      → lookup path log.fingerprint_ids ≡ some v
      → fingerprint_beq v.fingerprint fp ≡ true
      → by_table path fp type id log ≡ wrote v.record_id log
  by_table_same path fp type id log v old same = rw (old, same, ◌>>=◌) refl

  by_table-Recorded :
      (path : LogPath) (id : ℕ) (fp : Fingerprint) (log : Log) (p : Parsing) (type : WriteType)
      → IsSynced lstat log p
      → IsU32 id
      → IsStored fp
      → get_elem? p.paths_by_id id ≡ some path
      → length log.written + 64 < 2 ^ 32
      → Ran (by_table path fp type id log) (Recorded 64 log p path fp)
  by_table-Recorded path id fp log p type s fits stored known small =
      let writes =
        write_fingerprint_or_directory_entry-Recorded path id fp log p type s fits stored known
          small in
      elim (Option-cases (lookup path log.fingerprint_ids)) [
        | inl new ↦ Ran-eq _ _ _ (by_table_new path fp type id log new) writes
        | inr (v, old) ↦ elim (Bool-cases (fingerprint_beq v.fingerprint fp)) [
          | inr other ↦ Ran-eq _ _ _ (by_table_other path fp type id log v old other) writes
          | inl same ↦
              let found =
                s.fingerprints_known path v (ap (lookup path) (sym s.same_fingerprints) ∙ old) in
              let is_fp = fingerprint_beq→eq v.fingerprint fp same in
              let few = few_paths lstat log p s in
              (
                v.record_id,
                log,
                p,
                by_table_same path fp type id log v old same,
                record {
                  synced = s;
                  extends = Extends-refl p p refl;
                  points = inr (
                    ap (λ f. is_dir f.stat) (sym is_fp) ∙ found.1,
                    omega (arith, get_elem?-below p.invocations.fingerprints v.record_id _ found.0),
                    found.0 ∙ ap (λ f. some (path, f)) is_fp,
                  );
                  longer = omega arith;
                },
              )
        ]
      ]

  pub ensure_recent_fingerprint_is_written-Recorded :
      (path : LogPath) (fp : Fingerprint) (log : Log) (p : Parsing) (type : WriteType)
      → IsSynced lstat log p
      → IsPath path
      → IsStored fp
      → length log.written + file_cost path < 2 ^ 32
      → Ran
          (ensure_recent_fingerprint_is_written stream path fp type log)
          (Recorded (file_cost path) log p path fp)
  unfolding ensure_recent_fingerprint_is_written
  ensure_recent_fingerprint_is_written-Recorded path fp log p type s is_path stored small =
      bind-Ran (ensure_path_is_written stream path) (by_table path fp type) log
        (IsWritten stream working lstat log p path) (Recorded (file_cost path) log p path fp)
        (ensure_path_is_written-IsWritten stream working lstat path log p s is_path (omega arith))
        (λ id next q w.
          let longer = w.longer in
          let (a, last, r, e, h) =
            by_table-Recorded path id fp next q type w.synced w.fits stored w.named (omega arith) in
          (
            a,
            last,
            r,
            e,
            record {
              synced = h.synced;
              extends = Extends-trans p q r (Extends-refl p q w.kept) h.extends;
              points = h.points;
              longer = let more = h.longer in omega arith;
            },
          ))
