-- ===== src/Log/Synced/Files.antt =====
-- The fingerprints that a `PersistentInvocationLog` writes, next to what its file reads as.
use shuriken.Log.Synced.{IsFile-chunk}
use shuriken.Log.Parsed.{parsed}
use shuriken.Log.Parse.{parse_entry}
use shuriken.Fs.FileId.{FileId}
use shuriken.Log.Parse.Entries.{
  add_fingerprint, add_directory, parse_entry-directory, fingerprint_payload,
  parse_entry-fingerprint,
}
use shuriken.Prelude.Assoc.{insert, lookup-insert_cases}
use shuriken.Log.Bytes.RoundTrip.{IsU32, IsStored, length-put_u32, length-put_fingerprint}
use shuriken.Log.Bytes.{put_u32, Bytes, put_fingerprint}
use shuriken.Prelude.Sorted.{All-weaken}
use shuriken.Log.Parse.Rounds.{IsPayload, chunk}
use shuriken.Log.Synced.Tables.{IsInRange, IsSynced, few_paths, get_elem?-end, get_elem?-append}
use shuriken.Build.Data.{Entry}
use shuriken.Log.Writer.Appends.{IsWorking, with_fingerprint_entry, appended}
use shuriken.Fs.FileSystem.{Hash, Stat}
use shuriken.Log.Data.{
  LogPath, invalid_entry, created_dir_or_fingerprint_type, Logged, FingerprintIdsValue,
}
use shuriken.Fs.Fingerprint.{fingerprint_beq, Fingerprint, is_dir}
use shuriken.Log.Parser.{Parsing, all_below, id_of_path, emplace_directory}
use shuriken.Log.Writer.{Stream, Log}
use mathlib.Core.List.{append_assoc, append-nil}
use mathlib.Core.Path.{subst}
use shuriken.Prelude.{
  list_eq, nat_eq, ℕ, List, ◌≡◌, ◌++◌, ◌≤◌, [], true, ◌∙◌, ap, ◌∷◌, All, arith, ◌<◌, sym, ◌⊎◌, refl,
  false, length, get_elem?, ◌+◌, ◌%◌, some, ◌^◌, Option, length-append, none, inl, inr,
}

-- Later fingerprints come behind, and the entries stay.
pub record Extends (p q : Parsing) : Type 0 where
  pub more : List (LogPath × Fingerprint)
  pub behind : q.invocations.fingerprints ≡ p.invocations.fingerprints ++ more
  pub same_entries : q.invocations.entries ≡ p.invocations.entries

pub Extends-refl : (p q : Parsing) → q.invocations ≡ p.invocations → Extends p q
Extends-refl p q e = record {
  more = [];
  behind = ap (λ i. i.fingerprints) e ∙ sym (append-nil p.invocations.fingerprints);
  same_entries = ap (λ i. i.entries) e;
}

pub Extends-trans : (p q r : Parsing) → Extends p q → Extends q r → Extends p r
Extends-trans p q r f g = record {
  more = f.more ++ g.more;
  behind =
      g.behind
      ∙ ap (λ xs. xs ++ g.more) f.behind
      ∙ append_assoc p.invocations.fingerprints f.more g.more;
  same_entries = g.same_entries ∙ f.same_entries;
}

pub all_below_mono : (m n : ℕ) (is : List ℕ) → m ≤ n → all_below m is ≡ true → all_below n is ≡ true
all_below_mono m n [] l h = refl
all_below_mono m n (i ∷ is) l h = ground (arith, all_below_mono m n is l)

pub in_range_mono :
    (m n : ℕ) (es : List (Hash × Entry)) → m ≤ n → All (IsInRange m) es → All (IsInRange n) es
in_range_mono m n es l h =
    All-weaken (IsInRange m) (IsInRange n) es
      (λ (h', e) v.
        (all_below_mono m n e.output_files l v.0, all_below_mono m n e.input_files l v.1))
      h

-- An id of a file: no id where it is a directory, and else the place of its fingerprint.
abbrev pub Points : List (LogPath × Fingerprint) → LogPath → Fingerprint → ℕ → Type 0
Points fps path fp id =
    ((is_dir fp.stat ≡ true) × (id ≡ invalid_entry))
    ⊎ ((is_dir fp.stat ≡ false) × (id < invalid_entry) × (get_elem? fps id ≡ some (path, fp)))

pub fingerprint_beq→eq : (a b : Fingerprint) → fingerprint_beq a b ≡ true → a ≡ b
unfolding fingerprint_beq
fingerprint_beq→eq a b h = ground arith

module _ (stream : Stream) (working : IsWorking stream) (lstat : LogPath → Stat) where
  -- What a call with a fingerprint leaves, in a file that is at most `cost` bytes longer
  pub record IsRecorded (cost : ℕ) (log : Log) (p : Parsing) (path : LogPath) (fp : Fingerprint)
      (id : ℕ) (next : Log) (q : Parsing) : Type 0 where
    pub synced : IsSynced lstat next q
    pub extends : Extends p q
    pub points : Points q.invocations.fingerprints path fp id
    pub longer : length next.written ≤ length log.written + cost

  pub put_u32-IsPayload : (id type : ℕ) → type < 4 → IsPayload type (put_u32 id)
  put_u32-IsPayload id type h = record {
    aligned = ap (λ n. n % 4) (length-put_u32 id);
    typed = h;
    small = omega (arith, length-put_u32 id);
  }

  -- An entry that adds neither a path nor a fingerprint
  pub with_invocations-IsSynced :
      (log : Log) (p : Parsing) (inv : Logged) (type : ℕ) (payload : Bytes)
      → IsSynced lstat log p
      → inv.fingerprints ≡ p.invocations.fingerprints
      → All (IsInRange (length inv.fingerprints)) inv.entries
      → IsPayload type payload
      → parse_entry lstat type payload p ≡ parsed (record p { invocations = inv })
      → IsSynced lstat (appended log (chunk type payload)) (record p { invocations = inv })
  with_invocations-IsSynced log p inv type payload s same_fps in_range valid reads =
      let same_count = ap length same_fps in
      record {
        file =
            IsFile-chunk lstat log.written p (record p { invocations = inv }) type payload s.file
              valid reads (omega arith);
        same_paths = s.same_paths;
        same_fingerprints = s.same_fingerprints;
        path_count = s.path_count;
        fingerprint_count = s.fingerprint_count ∙ sym same_count;
        paths_known = s.paths_known;
        fingerprints_known = λ path v h.
            let known = s.fingerprints_known path v h in
            (ap (λ fps. get_elem? fps v.record_id) same_fps ∙ known.0, known.1);
        in_range = in_range;
      }

  -- Where the entries and the fingerprints stay
  pub in_range-kept :
      (log : Log) (p : Parsing) (inv : Logged)
      → IsSynced lstat log p
      → inv.fingerprints ≡ p.invocations.fingerprints
      → inv.entries ≡ p.invocations.entries
      → All (IsInRange (length inv.fingerprints)) inv.entries
  in_range-kept log p inv s same_fps same_es =
      let same_count = ap length same_fps in
      subst (λ es. All (IsInRange (length inv.fingerprints)) es) (sym same_es)
        (in_range_mono _ _ p.invocations.entries (omega arith) s.in_range)

  pub emplace_directory-keeps :
      (o : Option FileId) (path : LogPath) (inv : Logged)
      → ((emplace_directory o path inv).fingerprints ≡ inv.fingerprints)
        × ((emplace_directory o path inv).entries ≡ inv.entries)
  emplace_directory-keeps none path inv = (refl, refl)
  emplace_directory-keeps (some id) path inv = (refl, refl)

  -- A directory entry
  pub with_directory-IsSynced :
      (path : LogPath) (id : ℕ) (log : Log) (p : Parsing)
      → IsSynced lstat log p
      → IsU32 id
      → get_elem? p.paths_by_id id ≡ some path
      → IsSynced lstat
          (appended log (chunk created_dir_or_fingerprint_type (put_u32 id)))
          (add_directory lstat path p)
  with_directory-IsSynced path id log p s fits known =
      let keeps = emplace_directory-keeps (id_of_path lstat path) path p.invocations in
      let inv = emplace_directory (id_of_path lstat path) path p.invocations in
      with_invocations-IsSynced log p inv created_dir_or_fingerprint_type (put_u32 id) s keeps.0
        (in_range-kept log p inv s keeps.0 keeps.1)
        (put_u32-IsPayload id created_dir_or_fingerprint_type (omega arith))
        (parse_entry-directory lstat id path p fits known)

  abbrev pub with_fingerprint : ℕ → LogPath → Fingerprint → Log → Log
  with_fingerprint id path fp log = record (with_fingerprint_entry stream working id fp log) {
    fingerprint_ids =
        insert path (record { record_id = log.fingerprint_entry_count; fingerprint = fp })
          log.fingerprint_ids;
  }

  pub with_fingerprint-IsSynced :
      (path : LogPath) (id : ℕ) (fp : Fingerprint) (log : Log) (p : Parsing)
      → IsSynced lstat log p
      → IsU32 id
      → IsStored fp
      → is_dir fp.stat ≡ false
      → get_elem? p.paths_by_id id ≡ some path
      → length log.written + 64 < 2 ^ 32
      → IsSynced lstat (with_fingerprint id path fp log) (add_fingerprint path fp p)
  with_fingerprint-IsSynced path id fp log p s fits stored file known small =
      let few = few_paths lstat log p s in
      let fps = p.invocations.fingerprints in
      let longer : length (fps ++ (path, fp) ∷ []) ≡ length fps + 1 =
        omega (arith, length-append fps ((path, fp) ∷ [])) in
      let count = s.fingerprint_count in
      let id_same : log.fingerprint_entry_count ≡ length fps % 2 ^ 32 = omega arith in
      let size : length (fingerprint_payload id fp) ≡ 60 = omega (
        arith,
        length-append (put_u32 id) (put_fingerprint fp),
        length-put_u32 id,
        length-put_fingerprint fp,
      ) in
      let value : ℕ → FingerprintIdsValue = λ n. record { record_id = n; fingerprint = fp } in
      record {
        file =
            IsFile-chunk lstat log.written p (add_fingerprint path fp p)
              created_dir_or_fingerprint_type (fingerprint_payload id fp) s.file
              (record { aligned = ap (λ n. n % 4) size; typed = omega arith; small = omega arith })
              (parse_entry-fingerprint lstat id path fp p fits stored known) (omega arith);
        same_paths = s.same_paths;
        same_fingerprints =
            ap (λ m. insert path (value log.fingerprint_entry_count) m) s.same_fingerprints
            ∙ ap (λ n. insert path (value n) p.fingerprint_ids) id_same;
        path_count = s.path_count;
        fingerprint_count = omega arith;
        paths_known = s.paths_known;
        fingerprints_known = λ key v h.
            elim (lookup-insert_cases path key (value (length fps % 2 ^ 32)) v p.fingerprint_ids
              h) [
                | inl (e, w) ↦ (
                  ap (get_elem? (fps ++ (path, fp) ∷ []))
                        (sym (ap (λ x. x.record_id) w) ∙ sym id_same ∙ count)
                      ∙ get_elem?-end fps (path, fp)
                      ∙ ap some (ap (λ k. (k, fp)) e ∙ ap (λ x. (key, x.fingerprint)) w),
                  ap (λ x. is_dir x.fingerprint.stat) (sym w) ∙ file,
                )
                | inr old ↦
                    let before = s.fingerprints_known key v old in
                    (
                      get_elem?-append fps ((path, fp) ∷ []) v.record_id (key, v.fingerprint)
                          before.0,
                      before.1,
                    )
              ];
        in_range = in_range_mono (length fps) _ p.invocations.entries (omega arith) s.in_range;
      }
