-- ===== src/Log/Synced/Tables.antt =====
-- The tables of a `PersistentInvocationLog`, next to what its file reads as, and its entries for paths
-- and fingerprints.
use shuriken.Log.Parse.Rounds.{chunk, length-chunk}
use shuriken.Log.Parse.Entries.{parse_entry-path}
use shuriken.Log.Bytes.RoundTrip.{IsU32}
use shuriken.Log.Parse.Names.{
  IsPath, add_path, path_payload, path_payload-IsPayload, length-path_payload,
}
use shuriken.Fs.Fingerprint.{is_dir}
use shuriken.Prelude.Assoc.{insert, lookup, lookup-insert_cases}
use shuriken.Log.Synced.{IsFile, total, file_start, IsFile-chunk}
use shuriken.Log.Parser.{Parsing, all_below}
use shuriken.Build.Data.{Entry}
use shuriken.Log.Writer.Appends.{IsWorking, with_path_entry, bind-wrote, write_path_entry-eq}
use shuriken.Fs.FileSystem.{Hash, Stat}
use shuriken.Log.Data.{LogPath, FingerprintIdsValue, path_type}
use shuriken.Log.Writer.{
  ◌>>=◌, Wrote, Writer, Stream, Log, wrote, ensure_path_is_written, write_path_entry,
}
use shuriken.Prelude.{
  list_eq, nat_eq, ℕ, List, get_elem?, ◌≡◌, ◌++◌, some, ◌∷◌, ◌*◌, true, length, [], suc, ◌∙◌, ◌<◌,
  arith, ◌≤◌, zero, refl, ap, false, length-append, inl, All, inr, ◌+◌, sym, ◌^◌, Option-cases, ◌%◌,
  none,
}

-- The fingerprints that an entry refers to are there.
abbrev pub IsInRange : ℕ → Hash × Entry → Type 0
IsInRange n (h, e) = (all_below n e.output_files ≡ true) × (all_below n e.input_files ≡ true)

-- The file reads as `p`, whose tables the writer has, and every id in them leads to what has it. No
-- fingerprint is one of a directory.
pub record IsSynced (lstat : LogPath → Stat) (log : Log) (p : Parsing) : Type 0 where
  pub file : IsFile lstat log.written p
  pub same_paths : log.path_ids ≡ p.path_ids
  pub same_fingerprints : log.fingerprint_ids ≡ p.fingerprint_ids
  pub path_count : log.path_entry_count ≡ length p.paths_by_id
  pub fingerprint_count : log.fingerprint_entry_count ≡ length p.invocations.fingerprints
  pub paths_known :
      (path : LogPath) (id : ℕ)
      → lookup path p.path_ids ≡ some id
      → get_elem? p.paths_by_id id ≡ some path
  pub fingerprints_known :
      (path : LogPath) (v : FingerprintIdsValue)
      → lookup path p.fingerprint_ids ≡ some v
      → (get_elem? p.invocations.fingerprints v.record_id ≡ some (path, v.fingerprint))
        × (is_dir v.fingerprint.stat ≡ false)
  pub in_range : All (IsInRange (length p.invocations.fingerprints)) p.invocations.entries

-- A run that ends with a value, and what holds of the value, the log and what its file reads as
abbrev pub Ran {ℓ κ} : {A : Type ℓ} → Wrote A → (A → Log → Parsing → Type κ) → Type (ℓ ⊔ κ)
Ran {A = A} m Q = (a : A) × (next : Log) × (q : Parsing) × (m ≡ wrote a next) × Q a next q

pub bind-Ran {ℓ κ ι υ} :
    {A : Type ℓ} {B : Type κ} (m : Writer A) (f : A → Writer B) (log : Log)
    (P : A → Log → Parsing → Type ι) (Q : B → Log → Parsing → Type υ)
    → Ran (m log) P
    → ((a : A) (next : Log) (q : Parsing) → P a next q → Ran (f a next) Q)
    → Ran ((m >>= f) log) Q
bind-Ran m f log P Q (a, next, q, e, h) k =
    let (b, last, r, e', h') = k a next q h in (b, last, r, bind-wrote m f log e ∙ e', h')

module _ {ℓ} {A : Type ℓ} where
  pub get_elem?-append :
      (xs ys : List A) (i : ℕ) (a : A) → get_elem? xs i ≡ some a → get_elem? (xs ++ ys) i ≡ some a
  get_elem?-append [] ys i a h = absurd (cc)
  get_elem?-append (x ∷ xs) ys zero a h = h
  get_elem?-append (x ∷ xs) ys (suc i) a h = get_elem?-append xs ys i a h

  pub get_elem?-end : (xs : List A) (a : A) → get_elem? (xs ++ a ∷ []) (length xs) ≡ some a
  get_elem?-end [] a = refl
  get_elem?-end (x ∷ xs) a = get_elem?-end xs a

  pub get_elem?-below : (xs : List A) (i : ℕ) (a : A) → get_elem? xs i ≡ some a → i < length xs
  get_elem?-below [] i a h = absurd (cc)
  get_elem?-below (x ∷ xs) zero a h = omega arith
  get_elem?-below (x ∷ xs) (suc i) a h = omega (arith, get_elem?-below xs i a h)

-- An id below 2 ^ 32, as the file is not longer
pub few_paths :
    (lstat : LogPath → Stat) (log : Log) (p : Parsing)
    → IsSynced lstat log p
    → 4 * total p ≤ length log.written
few_paths lstat log p s =
    let few = s.file.few_ids in
    omega (arith, ap length s.file.file, length-append file_start s.file.body)

module _ (stream : Stream) (working : IsWorking stream) (lstat : LogPath → Stat) where
  -- The log with a new path
  abbrev with_path : LogPath → Log → Log
  with_path path log = record (with_path_entry stream working path log) {
    path_ids = insert path log.path_entry_count log.path_ids;
  }

  with_path-known :
      (path : LogPath) (p : Parsing)
      → ((key : LogPath) (id : ℕ)
          → lookup key p.path_ids ≡ some id
          → get_elem? p.paths_by_id id ≡ some key)
      → (n : ℕ) → n ≡ length p.paths_by_id
      → (key : LogPath) (id : ℕ) → lookup key (insert path n p.path_ids) ≡ some id
      → get_elem? (p.paths_by_id ++ path ∷ []) id ≡ some key
  with_path-known path p known n same key id h =
      elim (lookup-insert_cases path key n id p.path_ids h) [
        | inl (e, i) ↦
            ap (get_elem? (p.paths_by_id ++ path ∷ [])) (sym i ∙ same)
            ∙ get_elem?-end p.paths_by_id path
            ∙ ap some e
        | inr old ↦ get_elem?-append p.paths_by_id (path ∷ []) id key (known key id old)
      ]

  length-with : (xs : List LogPath) (path : LogPath) → length (xs ++ path ∷ []) ≡ length xs + 1
  length-with xs path = omega (arith, length-append xs (path ∷ []))

  with_path-IsSynced :
      (path : LogPath) (log : Log) (p : Parsing)
      → IsSynced lstat log p
      → IsPath path
      → length log.written + length path + 8 < 2 ^ 32
      → IsSynced lstat (with_path path log) (add_path path p)
  with_path-IsSynced path log p s h small =
      let few = few_paths lstat log p s in
      let count = s.path_count in
      let longer = length-with p.paths_by_id path in
      let id : log.path_entry_count ≡ length p.paths_by_id % 2 ^ 32 = omega arith in
      record {
        file =
            IsFile-chunk lstat log.written p (add_path path p) path_type (path_payload path) s.file
              (path_payload-IsPayload path (omega arith)) (parse_entry-path lstat path p h)
              (omega arith);
        same_paths =
            ap (λ m. insert path log.path_entry_count m) s.same_paths
            ∙ ap (λ n. insert path n p.path_ids) id;
        same_fingerprints = s.same_fingerprints;
        path_count = omega arith;
        fingerprint_count = s.fingerprint_count;
        paths_known =
            with_path-known path p s.paths_known (length p.paths_by_id % 2 ^ 32) (omega arith);
        fingerprints_known = s.fingerprints_known;
        in_range = s.in_range;
      }

  -- What a call with a path leaves
  pub record IsWritten (log : Log) (p : Parsing) (path : LogPath) (id : ℕ) (next : Log)
      (q : Parsing) : Type 0 where
    pub synced : IsSynced lstat next q
    pub named : get_elem? q.paths_by_id id ≡ some path
    pub kept : q.invocations ≡ p.invocations
    pub fits : IsU32 id
    pub longer : length next.written ≤ length log.written + length path + 8

  ensure_path_new :
      (path : LogPath) (log : Log)
      → lookup path log.path_ids ≡ none
      → ensure_path_is_written stream path log ≡ wrote log.path_entry_count (with_path path log)
  unfolding ensure_path_is_written
  ensure_path_new path log new =
      rw (new, ◌>>=◌)
        (bind-wrote (write_path_entry stream path) _ log
          (write_path_entry-eq stream working path log))

  ensure_path_old :
      (path : LogPath) (id : ℕ) (log : Log)
      → lookup path log.path_ids ≡ some id
      → ensure_path_is_written stream path log ≡ wrote id log
  unfolding ensure_path_is_written
  ensure_path_old path id log old = rw (old, ◌>>=◌) refl

  length-with_path :
      (path : LogPath) (log : Log)
      → length (with_path path log).written ≤ length log.written + length path + 8
  length-with_path path log = omega (
    arith,
    length-append log.written (chunk path_type (path_payload path)),
    length-chunk path_type (path_payload path),
    length-path_payload path,
  )

  pub ensure_path_is_written-IsWritten :
      (path : LogPath) (log : Log) (p : Parsing)
      → IsSynced lstat log p
      → IsPath path
      → length log.written + length path + 8 < 2 ^ 32
      → Ran (ensure_path_is_written stream path log) (IsWritten log p path)
  ensure_path_is_written-IsWritten path log p s h small =
      let few = few_paths lstat log p s in
      elim (Option-cases (lookup path log.path_ids)) [
        | inl new ↦ (
          log.path_entry_count,
          with_path path log,
          add_path path p,
          ensure_path_new path log new,
          record {
            synced = with_path-IsSynced path log p s h small;
            named =
                ap (get_elem? (p.paths_by_id ++ path ∷ [])) s.path_count
                ∙ get_elem?-end p.paths_by_id path;
            kept = refl;
            fits = let count = s.path_count in omega arith;
            longer = length-with_path path log;
          },
        )
        | inr (id, old) ↦
            let known = s.paths_known path id (ap (lookup path) (sym s.same_paths) ∙ old) in
            (
              id,
              log,
              p,
              ensure_path_old path id log old,
              record {
                synced = s;
                named = known;
                kept = refl;
                fits = omega (arith, get_elem?-below p.paths_by_id id path known);
                longer = omega arith;
              },
            )
      ]
