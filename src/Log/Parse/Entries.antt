-- ===== src/Log/Parse/Entries.antt =====
-- About `parseCreatedDir`, `parseFingerprint`, `parseInvocation` and `parseDeleted` of
-- persistent_invocation_log.cpp on entries as they are written.
use shuriken.Log.Parse.Names.{IsPath, path_payload, add_path, parse_path-path_payload}
use shuriken.Log.Parse.{parse_entry}
use shuriken.Fs.Fingerprint.{Fingerprint}
use shuriken.Log.Parse.Total.{advance-le}
use shuriken.Log.Parsed.{parsed}
use shuriken.Log.Bytes.RoundTrip.{
  IsU32, IsHash, length-put_u32s, length-put_hashes, length-put_hash, get_u32s-put_u32s,
  length-put_u32, get_hash-put_hash, get_u32-put_u32, get_hashes-put_hashes, IsStored,
  get_fingerprint-put_fingerprint, length-put_fingerprint,
}
use shuriken.Log.Data.{
  LogPath, invalid_entry, created_dir_or_fingerprint_type, invocation_type, path_type, deleted_type,
}
use shuriken.Build.Data.{Entry}
use shuriken.Fs.FileSystem.{Hash, Stat}
use shuriken.Log.Bytes.{
  Bytes, put_u32, put_hash, put_u32s, put_hashes, get_u32s, put_fingerprint, get_fingerprint,
}
use shuriken.Log.Parser.{
  read_u32, read_hash, read_indices, read_ignored, read_additional, read_files, parse_invocation,
  read_path, ensure_entry_len, read_hashes, all_below, Parsing, advance, parse_fingerprint,
  emplace_directory, erase_directory, id_of_path, parse_created_dir, parse_deleted,
}
use mathlib.Core.List.{append-nil}
use shuriken.Prelude.Assoc.{insert, erase}
use shuriken.Prelude.{
  drop-append, take-append, list_eq, nat_eq, List, ℕ, length, All, ◌<◌, ◌≡◌, ◌++◌, true, ◌^◌, ◌%◌,
  ltb, some, ◌/◌, false, arith, ◌*◌, refl, length-append, ap, ◌∙◌, sym, [], not_below, get_elem?,
  take, ◌∷◌,
}

-- A list whose length a header can hold, of numbers that it can hold
pub record IsNumbers (vs : List ℕ) : Type 0 where
  pub few : length vs < 2 ^ 30
  pub fit : All IsU32 vs

pub record IsHashes (hs : List Hash) : Type 0 where
  pub few : 20 * length hs < 2 ^ 32
  pub fit : All IsHash hs

read_u32-put_u32 : (v : ℕ) (rest : Bytes) → IsU32 v → read_u32 (put_u32 v ++ rest) ≡ parsed v
unfolding read_u32 ensure_entry_len
read_u32-put_u32 v rest h =
    let long : ltb (length (put_u32 v ++ rest)) 4 ≡ false =
      not_below _ _ (omega (arith, length-append (put_u32 v) rest, length-put_u32 v)) in
    rw (long, get_u32-put_u32 v rest h) refl

read_hash-put_hash :
    (v : Hash) (rest : Bytes) → IsHash v → read_hash (put_hash v ++ rest) ≡ parsed v
unfolding read_hash ensure_entry_len
read_hash-put_hash v rest h =
    let long : ltb (length (put_hash v ++ rest)) 20 ≡ false =
      not_below _ _ (omega (arith, length-append (put_hash v) rest, length-put_hash v)) in
    rw (long, get_hash-put_hash v rest h) refl

advance-append : (xs ys : Bytes) (n : ℕ) → length xs ≡ n → advance (xs ++ ys) n ≡ parsed ys
advance-append xs ys n h =
    advance-le (xs ++ ys) n (omega (arith, length-append xs ys)) ∙ ap parsed (drop-append n xs ys h)

back_u32s : (vs : List ℕ) → All IsU32 vs → get_u32s (length (put_u32s vs) / 4) (put_u32s vs) ≡ vs
back_u32s vs h =
    let count : length (put_u32s vs) / 4 ≡ length vs = omega (arith, length-put_u32s vs) in
    ap (λ n. get_u32s n (put_u32s vs)) count
    ∙ ap (get_u32s (length vs)) (sym (append-nil (put_u32s vs)))
    ∙ get_u32s-put_u32s vs [] h

read_indices-put_u32s :
    (n : ℕ) (vs : List ℕ)
    → All IsU32 vs
    → (n < invalid_entry → all_below n vs ≡ true)
    → read_indices n (put_u32s vs) ≡ parsed vs
unfolding read_indices
read_indices-put_u32s n vs h below = rw (back_u32s vs h) (ground arith)

read_ignored-written :
    (vs : List ℕ) (rest : Bytes)
    → IsNumbers vs
    → read_ignored (put_u32 (length vs) ++ (put_u32s vs ++ rest)) ≡ parsed (vs, rest)
unfolding read_ignored
read_ignored-written vs rest h =
    let n = length vs in
    let tail = put_u32s vs ++ rest in
    let size = length-put_u32s vs in
    let long : ltb (length tail) (4 * n) ≡ false =
      not_below _ _ (omega (arith, length-append (put_u32s vs) rest)) in
    let front : take (4 * n) tail ≡ put_u32s vs = take-append (4 * n) (put_u32s vs) rest size in
    rw
      (
        read_u32-put_u32 n tail (omega arith),
        advance-append (put_u32 n) tail 4 (length-put_u32 n),
        long,
        front,
        back_u32s vs h.fit,
        advance-append (put_u32s vs) rest (n * 4) (omega arith),
      )
      refl

read_additional-written :
    (hs : List Hash) (rest : Bytes)
    → IsHashes hs
    → read_additional (put_u32 (length hs) ++ (put_hashes hs ++ rest)) ≡ parsed (hs, rest)
unfolding read_additional read_hashes
read_additional-written hs rest h =
    let n = length hs in
    let tail = put_hashes hs ++ rest in
    let size = length-put_hashes hs in
    let long : ltb (length tail) (n * 20) ≡ false =
      not_below _ _ (omega (arith, length-append (put_hashes hs) rest)) in
    rw
      (
        read_u32-put_u32 n tail (omega arith),
        advance-append (put_u32 n) tail 4 (length-put_u32 n),
        long,
        get_hashes-put_hashes hs rest h.fit,
        advance-append (put_hashes hs) rest (n * 20) (omega arith),
      )
      refl

read_files-written :
    (count : ℕ) (outs ins : List ℕ)
    → IsNumbers outs
    → All IsU32 ins
    → all_below count outs ≡ true
    → all_below count ins ≡ true
    → read_files count (put_u32 (length outs) ++ (put_u32s outs ++ put_u32s ins))
      ≡ parsed (outs, ins)
unfolding read_files
read_files-written count outs ins ho hi bo bi =
    let n = length outs in
    let tail = put_u32s outs ++ put_u32s ins in
    let size = length-put_u32s outs in
    let long : ltb (length tail) (4 * n) ≡ false =
      not_below _ _ (omega (arith, length-append (put_u32s outs) (put_u32s ins))) in
    let front : take (4 * n) tail ≡ put_u32s outs =
      take-append (4 * n) (put_u32s outs) (put_u32s ins) size in
    rw
      (
        read_u32-put_u32 n tail (omega arith),
        advance-append (put_u32 n) tail 4 (length-put_u32 n),
        long,
        front,
        read_indices-put_u32s count outs ho.fit (λ l. bo),
        drop-append (4 * n) (put_u32s outs) (put_u32s ins) size,
        read_indices-put_u32s count ins hi (λ l. bi),
      )
      refl

abbrev pub invocation_payload : Hash → Entry → Bytes
invocation_payload h e =
    put_hash h
    ++ (put_u32 (length e.ignored_dependencies)
        ++ (put_u32s e.ignored_dependencies
            ++ (put_u32 (length e.additional_dependencies)
                ++ (put_hashes e.additional_dependencies
                    ++ (put_u32 (length e.output_files)
                        ++ (put_u32s e.output_files ++ put_u32s e.input_files))))))

-- The numbers in an entry fit, and it refers to fingerprints that stand before it.
pub record IsEntry (count : ℕ) (e : Entry) : Type 0 where
  pub ignored : IsNumbers e.ignored_dependencies
  pub additional : IsHashes e.additional_dependencies
  pub outputs : IsNumbers e.output_files
  pub inputs : IsNumbers e.input_files
  pub outputs_below : all_below count e.output_files ≡ true
  pub inputs_below : all_below count e.input_files ≡ true

abbrev pub add_entry : Hash → Entry → Parsing → Parsing
add_entry h e p = record p {
  invocations = record p.invocations { entries = insert h e p.invocations.entries };
}

parse_invocation-written :
    (h : Hash) (e : Entry) (p : Parsing)
    → IsHash h
    → IsEntry (length p.invocations.fingerprints % 2 ^ 32) e
    → parse_invocation (invocation_payload h e) p ≡ parsed (add_entry h e p)
unfolding parse_invocation
parse_invocation-written h e p fits v =
    rw
      (
        read_hash-put_hash h _ fits,
        advance-append (put_hash h) _ 20 (length-put_hash h),
        read_ignored-written e.ignored_dependencies _ v.ignored,
        read_additional-written e.additional_dependencies _ v.additional,
        read_files-written _ e.output_files e.input_files v.outputs v.inputs.fit v.outputs_below
            v.inputs_below,
      )
      refl

read_path-written :
    (paths : List LogPath) (id : ℕ) (path : LogPath) (rest : Bytes)
    → IsU32 id
    → get_elem? paths id ≡ some path
    → read_path paths (put_u32 id ++ rest) ≡ parsed path
unfolding read_path
read_path-written paths id path rest fits h = rw (read_u32-put_u32 id rest fits, h) refl

abbrev pub fingerprint_payload : ℕ → Fingerprint → Bytes
fingerprint_payload id fp = put_u32 id ++ put_fingerprint fp

abbrev pub add_fingerprint : LogPath → Fingerprint → Parsing → Parsing
add_fingerprint path fp p = record p {
  fingerprint_ids =
      insert path
        (record { record_id = length p.invocations.fingerprints % 2 ^ 32; fingerprint = fp })
        p.fingerprint_ids;
  invocations = record p.invocations {
    fingerprints = p.invocations.fingerprints ++ (path, fp) ∷ [];
  };
}

parse_fingerprint-written :
    (id : ℕ) (path : LogPath) (fp : Fingerprint) (p : Parsing)
    → IsU32 id
    → IsStored fp
    → get_elem? p.paths_by_id id ≡ some path
    → parse_fingerprint (fingerprint_payload id fp) p ≡ parsed (add_fingerprint path fp p)
unfolding parse_fingerprint
parse_fingerprint-written id path fp p fits stored known =
    let back : get_fingerprint (put_fingerprint fp) ≡ fp =
      ap get_fingerprint (sym (append-nil (put_fingerprint fp)))
      ∙ get_fingerprint-put_fingerprint fp [] stored in
    rw
      (
        read_path-written p.paths_by_id id path (put_fingerprint fp) fits known,
        advance-append (put_u32 id) (put_fingerprint fp) 4 (length-put_u32 id),
        back,
      )
      refl

module _ (lstat : LogPath → Stat) where
  abbrev pub add_directory : LogPath → Parsing → Parsing
  add_directory path p = record p {
    invocations = emplace_directory (id_of_path lstat path) path p.invocations;
  }

  abbrev pub delete_directory : LogPath → Parsing → Parsing
  delete_directory path p = record p {
    invocations = erase_directory (id_of_path lstat path) p.invocations;
  }

  abbrev pub delete_entry : Hash → Parsing → Parsing
  delete_entry h p = record p {
    invocations = record p.invocations { entries = erase h p.invocations.entries };
  }

  -- Which reader an entry goes to
  to_created_dir :
      (entry : Bytes) (p : Parsing)
      → length entry ≡ 4
      → parse_entry lstat created_dir_or_fingerprint_type entry p ≡ parse_created_dir lstat entry p
  unfolding parse_entry
  to_created_dir entry p h = rw h refl

  to_fingerprint :
      (entry : Bytes) (p : Parsing)
      → length entry ≡ 60
      → parse_entry lstat created_dir_or_fingerprint_type entry p ≡ parse_fingerprint entry p
  unfolding parse_entry
  to_fingerprint entry p h = rw h refl

  deleted_path :
      (entry : Bytes) (path : LogPath) (p : Parsing)
      → length entry ≡ 4
      → read_path p.paths_by_id entry ≡ parsed path
      → parse_entry lstat deleted_type entry p ≡ parsed (delete_directory path p)
  unfolding parse_entry parse_deleted
  deleted_path entry path p h known = rw (known, h) refl

  deleted_hash :
      (entry : Bytes) (h : Hash) (p : Parsing)
      → length entry ≡ 20
      → read_hash entry ≡ parsed h
      → parse_entry lstat deleted_type entry p ≡ parsed (delete_entry h p)
  unfolding parse_entry parse_deleted
  deleted_hash entry h p size known = rw (known, size) refl

  created_path :
      (entry : Bytes) (path : LogPath) (p : Parsing)
      → read_path p.paths_by_id entry ≡ parsed path
      → parse_created_dir lstat entry p ≡ parsed (add_directory path p)
  unfolding parse_created_dir
  created_path entry path p known = rw known refl

  read_path-id :
      (paths : List LogPath) (id : ℕ) (path : LogPath)
      → IsU32 id
      → get_elem? paths id ≡ some path
      → read_path paths (put_u32 id) ≡ parsed path
  read_path-id paths id path fits h =
      ap (read_path paths) (sym (append-nil (put_u32 id)))
      ∙ read_path-written paths id path [] fits h

  -- What a reading of an entry gives, by its kind
  pub parse_entry-path :
      (path : LogPath) (p : Parsing)
      → IsPath path
      → parse_entry lstat path_type (path_payload path) p ≡ parsed (add_path path p)
  unfolding parse_entry
  parse_entry-path path p h = parse_path-path_payload path p h

  pub parse_entry-directory :
      (id : ℕ) (path : LogPath) (p : Parsing)
      → IsU32 id
      → get_elem? p.paths_by_id id ≡ some path
      → parse_entry lstat created_dir_or_fingerprint_type (put_u32 id) p
        ≡ parsed (add_directory path p)
  parse_entry-directory id path p fits known =
      to_created_dir (put_u32 id) p (length-put_u32 id)
      ∙ created_path (put_u32 id) path p (read_path-id p.paths_by_id id path fits known)

  pub parse_entry-fingerprint :
      (id : ℕ) (path : LogPath) (fp : Fingerprint) (p : Parsing)
      → IsU32 id
      → IsStored fp
      → get_elem? p.paths_by_id id ≡ some path
      → parse_entry lstat created_dir_or_fingerprint_type (fingerprint_payload id fp) p
        ≡ parsed (add_fingerprint path fp p)
  parse_entry-fingerprint id path fp p fits stored known =
      to_fingerprint (fingerprint_payload id fp) p (
        omega (
          arith,
          length-append (put_u32 id) (put_fingerprint fp),
          length-put_u32 id,
          length-put_fingerprint fp,
        ))
      ∙ parse_fingerprint-written id path fp p fits stored known

  pub parse_entry-invocation :
      (h : Hash) (e : Entry) (p : Parsing)
      → IsHash h
      → IsEntry (length p.invocations.fingerprints % 2 ^ 32) e
      → parse_entry lstat invocation_type (invocation_payload h e) p ≡ parsed (add_entry h e p)
  unfolding parse_entry
  parse_entry-invocation h e p fits valid = parse_invocation-written h e p fits valid

  pub parse_entry-deleted_directory :
      (id : ℕ) (path : LogPath) (p : Parsing)
      → IsU32 id
      → get_elem? p.paths_by_id id ≡ some path
      → parse_entry lstat deleted_type (put_u32 id) p ≡ parsed (delete_directory path p)
  parse_entry-deleted_directory id path p fits known =
      deleted_path (put_u32 id) path p (length-put_u32 id)
        (read_path-id p.paths_by_id id path fits known)

  pub parse_entry-deleted_invocation :
      (h : Hash) (p : Parsing)
      → IsHash h
      → parse_entry lstat deleted_type (put_hash h) p ≡ parsed (delete_entry h p)
  parse_entry-deleted_invocation h p fits =
      let back : read_hash (put_hash h) ≡ parsed h =
        ap read_hash (sym (append-nil (put_hash h))) ∙ read_hash-put_hash h [] fits in
      deleted_hash (put_hash h) h p (length-put_hash h) back
