-- ===== src/Fs/Fingerprint/Taken.antt =====
-- About `fingerprintMatches` of fingerprint.cpp, for a fingerprint of an earlier state of the
-- files.
use shuriken.Prelude.{◌≡◌, ◌<◌, arith, Bool-cases, inl, inr, sym, ◌∙◌, ap, refl}
use shuriken.Fs.Fingerprint.{
  take_fingerprint, String, ℕ, FingerprintStat, Fingerprint, from_stat, FileId, is_racily_clean,
  compute_fingerprint_hash, needs_no_hash, true, nat_beq, fingerprint_matches, matches_with,
  matches_stat_hash, MatchesResult, false,
}
use shuriken.Fs.FileSystem.{FileSystem, ok, file_id_of}

abbrev pub current : FileSystem → String → FingerprintStat
current fs path = from_stat (fs.lstat path)

-- What `take_fingerprint` returns, field by field.
pub record IsTaken (fs : FileSystem) (t : ℕ) (path : String) (fp : Fingerprint) : Type 0 where
  pub stat_eq : fp.stat ≡ current fs path
  pub racy_eq : fp.racily_clean ≡ is_racily_clean fp.stat t
  pub hash_eq : compute_fingerprint_hash fs fp.stat.size fp.stat.mode path ≡ ok fp.hash

-- Modification times were not tampered with: where the file was last modified before the time `t`
-- of the fingerprint and its stat is what it was then, it hashes to what it hashed to then.
pub record IsUntampered (before after : FileSystem) (t : ℕ) (path : String) : Type 0 where
  pub same_hash :
      (s : FingerprintStat)
      → current before path ≡ s
      → current after path ≡ s
      → s.mtime < t
      → compute_fingerprint_hash after s.size s.mode path
        ≡ compute_fingerprint_hash before s.size s.mode path

pub take_fingerprint-IsTaken :
    (fs : FileSystem) (t : ℕ) (path : String) {fp : Fingerprint} {id : FileId}
    → take_fingerprint fs t path ≡ ok (fp, id)
    → IsTaken fs t path fp
unfolding take_fingerprint
take_fingerprint-IsTaken fs t path h = ground arith

no_mode-hash :
    (fs : FileSystem) (size mode : ℕ) (path : String)
    → mode ≡ 0
    → compute_fingerprint_hash fs size mode path ≡ ok 0
unfolding compute_fingerprint_hash
no_mode-hash fs size mode path e = ground arith

-- Where the stat alone decides, the file hashes to the hash that the fingerprint holds.
pub fast_path-hash :
    (before after : FileSystem) (t : ℕ) (path : String) (fp : Fingerprint)
    → IsTaken before t path fp
    → IsUntampered before after t path
    → needs_no_hash fp (current after path) ≡ true
    → (current after path ≡ fp.stat)
      × (compute_fingerprint_hash after fp.stat.size fp.stat.mode path ≡ ok fp.hash)
unfolding is_racily_clean
fast_path-hash before after t path fp taken untampered h =
    let same : current after path ≡ fp.stat = ground arith in
    (
      same,
      elim (Bool-cases (nat_beq fp.stat.mode 0)) [
        | inl e ↦
            let absent : fp.stat.mode ≡ 0 = ground arith in
            no_mode-hash after _ _ path absent
            ∙ sym (no_mode-hash before _ _ path absent)
            ∙ taken.hash_eq
        | inr e ↦
            let early : fp.stat.mtime < t = ground arith in
            untampered.same_hash fp.stat (sym taken.stat_eq) same early ∙ taken.hash_eq
      ],
    )

module _ (before after : FileSystem) (t : ℕ) (path : String) (fp : Fingerprint) where
  -- A clean verdict is right: of files whose times were not tampered with since the fingerprint was
  -- taken, the file now has its size and mode, and hashes to the hash that it holds.
  pub fingerprint_matches-clean :
      (r : MatchesResult)
      → IsTaken before t path fp
      → IsUntampered before after t path
      → fingerprint_matches after path fp ≡ ok r
      → r.clean ≡ true
      → ((current after path).size ≡ fp.stat.size)
        × ((current after path).mode ≡ fp.stat.mode)
        × (compute_fingerprint_hash after fp.stat.size fp.stat.mode path ≡ ok fp.hash)
  unfolding fingerprint_matches matches_with matches_stat_hash
  fingerprint_matches-clean r taken untampered h c =
      elim (Bool-cases (needs_no_hash fp (current after path))) [
        | inl e ↦
            let (same, hash) = fast_path-hash before after t path fp taken untampered e in
            (
              ap (λ (s : FingerprintStat). s.size) same,
              ap (λ (s : FingerprintStat). s.mode) same,
              hash,
            )
        | inr e ↦ ground arith
      ]

  -- A clean file is found clean: where the file now has the size and the mode of the fingerprint and
  -- hashes to the hash that it holds, the verdict is clean.
  pub fingerprint_matches_complete :
      (current after path).size ≡ fp.stat.size
      → (current after path).mode ≡ fp.stat.mode
      → compute_fingerprint_hash after fp.stat.size fp.stat.mode path ≡ ok fp.hash
      → (r : MatchesResult) × (fingerprint_matches after path fp ≡ ok r) × (r.clean ≡ true)
  unfolding fingerprint_matches matches_with matches_stat_hash
  fingerprint_matches_complete s m h = elim (Bool-cases (needs_no_hash fp (current after path))) [
    | inl e ↦ (
      record { clean = true; should_update = false; file_id = file_id_of (after.lstat path) },
      ground arith,
      refl,
    )
    | inr e ↦ (
      record { clean = true; should_update = true; file_id = file_id_of (after.lstat path) },
      ground arith,
      refl,
    )
  ]
