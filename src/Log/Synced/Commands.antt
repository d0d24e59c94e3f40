-- ===== src/Log/Synced/Commands.antt =====
-- About `ranCommand` of `PersistentInvocationLog`, next to what its file reads as.
use shuriken.Log.Parse.Rounds.{IsPayload}
use shuriken.Build.Data.{Entry}
use shuriken.Log.Operations.Appends.{invocation_bytes, entry_of, length-invocation_payload}
use shuriken.Prelude.Assoc.{insert, Assoc}
use shuriken.Log.Parse.Entries.{IsNumbers, invocation_payload}
use shuriken.Log.Operations.{RanCommand}
use shuriken.Log.Bytes.RoundTrip.{IsStored, IsHash, IsU32}
use shuriken.Log.Parse.Names.{IsPath}
use mathlib.Core.Path.{subst}
use shuriken.Log.Synced.Tables.{
  get_elem?-append, IsSynced, get_elem?-below, Ran, bind-Ran, IsInRange,
}
use shuriken.Log.Synced.Recorded.{
  file_cost, Recorded, ensure_recent_fingerprint_is_written-Recorded,
}
use shuriken.Log.Synced.Files.{Extends, Extends-refl, Extends-trans}
use shuriken.Fs.FileSystem.{Stat, Hash}
use shuriken.Fs.Fingerprint.{Fingerprint, is_dir}
use shuriken.Log.Writer.Appends.{IsWorking, bind-wrote}
use shuriken.Log.Data.{LogPath, invalid_entry, invocation_type}
use shuriken.Log.Parser.{Parsing, all_below}
use shuriken.Log.Writer.{
  ◌>>=◌, Stream, Log, write_paths_and_fingerprints, WriteType, write_all_paths_and_fingerprints,
  Writer, pure, ensure_recent_fingerprint_is_written,
}
use mathlib.Core.Path.{subst}
use shuriken.Prelude.{
  list_eq, nat_eq, List, ℕ, ◌∷◌, if◌then◌else◌, ◌++◌, [], get_elem?, length, ◌+◌, sym, nat_beq, ◌≡◌,
  ◌*◌, some, true, All, ◌≤◌, arith, inl, inr, ◌<◌, refl, ◌^◌, false, ap, ◌∙◌, Bool-cases, ◌==◌,
}

-- The files of a command that are not directories
abbrev pub files_of : List LogPath → List Fingerprint → List (LogPath × Fingerprint)
files_of [] fps = []
files_of (path ∷ paths) [] = []
files_of (path ∷ paths) (fp ∷ fps) =
    let rest = files_of paths fps in if is_dir fp.stat then rest else (path, fp) ∷ rest

-- Ids that lead to files, in their order
abbrev pub Leads : List (LogPath × Fingerprint) → List ℕ → List (LogPath × Fingerprint) → Type 0
Leads fps [] [] = Unit
Leads fps [] (file ∷ files) = ⊥
Leads fps (id ∷ ids) [] = ⊥
Leads fps (id ∷ ids) (file ∷ files) = (get_elem? fps id ≡ some file) × Leads fps ids files

Leads-append :
    (fps more : List (LogPath × Fingerprint)) (ids : List ℕ) (files : List (LogPath × Fingerprint))
    → Leads fps ids files
    → Leads (fps ++ more) ids files
Leads-append fps more [] [] h = tt
Leads-append fps more [] (file ∷ files) h = h
Leads-append fps more (id ∷ ids) [] h = h
Leads-append fps more (id ∷ ids) (file ∷ files) h =
    (get_elem?-append fps more id file h.0, Leads-append fps more ids files h.1)

pub Leads-Extends :
    (p q : Parsing) (ids : List ℕ) (files : List (LogPath × Fingerprint))
    → Extends p q
    → Leads p.invocations.fingerprints ids files
    → Leads q.invocations.fingerprints ids files
Leads-Extends p q ids files x h =
    subst (λ fps. Leads fps ids files) (sym x.behind)
      (Leads-append p.invocations.fingerprints x.more ids files h)

pub Leads-below :
    (fps : List (LogPath × Fingerprint)) (ids : List ℕ) (files : List (LogPath × Fingerprint))
    → Leads fps ids files
    → all_below (length fps) ids ≡ true
Leads-below fps [] [] h = refl
Leads-below fps [] (file ∷ files) h = absurd h
Leads-below fps (id ∷ ids) [] h = absurd h
Leads-below fps (id ∷ ids) (file ∷ files) h =
    ground (arith, get_elem?-below fps id file h.0, Leads-below fps ids files h.1)

-- The files and the ids of a command cost at most this.
abbrev pub costs : List LogPath → ℕ
costs [] = 0
costs (path ∷ paths) = file_cost path + 4 + costs paths

module _ (stream : Stream) (working : IsWorking stream) (lstat : LogPath → Stat) where
  pub record IsListed (log : Log) (p : Parsing) (paths : List LogPath) (fps : List Fingerprint)
      (ids : List ℕ) (next : Log) (q : Parsing) : Type 0 where
    pub synced : IsSynced lstat next q
    pub extends : Extends p q
    pub leads : Leads q.invocations.fingerprints ids (files_of paths fps)
    pub longer : length next.written + 4 * length ids ≤ length log.written + costs paths

  listed :
      (log next last : Log) (p q r : Parsing) (path : LogPath) (fp : Fingerprint)
      (paths : List LogPath) (fps : List Fingerprint) (id : ℕ) (ids : List ℕ)
      → Recorded stream working lstat (file_cost path) log p path fp id next q
      → IsListed next q paths fps ids last r
      → IsListed log p
          (path ∷ paths)
          (fp ∷ fps)
          (if nat_beq id invalid_entry then ids else id ∷ ids)
          last
          r
  listed log next last p q r path fp paths fps id ids a b =
      let before = a.longer in
      let after = b.longer in
      elim a.points [
        | inl (dir, none_written) ↦
            let skipped : nat_beq id invalid_entry ≡ true = ground arith in
            record {
              synced = b.synced;
              extends = Extends-trans p q r a.extends b.extends;
              leads = rw (skipped, dir) b.leads;
              longer = rw skipped (omega arith);
            }
        | inr (file, below, at) ↦
            let kept : nat_beq id invalid_entry ≡ false = ground arith in
            let found =
              ap (λ xs. get_elem? xs id) b.extends.behind
              ∙ get_elem?-append q.invocations.fingerprints b.extends.more id (path, fp) at in
            record {
              synced = b.synced;
              extends = Extends-trans p q r a.extends b.extends;
              leads = rw (kept, file) (found, b.leads);
              longer = rw kept (omega arith);
            }
      ]

  write_paths_and_fingerprints-IsListed :
      (type : WriteType) (paths : List LogPath) (fps : List Fingerprint) (log : Log) (p : Parsing)
      → IsSynced lstat log p
      → length paths ≡ length fps
      → All IsPath paths
      → All IsStored fps
      → length log.written + costs paths < 2 ^ 32
      → Ran (write_paths_and_fingerprints stream type paths fps log) (IsListed log p paths fps)
  unfolding write_paths_and_fingerprints
  write_paths_and_fingerprints-IsListed type [] [] log p s h ps fs small = (
    [],
    log,
    p,
    refl,
    record { synced = s; extends = Extends-refl p p refl; leads = tt; longer = omega arith },
  )
  write_paths_and_fingerprints-IsListed type [] (fp ∷ fps) log p s h ps fs small =
      absurd (omega arith)
  write_paths_and_fingerprints-IsListed type (path ∷ paths) [] log p s h ps fs small =
      absurd (omega arith)
  write_paths_and_fingerprints-IsListed type (path ∷ paths) (fp ∷ fps) log p s h ps fs small =
      let keep : ℕ → List ℕ → Writer (List ℕ) =
        λ id ids. pure (if nat_beq id invalid_entry then ids else id ∷ ids) in
      bind-Ran (ensure_recent_fingerprint_is_written stream path fp type)
        (λ id. write_paths_and_fingerprints stream type paths fps >>= keep id) log
        (Recorded stream working lstat (file_cost path) log p path fp)
        (IsListed log p (path ∷ paths) (fp ∷ fps))
        (ensure_recent_fingerprint_is_written-Recorded stream working lstat path fp log p type s
          ps.0 fs.0 (omega arith))
        (λ id next q a.
          let longer = a.longer in
          let (ids, last, r, e, b) =
            write_paths_and_fingerprints-IsListed type paths fps next q a.synced (omega arith) ps.1
              fs.1 (omega arith) in
          (
            (if nat_beq id invalid_entry then ids else id ∷ ids),
            last,
            r,
            bind-wrote (write_paths_and_fingerprints stream type paths fps) (keep id) next e,
            listed log next last p q r path fp paths fps id ids a b,
          ))

  pub write_lists-IsListed :
      (type : WriteType) (paths : List LogPath) (fps : List Fingerprint) (log : Log) (p : Parsing)
      → IsSynced lstat log p
      → length paths ≡ length fps
      → All IsPath paths
      → All IsStored fps
      → length log.written + costs paths < 2 ^ 32
      → Ran (write_all_paths_and_fingerprints stream type paths fps log) (IsListed log p paths fps)
  unfolding write_all_paths_and_fingerprints
  write_lists-IsListed type paths fps log p s h ps fs small =
      let same : nat_beq (length paths) (length fps) ≡ true = ground arith in
      rw same (write_paths_and_fingerprints-IsListed type paths fps log p s h ps fs small)

  -- What `ranCommand` is given fits the types of its parameters.
  pub record IsCommand (cmd : RanCommand) : Type 0 where
    pub hash_fits : IsHash cmd.build_step_hash
    pub outputs_match : length cmd.output_files ≡ length cmd.output_fingerprints
    pub inputs_match : length cmd.input_files ≡ length cmd.input_fingerprints
    pub output_paths : All IsPath cmd.output_files
    pub input_paths : All IsPath cmd.input_files
    pub outputs_stored : All IsStored cmd.output_fingerprints
    pub inputs_stored : All IsStored cmd.input_fingerprints
    pub ignored_fit : All IsU32 cmd.ignored_dependencies
    pub additional_fit : All IsHash cmd.additional_dependencies

  -- What a command costs at most
  abbrev pub command_cost : RanCommand → ℕ
  command_cost cmd =
      costs cmd.output_files
      + costs cmd.input_files
      + 4 * length cmd.ignored_dependencies
      + 20 * length cmd.additional_dependencies
      + 36

  -- After `ranCommand` the file reads with one entry more, whose ids lead to the files.
  pub record IsLogged (cost : ℕ) (log : Log) (p : Parsing) (cmd : RanCommand) (next : Log)
      (q : Parsing) : Type 0 where
    pub synced : IsSynced lstat next q
    pub more : List (LogPath × Fingerprint)
    pub behind : q.invocations.fingerprints ≡ p.invocations.fingerprints ++ more
    pub outs : List ℕ
    pub ins : List ℕ
    pub entries :
        q.invocations.entries
        ≡ insert cmd.build_step_hash (entry_of cmd outs ins) p.invocations.entries
    pub outputs :
        Leads q.invocations.fingerprints outs (files_of cmd.output_files cmd.output_fingerprints)
    pub inputs :
        Leads q.invocations.fingerprints ins (files_of cmd.input_files cmd.input_fingerprints)
    pub longer : length next.written ≤ length log.written + cost

  pub ids-IsNumbers :
      (lim : ℕ) (ids : List ℕ)
      → lim < 2 ^ 30
      → length ids < 2 ^ 30
      → all_below lim ids ≡ true
      → IsNumbers ids
  ids-IsNumbers lim ids h few below = record { few = few; fit = go ids below }
    where
      go : (is : List ℕ) → all_below lim is ≡ true → All IsU32 is
      go [] e = tt
      go (i ∷ is) e = (ground arith, go is (ground arith))

  pub invocation-IsPayload :
      (cmd : RanCommand) (outs ins : List ℕ)
      → invocation_bytes cmd (length outs + length ins) + 4 < 2 ^ 32
      → IsPayload invocation_type (invocation_payload cmd.build_step_hash (entry_of cmd outs ins))
  invocation-IsPayload cmd outs ins small = record {
    aligned = omega (arith, length-invocation_payload cmd outs ins);
    typed = omega arith;
    small = omega (arith, length-invocation_payload cmd outs ins);
  }

  pub insert-in_range :
      (n : ℕ) (h : Hash) (e : Entry) (es : Assoc Hash Entry)
      → IsInRange n (h, e)
      → All (IsInRange n) es
      → All (IsInRange n) (insert h e es)
  insert-in_range n h e [] v a = (v, tt)
  insert-in_range n h e ((k, f) ∷ es) v a = elim (Bool-cases (k == h)) [
    | inl same ↦ rw same (v, a.1)
    | inr other ↦ rw other (a.0, insert-in_range n h e es v a.1)
  ]
