-- ===== src/Log/Synced.antt =====
-- What a log file and the tables of its writer (persistent_invocation_log.cpp) hold, when the file is
-- read from its start.
pub mod Reread
pub mod Tables
pub mod Files
pub mod Recorded
pub mod Commands
pub mod Steps
pub mod Meaning
pub mod Effects
pub mod History
use shuriken.Log.Parsed.{parsed}
use shuriken.Log.Parse.Rounds.{IsPayload, chunk, length-chunk, parse_round-chunk}
use shuriken.Log.Parse.{parse_loop, no_parsing, parse_entry, parse_round, looped}
use shuriken.Prelude.{
  ℕ, length, [], ◌++◌, ◌≤◌, ◌≡◌, arith, ◌+◌, ◌<◌, ap, ◌*◌, suc, ◌∙◌, ◌∷◌, length-append, refl, none,
  ◌-◌, sym,
}
use shuriken.Fs.FileSystem.{Stat}
use shuriken.Log.Parser.{Parsing}
use shuriken.Log.Data.{LogPath, file_signature, file_version}
use shuriken.Log.Bytes.{Bytes, put_u32}
use mathlib.Core.List.{append_assoc, append-nil}

-- The signature and the version
abbrev pub file_start : Bytes
file_start = file_signature ++ put_u32 file_version

-- From `p`, the rounds of the loop read `bytes` and come to `q`, whatever follows.
pub record Reads (lstat : LogPath → Stat) (p : Parsing) (bytes : Bytes) (q : Parsing) : Type 0 where
  pub rounds : ℕ
  pub few : rounds ≤ length bytes
  pub reads :
      (fuel count : ℕ) (rest : Bytes)
      → parse_loop (fuel + rounds) lstat (bytes ++ rest) p count
        ≡ parse_loop fuel lstat rest q (count + rounds)

abbrev pub total : Parsing → ℕ
total p = length p.paths_by_id + length p.invocations.fingerprints

-- A file that reads as `p`
pub record IsFile (lstat : LogPath → Stat) (contents : Bytes) (p : Parsing) : Type 0 where
  pub body : Bytes
  pub file : contents ≡ file_start ++ body
  pub read : Reads lstat no_parsing body p
  pub few_ids : 4 * total p ≤ length body

module _ (lstat : LogPath → Stat) where
  reads_nothing : (p : Parsing) → Reads lstat p [] p
  reads_nothing p = record {
    rounds = 0;
    few = omega arith;
    reads = λ fuel count rest.
        ap (λ n. parse_loop n lstat rest p count) (omega arith)
        ∙ ap (λ n. parse_loop fuel lstat rest p n) (omega arith);
  }

  parse_loop_more :
      (fuel : ℕ) (view : Bytes) (p q : Parsing) (rest : Bytes) (count : ℕ)
      → 0 < length view
      → parse_round lstat view p ≡ parsed (q, rest)
      → parse_loop (suc fuel) lstat view p count ≡ parse_loop fuel lstat rest q (count + 1)
  unfolding parse_loop
  parse_loop_more fuel [] p q rest count h e = absurd (omega arith)
  parse_loop_more fuel (b ∷ bs) p q rest count h e = rw (e, parse_loop) refl

  -- One more entry
  reads_more :
      (p q r : Parsing) (bytes : Bytes) (type : ℕ) (payload : Bytes)
      → Reads lstat p bytes q
      → IsPayload type payload
      → parse_entry lstat type payload q ≡ parsed r
      → Reads lstat p (bytes ++ chunk type payload) r
  reads_more p q r bytes type payload h valid e = record {
    rounds = h.rounds + 1;
    few = omega (arith, length-append bytes (chunk type payload), length-chunk type payload);
    reads = λ fuel count rest.
        let view = chunk type payload ++ rest in
        let long : 0 < length view =
          omega (arith, length-append (chunk type payload) rest, length-chunk type payload) in
        ap (λ c. parse_loop (fuel + (h.rounds + 1)) lstat c p count)
          (append_assoc bytes (chunk type payload) rest)
        ∙ ap (λ n. parse_loop n lstat (bytes ++ view) p count) (omega arith)
        ∙ h.reads (suc fuel) count view
        ∙ parse_loop_more fuel view q r rest (count + h.rounds) long
            (parse_round-chunk lstat type payload rest q r valid e)
        ∙ ap (parse_loop fuel lstat rest r) (omega arith);
  }

  -- One more entry in the file, which has at most one more path or fingerprint
  pub IsFile-chunk :
      (contents : Bytes) (p q : Parsing) (type : ℕ) (payload : Bytes)
      → IsFile lstat contents p
      → IsPayload type payload
      → parse_entry lstat type payload p ≡ parsed q
      → total q ≤ total p + 1
      → IsFile lstat (contents ++ chunk type payload) q
  IsFile-chunk contents p q type payload h valid e more = record {
    body = h.body ++ chunk type payload;
    file =
        ap (λ c. c ++ chunk type payload) h.file
        ∙ append_assoc file_start h.body (chunk type payload);
    read = reads_more no_parsing p q h.body type payload h.read valid e;
    few_ids =
        let few = h.few_ids in
        omega (arith, length-append h.body (chunk type payload), length-chunk type payload);
  }

  pub IsFile-start : IsFile lstat file_start no_parsing
  IsFile-start = record {
    body = [];
    file = sym (append-nil file_start);
    read = reads_nothing no_parsing;
    few_ids = omega arith;
  }

  -- With fuel for every byte, the loop reads the body.
  pub parse_loop-file :
      (contents : Bytes) (p : Parsing) (h : IsFile lstat contents p)
      → parse_loop (length h.body) lstat h.body no_parsing 0 ≡ looped p h.read.rounds [] none
  unfolding parse_loop
  parse_loop-file contents p h =
      let few = h.read.few in
      let spare = length h.body - h.read.rounds in
      ap (λ n. parse_loop n lstat h.body no_parsing 0) (omega arith)
      ∙ ap (λ c. parse_loop (spare + h.read.rounds) lstat c no_parsing 0) (sym (append-nil h.body))
      ∙ h.read.reads spare 0 []
      ∙ ap (λ n. looped p n [] none) (omega arith)
