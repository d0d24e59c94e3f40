-- ===== src/Log/Synced/Reread.antt =====
-- About `parsePersistentInvocationLog` on a file that a writer left, whole or torn off in an entry.
use shuriken.Log.Bytes.RoundTrip.{get_u32-put_u32}
use shuriken.Build.Data.{Entry}
use Prim.Native.String.{String}
use shuriken.Log.Parsed.{parsed, parse_error}
use shuriken.Log.Parse.Rounds.{IsPayload, chunk, length-chunk}
use shuriken.Log.Synced.{file_start, IsFile, parse_loop-file}
use shuriken.Prelude.{
  ℕ, ◌++◌, ◌≡◌, ◌<◌, length, Bool-cases, ltb, inl, inr, ◌≤◌, ◌+◌, not_below, sym, arith, List, suc,
  ◌∷◌, ap, some, ◌∙◌, length-append, ◌*◌, [], zero, refl, true, ◌-◌, below, none, nat_beq, false,
}
use shuriken.Fs.FileSystem.{Stat}
use shuriken.Log.Data.{LogPath, Logged}
use shuriken.Log.Bytes.{put_u32, put_le, get_u32, get_le, Bytes}
use shuriken.Log.Parse.{
  parse_round, parse_loop, looped, LogFile, parse_bytes, finish_parse, Looped, returned, no_parsing,
  result_of, unchanged, truncated,
}
use shuriken.Log.Parser.{
  parse_signature, entry_header, ensure_entry_len, Parsing, advance, entry_size,
}
use mathlib.Core.List.{append_assoc}

parse_signature-start : (body : Bytes) → parse_signature (file_start ++ body) ≡ parsed body
unfolding parse_signature put_u32 put_le get_u32 get_le advance
parse_signature-start body =
    rw (not_below (length (file_start ++ body)) 16 (omega arith)) (ground arith)

get_le-append : (k : ℕ) (xs ys : Bytes) → k ≤ length xs → get_le k (xs ++ ys) ≡ get_le k xs
unfolding get_le
get_le-append zero xs ys h = refl
get_le-append (suc k) [] ys h = absurd (omega arith)
get_le-append (suc k) (x ∷ xs) ys h = ap (λ n. x + 256 * n) (get_le-append k xs ys (omega arith))

-- The header of an entry, where its four bytes are there
torn_header :
    (type : ℕ) (payload front back : Bytes)
    → IsPayload type payload
    → chunk type payload ≡ front ++ back
    → 4 ≤ length front
    → get_u32 front ≡ length payload + type
unfolding get_u32
torn_header type payload front back valid torn long =
    sym (get_le-append 4 front back long)
    ∙ ap (get_le 4) (sym torn)
    ∙ get_u32-put_u32 (length payload + type) payload (omega arith)

-- What is left of an entry that was not written to its end is refused.
torn_round :
    (lstat : LogPath → Stat) (type : ℕ) (payload front back : Bytes) (p : Parsing)
    → IsPayload type payload
    → chunk type payload ≡ front ++ back
    → 0 < length back
    → (message : String) × (parse_round lstat front p ≡ parse_error message)
unfolding parse_round entry_header ensure_entry_len
torn_round lstat type payload front back p valid torn more =
    elim (Bool-cases (ltb (length front) 4)) [
      | inl short ↦ ("invalid invocation log: encountered truncated entry", rw short refl)
      | inr long ↦
          let sizes : length front + length back ≡ 4 + length payload =
            omega (arith, ap length torn, length-append front back, length-chunk type payload) in
          let header = torn_header type payload front back valid torn (ground arith) in
          let size : entry_size (length payload + type) ≡ length payload = omega arith in
          let cut : ltb (length front) (length payload + 4) ≡ true = below _ _ (omega arith) in
          ("invalid invocation log: encountered invalid entry", rw (long, header, size, cut) refl)
    ]

parse_loop_torn :
    (fuel : ℕ) (lstat : LogPath → Stat) (front : Bytes) (p : Parsing) (count : ℕ) (message : String)
    → 0 < length front
    → 0 < fuel
    → parse_round lstat front p ≡ parse_error message
    → parse_loop fuel lstat front p count ≡ looped p count front (some message)
unfolding parse_loop
parse_loop_torn fuel lstat [] p count message h f e = absurd (omega arith)
parse_loop_torn zero lstat (b ∷ bs) p count message h f e = absurd (omega arith)
parse_loop_torn (suc fuel) lstat (b ∷ bs) p count message h f e = rw (e, parse_loop) refl

module _ (share : Logged → List (List Entry)) (file : LogFile) where
  parse_bytes-body :
      (contents body : Bytes) (l : Looped)
      → parse_signature contents ≡ parsed body
      → parse_loop (length body) file.lstat body no_parsing 0 ≡ l
      → parse_bytes share file contents ≡ finish_parse share file (length contents) l
  unfolding parse_bytes
  parse_bytes-body contents body l start e = rw (start, e, parse_bytes) refl

  -- A file that was written to its end is read to its end.
  pub parse_bytes-file :
      (contents : Bytes) (p : Parsing) (h : IsFile file.lstat contents p)
      → parse_bytes share file contents
        ≡ returned (result_of (share p.invocations) p h.read.rounds none) unchanged
  unfolding finish_parse
  parse_bytes-file contents p h =
      parse_bytes-body contents h.body _ (ap parse_signature h.file ∙ parse_signature-start h.body)
        (parse_loop-file file.lstat contents p h)

  -- The loop on a file whose last entry was torn off
  parse_loop-torn :
      (contents : Bytes) (p : Parsing) (h : IsFile file.lstat contents p) (front : Bytes)
      (message : String)
      → 0 < length front
      → parse_round file.lstat front p ≡ parse_error message
      → parse_loop (length (h.body ++ front)) file.lstat (h.body ++ front) no_parsing 0
        ≡ looped p h.read.rounds front (some message)
  parse_loop-torn contents p h front message some_left e =
      let few = h.read.few in
      let spare = length h.body + length front - h.read.rounds in
      ap (λ n. parse_loop n file.lstat (h.body ++ front) no_parsing 0)
        (omega (arith, length-append h.body front))
      ∙ h.read.reads spare 0 front
      ∙ parse_loop_torn spare file.lstat front p (0 + h.read.rounds) message some_left (omega arith)
          e
      ∙ ap (λ n. looped p n front (some message)) (omega arith)

  finish_parse-cut :
      (size : ℕ) (front : Bytes) (p : Parsing) (count : ℕ) (message : String)
      → 0 < length front
      → file.truncate (size - length front) ≡ none
      → finish_parse share file size (looped p count front (some message))
        ≡ returned
            (result_of (share p.invocations) p count (some message))
            (truncated (size - length front))
  unfolding finish_parse
  finish_parse-cut size front p count message h e =
      let more : nat_beq (length front) 0 ≡ false = ground arith in rw (more, e) refl

  -- A file whose last entry was only written in part, and that can be truncated, reads as the file
  -- before that entry, with a warning, and is cut back to that file.
  pub parse_bytes-torn :
      (contents : Bytes) (p : Parsing) (h : IsFile file.lstat contents p) (type : ℕ)
      (payload front back : Bytes)
      → IsPayload type payload
      → chunk type payload ≡ front ++ back
      → 0 < length front
      → 0 < length back
      → file.truncate (length contents) ≡ none
      → (message : String) × (parse_bytes share file (contents ++ front)
          ≡ returned
              (result_of (share p.invocations) p h.read.rounds (some message))
              (truncated (length contents)))
  parse_bytes-torn contents p h type payload front back valid torn some_left more cut =
      let (message, round) = torn_round file.lstat type payload front back p valid torn more in
      let size : length (contents ++ front) - length front ≡ length contents =
        omega (arith, length-append contents front) in
      (
        message,
        parse_bytes-body (contents ++ front) (h.body ++ front) _
              (ap (λ c. parse_signature (c ++ front)) h.file
                ∙ ap parse_signature (append_assoc file_start h.body front)
                ∙ parse_signature-start (h.body ++ front))
              (parse_loop-torn contents p h front message some_left round)
            ∙ finish_parse-cut (length (contents ++ front)) front p h.read.rounds message some_left
                (ap file.truncate size ∙ cut)
            ∙ ap
                (λ n.
                  returned (result_of (share p.invocations) p h.read.rounds (some message))
                    (truncated n))
                size,
      )
