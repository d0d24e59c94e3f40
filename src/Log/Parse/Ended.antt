-- ===== src/Log/Parse/Ended.antt =====
-- About `parsePersistentInvocationLog`: whether it comes to an end, and how.
use Prim.Native.String.{String}
use shuriken.Log.Parse.Total.{
  parse_path_lives, advance-le, parse_created_dir_lives, length-drop, parse_fingerprint_lives,
  parse_invocation_lives, parse_deleted_lives,
}
use shuriken.Build.Data.{Entry}
use shuriken.Log.Parsed.{Parsed, aborted, parsed, parse_error}
use shuriken.Prelude.{
  ℕ, List, ◌≢◌, ◌≡◌, length, ◌≤◌, arith, ◌∷◌, none, some, ◌+◌, Option-cases, suc, ◌<◌, ◌-◌, take,
  inl, drop, inr, ◌⊎◌, refl, nat_beq, [], false, zero, if◌then◌else◌, Bool-cases,
}
use shuriken.Log.Bytes.{Bytes, get_u32}
use shuriken.Fs.FileSystem.{Stat, ok, io_error, Io}
use shuriken.Log.Parse.{
  LogFile, parse_entry, parse_round, Looped, parse_loop, LogOutcome, finish_parse, looped, returned,
  truncated, killed, stuck, thrown, stopped, unchanged, unlinked, no_fuel, parse_bytes,
  parse_persistent_invocation_log, unless_failed, no_parsing, no_result, enoent,
}
use shuriken.Log.Parser.{
  parse_signature, Parsing, entry_header, ensure_entry_len, entry_size, entry_type,
}
use shuriken.Log.Data.{LogPath, Logged, no_invocations}

module _ (lstat : LogPath → Stat) where
  parse_entry_lives :
      (type : ℕ) (entry : Bytes) (p : Parsing) → parse_entry lstat type entry p ≢ aborted
  unfolding parse_entry
  parse_entry_lives type entry p = ground (
    arith,
    parse_path_lives entry p,
    parse_created_dir_lives lstat entry p,
    parse_fingerprint_lives entry p,
    parse_invocation_lives entry p,
    parse_deleted_lives lstat entry p,
  )

  -- A round takes at least the four bytes of a header off the view.
  abbrev Advances : Bytes → Parsed (Parsing × Bytes) → Type 0
  Advances view (parsed (p, rest)) = length rest + 4 ≤ length view
  Advances view (parse_error message) = Unit
  Advances view aborted = ⊥

  parse_round-Advances : (view : Bytes) (p : Parsing) → Advances view (parse_round lstat view p)
  unfolding parse_round entry_header ensure_entry_len
  parse_round-Advances view p =
      let header = get_u32 view in
      let size = entry_size header in
      let entry = take size (drop 4 view) in
      ground (
        arith,
        parse_entry_lives (entry_type header) entry p,
        advance-le view (4 + size),
        length-drop (4 + size) view,
      )

  -- What the loop leaves, from `size` bytes on: a text of an error where there is something left.
  abbrev pub Ends : ℕ → Looped → Type 0
  Ends size (looped p count rest none) = length rest ≡ 0
  Ends size (looped p count rest (some message)) = (0 < length rest) × (length rest ≤ size)
  Ends size killed = ⊥
  Ends size stuck = ⊥

  Ends-weaken : (m n : ℕ) (l : Looped) → m ≤ n → Ends m l → Ends n l
  Ends-weaken m n (looped p count rest none) h e = e
  Ends-weaken m n (looped p count rest (some message)) h e = omega arith
  Ends-weaken m n killed h e = e
  Ends-weaken m n stuck h e = e

  pub parse_loop-Ends :
      (fuel : ℕ) (view : Bytes) (p : Parsing) (count : ℕ)
      → length view ≤ fuel
      → Ends (length view) (parse_loop fuel lstat view p count)
  unfolding parse_loop
  parse_loop-Ends fuel [] p count h = refl
  parse_loop-Ends zero (b ∷ bs) p count h = absurd (omega arith)
  parse_loop-Ends (suc fuel) (b ∷ bs) p count h =
      go (parse_round lstat (b ∷ bs) p) (parse_round-Advances (b ∷ bs) p)
        (λ view next k. parse_loop-Ends fuel view next (count + 1) k)
    where
      go :
          (o : Parsed (Parsing × Bytes))
          → Advances (b ∷ bs) o
          → ((view : Bytes) (next : Parsing)
              → length view ≤ fuel
              → Ends (length view) (parse_loop fuel lstat view next (count + 1)))
          → Ends (suc (length bs)) (elim o [
            | parsed (next, view) ↦ parse_loop fuel lstat view next (count + 1)
            | parse_error message ↦ looped p count (b ∷ bs) (some message)
            | aborted ↦ killed
          ])
      go (parsed (next, view)) a ih =
          Ends-weaken (length view) _ _ (omega arith) (ih view next (omega arith))
      go (parse_error message) a ih = omega arith
      go aborted a ih = a

signature_lives : (view : Bytes) → parse_signature view ≢ aborted
unfolding parse_signature
signature_lives view = ground (arith, advance-le view 16)

signature_size :
    (view rest : Bytes) → parse_signature view ≡ parsed rest → length rest + 16 ≡ length view
unfolding parse_signature
signature_size view rest h = ground (arith, advance-le view 16, length-drop 16 view)

-- What a call on a file of `size` bytes does. A file that it keeps was read to its end, without a
-- warning; a file that it shortens keeps its signature.
abbrev pub IsOutcome : LogFile → ℕ → LogOutcome → Type 0
IsOutcome file size (returned answer unchanged) = answer.warning ≡ none
IsOutcome file size (returned answer (truncated n)) =
    (16 ≤ n) × (n < size) × (answer.warning ≢ none)
IsOutcome file size (returned answer unlinked) =
    (answer.invocations ≡ no_invocations) × (answer.warning ≢ none)
IsOutcome file size (thrown code) =
    (file.mmap ≡ io_error code)
    ⊎ (file.unlink ≡ some code)
    ⊎ ((n : ℕ) × (file.truncate n ≡ some code))
IsOutcome file size stopped = ⊥
IsOutcome file size no_fuel = ⊥

abbrev pub mapped_size : LogFile → ℕ
mapped_size file = elim file.mmap [ ok contents ↦ length contents | io_error code ↦ 0 ]

module _ (share : Logged → List (List Entry)) (file : LogFile) where
  finish_parse-IsOutcome :
      (size view : ℕ) (l : Looped)
      → view + 16 ≡ size
      → Ends file.lstat view l
      → IsOutcome file size (finish_parse share file size l)
  unfolding finish_parse
  finish_parse-IsOutcome size view (looped p count rest none) h e = rw e refl
  finish_parse-IsOutcome size view (looped p count rest (some message)) h e =
      let more : nat_beq (length rest) 0 ≡ false = ground arith in
      elim (Option-cases (file.truncate (size - length rest))) [
        | inl same ↦ rw (more, same) (omega arith, omega arith, λ q. cc)
        | inr (code, same) ↦ rw (more, same) (inr (inr (size - length rest, same)))
      ]
  finish_parse-IsOutcome size view killed h e = e
  finish_parse-IsOutcome size view stuck h e = e

  unlinked-IsOutcome :
      (size : ℕ) (message : String)
      → IsOutcome file size
          (unless_failed file.unlink (returned (no_result (some message)) unlinked))
  unlinked-IsOutcome size message = elim (Option-cases file.unlink) [
    | inl same ↦ rw same (refl, λ q. cc)
    | inr (code, same) ↦ rw same (inr (inl refl))
  ]

  parse_bytes-IsOutcome :
      (contents : Bytes) → IsOutcome file (length contents) (parse_bytes share file contents)
  unfolding parse_bytes
  parse_bytes-IsOutcome contents = go (parse_signature contents) refl
    where
      go :
          (o : Parsed Bytes)
          → parse_signature contents ≡ o
          → IsOutcome file (length contents) (elim o [
            | parsed view ↦
                finish_parse share file
                  (length contents)
                  (parse_loop (length view) file.lstat view no_parsing 0)
            | parse_error message ↦
                unless_failed file.unlink (returned (no_result (some message)) unlinked)
            | aborted ↦ LogOutcome.stopped
          ])
      go (parsed view) same =
          finish_parse-IsOutcome (length contents) (length view) _
            (signature_size contents view same)
            (parse_loop-Ends file.lstat (length view) view no_parsing 0 (omega arith))
      go (parse_error message) same = unlinked-IsOutcome (length contents) message
      go aborted same = absurd (signature_lives contents same)

  -- Whatever bytes the log holds, reading it comes to an end and never in `fatal`. Without an error of
  -- the file system the result has no warning if and only if the file stays as it is; a file that is
  -- cut keeps its signature and loses at least one byte, and a file that is removed leaves an empty
  -- result. An exception is one that the file system reported.
  pub parse_persistent_invocation_log-IsOutcome :
      IsOutcome file (mapped_size file) (parse_persistent_invocation_log share file)
  unfolding parse_persistent_invocation_log
  parse_persistent_invocation_log-IsOutcome = go file.mmap refl
    where
      go :
          (m : Io Bytes)
          → file.mmap ≡ m
          → IsOutcome file
              (elim m [ ok contents ↦ length contents | io_error code ↦ 0 ])
              (elim m [
                | ok contents ↦ parse_bytes share file contents
                | io_error code ↦
                    if nat_beq code enoent then returned (no_result none) unchanged else thrown code
              ])
      go (ok contents) same = parse_bytes-IsOutcome contents
      go (io_error code) same = elim (Bool-cases (nat_beq code enoent)) [
        | inl missing ↦ rw missing refl
        | inr other ↦ rw other (inl same)
      ]
