-- ===== src/Log/Parse/Rounds.antt =====
-- About a round of `parsePersistentInvocationLog` on an entry as it is written.
use shuriken.Log.Parse.Total.{advance-le}
use shuriken.Log.Parsed.{parsed}
use shuriken.Log.Bytes.RoundTrip.{length-put_u32, get_u32-put_u32}
use shuriken.Log.Parser.{entry_header, ensure_entry_len, Parsing, entry_size, entry_type}
use shuriken.Log.Parse.{parse_round, parse_entry}
use shuriken.Fs.FileSystem.{Stat}
use shuriken.Log.Bytes.{Bytes, put_u32, get_u32}
use shuriken.Log.Data.{LogPath}
use shuriken.Prelude.{
  drop-append, take-append, not_below, length, length-append, ℕ, ltb, ◌+◌, ◌%◌, ◌≡◌, arith, ◌++◌,
  ◌<◌, false, ◌^◌, drop, List, take, ap, suc, refl, [], ◌∙◌, sym, zero, ◌∷◌,
}
use mathlib.Core.List.{append_assoc}

-- A header and what it announces
abbrev pub chunk : ℕ → Bytes → Bytes
chunk type payload = put_u32 (length payload + type) ++ payload

-- The sizes that a header can hold
pub record IsPayload (type : ℕ) (payload : Bytes) : Type 0 where
  pub aligned : length payload % 4 ≡ 0
  pub typed : type < 4
  pub small : length payload + 4 < 2 ^ 32

pub length-chunk : (type : ℕ) (payload : Bytes) → length (chunk type payload) ≡ 4 + length payload
length-chunk type payload = omega (
  arith,
  length-append (put_u32 (length payload + type)) payload,
  length-put_u32 (length payload + type),
)

drop-nil {ℓ} : {A : Type ℓ} (n : ℕ) → drop {A = A} n [] ≡ []
drop-nil zero = refl
drop-nil (suc n) = refl

drop-drop {ℓ} : {A : Type ℓ} (m n : ℕ) (xs : List A) → drop (m + n) xs ≡ drop n (drop m xs)
drop-drop zero n xs = ap (λ k. drop k xs) (omega arith)
drop-drop (suc m) n [] = drop-nil (suc m + n) ∙ sym (drop-nil n)
drop-drop (suc m) n (x ∷ xs) =
    let next : suc m + n ≡ suc (m + n) = omega arith in
    ap (λ k. drop k (x ∷ xs)) next ∙ drop-drop m n xs

module _ (lstat : LogPath → Stat) where
  -- A round, by what it reads at the front of the view
  round_reads :
      (view payload rest : Bytes) (type : ℕ) (p q : Parsing)
      → IsPayload type payload
      → get_u32 view ≡ length payload + type
      → drop 4 view ≡ payload ++ rest
      → length view ≡ 4 + (length payload + length rest)
      → parse_entry lstat type payload p ≡ parsed q
      → parse_round lstat view p ≡ parsed (q, rest)
  unfolding parse_round entry_header ensure_entry_len
  round_reads view payload rest type p q valid header body long reads =
      let size = length payload in
      let sized : entry_size (size + type) ≡ size = omega arith in
      let typed : entry_type (size + type) ≡ type = omega arith in
      let front : take size (drop 4 view) ≡ payload =
        rw body (take-append size payload rest refl) in
      let after : drop (4 + size) view ≡ rest =
        rw (drop-drop, body) (drop-append size payload rest refl) in
      let short : ltb (length view) 4 ≡ false = not_below _ _ (omega arith) in
      let fits : ltb (length view) (size + 4) ≡ false = not_below _ _ (omega arith) in
      let ahead = advance-le view (4 + size) (omega arith) in
      rw (short, header, sized, fits, typed, front, reads, ahead, after) refl

  -- A round reads the entry, and the rest stays.
  pub parse_round-chunk :
      (type : ℕ) (payload rest : Bytes) (p q : Parsing)
      → IsPayload type payload
      → parse_entry lstat type payload p ≡ parsed q
      → parse_round lstat (chunk type payload ++ rest) p ≡ parsed (q, rest)
  parse_round-chunk type payload rest p q valid reads =
      let head = put_u32 (length payload + type) in
      round_reads _ payload rest type p q valid
        (rw append_assoc (get_u32-put_u32 (length payload + type) (payload ++ rest) (omega arith)))
        (rw append_assoc (drop-append 4 head (payload ++ rest) (length-put_u32 _)))
        (omega (
          arith,
          length-append (chunk type payload) rest,
          length-append head payload,
          length-put_u32 (length payload + type),
        ))
        reads
