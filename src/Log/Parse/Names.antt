-- ===== src/Log/Parse/Names.antt =====
-- About `parsePath` of persistent_invocation_log.cpp on a path as `writePathEntry` writes it.
use shuriken.Prelude.Assoc.{insert}
use shuriken.Log.Parse.Rounds.{IsPayload}
use shuriken.Log.Parsed.{parsed}
use shuriken.Log.Writer.{padding_bytes}
use shuriken.Log.Parser.{path_size_from, Parsing, parse_path}
use shuriken.Log.Bytes.{Bytes}
use shuriken.Prelude.{
  take-append, ℕ, All, get_or, ◌++◌, ◌<◌, ◌≤◌, replicate, length, ◌∷◌, [], arith, ◌≡◌, ◌+◌,
  get_or-replicate, ap, suc, ◌∙◌, ◌-◌, zero, length-append, ◌^◌, length-replicate, nat_beq, false,
  ◌%◌, take, refl,
}
use shuriken.Log.Data.{LogPath, path_type}
use shuriken.Prelude.{list_eq, nat_eq}

-- What a null terminated text can hold
abbrev pub IsPath : LogPath → Type 0
IsPath path = All (λ b. 0 < b) path

-- A path, its terminator and `padding` zeros
abbrev pub path_payload : LogPath → Bytes
path_payload path = path ++ (0 ∷ [] ++ replicate (padding_bytes (length path + 1)) 0)

get_or-replicate_zero : (n i : ℕ) → get_or {A = ℕ} (replicate n 0) i 0 ≡ 0
get_or-replicate_zero n i = get_or-replicate n i 0

get_or-past :
    (path tail : Bytes) (i : ℕ) → get_or (path ++ tail) (length path + i) 0 ≡ get_or tail i 0
get_or-past [] tail i = ap (λ k. get_or tail k 0) (omega arith)
get_or-past (b ∷ bs) tail i =
    let next : suc (length bs) + i ≡ suc (length bs + i) = omega arith in
    ap (λ k. get_or (b ∷ bs ++ tail) k 0) next ∙ get_or-past bs tail i

get_or-before :
    (path tail : Bytes) (i : ℕ) → IsPath path → i < length path → 0 < get_or (path ++ tail) i 0
get_or-before [] tail i h l = absurd (omega arith)
get_or-before (b ∷ bs) tail zero h l = h.0
get_or-before (b ∷ bs) tail (suc i) h l = get_or-before bs tail i h.1 (omega arith)

module _ (path : LogPath) (h : IsPath path) (zeros : ℕ) where
  abbrev entry : Bytes
  entry = path ++ replicate zeros 0

  zero_at : (i : ℕ) → get_or entry (length path + i) 0 ≡ 0
  zero_at i = get_or-past path (replicate zeros 0) i ∙ get_or-replicate_zero zeros i

  -- The loop stops at the end of the path.
  at_end : (k : ℕ) → path_size_from k entry (length path) ≡ parsed (length path)
  unfolding path_size_from
  at_end zero = ground (arith, get_or-before path (replicate zeros 0) (length path - 1) h)
  at_end (suc k) = ground (arith, get_or-before path (replicate zeros 0) (length path - 1) h)

  path_size_from-entry :
      (m k : ℕ) → m ≤ k → path_size_from k entry (length path + m) ≡ parsed (length path)
  unfolding path_size_from
  path_size_from-entry zero k l = ap (path_size_from k entry) (omega arith) ∙ at_end k
  path_size_from-entry (suc m) zero l = absurd (omega arith)
  path_size_from-entry (suc m) (suc k) l =
      let less : length path + suc m - 1 ≡ length path + m = omega arith in
      let one_less = ap (path_size_from k entry) less ∙ path_size_from-entry m k (omega arith) in
      let zeroed : get_or entry (length path + suc m - 1) 0 ≡ 0 =
        ap (λ i. get_or entry i 0) less ∙ zero_at m in
      ground arith

pub length-path_payload :
    (path : LogPath)
    → length (path_payload path) ≡ length path + 1 + padding_bytes (length path + 1)
length-path_payload path = omega (
  arith,
  length-append path (0 ∷ [] ++ replicate (padding_bytes (length path + 1)) 0),
  length-replicate {A = ℕ} (padding_bytes (length path + 1)) 0,
)

pub path_payload-IsPayload :
    (path : LogPath) → length path + 8 < 2 ^ 32 → IsPayload path_type (path_payload path)
path_payload-IsPayload path h = record {
  aligned = omega (arith, length-path_payload path);
  typed = omega arith;
  small = omega (arith, length-path_payload path);
}

abbrev pub add_path : LogPath → Parsing → Parsing
add_path path p = record p {
  path_ids = insert path (length p.paths_by_id % 2 ^ 32) p.path_ids;
  paths_by_id = p.paths_by_id ++ path ∷ [];
}

pub parse_path-path_payload :
    (path : LogPath) (p : Parsing)
    → IsPath path
    → parse_path (path_payload path) p ≡ parsed (add_path path p)
unfolding parse_path
parse_path-path_payload path p h =
    let pad = padding_bytes (length path + 1) in
    let payload = path_payload path in
    let size : length payload - 1 ≡ length path + pad = omega (arith, length-path_payload path) in
    let some_bytes : nat_beq (length payload) 0 ≡ false =
      let long = length-path_payload path in ground arith in
    let last : get_or payload (length payload - 1) 0 ≡ 0 =
      ap (λ i. get_or payload i 0) size ∙ zero_at path h (suc pad) pad in
    let found : path_size_from 3 payload (length payload - 1) ≡ parsed (length path) =
      ap (path_size_from 3 payload) size
      ∙ path_size_from-entry path h (suc pad) pad 3 (omega arith) in
    let name : take (length path) payload ≡ path = take-append (length path) path _ refl in
    rw (some_bytes, last, found, name) refl
