-- ===== src/Log/Bytes/RoundTrip.antt =====
-- About the bytes of values in the log: their numbers, and what is read back.
use shuriken.Log.Bytes.{
  put_le, put_be, put_u32, put_hash, get_le, get_be, get_u32, get_hash, Bytes, put_fingerprint,
  put_u32s, put_hashes, get_fingerprint, get_u32s, get_hashes, put_bool,
}
use shuriken.Fs.Fingerprint.{Fingerprint}
use shuriken.Fs.FileSystem.{Hash}
use shuriken.Prelude.{
  length-append, drop-append, ℕ, length, List, ◌<◌, ◌^◌, ◌≡◌, suc, ◌++◌, ap, ◌∷◌, arith, ◌*◌, ◌/◌,
  ◌%◌, ◌+◌, zero, [], refl, ◌∙◌, All, Bool, not, nat_beq, true, false,
}
use native.Mathlib.Nat.{pow-succ', one-le-pow, mod-lt, div-add-mod}
use mathlib.Core.List.{append_assoc}

abbrev pub IsU32 : ℕ → Type 0
IsU32 v = v < 2 ^ 32

abbrev pub IsHash : Hash → Type 0
IsHash h = h < 256 ^ 20

-- The fields fit the types of the struct's members.
pub record IsStored (fp : Fingerprint) : Type 0 where
  pub size_fits : fp.stat.size < 2 ^ 64
  pub ino_fits : fp.stat.ino < 2 ^ 64
  pub mode_fits : fp.stat.mode < 2 ^ 32
  pub mtime_fits : fp.stat.mtime < 2 ^ 64
  pub hash_fits : IsHash fp.hash

pub length-put_le : (k v : ℕ) → length (put_le k v) ≡ k
unfolding put_le
length-put_le zero v = refl
length-put_le (suc k) v = ap suc (length-put_le k (v / 256))

length-put_be : (k v : ℕ) → length (put_be k v) ≡ k
unfolding put_be
length-put_be zero v = refl
length-put_be (suc k) v = ap suc (length-put_be k (v % 256 ^ k))

pub length-put_u32 : (v : ℕ) → length (put_u32 v) ≡ 4
unfolding put_u32
length-put_u32 v = length-put_le 4 v

pub length-put_hash : (h : Hash) → length (put_hash h) ≡ 20
unfolding put_hash
length-put_hash h = length-put_be 20 h

get_le-put_le : (k v : ℕ) (rest : Bytes) → v < 256 ^ k → get_le k (put_le k v ++ rest) ≡ v
unfolding put_le get_le
get_le-put_le zero v rest h = omega arith
get_le-put_le (suc k) v rest h =
    let top : v < 256 * 256 ^ k = rw (pow-succ') at h in
    let ih = get_le-put_le k (v / 256) rest (omega arith) in
    rw ih (omega (arith, div-add-mod v 256))

-- One digit more: the part above `m` and the part below.
next_digit : (v acc m x : ℕ) → x ≡ (acc * 256 + v / m) * m + v % m → x ≡ acc * (256 * m) + v
next_digit v acc m x h = grind (arith, div-add-mod v m)

get_be-put_be :
    (k v acc : ℕ) (rest : Bytes)
    → v < 256 ^ k
    → get_be k acc (put_be k v ++ rest) ≡ acc * 256 ^ k + v
unfolding put_be get_be
get_be-put_be zero v acc rest h = omega arith
get_be-put_be (suc k) v acc rest h =
    let ih =
      get_be-put_be k (v % 256 ^ k) (acc * 256 + v / 256 ^ k) rest
        (mod-lt v (one-le-pow k 256 (omega arith))) in
    rw (pow-succ' 256 k) (next_digit v acc (256 ^ k) _ ih)

pub get_u32-put_u32 : (v : ℕ) (rest : Bytes) → IsU32 v → get_u32 (put_u32 v ++ rest) ≡ v
unfolding put_u32 get_u32
get_u32-put_u32 v rest h = get_le-put_le 4 v rest h

pub get_hash-put_hash : (h : Hash) (rest : Bytes) → IsHash h → get_hash (put_hash h ++ rest) ≡ h
unfolding put_hash get_hash
get_hash-put_hash h rest fits = get_be-put_be 20 h 0 rest fits ∙ omega arith

pub length-put_fingerprint : (fp : Fingerprint) → length (put_fingerprint fp) ≡ 56
unfolding put_fingerprint
length-put_fingerprint fp = simp (length-append, length-put_le, length-put_hash)

bool_back : (b : Bool) (rest : Bytes) → not (nat_beq (get_le 1 (put_bool b ++ rest)) 0) ≡ b
unfolding get_le
bool_back true rest = refl
bool_back false rest = refl

pub get_fingerprint-put_fingerprint :
    (fp : Fingerprint) (rest : Bytes)
    → IsStored fp
    → get_fingerprint (put_fingerprint fp ++ rest) ≡ fp
unfolding put_fingerprint get_fingerprint
get_fingerprint-put_fingerprint fp rest h =
    simp (append_assoc, drop-append, length-put_le)
      (rw
        (
          get_le-put_le 8 _ _ h.size_fits,
          get_le-put_le 8 _ _ h.ino_fits,
          get_le-put_le 4 _ _ h.mode_fits,
          get_le-put_le 8 _ _ h.mtime_fits,
          get_hash-put_hash _ (put_le 3 0 ++ rest) h.hash_fits,
        )
        (ap (λ b. record fp { racily_clean = b }) (bool_back fp.racily_clean _)))

pub length-put_u32s : (vs : List ℕ) → length (put_u32s vs) ≡ 4 * length vs
unfolding put_u32s
length-put_u32s [] = omega arith
length-put_u32s (v ∷ vs) =
    omega (arith, length-append (put_u32 v) (put_u32s vs), length-put_u32 v, length-put_u32s vs)

pub length-put_hashes : (hs : List Hash) → length (put_hashes hs) ≡ 20 * length hs
unfolding put_hashes
length-put_hashes [] = omega arith
length-put_hashes (h ∷ hs) =
    omega
      (arith, length-append (put_hash h) (put_hashes hs), length-put_hash h, length-put_hashes hs)

pub get_u32s-put_u32s :
    (vs : List ℕ) (rest : Bytes) → All IsU32 vs → get_u32s (length vs) (put_u32s vs ++ rest) ≡ vs
unfolding put_u32s get_u32s
get_u32s-put_u32s [] rest h = refl
get_u32s-put_u32s (v ∷ vs) rest h =
    let ih = get_u32s-put_u32s vs rest h.1 in
    rw
      (
        append_assoc,
        get_u32-put_u32 v (put_u32s vs ++ rest) h.0,
        drop-append 4 _ _ (length-put_u32 v),
        ih,
      )
      refl

pub get_hashes-put_hashes :
    (hs : List Hash) (rest : Bytes)
    → All IsHash hs
    → get_hashes (length hs) (put_hashes hs ++ rest) ≡ hs
unfolding put_hashes get_hashes
get_hashes-put_hashes [] rest h = refl
get_hashes-put_hashes (x ∷ hs) rest h =
    let ih = get_hashes-put_hashes hs rest h.1 in
    rw
      (
        append_assoc,
        get_hash-put_hash x (put_hashes hs ++ rest) h.0,
        drop-append 20 _ _ (length-put_hash x),
        ih,
      )
      refl
