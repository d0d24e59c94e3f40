-- ===== src/Log/Bytes.antt =====
-- src/shk/src/log/persistent_invocation_log.cpp: how values lie in the bytes of the log. Numbers are
-- written as they lie in memory, lowest byte first; a hash is its 20 bytes, which the number that stands
-- for it has highest first. A `Fingerprint` has the layout of a 64 bit machine: size, inode, 32 bit mode
-- and its padding, time, a byte for `racily_clean`, the hash, and the padding to 56 bytes. Padding is
-- written as zeros and is never looked at.
pub mod RoundTrip
use shuriken.Fs.Fingerprint.{Fingerprint}
use shuriken.Fs.FileSystem.{Hash}
use shuriken.Prelude.{
  List, ℕ, Bool, [], drop, ◌∷◌, suc, if◌then◌else◌, ◌++◌, not, ◌%◌, ◌+◌, ◌/◌, ◌*◌, zero, nat_beq,
  ◌^◌,
}

abbrev pub Bytes : Type 0
Bytes = List ℕ

-- The lowest `k` bytes of a number
unfoldable pub put_le : ℕ → ℕ → Bytes
put_le zero v = []
put_le (suc k) v = v % 256 ∷ put_le k (v / 256)

unfoldable pub get_le : ℕ → Bytes → ℕ
get_le zero bs = 0
get_le (suc k) [] = 0
get_le (suc k) (b ∷ bs) = b + 256 * get_le k bs

unfoldable pub put_be : ℕ → ℕ → Bytes
put_be zero v = []
put_be (suc k) v = v / 256 ^ k ∷ put_be k (v % 256 ^ k)

unfoldable pub get_be : ℕ → ℕ → Bytes → ℕ
get_be zero acc bs = acc
get_be (suc k) acc [] = acc
get_be (suc k) acc (b ∷ bs) = get_be k (acc * 256 + b) bs

abbrev pub u32_size : ℕ
u32_size = 4

abbrev pub hash_size : ℕ
hash_size = 20

abbrev pub fingerprint_size : ℕ
fingerprint_size = 56

unfoldable pub put_u32 : ℕ → Bytes
put_u32 v = put_le 4 v

unfoldable pub get_u32 : Bytes → ℕ
get_u32 bs = get_le 4 bs

unfoldable pub put_hash : Hash → Bytes
put_hash h = put_be 20 h

unfoldable pub get_hash : Bytes → Hash
get_hash bs = get_be 20 0 bs

abbrev pub put_bool : Bool → Bytes
put_bool b = (if b then 1 else 0) ∷ []

unfoldable pub put_fingerprint : Fingerprint → Bytes
put_fingerprint fp =
    put_le 8 fp.stat.size
    ++ (put_le 8 fp.stat.ino
        ++ (put_le 4 fp.stat.mode
            ++ (put_le 4 0
                ++ (put_le 8 fp.stat.mtime
                    ++ (put_bool fp.racily_clean ++ (put_hash fp.hash ++ put_le 3 0))))))

unfoldable pub get_fingerprint : Bytes → Fingerprint
get_fingerprint bs = record {
  stat = record {
    size = get_le 8 bs;
    ino = get_le 8 (drop 8 bs);
    mode = get_le 4 (drop 8 (drop 8 bs));
    mtime = get_le 8 (drop 4 (drop 4 (drop 8 (drop 8 bs))));
  };
  racily_clean = not (nat_beq (get_le 1 (drop 8 (drop 4 (drop 4 (drop 8 (drop 8 bs)))))) 0);
  hash = get_hash (drop 1 (drop 8 (drop 4 (drop 4 (drop 8 (drop 8 bs))))));
}

-- Arrays of numbers and of hashes
unfoldable pub put_u32s : List ℕ → Bytes
put_u32s [] = []
put_u32s (v ∷ vs) = put_u32 v ++ put_u32s vs

unfoldable pub get_u32s : ℕ → Bytes → List ℕ
get_u32s zero bs = []
get_u32s (suc n) bs = get_u32 bs ∷ get_u32s n (drop 4 bs)

unfoldable pub put_hashes : List Hash → Bytes
put_hashes [] = []
put_hashes (h ∷ hs) = put_hash h ++ put_hashes hs

unfoldable pub get_hashes : ℕ → Bytes → List Hash
get_hashes zero bs = []
get_hashes (suc n) bs = get_hash bs ∷ get_hashes n (drop 20 bs)
