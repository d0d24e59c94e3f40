-- ===== src/Util/Split/Named.antt =====
-- About `basenameSplitPiece` of path_operations.cpp, on a directory, a name and slashes.
use shuriken.Util.Split.{find_last_nonslash, find_last_slash, basename_split_piece}
use shuriken.Prelude.{
  List, ℕ, Bool, take, drop, replicate, ◌∷◌, ◌≡◌, true, length, none, some, not, arith, suc, ◌++◌,
  nat_beq, ap, ◌+◌, [], zero, ◌&&◌, refl, if◌then◌else◌, is_empty, length-append, ◌∙◌, ◌-◌,
  List-cases, inl, inr,
}

abbrev pub no_slash : List ℕ → Bool
no_slash [] = true
no_slash (c ∷ cs) = not (nat_beq c 47) && no_slash cs

take-append : (xs ys : List ℕ) → take (length xs) (xs ++ ys) ≡ xs
take-append [] ys = refl
take-append (x ∷ xs) ys = ap (λ zs. x ∷ zs) (take-append xs ys)

take-append_append : (xs ys zs : List ℕ) → take (length xs) ((xs ++ ys) ++ zs) ≡ xs
take-append_append [] ys zs = refl
take-append_append (x ∷ xs) ys zs = ap (λ ws. x ∷ ws) (take-append_append xs ys zs)

drop-append_cons :
    (xs ys zs : List ℕ) (y : ℕ) → drop (suc (length xs)) ((xs ++ y ∷ ys) ++ zs) ≡ ys ++ zs
drop-append_cons [] ys zs y = refl
drop-append_cons (x ∷ xs) ys zs y = drop-append_cons xs ys zs y

find_last_nonslash-slashes : (n : ℕ) → find_last_nonslash (replicate n 47) ≡ none
unfolding find_last_nonslash
find_last_nonslash-slashes zero = refl
find_last_nonslash-slashes (suc n) = ground (arith, find_last_nonslash-slashes n)

-- The last byte of a name that is followed by slashes
find_last_nonslash-name :
    (base : List ℕ) (c n : ℕ)
    → no_slash (c ∷ base) ≡ true
    → find_last_nonslash ((c ∷ base) ++ replicate n 47) ≡ some (length base)
unfolding find_last_nonslash
find_last_nonslash-name [] c n h = ground (arith, find_last_nonslash-slashes n)
find_last_nonslash-name (d ∷ base) c n h =
    ground (arith, find_last_nonslash-name base d n (ground arith))

find_last_nonslash-path :
    (dir base : List ℕ) (c n : ℕ)
    → no_slash (c ∷ base) ≡ true
    → find_last_nonslash ((dir ++ 47 ∷ c ∷ base) ++ replicate n 47)
      ≡ some (length dir + (length base + 1))
unfolding find_last_nonslash
find_last_nonslash-path [] base c n h = ground (arith, find_last_nonslash-name base c n h)
find_last_nonslash-path (x ∷ dir) base c n h =
    ground (arith, find_last_nonslash-path dir base c n h)

find_last_slash-name : (base : List ℕ) → no_slash base ≡ true → find_last_slash base ≡ none
unfolding find_last_slash
find_last_slash-name [] h = refl
find_last_slash-name (c ∷ base) h = ground (arith, find_last_slash-name base (ground arith))

find_last_slash-append :
    (dir base : List ℕ)
    → no_slash base ≡ true
    → find_last_slash (dir ++ 47 ∷ base) ≡ some (length dir)
unfolding find_last_slash
find_last_slash-append [] base h = ground (arith, find_last_slash-name base h)
find_last_slash-append (x ∷ dir) base h = ground (arith, find_last_slash-append dir base h)

-- The file name and the directory of a path: of a directory, a slash, a name that is not empty and has
-- no slash, and any number of slashes, the name is the second part, and the directory is the first as
-- it stands, with any slashes at its end, or a slash where it is empty.
pub basename_split_piece-eq :
    (dir base : List ℕ) (c n : ℕ)
    → no_slash (c ∷ base) ≡ true
    → basename_split_piece ((dir ++ 47 ∷ c ∷ base) ++ replicate n 47)
      ≡ (if is_empty dir then 47 ∷ [] else dir, c ∷ base)
unfolding basename_split_piece
basename_split_piece-eq dir base c n h =
    let name = c ∷ base in
    let slashes : List ℕ = replicate n 47 in
    let whole = dir ++ 47 ∷ name in
    let path = whole ++ slashes in
    let last = length dir + (length base + 1) in
    let nonslash = find_last_nonslash-path dir base c n h in
    let size : last + 1 ≡ length whole = omega (arith, length-append dir (47 ∷ name)) in
    let up_to : take (last + 1) path ≡ whole =
      ap (λ k. take k path) size ∙ take-append whole slashes in
    let slash : find_last_slash (take (last + 1) path) ≡ some (length dir) =
      ap find_last_slash up_to ∙ find_last_slash-append dir name h in
    let first : take (length dir) path ≡ dir = take-append_append dir (47 ∷ name) slashes in
    let next : length dir + 1 ≡ suc (length dir) = omega arith in
    let after : drop (length dir + 1) path ≡ name ++ slashes =
      ap (λ k. drop k path) next ∙ drop-append_cons dir name slashes 47 in
    let width : last - length dir ≡ length name = omega arith in
    let second : take (last - length dir) (drop (length dir + 1) path) ≡ name =
      ap (λ k. take k (drop (length dir + 1) path)) width
      ∙ ap (take (length name)) after
      ∙ take-append name slashes in
    elim (List-cases dir) [
      | inl e ↦ ground (arith, e, nonslash, slash, first, second)
      | inr (x, xs, e) ↦ ground (arith, e, nonslash, slash, first, second)
    ]
