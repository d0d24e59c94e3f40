-- ===== src/Util/Split/Shorter.antt =====
-- How long the parent of a path is: `dirname` of path_operations.cpp.
use shuriken.Util.Split.{
  dirname, find_last_slash, basename_split_piece, find_last_slash_to, find_last_nonslash,
}
use shuriken.Log.Data.{LogPath}
use shuriken.Prelude.{
  list_eq, nat_eq, ℕ, List, Option, ◌∷◌, [], length, take, ◌≡◌, some, ◌≤◌, arith, ◌<◌, suc, ◌+◌,
  zero, none, Option-cases, ◌⊎◌, inl, inr, Bool-cases, nat_beq, refl,
}
use shuriken.Fs.FileId.{file_id_eq}

abbrev pub dot_path : LogPath
dot_path = 46 ∷ []

abbrev pub slash_path : LogPath
slash_path = 47 ∷ []

find_last_slash_below : (path : LogPath) (i : ℕ) → find_last_slash path ≡ some i → i < length path
unfolding find_last_slash
find_last_slash_below [] i h = absurd (cc)
find_last_slash_below (c ∷ cs) i h = elim (Option-cases (find_last_slash cs)) [
  | inl none_below ↦ ground arith
  | inr (j, found) ↦ let inner = find_last_slash_below cs j found in ground arith
]

length-take_at_most {ℓ} : {A : Type ℓ} (n : ℕ) (xs : List A) → length (take n xs) ≤ length xs
length-take_at_most zero xs = omega arith
length-take_at_most (suc n) [] = omega arith
length-take_at_most (suc n) (x ∷ xs) = omega (arith, length-take_at_most n xs)

length-take_bound {ℓ} : {A : Type ℓ} (n : ℕ) (xs : List A) → length (take n xs) ≤ n
length-take_bound zero xs = omega arith
length-take_bound (suc n) [] = omega arith
length-take_bound (suc n) (x ∷ xs) = omega (arith, length-take_bound n xs)

find_last_slash_to_below :
    (path : LogPath) (last : Option ℕ) (i : ℕ)
    → find_last_slash_to path last ≡ some i
    → i < length path
find_last_slash_to_below path none i h = find_last_slash_below path i h
find_last_slash_to_below path (some j) i h =
    omega (arith, find_last_slash_below (take (j + 1) path) i h, length-take_at_most (j + 1) path)

-- The parent is shorter, or the current or the root directory.
pub shorter_dirname :
    (path : LogPath)
    → (length (dirname path) < length path)
      ⊎ ((dirname path ≡ dot_path) ⊎ (dirname path ≡ slash_path))
unfolding dirname basename_split_piece
shorter_dirname path = elim (Option-cases (find_last_slash_to path (find_last_nonslash path))) [
  | inl not_found ↦ rw (not_found, dirname, basename_split_piece) (inr (inl refl))
  | inr (at, found) ↦
      rw (found, dirname, basename_split_piece)
        (elim (Option-cases (find_last_nonslash path)) [
          | inl all_slashes ↦ rw (all_slashes, dirname, basename_split_piece) (inr (inr refl))
          | inr (last, e) ↦
              rw (e, dirname, basename_split_piece)
                (elim (Bool-cases (nat_beq at 0)) [
                  | inl at_start ↦ rw (at_start, dirname, basename_split_piece) (inr (inr refl))
                  | inr later ↦
                      rw (later, dirname, basename_split_piece)
                        (inl (
                          omega (
                            arith,
                            length-take_bound at path,
                            find_last_slash_to_below path (find_last_nonslash path) at found,
                          )))
                ])
        ])
]
