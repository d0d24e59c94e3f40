-- ===== src/Util/Split/Tests.antt =====
-- Some paths, their directories and names.
use shuriken.Util.Split.Named.{basename_split_piece-eq}
use shuriken.Prelude.{◌∷◌, [], ◌≡◌, ◌++◌, replicate, refl}
use shuriken.Util.Split.{basename_split_piece, find_last_nonslash, find_last_slash}

-- "/usr//"
basename_split_piece-usr :
    basename_split_piece (47 ∷ 117 ∷ 115 ∷ 114 ∷ 47 ∷ 47 ∷ []) ≡ (47 ∷ [], 117 ∷ 115 ∷ 114 ∷ [])
unfolding basename_split_piece find_last_nonslash find_last_slash
basename_split_piece-usr = refl

-- "a/": a name with nothing before it keeps its slash.
basename_split_piece-relative : basename_split_piece (97 ∷ 47 ∷ []) ≡ (46 ∷ [], 97 ∷ 47 ∷ [])
unfolding basename_split_piece find_last_nonslash find_last_slash
basename_split_piece-relative = refl

-- "ab/c/"
basename_split_piece-eq_example :
    basename_split_piece (((97 ∷ 98 ∷ []) ++ 47 ∷ 99 ∷ []) ++ replicate 1 47)
    ≡ (97 ∷ 98 ∷ [], 99 ∷ [])
basename_split_piece-eq_example = basename_split_piece-eq (97 ∷ 98 ∷ []) [] 99 1 refl
