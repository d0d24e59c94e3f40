-- ===== src/Util/Split.antt =====
-- src/shk-util/src/path_operations.cpp: `basenameSplitPiece` and `dirname`. A path is its bytes, and a
-- position that is not found (`npos`) is `none`.
pub mod Named
pub mod Shorter
mod Tests
use shuriken.Prelude.{
  List, ℕ, Option, none, ◌∷◌, some, take, [], ◌+◌, if◌then◌else◌, nat_beq, ◌-◌, drop,
}

-- `find_last_not_of('/')`
unfoldable pub find_last_nonslash : List ℕ → Option ℕ
find_last_nonslash [] = none
find_last_nonslash (c ∷ cs) = elim (find_last_nonslash cs) [
  | some i ↦ some (i + 1)
  | none ↦ if nat_beq c 47 then none else some 0
]

-- `find_last_of('/')`
unfoldable pub find_last_slash : List ℕ → Option ℕ
find_last_slash [] = none
find_last_slash (c ∷ cs) = elim (find_last_slash cs) [
  | some i ↦ some (i + 1)
  | none ↦ if nat_beq c 47 then some 0 else none
]

-- `find_last_of('/', pos)` searches up to the position, and everything for `npos`.
abbrev pub find_last_slash_to : List ℕ → Option ℕ → Option ℕ
find_last_slash_to path none = find_last_slash path
find_last_slash_to path (some i) = find_last_slash (take (i + 1) path)

unfoldable pub basename_split_piece : List ℕ → List ℕ × List ℕ
unfolding find_last_slash find_last_nonslash
basename_split_piece path =
    let last_nonslash = find_last_nonslash path in
    elim (find_last_slash_to path last_nonslash) [
      | none ↦ (46 ∷ [], path)
      | some slash_pos ↦ elim last_nonslash [
        | none ↦ (47 ∷ [], 47 ∷ [])
        | some last ↦ (
          if nat_beq slash_pos 0 then 47 ∷ [] else take slash_pos path,
          take (last - slash_pos) (drop (slash_pos + 1) path),
        )
      ]
    ]

unfoldable pub dirname : List ℕ → List ℕ
unfolding basename_split_piece
dirname path = (basename_split_piece path).0
