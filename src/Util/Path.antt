-- ===== src/Util/Path.antt =====
-- src/shk-util/src/path_operations.cpp: `canonicalizePath`, on a system other than Windows. A path is
-- its bytes. The code rewrites the path in place; the model reads from `src` and writes to `out`,
-- since no byte is written at a position that is still to be read. Reading at
-- the end of the path gives the zero byte that ends it.
pub mod Components
pub mod States
pub mod Rounds
pub mod Normal
mod Tests
use shuriken.Prelude.{
  ℕ, List, ◌∷◌, [], Bool, take, suc, if◌then◌else◌, ◌++◌, nat_beq, true, length, drop, ◌&&◌, ◌-◌,
  false, zero,
}

abbrev slash : ℕ
slash = 47

abbrev dot : ℕ
dot = 46

abbrev max_path_components : ℕ
max_path_components = 62

-- `throw PathError` is `too_many_components`.
pub data PathResult {ℓ} (A : Type ℓ) : Type ℓ where
  canonical : A → PathResult A
  too_many_components : PathResult A
  no_fuel : PathResult A

-- The bytes up to `dst`, and the positions of the components, the last of them first
pub record PathState : Type 0 where
  pub out : List ℕ
  pub components : List ℕ

-- The bytes of a component, and the rest
pub split_component : List ℕ → List ℕ × List ℕ
split_component [] = ([], [])
split_component (c ∷ cs) =
    let (name, rest) = split_component cs in
    if nat_beq c slash then ([], c ∷ cs) else (c ∷ name, rest)

-- The first byte of what is left
abbrev byte_at : List ℕ → ℕ
byte_at [] = 0
byte_at (c ∷ cs) = c

-- At the end, or at a slash
abbrev ends_component : List ℕ → Bool
ends_component [] = true
ends_component (c ∷ cs) = nat_beq c slash

abbrev rest_of : List ℕ → List ℕ
rest_of [] = []
rest_of (c ∷ cs) = cs

-- Whether two dots stand here, and then the component ends
abbrev is_parent : List ℕ → Bool
is_parent (c ∷ d ∷ rest) = nat_beq c dot && nat_beq d dot && ends_component rest
is_parent _ = false

-- A '..' component: back up if possible, and else copy it with the byte that follows.
pub back_up : List ℕ → PathState → PathState
back_up rest st = elim st.components [
  | [] ↦ record st { out = st.out ++ dot ∷ dot ∷ byte_at rest ∷ [] }
  | k ∷ ks ↦ record { out = take k st.out; components = ks }
]

-- Any other component is copied with the byte that follows.
pub copy_component : List ℕ → PathState → PathState
copy_component src st =
    let (name, rest) = split_component src in
    record { out = st.out ++ name ++ byte_at rest ∷ []; components = length st.out ∷ st.components }

-- The loop `while (src < end)`
pub canonicalize_loop : ℕ → List ℕ → PathState → PathResult PathState
canonicalize_loop fuel [] st = canonical st
canonicalize_loop zero (c ∷ src) st = no_fuel
canonicalize_loop (suc fuel) (c ∷ src) st =
    let after_dot = canonicalize_loop fuel (rest_of src) st in
    let after_dots = canonicalize_loop fuel (drop 2 src) (back_up (rest_of src) st) in
    let after_slash = canonicalize_loop fuel src st in
    let after_name =
      canonicalize_loop fuel (rest_of (split_component (c ∷ src)).1)
        (copy_component (c ∷ src) st) in
    if nat_beq c dot && ends_component src
    then after_dot
    else if is_parent (c ∷ src)
    then after_dots
    else if nat_beq c slash
    then after_slash
    else if nat_beq (length st.components) max_path_components
    then too_many_components
    else after_name

-- The new length, and the bytes up to it
pub finish_path : PathState → List ℕ
finish_path st = elim st.components [ [] ↦ st.out | k ∷ ks ↦ take (length st.out - 1) st.out ]

abbrev at_root : PathState
at_root = record { out = slash ∷ []; components = [] }

abbrev at_start : PathState
at_start = record { out = []; components = [] }

-- The loop from the first byte on. Each round reads a byte, so the length is enough fuel.
pub canonicalize : List ℕ → PathResult PathState
canonicalize [] = canonical at_start
canonicalize (c ∷ path) =
    if nat_beq c slash
    then canonicalize_loop (length path) path at_root
    else canonicalize_loop (suc (length path)) (c ∷ path) at_start

abbrev or_dot : List ℕ → List ℕ
or_dot [] = dot ∷ []
or_dot (c ∷ cs) = c ∷ cs

-- `canonicalizePath` of a string
pub canonicalize_path : List ℕ → PathResult (List ℕ)
canonicalize_path path = elim (canonicalize path) [
  | canonical st ↦ canonical (or_dot (finish_path st))
  | too_many_components ↦ too_many_components
  | no_fuel ↦ no_fuel
]
