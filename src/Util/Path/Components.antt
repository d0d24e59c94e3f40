-- ===== src/Util/Path/Components.antt =====
-- The components of a path, and what `canonicalizePath` of path_operations.cpp makes of them.

use shuriken.Util.Path.{
  split_component, ends_component, PathResult, rest_of, canonical, slash, dot, too_many_components,
  byte_at, is_parent, or_dot, max_path_components,
}
use shuriken.Prelude.{
  nat_eq, list_eq, refl, Bool, List, ℕ, ◌∷◌, Option, length, nat_beq, ◌≡◌, some, Bool-cases, true,
  arith, if◌then◌else◌, ◌++◌, ◌&&◌, [], drop, false, inl, none, is_empty, inr, ap, ◌||◌, ◌==◌,
  nat_beq_iff, ◌∙◌, sym, ◌≤◌, ◌+◌,
}

abbrev pub with_first : ℕ → List (List ℕ) → List (List ℕ)
with_first c [] = (c ∷ []) ∷ []
with_first c (name ∷ names) = (c ∷ name) ∷ names

-- The components of a path, the empty ones between slashes too
abbrev pub pieces : List ℕ → List (List ℕ)
pieces [] = [] ∷ []
pieces (c ∷ cs) = let rest = pieces cs in if nat_beq c slash then [] ∷ rest else with_first c rest

-- Names with a slash behind each, after what stands first; the last of them comes first in the list.
abbrev pub with_slashes : List ℕ → List (List ℕ) → List ℕ
with_slashes first [] = first
with_slashes first (name ∷ names) = with_slashes first names ++ (name ++ slash ∷ [])

abbrev pub joined : List ℕ → List (List ℕ) → List ℕ
joined first [] = first
joined first (name ∷ names) = with_slashes first names ++ name

-- The byte behind a component: the zero byte that ends the path, or a slash
abbrev pub byte_behind : List (List ℕ) → ℕ
byte_behind [] = 0
byte_behind (p ∷ ps) = slash

-- What the components come to: a '.' or an empty one is nothing, a '..' takes away the name before it, or
-- is kept with the byte behind it where there is none, and there are at most 62 names at a time.
abbrev pub resolve : List ℕ → List (List ℕ) → List (List ℕ) → Option (List ℕ × List (List ℕ))
resolve first names [] = some (first, names)
resolve first names (p ∷ ps) =
    let same = resolve first names ps in
    let kept = resolve (first ++ dot ∷ dot ∷ byte_behind ps ∷ []) names ps in
    let removed = resolve first (drop 1 names) ps in
    let further = resolve first (p ∷ names) ps in
    if is_empty p || p == dot ∷ []
    then same
    else if p == dot ∷ dot ∷ []
    then (if is_empty names then kept else removed)
    else if nat_beq (length names) max_path_components
    then none
    else further

-- A slash at the start of a path stays; an empty path is '.'.
abbrev pub normal_path : List ℕ → Option (List ℕ × List (List ℕ))
normal_path [] = some ([], [])
normal_path (c ∷ path) =
    if nat_beq c slash
    then resolve (slash ∷ []) [] (pieces path)
    else resolve [] [] (pieces (c ∷ path))

abbrev pub path_result : Option (List ℕ × List (List ℕ)) → PathResult (List ℕ)
path_result none = too_many_components
path_result (some (first, names)) = canonical (or_dot (joined first names))

abbrev pub more_pieces : List ℕ → List (List ℕ)
more_pieces [] = []
more_pieces (c ∷ cs) = pieces cs

pub length-split_component :
    (src : List ℕ) → length (split_component src).0 + length (split_component src).1 ≡ length src
unfolding split_component
length-split_component [] = refl
length-split_component (c ∷ cs) = ground (arith, length-split_component cs)

pub split_component-ends : (src : List ℕ) → ends_component (split_component src).1 ≡ true
unfolding split_component
split_component-ends [] = refl
split_component-ends (c ∷ cs) = elim (Bool-cases (nat_beq c slash)) [
  | inl e ↦ rw e e
  | inr e ↦ rw e (split_component-ends cs)
]

pub pieces-split_component :
    (src : List ℕ) → pieces src ≡ (split_component src).0 ∷ more_pieces (split_component src).1
unfolding split_component
pieces-split_component [] = refl
pieces-split_component (c ∷ cs) = elim (Bool-cases (nat_beq c slash)) [
  | inl e ↦ rw e refl
  | inr e ↦ rw e (ap (with_first c) (pieces-split_component cs))
]

pub same_byte : (c d : ℕ) → nat_beq c d ≡ true → c ≡ d
same_byte c d h = ground (arith, nat_beq_iff c d)

pub byte_behind-more_pieces :
    (rest : List ℕ) → ends_component rest ≡ true → byte_behind (more_pieces rest) ≡ byte_at rest
byte_behind-more_pieces [] h = refl
byte_behind-more_pieces (c ∷ cs) h =
    ap byte_behind (pieces-split_component cs) ∙ sym (same_byte c slash h)

pub other_name :
    (c : ℕ) (cs : List ℕ)
    → (nat_beq c dot && ends_component cs) ≡ false
    → is_parent (c ∷ cs) ≡ false
    → nat_beq c slash ≡ false
    → ((is_empty (split_component (c ∷ cs)).0 || (split_component (c ∷ cs)).0 == dot ∷ []) ≡ false)
      × (((split_component (c ∷ cs)).0 == dot ∷ dot ∷ []) ≡ false)
unfolding split_component
other_name c [] h i j = ground arith
other_name c (d ∷ []) h i j = ground arith
other_name c (d ∷ e ∷ es) h i j = ground arith

pub dot_component :
    (c : ℕ) (cs : List ℕ)
    → (nat_beq c dot && ends_component cs) ≡ true
    → split_component (c ∷ cs) ≡ (dot ∷ [], cs)
unfolding split_component
dot_component c [] h = ground (arith, same_byte c dot)
dot_component c (d ∷ ds) h = ground (arith, same_byte c dot)

pub parent_component :
    (c d : ℕ) (rest : List ℕ)
    → is_parent (c ∷ d ∷ rest) ≡ true
    → split_component (c ∷ d ∷ rest) ≡ (dot ∷ dot ∷ [], rest)
unfolding split_component
parent_component c d [] h = ground (arith, same_byte c dot, same_byte d dot)
parent_component c d (e ∷ es) h = ground (arith, same_byte c dot, same_byte d dot)

abbrev pub is_cons : List ℕ → Bool
is_cons [] = false
is_cons (c ∷ cs) = true

pub pieces-split :
    (src name rest : List ℕ)
    → split_component src ≡ (name, rest)
    → pieces src ≡ name ∷ more_pieces rest
pieces-split src name rest e =
    pieces-split_component src ∙ ap (λ (r : List ℕ × List ℕ). r.0 ∷ more_pieces r.1) e

pub length-rest_of : (src : List ℕ) → length (rest_of src) ≤ length src
length-rest_of [] = omega arith
length-rest_of (c ∷ cs) = omega arith

pub ends_of_parent :
    (c d : ℕ) (rest : List ℕ) → is_parent (c ∷ d ∷ rest) ≡ true → ends_component rest ≡ true
ends_of_parent c d rest h = ground arith

pub byte_at-ends :
    (rest : List ℕ) → ends_component rest ≡ true → is_cons rest ≡ true → byte_at rest ≡ slash
byte_at-ends [] h i = absurd (cc)
byte_at-ends (c ∷ cs) h i = same_byte c slash h

pub drop_one : (src : List ℕ) → drop 1 src ≡ rest_of src
drop_one [] = refl
drop_one (c ∷ cs) = refl
