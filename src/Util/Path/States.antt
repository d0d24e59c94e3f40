-- ===== src/Util/Path/States.antt =====
-- About `canonicalizePath` of path_operations.cpp: the states of its loop, each that of some names.
use shuriken.Util.Path.Components.{
  with_slashes, joined, resolve, is_cons, byte_behind, pieces, more_pieces, byte_behind-more_pieces,
}
use mathlib.Core.List.{append_assoc}
use shuriken.Util.Path.{
  ends_component, PathState, PathResult, back_up, rest_of, canonical, slash, dot,
  too_many_components, no_fuel, canonicalize_loop, finish_path,
}
use shuriken.Prelude.{
  take-append, nat_eq, list_eq, refl, List, ℕ, ◌∷◌, Option, length, ◌≡◌, some, true, arith,
  if◌then◌else◌, ◌++◌, [], drop, none, is_empty, ap, ◌∙◌, ◌-◌, sym, length-append, take,
}

-- What the loop has written for some names, with a byte behind the last of them
abbrev pub written : ℕ → List ℕ → List (List ℕ) → List ℕ
written b first [] = first
written b first (name ∷ names) = with_slashes first names ++ (name ++ b ∷ [])

abbrev pub positions : List ℕ → List (List ℕ) → List ℕ
positions first [] = []
positions first (name ∷ names) = length (with_slashes first names) ∷ positions first names

abbrev pub state_of : ℕ → List ℕ → List (List ℕ) → PathState
state_of b first names = record { out = written b first names; components = positions first names }

pub length-positions :
    (first : List ℕ) (names : List (List ℕ)) → length (positions first names) ≡ length names
length-positions first [] = refl
length-positions first (name ∷ names) = omega (arith, length-positions first names)

pub written-slash :
    (first : List ℕ) (names : List (List ℕ)) → written slash first names ≡ with_slashes first names
written-slash first [] = refl
written-slash first (name ∷ names) = refl

pub finish_path-joined :
    (b : ℕ) (first : List ℕ) (names : List (List ℕ))
    → finish_path (state_of b first names) ≡ joined first names
unfolding finish_path
finish_path-joined b first [] = refl
finish_path-joined b first (name ∷ names) =
    let start = with_slashes first names in
    let size : length (start ++ (name ++ b ∷ [])) - 1 ≡ length (start ++ name) = omega (
      arith,
      length-append start (name ++ b ∷ []),
      length-append name (b ∷ []),
      length-append start name,
    ) in
    ap (λ k. take k (start ++ (name ++ b ∷ []))) size
    ∙ ap (take (length (start ++ name))) (sym (append_assoc start name (b ∷ [])))
    ∙ take-append (length (start ++ name)) (start ++ name) (b ∷ []) refl

abbrev pub finished_of : PathResult PathState → PathResult (List ℕ)
finished_of (canonical st) = canonical (finish_path st)
finished_of too_many_components = too_many_components
finished_of no_fuel = no_fuel

abbrev pub joined_of : Option (List ℕ × List (List ℕ)) → PathResult (List ℕ)
joined_of none = too_many_components
joined_of (some (first, names)) = canonical (joined first names)

-- What the loop does with a state for some names
abbrev pub Resolves : ℕ → List ℕ → List ℕ → List (List ℕ) → Type 0
Resolves fuel src first names =
    finished_of (canonicalize_loop fuel src (state_of slash first names))
    ≡ joined_of (resolve first names (pieces src))

-- The rest of the loop, after a component
pub resolve_rest :
    (fuel b : ℕ) (rest first : List ℕ) (names : List (List ℕ))
    → ends_component rest ≡ true
    → (is_cons rest ≡ true → b ≡ slash)
    → (is_cons rest ≡ true → Resolves fuel (rest_of rest) first names)
    → finished_of (canonicalize_loop fuel (rest_of rest) (state_of b first names))
      ≡ joined_of (resolve first names (more_pieces rest))
unfolding canonicalize_loop
resolve_rest fuel b [] first names h same again = ap canonical (finish_path-joined b first names)
resolve_rest fuel b (c ∷ cs) first names h same again =
    ap (λ d. finished_of (canonicalize_loop fuel cs (state_of d first names))) (same refl)
    ∙ again refl

-- A '..' in front of a rest
pub back_up-state_of :
    (rest first : List ℕ) (names : List (List ℕ))
    → ends_component rest ≡ true
    → back_up rest (state_of slash first names) ≡ (
        if is_empty names
        then state_of slash (first ++ dot ∷ dot ∷ byte_behind (more_pieces rest) ∷ []) []
        else state_of slash first (drop 1 names))
unfolding back_up
back_up-state_of rest first [] h =
    ap (λ b. state_of slash (first ++ dot ∷ dot ∷ b ∷ []) []) (sym (byte_behind-more_pieces rest h))
back_up-state_of rest first (name ∷ names) h =
    ap (λ out. record { out = out; components = positions first names })
      (take-append (length (with_slashes first names)) (with_slashes first names)
          (name ++ slash ∷ []) refl
        ∙ sym (written-slash first names))
