-- ===== src/Util/Path/Normal.antt =====
-- About `canonicalizePath` of path_operations.cpp: from its loop to the whole path.
use shuriken.Util.Path.Components.{normal_path, pieces, with_first, resolve, path_result}
use shuriken.Util.Path.Rounds.{parent_round, dot_round, slash_round, name_round}
use shuriken.Util.Path.States.{Resolves, joined_of, finished_of, finish_path-joined}
use shuriken.Util.Path.{
  ends_component, PathState, PathResult, canonical, slash, dot, too_many_components, no_fuel,
  canonicalize_loop, is_parent, canonicalize, canonicalize_path, finish_path, or_dot,
}
use shuriken.Prelude.{
  nat_eq, list_eq, refl, zero, List, ℕ, ◌∷◌, Option, length, nat_beq, ◌≡◌, some, Bool-cases, true,
  arith, ◌&&◌, [], inl, none, inr, ap, ◌∙◌, ◌≤◌, suc,
}

-- The loop over a path does what its components come to.
canonicalize_loop-Resolves :
    (fuel : ℕ) (src first : List ℕ) (names : List (List ℕ))
    → length src ≤ fuel
    → Resolves fuel src first names
unfolding canonicalize_loop
canonicalize_loop-Resolves fuel [] first names enough =
    ap canonical (finish_path-joined slash first names)
canonicalize_loop-Resolves zero (c ∷ cs) first names enough = absurd (omega arith)
canonicalize_loop-Resolves (suc fuel) (c ∷ cs) first names enough =
    let again = canonicalize_loop-Resolves fuel in
    elim (Bool-cases (nat_beq c dot && ends_component cs)) [
      | inl is_dot ↦ dot_round fuel again c cs first names (omega arith) is_dot
      | inr not_dot ↦ elim (Bool-cases (is_parent (c ∷ cs))) [
        | inl parent ↦ parent_of cs again (omega arith) parent
        | inr not_parent ↦ elim (Bool-cases (nat_beq c slash)) [
          | inl is_slash ↦
              slash_round fuel again c cs first names (omega arith) not_dot not_parent is_slash
          | inr named ↦
              name_round fuel again c cs first names (omega arith) not_dot not_parent named
        ]
      ]
    ]
  where
    parent_of :
        (cs : List ℕ)
        → ((src first : List ℕ) (names : List (List ℕ))
            → length src ≤ fuel
            → Resolves fuel src first names)
        → length cs ≤ fuel
        → is_parent (c ∷ cs) ≡ true
        → Resolves (suc fuel) (c ∷ cs) first names
    parent_of [] again fits h = absurd (cc)
    parent_of (d ∷ rest) again fits h = parent_round fuel again c d rest first names fits h

abbrev dotted : PathResult (List ℕ) → PathResult (List ℕ)
dotted (canonical r) = canonical (or_dot r)
dotted too_many_components = too_many_components
dotted no_fuel = no_fuel

dotted-joined_of : (r : Option (List ℕ × List (List ℕ))) → dotted (joined_of r) ≡ path_result r
dotted-joined_of none = refl
dotted-joined_of (some (first, names)) = refl

dotted-finished_of :
    (path : List ℕ) → canonicalize_path path ≡ dotted (finished_of (canonicalize path))
unfolding canonicalize_path
dotted-finished_of path = go (canonicalize path)
  where
    go :
        (o : PathResult PathState)
        → (elim o [
          | canonical st ↦ canonical (or_dot (finish_path st))
          | too_many_components ↦ too_many_components
          | no_fuel ↦ no_fuel
        ])
          ≡ dotted (finished_of o)
    go (canonical st) = refl
    go too_many_components = refl
    go no_fuel = refl

canonicalize-joined_of :
    (path : List ℕ) → finished_of (canonicalize path) ≡ joined_of (normal_path path)
unfolding canonicalize
canonicalize-joined_of [] = ap canonical (finish_path-joined slash [] [])
canonicalize-joined_of (c ∷ path) = elim (Bool-cases (nat_beq c slash)) [
  | inl e ↦ rw e (canonicalize_loop-Resolves (length path) path (slash ∷ []) [] (omega arith))
  | inr e ↦
      let names : pieces (c ∷ path) ≡ with_first c (pieces path) = rw e refl in
      let resolved =
        canonicalize_loop-Resolves (suc (length path)) (c ∷ path) [] [] (omega arith) in
      rw (e, canonicalize) (resolved ∙ ap (λ ps. joined_of (resolve [] [] ps)) names)
]

-- `canonicalizePath` gives the normal form of a path, which is that of its components: an empty
-- component and a '.' are left out, a '..' takes away the name before it, or is kept where there is
-- none, with the byte behind it, and what is left is joined by slashes, after the slash that the path
-- may start with; '.' stands for nothing left. It throws exactly where a name comes on top of 62 others
-- that were not taken away before.
pub canonicalize_path-normal_path :
    (path : List ℕ) → canonicalize_path path ≡ path_result (normal_path path)
canonicalize_path-normal_path path =
    dotted-finished_of path
    ∙ ap dotted (canonicalize-joined_of path)
    ∙ dotted-joined_of (normal_path path)
