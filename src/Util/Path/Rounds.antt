-- ===== src/Util/Path/Rounds.antt =====
-- About the loop of `canonicalizePath` of path_operations.cpp: one round for each kind of component.
use shuriken.Util.Path.Components.{
  resolve, is_cons, byte_behind, length-split_component, ends_of_parent, more_pieces, pieces-split,
  same_byte, length-rest_of, dot_component, split_component-ends, drop_one, byte_at-ends,
  parent_component, other_name, pieces-split_component,
}
use mathlib.Core.List.{append_assoc}
use shuriken.Util.Path.{
  split_component, ends_component, copy_component, back_up, rest_of, slash, dot,
  too_many_components, byte_at, canonicalize_loop, is_parent, max_path_components,
}
use shuriken.Prelude.{
  nat_eq, list_eq, refl, List, ℕ, ◌∷◌, length, nat_beq, ◌≡◌, Bool-cases, true, arith, if◌then◌else◌,
  ◌++◌, ◌&&◌, [], drop, false, inl, none, is_empty, inr, ap, ◌||◌, ◌==◌, ◌∙◌, sym, ◌≤◌, suc,
}
use shuriken.Util.Path.States.{
  written, positions, state_of, length-positions, written-slash, finished_of, joined_of, Resolves,
  resolve_rest, back_up-state_of,
}

module _ (fuel : ℕ)
    (again : (src first : List ℕ) (names : List (List ℕ))
      → length src ≤ fuel
      → Resolves fuel src first names)
    (c : ℕ) (cs first : List ℕ) (names : List (List ℕ)) (enough : length cs ≤ fuel) where
  abbrev IsRound : Type 0
  IsRound = Resolves (suc fuel) (c ∷ cs) first names

  further :
      (rest first : List ℕ) (names : List (List ℕ)) (b : ℕ)
      → length rest ≤ fuel
      → ends_component rest ≡ true
      → (is_cons rest ≡ true → b ≡ slash)
      → finished_of (canonicalize_loop fuel (rest_of rest) (state_of b first names))
        ≡ joined_of (resolve first names (more_pieces rest))
  further rest first names b fits ends same =
      resolve_rest fuel b rest first names ends same
        (λ cons. again (rest_of rest) first names (omega (arith, length-rest_of rest)))

  pub dot_round : (nat_beq c dot && ends_component cs) ≡ true → IsRound
  unfolding canonicalize_loop
  dot_round h =
      rw h (further cs first names slash enough (ground arith) (λ cons. refl))
      ∙ sym (
          ap (λ ps. joined_of (resolve first names ps))
            (pieces-split (c ∷ cs) (dot ∷ []) cs (dot_component c cs h)))

  pub slash_round :
      (nat_beq c dot && ends_component cs) ≡ false
      → is_parent (c ∷ cs) ≡ false
      → nat_beq c slash ≡ true
      → IsRound
  unfolding canonicalize_loop
  slash_round h i j = rw (h, i, j) (again cs first names enough)

  abbrev name : List ℕ
  name = (split_component (c ∷ cs)).0

  abbrev rest : List ℕ
  rest = (split_component (c ∷ cs)).1

  copy_component-state_of :
      copy_component (c ∷ cs) (state_of slash first names)
      ≡ state_of (byte_at rest) first (name ∷ names)
  unfolding copy_component
  copy_component-state_of =
      ap
        (λ out. record {
          out = out;
          components = length (written slash first names) ∷ positions first names;
        })
        (append_assoc (written slash first names) name (byte_at rest ∷ []))
      ∙ ap
          (λ out. record {
            out = out ++ (name ++ byte_at rest ∷ []);
            components = length out ∷ positions first names;
          })
          (written-slash first names)

  resolve-name :
      (is_empty name || name == dot ∷ []) ≡ false
      → (name == dot ∷ dot ∷ []) ≡ false
      → resolve first names (name ∷ more_pieces rest) ≡ (
          if nat_beq (length names) max_path_components
          then none
          else resolve first (name ∷ names) (more_pieces rest))
  resolve-name h i = rw (h, i) refl

  rest_fits : nat_beq c slash ≡ false → length rest ≤ fuel
  unfolding split_component
  rest_fits h = ground (arith, length-split_component cs)

  pub name_round :
      (nat_beq c dot && ends_component cs) ≡ false
      → is_parent (c ∷ cs) ≡ false
      → nat_beq c slash ≡ false
      → IsRound
  unfolding canonicalize_loop
  name_round h i j =
      let tests = other_name c cs h i j in
      loops
      ∙ limited
      ∙ sym (
          ap (λ ps. joined_of (resolve first names ps)) (pieces-split_component (c ∷ cs))
          ∙ ap joined_of (resolve-name tests.0 tests.1))
    where
      loops :
          finished_of (canonicalize_loop (suc fuel) (c ∷ cs) (state_of slash first names))
          ≡ finished_of (
              if nat_beq (length (positions first names)) max_path_components
              then too_many_components
              else canonicalize_loop fuel
                  (rest_of rest)
                  (copy_component (c ∷ cs) (state_of slash first names)))
      loops = rw (h, i, j) refl

      limited :
          finished_of (
            if nat_beq (length (positions first names)) max_path_components
            then too_many_components
            else canonicalize_loop fuel
                (rest_of rest)
                (copy_component (c ∷ cs) (state_of slash first names)))
          ≡ joined_of (
              if nat_beq (length names) max_path_components
              then none
              else resolve first (name ∷ names) (more_pieces rest))
      limited =
          rw (length-positions first names, copy_component-state_of)
            (elim (Bool-cases (nat_beq (length names) max_path_components)) [
              | inl full ↦ rw full refl
              | inr room ↦ rw room (
                  further rest first (name ∷ names) (byte_at rest) (rest_fits j)
                    (split_component-ends (c ∷ cs))
                    (byte_at-ends rest (split_component-ends (c ∷ cs))))
            ])

pub parent_round :
    (fuel : ℕ)
    (again : (src first : List ℕ) (names : List (List ℕ))
      → length src ≤ fuel
      → Resolves fuel src first names)
    (c d : ℕ) (rest first : List ℕ) (names : List (List ℕ))
    → length (d ∷ rest) ≤ fuel
    → is_parent (c ∷ d ∷ rest) ≡ true
    → Resolves (suc fuel) (c ∷ d ∷ rest) first names
unfolding canonicalize_loop
parent_round fuel again c d rest first names enough h =
    loops
    ∙ ap (λ st. finished_of (canonicalize_loop fuel (rest_of rest) st))
        (back_up-state_of rest first names ends)
    ∙ backed names
    ∙ sym (
        ap (λ ps. joined_of (resolve first names ps))
          (pieces-split (c ∷ d ∷ rest) (dot ∷ dot ∷ []) rest (parent_component c d rest h)))
  where
    ends : ends_component rest ≡ true
    ends = ends_of_parent c d rest h

    loops :
        finished_of (canonicalize_loop (suc fuel) (c ∷ d ∷ rest) (state_of slash first names))
        ≡ finished_of
            (canonicalize_loop fuel (rest_of rest) (back_up rest (state_of slash first names)))
    loops =
        let no_dot : (nat_beq c dot && ends_component (d ∷ rest)) ≡ false =
          ground (arith, same_byte d dot) in
        rw (no_dot, h)
          (ap
            (λ src.
              finished_of (canonicalize_loop fuel src (back_up rest (state_of slash first names))))
            (drop_one rest))

    backed :
        (names : List (List ℕ))
        → finished_of (
            canonicalize_loop fuel (rest_of rest) (
              if is_empty names
              then state_of slash (first ++ dot ∷ dot ∷ byte_behind (more_pieces rest) ∷ []) []
              else state_of slash first (drop 1 names)))
          ≡ joined_of (resolve first names ((dot ∷ dot ∷ []) ∷ more_pieces rest))
    backed [] =
        further fuel again c (d ∷ rest) first names enough rest
          (first ++ dot ∷ dot ∷ byte_behind (more_pieces rest) ∷ []) [] slash (omega arith) ends
          (λ cons. refl)
    backed (n ∷ ns) =
        further fuel again c (d ∷ rest) first names enough rest first ns slash (omega arith) ends
          (λ cons. refl)
