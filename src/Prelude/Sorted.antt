-- ===== src/Prelude/Sorted.antt =====
-- `std::sort`, `std::unique` and `std::binary_search` on numbers, and the orders that they need.
use Prim.Native.Nat.{ℕ, ◌≤◌, ◌<◌, suc}
use native.Mathlib.Nat.{le_trans}
use mathlib.Core.Path.{◌∙◌, ◌≡◌, refl, ap}
use mathlib.Core.Logic.{inl, inr}
use mathlib.Core.Bool.{Bool, false, ◌||◌}
use mathlib.Core.List.{List, [], ◌∷◌}
use native.Mathlib.Omega.{arith}
use shuriken.Prelude.Tests.{leb, ltb, if◌then◌else◌, Bool-cases, leb→le}
use shuriken.Prelude.Lists.{All}
use shuriken.Prelude.Keys.{elem, nat_eq, ◌==◌}

abbrev pub Sorted : List ℕ → Type 0
Sorted [] = Unit
Sorted (x ∷ xs) = All (λ y. x ≤ y) xs × Sorted xs

-- Sorted, and free of duplicates.
abbrev pub Ascending : List ℕ → Type 0
Ascending [] = Unit
Ascending (x ∷ xs) = All (λ y. x < y) xs × Ascending xs

insert_sorted : ℕ → List ℕ → List ℕ
insert_sorted x [] = x ∷ []
insert_sorted x (y ∷ ys) = if leb x y then x ∷ y ∷ ys else y ∷ insert_sorted x ys

unfoldable pub sort : List ℕ → List ℕ
unfolding insert_sorted
sort [] = []
sort (x ∷ xs) = insert_sorted x (sort xs)

unique_from : ℕ → List ℕ → List ℕ
unique_from x [] = x ∷ []
unique_from x (y ∷ ys) =
    let same = unique_from x ys in let next = unique_from y ys in if x == y then same else x ∷ next

-- The first of each run of equal values stays.
unfoldable pub unique : List ℕ → List ℕ
unfolding unique_from
unique [] = []
unique (x ∷ xs) = unique_from x xs

-- The first value that is not below `v` is `v`: on a sorted range, what halving finds.
unfoldable pub binary_search : List ℕ → ℕ → Bool
binary_search [] v = false
binary_search (x ∷ xs) v = if ltb x v then binary_search xs v else x == v

pub All-weaken {ℓ κ ι} :
    {A : Type ℓ} (P : A → Type κ) (Q : A → Type ι) (xs : List A)
    → ((x : A) → P x → Q x)
    → All P xs
    → All Q xs
All-weaken P Q [] f h = tt
All-weaken P Q (x ∷ xs) f h = (f x h.0, All-weaken P Q xs f h.1)

module _ (P : ℕ → Type 0) where
  All-insert_sorted : (x : ℕ) (xs : List ℕ) → P x → All P xs → All P (insert_sorted x xs)
  unfolding insert_sorted
  All-insert_sorted x [] h a = (h, tt)
  All-insert_sorted x (y ∷ ys) h a = elim (Bool-cases (leb x y)) [
    | inl e ↦ rw e (h, a)
    | inr e ↦ rw e (a.0, All-insert_sorted x ys h a.1)
  ]

insert_sorted-Sorted : (x : ℕ) (xs : List ℕ) → Sorted xs → Sorted (insert_sorted x xs)
unfolding insert_sorted
insert_sorted-Sorted x [] s = (tt, tt)
insert_sorted-Sorted x (y ∷ ys) s = elim (Bool-cases (leb x y)) [
  | inl e ↦ rw e ((leb→le x y e, All-weaken _ _ ys (λ z h. le_trans (leb→le x y e) h) s.0), s)
  | inr e ↦ rw e (All-insert_sorted _ x ys (ground arith) s.0, insert_sorted-Sorted x ys s.1)
]

pub sort-Sorted : (xs : List ℕ) → Sorted (sort xs)
unfolding sort
sort-Sorted [] = tt
sort-Sorted (x ∷ xs) = insert_sorted-Sorted x (sort xs) (sort-Sorted xs)

elem-insert_sorted : (a x : ℕ) (xs : List ℕ) → elem a (insert_sorted x xs) ≡ (x == a || elem a xs)
unfolding insert_sorted
elem-insert_sorted a x [] = refl
elem-insert_sorted a x (y ∷ ys) = ground (arith, elem-insert_sorted a x ys)

pub elem-sort : (a : ℕ) (xs : List ℕ) → elem a (sort xs) ≡ elem a xs
unfolding sort
elem-sort a [] = refl
elem-sort a (x ∷ xs) = elem-insert_sorted a x (sort xs) ∙ ap (λ b. x == a || b) (elem-sort a xs)

elem-unique_from : (a x : ℕ) (xs : List ℕ) → elem a (unique_from x xs) ≡ (x == a || elem a xs)
unfolding unique_from
elem-unique_from a x [] = refl
elem-unique_from a x (y ∷ ys) = ground (arith, elem-unique_from a x ys, elem-unique_from a y ys)

pub elem-unique : (a : ℕ) (xs : List ℕ) → elem a (unique xs) ≡ elem a xs
unfolding unique
elem-unique a [] = refl
elem-unique a (x ∷ xs) = elem-unique_from a x xs

All-unique_from : (P : ℕ → Type 0) (x : ℕ) (xs : List ℕ) → P x → All P xs → All P (unique_from x xs)
unfolding unique_from
All-unique_from P x [] h a = (h, tt)
All-unique_from P x (y ∷ ys) h a = elim (Bool-cases (x == y)) [
  | inl e ↦ rw e (All-unique_from P x ys h a.1)
  | inr e ↦ rw e (h, All-unique_from P y ys a.0 a.1)
]

unique_from-Ascending : (x : ℕ) (xs : List ℕ) → Sorted (x ∷ xs) → Ascending (unique_from x xs)
unfolding unique_from
unique_from-Ascending x [] s = (tt, tt)
unique_from-Ascending x (y ∷ ys) s = elim (Bool-cases (x == y)) [
  | inl e ↦ rw e (unique_from-Ascending x ys (s.0.1, s.1.1))
  | inr e ↦
      let lt : x < y = let le = s.0.0 in ground arith in
      rw e (
        All-unique_from _ y ys lt (All-weaken _ _ ys (λ z h. le_trans lt h) s.1.0),
        unique_from-Ascending y ys s.1,
      )
]

pub unique-Ascending : (xs : List ℕ) → Sorted xs → Ascending (unique xs)
unfolding unique
unique-Ascending [] s = tt
unique-Ascending (x ∷ xs) s = unique_from-Ascending x xs s

-- A value below all of a list is not in it.
pub elem-below : (a : ℕ) (xs : List ℕ) → All (λ y. a < y) xs → elem a xs ≡ false
elem-below a [] h = refl
elem-below a (x ∷ xs) h = let lt = h.0 in ground (arith, elem-below a xs h.1)

le_at : {x v : ℕ} → ltb x v ≡ false → (x == v) ≡ false → suc v ≤ suc x
le_at e q = ground arith

pub binary_search-Ascending : (xs : List ℕ) (v : ℕ) → Ascending xs → binary_search xs v ≡ elem v xs
unfolding binary_search
binary_search-Ascending [] v s = refl
binary_search-Ascending (x ∷ xs) v s = elim (Bool-cases (ltb x v)) [
  | inl e ↦ ground (arith, binary_search-Ascending xs v s.1)
  | inr e ↦
      let past : (x == v) ≡ false → elem v xs ≡ false =
        λ q. elem-below v xs (All-weaken _ _ xs (λ z h. le_trans (le_at e q) h) s.0) in
      ground arith
]
