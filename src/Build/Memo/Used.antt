-- ===== src/Build/Memo/Used.antt =====
-- About `Invocations::fingerprintsFor` of invocations.cpp.
use shuriken.Build.Memo.{
  flag_all, flag_entries, flagged, flagged_from, fingerprints_for, find_used_fingerprints,
}
use shuriken.Build.Data.{Entry, Invocations}
use shuriken.Prelude.{
  List, ◌∷◌, ℕ, Bool, elem, false, length, ◌≡◌, ◌<◌, set, get_or, arith, leb, true, ◌⊎◌, ◌||◌,
  length-set, replicate, inl, nat_eq, ◌∙◌, ◌&&◌, [], Bool-cases, length-replicate, ltb, inr, refl,
  get_or-replicate, ◌==◌, ◌+◌, get_or-set_self, suc, ap, zero, get_or-set_ne,
}

abbrev pub IsIn : {A : Type 0} → A → List A → Type 0
IsIn a [] = ⊥
IsIn a (x ∷ xs) = (x ≡ a) ⊎ IsIn a xs

-- Whether an entry uses a fingerprint
abbrev pub uses : Entry → ℕ → Bool
uses e i = elem i e.output_files || elem i e.input_files

abbrev any_uses : List Entry → ℕ → Bool
any_uses [] i = false
any_uses (e ∷ es) i = uses e i || any_uses es i

abbrev any_share_uses : List (List Entry) → ℕ → Bool
any_share_uses [] i = false
any_share_uses (es ∷ rest) i = any_uses es i || any_share_uses rest i

length-flag_all : (is : List ℕ) (flags : List Bool) → length (flag_all is flags) ≡ length flags
unfolding flag_all
length-flag_all [] flags = refl
length-flag_all (i ∷ is) flags = length-flag_all is (set flags i true) ∙ length-set flags i true

get_or-flag_all :
    (is : List ℕ) (flags : List Bool) (i : ℕ)
    → i < length flags
    → get_or (flag_all is flags) i false ≡ (elem i is || get_or flags i false)
unfolding flag_all
get_or-flag_all [] flags i h = refl
get_or-flag_all (j ∷ is) flags i h =
    let rest = get_or-flag_all is (set flags j true) i (omega (arith, length-set flags j true)) in
    elim (Bool-cases (j == i)) [
      | inl e ↦
          let same : j ≡ i = ground arith in
          let here = get_or-set_self flags j true false (rw same h) in
          ground (arith, rest, ap (λ k. get_or (set flags j true) k false) same)
      | inr e ↦ ground (arith, rest, get_or-set_ne flags j i true false (ground arith))
    ]

get_or-flag_entries :
    (es : List Entry) (flags : List Bool) (i : ℕ)
    → i < length flags
    → get_or (flag_entries es flags) i false ≡ (any_uses es i || get_or flags i false)
unfolding flag_entries
get_or-flag_entries [] flags i h = refl
get_or-flag_entries (e ∷ es) flags i h =
    let outputs = flag_all e.output_files flags in
    let size = length-flag_all e.output_files flags in
    let both = flag_all e.input_files outputs in
    ground (
      arith,
      get_or-flag_entries es both i (omega (arith, size, length-flag_all e.input_files outputs)),
      get_or-flag_all e.input_files outputs i (omega (arith, size)),
      get_or-flag_all e.output_files flags i h,
    )

flagged-find_used_fingerprints :
    (size : ℕ) (shares : List (List Entry)) (i : ℕ)
    → i < size
    → flagged (find_used_fingerprints size shares) i ≡ any_share_uses shares i
unfolding flagged find_used_fingerprints
flagged-find_used_fingerprints size [] i h = refl
flagged-find_used_fingerprints size (es ∷ rest) i h = ground (
  arith,
  flagged-find_used_fingerprints size rest i h,
  get_or-flag_entries es (replicate size false) i (omega (arith, length-replicate size false)),
  get_or-replicate size i false,
)

elem-flagged_from :
    (used : List (List Bool)) (k n i : ℕ)
    → elem i (flagged_from used k n) ≡ (leb k i && ltb i (k + n) && flagged used i)
unfolding flagged_from
elem-flagged_from used k zero i = ground arith
elem-flagged_from used k (suc n) i = elim (Bool-cases (k == i)) [
  | inl e ↦
      let same : k ≡ i = ground arith in
      rw same (ground (arith, elem-flagged_from used (i + 1) n i))
  | inr e ↦ ground (arith, elem-flagged_from used (k + 1) n i)
]

any_uses-IsIn :
    (es : List Entry) (e : Entry) (i : ℕ) → IsIn e es → uses e i ≡ true → any_uses es i ≡ true
any_uses-IsIn [] e i h u = absurd h
any_uses-IsIn (x ∷ es) e i (inl same) u = rw same (rw u refl)
any_uses-IsIn (x ∷ es) e i (inr h) u = ground (arith, any_uses-IsIn es e i h u)

any_share_uses-IsIn :
    (shares : List (List Entry)) (es : List Entry) (e : Entry) (i : ℕ)
    → IsIn es shares
    → IsIn e es
    → uses e i ≡ true
    → any_share_uses shares i ≡ true
any_share_uses-IsIn [] es e i s h u = absurd s
any_share_uses-IsIn (x ∷ rest) es e i (inl same) h u =
    rw same (ground (arith, any_uses-IsIn es e i h u))
any_share_uses-IsIn (x ∷ rest) es e i (inr s) h u =
    ground (arith, any_share_uses-IsIn rest es e i s h u)

pub elem-fingerprints_for :
    (invocations : Invocations) (shares : List (List Entry)) (es : List Entry) (e : Entry) (i : ℕ)
    → IsIn es shares
    → IsIn e es
    → uses e i ≡ true
    → i < length invocations.fingerprints
    → elem i (fingerprints_for invocations shares) ≡ true
unfolding fingerprints_for
elem-fingerprints_for invocations shares es e i s h u lt =
    let size = length invocations.fingerprints in
    ground (
      arith,
      elem-flagged_from (find_used_fingerprints size shares) 0 size i,
      flagged-find_used_fingerprints size shares i lt,
      any_share_uses-IsIn shares es e i s h u,
    )
