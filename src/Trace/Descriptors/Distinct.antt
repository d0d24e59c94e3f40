-- ===== src/Trace/Descriptors/Distinct.antt =====
-- About the maps of file_descriptor_memo.cpp from descriptors to their information.
use mathlib.Core.Path.{subst}
use shuriken.Prelude.Assoc.{erase, insert, lookup, lookup-erase, lookup-insert}
use shuriken.Prelude.{
  ℕ, Option, List, elem, ◌∷◌, Bool, ◌≡◌, none, Bool-cases, false, if◌then◌else◌, [], arith, some,
  nat_eq, ◌==◌, inl, inr, refl,
}
use shuriken.Trace.Descriptors.{ProcessInfo, erase_fds, fds_to_close, FdInfo}

abbrev pub IsDistinct : ProcessInfo → Type 0
IsDistinct [] = Unit
IsDistinct ((k, i) ∷ m) = (lookup k m ≡ none) × IsDistinct m

pub insert-IsDistinct :
    (k : ℕ) (i : FdInfo) (m : ProcessInfo) → IsDistinct m → IsDistinct (insert k i m)
insert-IsDistinct k i [] h = (refl, tt)
insert-IsDistinct k i ((j, x) ∷ m) (n, h) = elim (Bool-cases (j == k)) [
  | inl e ↦ let same : j ≡ k = ground arith in rw (e, IsDistinct) (rw (← same) n, h)
  | inr e ↦ rw (e, IsDistinct) (ground (arith, lookup-insert k j i m), insert-IsDistinct k i m h)
]

pub erase-IsDistinct : (k : ℕ) (m : ProcessInfo) → IsDistinct m → IsDistinct (erase k m)
erase-IsDistinct k [] h = tt
erase-IsDistinct k ((j, x) ∷ m) (n, h) = elim (Bool-cases (j == k)) [
  | inl e ↦ rw e (erase-IsDistinct k m h)
  | inr e ↦ rw (e, IsDistinct) (ground (arith, lookup-erase k j m), erase-IsDistinct k m h)
]

pub erase_fds-IsDistinct :
    (fds : List ℕ) (m : ProcessInfo) → IsDistinct m → IsDistinct (erase_fds fds m)
unfolding erase_fds
erase_fds-IsDistinct [] m h = h
erase_fds-IsDistinct (fd ∷ fds) m h =
    erase_fds-IsDistinct fds (erase fd m) (erase-IsDistinct fd m h)

pub lookup-erase_fds :
    (fds : List ℕ) (m : ProcessInfo) (fd : ℕ)
    → lookup fd (erase_fds fds m) ≡ (if elem fd fds then none else lookup fd m)
unfolding erase_fds
lookup-erase_fds [] m fd = refl
lookup-erase_fds (k ∷ fds) m fd =
    ground (arith, lookup-erase_fds fds (erase k m) fd, lookup-erase k fd m)

-- The flag of a descriptor that is looked up
abbrev pub closes : Option FdInfo → Bool
closes none = false
closes (some i) = i.cloexec

pub elem-fds_to_close :
    (m : ProcessInfo) (fd : ℕ) → IsDistinct m → elem fd (fds_to_close m) ≡ closes (lookup fd m)
unfolding fds_to_close
elem-fds_to_close [] fd h = refl
elem-fds_to_close ((k, i) ∷ m) fd (n, h) = elim (Bool-cases (k == fd)) [
  | inl e ↦
      let same : k ≡ fd = ground arith in
      let none_left : lookup fd m ≡ none = subst (λ x. lookup x m ≡ none) same n in
      ground (arith, elem-fds_to_close m fd h, none_left)
  | inr e ↦ ground (arith, elem-fds_to_close m fd h)
]
