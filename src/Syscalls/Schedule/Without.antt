-- ===== src/Syscalls/Schedule/Without.antt =====
-- Lists from which items are taken, for the processes that timers wake.
use mathlib.Core.List.{append_assoc}
use disastr_os_semaphores.Common.{
  ℕ, ◌≡◌, refl, ap, ◌∙◌, Bool-cases, inl, inr, true, List, [], ◌∷◌, ◌++◌, arith, has, ◌==◌,
  if◌then◌else◌, last_or, last_or-append,
}
use disastr_os_semaphores.LinkedList.Seg.{Disjoint}

-- The list without the first `x` in it.
unfoldable pub without : ℕ → List ℕ → List ℕ
without x [] = []
without x (y ∷ ys) = if x == y then ys else y ∷ without x ys

unfoldable pub without_all : List ℕ → List ℕ → List ℕ
without_all [] ys = ys
without_all (x ∷ xs) ys = without_all xs (without x ys)

-- The place of an item.
pub without-split :
    (x : ℕ) (ys : List ℕ)
    → has x ys ≡ true
    → (us vs : List ℕ) × (ys ≡ us ++ x ∷ vs) × (without x ys ≡ us ++ vs)
unfolding without
without-split x [] h = cc
without-split x (y ∷ ys) h = elim (Bool-cases (x == y)) [
  | inl here ↦ let e : x ≡ y = ground (arith, here) in ([], ys, rw e refl, rw here refl)
  | inr later ↦
      let (us, vs, split, rest) = without-split x ys (rw later at h) in
      (y ∷ us, vs, ap (λ zs. y ∷ zs) split, rw (later, rest) refl)
]

pub has-without : (a x : ℕ) (ys : List ℕ) → has a (without x ys) ≡ true → has a ys ≡ true
unfolding without
has-without a x [] h = cc
has-without a x (y ∷ ys) h = elim (Bool-cases (x == y)) [
  | inl here ↦ let i : has a ys ≡ true = rw here at h in ground (arith, i)
  | inr later ↦
      let i : has a (y ∷ without x ys) ≡ true = rw later at h in
      elim (Bool-cases (a == y)) [
        | inl same ↦ rw same refl
        | inr other ↦ rw (other, has-without a x ys (rw other at i)) refl
      ]
]

-- A part of a list is apart from what the list is apart from.
pub Disjoint-part :
    (xs zs ys : List ℕ)
    → ((a : ℕ) → has a xs ≡ true → has a zs ≡ true)
    → Disjoint zs ys
    → Disjoint xs ys
Disjoint-part xs zs ys sub d a i = d a (sub a i)

pub append_snoc : (ws : List ℕ) (p : ℕ) (rs : List ℕ) → (ws ++ p ∷ []) ++ rs ≡ ws ++ p ∷ rs
append_snoc ws p rs = append_assoc ws (p ∷ []) rs

pub last_or-snoc : (d : ℕ) (ws : List ℕ) (p : ℕ) → last_or d (ws ++ p ∷ []) ≡ p
last_or-snoc d ws p = last_or-append d ws (p ∷ []) ∙ refl
