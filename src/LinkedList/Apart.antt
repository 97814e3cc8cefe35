-- ===== src/LinkedList/Apart.antt =====
-- Lists that share no address.
use disastr_os_semaphores.Common.{
  ℕ, ◌≡◌, ◌≢◌, refl, ◌∙◌, Bool-cases, inl, inr, false, List, [], ◌∷◌, ◌++◌, arith, has, has-append,
  ==-ne,
}
use disastr_os_semaphores.LinkedList.{Links}
use disastr_os_semaphores.LinkedList.Seg.{Disjoint, SameOutside}

module _ (a : ℕ) where
  pub has_tail : (x : ℕ) (xs : List ℕ) → has a (x ∷ xs) ≡ false → has a xs ≡ false
  has_tail x xs o = ground arith

  pub has_head : (x : ℕ) (xs : List ℕ) → has a (x ∷ xs) ≡ false → a ≢ x
  has_head x xs o = ground arith

  pub not-has-cons : (x : ℕ) (xs : List ℕ) → a ≢ x → has a xs ≡ false → has a (x ∷ xs) ≡ false
  not-has-cons x xs ne o = rw (==-ne a x ne) o

  pub not-has-append :
      (xs ys : List ℕ) → has a xs ≡ false → has a ys ≡ false → has a (xs ++ ys) ≡ false
  not-has-append xs ys o o' = ground (arith, has-append a xs ys)

pub Disjoint-sym : (xs ys : List ℕ) → Disjoint xs ys → Disjoint ys xs
Disjoint-sym xs ys d a i = elim (Bool-cases (has a xs)) [
  | inl j ↦ ground (arith, d a j)
  | inr n ↦ n
]

pub Disjoint-cons :
    (x : ℕ) (xs ys : List ℕ) → has x ys ≡ false → Disjoint xs ys → Disjoint (x ∷ xs) ys
Disjoint-cons x xs ys o d a i = ground (arith, d a)

pub Disjoint-cons_right :
    (y : ℕ) (xs ys : List ℕ) → has y xs ≡ false → Disjoint xs ys → Disjoint xs (y ∷ ys)
Disjoint-cons_right y xs ys o d =
    Disjoint-sym (y ∷ ys) xs (Disjoint-cons y ys xs o (Disjoint-sym xs ys d))

pub Disjoint-append : (xs ys zs : List ℕ) → Disjoint xs zs → Disjoint ys zs → Disjoint (xs ++ ys) zs
Disjoint-append xs ys zs d e a i = ground (arith, has-append a xs ys, d a, e a)

pub Disjoint-nil : (xs : List ℕ) → Disjoint xs []
Disjoint-nil xs a i = refl

pub Disjoint-nil_left : (ys : List ℕ) → Disjoint [] ys
Disjoint-nil_left ys a i = ground arith

pub Disjoint-tail : (x : ℕ) (xs ys : List ℕ) → Disjoint (x ∷ xs) ys → Disjoint xs ys
Disjoint-tail x xs ys d a i = d a (ground arith)

-- A part of a list is apart from what the whole is apart from.
pub Disjoint-without :
    (xs : List ℕ) (y : ℕ) (ys zs : List ℕ) → Disjoint (xs ++ y ∷ ys) zs → Disjoint (xs ++ ys) zs
Disjoint-without xs y ys zs d a i =
    d a (ground (arith, has-append a xs ys, has-append a xs (y ∷ ys)))

-- An address that is not in a list is not in it without one of the items.
pub has-without :
    (a x : ℕ) (us vs : List ℕ) → has a (us ++ x ∷ vs) ≡ false → has a (us ++ vs) ≡ false
has-without a x us vs o = ground (arith, has-append a us vs, has-append a us (x ∷ vs))

pub Disjoint-member :
    (xs : List ℕ) (y : ℕ) (ys zs : List ℕ) → Disjoint (xs ++ y ∷ ys) zs → has y zs ≡ false
Disjoint-member xs y ys zs d = d y (ground (arith, has-append y xs (y ∷ ys)))

-- An address outside `x ∷ xs ++ ys` is none of these.
pub SameOutside-trans :
    (xs ys zs : List ℕ) (l m n : Links)
    → ((a : ℕ) → has a zs ≡ false → (has a xs ≡ false) × (has a ys ≡ false))
    → SameOutside xs l m
    → SameOutside ys m n
    → SameOutside zs l n
SameOutside-trans xs ys zs l m n sub s t a o = t a (sub a o).1 ∙ s a (sub a o).0
