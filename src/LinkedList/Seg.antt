-- ===== src/LinkedList/Seg.antt =====
-- What a list of items stands for: the sequence of its addresses.
use disastr_os_semaphores.Common.{
  ℕ, ◌^◌, ◌<◌, ◌≡◌, refl, ◌≢◌, true, false, List, [], ◌∷◌, ◌++◌, arith, pos, length, has, first_or,
  last_or, has-append, ◌∙◌,
}
use disastr_os_semaphores.LinkedList.{item_of, ListHead, Links}

-- The addresses are linked both ways, are distinct and not NULL; `p` stands before the first and
-- `q` behind the last.
abbrev pub Seg : Links → (p q : ℕ) → List ℕ → Type 0
Seg l p q [] = Unit {0}
Seg l p q (x ∷ xs) = (x ≢ 0) × (l x ≡ item_of p (first_or q xs)) × (has x xs ≡ false) × Seg l x q xs

-- The head `h` over the items `l` is the list of the addresses `xs`.
pub record IsList (l : Links) (h : ListHead) (xs : List ℕ) : Type 0 where
  pub first : h.first ≡ first_or 0 xs
  pub last : h.last ≡ last_or 0 xs
  pub size : h.size ≡ pos (length xs)
  pub small : length xs < 2 ^ 31
  pub seg : Seg l 0 0 xs

-- No address is in both lists.
abbrev pub Disjoint : List ℕ → List ℕ → Type 0
Disjoint xs ys = (a : ℕ) → has a xs ≡ true → has a ys ≡ false

-- The items differ at most at the addresses of `xs`.
abbrev pub SameOutside : List ℕ → Links → Links → Type 0
SameOutside xs l m = (a : ℕ) → has a xs ≡ false → m a ≡ l a

pub Seg-frame :
    (xs : List ℕ) (l m : Links) (p q : ℕ)
    → Seg l p q xs
    → ((a : ℕ) → has a xs ≡ true → m a ≡ l a)
    → Seg m p q xs
Seg-frame [] l m p q s same = tt
Seg-frame (x ∷ xs) l m p q s same =
    (s.0, same x (ground arith) ∙ s.1, s.2, Seg-frame xs l m x q s.3 λ a i. same a (ground arith))

-- A list that shares no address with the changed ones is the list that it was.
pub IsList-frame :
    {l m : Links} {h : ListHead} (xs ys : List ℕ)
    → IsList l h ys
    → SameOutside xs l m
    → Disjoint ys xs
    → IsList m h ys
IsList-frame {l} {m} xs ys is same apart = record {
  first = is.first;
  last = is.last;
  size = is.size;
  small = is.small;
  seg = Seg-frame ys l m 0 0 is.seg λ a i. same a (apart a i);
}

pub last_or-ne : (l : Links) (p q x : ℕ) (xs : List ℕ) → Seg l p q (x ∷ xs) → last_or x xs ≢ 0
last_or-ne l p q x [] s = s.0
last_or-ne l p q x (y ∷ ys) s = last_or-ne l x q y ys s.3

pub not-has-zero : (l : Links) (p q : ℕ) (xs : List ℕ) → Seg l p q xs → has 0 xs ≡ false
not-has-zero l p q [] s = refl
not-has-zero l p q (x ∷ xs) s = ground (arith, not-has-zero l x q xs s.3)

pub ne_of_has : (a b : ℕ) (xs : List ℕ) → has a xs ≡ true → has b xs ≡ false → a ≢ b
ne_of_has a b xs h k e = ground arith

-- Splitting a segment and joining two.
module _ (l : Links) where
  pub Seg-left : (p q : ℕ) (ys zs : List ℕ) → Seg l p q (ys ++ zs) → Seg l p (first_or q zs) ys
  Seg-left p q [] zs s = tt
  Seg-left p q (y ∷ []) zs s = (s.0, s.1, refl, tt)
  Seg-left p q (y ∷ x ∷ ys) zs s =
      (s.0, s.1, ground (arith, has-append y (x ∷ ys) zs), Seg-left y q (x ∷ ys) zs s.3)

  pub Seg-right : (p q : ℕ) (ys zs : List ℕ) → Seg l p q (ys ++ zs) → Seg l (last_or p ys) q zs
  Seg-right p q [] zs s = s
  Seg-right p q (y ∷ ys) zs s = Seg-right y q ys zs s.3

  pub Seg-Disjoint : (p q : ℕ) (ys zs : List ℕ) → Seg l p q (ys ++ zs) → Disjoint ys zs
  Seg-Disjoint p q [] zs s a i = ground arith
  Seg-Disjoint p q (y ∷ ys) zs s a i =
      ground (arith, has-append y ys zs, Seg-Disjoint y q ys zs s.3 a)

  pub Seg-append :
      (p q : ℕ) (ys zs : List ℕ)
      → Seg l p (first_or q zs) ys
      → Seg l (last_or p ys) q zs
      → Disjoint ys zs
      → Seg l p q (ys ++ zs)
  Seg-append p q [] zs s t apart = t
  Seg-append p q (y ∷ []) zs s t apart = (s.0, s.1, apart y (ground arith), t)
  Seg-append p q (y ∷ x ∷ ys) zs s t apart = (
    s.0,
    s.1,
    ground (arith, has-append y (x ∷ ys) zs, apart y),
    Seg-append y q (x ∷ ys) zs s.3 t λ a i. apart a (ground arith),
  )
