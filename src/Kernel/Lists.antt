-- ===== src/Kernel/Lists.antt =====
-- What the list commands of the kernel do to a list of known items.
use mathlib.Core.List.{append-nil}
use disastr_os_semaphores.Common.{
  ℕ, zero, suc, ◌^◌, ◌≤◌, ◌<◌, ◌≡◌, ◌≢◌, refl, ◌∙◌, ap, Bool, false, some, List, [], ◌∷◌, ◌++◌,
  arith, length, has, true, first_or, last_or, ==-ne, if◌then◌else◌,
}
use disastr_os_semaphores.LinkedList.{ListHead, Links}
use disastr_os_semaphores.LinkedList.Seg.{Seg, IsList, SameOutside}
use disastr_os_semaphores.LinkedList.Insert.{IsFree, list_insert-IsList}
use disastr_os_semaphores.LinkedList.Detach.{list_detach-IsList}
use disastr_os_semaphores.Kernel.Types.{ListRef, owner_of}
use disastr_os_semaphores.Kernel.State.{Kernel}
use disastr_os_semaphores.Kernel.Memory.{
  insert_at, detach_at, insert_back, detach_first, find_in, set_heads, walk, walk_rounds,
  write_back, no_change,
}

-- The kernel with other items and another head at one place.
abbrev pub relinked : Kernel → ListRef → Links → ListHead → Kernel
relinked k r l h = record k { links = l; heads = set_heads k.heads r h }

-- The list at `r` is `xs`.
abbrev pub ListIs : Kernel → ListRef → List ℕ → Type 0
ListIs k r xs = IsList k.links (k.heads r) xs

pub insert_at-IsList :
    (k : Kernel) (r : ListRef) (item : ℕ) (ys zs : List ℕ)
    → ListIs k r (ys ++ zs)
    → IsFree k.links item
    → has item (ys ++ zs) ≡ false
    → suc (length (ys ++ zs)) < 2 ^ 31
    → (l : Links) × (h : ListHead) × (insert_at r (last_or 0 ys) item k
        ≡ some (item, relinked k r l h))
      × IsList l h (ys ++ item ∷ zs)
      × SameOutside (item ∷ (ys ++ zs)) k.links l
unfolding insert_at
insert_at-IsList k r item ys zs is free out small =
    let (l, h, e, is', same) =
      list_insert-IsList k.links (k.heads r) item ys zs is free out small in
    (l, h, ap (λ o. write_back r o k) e, is', same)

pub insert_back-IsList :
    (k : Kernel) (r : ListRef) (item : ℕ) (xs : List ℕ)
    → owner_of r ≢ 0
    → ListIs k r xs
    → IsFree k.links item
    → has item xs ≡ false
    → suc (length xs) < 2 ^ 31
    → (l : Links) × (h : ListHead) × (insert_back r item k ≡ some (item, relinked k r l h))
      × IsList l h (xs ++ item ∷ [])
      × SameOutside (item ∷ xs) k.links l
unfolding insert_back
insert_back-IsList k r item xs owner is free out small =
    let e : xs ++ [] ≡ xs = append-nil xs in
    let (l, h, eq, is', same) =
      insert_at-IsList k r item xs [] (rw e is) free (rw e out) (rw e small) in
    (
      l,
      h,
      rw (==-ne (owner_of r) 0 owner) (ap (λ p. insert_at r p item k) is.last ∙ eq),
      is',
      λ a o. same a (rw e o),
    )

pub detach_at-IsList :
    (k : Kernel) (r : ListRef) (item : ℕ) (ys zs : List ℕ)
    → ListIs k r (ys ++ item ∷ zs)
    → (l : Links) × (h : ListHead) × (detach_at r item k ≡ some (item, relinked k r l h))
      × IsList l h (ys ++ zs)
      × IsFree l item
      × SameOutside (ys ++ item ∷ zs) k.links l
unfolding detach_at
detach_at-IsList k r item ys zs is =
    let (l, h, e, is', free, same) = list_detach-IsList k.links (k.heads r) item ys zs is in
    (l, h, ap (λ o. write_back r o k) e, is', free, same)

pub detach_first-IsList :
    (k : Kernel) (r : ListRef) (item : ℕ) (xs : List ℕ)
    → owner_of r ≢ 0
    → ListIs k r (item ∷ xs)
    → (l : Links) × (h : ListHead) × (detach_first r k ≡ some (item, relinked k r l h))
      × IsList l h xs
      × IsFree l item
      × SameOutside (item ∷ xs) k.links l
unfolding detach_first
detach_first-IsList k r item xs owner is =
    let (l, h, e, is', free, same) = detach_at-IsList k r item [] xs is in
    (
      l,
      h,
      rw (==-ne (owner_of r) 0 owner) (ap (λ p. detach_at r p k) is.first ∙ e),
      is',
      free,
      same,
    )

-- The first of a list that passes a test, or NULL.
unfoldable pub first_such : (ℕ → Bool) → List ℕ → ℕ
first_such test [] = 0
first_such test (x ∷ xs) = if test x then x else first_such test xs

walk-Seg :
    (l : Links) (test : ℕ → Bool) (rounds p : ℕ) (xs : List ℕ)
    → Seg l p 0 xs
    → length xs < rounds
    → walk l test rounds (first_or 0 xs) ≡ some (first_such test xs)
unfolding walk first_such
walk-Seg l test zero p xs s enough = absurd (omega arith)
walk-Seg l test (suc n) p [] s enough = refl
walk-Seg l test (suc n) p (x ∷ xs) s enough =
    rw (==-ne x 0 s.0, s.1) (ground (arith, walk-Seg l test n x xs s.3 (omega arith)))

-- The search of a list of at most 1024 items, as many as a pool has, ends with the first item that
-- passes the test, or NULL if none does, and changes nothing.
pub find_in-first_such :
    (k : Kernel) (r : ListRef) (test : Kernel → ℕ → Bool) (xs : List ℕ)
    → owner_of r ≢ 0
    → ListIs k r xs
    → length xs ≤ 1024
    → find_in r test k ≡ some (first_such (test k) xs, k)
unfolding find_in
find_in-first_such k r test xs owner is few = rw (==-ne (owner_of r) 0 owner) (
    ap (λ o. no_change o k)
      (ap (walk k.links (test k) walk_rounds) is.first
        ∙ walk-Seg k.links (test k) walk_rounds 0 xs is.seg enough))
  where
    enough : length xs < walk_rounds
    enough = unfold walk_rounds in omega arith

-- Tests that agree find the same item.
pub first_such-same :
    (test test' : ℕ → Bool) (xs : List ℕ)
    → ((x : ℕ) → test x ≡ test' x)
    → first_such test xs ≡ first_such test' xs
unfolding first_such
first_such-same test test' [] same = refl
first_such-same test test' (x ∷ xs) same = rw (same x, first_such-same test test' xs same) refl

-- The last item is found if it is the only one that passes the test.
pub first_such-last :
    (test : ℕ → Bool) (xs : List ℕ) (x : ℕ)
    → ((y : ℕ) → has y xs ≡ true → test y ≡ false)
    → test x ≡ true
    → first_such test (xs ++ x ∷ []) ≡ x
unfolding first_such
first_such-last test [] x none_before last = rw last refl
first_such-last test (y ∷ ys) x none_before last =
    rw (none_before y (ground arith))
      (first_such-last test ys x (λ z i. none_before z (ground (arith, i))) last)
