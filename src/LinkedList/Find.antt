-- ===== src/LinkedList/Find.antt =====
-- `List_find`, and an insertion that is undone (src/linked_list.c).
use disastr_os_semaphores.Common.{
  ℕ, zero, suc, sym, ◌^◌, ◌<◌, ◌≡◌, refl, false, some, List, [], ◌∷◌, ◌++◌, arith, length, has,
  first_or, last_or, has-append, ◌∙◌, ==-ne, if◌then◌else◌, ◌==◌, Bool-cases, inl, inr, true,
}
use disastr_os_semaphores.LinkedList.{
  ListHead, Links, null, list_insert, list_detach, list_find, find_from,
}
use disastr_os_semaphores.LinkedList.Seg.{Seg, IsList}
use disastr_os_semaphores.LinkedList.Insert.{IsFree, list_insert-IsList}
use disastr_os_semaphores.LinkedList.Detach.{list_detach-IsList}

find_from-Seg :
    (l : Links) (item : ℕ) (fuel p : ℕ) (xs : List ℕ)
    → Seg l p 0 xs
    → length xs < fuel
    → find_from l item fuel (first_or 0 xs) ≡ some (if has item xs then item else null)
unfolding find_from
find_from-Seg l item zero p xs s enough = absurd (omega arith)
find_from-Seg l item (suc fuel) p [] s enough = refl
find_from-Seg l item (suc fuel) p (x ∷ xs) s enough =
    rw (==-ne x 0 s.0, s.1) (ground (arith, find_from-Seg l item fuel x xs s.3 (omega arith)))

-- On a list, `List_find` ends within as many rounds as there are items and one more, and returns
-- the item if the list has it and NULL if not.
pub list_find-has :
    (l : Links) (h : ListHead) (item fuel : ℕ) (xs : List ℕ)
    → IsList l h xs
    → length xs < fuel
    → list_find fuel l h item ≡ some (if has item xs then item else null)
unfolding list_find
list_find-has l h item fuel xs is enough =
    rw is.first (find_from-Seg l item fuel 0 xs is.seg enough)

-- The sequence determines the items of a segment.
Seg-unique :
    (l m : Links) (p q : ℕ) (xs : List ℕ)
    → Seg l p q xs
    → Seg m p q xs
    → (a : ℕ) → has a xs ≡ true
    → m a ≡ l a
Seg-unique l m p q [] s t a i = ground arith
Seg-unique l m p q (x ∷ xs) s t a i = elim (Bool-cases (a == x)) [
  | inl e ↦ ground arith
  | inr n ↦ Seg-unique l m x q xs s.3 t.3 a (ground arith)
]

-- `List_insert` of an item that is in no list and then `List_detach` of it give the list back, with
-- every item as it was.
pub list_detach-list_insert :
    (l : Links) (h : ListHead) (item : ℕ) (ys zs : List ℕ)
    → IsList l h (ys ++ zs)
    → IsFree l item
    → has item (ys ++ zs) ≡ false
    → suc (length (ys ++ zs)) < 2 ^ 31
    → (l' l'' : Links) × (h' h'' : ListHead) × (list_insert l h (last_or 0 ys) item
        ≡ some (item, l', h'))
      × (list_detach l' h' item ≡ some (item, l'', h''))
      × IsList l'' h'' (ys ++ zs)
      × ((a : ℕ) → l'' a ≡ l a)
list_detach-list_insert l h item ys zs is free out small =
    let (l', h', e, is', same) = list_insert-IsList l h item ys zs is free out small in
    let (l'', h'', e', is'', free', same') = list_detach-IsList l' h' item ys zs is' in
    (
      l',
      l'',
      h',
      h'',
      e,
      e',
      is'',
      λ a. elim (Bool-cases (has a (ys ++ zs))) [
        | inl i ↦ Seg-unique l l'' 0 0 (ys ++ zs) is.seg is''.seg a i
        | inr n ↦ elim (Bool-cases (a == item)) [
          | inl d ↦
              let same_address : a ≡ item = ground arith in
              rw same_address (free'.unlinked ∙ sym free.unlinked)
          | inr d ↦
              same' a (ground (arith, has-append a ys (item ∷ zs), has-append a ys zs))
              ∙ same a (ground arith)
        ]
      ],
    )
