-- ===== src/LinkedList/Detach.antt =====
-- `List_detach` (src/linked_list.c): what it makes of a list that holds the item.
use disastr_os_semaphores.Common.{
  ℕ, suc, sym, ◌≡◌, ◌≢◌, Bool-cases, ◌⊎◌, inl, inr, false, some, List, [], ◌∷◌, ◌++◌, arith, ◌==◌,
  pos, int_sub, int_sub-suc, length, length-append, has, first_or, last_or, has-last_or, ==-self,
  ==-ne, ◌∙◌, if◌then◌else◌, last_or-append,
}
use disastr_os_semaphores.LinkedList.{
  item_of, ListHead, Links, set_prev, set_next, list_detach, detach_links, detach_head,
}
use disastr_os_semaphores.LinkedList.Seg.{
  Seg, IsList, Disjoint, SameOutside, Seg-frame, last_or-ne, not-has-zero, ne_of_has, Seg-left,
  Seg-right, Seg-Disjoint, Seg-append,
}
use disastr_os_semaphores.LinkedList.Insert.{IsFree}
use disastr_os_semaphores.LinkedList.Writes.{
  Seg-set_next, Seg-set_prev, first-apart, last-apart, first_outside, last_outside, out_left,
  out_right,
}

module _ (l : Links) (prev item next : ℕ) where
  detach_links-left :
      (a : ℕ)
      → prev ≢ 0
      → a ≢ item
      → a ≢ next
      → detach_links l prev item next a ≡ set_next l prev next a
  unfolding detach_links
  detach_links-left a np ni nn = ground arith

  detach_links-right :
      (a : ℕ)
      → next ≢ 0
      → a ≢ item
      → a ≢ prev
      → detach_links l prev item next a ≡ set_prev l next prev a
  unfolding detach_links
  detach_links-right a nn ni np = ground arith

  detach_links-item : detach_links l prev item next item ≡ item_of 0 0
  unfolding detach_links
  detach_links-item = ground arith

  detach_links-outside :
      (a : ℕ)
      → a ≢ item
      → (prev ≡ 0) ⊎ (a ≢ prev)
      → (next ≡ 0) ⊎ (a ≢ next)
      → detach_links l prev item next a ≡ l a
  unfolding detach_links
  detach_links-outside a ne np nn = ground arith

module _ (l : Links) (item : ℕ) where
  detach-left :
      (q next : ℕ) (ys : List ℕ)
      → Seg l 0 q ys
      → has item ys ≡ false
      → has next ys ≡ false
      → Seg (detach_links l (last_or 0 ys) item next) 0 next ys
  detach-left q next [] s out apart = tt
  detach-left q next (y ∷ ys) s out apart =
      Seg-frame (y ∷ ys) (set_next l (last_or y ys) next) (detach_links l (last_or y ys) item next)
        0 next (Seg-set_next l 0 q next y ys s)
        λ a i.
          detach_links-left l (last_or y ys) item next a (last_or-ne l 0 q y ys s)
            (ne_of_has a item (y ∷ ys) i out) (ne_of_has a next (y ∷ ys) i apart)

  detach-right :
      (p prev : ℕ) (zs : List ℕ)
      → Seg l p 0 zs
      → has item zs ≡ false
      → has prev zs ≡ false
      → Seg (detach_links l prev item (first_or 0 zs)) prev 0 zs
  detach-right p prev [] s out apart = tt
  detach-right p prev (z ∷ zs) s out apart =
      Seg-frame (z ∷ zs) (set_prev l z prev) (detach_links l prev item z) prev 0
        (Seg-set_prev l p 0 prev z zs s)
        λ a i.
          detach_links-right l prev item z a s.0 (ne_of_has a item (z ∷ zs) i out)
            (ne_of_has a prev (z ∷ zs) i apart)

-- The list `ys ++ item ∷ zs`, of which the item is taken.
module _ (l : Links) (h : ListHead) (item : ℕ) (ys zs : List ℕ)
    (is : IsList l h (ys ++ item ∷ zs)) where
  detach_at : Seg l (last_or 0 ys) 0 (item ∷ zs)
  detach_at = Seg-right l 0 0 ys (item ∷ zs) is.seg

  detach_left : Seg l 0 item ys
  detach_left = Seg-left l 0 0 ys (item ∷ zs) is.seg

  detach_apart : Disjoint ys (item ∷ zs)
  detach_apart = Seg-Disjoint l 0 0 ys (item ∷ zs) is.seg

  apart : Disjoint ys zs
  apart a i = ground (arith, detach_apart a i)

  pub not-has-left : has item ys ≡ false
  not-has-left = elim (Bool-cases (has item ys)) [
    | inl i ↦ ground (arith, detach_apart item i)
    | inr n ↦ n
  ]

  pub not-has-right : has item zs ≡ false
  not-has-right = detach_at.2

  detach_first : (if item == h.first then first_or 0 zs else h.first) ≡ first_or 0 (ys ++ zs)
  detach_first = go ys is.first not-has-left
    where
      go :
          (ys : List ℕ)
          → h.first ≡ first_or 0 (ys ++ item ∷ zs)
          → has item ys ≡ false
          → (if item == h.first then first_or 0 zs else h.first) ≡ first_or 0 (ys ++ zs)
      go [] e o = rw (e, ==-self item)
      go (y ∷ ys) e o = ground arith

  detach_last : (if item == h.last then last_or 0 ys else h.last) ≡ last_or 0 (ys ++ zs)
  detach_last =
      rw (last_or-append 0 ys zs) (go zs (is.last ∙ last_or-append 0 ys (item ∷ zs)) not-has-right)
    where
      go :
          (zs : List ℕ)
          → h.last ≡ last_or item zs
          → has item zs ≡ false
          → (if item == h.last then last_or 0 ys else h.last) ≡ last_or (last_or 0 ys) zs
      go [] e o = rw (e, ==-self item)
      go (z ∷ zs) e o =
          rw (
            e,
            ==-ne item (last_or z zs) λ d. ne_of_has _ item (z ∷ zs) (has-last_or z zs) o (sym d),
          )

  detach_size : int_sub h.size (pos 1) ≡ pos (length (ys ++ zs))
  detach_size =
      let n : length (ys ++ item ∷ zs) ≡ suc (length (ys ++ zs)) =
        omega (arith, length-append {0} ys zs, length-append {0} ys (item ∷ zs)) in
      rw (is.size, n) (int_sub-suc (length (ys ++ zs)) (omega (arith, is.small)))

  detach_eq :
      list_detach l h item
      ≡ some (
        item,
        detach_links l (last_or 0 ys) item (first_or 0 zs),
        detach_head h (last_or 0 ys) item (first_or 0 zs),
      )
  unfolding list_detach
  detach_eq = rw (==-ne item 0 detach_at.0, detach_at.1)

  detach_seg : Seg (detach_links l (last_or 0 ys) item (first_or 0 zs)) 0 0 (ys ++ zs)
  detach_seg =
      Seg-append (detach_links l (last_or 0 ys) item (first_or 0 zs)) 0 0 ys zs
        (detach-left l item item (first_or 0 zs) ys detach_left not-has-left
          (first-apart 0 ys zs (not-has-zero l 0 _ ys detach_left) apart))
        (detach-right l item item (last_or 0 ys) zs detach_at.3 not-has-right
          (last-apart 0 ys zs (not-has-zero l _ 0 zs detach_at.3) apart))
        apart

  detach_outside :
      SameOutside (ys ++ item ∷ zs) l (detach_links l (last_or 0 ys) item (first_or 0 zs))
  detach_outside a o =
      let o' : has a (item ∷ zs) ≡ false = out_right a ys (item ∷ zs) o in
      detach_links-outside l (last_or 0 ys) item (first_or 0 zs) a (ground arith)
        (last_outside a ys (out_left a ys (item ∷ zs) o)) (first_outside a zs (ground arith))

-- `List_detach` of an item that the list holds: it returns the item, the list has it no more, the
-- rest keeps its order, the item is in no list (its pointers are NULL), and only items of the list
-- are written.
pub list_detach-IsList :
    (l : Links) (h : ListHead) (item : ℕ) (ys zs : List ℕ)
    → IsList l h (ys ++ item ∷ zs)
    → (l' : Links) × (h' : ListHead) × (list_detach l h item ≡ some (item, l', h'))
      × IsList l' h' (ys ++ zs)
      × IsFree l' item
      × SameOutside (ys ++ item ∷ zs) l l'
unfolding detach_head
list_detach-IsList l h item ys zs is = (
  detach_links l (last_or 0 ys) item (first_or 0 zs),
  detach_head h (last_or 0 ys) item (first_or 0 zs),
  detach_eq l h item ys zs is,
  record {
    first = detach_first l h item ys zs is;
    last = detach_last l h item ys zs is;
    size = detach_size l h item ys zs is;
    small = omega (arith, is.small, length-append {0} ys zs, length-append {0} ys (item ∷ zs));
    seg = detach_seg l h item ys zs is;
  },
  record {
    ne_null = (detach_at l h item ys zs is).0;
    unlinked = detach_links-item l (last_or 0 ys) item (first_or 0 zs);
  },
  detach_outside l h item ys zs is,
)
