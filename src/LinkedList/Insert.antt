-- ===== src/LinkedList/Insert.antt =====
-- `List_insert` (src/linked_list.c): what it makes of a list, and when it refuses.
use disastr_os_semaphores.Common.{
  ℕ, suc, ◌^◌, ◌<◌, ◌≡◌, refl, ◌≢◌, ◌⊎◌, false, some, List, [], ◌∷◌, ◌++◌, arith, pos, int_add,
  int_add_pos, length, length-append, has, first_or, last_or, ==-ne, ap, ◌∙◌, is_set, if◌then◌else◌,
  last_or-append,
}
use disastr_os_semaphores.LinkedList.{
  item_of, ListHead, Links, null, list_insert, insert_links, insert_head,
}
use disastr_os_semaphores.LinkedList.Seg.{
  Seg, IsList, Disjoint, SameOutside, last_or-ne, not-has-zero, ne_of_has, Seg-left, Seg-right,
  Seg-Disjoint, Seg-append,
}
use disastr_os_semaphores.LinkedList.Writes.{
  insert_links-item, insert_links-outside, insert-left, insert-right, next_of_last, out_left,
  out_right, first-apart, last-apart, ne-last, ne-first, last_outside, first_outside,
}

-- An item that is in no list: it is not NULL and its two pointers are.
pub record IsFree (l : Links) (item : ℕ) : Type 0 where
  pub ne_null : item ≢ 0
  pub unlinked : l item ≡ item_of 0 0

-- The list `ys ++ zs`, and an item to put between the two.
module _ (l : Links) (h : ListHead) (item : ℕ) (ys zs : List ℕ) where
  module _ (is : IsList l h (ys ++ zs)) where
    insert_next :
        (if is_set (last_or 0 ys) then (l (last_or 0 ys)).next else h.first) ≡ first_or 0 zs
    insert_next = go ys is.first (Seg-left l 0 0 ys zs is.seg)
      where
        go :
            (ys : List ℕ)
            → h.first ≡ first_or 0 (ys ++ zs)
            → Seg l 0 (first_or 0 zs) ys
            → (if is_set (last_or 0 ys) then (l (last_or 0 ys)).next else h.first) ≡ first_or 0 zs
        go [] e s = e
        go (y ∷ ys) e s =
            rw (==-ne (last_or y ys) 0 (last_or-ne l 0 _ y ys s)) (next_of_last l 0 _ y ys s)

    insert_first : (if is_set (last_or 0 ys) then h.first else item) ≡ first_or 0 (ys ++ item ∷ zs)
    insert_first = go ys is.first (Seg-left l 0 0 ys zs is.seg)
      where
        go :
            (ys : List ℕ)
            → h.first ≡ first_or 0 (ys ++ zs)
            → Seg l 0 (first_or 0 zs) ys
            → (if is_set (last_or 0 ys) then h.first else item) ≡ first_or 0 (ys ++ item ∷ zs)
        go [] e s = refl
        go (y ∷ ys) e s = rw (==-ne (last_or y ys) 0 (last_or-ne l 0 _ y ys s)) e

    insert_last : (if is_set (first_or 0 zs) then h.last else item) ≡ last_or 0 (ys ++ item ∷ zs)
    insert_last =
        rw (last_or-append 0 ys (item ∷ zs))
          (go zs (is.last ∙ last_or-append 0 ys zs) (Seg-right l 0 0 ys zs is.seg))
      where
        go :
            (zs : List ℕ)
            → h.last ≡ last_or (last_or 0 ys) zs
            → Seg l (last_or 0 ys) 0 zs
            → (if is_set (first_or 0 zs) then h.last else item) ≡ last_or item zs
        go [] e s = refl
        go (z ∷ zs) e s = rw (==-ne z 0 s.0) e

    insert_size :
        suc (length (ys ++ zs)) < 2 ^ 31 → int_add h.size (pos 1) ≡ pos (length (ys ++ item ∷ zs))
    insert_size small =
        rw (is.size, int_add_pos (length (ys ++ zs)) small)
          (ap pos (omega (arith, length-append {0} ys zs, length-append {0} ys (item ∷ zs))))

    module _ (free : IsFree l item) (out : has item (ys ++ zs) ≡ false) where
      insert_eq :
          list_insert l h (last_or 0 ys) item
          ≡ some (
            item,
            insert_links l (last_or 0 ys) item (first_or 0 zs),
            insert_head h (last_or 0 ys) item (first_or 0 zs),
          )
      unfolding list_insert
      insert_eq = rw (==-ne item 0 free.ne_null, free.unlinked, insert_next)

      insert_seg : Seg (insert_links l (last_or 0 ys) item (first_or 0 zs)) 0 0 (ys ++ item ∷ zs)
      insert_seg =
          Seg-append (insert_links l (last_or 0 ys) item (first_or 0 zs)) 0 0 ys (item ∷ zs)
            (insert-left l item (first_or 0 zs) (first_or 0 zs) ys left (out_left item ys zs out)
              (first-apart 0 ys zs (not-has-zero l 0 _ ys left) apart))
            (free.ne_null, at_item, out_right item ys zs out, right')
            λ a i. ground (arith, apart a i, ne_of_has a item ys i (out_left item ys zs out))
        where
          apart : Disjoint ys zs
          apart = Seg-Disjoint l 0 0 ys zs is.seg

          left : Seg l 0 (first_or 0 zs) ys
          left = Seg-left l 0 0 ys zs is.seg

          right : Seg l (last_or 0 ys) 0 zs
          right = Seg-right l 0 0 ys zs is.seg

          right' : Seg (insert_links l (last_or 0 ys) item (first_or 0 zs)) item 0 zs
          right' =
              insert-right l item (last_or 0 ys) (last_or 0 ys) zs right (out_right item ys zs out)
                (last-apart 0 ys zs (not-has-zero l _ 0 zs right) apart)

          at_item :
              insert_links l (last_or 0 ys) item (first_or 0 zs) item
              ≡ item_of (last_or 0 ys) (first_or 0 zs)
          at_item =
              insert_links-item l (last_or 0 ys) item (first_or 0 zs) free.unlinked
                (ne-last 0 item ys free.ne_null (out_left item ys zs out))
                (ne-first 0 item zs free.ne_null (out_right item ys zs out))

      insert_outside :
          SameOutside (item ∷ (ys ++ zs)) l (insert_links l (last_or 0 ys) item (first_or 0 zs))
      insert_outside a o =
          insert_links-outside l (last_or 0 ys) item (first_or 0 zs) a (ground arith)
            (last_outside a ys (out_left a ys zs (ground arith)))
            (first_outside a zs (out_right a ys zs (ground arith)))

-- `List_insert` behind `prev`, the last of `ys` (at the front if there is none), of an item that
-- is in no list: it returns the item, the list is now `ys ++ item ∷ zs`, and no other item is
-- written.
pub list_insert-IsList :
    (l : Links) (h : ListHead) (item : ℕ) (ys zs : List ℕ)
    → IsList l h (ys ++ zs)
    → IsFree l item
    → has item (ys ++ zs) ≡ false
    → suc (length (ys ++ zs)) < 2 ^ 31
    → (l' : Links) × (h' : ListHead) × (list_insert l h (last_or 0 ys) item ≡ some (item, l', h'))
      × IsList l' h' (ys ++ item ∷ zs)
      × SameOutside (item ∷ (ys ++ zs)) l l'
unfolding insert_head
list_insert-IsList l h item ys zs is free out small = (
  insert_links l (last_or 0 ys) item (first_or 0 zs),
  insert_head h (last_or 0 ys) item (first_or 0 zs),
  insert_eq l h item ys zs is free out,
  record {
    first = insert_first l h item ys zs is;
    last = insert_last l h item ys zs is;
    size = insert_size l h item ys zs is small;
    small = omega (arith, length-append {0} ys zs, length-append {0} ys (item ∷ zs));
    seg = insert_seg l h item ys zs is free out;
  },
  insert_outside l h item ys zs is free out,
)

-- `List_insert` of an item that is linked already returns NULL and changes nothing.
pub list_insert-linked :
    (l : Links) (h : ListHead) (prev item : ℕ)
    → item ≢ 0
    → ((l item).next ≢ 0) ⊎ ((l item).prev ≢ 0)
    → list_insert l h prev item ≡ some (null, l, h)
unfolding list_insert
list_insert-linked l h prev item ne linked = ground arith
