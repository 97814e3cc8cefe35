-- ===== src/LinkedList/Writes.antt =====
-- What the writes of `List_insert` and `List_detach` (src/linked_list.c) do to segments.
use disastr_os_semaphores.Common.{
  ℕ, sym, ◌≡◌, refl, ◌≢◌, Bool-cases, ◌⊎◌, inl, inr, false, List, [], ◌∷◌, ◌++◌, arith, has,
  first_or, last_or, has-append, has-last_or, ==-self, ==-ne, ap, ◌∙◌,
}
use disastr_os_semaphores.LinkedList.{ListItem, item_of, Links, set_prev, set_next, insert_links}
use disastr_os_semaphores.LinkedList.Seg.{Seg, Disjoint, Seg-frame, last_or-ne, ne_of_has}

pub set_next_ne : (l : Links) (a n b : ℕ) → b ≢ a → set_next l a n b ≡ l b
unfolding set_next
set_next_ne l a n b ne = rw (==-ne b a ne)

pub set_next_self : (l : Links) (a n : ℕ) → set_next l a n a ≡ item_of (l a).prev n
unfolding set_next
set_next_self l a n = rw (==-self a)

pub set_prev_ne : (l : Links) (a p b : ℕ) → b ≢ a → set_prev l a p b ≡ l b
unfolding set_prev
set_prev_ne l a p b ne = rw (==-ne b a ne)

pub set_prev_self : (l : Links) (a p : ℕ) → set_prev l a p a ≡ item_of p (l a).next
unfolding set_prev
set_prev_self l a p = rw (==-self a)

module _ (l : Links) where
  -- Pointing the last item elsewhere moves the end of the segment.
  pub Seg-set_next :
      (p q r y : ℕ) (ys : List ℕ)
      → Seg l p q (y ∷ ys)
      → Seg (set_next l (last_or y ys) r) p r (y ∷ ys)
  Seg-set_next p q r y [] s =
      (s.0, set_next_self l y r ∙ ap (λ (i : ListItem). item_of i.prev r) s.1, refl, tt)
  Seg-set_next p q r y (x ∷ ys) s =
      let ne : y ≢ last_or x ys =
        λ e. ne_of_has (last_or x ys) y (x ∷ ys) (has-last_or x ys) s.2 (sym e) in
      (s.0, set_next_ne l (last_or x ys) r y ne ∙ s.1, s.2, Seg-set_next y q r x ys s.3)

  -- Pointing the first item back elsewhere moves the start.
  pub Seg-set_prev :
      (p q r z : ℕ) (zs : List ℕ) → Seg l p q (z ∷ zs) → Seg (set_prev l z r) r q (z ∷ zs)
  Seg-set_prev p q r z zs s = (
    s.0,
    set_prev_self l z r ∙ ap (λ (i : ListItem). item_of r i.next) s.1,
    s.2,
    Seg-frame zs l (set_prev l z r) z q s.3 λ a i. set_prev_ne l z r a (ne_of_has a z zs i s.2),
  )

  module _ (prev item next : ℕ) where
    insert_links-left :
        (a : ℕ)
        → prev ≢ 0
        → a ≢ item
        → a ≢ next
        → insert_links l prev item next a ≡ set_next l prev item a
    unfolding insert_links
    insert_links-left a np ni nn = ground arith

    insert_links-right :
        (a : ℕ)
        → next ≢ 0
        → a ≢ item
        → a ≢ prev
        → insert_links l prev item next a ≡ set_prev l next item a
    unfolding insert_links
    insert_links-right a nn ni np = ground arith

    pub insert_links-item :
        l item ≡ item_of 0 0
        → item ≢ prev
        → item ≢ next
        → insert_links l prev item next item ≡ item_of prev next
    unfolding insert_links
    insert_links-item e ne ne' = ground arith

    pub insert_links-outside :
        (a : ℕ)
        → a ≢ item
        → (prev ≡ 0) ⊎ (a ≢ prev)
        → (next ≡ 0) ⊎ (a ≢ next)
        → insert_links l prev item next a ≡ l a
    unfolding insert_links
    insert_links-outside a ne np nn = ground arith

  module _ (item : ℕ) where
    pub insert-left :
        (q next : ℕ) (ys : List ℕ)
        → Seg l 0 q ys
        → has item ys ≡ false
        → has next ys ≡ false
        → Seg (insert_links l (last_or 0 ys) item next) 0 item ys
    insert-left q next [] s out apart = tt
    insert-left q next (y ∷ ys) s out apart =
        Seg-frame (y ∷ ys) (set_next l (last_or y ys) item)
          (insert_links l (last_or y ys) item next) 0 item (Seg-set_next 0 q item y ys s)
          λ a i.
            insert_links-left (last_or y ys) item next a (last_or-ne l 0 q y ys s)
              (ne_of_has a item (y ∷ ys) i out) (ne_of_has a next (y ∷ ys) i apart)

    pub insert-right :
        (p prev : ℕ) (zs : List ℕ)
        → Seg l p 0 zs
        → has item zs ≡ false
        → has prev zs ≡ false
        → Seg (insert_links l prev item (first_or 0 zs)) item 0 zs
    insert-right p prev [] s out apart = tt
    insert-right p prev (z ∷ zs) s out apart =
        Seg-frame (z ∷ zs) (set_prev l z item) (insert_links l prev item z) item 0
          (Seg-set_prev p 0 item z zs s)
          λ a i.
            insert_links-right prev item z a s.0 (ne_of_has a item (z ∷ zs) i out)
              (ne_of_has a prev (z ∷ zs) i apart)

pub next_of_last :
    (l : Links) (p q y : ℕ) (ys : List ℕ) → Seg l p q (y ∷ ys) → (l (last_or y ys)).next ≡ q
next_of_last l p q y [] s = ap (λ (i : ListItem). i.next) s.1
next_of_last l p q y (x ∷ ys) s = next_of_last l y q x ys s.3

-- Where the ends of two disjoint lists, and an address outside, can be.
pub out_left : (a : ℕ) (ys zs : List ℕ) → has a (ys ++ zs) ≡ false → has a ys ≡ false
out_left a ys zs o = ground (arith, has-append a ys zs)

pub out_right : (a : ℕ) (ys zs : List ℕ) → has a (ys ++ zs) ≡ false → has a zs ≡ false
out_right a ys zs o = ground (arith, has-append a ys zs)

pub first-apart :
    (d : ℕ) (ys zs : List ℕ) → has d ys ≡ false → Disjoint ys zs → has (first_or d zs) ys ≡ false
first-apart d ys [] o apart = o
first-apart d ys (z ∷ zs) o apart = elim (Bool-cases (has z ys)) [
  | inl i ↦ ground (arith, apart z i)
  | inr n ↦ n
]

pub last-apart :
    (d : ℕ) (ys zs : List ℕ) → has d zs ≡ false → Disjoint ys zs → has (last_or d ys) zs ≡ false
last-apart d [] zs o apart = o
last-apart d (y ∷ ys) zs o apart = apart (last_or y ys) (has-last_or y ys)

pub ne-last : (d a : ℕ) (ys : List ℕ) → a ≢ d → has a ys ≡ false → a ≢ last_or d ys
ne-last d a [] ne o = ne
ne-last d a (y ∷ ys) ne o = λ e. ne_of_has (last_or y ys) a (y ∷ ys) (has-last_or y ys) o (sym e)

pub ne-first : (d a : ℕ) (zs : List ℕ) → a ≢ d → has a zs ≡ false → a ≢ first_or d zs
ne-first d a [] ne o = ne
ne-first d a (z ∷ zs) ne o = ground arith

pub last_outside :
    (a : ℕ) (ys : List ℕ) → has a ys ≡ false → (last_or 0 ys ≡ 0) ⊎ (a ≢ last_or 0 ys)
last_outside a [] o = inl refl
last_outside a (y ∷ ys) o =
    inr λ e. ne_of_has (last_or y ys) a (y ∷ ys) (has-last_or y ys) o (sym e)

pub first_outside :
    (a : ℕ) (zs : List ℕ) → has a zs ≡ false → (first_or 0 zs ≡ 0) ⊎ (a ≢ first_or 0 zs)
first_outside a [] o = inl refl
first_outside a (z ∷ zs) o = inr (ground arith)
