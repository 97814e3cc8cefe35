-- ===== src/Kernel/World.antt =====
-- The lists of the kernel taken together: each stands for a sequence, and no two share an address.
use disastr_os_semaphores.Common.{
  ℕ, suc, ap, first_or, ==-ne, ◌^◌, ◌<◌, ◌≡◌, ◌≢◌, refl, ◌∙◌, Bool, Bool-cases, inl, inr, true,
  false, some, List, [], ◌∷◌, ◌++◌, length, has,
}
use disastr_os_semaphores.LinkedList.{Links, ListHead, ListItem}
use disastr_os_semaphores.LinkedList.Seg.{IsList, IsList-frame, SameOutside, Disjoint}
use disastr_os_semaphores.LinkedList.Insert.{IsFree}
use disastr_os_semaphores.LinkedList.Detach.{not-has-left, not-has-right}
use disastr_os_semaphores.LinkedList.Apart.{
  has_head, not-has-cons, not-has-append, Disjoint-sym, Disjoint-without, Disjoint-member,
  Disjoint-append, Disjoint-cons, Disjoint-cons_right, Disjoint-nil_left,
}
use disastr_os_semaphores.Kernel.Types.{ListRef, owner_of, same_ref}
use disastr_os_semaphores.Kernel.View.{View, put, same_ref-join}
use disastr_os_semaphores.Kernel.State.{Kernel, update}
use disastr_os_semaphores.Kernel.Memory.{detach_at, detach_first, insert_back}
use disastr_os_semaphores.Kernel.Lists.{ListIs, relinked, detach_at-IsList, insert_back-IsList}

-- The lists that `live` names are those of the view, and share no address.
pub record World (k : Kernel) (live : ListRef → Bool) (v : View) : Type 0 where
  pub lists : (r : ListRef) → live r ≡ true → ListIs k r (v r)
  pub owners : (r : ListRef) → live r ≡ true → owner_of r ≢ 0
  pub apart :
      (r s : ListRef) → live r ≡ true → live s ≡ true → same_ref r s ≡ false → Disjoint (v r) (v s)

-- An address is in none of the lists.
abbrev pub IsOutside : (ListRef → Bool) → View → ℕ → Type 0
IsOutside live v a = (r : ListRef) → live r ≡ true → has a (v r) ≡ false

-- The items that are in none of the lists are as they were.
abbrev pub SameElsewhere : (ListRef → Bool) → View → Links → Links → Type 0
SameElsewhere live v l m = (a : ℕ) → IsOutside live v a → m a ≡ l a

-- A list gets another sequence, `xs`, and only the items of the old one and `ys` are written.
module _ (k : Kernel) (live : ListRef → Bool) (v : View) (w : World k live v) (r : ListRef)
    (lr : live r ≡ true) (l : Links) (h : ListHead) (xs ys : List ℕ) (is : IsList l h xs)
    (same : SameOutside ys k.links l)
    (others : (s : ListRef) → live s ≡ true → same_ref s r ≡ false → Disjoint (v s) ys)
    (new : (s : ListRef) → live s ≡ true → same_ref s r ≡ false → Disjoint (v s) xs) where
  World-relinked : World (relinked k r l h) live (put v r xs)
  World-relinked = record {
    lists = λ s ls. elim (Bool-cases (same_ref s r)) [
      | inl e ↦ rw e is
      | inr ne ↦ rw ne (IsList-frame ys (v s) (w.lists s ls) same (others s ls ne))
    ];
    owners = w.owners;
    apart = λ s t ls lt ne. elim (Bool-cases (same_ref s r)) [
      | inl e ↦ elim (Bool-cases (same_ref t r)) [
        | inl e' ↦ let both = same_ref-join r s t e e' in cc
        | inr ne' ↦ rw (e, ne') (Disjoint-sym (v t) xs (new t lt ne'))
      ]
      | inr ne'' ↦ elim (Bool-cases (same_ref t r)) [
        | inl e' ↦ rw (ne'', e') (new s ls ne'')
        | inr ne' ↦ rw (ne'', ne') (w.apart s t ls lt ne)
      ]
    ];
  }

-- Only the items and the heads matter.
pub World-state :
    (k k' : Kernel) (live : ListRef → Bool) (v : View)
    → k'.links ≡ k.links
    → k'.heads ≡ k.heads
    → World k live v
    → World k' live v
World-state k k' live v el eh w = record {
  lists = λ r lr. rw (el, eh) (w.lists r lr);
  owners = w.owners;
  apart = w.apart;
}

module _ (k : Kernel) (live : ListRef → Bool) (v : View) (w : World k live v) (r : ListRef)
    (lr : live r ≡ true) where
  -- Another list is apart from the one at `r`.
  other-apart : (s : ListRef) → live s ≡ true → same_ref s r ≡ false → Disjoint (v s) (v r)
  other-apart s ls ne = w.apart s r ls lr ne

  -- The item `x` leaves the list; it is then in none, and its pointers are NULL.
  pub World-detach_at :
      (x : ℕ) (us vs : List ℕ)
      → v r ≡ us ++ x ∷ vs
      → (l : Links) × (h : ListHead) × (detach_at r x k ≡ some (x, relinked k r l h))
        × World (relinked k r l h) live (put v r (us ++ vs))
        × IsFree l x
        × IsOutside live (put v r (us ++ vs)) x
        × SameElsewhere live v k.links l
  World-detach_at x us vs split =
      let list : ListIs k r (us ++ x ∷ vs) = rw split at (w.lists r lr) in
      let (l, h, e, is, free, same) = detach_at-IsList k r x us vs list in
      let apart : (s : ListRef)
          → live s ≡ true
          → same_ref s r ≡ false
          → Disjoint (us ++ x ∷ vs) (v s) =
        λ s ls ne. rw split at (Disjoint-sym (v s) (v r) (other-apart s ls ne)) in
      (
        l,
        h,
        e,
        World-relinked k live v w r lr l h (us ++ vs) (us ++ x ∷ vs) is same
            (λ s ls ne. Disjoint-sym (us ++ x ∷ vs) (v s) (apart s ls ne))
            (λ s ls ne.
              Disjoint-sym (us ++ vs) (v s) (Disjoint-without us x vs (v s) (apart s ls ne))),
        free,
        (λ s ls. elim (Bool-cases (same_ref s r)) [
          | inl e ↦ rw e (
              not-has-append x us vs (not-has-left k.links (k.heads r) x us vs list)
                (not-has-right k.links (k.heads r) x us vs list))
          | inr ne ↦ rw ne (Disjoint-member us x vs (v s) (apart s ls ne))
        ]),
        (λ a o. same a (rw split at (o r lr))),
      )

  -- The first item leaves the list.
  pub World-detach_first :
      (x : ℕ) (xs : List ℕ)
      → v r ≡ x ∷ xs
      → (l : Links) × (h : ListHead) × (detach_first r k ≡ some (x, relinked k r l h))
        × World (relinked k r l h) live (put v r xs)
        × IsFree l x
        × IsOutside live (put v r xs) x
        × SameElsewhere live v k.links l
  unfolding detach_first
  World-detach_first x xs split =
      let (l, h, e, w', free, out, same) = World-detach_at x [] xs split in
      let first : (k.heads r).first ≡ x = (w.lists r lr).first ∙ ap (first_or 0) split in
      (l, h, rw (==-ne (owner_of r) 0 (w.owners r lr), first) e, w', free, out, same)

  -- An item in no list becomes the last of the list.
  pub World-insert_back :
      (x : ℕ) (xs : List ℕ)
      → v r ≡ xs
      → IsFree k.links x
      → IsOutside live v x
      → suc (length xs) < 2 ^ 31
      → (l : Links) × (h : ListHead) × (insert_back r x k ≡ some (x, relinked k r l h))
        × World (relinked k r l h) live (put v r (xs ++ x ∷ []))
        × ((a : ℕ) → a ≢ x → IsOutside live v a → l a ≡ k.links a)
  World-insert_back x xs split free out room =
      let list : ListIs k r xs = rw split at (w.lists r lr) in
      let x_out : has x xs ≡ false = rw split at (out r lr) in
      let (l, h, e, is, same) = insert_back-IsList k r x xs (w.owners r lr) list free x_out room in
      let apart : (s : ListRef) → live s ≡ true → same_ref s r ≡ false → Disjoint (v s) xs =
        λ s ls ne. rw split at (other-apart s ls ne) in
      (
        l,
        h,
        e,
        World-relinked k live v w r lr l h (xs ++ x ∷ []) (x ∷ xs) is same
            (λ s ls ne. Disjoint-cons_right x (v s) xs (out s ls) (apart s ls ne))
            (λ s ls ne. Disjoint-sym (xs ++ x ∷ []) (v s) (
              Disjoint-append xs (x ∷ []) (v s) (Disjoint-sym (v s) xs (apart s ls ne))
                (Disjoint-cons x [] (v s) (out s ls) (Disjoint-nil_left (v s))))),
        (λ a ne o. same a (not-has-cons a x xs ne (rw split at (o r lr)))),
      )

-- Views that agree describe the same lists.
pub World-view :
    (k : Kernel) (live : ListRef → Bool) (v u : View)
    → ((r : ListRef) → u r ≡ v r)
    → World k live v
    → World k live u
World-view k live v u e w = record {
  lists = λ r lr. rw (e r) (w.lists r lr);
  owners = w.owners;
  apart = λ r s lr ls ne. rw (e r, e s) (w.apart r s lr ls ne);
}

-- An address that is in no list of the view is in none when one of them is shortened.
pub IsOutside-put :
    (live : ListRef → Bool) (v : View) (r : ListRef) (xs : List ℕ) (a : ℕ)
    → has a xs ≡ false
    → IsOutside live v a
    → IsOutside live (put v r xs) a
IsOutside-put live v r xs a o out s ls = elim (Bool-cases (same_ref s r)) [
  | inl e ↦ rw e o
  | inr ne ↦ rw ne (out s ls)
]

-- The pointers of an item that is in no list may be written.
pub World-unlink :
    (k : Kernel) (live : ListRef → Bool) (v : View) (x : ℕ) (i : ListItem)
    → IsOutside live v x
    → World k live v
    → World (record k { links = update k.links x i }) live v
World-unlink k live v x i out w = record {
  lists = λ r lr.
      IsList-frame (x ∷ []) (v r) (w.lists r lr) (λ a o. rw (==-ne a x (has_head a x [] o)) refl)
        (Disjoint-sym (x ∷ []) (v r)
          (Disjoint-cons x [] (v r) (out r lr) (Disjoint-nil_left (v r))));
  owners = w.owners;
  apart = w.apart;
}
