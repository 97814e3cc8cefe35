-- ===== src/Kernel/View.antt =====
-- Sequences for the lists of the kernel, and when two references are the same.
use disastr_os_semaphores.Common.{
  ℕ, ◌≡◌, refl, sym, ◌∙◌, ap, Bool-cases, inl, inr, true, false, List, arith, ==-self, ◌==◌,
  if◌then◌else◌,
}
use disastr_os_semaphores.Kernel.Types.{
  ListRef, field_of, owner_of, same_ref, ready_list, waiting_list, zombie_list, resources_list,
  semaphores_list, timer_list, children, descriptors, sem_descriptors, resource_descriptors,
  semaphore_descriptors, waiting_descriptors,
}

-- The sequence of each list.
abbrev pub View : Type 0
View = ListRef → List ℕ

-- The view with another sequence at `r`.
abbrev pub put : View → ListRef → List ℕ → View
put v r xs s = if same_ref s r then xs else v s

pub same_ref_self : (r : ListRef) → same_ref r r ≡ true
same_ref_self r = rw (==-self (field_of r), ==-self (owner_of r)) refl

-- The reference with a number and an address.
abbrev ref_of : (field owner : ℕ) → ListRef
ref_of f p =
    if f == 0
    then ready_list
    else if f == 1
    then waiting_list
    else if f == 2
    then zombie_list
    else if f == 3
    then resources_list
    else if f == 4
    then semaphores_list
    else if f == 5
    then timer_list
    else if f == 6
    then children p
    else if f == 7
    then descriptors p
    else if f == 8
    then sem_descriptors p
    else if f == 9
    then resource_descriptors p
    else if f == 10
    then semaphore_descriptors p
    else waiting_descriptors p

ref_of-owner_of : (r : ListRef) → ref_of (field_of r) (owner_of r) ≡ r
ref_of-owner_of ready_list = refl
ref_of-owner_of waiting_list = refl
ref_of-owner_of zombie_list = refl
ref_of-owner_of resources_list = refl
ref_of-owner_of semaphores_list = refl
ref_of-owner_of timer_list = refl
ref_of-owner_of (children p) = refl
ref_of-owner_of (descriptors p) = refl
ref_of-owner_of (sem_descriptors p) = refl
ref_of-owner_of (resource_descriptors p) = refl
ref_of-owner_of (semaphore_descriptors p) = refl
ref_of-owner_of (waiting_descriptors p) = refl

pub same_ref-eq : (r s : ListRef) → same_ref r s ≡ true → r ≡ s
same_ref-eq r s e =
    let f : field_of r ≡ field_of s = ground (arith, e) in
    let o : owner_of r ≡ owner_of s = ground (arith, e) in
    sym (ref_of-owner_of r)
    ∙ ap (λ x. ref_of x (owner_of r)) f
    ∙ ap (ref_of (field_of s)) o
    ∙ ref_of-owner_of s

pub same_ref-join :
    (r s t : ListRef) → same_ref s r ≡ true → same_ref t r ≡ true → same_ref s t ≡ true
same_ref-join r s t e e' = ground arith

pub same_ref-sym : (r s : ListRef) → same_ref r s ≡ false → same_ref s r ≡ false
same_ref-sym r s e = ground arith

-- A second sequence at the same place is what stays.
pub put-put_both :
    (v : View) (a b : ListRef) (xs ys xs' ys' : List ℕ) (s : ListRef)
    → put (put v a xs') b ys' s ≡ put (put (put (put v a xs) b ys) a xs') b ys' s
put-put_both v a b xs ys xs' ys' s = elim (Bool-cases (same_ref s b)) [
  | inl e ↦ rw e refl
  | inr ne ↦ elim (Bool-cases (same_ref s a)) [
    | inl e' ↦ rw (ne, e') refl
    | inr ne' ↦ rw (ne, ne') refl
  ]
]

-- Putting the sequence that is there already changes nothing.
pub put-same : (v : View) (r : ListRef) (xs : List ℕ) (s : ListRef) → v r ≡ xs → put v r xs s ≡ v s
put-same v r xs s e = elim (Bool-cases (same_ref s r)) [
  | inl i ↦ rw i (sym e ∙ ap v (sym (same_ref-eq s r i)))
  | inr ne ↦ rw ne refl
]
