-- ===== src/Tests/Family.antt =====
-- A kernel in which process 100 has the child 1000 and this the child 700; the entries are 2000 and
-- 2100. One more list has at most one process.
use disastr_os_semaphores.Common.{
  ℕ, pos, ◌+◌, ◌*◌, ◌≡◌, ◌≢◌, refl, Bool, Bool-cases, inl, inr, true, false, not, List, [], ◌∷◌,
  arith, has, ==-ne, if◌then◌else◌, ◌==◌,
}
use disastr_os_semaphores.LinkedList.{item_of}
use disastr_os_semaphores.LinkedList.Seg.{IsList, Disjoint}
use disastr_os_semaphores.Kernel.{
  Kernel, ListRef, pool_number, same_ref, owner_of, ready_list, waiting_list, zombie_list,
  timer_list, children, descriptors, resources_list, semaphores_list, sem_descriptors,
  resource_descriptors, semaphore_descriptors, waiting_descriptors, ProcessStatus, dsos_call_wait,
}
use disastr_os_semaphores.Kernel.View.{View, same_ref-join}
use disastr_os_semaphores.Kernel.World.{World, IsOutside}
use disastr_os_semaphores.Tests.Kernel.{kernel_of, a_pcb, only, no_head, none-IsList, only-IsList}
use disastr_os_semaphores.Tests.Open.{pool_at}

-- The process in the list `place`, and the lists of children.
abbrev pub item_in : (place : ListRef) (who : ℕ) → ListRef → ℕ
item_in place who (children p) = if p == 100 then 2000 else if p == 1000 then 2100 else 0
item_in place who r = if same_ref r place then who else 0

abbrev pub one_of : ℕ → List ℕ
one_of a = if a == 0 then [] else a ∷ []

abbrev pub family_view : (place : ListRef) (who : ℕ) → View
family_view place who r = one_of (item_in place who r)

abbrev pub alive : ListRef → Bool
alive ready_list = true
alive waiting_list = true
alive zombie_list = true
alive timer_list = true
alive (children p) = not (p == 0)
alive (descriptors p) = not (p == 0)
alive _ = false

abbrev pub family : (place : ListRef) (who running init : ℕ) (child parent : ProcessStatus) → Kernel
family place who running init child parent =
    record (kernel_of (pos dsos_call_wait) (pos 1) no_head no_head no_head) {
      heads = λ r. if item_in place who r == 0 then no_head else only (item_in place who r);
      pools = λ i. pool_at (1000 * (1 + pool_number i));
      pcbs = λ p. record (a_pcb (pos dsos_call_wait)) {
        pid = if p == 1000 then pos 2 else pos 1;
        parent = if p == 1000 then 100 else 900;
        status = if p == 1000 then child else parent;
        return_value = pos 5;
        syscall_args = λ i. if i == 1 then pos 40 else pos 0;
      };
      pcb_ptrs = λ e. record { pcb = if e == 2000 then 1000 else 700 };
      running = running;
      init_pcb = init;
    }

-- The list that an address is in.
abbrev home : (place : ListRef) → ℕ → ListRef
home place a = if a == 2000 then children 100 else if a == 2100 then children 1000 else place

not_one : (x y : ℕ) → x ≢ y → has x (one_of y) ≡ false
not_one x y n = elim (Bool-cases (y == 0)) [ inl e ↦ rw e refl | inr e ↦ rw (e, ==-ne x y n) refl ]

pub one_of_only : (x a : ℕ) → has a (one_of x) ≡ true → a ≡ x
one_of_only x a i = ground (arith, i)

pub has-none : (a : ℕ) → has a (one_of 0) ≢ true
has-none a i = ground (arith, i)

pub one_or_none :
    (x : ℕ) → IsList (λ a. item_of 0 0) (if x == 0 then no_head else only x) (one_of x)
one_or_none x = elim (Bool-cases (x == 0)) [
  | inl e ↦ rw e none-IsList
  | inr e ↦ rw e (only-IsList x (ground (arith, e)))
]

alive_owner : (r : ListRef) → alive r ≡ true → owner_of r ≢ 0
alive_owner ready_list e z = ground arith
alive_owner waiting_list e z = ground arith
alive_owner zombie_list e z = ground arith
alive_owner timer_list e z = ground arith
alive_owner (children p) e z = ground (arith, e)
alive_owner (descriptors p) e z = ground (arith, e)
alive_owner resources_list e z = ground arith
alive_owner semaphores_list e z = ground arith
alive_owner (sem_descriptors p) e z = ground (arith, e)
alive_owner (resource_descriptors p) e z = ground (arith, e)
alive_owner (semaphore_descriptors p) e z = ground (arith, e)
alive_owner (waiting_descriptors p) e z = ground (arith, e)

module _ (place : ListRef) (who : ℕ) (n : who ≢ 2000) (m : who ≢ 2100) where
  elsewhere :
      (r : ListRef) (a : ℕ)
      → has a (one_of (if same_ref r place then who else 0)) ≡ true
      → same_ref r (home place a) ≡ true
  elsewhere r a i = elim (Bool-cases (same_ref r place)) [
    | inl e ↦
        let eq : a ≡ who = one_of_only who a (rw e at i) in
        rw (eq, ==-ne who 2000 n, ==-ne who 2100 m) e
    | inr e ↦ absurd (has-none a (rw e at i))
  ]

  item-home :
      (r : ListRef) (a : ℕ)
      → has a (family_view place who r) ≡ true
      → same_ref r (home place a) ≡ true
  item-home (children p) a i = elim (Bool-cases (p == 100)) [
    | inl e ↦ let eq : a ≡ 2000 = one_of_only 2000 a (rw e at i) in rw (eq) e
    | inr e ↦ elim (Bool-cases (p == 1000)) [
      | inl e' ↦ let eq : a ≡ 2100 = one_of_only 2100 a (rw (e, e') at i) in rw (eq) e'
      | inr e' ↦ absurd (has-none a (rw (e, e') at i))
    ]
  ]
  item-home ready_list a i = elsewhere ready_list a i
  item-home waiting_list a i = elsewhere waiting_list a i
  item-home zombie_list a i = elsewhere zombie_list a i
  item-home timer_list a i = elsewhere timer_list a i
  item-home resources_list a i = elsewhere resources_list a i
  item-home semaphores_list a i = elsewhere semaphores_list a i
  item-home (descriptors p) a i = elsewhere (descriptors p) a i
  item-home (sem_descriptors p) a i = elsewhere (sem_descriptors p) a i
  item-home (resource_descriptors p) a i = elsewhere (resource_descriptors p) a i
  item-home (semaphore_descriptors p) a i = elsewhere (semaphore_descriptors p) a i
  item-home (waiting_descriptors p) a i = elsewhere (waiting_descriptors p) a i

  family_apart :
      (r s : ListRef)
      → same_ref r s ≡ false
      → Disjoint (family_view place who r) (family_view place who s)
  family_apart r s ne a i = elim (Bool-cases (has a (family_view place who s))) [
    | inl j ↦ let both = same_ref-join (home place a) r s (item-home r a i) (item-home s a j) in cc
    | inr o ↦ o
  ]

  pub family-World :
      (running init : ℕ) (child parent : ProcessStatus)
      → World (family place who running init child parent) alive (family_view place who)
  family-World running init child parent = record {
    lists = λ r lr. one_or_none (item_in place who r);
    owners = alive_owner;
    apart = λ r s lr ls ne. family_apart r s ne;
  }

-- What holds of the three addresses and of none holds of whatever a list has.
module _ (place : ListRef) (who : ℕ) (P : ℕ → Type 0) (p : P 2000) (q : P 2100) (w : P who)
    (z : P 0) where
  choose : (b : Bool) (x y : ℕ) → P x → P y → P (if b then x else y)
  choose true x y px py = px
  choose false x y px py = py

  in_place : (r : ListRef) → P (if same_ref r place then who else 0)
  in_place r = choose (same_ref r place) who 0 w z

  among : (r : ListRef) → P (item_in place who r)
  among (children c) =
      choose (c == 100) 2000 (if c == 1000 then 2100 else 0) p (choose (c == 1000) 2100 0 q z)
  among ready_list = in_place ready_list
  among waiting_list = in_place waiting_list
  among zombie_list = in_place zombie_list
  among timer_list = in_place timer_list
  among resources_list = in_place resources_list
  among semaphores_list = in_place semaphores_list
  among (descriptors c) = in_place (descriptors c)
  among (sem_descriptors c) = in_place (sem_descriptors c)
  among (resource_descriptors c) = in_place (resource_descriptors c)
  among (semaphore_descriptors c) = in_place (semaphore_descriptors c)
  among (waiting_descriptors c) = in_place (waiting_descriptors c)

-- A process that is none of them is in no list.
pub family-IsOutside :
    (place : ListRef) (who x : ℕ)
    → x ≢ 2000
    → x ≢ 2100
    → x ≢ who
    → IsOutside alive (family_view place who) x
family-IsOutside place who x a b c r lr =
    among place who (λ y. has x (one_of y) ≡ false) (not_one x 2000 a) (not_one x 2100 b)
      (not_one x who c) refl r
