-- ===== src/Tests/Files.antt =====
-- Closing and destroying a resource (src/disastrOS_close_resource.c and disastrOS_destroy_resource.c).
use disastr_os_semaphores.Common.{
  ==-ne, flag_set, ℕ, pos, ◌+◌, ◌*◌, ◌≡◌, ◌≢◌, refl, Bool, Bool-cases, inl, inr, true, false, some,
  [], ◌∷◌, arith, has, to_int, if◌then◌else◌, ◌==◌,
}
use disastr_os_semaphores.LinkedList.Seg.{Disjoint}
use disastr_os_semaphores.Kernel.{
  Kernel, ListRef, pool_number, same_ref, owner_of, ready_list, waiting_list, zombie_list,
  timer_list, children, descriptors, resources_list, semaphores_list, sem_descriptors,
  resource_descriptors, semaphore_descriptors, waiting_descriptors,
}
use disastr_os_semaphores.Kernel.Lists.{first_such}
use disastr_os_semaphores.Kernel.View.{View, same_ref-join}
use disastr_os_semaphores.Kernel.World.{World, IsOutside}
use disastr_os_semaphores.Syscalls.Files.{
  internal_open_resource, internal_close_resource, internal_destroy_resource,
}
use disastr_os_semaphores.Syscalls.Files.Opens.{
  CanOpenFile, OpenedFile, internal_open_resource-OpenedFile,
}
use disastr_os_semaphores.Syscalls.Files.Closes.{
  CanCloseFile, ClosedFile, internal_close_resource-ClosedFile,
}
use disastr_os_semaphores.Syscalls.Files.Destroys.{
  CanDestroy, Destroyed, internal_destroy_resource-Destroyed,
}
use disastr_os_semaphores.Tests.Kernel.{kernel_of, only, no_head}
use disastr_os_semaphores.Tests.Family.{one_of, one_of_only, has-none, one_or_none}
use disastr_os_semaphores.Tests.Open.{pool_at, pool_at-IsValid}

-- Resource 4000 has the number zero. If it is open, process 100 has descriptor 5000 on it, with the entry
-- 6000.
abbrev item_in : (is_open : Bool) → ListRef → ℕ
item_in is_open (descriptors p) = if is_open then 5000 else 0
item_in is_open (resource_descriptors p) = if is_open then 6000 else 0
item_in is_open resources_list = 4000
item_in is_open _ = 0

abbrev files_view : Bool → View
files_view is_open r = one_of (item_in is_open r)

abbrev lives : ListRef → Bool
lives (descriptors p) = p == 100
lives (resource_descriptors p) = p == 4000
lives resources_list = true
lives _ = false

abbrev files : Bool → Kernel
files is_open = record (kernel_of (pos 0) (pos 1) no_head no_head no_head) {
  heads = λ r. if item_in is_open r == 0 then no_head else only (item_in is_open r);
  pools = λ i. pool_at (1000 * (1 + pool_number i));
  resources = λ p. record { id = pos 0; type = pos 0 };
  descs = λ p. record { pcb = 100; resource = 4000; fd = pos 0; ptr = 6000 };
}

-- The list that an address is in.
abbrev home : ℕ → ListRef
home a =
    if a == 5000
    then descriptors 100
    else if a == 6000
    then resource_descriptors 4000
    else resources_list

item-home :
    (o : Bool) (r : ListRef) (a : ℕ)
    → lives r ≡ true
    → has a (files_view o r) ≡ true
    → same_ref r (home a) ≡ true
item-home true (descriptors p) a l i = let eq : a ≡ 5000 = one_of_only 5000 a i in rw eq l
item-home false (descriptors p) a l i = absurd (has-none a i)
item-home true (resource_descriptors p) a l i = let eq : a ≡ 6000 = one_of_only 6000 a i in rw eq l
item-home false (resource_descriptors p) a l i = absurd (has-none a i)
item-home o resources_list a l i = let eq : a ≡ 4000 = one_of_only 4000 a i in rw eq refl
item-home o ready_list a l i = cc
item-home o waiting_list a l i = cc
item-home o zombie_list a l i = cc
item-home o timer_list a l i = cc
item-home o semaphores_list a l i = cc
item-home o (children p) a l i = cc
item-home o (sem_descriptors p) a l i = cc
item-home o (semaphore_descriptors p) a l i = cc
item-home o (waiting_descriptors p) a l i = cc

lives_owner : (r : ListRef) → lives r ≡ true → owner_of r ≢ 0
lives_owner (descriptors p) l z = ground (arith, l)
lives_owner (resource_descriptors p) l z = ground (arith, l)
lives_owner (children p) l z = cc
lives_owner (sem_descriptors p) l z = cc
lives_owner (semaphore_descriptors p) l z = cc
lives_owner (waiting_descriptors p) l z = cc
lives_owner resources_list l z = ground arith
lives_owner ready_list l z = cc
lives_owner waiting_list l z = cc
lives_owner zombie_list l z = cc
lives_owner timer_list l z = cc
lives_owner semaphores_list l z = cc

files_apart :
    (o : Bool) (r s : ListRef)
    → lives r ≡ true
    → lives s ≡ true
    → same_ref r s ≡ false
    → Disjoint (files_view o r) (files_view o s)
files_apart o r s lr ls ne a i = elim (Bool-cases (has a (files_view o s))) [
  | inl j ↦
      let both = same_ref-join (home a) r s (item-home o r a lr i) (item-home o s a ls j) in cc
  | inr n ↦ n
]

files-World : (o : Bool) → World (files o) lives (files_view o)
files-World o = record {
  lists = λ r lr. one_or_none (item_in o r);
  owners = lives_owner;
  apart = files_apart o;
}

files-CanCloseFile :
    CanCloseFile
      (files true)
      lives
      (files_view true)
      5000
      6000
      4000
      []
      []
      []
      []
      0
      0
      (1 ∷ [])
      (1 ∷ [])
unfolding first_such to_int
files-CanCloseFile = record {
  world = files-World true;
  live_files = refl;
  live_entries = refl;
  files = refl;
  few = omega arith;
  found = refl;
  resource = refl;
  entry = refl;
  entries = refl;
  descs = pool_at-IsValid 5000;
  ptrs = pool_at-IsValid 6000;
  desc_block = refl;
  ptr_block = refl;
  desc_held = (omega arith, refl);
  ptr_held = (omega arith, refl);
}

internal_close_resource-ClosedFile_example :
    (k' : Kernel) × (internal_close_resource (files true) ≡ some (tt, k'))
    × ClosedFile (files true) k' lives (files_view true) 4000 [] [] [] [] 0 0 (1 ∷ []) (1 ∷ [])
internal_close_resource-ClosedFile_example =
    internal_close_resource-ClosedFile (files true) lives (files_view true) 5000 6000 4000 [] [] []
      [] 0 0 (1 ∷ []) (1 ∷ []) files-CanCloseFile

files-CanDestroy : CanDestroy (files false) lives (files_view false) 4000 [] [] [] 0 (1 ∷ [])
unfolding first_such to_int
files-CanDestroy = record {
  world = files-World false;
  runs = omega arith;
  live_resources = refl;
  live_entries = refl;
  resources = refl;
  few = omega arith;
  found = refl;
  entries = refl;
  pool = pool_at-IsValid 4000;
  block = refl;
  held = (omega arith, refl);
}

internal_destroy_resource-Destroyed_example :
    (k' : Kernel) × (internal_destroy_resource (files false) ≡ some (tt, k'))
    × Destroyed (files false) k' lives (files_view false) [] [] [] 0 (1 ∷ [])
internal_destroy_resource-Destroyed_example =
    internal_destroy_resource-Destroyed (files false) lives (files_view false) 4000 [] [] [] 0
      (1 ∷ []) files-CanDestroy

closed_outside : (x : ℕ) → x ≢ 4000 → IsOutside lives (files_view false) x
closed_outside x n (descriptors p) l = refl
closed_outside x n (resource_descriptors p) l = refl
closed_outside x n resources_list l = rw (==-ne x 4000 n) refl
closed_outside x n ready_list l = refl
closed_outside x n waiting_list l = refl
closed_outside x n zombie_list l = refl
closed_outside x n timer_list l = refl
closed_outside x n semaphores_list l = refl
closed_outside x n (children p) l = refl
closed_outside x n (sem_descriptors p) l = refl
closed_outside x n (semaphore_descriptors p) l = refl
closed_outside x n (waiting_descriptors p) l = refl

files-CanOpenFile :
    CanOpenFile (files false) lives (files_view false) 4000 (4000 ∷ []) [] [] 1 1 [] []
unfolding first_such to_int flag_set
files-CanOpenFile = record {
  world = files-World false;
  live_resources = refl;
  live_files = refl;
  live_entries = refl;
  resources = refl;
  few = omega arith;
  found = refl;
  type = refl;
  no_create = refl;
  allowed = refl;
  files = refl;
  entries = refl;
  descs = pool_at-IsValid 5000;
  ptrs = pool_at-IsValid 6000;
  file_ne = omega arith;
  entry_ne = omega arith;
  file_out = closed_outside 5008 (omega arith);
  entry_out = closed_outside 6008 (omega arith);
  other = omega arith;
  room = (omega arith, omega arith);
}

internal_open_resource-OpenedFile_example :
    (k' : Kernel) × (internal_open_resource (files false) ≡ some (tt, k'))
    × OpenedFile (files false) k' lives (files_view false) 4000 [] [] 1 1 [] []
internal_open_resource-OpenedFile_example =
    internal_open_resource-OpenedFile (files false) lives (files_view false) 4000 (4000 ∷ []) [] []
      1 1 [] [] files-CanOpenFile
