-- ===== src/Objects/Sem/Laws.antt =====
-- What the functions of src/disastrOS_semdescriptor.c do on pools and lists that are in order.
use disastr_os_semaphores.Common.{
  ℕ, ℤ, ◌≤◌, ◌≡◌, ◌≢◌, some, List, ◌∷◌, length, ==-ne, ◌==ℤ◌, to_int,
}
use disastr_os_semaphores.LinkedList.{item_of, list_init}
use disastr_os_semaphores.PoolAllocator.Free.{IsValid}
use disastr_os_semaphores.PoolAllocator.Blocks.{taken}
use disastr_os_semaphores.Kernel.{
  Kernel, set_heads, semaphore_pool, sem_descriptor_pool, semaphore_descriptors,
  waiting_descriptors, sem_descriptor_ptr_pool, set_pool, update, sem_descriptors,
}
use disastr_os_semaphores.Kernel.Pools.{block_at, alloc-first}
use disastr_os_semaphores.Kernel.Lists.{ListIs, first_such, find_in-first_such}
use disastr_os_semaphores.Objects.Sem.{
  sem_descriptor_list_by_fd, sem_descriptor_ptr_alloc, sem_descriptor_alloc, semaphore_alloc,
}

-- The kernel with a new pointer to the descriptor `d`, in the first free block of its pool.
abbrev pub pointed : Kernel → (i d : ℕ) → Kernel
pointed k i d =
    let a = k.pools sem_descriptor_ptr_pool in
    record k {
      pools = set_pool k.pools sem_descriptor_ptr_pool (taken a i);
      links = update k.links (block_at a i) (item_of 0 0);
      sem_desc_ptrs = update k.sem_desc_ptrs (block_at a i) (record { descriptor = d });
    }

pub sem_descriptor_ptr_alloc-first :
    (k : Kernel) (i d : ℕ) (is : List ℕ)
    → IsValid (k.pools sem_descriptor_ptr_pool) (i ∷ is)
    → block_at (k.pools sem_descriptor_ptr_pool) i ≢ 0
    → sem_descriptor_ptr_alloc d k
      ≡ some (block_at (k.pools sem_descriptor_ptr_pool) i, pointed k i d)
unfolding sem_descriptor_ptr_alloc
sem_descriptor_ptr_alloc-first k i d is v ne =
    rw (alloc-first k sem_descriptor_ptr_pool i is v)
      (simp (==-ne (block_at (k.pools sem_descriptor_ptr_pool) i) 0 ne))

-- The kernel with a new descriptor of the process `p` on the semaphore `sem`, in the free block `i`.
abbrev pub described : Kernel → (i : ℕ) → (fd : ℤ) → (sem p : ℕ) → Kernel
described k i fd sem p =
    let a = k.pools sem_descriptor_pool in
    let d = block_at a i in
    record k {
      pools = set_pool k.pools sem_descriptor_pool (taken a i);
      links = update k.links d (item_of 0 0);
      sem_descs =
          update k.sem_descs d (record (k.sem_descs d) { fd = fd; semaphore = sem; pcb = p });
    }

pub sem_descriptor_alloc-first :
    (k : Kernel) (i : ℕ) (fd : ℤ) (sem p : ℕ) (is : List ℕ)
    → IsValid (k.pools sem_descriptor_pool) (i ∷ is)
    → block_at (k.pools sem_descriptor_pool) i ≢ 0
    → sem_descriptor_alloc fd sem p k
      ≡ some (block_at (k.pools sem_descriptor_pool) i, described k i fd sem p)
unfolding sem_descriptor_alloc
sem_descriptor_alloc-first k i fd sem p is v ne =
    rw (alloc-first k sem_descriptor_pool i is v)
      (simp (==-ne (block_at (k.pools sem_descriptor_pool) i) 0 ne))

-- The kernel with a new semaphore in the free block `i`.
abbrev pub made : Kernel → (i : ℕ) → (id count : ℤ) → Kernel
made k i id count =
    let a = k.pools semaphore_pool in
    let s = block_at a i in
    record k {
      pools = set_pool k.pools semaphore_pool (taken a i);
      links = update k.links s (item_of 0 0);
      semaphores = update k.semaphores s (record { id = id; count = count });
      heads =
          set_heads (set_heads k.heads (semaphore_descriptors s) list_init) (waiting_descriptors s)
            list_init;
    }

pub semaphore_alloc-first :
    (k : Kernel) (i : ℕ) (id count : ℤ) (is : List ℕ)
    → IsValid (k.pools semaphore_pool) (i ∷ is)
    → block_at (k.pools semaphore_pool) i ≢ 0
    → semaphore_alloc id count k ≡ some (block_at (k.pools semaphore_pool) i, made k i id count)
unfolding semaphore_alloc
semaphore_alloc-first k i id count is v ne =
    rw (alloc-first k semaphore_pool i is v)
      (simp (==-ne (block_at (k.pools semaphore_pool) i) 0 ne))

-- The descriptor number that the running process passes is that of `d`, which is open on `sem`.
pub record HasOpen (k : Kernel) (ds : List ℕ) (d sem : ℕ) : Type 0 where
  pub running : k.running ≢ 0
  pub list : ListIs k (sem_descriptors k.running) ds
  pub few : length ds ≤ 1024
  pub first :
      first_such (λ p. (k.sem_descs p).fd ==ℤ to_int ((k.pcbs k.running).syscall_args 0)) ds ≡ d
  pub desc : d ≢ 0
  pub semaphore : (k.sem_descs d).semaphore ≡ sem
  pub sem_ne : sem ≢ 0

pub sem_descriptor_list_by_fd-first :
    (k : Kernel) (ds : List ℕ) (p : ℕ) (fd : ℤ)
    → p ≢ 0
    → ListIs k (sem_descriptors p) ds
    → length ds ≤ 1024
    → sem_descriptor_list_by_fd (sem_descriptors p) fd k
      ≡ some (first_such (λ q. (k.sem_descs q).fd ==ℤ fd) ds, k)
unfolding sem_descriptor_list_by_fd
sem_descriptor_list_by_fd-first k ds p fd ne is few =
    find_in-first_such k (sem_descriptors p) (λ k' q. (k'.sem_descs q).fd ==ℤ fd) ds ne is few
