-- ===== src/Objects/Process/Laws.antt =====
-- What the functions of src/disastrOS_pcb.c do on pools that are in order.
use disastr_os_semaphores.Common.{ℕ, pos, ◌≡◌, ◌≢◌, some, List, ◌∷◌, ==-ne, int_add}
use disastr_os_semaphores.LinkedList.{item_of, list_init}
use disastr_os_semaphores.PoolAllocator.Free.{IsValid}
use disastr_os_semaphores.PoolAllocator.Blocks.{taken}
use disastr_os_semaphores.Kernel.{
  Kernel, pcb_pool, pcb_ptr_pool, set_pool, update, set_heads, children, descriptors,
}
use disastr_os_semaphores.Kernel.Pools.{block_at, alloc-first}
use disastr_os_semaphores.Objects.Process.{fresh_pcb, pcb_alloc, pcb_ptr_alloc}

-- The kernel with a new PCB in the free block `i`.
abbrev pub born : Kernel → ℕ → Kernel
born k i =
    let a = k.pools pcb_pool in
    let p = block_at a i in
    record k {
      pools = set_pool k.pools pcb_pool (taken a i);
      links = update k.links p (item_of 0 0);
      last_pid = int_add k.last_pid (pos 1);
      pcbs = update k.pcbs p (fresh_pcb k.last_pid (k.pcbs p));
      heads =
          set_heads (set_heads (set_heads k.heads (descriptors p) list_init) (children p) list_init)
            (descriptors p) list_init;
    }

pub pcb_alloc-first :
    (k : Kernel) (i : ℕ) (is : List ℕ)
    → IsValid (k.pools pcb_pool) (i ∷ is)
    → block_at (k.pools pcb_pool) i ≢ 0
    → pcb_alloc k ≡ some (block_at (k.pools pcb_pool) i, born k i)
unfolding pcb_alloc
pcb_alloc-first k i is v ne =
    rw (alloc-first k pcb_pool i is v) (simp (==-ne (block_at (k.pools pcb_pool) i) 0 ne))

-- The kernel with a new pointer to the PCB `p`, in the free block `i`.
abbrev pub pcb_pointed : Kernel → (i p : ℕ) → Kernel
pcb_pointed k i p =
    let a = k.pools pcb_ptr_pool in
    record k {
      pools = set_pool k.pools pcb_ptr_pool (taken a i);
      links = update k.links (block_at a i) (item_of 0 0);
      pcb_ptrs = update k.pcb_ptrs (block_at a i) (record { pcb = p });
    }

pub pcb_ptr_alloc-first :
    (k : Kernel) (i p : ℕ) (is : List ℕ)
    → IsValid (k.pools pcb_ptr_pool) (i ∷ is)
    → block_at (k.pools pcb_ptr_pool) i ≢ 0
    → pcb_ptr_alloc p k ≡ some (block_at (k.pools pcb_ptr_pool) i, pcb_pointed k i p)
unfolding pcb_ptr_alloc
pcb_ptr_alloc-first k i p is v ne =
    rw (alloc-first k pcb_ptr_pool i is v) (simp (==-ne (block_at (k.pools pcb_ptr_pool) i) 0 ne))
