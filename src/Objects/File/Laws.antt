-- ===== src/Objects/File/Laws.antt =====
-- What the functions of src/disastrOS_descriptor.c do on pools that are in order.
use disastr_os_semaphores.Common.{ℕ, ℤ, ◌≡◌, ◌≢◌, some, List, ◌∷◌, ==-ne}
use disastr_os_semaphores.LinkedList.{item_of}
use disastr_os_semaphores.PoolAllocator.Free.{IsValid}
use disastr_os_semaphores.PoolAllocator.Blocks.{taken}
use disastr_os_semaphores.Kernel.{Kernel, descriptor_pool, descriptor_ptr_pool, set_pool, update}
use disastr_os_semaphores.Kernel.Pools.{block_at, alloc-first}
use disastr_os_semaphores.Objects.File.{descriptor_alloc, descriptor_ptr_alloc}

-- The kernel with a new descriptor of the process `p` on the resource `res`, in the free block `i`.
abbrev pub file_described : Kernel → (i : ℕ) → (fd : ℤ) → (res p : ℕ) → Kernel
file_described k i fd res p =
    let a = k.pools descriptor_pool in
    let d = block_at a i in
    record k {
      pools = set_pool k.pools descriptor_pool (taken a i);
      links = update k.links d (item_of 0 0);
      descs = update k.descs d (record (k.descs d) { fd = fd; resource = res; pcb = p });
    }

pub descriptor_alloc-first :
    (k : Kernel) (i : ℕ) (fd : ℤ) (res p : ℕ) (is : List ℕ)
    → IsValid (k.pools descriptor_pool) (i ∷ is)
    → block_at (k.pools descriptor_pool) i ≢ 0
    → descriptor_alloc fd res p k
      ≡ some (block_at (k.pools descriptor_pool) i, file_described k i fd res p)
unfolding descriptor_alloc
descriptor_alloc-first k i fd res p is v ne =
    rw (alloc-first k descriptor_pool i is v)
      (simp (==-ne (block_at (k.pools descriptor_pool) i) 0 ne))

-- The kernel with a new pointer to the descriptor `d`, in the free block `j`.
abbrev pub file_pointed : Kernel → (j d : ℕ) → Kernel
file_pointed k j d =
    let a = k.pools descriptor_ptr_pool in
    let x = block_at a j in
    record k {
      pools = set_pool k.pools descriptor_ptr_pool (taken a j);
      links = update k.links x (item_of 0 0);
      desc_ptrs = update k.desc_ptrs x (record { descriptor = d });
    }

pub descriptor_ptr_alloc-first :
    (k : Kernel) (j d : ℕ) (js : List ℕ)
    → IsValid (k.pools descriptor_ptr_pool) (j ∷ js)
    → block_at (k.pools descriptor_ptr_pool) j ≢ 0
    → descriptor_ptr_alloc d k ≡ some (block_at (k.pools descriptor_ptr_pool) j, file_pointed k j d)
unfolding descriptor_ptr_alloc
descriptor_ptr_alloc-first k j d js v ne =
    rw (alloc-first k descriptor_ptr_pool j js v)
      (simp (==-ne (block_at (k.pools descriptor_ptr_pool) j) 0 ne))
