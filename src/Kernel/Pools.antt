-- ===== src/Kernel/Pools.antt =====
-- What the pools of the kernel hand out.
use disastr_os_semaphores.Common.{ℕ, ◌+◌, ◌*◌, ◌≡◌, ap, some, List, ◌∷◌}
use disastr_os_semaphores.PoolAllocator.{PoolAllocator}
use disastr_os_semaphores.PoolAllocator.Free.{IsValid}
use disastr_os_semaphores.PoolAllocator.Blocks.{taken, get_block_first}
use disastr_os_semaphores.Kernel.Types.{PoolId}
use disastr_os_semaphores.Kernel.State.{Kernel}
use disastr_os_semaphores.Kernel.Memory.{alloc, set_pool, pool_back}

-- The address of block `i` of a pool.
abbrev pub block_at : PoolAllocator → ℕ → ℕ
block_at a i = a.buffer + i * a.item_size

pub alloc-first :
    (k : Kernel) (id : PoolId) (i : ℕ) (is : List ℕ)
    → IsValid (k.pools id) (i ∷ is)
    → alloc id k
      ≡ some
          (block_at (k.pools id) i, record k { pools = set_pool k.pools id (taken (k.pools id) i) })
unfolding alloc
alloc-first k id i is v = ap (λ o. pool_back id o k) (get_block_first (k.pools id) i is v)
