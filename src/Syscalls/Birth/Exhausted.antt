-- ===== src/Syscalls/Birth/Exhausted.antt =====
-- Making a process when there is no block left for it (src/disastrOS_pcb.c, disastrOS_fork.c and
-- disastrOS_spawn.c).
use disastr_os_semaphores.Common.{◌≡◌, refl, none, []}
use disastr_os_semaphores.PoolAllocator.Free.{IsValid}
use disastr_os_semaphores.PoolAllocator.Blocks.{get_block-exhausted}
use disastr_os_semaphores.Kernel.{Kernel, pcb_pool, alloc}
use disastr_os_semaphores.Objects.Process.{pcb_alloc}
use disastr_os_semaphores.Syscalls.Birth.{internal_fork, internal_spawn}

pcb_alloc-exhausted : (k : Kernel) → IsValid (k.pools pcb_pool) [] → pcb_alloc k ≡ none
unfolding pcb_alloc alloc
pcb_alloc-exhausted k v = rw (get_block-exhausted (k.pools pcb_pool) v) refl

-- With no block left for a process, `PCB_alloc` writes to NULL: `internal_fork` and `internal_spawn`
-- fault, and never return `DSOS_ESPAWN`.
pub births-exhausted :
    (k : Kernel)
    → IsValid (k.pools pcb_pool) []
    → (internal_fork k ≡ none) × (internal_spawn k ≡ none)
unfolding internal_fork internal_spawn
births-exhausted k v = (rw (pcb_alloc-exhausted k v) refl, rw (pcb_alloc-exhausted k v) refl)
