-- ===== src/Syscalls/Start.antt =====
-- The start of the system: `disastrOS_start` (src/disastrOS.c) and the `_init` functions of the
-- objects.
pub mod Pools
pub mod Ready
use disastr_os_semaphores.Common.{ℕ, ℤ, pos, ◌+◌, ◌*◌, Option, none, some, to_int}
use disastr_os_semaphores.LinkedList.{list_init}
use disastr_os_semaphores.PoolAllocator
use disastr_os_semaphores.PoolAllocator.{
  PoolAllocator, PoolAllocatorResult, success, not_enough_memory, unaligned_free, out_of_range,
  double_free, int_size,
}
use disastr_os_semaphores.Kernel.{
  M, ◌>>=◌, ◌>>◌, modify, ready_list, waiting_list, zombie_list, resources_list, semaphores_list,
  timer_list, put_head, PoolId, pcb_pool, pcb_ptr_pool, timer_pool, resource_pool, descriptor_pool,
  descriptor_ptr_pool, semaphore_pool, sem_descriptor_pool, sem_descriptor_ptr_pool, set_pool,
  set_pcb, set_running, ProcessStatus, max_num_processes, max_num_resources, max_num_semaphores,
}
use disastr_os_semaphores.Objects.Process.{pcb_alloc}

-- What the compiler and the linker choose: the size of each struct, and where its buffer stands.
pub record Layout : Type 0 where
  pub item_size : PoolId → ℕ
  pub buffer : PoolId → ℕ

-- `assert(! result)`
abbrev pub assert_success : PoolId → Option (PoolAllocatorResult × PoolAllocator) → M (Unit {0})
assert_success i (some (success, a)) k = some (tt, record k { pools = set_pool k.pools i a })
assert_success i _ k = none

module _ (c : Layout) where
  -- `PoolAllocator_init` of a pool whose buffer is made for `capacity` items.
  unfoldable pub pool_init : PoolId → (num_items capacity : ℕ) → M (Unit {0})
  pool_init i num_items capacity k =
      assert_success i
        (PoolAllocator.init (k.pools i) (c.item_size i) num_items (c.buffer i)
          (to_int (pos (capacity * (c.item_size i + int_size)))))
        k

  unfoldable pub pcb_init : M (Unit {0})
  unfolding pool_init
  pcb_init = do
    pool_init pcb_pool max_num_processes max_num_processes
    pool_init pcb_ptr_pool max_num_processes max_num_processes

  unfoldable pub timer_init : M (Unit {0})
  unfolding pool_init
  timer_init = pool_init timer_pool max_num_processes max_num_processes

  unfoldable pub resource_init : M (Unit {0})
  unfolding pool_init
  resource_init = pool_init resource_pool max_num_resources max_num_resources

  -- The buffers have room for 32 descriptors per process; the pools take one per process.
  unfoldable pub descriptor_init : M (Unit {0})
  unfolding pool_init
  descriptor_init = do
    pool_init descriptor_pool max_num_processes (32 * max_num_processes)
    pool_init descriptor_ptr_pool max_num_processes (32 * max_num_processes)

  unfoldable pub semaphore_init : M (Unit {0})
  unfolding pool_init
  semaphore_init = pool_init semaphore_pool max_num_semaphores max_num_semaphores

  unfoldable pub sem_descriptor_init : M (Unit {0})
  unfolding pool_init
  sem_descriptor_init = do
    pool_init sem_descriptor_pool max_num_processes (32 * max_num_processes)
    pool_init sem_descriptor_ptr_pool max_num_processes (32 * max_num_processes)

  -- The system call tables are `syscall_vector` and `syscall_numarg`. Contexts, signals and the log
  -- file are left out.
  unfoldable pub disastr_os_start : (f f_args : ℤ) → M (Unit {0})
  unfolding pcb_init timer_init resource_init descriptor_init semaphore_init sem_descriptor_init
  disastr_os_start f f_args = do
    pcb_init
    timer_init
    resource_init
    descriptor_init
    semaphore_init
    sem_descriptor_init
    modify λ k. record k { init_pcb = 0 }
    set_running 0
    put_head ready_list list_init
    put_head waiting_list list_init
    put_head zombie_list list_init
    put_head resources_list list_init
    put_head semaphores_list list_init
    put_head timer_list list_init
    running ← pcb_alloc
    set_running running
    set_pcb running λ p. record p { status = ProcessStatus.running }
    modify λ k. record k { init_pcb = running }
    set_pcb running λ p. record p { entry = f; entry_arg = f_args }
