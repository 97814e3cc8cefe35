-- ===== src/Objects/Sem.antt =====
-- Semaphores and their descriptors: src/disastrOS_semaphore.c and disastrOS_semdescriptor.c.
pub mod Laws
use disastr_os_semaphores.Common.{ℕ, ℤ, ◌==◌, ◌==ℤ◌, if◌then◌else◌}
use disastr_os_semaphores.LinkedList.{list_init}
use disastr_os_semaphores.PoolAllocator.{PoolAllocatorResult}
use disastr_os_semaphores.Kernel.{
  Kernel, M, pure, ◌>>=◌, ◌>>◌, semaphore_pool, sem_descriptor_pool, sem_descriptor_ptr_pool,
  ListRef, semaphore_descriptors, waiting_descriptors, alloc, release, unlink, set_semaphore,
  set_sem_desc, put_sem_desc_ptr, put_head, get_head, find_in, fault_if,
}

unfoldable pub semaphore_alloc : (id count : ℤ) → M ℕ
semaphore_alloc id count = do
  r ← alloc semaphore_pool
  if r == 0 then pure 0 else do
    unlink r
    set_semaphore r λ s. record { id = id; count = count }
    put_head (semaphore_descriptors r) list_init
    put_head (waiting_descriptors r) list_init
    pure r

-- `Semaphore_free` asserts that no descriptor is left. Nothing calls it.
unfoldable pub semaphore_free : ℕ → M PoolAllocatorResult
semaphore_free r = do
  h ← get_head (semaphore_descriptors r)
  fault_if h.first
  fault_if h.last
  release semaphore_pool r

unfoldable pub semaphore_list_by_id : ListRef → (id : ℤ) → M ℕ
unfolding find_in
semaphore_list_by_id l id = find_in l λ k p. (k.semaphores p).id ==ℤ id

unfoldable pub sem_descriptor_alloc : (fd : ℤ) → (res pcb : ℕ) → M ℕ
sem_descriptor_alloc fd res pcb = do
  d ← alloc sem_descriptor_pool
  if d == 0
      then pure 0
      else do unlink d; set_sem_desc d λ v. record v { fd = fd; semaphore = res; pcb = pcb }; pure d

unfoldable pub sem_descriptor_free : ℕ → M PoolAllocatorResult
sem_descriptor_free d = release sem_descriptor_pool d

unfoldable pub sem_descriptor_list_by_fd : ListRef → (fd : ℤ) → M ℕ
unfolding find_in
sem_descriptor_list_by_fd l fd = find_in l λ k p. (k.sem_descs p).fd ==ℤ fd

unfoldable pub sem_descriptor_ptr_alloc : (descriptor : ℕ) → M ℕ
sem_descriptor_ptr_alloc descriptor = do
  d ← alloc sem_descriptor_ptr_pool
  if d == 0
      then pure 0
      else do unlink d; put_sem_desc_ptr d (record { descriptor = descriptor }); pure d

unfoldable pub sem_descriptor_ptr_free : ℕ → M PoolAllocatorResult
sem_descriptor_ptr_free d = release sem_descriptor_ptr_pool d
