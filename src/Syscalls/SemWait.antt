-- ===== src/Syscalls/SemWait.antt =====
-- `internal_semWait`: src/disastrOS_semwait.c.
pub mod Laws
pub mod Blocks
use disastr_os_semaphores.Common.{ℕ, ℤ, pos, ◌==◌, ltb_ℤ, int_sub, if◌then◌else◌}
use disastr_os_semaphores.Kernel.{
  Kernel, M, pure, ◌>>=◌, ◌>>◌, waiting_list, sem_descriptors, waiting_descriptors, insert_back,
  set_pcb, get_sem_desc, get_semaphore, set_semaphore, skip, ProcessStatus, dsos_esemaphorewait,
}
use disastr_os_semaphores.Objects.Sem.{sem_descriptor_list_by_fd, sem_descriptor_ptr_alloc}
use disastr_os_semaphores.Syscalls.Common.{get_running, int_arg, set_retvalue}

-- The process is queued on the semaphore and put on the waiting list. It stays the running one.
unfoldable pub wait_on : (sem sem_desc : ℕ) → M (Unit {0})
wait_on sem sem_desc = do
  sem_desc_ptr ← sem_descriptor_ptr_alloc sem_desc
  insert_back (waiting_descriptors sem) sem_desc_ptr
  r ← get_running
  set_pcb r λ p. record p { status = ProcessStatus.waiting }
  insert_back waiting_list r
  skip

unfoldable pub internal_sem_wait : M (Unit {0})
unfolding wait_on
internal_sem_wait = do
  sem_fd ← int_arg 0
  r ← get_running
  sem_desc ← sem_descriptor_list_by_fd (sem_descriptors r) sem_fd
  if sem_desc == 0 then set_retvalue dsos_esemaphorewait else do
    d ← get_sem_desc sem_desc
    set_semaphore d.semaphore λ s. record s { count = int_sub s.count (pos 1) }
    s ← get_semaphore d.semaphore
    if ltb_ℤ s.count (pos 0) then wait_on d.semaphore sem_desc else skip
    set_retvalue (pos 0)
