-- ===== src/Syscalls/SemPost.antt =====
-- `internal_semPost`: src/disastrOS_sempost.c.
pub mod Laws
pub mod Wakes
use disastr_os_semaphores.Common.{ℕ, ℤ, pos, ◌==◌, ltb_ℤ, int_add, not, if◌then◌else◌}
use disastr_os_semaphores.Kernel.{
  Kernel, M, pure, ◌>>=◌, ◌>>◌, waiting_list, ready_list, sem_descriptors, waiting_descriptors,
  insert_back, detach_first, detach_at, set_pcb, get_sem_desc, get_sem_desc_ptr, get_semaphore,
  set_semaphore, skip, ProcessStatus, dsos_eresourceopen,
}
use disastr_os_semaphores.Objects.Sem.{sem_descriptor_list_by_fd}
use disastr_os_semaphores.Syscalls.Common.{get_running, int_arg, set_retvalue}

-- The first process that waits on the semaphore is made ready.
unfoldable pub wake_first : (sem : ℕ) → M (Unit {0})
wake_first sem = do
  sem_desc_ptr ← detach_first (waiting_descriptors sem)
  if sem_desc_ptr == 0 then set_retvalue dsos_eresourceopen else do
    dp ← get_sem_desc_ptr sem_desc_ptr
    d ← get_sem_desc dp.descriptor
    ret ← detach_at waiting_list d.pcb
    if ret == 0 then set_retvalue dsos_eresourceopen else do
      set_pcb d.pcb λ p. record p { status = ProcessStatus.ready }
      insert_back ready_list d.pcb
      set_retvalue (pos 0)

-- The descriptor that is found is used without a test: on NULL this faults.
unfoldable pub internal_sem_post : M (Unit {0})
unfolding wake_first
internal_sem_post = do
  fd ← int_arg 0
  r ← get_running
  sem_desc ← sem_descriptor_list_by_fd (sem_descriptors r) fd
  d ← get_sem_desc sem_desc
  set_semaphore d.semaphore λ s. record s { count = int_add s.count (pos 1) }
  s ← get_semaphore d.semaphore
  if not (ltb_ℤ (pos 0) s.count) then wake_first d.semaphore else set_retvalue (pos 0)
