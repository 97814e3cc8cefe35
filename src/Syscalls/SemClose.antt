-- ===== src/Syscalls/SemClose.antt =====
-- `internal_semClose`: src/disastrOS_semclose.c.
pub mod Refuses
pub mod Closes
use disastr_os_semaphores.Common.{ℕ, pos, ◌==◌, ◌==ℤ◌, if◌then◌else◌}
use disastr_os_semaphores.Kernel.{
  M, ◌>>=◌, ◌>>◌, semaphores_list, sem_descriptors, semaphore_descriptors, get_head, detach_at,
  get_sem_desc, assert_set, skip, dsos_esemaphoreclose,
}
use disastr_os_semaphores.Objects.Sem.{
  sem_descriptor_list_by_fd, sem_descriptor_free, sem_descriptor_ptr_free,
}
use disastr_os_semaphores.Syscalls.Common.{get_running, int_arg, set_retvalue}

-- A semaphore with no descriptor left is taken off the list. It is not freed.
unfoldable pub drop_unused : (sem : ℕ) → M (Unit {0})
drop_unused sem = do
  h ← get_head (semaphore_descriptors sem)
  if h.size ==ℤ pos 0 then (do detach_at semaphores_list sem; skip) else skip

unfoldable pub internal_sem_close : M (Unit {0})
unfolding drop_unused
internal_sem_close = do
  sem_fd ← int_arg 0
  r ← get_running
  found ← sem_descriptor_list_by_fd (sem_descriptors r) sem_fd
  if found == 0 then set_retvalue dsos_esemaphoreclose else do
    sem_desc ← detach_at (sem_descriptors r) found
    assert_set sem_desc
    d ← get_sem_desc sem_desc
    sem_desc_ptr ← detach_at (semaphore_descriptors d.semaphore) d.ptr
    assert_set sem_desc_ptr
    drop_unused d.semaphore
    sem_descriptor_free sem_desc
    sem_descriptor_ptr_free sem_desc_ptr
    set_retvalue (pos 0)
