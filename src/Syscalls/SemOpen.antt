-- ===== src/Syscalls/SemOpen.antt =====
-- `internal_semOpen`: src/disastrOS_semopen.c.
pub mod Refuses
pub mod Opens
pub mod Checks
pub mod Creates
use disastr_os_semaphores.Common.{
  ℕ, ℤ, pos, ◌==◌, is_set, ◌&&◌, not, flag_set, int_add, ◌==ℤ◌, if◌then◌else◌,
}
use disastr_os_semaphores.Kernel.{
  M, ◌>>=◌, ◌>>◌, semaphores_list, sem_descriptors, semaphore_descriptors, get_head, insert_back,
  set_pcb, get_sem_desc, set_sem_desc, dsos_create, dsos_excl, dsos_esemaphorecreate,
  dsos_esemaphoreopen, dsos_esemaphorenoexcl, dsos_eresourcenofd,
}
use disastr_os_semaphores.Objects.Sem.{
  semaphore_alloc, semaphore_list_by_id, sem_descriptor_alloc, sem_descriptor_ptr_alloc,
}
use disastr_os_semaphores.Syscalls.Common.{get_running, running_pcb, int_arg, set_retvalue}

-- (5), (6): the descriptor of the running process, and the entry in the semaphore's list.
unfoldable pub open_descriptor : (sem : ℕ) → M (Unit {0})
open_descriptor sem = do
  p ← running_pcb
  r ← get_running
  desc ← sem_descriptor_alloc p.last_sem_fd sem r
  if desc == 0 then set_retvalue dsos_eresourcenofd else do
    set_pcb r λ p. record p { last_sem_fd = int_add p.last_sem_fd (pos 1) }
    insert_back (sem_descriptors r) desc
    desc_ptr ← sem_descriptor_ptr_alloc desc
    set_sem_desc desc λ d. record d { ptr = desc_ptr }
    insert_back (semaphore_descriptors sem) desc_ptr
    d ← get_sem_desc desc
    set_retvalue d.fd

-- (3): the checks on the semaphore that was found or made.
unfoldable pub check_and_open : (sem : ℕ) → (oflag : ℤ) → M (Unit {0})
unfolding open_descriptor
check_and_open sem oflag = if sem == 0 then set_retvalue dsos_esemaphoreopen else do
  h ← get_head (semaphore_descriptors sem)
  if flag_set oflag dsos_excl && not (h.size ==ℤ pos 0)
      then set_retvalue dsos_esemaphorenoexcl
      else open_descriptor sem

unfoldable pub internal_sem_open : M (Unit {0})
unfolding check_and_open
internal_sem_open = do
  sem_id ← int_arg 0
  oflag ← int_arg 1
  count ← int_arg 2
  sem ← semaphore_list_by_id semaphores_list sem_id
  if flag_set oflag dsos_create
      then (if is_set sem then set_retvalue dsos_esemaphorecreate else do
        new ← semaphore_alloc sem_id count
        insert_back semaphores_list new
        check_and_open new oflag)
      else check_and_open sem oflag
