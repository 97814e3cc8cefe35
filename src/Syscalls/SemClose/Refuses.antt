-- ===== src/Syscalls/SemClose/Refuses.antt =====
-- When `internal_semClose` (src/disastrOS_semclose.c) closes nothing.
use disastr_os_semaphores.Common.{ℕ, ◌≡◌, ◌≢◌, ◌≤◌, some, List, length, ◌==ℤ◌, ==-ne}
use disastr_os_semaphores.Kernel.{Kernel, sem_descriptors, dsos_esemaphoreclose}
use disastr_os_semaphores.Kernel.Lists.{ListIs, first_such}
use disastr_os_semaphores.Objects.Sem.Laws.{sem_descriptor_list_by_fd-first}
use disastr_os_semaphores.Syscalls.SemClose.{internal_sem_close}
use disastr_os_semaphores.Syscalls.SemWait.Laws.{returned, fd_arg}

-- `internal_semClose` on a number that no descriptor of the process has returns the error, and
-- changes nothing else.
pub internal_sem_close-no_fd :
    (k : Kernel) (ds : List ℕ)
    → k.running ≢ 0
    → ListIs k (sem_descriptors k.running) ds
    → length ds ≤ 1024
    → first_such (λ p. (k.sem_descs p).fd ==ℤ fd_arg k) ds ≡ 0
    → internal_sem_close k ≡ some (tt, returned k k.running dsos_esemaphoreclose)
unfolding internal_sem_close
internal_sem_close-no_fd k ds nr is few none_such = simp (==-ne k.running 0 nr) (
    rw (sem_descriptor_list_by_fd-first k ds k.running (fd_arg k) nr is few, none_such)
      (simp (==-ne k.running 0 nr)))
