-- ===== src/Syscalls/Birth.antt =====
-- `internal_fork` and `internal_spawn`: src/disastrOS_fork.c and disastrOS_spawn.c.
pub mod Exhausted
pub mod Adopt
pub mod Forks
use disastr_os_semaphores.Common.{ℕ, ◌==◌, if◌then◌else◌}
use disastr_os_semaphores.Kernel.{
  M, ◌>>=◌, ◌>>◌, ready_list, children, insert_back, set_pcb, get_pcb, assert_set, ProcessStatus,
  dsos_espawn,
}
use disastr_os_semaphores.Objects.Process.{pcb_alloc, pcb_ptr_alloc}
use disastr_os_semaphores.Syscalls.Common.{get_running, running_pcb, set_retvalue}

-- What the two calls share: the new process is a child of the running one, and the last ready one.
unfoldable pub adopt : (new_pcb : ℕ) → M (Unit {0})
adopt new_pcb = do
  r ← get_running
  set_pcb new_pcb λ p. record p { status = ProcessStatus.ready }
  set_pcb new_pcb λ p. record p { parent = r }
  new_pcb_ptr ← pcb_ptr_alloc new_pcb
  assert_set new_pcb_ptr
  insert_back (children r) new_pcb_ptr
  insert_back ready_list new_pcb
  p ← get_pcb new_pcb
  set_retvalue p.pid

unfoldable pub internal_fork : M (Unit {0})
unfolding adopt
internal_fork = do
  new_pcb ← pcb_alloc
  if new_pcb == 0 then set_retvalue dsos_espawn else adopt new_pcb

-- `makecontext` is given the two arguments of the call.
unfoldable pub internal_spawn : M (Unit {0})
unfolding adopt
internal_spawn = do
  new_pcb ← pcb_alloc
  if new_pcb == 0 then set_retvalue dsos_espawn else do
    adopt new_pcb
    p ← running_pcb
    set_pcb new_pcb λ c. record c { entry = p.syscall_args 0; entry_arg = p.syscall_args 1 }
