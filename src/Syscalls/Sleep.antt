-- ===== src/Syscalls/Sleep.antt =====
-- `internal_sleep` and `internal_shutdown`: src/disastrOS_sleep.c and disastrOS_shutdown.c.
pub mod States
pub mod Asleep
use disastr_os_semaphores.Common.{true, ◌==◌, is_set, int_add, if◌then◌else◌}
use disastr_os_semaphores.Kernel.{
  M, ◌>>=◌, ◌>>◌, gets, modify, ready_list, waiting_list, timer_list, get_head, insert_back,
  detach_first, set_pcb, set_running, ProcessStatus, dsos_esleep,
}
use disastr_os_semaphores.Objects.Timer.{timer_list_add}
use disastr_os_semaphores.Syscalls.Common.{get_running, running_pcb, int_arg, set_retvalue}

-- The first ready process runs; if there is none, nobody does.
unfoldable pub run_next : M (Unit {0})
run_next = do
  h ← get_head ready_list
  if is_set h.first then (do next ← detach_first ready_list; set_running next) else set_running 0

-- The timer is not stored in the PCB.
unfoldable pub internal_sleep : M (Unit {0})
unfolding run_next
internal_sleep = do
  p ← running_pcb
  if is_set p.timer then set_retvalue dsos_esleep else do
    cycles_to_sleep ← int_arg 0
    time ← gets (λ k. k.disastr_os_time)
    r ← get_running
    new_timer ← timer_list_add timer_list (int_add time cycles_to_sleep) r
    if new_timer == 0 then set_retvalue dsos_esleep else do
      set_pcb r λ p. record p { status = ProcessStatus.waiting }
      insert_back waiting_list r
      run_next

-- The jump to `main_context`, which ends the program, is not modelled.
unfoldable pub internal_shutdown : M (Unit {0})
internal_shutdown = modify λ k. record k { shutdown_now = true }
