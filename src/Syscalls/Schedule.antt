-- ===== src/Syscalls/Schedule.antt =====
-- `internal_schedule` and `internal_preempt`: src/disastrOS_schedule.c and disastrOS_preempt.c.
pub mod Switch
pub mod Without
pub mod Wake
pub mod Fair
pub mod Lists
pub mod Round
pub mod Wakes
pub mod Resumes
use disastr_os_semaphores.Common.{ℕ, zero, suc, ◌==◌, is_set, if◌then◌else◌}
use disastr_os_semaphores.Common.{none, true, false}
use disastr_os_semaphores.Kernel.{
  Kernel, M, pure, ◌>>=◌, ◌>>◌, gets, skip, waiting_list, ready_list, timer_list, get_head,
  insert_at, insert_back, detach_first, detach_at, set_pcb, get_timer, set_running, ProcessStatus,
  walk_rounds,
}
use disastr_os_semaphores.Objects.Timer.{timer_list_current, timer_list_remove_current}
use disastr_os_semaphores.Syscalls.Common.{get_running}

-- The loop that puts the processes whose timers have elapsed in front of the ready list. Each round
-- removes a timer, so a loop of more rounds than there are timers does not end.
unfoldable pub wake_elapsed : (rounds previous_pcb : ℕ) → M (Unit {0})
wake_elapsed zero previous_pcb = λ k. none
wake_elapsed (suc n) previous_pcb = do
  time ← gets (λ k. k.disastr_os_time)
  elapsed_timer ← timer_list_current timer_list time
  elim (is_set elapsed_timer) [
    | false ↦ skip
    | true ↦ do
      t ← get_timer elapsed_timer
      detach_at waiting_list t.pcb
      set_pcb t.pcb λ p. record p { status = ProcessStatus.ready; timer = 0 }
      insert_at ready_list previous_pcb t.pcb
      timer_list_remove_current timer_list
      wake_elapsed n t.pcb
  ]

-- The first ready process takes the place of the running one, which becomes the last ready one.
unfoldable pub switch_process : M (Unit {0})
switch_process = do
  h ← get_head ready_list
  if h.first == 0 then skip else do
    next_process ← detach_first ready_list
    r ← get_running
    set_pcb r λ p. record p { status = ProcessStatus.ready }
    insert_back ready_list r
    set_pcb next_process λ p. record p { status = ProcessStatus.running }
    set_running next_process

unfoldable pub internal_schedule : M (Unit {0})
unfolding wake_elapsed switch_process walk_rounds
internal_schedule = do wake_elapsed walk_rounds 0; switch_process

unfoldable pub internal_preempt : M (Unit {0})
unfolding internal_schedule
internal_preempt = internal_schedule
