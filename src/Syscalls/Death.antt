-- ===== src/Syscalls/Death.antt =====
-- `internal_wait` and `internal_exit`: src/disastrOS_wait.c and disastrOS_exit.c.
pub mod Scan
pub mod Reaps
pub mod Waits
pub mod Reparent
pub mod Kept
pub mod Tells
pub mod Answers
pub mod Reports
pub mod Endless
pub mod Rendezvous
pub mod Releases
pub mod Lingers
use Prim.Native.Nat.{bit_and, bit_or}
use disastr_os_semaphores.Common.{
  ℕ, zero, suc, ℤ, pos, Bool, true, false, Option, none, some, not, ◌&&◌, ◌||◌, ◌==◌, ◌==ℤ◌, ltb_ℤ,
  is_set, to_int, if◌then◌else◌,
}
use disastr_os_semaphores.Kernel.{
  Kernel, M, ◌>>=◌, ◌>>◌, gets, skip, no_change, ProcessStatus, Pcb, ready_list, waiting_list,
  zombie_list, timer_list, children, descriptors, resource_descriptors, get_head, insert_back,
  detach_first, detach_at, get_pcb, set_pcb, get_pcb_ptr, get_timer, get_desc, get_resource,
  put_user, set_running, assert_set, walk_rounds, dsos_ewait, dsos_sighup, dsos_sigchld,
  dsos_call_wait,
}
use disastr_os_semaphores.Objects.Process.{pcb_free, pcb_ptr_free, pcb_ptr_by_pid}
use disastr_os_semaphores.Objects.Timer.{timer_item_free}
use disastr_os_semaphores.Objects.File.{descriptor_free, descriptor_ptr_free}
use disastr_os_semaphores.Syscalls.Common.{get_running, running_pcb, int_arg, set_retvalue}

abbrev pub is_zombie : ProcessStatus → Bool
is_zombie ProcessStatus.zombie = true
is_zombie _ = false

abbrev pub is_waiting : ProcessStatus → Bool
is_waiting ProcessStatus.waiting = true
is_waiting _ = false

-- The scan of the children in `internal_wait`: the entry at which it stops, or the last one if it
-- stops at none. The PCB of an entry is never NULL: only `PCBPtr_alloc` sets it.
unfoldable pub scan_children : Kernel → (pid_to_wait : ℤ) → (rounds aux awaited_ptr : ℕ) → Option ℕ
scan_children k pid zero aux awaited = none
scan_children k pid (suc n) aux awaited =
    let rest = scan_children k pid n (k.links aux).next aux in
    let p = k.pcbs (k.pcb_ptrs aux).pcb in
    if is_set aux
    then if ((pid ==ℤ pos 0) && is_zombie p.status) || (not (pid ==ℤ pos 0) && p.pid ==ℤ pid)
      then some aux
      else rest
    else some awaited

unfoldable pub reap : (awaited_pcb_ptr awaited_pcb : ℕ) → (result : ℤ) → M (Unit {0})
reap awaited_pcb_ptr awaited_pcb result = do
  r ← get_running
  detach_at (children r) awaited_pcb_ptr
  pcb_ptr_free awaited_pcb_ptr
  detach_at zombie_list awaited_pcb
  p ← get_pcb awaited_pcb
  set_retvalue p.pid
  if not (result ==ℤ pos 0) then put_user result p.return_value else skip
  pcb_free awaited_pcb
  skip

-- The process waits, and the first ready process runs; with none ready this faults.
unfoldable pub block_parent : M (Unit {0})
block_parent = do
  r ← get_running
  set_pcb r λ p. record p { status = ProcessStatus.waiting }
  insert_back waiting_list r
  next_running ← detach_first ready_list
  set_running next_running

unfoldable pub internal_wait : M (Unit {0})
internal_wait = do
  pid_to_wait ← int_arg 0
  p ← running_pcb
  r ← get_running
  h ← get_head (children r)
  if h.first == 0 then set_retvalue dsos_ewait else do
    k ← gets (λ k. k)
    awaited_ptr ← no_change (scan_children k pid_to_wait walk_rounds h.first 0)
    awaited ← get_pcb_ptr awaited_ptr
    if ltb_ℤ (pos 0) pid_to_wait && awaited.pcb == 0 then set_retvalue dsos_ewait else do
      c ← gets (λ k. k.pcbs awaited.pcb)
      if is_set awaited.pcb && is_zombie c.status
          then reap awaited_ptr awaited.pcb (p.syscall_args 1)
          else block_parent

-- The body of the loop over the children: the first one goes to `init_pcb`, and gets SIGHUP.
unfoldable pub give_child : M (Unit {0})
give_child = do
  r ← get_running
  item ← detach_first (children r)
  assert_set item
  init ← gets (λ k. k.init_pcb)
  insert_back (children init) item
  child ← get_pcb_ptr item
  set_pcb child.pcb
      λ p. record p { signals = bit_or p.signals (bit_and dsos_sighup p.signals_mask) }

-- The loop, for as long as the running process has a child.
unfoldable pub reparent : (rounds : ℕ) → M (Unit {0})
reparent zero = λ k. none
reparent (suc n) = do
  r ← get_running
  h ← get_head (children r)
  elim (is_set h.first) [ false ↦ skip | true ↦ do give_child; reparent n ]

-- The timers of the running process are removed.
unfoldable pub drop_timers : (rounds aux : ℕ) → M (Unit {0})
drop_timers zero aux = λ k. none
drop_timers (suc n) aux = elim (is_set aux) [
  | false ↦ skip
  | true ↦ do
    timer ← get_timer aux
    next ← gets (λ k. (k.links aux).next)
    r ← get_running
    if timer.pcb == r
        then (do
          detach_result ← detach_at timer_list aux
          assert_set detach_result
          timer_item_free aux
          skip)
        else skip
    drop_timers n next
]

-- The resources of the running process are closed.
unfoldable pub drop_descriptors : (rounds : ℕ) → M (Unit {0})
drop_descriptors zero = λ k. none
drop_descriptors (suc n) = do
  r ← get_running
  h ← get_head (descriptors r)
  elim (is_set h.first) [
    | false ↦ skip
    | true ↦ do
      detach_at (descriptors r) h.first
      d ← get_desc h.first
      get_resource d.resource
      detach_at (resource_descriptors d.resource) d.ptr
      descriptor_ptr_free d.ptr
      descriptor_free h.first
      drop_descriptors n
  ]

-- The parent was waiting for this process: it gets the value and runs.
unfoldable pub report_to_parent : (parent : ℕ) → M (Unit {0})
report_to_parent parent_pcb = do
  parent ← detach_at waiting_list parent_pcb
  assert_set parent
  set_pcb parent λ p. record p { status = ProcessStatus.running }
  r ← get_running
  p ← running_pcb
  self_in_parent ← pcb_ptr_by_pid (children parent) p.pid
  detach_at (children parent) self_in_parent
  set_pcb parent λ q. record q { syscall_retvalue = p.pid }
  q ← get_pcb parent
  if not (q.syscall_args 1 ==ℤ pos 0) then put_user (q.syscall_args 1) p.return_value else skip
  h ← get_head timer_list
  drop_timers walk_rounds h.first
  drop_descriptors walk_rounds
  suppressed_item ← detach_at zombie_list r
  pcb_free suppressed_item
  set_running parent

-- Nobody waits: the first ready process runs.
unfoldable pub leave_zombie : M (Unit {0})
leave_zombie = do
  next_running ← detach_first ready_list
  assert_set next_running
  set_pcb next_running λ p. record p { status = ProcessStatus.running }
  set_running next_running

-- The parent waits for any child, or for this one.
abbrev pub awaits : Pcb → (pid : ℤ) → Bool
awaits parent pid =
    is_waiting parent.status
    && (parent.syscall_num ==ℤ pos dsos_call_wait)
    && ((parent.syscall_args 0 ==ℤ pos 0) || (parent.syscall_args 0 ==ℤ pid))

unfoldable pub internal_exit : M (Unit {0})
internal_exit = do
  r ← get_running
  set_pcb r λ p. record p { return_value = to_int (p.syscall_args 0) }
  init ← gets (λ k. k.init_pcb)
  assert_set init
  reparent walk_rounds
  set_pcb r λ p. record p { status = ProcessStatus.zombie }
  insert_back zombie_list r
  p ← running_pcb
  set_pcb p.parent
      λ q. record q { signals = bit_or q.signals (bit_and dsos_sigchld q.signals_mask) }
  parent ← get_pcb p.parent
  if awaits parent p.pid then report_to_parent p.parent else leave_zombie
