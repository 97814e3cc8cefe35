-- ===== src/Syscalls/Trap.antt =====
-- The entry of a system call and of a timer interrupt, and the calls that programs make:
-- src/disastrOS.c. Switching contexts is the processor's: the process that runs afterwards is
-- `running`.
pub mod Dispatch
pub mod Calls
pub mod Handlers
use disastr_os_semaphores.Common.{
  ℕ, zero, suc, ℤ, pos, negsuc, pos_part, Option, Bool, none, some, ◌||◌, ◌+◌, ◌==◌, ltb_ℤ, int_add,
  if◌then◌else◌, pos, leb,
}
use disastr_os_semaphores.Kernel.{
  Kernel, M, pure, ◌>>=◌, ◌>>◌, gets, modify, skip, get_pcb, set_pcb, assert_set, update,
  dsos_max_syscalls, dsos_call_preempt, dsos_call_fork, dsos_call_wait, dsos_call_exit,
  dsos_call_spawn, dsos_call_sleep, dsos_call_open_resource, dsos_call_close_resource,
  dsos_call_destroy_resource, dsos_call_shutdown, dsos_call_semopen, dsos_call_semclose,
  dsos_call_semwait, dsos_call_sempost, dsos_esyscall_out_of_range, dsos_esyscall_not_implemented,
}
use disastr_os_semaphores.Syscalls.Common.{get_running, running_pcb, set_retvalue}
use disastr_os_semaphores.Syscalls.SemOpen.{internal_sem_open}
use disastr_os_semaphores.Syscalls.SemClose.{internal_sem_close}
use disastr_os_semaphores.Syscalls.SemWait.{internal_sem_wait}
use disastr_os_semaphores.Syscalls.SemPost.{internal_sem_post}
use disastr_os_semaphores.Syscalls.Schedule.{internal_schedule, internal_preempt}
use disastr_os_semaphores.Syscalls.Birth.{internal_fork, internal_spawn}
use disastr_os_semaphores.Syscalls.Death.{internal_wait, internal_exit}
use disastr_os_semaphores.Syscalls.Sleep.{internal_sleep, internal_shutdown}
use disastr_os_semaphores.Syscalls.Files.{
  internal_open_resource, internal_close_resource, internal_destroy_resource,
}

-- The handler of a number, as `disastrOS_start` fills the table; `none` is NULL.
unfoldable pub syscall_vector : ℕ → Option (M (Unit {0}))
syscall_vector n =
    if n == dsos_call_preempt
    then some internal_preempt
    else if n == dsos_call_fork
    then some internal_fork
    else if n == dsos_call_spawn
    then some internal_spawn
    else if n == dsos_call_wait
    then some internal_wait
    else if n == dsos_call_exit
    then some internal_exit
    else if n == dsos_call_sleep
    then some internal_sleep
    else if n == dsos_call_open_resource
    then some internal_open_resource
    else if n == dsos_call_close_resource
    then some internal_close_resource
    else if n == dsos_call_destroy_resource
    then some internal_destroy_resource
    else if n == dsos_call_shutdown
    then some internal_shutdown
    else if n == dsos_call_semopen
    then some internal_sem_open
    else if n == dsos_call_semclose
    then some internal_sem_close
    else if n == dsos_call_sempost
    then some internal_sem_post
    else if n == dsos_call_semwait
    then some internal_sem_wait
    else none

-- The number of arguments; an entry that is not set is 0.
unfoldable pub syscall_numarg : ℕ → ℕ
syscall_numarg n =
    if n == dsos_call_spawn
    then 2
    else if n == dsos_call_wait
    then 2
    else if n == dsos_call_exit
    then 1
    else if n == dsos_call_sleep
    then 1
    else if n == dsos_call_open_resource
    then 3
    else if n == dsos_call_close_resource
    then 1
    else if n == dsos_call_destroy_resource
    then 1
    else if n == dsos_call_semopen
    then 3
    else if n == dsos_call_semclose
    then 1
    else if n == dsos_call_sempost
    then 1
    else if n == dsos_call_semwait
    then 1
    else 0

-- `syscall_num<0||syscall_num>DSOS_MAX_SYSCALLS`
abbrev pub out_of_table : ℤ → Bool
out_of_table n = ltb_ℤ n (pos 0) || ltb_ℤ (pos dsos_max_syscalls) n

-- A read of one of the tables, which have `DSOS_MAX_SYSCALLS` entries; past them it is a fault.
abbrev pub table : {A : Type 0} → (ℕ → A) → ℤ → M A
table t n k = if leb dsos_max_syscalls (pos_part n) then none else some (t (pos_part n), k)

abbrev pub run_handler : Option (M (Unit {0})) → M (Unit {0})
run_handler none = set_retvalue dsos_esyscall_not_implemented
run_handler (some handler) = handler

unfoldable pub disastr_os_trap : M (Unit {0})
disastr_os_trap = do
  p ← running_pcb
  if out_of_table p.syscall_num
      then set_retvalue dsos_esyscall_out_of_range
      else do handler ← table syscall_vector p.syscall_num; run_handler handler

-- The loop that stores the arguments, from index `i` on.
unfoldable pub store_args : (args : ℕ → ℤ) → (left i : ℕ) → M (Unit {0})
store_args args zero i = skip
store_args args (suc n) i = do
  r ← get_running
  set_pcb r λ p. record p { syscall_args = update p.syscall_args i (args i) }
  store_args args n (i + 1)

-- A program passes an `int` where `va_arg` reads a `long int`; that comes through
-- where, as on the usual 64-bit machines, an `int` argument takes as much room as a `long int` and the
-- handler reads its lower half. The result is what the caller gets if nothing writes its return value before it runs again.
unfoldable pub disastr_os_syscall : (syscall_num : ℤ) → (args : ℕ → ℤ) → M ℤ
unfolding disastr_os_trap store_args
disastr_os_syscall syscall_num args = do
  r ← get_running
  assert_set r
  if out_of_table syscall_num then pure dsos_esyscall_out_of_range else do
    nargs ← table syscall_numarg syscall_num
    store_args args nargs 0
    set_pcb r λ p. record p { syscall_num = syscall_num }
    disastr_os_trap
    p ← get_pcb r
    pure p.syscall_retvalue

-- The arguments of a call, in order.
abbrev pub one_arg : ℤ → ℕ → ℤ
one_arg a i = a

abbrev pub two_args : ℤ → ℤ → ℕ → ℤ
two_args a b i = if i == 0 then a else b

abbrev pub three_args : ℤ → ℤ → ℤ → ℕ → ℤ
three_args a b c i = if i == 0 then a else if i == 1 then b else c

unfoldable pub timer_interrupt : M (Unit {0})
timer_interrupt = do
  modify λ k. record k { disastr_os_time = int_add k.disastr_os_time (pos 1) }
  internal_schedule

unfoldable pub disastr_os_getpid : M ℤ
disastr_os_getpid = do
  r ← get_running
  if r == 0 then pure (negsuc 0) else do p ← get_pcb r; pure p.pid

unfoldable pub disastr_os_fork : M ℤ
disastr_os_fork = disastr_os_syscall (pos dsos_call_fork) (one_arg (pos 0))

unfoldable pub disastr_os_wait : (pid retval : ℤ) → M ℤ
disastr_os_wait pid retval = disastr_os_syscall (pos dsos_call_wait) (two_args pid retval)

unfoldable pub disastr_os_exit : ℤ → M ℤ
disastr_os_exit exitval = disastr_os_syscall (pos dsos_call_exit) (one_arg exitval)

unfoldable pub disastr_os_preempt : M ℤ
disastr_os_preempt = disastr_os_syscall (pos dsos_call_preempt) (one_arg (pos 0))

unfoldable pub disastr_os_spawn : (f args : ℤ) → M ℤ
disastr_os_spawn f args = disastr_os_syscall (pos dsos_call_spawn) (two_args f args)

unfoldable pub disastr_os_shutdown : M ℤ
disastr_os_shutdown = disastr_os_syscall (pos dsos_call_shutdown) (one_arg (pos 0))

unfoldable pub disastr_os_sleep : ℤ → M ℤ
disastr_os_sleep sleep_time = disastr_os_syscall (pos dsos_call_sleep) (one_arg sleep_time)

unfoldable pub disastr_os_open_resource : (resource_id type mode : ℤ) → M ℤ
disastr_os_open_resource resource_id type mode =
    disastr_os_syscall (pos dsos_call_open_resource) (three_args resource_id type mode)

unfoldable pub disastr_os_close_resource : ℤ → M ℤ
disastr_os_close_resource fd = disastr_os_syscall (pos dsos_call_close_resource) (one_arg fd)

unfoldable pub disastr_os_destroy_resource : ℤ → M ℤ
disastr_os_destroy_resource resource_id =
    disastr_os_syscall (pos dsos_call_destroy_resource) (one_arg resource_id)

-- `count` is the third argument, whatever stands there if the caller gives two.
unfoldable pub disastr_os_open_semaphore : (sem_id oflag count : ℤ) → M ℤ
disastr_os_open_semaphore sem_id oflag count =
    disastr_os_syscall (pos dsos_call_semopen) (three_args sem_id oflag count)

unfoldable pub disastr_os_wait_semaphore : ℤ → M ℤ
disastr_os_wait_semaphore sem_fd = disastr_os_syscall (pos dsos_call_semwait) (one_arg sem_fd)

unfoldable pub disastr_os_post_semaphore : ℤ → M ℤ
disastr_os_post_semaphore sem_id = disastr_os_syscall (pos dsos_call_sempost) (one_arg sem_id)

unfoldable pub disastr_os_close_semaphore : ℤ → M ℤ
disastr_os_close_semaphore sem_id = disastr_os_syscall (pos dsos_call_semclose) (one_arg sem_id)
