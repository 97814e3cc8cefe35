-- ===== src/Syscalls/Common.antt =====
-- What the system calls share: the running process, its arguments and its return value.
use disastr_os_semaphores.Common.{ℕ, ℤ, to_int}
use disastr_os_semaphores.Kernel.{M, pure, ◌>>=◌, gets, Pcb, get_pcb, set_pcb}

-- `running` and `*running`
abbrev pub get_running : M ℕ
get_running = gets λ k. k.running

abbrev pub running_pcb : M Pcb
running_pcb = do r ← get_running; get_pcb r

-- `int x = running->syscall_args[i]`
abbrev pub int_arg : ℕ → M ℤ
int_arg i = do p ← running_pcb; pure (to_int (p.syscall_args i))

-- `running->syscall_retvalue = v`
abbrev pub set_retvalue : ℤ → M (Unit {0})
set_retvalue v = do r ← get_running; set_pcb r λ p. record p { syscall_retvalue = v }
