-- ===== src/Tests/Trap.antt =====
-- A trap with the number that is the size of the table, and each call (src/disastrOS.c).
use disastr_os_semaphores.Common.{ℤ, pos, ◌≡◌, refl, none, arith}
use disastr_os_semaphores.Kernel.{Kernel}
use disastr_os_semaphores.Syscalls.Trap.{disastr_os_trap}
use disastr_os_semaphores.Syscalls.Trap.Dispatch.{disastr_os_trap-past_table}
use disastr_os_semaphores.Tests.Kernel.{kernel_of, only, no_head}

abbrev calls : ℤ → Kernel
calls num = kernel_of num (pos 1) (only 120) no_head no_head

disastr_os_trap-past_table_example : disastr_os_trap (calls (pos 32)) ≡ none
disastr_os_trap-past_table_example = disastr_os_trap-past_table (calls (pos 32)) (omega arith) refl
