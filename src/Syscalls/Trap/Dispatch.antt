-- ===== src/Syscalls/Trap/Dispatch.antt =====
-- Where a trap goes (`disastrOS_trap` of src/disastrOS.c).
use disastr_os_semaphores.Common.{ℕ, pos, ◌≡◌, ◌≢◌, ◌<◌, false, none, arith, ==-ne, ltb_ℤ, leb}
use disastr_os_semaphores.Kernel.{Kernel}
use disastr_os_semaphores.Syscalls.Trap.{disastr_os_trap, run_handler, syscall_vector}

-- `disastrOS_trap`, with a process running whose call's number is below the size of the table, runs
-- the handler of that number, or returns the error for a number without one.
pub disastr_os_trap-dispatch :
    (k : Kernel) (n : ℕ)
    → k.running ≢ 0
    → (k.pcbs k.running).syscall_num ≡ pos n
    → n < 32
    → disastr_os_trap k ≡ run_handler (syscall_vector n) k
unfolding disastr_os_trap
disastr_os_trap-dispatch k n nr e small =
    let low : (leb 32 n) ≡ false = ground arith in
    let ge : ltb_ℤ (pos n) (pos 0) ≡ false = ground arith in
    let le : ltb_ℤ (pos 32) (pos n) ≡ false = ground arith in
    rw (==-ne k.running 0 nr, e, ge, le, low)

-- `disastrOS_trap` lets the number that is the size of the table pass its test, and then reads past
-- the table: a fault.
pub disastr_os_trap-past_table :
    (k : Kernel)
    → k.running ≢ 0
    → (k.pcbs k.running).syscall_num ≡ pos 32
    → disastr_os_trap k ≡ none
unfolding disastr_os_trap
disastr_os_trap-past_table k nr e = rw (==-ne k.running 0 nr, e)
