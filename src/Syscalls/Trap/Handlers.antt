-- ===== src/Syscalls/Trap/Handlers.antt =====
-- Which handler each of the calls of src/disastrOS.c reaches, and with which arguments.
use disastr_os_semaphores.Common.{ℕ, zero, suc, ℤ, pos, ◌+◌, Option}
use disastr_os_semaphores.Kernel.{Kernel, M, update, and_then}
use disastr_os_semaphores.Syscalls.Trap.Calls.{answer}

-- The arguments from index `i` on over those of the call before.
abbrev argued : (args : ℕ → ℤ) → (left i : ℕ) → (ℕ → ℤ) → ℕ → ℤ
argued args zero i old = old
argued args (suc n) i old = argued args n (i + 1) (update old i (args i))

-- The state from which a handler starts: the PCB of the running process holds the number of the call
-- and its arguments, and nothing else has changed.
abbrev pub entered : Kernel → (num : ℕ) → (syscall_args : ℕ → ℤ) → Kernel
entered k n args = record k {
  pcbs =
      update k.pcbs k.running
        (record (k.pcbs k.running) { syscall_num = pos n; syscall_args = args });
}

-- The arguments that are left in the PCB by the calls before.
abbrev pub old_args : Kernel → ℕ → ℤ
old_args k = (k.pcbs k.running).syscall_args

-- The handler `h` runs for the call with the number `num` and the arguments `args`, and the caller
-- reads the return value that is in its PCB afterwards.
abbrev pub handled : Kernel → (h : M (Unit {0})) → (num : ℕ) → (args : ℕ → ℤ) → Option (ℤ × Kernel)
handled k h num args = and_then (h (entered k num args)) (λ _. answer k.running)
