-- ===== src/Tests/SemOpen.antt =====
-- Opening and closing that is refused (src/disastrOS_semopen.c and disastrOS_semclose.c).
use disastr_os_semaphores.Common.{
  ℤ, pos, ◌≡◌, refl, some, [], ◌∷◌, arith, to_int, flag_set, if◌then◌else◌, ◌==◌,
}
use disastr_os_semaphores.Kernel.{Kernel, dsos_esemaphorecreate}
use disastr_os_semaphores.Kernel.Lists.{first_such}
use disastr_os_semaphores.Syscalls.SemOpen.{internal_sem_open}
use disastr_os_semaphores.Syscalls.SemOpen.Refuses.{internal_sem_open-refuses}
use disastr_os_semaphores.Syscalls.SemWait.Laws.{returned}
use disastr_os_semaphores.Tests.Kernel.{kernel_of, a_pcb, only, no_head, only-IsList}

-- Semaphore 300, with number 2, is the only one; the arguments are `n` and `flags`.
abbrev asks : (n flags : ℤ) → Kernel
asks n flags = record (kernel_of (pos 0) (pos 1) no_head no_head no_head) {
  heads = λ r. only 300;
  pcbs = λ p. record (a_pcb (pos 0)) { syscall_args = λ i. if i == 0 then n else flags };
}

internal_sem_open-refuses_example :
    internal_sem_open (asks (pos 2) (pos 1))
    ≡ some (tt, returned (asks (pos 2) (pos 1)) 100 dsos_esemaphorecreate)
unfolding to_int first_such flag_set
internal_sem_open-refuses_example =
    internal_sem_open-refuses (asks (pos 2) (pos 1)) (300 ∷ []) 300 (omega arith)
      (only-IsList 300 (omega arith)) (omega arith) refl refl
