-- ===== src/Tests/Printing.antt =====
-- Printing (src/disastrOS.c, src/disastrOS_pcb.c).
use disastr_os_semaphores.Common.{ℕ, pos, List, [], ◌∷◌}
use disastr_os_semaphores.Kernel.{Kernel, ListRef, ready_list}
use disastr_os_semaphores.Tests.Kernel.{kernel_of, only, no_head}

-- Process 100 runs and 120 is ready; both have the number 7.
abbrev printed : Kernel
printed = kernel_of (pos 0) (pos 1) (only 120) no_head no_head

abbrev view : ListRef → List ℕ
view ready_list = 120 ∷ []
view _ = []
