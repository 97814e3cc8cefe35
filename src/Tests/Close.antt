-- ===== src/Tests/Close.antt =====
-- Closing a semaphore (src/disastrOS_semclose.c).
use disastr_os_semaphores.Common.{pos, ◌+◌, ◌*◌, ◌≡◌, refl, some, [], ◌∷◌, arith, to_int}
use disastr_os_semaphores.LinkedList.{ListHead}
use disastr_os_semaphores.Kernel.{
  Kernel, pool_number, ListRef, semaphores_list, sem_descriptors, semaphore_descriptors,
}
use disastr_os_semaphores.Kernel.Lists.{first_such}
use disastr_os_semaphores.Syscalls.SemClose.{internal_sem_close}
use disastr_os_semaphores.Syscalls.SemClose.Closes.{CanClose, Closed, internal_sem_close-Closed}
use disastr_os_semaphores.Tests.Kernel.{kernel_of, only, no_head, only-IsList}
use disastr_os_semaphores.Tests.Open.{pool_at, pool_at-IsValid}

-- Process 100 has descriptor 8000, with number 0, on semaphore 300, whose entry for it is 9000.
abbrev heads_opened : ListRef → ListHead
heads_opened semaphores_list = only 300
heads_opened (sem_descriptors p) = only 8000
heads_opened (semaphore_descriptors s) = only 9000
heads_opened _ = no_head

abbrev closing : Kernel
closing = record (kernel_of (pos 0) (pos 1) no_head no_head no_head) {
  heads = heads_opened;
  pools = λ i. pool_at (1000 * (1 + pool_number i));
  sem_descs = λ p. record { pcb = 100; semaphore = 300; fd = pos 0; ptr = 9000 };
}

closing-CanClose : CanClose closing 8000 300 9000 0 0 (1 ∷ []) (1 ∷ []) [] [] [] [] [] []
unfolding to_int first_such
closing-CanClose = record {
  opened = record {
    running = omega arith;
    list = only-IsList 8000 (omega arith);
    few = omega arith;
    first = refl;
    desc = omega arith;
    semaphore = refl;
    sem_ne = omega arith;
  };
  entry = refl;
  entries = only-IsList 9000 (omega arith);
  all = only-IsList 300 (omega arith);
  descs = pool_at-IsValid 8000;
  ptrs = pool_at-IsValid 9000;
  desc_block = refl;
  ptr_block = refl;
  desc_held = (omega arith, refl);
  ptr_held = (omega arith, refl);
  list_entries = λ a i. ground (arith, i);
  list_all = λ a i. ground (arith, i);
  entries_all = λ a i. ground (arith, i);
}

internal_sem_close-Closed_example :
    (k' : Kernel) × (internal_sem_close closing ≡ some (tt, k'))
    × Closed closing k' 300 0 0 (1 ∷ []) (1 ∷ []) [] [] [] [] [] []
internal_sem_close-Closed_example =
    internal_sem_close-Closed closing 8000 300 9000 0 0 (1 ∷ []) (1 ∷ []) [] [] [] [] [] []
      closing-CanClose
