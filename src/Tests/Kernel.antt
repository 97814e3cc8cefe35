-- ===== src/Tests/Kernel.antt =====
-- A kernel in which process 100 runs, with descriptor 200 open on semaphore 300. Process 500 has
-- descriptor 520 on it, and the pointer 600 is to that.
use disastr_os_semaphores.Common.{
  ℕ, ℤ, pos, refl, false, [], ◌∷◌, arith, if◌then◌else◌, ◌==◌, ◌<◌, to_int,
}
use disastr_os_semaphores.LinkedList.{ListHead, item_of}
use disastr_os_semaphores.LinkedList.Seg.{IsList}
use disastr_os_semaphores.LinkedList.Insert.{IsFree}
use disastr_os_semaphores.Kernel.{
  Kernel, ListRef, ready_list, waiting_list, sem_descriptors, waiting_descriptors, ProcessStatus,
  Pcb,
}
use disastr_os_semaphores.Kernel.Lists.{first_such}
use disastr_os_semaphores.Objects.Sem.Laws.{HasOpen}
use disastr_os_semaphores.Tests.PoolAllocator.{one_free}

abbrev pub no_head : ListHead
no_head = record { first = 0; last = 0; size = pos 0 }

abbrev pub only : ℕ → ListHead
only a = record { first = a; last = a; size = pos 1 }

-- The lists but that of the descriptors are given by the caller.
abbrev pub heads_of : (ready waiting queue : ListHead) → ListRef → ListHead
heads_of ready waiting queue ready_list = ready
heads_of ready waiting queue waiting_list = waiting
heads_of ready waiting queue (sem_descriptors p) = only 200
heads_of ready waiting queue (waiting_descriptors s) = queue
heads_of ready waiting queue _ = no_head

abbrev pub a_pcb : ℤ → Pcb
a_pcb num = record {
  pid = pos 7;
  return_value = pos 0;
  status = ProcessStatus.running;
  signals = 0;
  signals_mask = 0;
  parent = 0;
  timer = 0;
  last_fd = pos 0;
  last_sem_fd = pos 1;
  syscall_num = num;
  syscall_args = λ i. pos 0;
  syscall_retvalue = pos 5;
  entry = pos 0;
  entry_arg = pos 0;
}

abbrev pub kernel_of : (num count : ℤ) → (ready waiting queue : ListHead) → Kernel
kernel_of num count ready waiting queue = record {
  links = λ a. item_of 0 0;
  heads = heads_of ready waiting queue;
  pools = λ i. one_free;
  pcbs = λ p. a_pcb num;
  pcb_ptrs = λ p. record { pcb = 0 };
  timers = λ p. record { awakening_time = pos 9; pcb = 0 };
  resources = λ p. record { id = pos 1; type = pos 0 };
  descs = λ p. record { pcb = 0; resource = 0; fd = pos 0; ptr = 0 };
  desc_ptrs = λ p. record { descriptor = 0 };
  semaphores = λ p. record { id = pos 2; count = count };
  sem_descs =
      λ p. record { pcb = if p == 520 then 500 else 100; semaphore = 300; fd = pos 0; ptr = 0 };
  sem_desc_ptrs = λ p. record { descriptor = 520 };
  user_memory = λ a. pos 0;
  init_pcb = 100;
  running = 100;
  last_pid = pos 8;
  disastr_os_time = pos 3;
  shutdown_now = false;
}

pub none-IsList : IsList (λ a. item_of 0 0) no_head []
none-IsList = record { first = refl; last = refl; size = refl; small = omega arith; seg = tt }

pub only-IsList : (a : ℕ) → 0 < a → IsList (λ b. item_of 0 0) (only a) (a ∷ [])
only-IsList a p = record {
  first = refl;
  last = refl;
  size = refl;
  small = omega arith;
  seg = (omega arith, refl, refl, tt);
}

pub free : (a : ℕ) → 0 < a → IsFree (λ b. item_of 0 0) a
free a p = record { ne_null = omega arith; unlinked = refl }

pub has_open :
    (num count : ℤ) (ready waiting queue : ListHead)
    → HasOpen (kernel_of num count ready waiting queue) (200 ∷ []) 200 300
unfolding to_int first_such
has_open num count ready waiting queue = record {
  running = omega arith;
  list = only-IsList 200 (omega arith);
  few = omega arith;
  first = refl;
  desc = omega arith;
  semaphore = refl;
  sem_ne = omega arith;
}
