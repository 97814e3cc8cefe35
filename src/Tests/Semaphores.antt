-- ===== src/Tests/Semaphores.antt =====
-- Waiting and posting (src/disastrOS_semwait.c and disastrOS_sempost.c), on small kernels.
use disastr_os_semaphores.Common.{
  ℤ, pos, negsuc, ◌≤◌, ◌<◌, ◌≡◌, refl, ◌⊎◌, some, none, [], ◌∷◌, arith, to_int,
}
use disastr_os_semaphores.Kernel.{
  Kernel, ready_list, waiting_list, ProcessStatus, dsos_esemaphorewait,
}
use disastr_os_semaphores.Kernel.Lists.{ListIs, first_such}
use disastr_os_semaphores.Syscalls.SemWait.{internal_sem_wait}
use disastr_os_semaphores.Syscalls.SemWait.Blocks.{CanWait, Blocked, internal_sem_wait-Blocked}
use disastr_os_semaphores.Syscalls.SemWait.Laws.{returned}
use disastr_os_semaphores.Syscalls.SemPost.{internal_sem_post}
use disastr_os_semaphores.Syscalls.SemPost.Laws.{internal_sem_post-no_fd}
use disastr_os_semaphores.Syscalls.SemPost.Wakes.{CanWake, Woken, internal_sem_post-Woken}
use disastr_os_semaphores.Syscalls.Schedule.{switch_process}
use disastr_os_semaphores.Syscalls.Balance.{
  IsBalanced, internal_sem_wait-IsBalanced, internal_sem_post-IsBalanced_empty,
  internal_sem_post-IsBalanced,
}
use disastr_os_semaphores.Syscalls.Blocking.{waiting_process-ready}
use disastr_os_semaphores.Tests.PoolAllocator.{one_free-IsValid}
use disastr_os_semaphores.Tests.Kernel.{
  kernel_of, a_pcb, only, no_head, none-IsList, only-IsList, free, has_open,
}

-- Nobody waits, and process 120 is ready.
abbrev unused : ℤ → Kernel
unused count = kernel_of (pos 0) count (only 120) no_head no_head

-- Process 500 waits, by the entry 600 of the queue.
abbrev one_waits : ℤ → Kernel
one_waits count = kernel_of (pos 0) count (only 120) (only 500) (only 600)

-- The running process passes a number that it has not opened.
abbrev wrong_fd : Kernel
wrong_fd = record (unused (pos 1)) {
  pcbs = λ p. record (a_pcb (pos 0)) { syscall_args = λ i. pos 9 };
}

can_wait : (count : ℤ) → CanWait (unused count) 300 1 [] [] []
can_wait count = record {
  pool = one_free-IsValid;
  ptr_ne = omega arith;
  queue = none-IsList;
  waiting = none-IsList;
  free = free 100 (omega arith);
  ptr_out = refl;
  run_out = refl;
  apart = λ a i. refl;
  room = (omega arith, omega arith);
}

can_wake : (count : ℤ) → CanWake (one_waits count) 300 600 [] [] [] (120 ∷ [])
can_wake count = record {
  queue = only-IsList 600 (omega arith);
  waiting = only-IsList 500 (omega arith);
  ready = only-IsList 120 (omega arith);
  desc = omega arith;
  process = omega arith;
  queue_waiting = λ a i. ground (arith, i);
  queue_ready = λ a i. ground (arith, i);
  waiting_ready = λ a i. ground (arith, i);
  process_out = refl;
  room = omega arith;
}

internal_sem_post-no_fd_example :
    (internal_sem_post wrong_fd ≡ none)
    × (internal_sem_wait wrong_fd ≡ some (tt, returned wrong_fd 100 dsos_esemaphorewait))
unfolding to_int first_such
internal_sem_post-no_fd_example =
    internal_sem_post-no_fd wrong_fd (200 ∷ []) (omega arith) (only-IsList 200 (omega arith))
      (omega arith) refl

internal_sem_wait-Blocked_example :
    (k' : Kernel) × (internal_sem_wait (unused (pos 0)) ≡ some (tt, k'))
    × Blocked (unused (pos 0)) k' 200 300 1 [] []
internal_sem_wait-Blocked_example =
    internal_sem_wait-Blocked (unused (pos 0)) (200 ∷ []) 200 300 1 [] [] []
      (has_open (pos 0) (pos 0) (only 120) no_head no_head) (can_wait (pos 0)) (omega arith)
      (omega arith)

internal_sem_post-Woken_example :
    (k' : Kernel) × (internal_sem_post (one_waits (negsuc 0)) ≡ some (tt, k'))
    × Woken (one_waits (negsuc 0)) k' 300 600 [] [] [] (120 ∷ [])
internal_sem_post-Woken_example =
    internal_sem_post-Woken (one_waits (negsuc 0)) (200 ∷ []) 200 300 600 [] [] [] (120 ∷ []) 0
      (has_open (pos 0) (negsuc 0) (only 120) (only 500) (only 600)) (can_wake (negsuc 0)) refl
      (omega arith)

internal_sem_wait-IsBalanced_example :
    (k' : Kernel) × (internal_sem_wait (unused (pos 0)) ≡ some (tt, k'))
    × ((0 < 0) × IsBalanced k' 300 [] ⊎ (0 ≤ 0) × IsBalanced k' 300 (408 ∷ []))
internal_sem_wait-IsBalanced_example =
    internal_sem_wait-IsBalanced (unused (pos 0)) (200 ∷ []) 200 300 1 [] [] []
      (has_open (pos 0) (pos 0) (only 120) no_head no_head) (λ low. can_wait (pos 0))
      (record { queue = none-IsList; count = refl }) (omega arith) (omega arith)

internal_sem_post-IsBalanced_empty_example :
    (k' : Kernel) × (internal_sem_post (unused (pos 0)) ≡ some (tt, k')) × IsBalanced k' 300 []
internal_sem_post-IsBalanced_empty_example =
    internal_sem_post-IsBalanced_empty (unused (pos 0)) (200 ∷ []) 200 300
      (has_open (pos 0) (pos 0) (only 120) no_head no_head)
      (record { queue = none-IsList; count = refl }) (omega arith)

internal_sem_post-IsBalanced_example :
    (k' : Kernel) × (internal_sem_post (one_waits (negsuc 0)) ≡ some (tt, k'))
    × IsBalanced k' 300 []
internal_sem_post-IsBalanced_example =
    internal_sem_post-IsBalanced (one_waits (negsuc 0)) (200 ∷ []) 200 300 600 [] [] [] (120 ∷ [])
      (has_open (pos 0) (negsuc 0) (only 120) (only 500) (only 600)) (can_wake (negsuc 0))
      (record { queue = only-IsList 600 (omega arith); count = refl })

-- Process 100 waits, process 120 runs, and process 100 is ready and waiting at once.
waiting_process-ready_example :
    (k' k'' : Kernel) × (internal_sem_wait (unused (pos 0)) ≡ some (tt, k'))
    × (switch_process k' ≡ some (tt, k''))
    × (k''.running ≡ 120)
    × ListIs k'' ready_list (100 ∷ [])
    × ((k''.pcbs 100).status ≡ ProcessStatus.ready)
    × ((k''.heads waiting_list).first ≡ 100)
waiting_process-ready_example =
    waiting_process-ready (unused (pos 0)) (200 ∷ []) 200 300 1 [] [] 120 []
      (has_open (pos 0) (pos 0) (only 120) no_head no_head) (can_wait (pos 0)) (omega arith)
      (omega arith)
      (record { ready = only-IsList 120 (omega arith); free = free 100 (omega arith); out = refl })
      (λ a i. ground (arith, i))
