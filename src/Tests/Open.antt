-- ===== src/Tests/Open.antt =====
-- Opening a semaphore (src/disastrOS_semopen.c) and making a process (src/disastrOS_fork.c), where
-- there is room.
use disastr_os_semaphores.Common.{
  ℕ, ℤ, pos, ◌+◌, ◌*◌, ◌≡◌, refl, inr, some, [], ◌∷◌, arith, if◌then◌else◌, ◌==◌, to_int, flag_set,
}
use disastr_os_semaphores.LinkedList.{ListHead}
use disastr_os_semaphores.PoolAllocator.{PoolAllocator}
use disastr_os_semaphores.PoolAllocator.Free.{IsValid}
use disastr_os_semaphores.Kernel.{
  Kernel, pool_number, ListRef, semaphores_list, sem_descriptors, dsos_create,
}
use disastr_os_semaphores.Kernel.Lists.{first_such}
use disastr_os_semaphores.Syscalls.Birth.{internal_fork, internal_spawn}
use disastr_os_semaphores.Syscalls.Birth.Adopt.{CanFork, Forked}
use disastr_os_semaphores.Syscalls.Birth.Forks.{births-Forked}
use disastr_os_semaphores.Syscalls.SemOpen.{internal_sem_open}
use disastr_os_semaphores.Syscalls.SemOpen.Opens.{CanOpen, Opened}
use disastr_os_semaphores.Syscalls.SemOpen.Checks.{internal_sem_open-Opened}
use disastr_os_semaphores.Syscalls.SemOpen.Creates.{CanCreate, Created, internal_sem_open-Created}
use disastr_os_semaphores.Syscalls.Session.{open_wait_post}
use disastr_os_semaphores.Syscalls.Trap.{
  disastr_os_open_semaphore, disastr_os_wait_semaphore, disastr_os_post_semaphore,
}
use disastr_os_semaphores.Tests.Kernel.{
  kernel_of, a_pcb, only, no_head, none-IsList, only-IsList, free,
}
use disastr_os_semaphores.Tests.PoolAllocator.{one_free}

-- Each pool has a buffer of its own, and block 1 is free.
abbrev pub pool_at : ℕ → PoolAllocator
pool_at b = record one_free { buffer = b }

pub pool_at-IsValid : (b : ℕ) → IsValid (pool_at b) (1 ∷ [])
pool_at-IsValid b = record {
  chain = (refl, omega arith, refl, refl);
  busy = λ k lt out. ground (arith, out);
  size = refl;
  item_pos = omega arith;
  fits = omega arith;
}

-- Process 100 runs, none is ready, and semaphore 300, with number 2, is the only one; process 100 has
-- descriptor 200. The call asks for the semaphore `n`, with the flags `flags`.
abbrev heads_free : ListRef → ListHead
heads_free semaphores_list = only 300
heads_free (sem_descriptors p) = only 200
heads_free _ = no_head

abbrev calls : (n flags : ℤ) → Kernel
calls n flags = record (kernel_of (pos 0) (pos 1) no_head no_head no_head) {
  heads = heads_free;
  pools = λ i. pool_at (1000 * (1 + pool_number i));
  pcbs = λ p. record (a_pcb (pos 0)) { syscall_args = λ i. if i == 0 then n else flags };
}

calls-CanFork : CanFork (calls (pos 2) (pos 0)) 1 1 [] [] [] []
calls-CanFork = record {
  scheduled = record { ready = none-IsList; free = free 100 (omega arith); out = refl };
  offspring = none-IsList;
  pcbs = pool_at-IsValid 1000;
  ptrs = pool_at-IsValid 2000;
  pcb_ne = omega arith;
  ptr_ne = omega arith;
  pcb_out = (omega arith, refl, refl);
  ptr_out = (omega arith, omega arith, refl, refl);
  run_out = refl;
  apart = λ a i. refl;
  room = (omega arith, omega arith);
}

births-Forked_example :
    ((k' : Kernel) × (internal_fork (calls (pos 2) (pos 0)) ≡ some (tt, k'))
      × Forked (calls (pos 2) (pos 0)) k' 1 1 [] [] [] [])
    × ((k' : Kernel) × (internal_spawn (calls (pos 2) (pos 0)) ≡ some (tt, k'))
        × Forked (calls (pos 2) (pos 0)) k' 1 1 [] [] [] []
        × ((k'.pcbs 1008).entry ≡ pos 2)
        × ((k'.pcbs 1008).entry_arg ≡ pos 0))
births-Forked_example = births-Forked (calls (pos 2) (pos 0)) 1 1 [] [] [] [] calls-CanFork

-- Semaphore 300 is opened, of which nobody has a descriptor yet.
calls-CanOpen : CanOpen (calls (pos 2) (pos 0)) 300 1 1 [] [] (200 ∷ []) []
calls-CanOpen = record {
  running = omega arith;
  sem_ne = omega arith;
  list = only-IsList 200 (omega arith);
  entries = none-IsList;
  descs = pool_at-IsValid 8000;
  ptrs = pool_at-IsValid 9000;
  desc_ne = omega arith;
  ptr_ne = omega arith;
  desc_out = (refl, refl);
  ptr_out = (omega arith, refl, refl);
  apart = λ a i. refl;
  room = (omega arith, omega arith);
}

internal_sem_open-Opened_example :
    (k' : Kernel) × (internal_sem_open (calls (pos 2) (pos 0)) ≡ some (tt, k'))
    × Opened (calls (pos 2) (pos 0)) k' 300 1 1 [] [] (200 ∷ []) []
unfolding to_int first_such flag_set
internal_sem_open-Opened_example =
    internal_sem_open-Opened (calls (pos 2) (pos 0)) (300 ∷ []) 300 1 1 [] [] (200 ∷ []) []
      (only-IsList 300 (omega arith)) (omega arith) refl refl (inr refl) calls-CanOpen

-- A semaphore with number 5 is made.
calls-CanCreate :
    CanCreate (calls (pos 5) (pos dsos_create)) (pos 5) 1 1 1 [] [] [] (300 ∷ []) (200 ∷ [])
unfolding first_such
calls-CanCreate = record {
  running = omega arith;
  semaphores = only-IsList 300 (omega arith);
  few = omega arith;
  missing = refl;
  list = only-IsList 200 (omega arith);
  sems = pool_at-IsValid 7000;
  descs = pool_at-IsValid 8000;
  ptrs = pool_at-IsValid 9000;
  sem_ne = omega arith;
  desc_ne = omega arith;
  ptr_ne = omega arith;
  sem_out = (refl, refl);
  desc_out = (omega arith, refl, refl);
  ptr_out = (omega arith, omega arith, refl, refl);
  apart = λ a i. ground (arith, i);
  room = omega arith;
}

internal_sem_open-Created_example :
    (k' : Kernel) × (internal_sem_open (calls (pos 5) (pos dsos_create)) ≡ some (tt, k'))
    × Created
        (calls (pos 5) (pos dsos_create))
        k'
        (pos 5)
        (pos 1)
        1
        1
        1
        []
        []
        []
        (300 ∷ [])
        (200 ∷ [])
unfolding to_int flag_set
internal_sem_open-Created_example =
    internal_sem_open-Created (calls (pos 5) (pos dsos_create)) (pos 5) (pos 1) 1 1 1 [] [] []
      (300 ∷ []) (200 ∷ []) calls-CanCreate refl refl refl

open_wait_post_example :
    (k₁ k₂ k₃ : Kernel) × (disastr_os_open_semaphore
        (pos 5)
        (pos dsos_create)
        (pos 1)
        (calls (pos 5) (pos dsos_create))
      ≡ some (pos 1, k₁))
    × ((k₁.semaphores 7008).count ≡ pos 1)
    × (disastr_os_wait_semaphore (pos 1) k₁ ≡ some (pos 0, k₂))
    × ((k₂.semaphores 7008).count ≡ pos 0)
    × (disastr_os_post_semaphore (pos 1) k₂ ≡ some (pos 0, k₃))
    × ((k₃.semaphores 7008).count ≡ pos 1)
unfolding flag_set
open_wait_post_example =
    open_wait_post (calls (pos 5) (pos dsos_create)) (pos 5) (pos dsos_create) 0 1 1 1 [] [] []
      (300 ∷ []) (200 ∷ []) calls-CanCreate (omega arith) (omega arith) (omega arith) (omega arith)
      refl (λ x i. refl) (omega arith)
