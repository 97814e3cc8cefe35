-- ===== src/Tests/Wake.antt =====
-- A process that sleeps (src/disastrOS_sleep.c), and one that wakes (src/disastrOS_schedule.c).
use disastr_os_semaphores.Common.{ℕ, pos, ◌≡◌, refl, some, [], ◌∷◌, arith, has, true}
use disastr_os_semaphores.LinkedList.{ListHead}
use disastr_os_semaphores.Kernel.{
  Kernel, ListRef, ready_list, waiting_list, timer_list, ProcessStatus,
}
use disastr_os_semaphores.Kernel.Lists.{ListIs}
use disastr_os_semaphores.Syscalls.Schedule.{internal_schedule}
use disastr_os_semaphores.Syscalls.Schedule.Switch.{IsScheduled}
use disastr_os_semaphores.Syscalls.Schedule.Fair.{IsQuiet}
use disastr_os_semaphores.Syscalls.Schedule.Lists.{Lists}
use disastr_os_semaphores.Syscalls.Schedule.Without.{without, without_all}
use disastr_os_semaphores.Syscalls.Schedule.Resumes.{internal_schedule-wakes}
use disastr_os_semaphores.Common.{to_int, int_add}
use disastr_os_semaphores.Objects.Timer.Order.{not_after, from_later, IsOrdered}
use disastr_os_semaphores.Syscalls.Sleep.{internal_sleep}
use disastr_os_semaphores.Syscalls.Sleep.States.{CanSleep}
use disastr_os_semaphores.Syscalls.Sleep.Asleep.{internal_sleep-asleep}
use disastr_os_semaphores.Tests.Kernel.{kernel_of, only, no_head, only-IsList, free}
use disastr_os_semaphores.Tests.PoolAllocator.{one_free-IsValid}

-- The timer at 400, which has elapsed, is for process 500, which waits; process 120 is ready.
abbrev heads_asleep : ListRef → ListHead
heads_asleep timer_list = only 400
heads_asleep waiting_list = only 500
heads_asleep ready_list = only 120
heads_asleep _ = no_head

abbrev asleep : Kernel
asleep = record (kernel_of (pos 0) (pos 1) no_head no_head no_head) {
  heads = heads_asleep;
  timers = λ t. record { awakening_time = pos 2; pcb = 500 };
}

asleep-Lists : Lists asleep (400 ∷ []) (500 ∷ []) [] (120 ∷ [])
asleep-Lists = record {
  timers = only-IsList 400 (omega arith);
  waiting = only-IsList 500 (omega arith);
  ready = only-IsList 120 (omega arith);
  timers_waiting = λ a i. ground (arith, i);
  timers_ready = λ a i. ground (arith, i);
  waiting_ready = λ a i. ground (arith, i);
  room = omega arith;
  free = free 100 (omega arith);
  out = (refl, refl, refl);
}

internal_schedule-wakes_example :
    (k' : Kernel) × (internal_schedule asleep ≡ some (tt, k'))
    × (k'.running ≡ 500)
    × ((k'.pcbs 500).status ≡ ProcessStatus.running)
    × IsScheduled k' (120 ∷ 100 ∷ [])
    × ((q : ℕ) → has q [] ≡ true → (k'.pcbs q).status ≡ ProcessStatus.ready)
    × ListIs k' timer_list []
    × ListIs k' waiting_list []
    × IsQuiet k'
unfolding without_all without
internal_schedule-wakes_example =
    internal_schedule-wakes asleep 400 [] [] (500 ∷ []) (120 ∷ []) (1 ∷ []) asleep-Lists
      (omega arith, refl, tt) tt ((0, refl, omega arith, refl), tt) one_free-IsValid (omega arith)

-- The same lists, before the timer elapses: process 100 sleeps.
abbrev drowsy : Kernel
drowsy = record (kernel_of (pos 0) (pos 1) no_head no_head no_head) { heads = heads_asleep }

drowsy-CanSleep : CanSleep drowsy 1 120 [] (400 ∷ []) (500 ∷ []) []
drowsy-CanSleep = record {
  lists = record {
    timers = only-IsList 400 (omega arith);
    waiting = only-IsList 500 (omega arith);
    ready = only-IsList 120 (omega arith);
    timers_waiting = λ a i. ground (arith, i);
    timers_ready = λ a i. ground (arith, i);
    waiting_ready = λ a i. ground (arith, i);
    room = omega arith;
    free = free 100 (omega arith);
    out = (refl, refl, refl);
  };
  awake = refl;
  add = record {
    owner = omega arith;
    list = only-IsList 400 (omega arith);
    few = omega arith;
    ordered = ((λ b h. omega arith), tt);
    pool = one_free-IsValid;
    new_ne = omega arith;
    new_out = refl;
  };
  timer_out = (omega arith, refl, refl);
}

internal_sleep-asleep_example :
    (k' : Kernel) × (internal_sleep drowsy ≡ some (tt, k'))
    × Lists k' (408 ∷ 400 ∷ []) (500 ∷ 100 ∷ []) [] []
    × IsOrdered k'.timers (408 ∷ 400 ∷ [])
    × (k'.timers 408 ≡ record { awakening_time = pos 3; pcb = 100 })
    × ((k'.pcbs 100).status ≡ ProcessStatus.waiting)
    × (k'.running ≡ 120)
    × (k'.pcbs 120 ≡ drowsy.pcbs 120)
unfolding not_after from_later to_int int_add
internal_sleep-asleep_example =
    internal_sleep-asleep drowsy 1 120 [] (400 ∷ []) (500 ∷ []) [] drowsy-CanSleep
