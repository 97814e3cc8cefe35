-- ===== src/Tests/Schedule.antt =====
-- Switching processes (src/disastrOS_schedule.c), and searching a list, on small kernels.
use disastr_os_semaphores.Common.{pos, ◌≡◌, refl, inl, some, [], ◌∷◌, arith, if◌then◌else◌, ◌==◌}
use disastr_os_semaphores.LinkedList.{Links, item_of}
use disastr_os_semaphores.Kernel.{Kernel}
use disastr_os_semaphores.Syscalls.Schedule.Switch.{IsScheduled}
use disastr_os_semaphores.Syscalls.Schedule.Fair.{IsQuiet, preempt_times, preempt_times-reaches}
use disastr_os_semaphores.Tests.Kernel.{kernel_of, only, no_head, none-IsList, only-IsList, free}

abbrev one_ready : Kernel
one_ready = kernel_of (pos 0) (pos 1) (only 120) no_head no_head

abbrev none_ready : Kernel
none_ready = kernel_of (pos 0) (pos 1) no_head no_head no_head

-- Processes 120 and 140 are ready.
abbrev two_links : Links
two_links a = if a == 120 then item_of 0 140 else if a == 140 then item_of 120 0 else item_of 0 0

abbrev two_ready : Kernel
two_ready =
    record (kernel_of (pos 0) (pos 1) (record { first = 120; last = 140; size = pos 2 }) no_head
      no_head) { links = two_links }

two_ready-IsScheduled : IsScheduled two_ready (120 ∷ 140 ∷ [])
two_ready-IsScheduled = record {
  ready = record {
    first = refl;
    last = refl;
    size = refl;
    small = omega arith;
    seg = (omega arith, refl, refl, (omega arith, refl, refl, tt));
  };
  free = record { ne_null = omega arith; unlinked = refl };
  out = refl;
}

one_ready-IsScheduled : IsScheduled one_ready (120 ∷ [])
one_ready-IsScheduled = record {
  ready = only-IsList 120 (omega arith);
  free = free 100 (omega arith);
  out = refl;
}

none_ready-IsScheduled : IsScheduled none_ready []
none_ready-IsScheduled = record { ready = none-IsList; free = free 100 (omega arith); out = refl }

preempt_times-reaches_example :
    (k' : Kernel) × (preempt_times 2 two_ready ≡ some (tt, k'))
    × (k'.running ≡ 140)
    × IsScheduled k' (100 ∷ 120 ∷ [])
    × IsQuiet k'
preempt_times-reaches_example =
    preempt_times-reaches (120 ∷ []) 140 [] two_ready two_ready-IsScheduled (inl refl)
