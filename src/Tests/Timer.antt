-- ===== src/Tests/Timer.antt =====
-- A timer that is put behind one with the same time (src/disastrOS_timer.c), and a process for which
-- there is no block (src/disastrOS_pcb.c).
use disastr_os_semaphores.Common.{pos, ◌≡◌, refl, some, none, [], ◌∷◌, arith}
use disastr_os_semaphores.Kernel.{Kernel, timer_list}
use disastr_os_semaphores.Kernel.Lists.{ListIs}
use disastr_os_semaphores.Objects.Timer.{timer_list_add}
use disastr_os_semaphores.Objects.Timer.Order.{IsOrdered, not_after, from_later}
use disastr_os_semaphores.Objects.Timer.Add.{CanAdd, timer_list_add-IsOrdered}
use disastr_os_semaphores.Syscalls.Birth.{internal_fork, internal_spawn}
use disastr_os_semaphores.Syscalls.Birth.Exhausted.{births-exhausted}
use disastr_os_semaphores.Tests.PoolAllocator.{one_free-IsValid, none_free, none_free-IsValid}
use disastr_os_semaphores.Tests.Kernel.{kernel_of, only, no_head, only-IsList}

-- Timer 700 is set for time 9.
abbrev one_timer : Kernel
one_timer = record (kernel_of (pos 0) (pos 1) no_head no_head no_head) { heads = λ r. only 700 }

can_add : CanAdd one_timer timer_list 1 [] (700 ∷ [])
can_add = record {
  owner = omega arith;
  list = only-IsList 700 (omega arith);
  few = omega arith;
  ordered = (λ y i. absurd (ground (arith, i)), tt);
  pool = one_free-IsValid;
  new_ne = omega arith;
  new_out = refl;
}

timer_list_add-IsOrdered_example :
    (k' : Kernel) × (timer_list_add timer_list (pos 9) 100 one_timer ≡ some (408, k'))
    × ListIs k' timer_list (700 ∷ 408 ∷ [])
    × IsOrdered k'.timers (700 ∷ 408 ∷ [])
    × (k'.timers 408 ≡ record { awakening_time = pos 9; pcb = 100 })
unfolding not_after from_later
timer_list_add-IsOrdered_example =
    timer_list_add-IsOrdered one_timer timer_list (pos 9) 100 1 [] (700 ∷ []) can_add

abbrev no_blocks : Kernel
no_blocks = record one_timer { pools = λ i. none_free }

births-exhausted_example : (internal_fork no_blocks ≡ none) × (internal_spawn no_blocks ≡ none)
births-exhausted_example = births-exhausted no_blocks none_free-IsValid
