-- ===== src/Syscalls/Schedule/Fair.antt =====
-- Preempting again and again (src/disastrOS_schedule.c and disastrOS_preempt.c).
use mathlib.Core.List.{append_assoc}
use disastr_os_semaphores.LinkedList.{ListHead}
use disastr_os_semaphores.Common.{
  Bool-cases, ℕ, zero, suc, ◌≡◌, refl, ◌∙◌, ap, ◌⊎◌, inl, inr, true, some, List, [], ◌∷◌, ◌++◌,
  arith, length, ◌==◌, ltb_ℤ, ◌<ℤ◌,
}
use disastr_os_semaphores.Kernel.{Kernel, M, timer_list, skip, ◌>>◌, walk_rounds}
use disastr_os_semaphores.Objects.Timer.{timer_list_current}
use disastr_os_semaphores.Syscalls.Schedule.{
  switch_process, wake_elapsed, internal_schedule, internal_preempt,
}
use disastr_os_semaphores.Syscalls.Schedule.Switch.{IsScheduled, SameBut, switch_process-rotate}

-- No timer has elapsed: there is none, or the first one is in the future.
abbrev pub IsQuiet : Kernel → Type 0
IsQuiet k =
    ((k.heads timer_list).first ≡ 0)
    ⊎ (k.disastr_os_time <ℤ (k.timers (k.heads timer_list).first).awakening_time)

pub timer_list_current-quiet :
    (k : Kernel) → IsQuiet k → timer_list_current timer_list k.disastr_os_time k ≡ some (0, k)
unfolding timer_list_current
timer_list_current-quiet k (inl e) =
    let none_left : ((k.heads timer_list).first == 0) ≡ true = rw e refl in rw none_left
timer_list_current-quiet k (inr later) =
    let first = (k.heads timer_list).first in
    let early : ltb_ℤ k.disastr_os_time (k.timers first).awakening_time ≡ true = ground arith in
    elim (Bool-cases (first == 0)) [ inl e ↦ rw e | inr ne ↦ rw ne (rw ne (rw early)) ]

-- While no timer has elapsed, `internal_schedule` only switches processes.
pub internal_schedule-quiet : (k : Kernel) → IsQuiet k → internal_schedule k ≡ switch_process k
unfolding internal_schedule wake_elapsed walk_rounds
internal_schedule-quiet k quiet = rw (timer_list_current-quiet k quiet)

pub IsQuiet-SameBut : (k k' : Kernel) (xs : List ℕ) → SameBut k k' xs → IsQuiet k → IsQuiet k'
IsQuiet-SameBut k k' xs same (inl e) =
    inl (ap (λ (h : ListHead). h.first) (same.heads timer_list refl) ∙ e)
IsQuiet-SameBut k k' xs same (inr later) =
    inr (rw (same.time, same.heads timer_list refl, same.timers (k.heads timer_list).first) later)

-- `internal_preempt`, a number of times.
unfoldable pub preempt_times : ℕ → M (Unit {0})
unfolding internal_preempt
preempt_times zero = skip
preempt_times (suc n) = internal_preempt >> preempt_times n

-- While no timer elapses, a process behind `xs` in the ready list runs after one more preemption
-- than there are processes before it; the others are then ready behind it, in their order, with
-- the one that ran between those that were behind and those that were before.
pub preempt_times-reaches :
    (xs : List ℕ) (p : ℕ) (ys : List ℕ) (k : Kernel)
    → IsScheduled k (xs ++ p ∷ ys)
    → IsQuiet k
    → (k' : Kernel) × (preempt_times (suc (length xs)) k ≡ some (tt, k'))
      × (k'.running ≡ p)
      × IsScheduled k' (ys ++ k.running ∷ xs)
      × IsQuiet k'
unfolding preempt_times
preempt_times-reaches [] p ys k s quiet =
    let (k', e, sw) = switch_process-rotate k p ys s in
    (
      k',
      rw (internal_schedule-quiet k quiet, e),
      sw.0,
      sw.1,
      IsQuiet-SameBut k k' (k.running ∷ p ∷ ys) sw.4 quiet,
    )
preempt_times-reaches (x ∷ xs) p ys k s quiet =
    let (k', e, sw) = switch_process-rotate k x (xs ++ p ∷ ys) s in
    let s' : IsScheduled k' (xs ++ p ∷ (ys ++ k.running ∷ [])) =
      rw (append_assoc xs (p ∷ ys) (k.running ∷ [])) at sw.1 in
    let quiet' = IsQuiet-SameBut k k' (k.running ∷ x ∷ (xs ++ p ∷ ys)) sw.4 quiet in
    let (k'', e', run, s'', quiet'') =
      preempt_times-reaches xs p (ys ++ k.running ∷ []) k' s' quiet' in
    (
      k'',
      rw (internal_schedule-quiet k quiet, e) e',
      run,
      rw (append_assoc ys (k.running ∷ []) (k'.running ∷ xs), sw.0) at s'',
      quiet'',
    )
