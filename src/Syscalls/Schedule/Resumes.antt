-- ===== src/Syscalls/Schedule/Resumes.antt =====
-- What `internal_schedule` (src/disastrOS_schedule.c) does when timers have elapsed.
use disastr_os_semaphores.Common.{
  ℕ, ◌<◌, ◌≡◌, ◌≢◌, refl, ◌∙◌, ap, true, some, List, [], ◌∷◌, ◌++◌, arith, length, has, has-append,
}
use mathlib.Core.List.{append_assoc}
use disastr_os_semaphores.PoolAllocator.Free.{IsValid}
use disastr_os_semaphores.LinkedList.Apart.{has_tail, Disjoint-cons_right}
use disastr_os_semaphores.Kernel.{
  Kernel, Pcb, timer_pool, timer_list, waiting_list, walk_rounds, ProcessStatus,
}
use disastr_os_semaphores.Syscalls.Schedule.{internal_schedule}
use disastr_os_semaphores.Syscalls.Schedule.Switch.{IsScheduled, switch_process-rotate}
use disastr_os_semaphores.Kernel.Lists.{ListIs}
use disastr_os_semaphores.LinkedList.Seg.{IsList-frame, ne_of_has}
use disastr_os_semaphores.Syscalls.Schedule.Fair.{IsQuiet, IsQuiet-SameBut}
use disastr_os_semaphores.Syscalls.Schedule.Lists.{Lists}
use disastr_os_semaphores.Syscalls.Schedule.Without.{without_all}
use disastr_os_semaphores.Syscalls.Schedule.Wakes.{
  processes, AreElapsed, IsLater, AreHeld, wake_elapsed-AllWoke,
}

-- `internal_schedule`, with the timers `t ∷ es` elapsed, the others, `ls`, later, and the process of
-- each elapsed timer waiting, runs the process of `t` next; the processes of `es` are ready before
-- those that were, and the one that ran is the last. The timers that are left are `ls`, the processes
-- that were woken wait no more, and no timer that is left has elapsed. The lists are in order, no
-- process is in two of them, the running one is in none, and the timers are blocks that the pool has
-- handed out, at most 1024.
pub internal_schedule-wakes :
    (k : Kernel) (t : ℕ) (es ls ps rs is : List ℕ)
    → Lists k (t ∷ (es ++ ls)) ps [] rs
    → AreElapsed k.timers k.disastr_os_time (t ∷ es) ps
    → IsLater k.timers k.disastr_os_time ls
    → AreHeld (k.pools timer_pool) is (t ∷ es)
    → IsValid (k.pools timer_pool) is
    → length es < 1024
    → (k' : Kernel) × (internal_schedule k ≡ some (tt, k'))
      × (k'.running ≡ (k.timers t).pcb)
      × ((k'.pcbs (k.timers t).pcb).status ≡ ProcessStatus.running)
      × IsScheduled k' (processes k.timers es ++ (rs ++ k.running ∷ []))
      × ((q : ℕ) → has q (processes k.timers es) ≡ true → (k'.pcbs q).status ≡ ProcessStatus.ready)
      × ListIs k' timer_list ls
      × ListIs k' waiting_list (without_all (processes k.timers (t ∷ es)) ps)
      × IsQuiet k'
unfolding internal_schedule
internal_schedule-wakes k t es ls ps rs is c due later held v enough =
    let p = (k.timers t).pcb in
    let qs = processes k.timers es in
    let (k₁, e, a) =
      wake_elapsed-AllWoke (t ∷ es) ls ps [] rs is walk_rounds k c due later held v
        (unfold walk_rounds in omega arith) in
    let c₁ = a.lists in
    let changed = k₁.running ∷ p ∷ (qs ++ rs) in
    let (k', e', sw) =
      switch_process-rotate k₁ p (qs ++ rs)
        (record { ready = c₁.ready; free = c₁.free; out = c₁.out.2 }) in
    (
      k',
      rw e e',
      sw.0,
      sw.2,
      rw (append_assoc qs rs (k₁.running ∷ []), a.running) at sw.1,
      (λ q i.
          let j : has q (qs ++ rs) ≡ true = rw (has-append q qs rs, i) refl in
          let np : q ≢ p = ne_of_has q p (qs ++ rs) j c₁.ready.seg.2 in
          let nr : q ≢ k₁.running =
            ne_of_has q k₁.running (qs ++ rs) j (has_tail k₁.running p (qs ++ rs) c₁.out.2) in
          ap (λ (x : Pcb). x.status) (sw.4.pcbs q nr (rw sw.0 np))
          ∙ a.ready.status q (ground (arith, i))),
      rw (sw.4.heads timer_list refl) (
          IsList-frame changed ls c₁.timers sw.4.links
            (Disjoint-cons_right k₁.running ls (p ∷ (qs ++ rs)) c₁.out.0 c₁.timers_ready)),
      rw (sw.4.heads waiting_list refl) (
          IsList-frame changed (without_all (p ∷ qs) ps) c₁.waiting sw.4.links (
            Disjoint-cons_right k₁.running (without_all (p ∷ qs) ps) (p ∷ (qs ++ rs)) c₁.out.1
              c₁.waiting_ready)),
      IsQuiet-SameBut k₁ k' changed sw.4 a.quiet,
    )
