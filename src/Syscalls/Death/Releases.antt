-- ===== src/Syscalls/Death/Releases.antt =====
-- What `internal_exit` (src/disastrOS_exit.c) does before a PCB is given back.
use disastr_os_semaphores.Common.{
  ℕ, zero, suc, ◌<◌, ◌≤◌, ◌≡◌, ◌≢◌, refl, ◌∙◌, ap, true, some, List, [], ◌∷◌, arith, length, has,
  first_or, ==-ne, ==-self, ◌==◌, is_set, if◌then◌else◌,
}
use disastr_os_semaphores.LinkedList.{Links, ListHead}
use disastr_os_semaphores.LinkedList.Seg.{Seg}
use disastr_os_semaphores.PoolAllocator.{PoolAllocator, success, release_block}
use disastr_os_semaphores.Kernel.{
  Kernel, M, skip, ◌>>=◌, ◌>>◌, gets, set_pool, pcb_pool, timer_list, zombie_list, descriptors,
  resource_descriptors, get_head, get_timer, get_desc, get_resource, detach_at, assert_set, release,
  set_running, walk_rounds,
}
use disastr_os_semaphores.Kernel.Lists.{ListIs, relinked}
use disastr_os_semaphores.Objects.Process.{pcb_free}
use disastr_os_semaphores.Objects.Timer.{timer_item_free}
use disastr_os_semaphores.Objects.File.{descriptor_free, descriptor_ptr_free}
use disastr_os_semaphores.Syscalls.Common.{get_running}
use disastr_os_semaphores.Syscalls.Schedule.Wake.{when_set, when_unset}
use disastr_os_semaphores.Syscalls.Death.{drop_timers, drop_descriptors}

-- A round of the loop over the timers, with what comes after it.
abbrev drop_timer : (aux : ℕ) → (ℕ → M (Unit {0})) → M (Unit {0})
drop_timer aux next = do
  timer ← get_timer aux
  behind ← gets (λ k. (k.links aux).next)
  r ← get_running
  if timer.pcb == r
      then (do
        detach_result ← detach_at timer_list aux
        assert_set detach_result
        timer_item_free aux
        skip)
      else skip
  next behind

drop_timer-skips :
    (k : Kernel) (aux : ℕ) (next : ℕ → M (Unit {0}))
    → aux ≢ 0
    → (k.timers aux).pcb ≢ k.running
    → drop_timer aux next k ≡ next (k.links aux).next k
drop_timer-skips k aux next na other =
    rw (==-ne aux 0 na) (rw (==-ne (k.timers aux).pcb k.running other) refl)

-- The loop ends and leaves the timers of other processes as they are.
pub drop_timers_lem :
    (k : Kernel) (n p : ℕ) (ts : List ℕ)
    → Seg k.links p 0 ts
    → length ts < n
    → ((t : ℕ) → has t ts ≡ true → (k.timers t).pcb ≢ k.running)
    → drop_timers n (first_or 0 ts) k ≡ some (tt, k)
unfolding drop_timers
drop_timers_lem k zero p ts s enough others = absurd (omega arith)
drop_timers_lem k (suc n) p [] s enough others = refl
drop_timers_lem k (suc n) p (t ∷ ts) s enough others =
    when_set (is_set t) (drop_timer t (drop_timers n)) skip k (rw (==-ne t 0 s.0) refl)
    ∙ drop_timer-skips k t (drop_timers n) s.0 (others t (rw (==-self t) refl))
    ∙ ap (λ a. drop_timers n a k) (ap (λ i. i.next) s.1)
    ∙ drop_timers_lem k n t ts s.3 (omega arith) (λ u i. others u (rw i (ground arith)))

-- A round of the loop over the descriptors, with what comes after it.
abbrev drop_descriptor : (r aux : ℕ) → M (Unit {0}) → M (Unit {0})
drop_descriptor r aux next = do
  detach_at (descriptors r) aux
  d ← get_desc aux
  get_resource d.resource
  detach_at (resource_descriptors d.resource) d.ptr
  descriptor_ptr_free d.ptr
  descriptor_free aux
  next

drop_descriptors_lem :
    (k : Kernel) (n : ℕ)
    → k.running ≢ 0
    → (k.heads (descriptors k.running)).first ≡ 0
    → drop_descriptors (suc n) k ≡ some (tt, k)
unfolding drop_descriptors
drop_descriptors_lem k n nr none_open =
    let r = k.running in
    let first = (k.heads (descriptors r)).first in
    rw (==-ne r 0 nr) (
      when_unset (is_set first) (drop_descriptor r first (drop_descriptors n)) skip k
        (rw none_open refl))

-- The end of a process whose parent waits: its PCB `r` is given back, and the parent `f` runs.
abbrev pub bury : (r f : ℕ) → M (Unit {0})
bury r f = do
  h ← get_head timer_list
  drop_timers walk_rounds h.first
  drop_descriptors walk_rounds
  suppressed_item ← detach_at zombie_list r
  pcb_free suppressed_item
  set_running f

-- The process has no timer and no open resource.
pub record HasNothing (k : Kernel) (ts : List ℕ) : Type 0 where
  pub timers : ListIs k timer_list ts
  pub few : length ts ≤ 1024
  pub other_timers : (t : ℕ) → has t ts ≡ true → (k.timers t).pcb ≢ k.running
  pub descriptors : (k.heads (descriptors k.running)).first ≡ 0

module _ (k : Kernel) (f : ℕ) (l : Links) (h : ListHead) (b : PoolAllocator) where
  abbrev pub buried_by : Kernel
  buried_by =
      let k₁ = relinked k zombie_list l h in
      record k₁ { pools = set_pool k₁.pools pcb_pool b; running = f }

  pub bury-buried_by :
      (ts : List ℕ)
      → k.running ≢ 0
      → HasNothing k ts
      → detach_at zombie_list k.running k ≡ some (k.running, relinked k zombie_list l h)
      → release_block (k.pools pcb_pool) k.running ≡ some (success, b)
      → bury k.running f k ≡ some (tt, buried_by)
  unfolding pcb_free release
  bury-buried_by ts nr c e eb =
      let enough : length ts < walk_rounds = unfold walk_rounds in omega (arith, c.few) in
      let timers : drop_timers walk_rounds (k.heads timer_list).first k ≡ some (tt, k) =
        ap (λ a. drop_timers walk_rounds a k) c.timers.first
        ∙ drop_timers_lem k walk_rounds 0 ts c.timers.seg enough c.other_timers in
      let files : drop_descriptors walk_rounds k ≡ some (tt, k) =
        unfold walk_rounds in drop_descriptors_lem k 1024 nr c.descriptors in
      rw timers (rw files (rw e (rw eb refl)))
