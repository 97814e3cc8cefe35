-- ===== src/Syscalls/Sleep/States.antt =====
-- The states that `internal_sleep` (src/disastrOS_sleep.c) goes through.
use disastr_os_semaphores.Common.{
  ℕ, ℤ, ◌≡◌, ◌≢◌, refl, false, some, List, [], ◌∷◌, has, ==-ne, is_set, ◌==◌, int_add,
}
use disastr_os_semaphores.LinkedList.{Links, ListHead}
use disastr_os_semaphores.Kernel.{
  Kernel, update, timer_list, ready_list, waiting_list, ProcessStatus, insert_back, detach_first,
}
use disastr_os_semaphores.Kernel.Lists.{relinked}
use disastr_os_semaphores.Objects.Timer.{timer_list_add}
use disastr_os_semaphores.Objects.Timer.Add.{CanAdd, new_timer, timed}
use disastr_os_semaphores.Syscalls.Schedule.Lists.{Lists}
use disastr_os_semaphores.Syscalls.SemOpen.Refuses.{arg}
use disastr_os_semaphores.Syscalls.Sleep.{internal_sleep}

-- The time at which a process that calls now wakes.
abbrev pub wake_time : Kernel → ℤ
wake_time k = int_add k.disastr_os_time (arg k 0)

-- The states between the writes.
module _ (k : Kernel) (i q : ℕ) (l₁ l₂ l₃ : Links) (h₁ h₂ h₃ : ListHead) where
  abbrev pub put_down : Kernel
  put_down =
      let k₁ = relinked (timed k timer_list (wake_time k) k.running i) timer_list l₁ h₁ in
      record k₁ {
        pcbs =
            update k.pcbs k.running (record (k.pcbs k.running) { status = ProcessStatus.waiting });
      }

  abbrev pub left : Kernel
  left = relinked put_down waiting_list l₂ h₂

  abbrev pub slept : Kernel
  slept = record (relinked left ready_list l₃ h₃) { running = q }

  pub internal_sleep-eq :
      k.running ≢ 0
      → q ≢ 0
      → new_timer k i ≢ 0
      → (k.pcbs k.running).timer ≡ 0
      → (k.heads ready_list).first ≡ q
      → timer_list_add timer_list (wake_time k) k.running k
        ≡ some (
          new_timer k i,
          relinked (timed k timer_list (wake_time k) k.running i) timer_list l₁ h₁,
        )
      → insert_back waiting_list k.running put_down ≡ some (k.running, left)
      → detach_first ready_list left ≡ some (q, relinked left ready_list l₃ h₃)
      → internal_sleep k ≡ some (tt, slept)
  unfolding internal_sleep
  internal_sleep-eq nr nq nt none first e₁ e₂ e₃ =
      let awake : is_set (k.pcbs k.running).timer ≡ false = rw none refl in
      let some_ready : ((k.heads ready_list).first == 0) ≡ false = rw first (==-ne q 0 nq) in
      simp (==-ne k.running 0 nr, awake)
        (rw e₁ (
          simp (==-ne (new_timer k i) 0 nt, ==-ne k.running 0 nr)
            (rw e₂ (rw some_ready (rw e₃ refl)))))

-- The timers are `xs`, the waiting processes `ps`, and the ready ones `q ∷ rs`; the running one has no
-- timer, and there is a free block, `i`, for one, which is none of these.
pub record CanSleep (k : Kernel) (i q : ℕ) (is xs ps rs : List ℕ) : Type 0 where
  pub lists : Lists k xs ps [] (q ∷ rs)
  pub awake : (k.pcbs k.running).timer ≡ 0
  pub add : CanAdd k timer_list i is xs
  pub timer_out :
      (new_timer k i ≢ k.running)
      × (has (new_timer k i) ps ≡ false)
      × (has (new_timer k i) (q ∷ rs) ≡ false)
