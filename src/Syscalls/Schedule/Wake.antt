-- ===== src/Syscalls/Schedule/Wake.antt =====
-- One round of the loop of `internal_schedule` (src/disastrOS_schedule.c) that wakes processes.
use disastr_os_semaphores.Common.{
  ℕ, suc, pos, ◌≡◌, ◌≢◌, refl, ◌∙◌, Bool, true, false, some, arith, ==-ne, is_set,
}
use disastr_os_semaphores.LinkedList.{Links, ListHead}
use disastr_os_semaphores.PoolAllocator.{PoolAllocator}
use disastr_os_semaphores.Kernel.{
  Kernel, update, set_pool, timer_pool, timer_list, ready_list, waiting_list, ProcessStatus, M,
  skip, get_timer, set_pcb, ◌>>=◌, ◌>>◌, detach_at, insert_at,
}
use disastr_os_semaphores.Kernel.Lists.{relinked}
use disastr_os_semaphores.Objects.Timer.{timer_list_current, timer_list_remove_current}
use disastr_os_semaphores.Syscalls.Schedule.{wake_elapsed}

-- A round, with what comes after it.
abbrev wake_one : (ℕ → M (Unit {0})) → (previous t : ℕ) → M (Unit {0})
wake_one next previous t = do
  i ← get_timer t
  detach_at waiting_list i.pcb
  set_pcb i.pcb λ p. record p { status = ProcessStatus.ready; timer = 0 }
  insert_at ready_list previous i.pcb
  timer_list_remove_current timer_list
  next i.pcb

pub when_unset :
    (b : Bool) (m n : M (Unit {0})) (k : Kernel)
    → b ≡ false
    → (elim b as (λ _. M (Unit {0})) [ false ↦ n | true ↦ m ]) k ≡ n k
when_unset true m n k e = cc
when_unset false m n k e = refl

pub when_set :
    (b : Bool) (m n : M (Unit {0})) (k : Kernel)
    → b ≡ true
    → (elim b as (λ _. M (Unit {0})) [ false ↦ n | true ↦ m ]) k ≡ m k
when_set true m n k e = refl
when_set false m n k e = cc

-- The states of a round.
module _ (k : Kernel) (p : ℕ) (l₁ : Links) (h₁ : ListHead) where
  abbrev pub made_ready : Kernel
  made_ready =
      let k₁ = relinked k waiting_list l₁ h₁ in
      record k₁ {
        pcbs = update k₁.pcbs p (record (k₁.pcbs p) { status = ProcessStatus.ready; timer = 0 });
      }

  module _ (l₂ : Links) (h₂ : ListHead) (l₃ : Links) (h₃ : ListHead) (a : PoolAllocator) where
    abbrev pub woken : Kernel
    woken =
        let k₃ = relinked (relinked made_ready ready_list l₂ h₂) timer_list l₃ h₃ in
        record k₃ { pools = set_pool k₃.pools timer_pool a }

    wake_one-woken :
        (next : ℕ → M (Unit {0})) (previous t : ℕ)
        → t ≢ 0
        → p ≢ 0
        → (k.timers t).pcb ≡ p
        → detach_at waiting_list p k ≡ some (p, relinked k waiting_list l₁ h₁)
        → insert_at ready_list previous p made_ready
          ≡ some (p, relinked made_ready ready_list l₂ h₂)
        → timer_list_remove_current timer_list (relinked made_ready ready_list l₂ h₂)
          ≡ some (pos 0, woken)
        → wake_one next previous t k ≡ next p woken
    wake_one-woken next previous t nt np is e₁ e₂ e₃ =
        rw (==-ne t 0 nt) (rw is (rw e₁ (rw (==-ne p 0 np) (rw e₂ (rw e₃ refl)))))

    pub wake_elapsed-round :
        (n previous t : ℕ)
        → t ≢ 0
        → p ≢ 0
        → (k.timers t).pcb ≡ p
        → timer_list_current timer_list k.disastr_os_time k ≡ some (t, k)
        → detach_at waiting_list p k ≡ some (p, relinked k waiting_list l₁ h₁)
        → insert_at ready_list previous p made_ready
          ≡ some (p, relinked made_ready ready_list l₂ h₂)
        → timer_list_remove_current timer_list (relinked made_ready ready_list l₂ h₂)
          ≡ some (pos 0, woken)
        → wake_elapsed (suc n) previous k ≡ wake_elapsed n p woken
    unfolding wake_elapsed
    wake_elapsed-round n previous t nt np is e e₁ e₂ e₃ =
        let set : is_set t ≡ true = ground (arith, nt) in
        rw e (
          when_set (is_set t) (wake_one (wake_elapsed n) previous t) skip k set
          ∙ wake_one-woken (wake_elapsed n) previous t nt np is e₁ e₂ e₃)
