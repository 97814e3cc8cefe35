-- ===== src/Syscalls/Blocking.antt =====
-- Whether `internal_semWait` (src/disastrOS_semwait.c) makes a process wait.
use disastr_os_semaphores.Common.{
  ℕ, pos, negsuc, ◌-◌, ◌^◌, ◌≡◌, refl, ◌∙◌, ap, some, List, [], ◌∷◌, ◌++◌, has, ◌≤ℤ◌, ◌<ℤ◌,
}
use disastr_os_semaphores.LinkedList.{ListHead}
use disastr_os_semaphores.LinkedList.Seg.{IsList-frame, Disjoint}
use disastr_os_semaphores.Kernel.{Kernel, ready_list, waiting_list, ProcessStatus}
use disastr_os_semaphores.Kernel.Lists.{ListIs}
use disastr_os_semaphores.Objects.Sem.Laws.{HasOpen}
use disastr_os_semaphores.Syscalls.SemWait.{internal_sem_wait}
use disastr_os_semaphores.Syscalls.SemWait.Blocks.{CanWait, new_ptr, internal_sem_wait-Blocked}
use disastr_os_semaphores.Syscalls.Schedule.{switch_process}
use disastr_os_semaphores.Syscalls.Schedule.Switch.{IsScheduled, switch_process-rotate}

-- A process that has to wait on a semaphore while no other process waits is put in the waiting list
-- with NULL pointers, like an item in no list. The next switch then puts it in the ready list too,
-- with the status of a ready process, though nobody has posted: it will run again.
pub waiting_process-ready :
    (k : Kernel) (ds : List ℕ) (d sem i : ℕ) (is ws : List ℕ) (p : ℕ) (rs : List ℕ)
    → HasOpen k ds d sem
    → CanWait k sem i is ws []
    → (k.semaphores sem).count ≤ℤ pos 0
    → negsuc (2 ^ 31 - 1) <ℤ (k.semaphores sem).count
    → IsScheduled k (p ∷ rs)
    → Disjoint (p ∷ rs) (new_ptr k i ∷ k.running ∷ (ws ++ []))
    → (k' k'' : Kernel) × (internal_sem_wait k ≡ some (tt, k'))
      × (switch_process k' ≡ some (tt, k''))
      × (k''.running ≡ p)
      × ListIs k'' ready_list (rs ++ k.running ∷ [])
      × ((k''.pcbs k.running).status ≡ ProcessStatus.ready)
      × ((k''.heads waiting_list).first ≡ k.running)
waiting_process-ready k ds d sem i is ws p rs o w used low s apart =
    let (k', e, b) = internal_sem_wait-Blocked k ds d sem i is ws [] o w used low in
    let r = k.running in
    let ready : ListIs k' ready_list (p ∷ rs) =
      rw b.ready (IsList-frame (new_ptr k i ∷ r ∷ (ws ++ [])) (p ∷ rs) s.ready b.links apart) in
    let s' : IsScheduled k' (p ∷ rs) = record {
      ready = ready;
      free = record { ne_null = rw b.running o.running; unlinked = rw b.running b.waiting.seg.1 };
      out = ap (λ x. has x (p ∷ rs)) b.running ∙ s.out;
    } in
    let (k'', e', sw) = switch_process-rotate k' p rs s' in
    (
      k',
      k'',
      e,
      e',
      sw.0,
      rw b.running at sw.1.ready,
      rw b.running at sw.3,
      ap (λ (h : ListHead). h.first) (sw.4.heads waiting_list refl) ∙ b.waiting.first,
    )
