-- ===== src/Syscalls/SemPost/Laws.antt =====
-- What `internal_semPost` (src/disastrOS_sempost.c) does when nobody waits, and on a wrong number.
use disastr_os_semaphores.Common.{
  ℕ, suc, ℤ, pos, ◌^◌, ◌≤◌, ◌<◌, ◌≡◌, ◌≢◌, ◌∙◌, ap, true, not, some, none, List, arith, length,
  ==-ne, ==-self, ◌==ℤ◌, if◌then◌else◌, int_add, int_add_pos, ltb_ℤ,
}
use disastr_os_semaphores.Kernel.{Kernel, sem_descriptors, dsos_esemaphorewait}
use disastr_os_semaphores.Kernel.Lists.{ListIs, first_such}
use disastr_os_semaphores.Objects.Sem.{sem_descriptor_list_by_fd}
use disastr_os_semaphores.Objects.Sem.Laws.{HasOpen, sem_descriptor_list_by_fd-first}
use disastr_os_semaphores.Syscalls.Common.{set_retvalue}
use disastr_os_semaphores.Syscalls.SemWait.Laws.{counted, returned, fd_arg, internal_sem_wait-no_fd}
use disastr_os_semaphores.Syscalls.SemWait.{internal_sem_wait}
use disastr_os_semaphores.Syscalls.SemPost.{internal_sem_post, wake_first}

-- If no descriptor of the running process, whose list is in order and no longer than the bound of the
-- walk, has the number that the call passes, then `internal_semPost` dereferences NULL: it faults.
-- `internal_semWait` from the same state returns the error, and changes nothing else.
pub internal_sem_post-no_fd :
    (k : Kernel) (ds : List ℕ)
    → k.running ≢ 0
    → ListIs k (sem_descriptors k.running) ds
    → length ds ≤ 1024
    → first_such (λ p. (k.sem_descs p).fd ==ℤ fd_arg k) ds ≡ 0
    → (internal_sem_post k ≡ none)
      × (internal_sem_wait k ≡ some (tt, returned k k.running dsos_esemaphorewait))
unfolding internal_sem_post
internal_sem_post-no_fd k ds nr is few none_such = (
  simp (==-ne k.running 0 nr)
      (rw (sem_descriptor_list_by_fd-first k ds k.running (fd_arg k) nr is few, none_such)),
  internal_sem_wait-no_fd k ds nr is few none_such,
)

module _ (k : Kernel) (ds : List ℕ) (d sem : ℕ) (o : HasOpen k ds d sem) where
  found : sem_descriptor_list_by_fd (sem_descriptors k.running) (fd_arg k) k ≡ some (d, k)
  found =
      sem_descriptor_list_by_fd-first k ds k.running (fd_arg k) o.running o.list o.few
      ∙ ap (λ (p : ℕ). some (p, k)) o.first

  abbrev pub after : ℤ
  after = int_add (k.semaphores sem).count (pos 1)

  -- Past the lookup: the count goes up, and a process is woken if some still wait.
  pub internal_sem_post-open :
      internal_sem_post k
      ≡ (if not (ltb_ℤ (pos 0) after) then wake_first sem else set_retvalue (pos 0))
          (counted k sem after)
  unfolding internal_sem_post
  internal_sem_post-open = simp (==-ne k.running 0 o.running) (
      rw found
        (simp (==-ne d 0 o.desc) (rw o.semaphore (simp (==-ne sem 0 o.sem_ne, ==-self sem)))))

  -- `internal_semPost` on an open semaphore whose count is not negative, and is below the largest
  -- `int`, raises it by one and returns 0, and changes nothing else.
  pub internal_sem_post-available :
      (n : ℕ)
      → (k.semaphores sem).count ≡ pos n
      → suc n < 2 ^ 31
      → internal_sem_post k ≡ some (tt, returned (counted k sem (pos (suc n))) k.running (pos 0))
  internal_sem_post-available n c small =
      let e : after ≡ pos (suc n) = rw c (int_add_pos n small) in
      let positive : ltb_ℤ (pos 0) (pos (suc n)) ≡ true = ground arith in
      internal_sem_post-open ∙ rw e (rw positive (simp (==-ne k.running 0 o.running)))
