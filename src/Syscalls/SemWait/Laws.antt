-- ===== src/Syscalls/SemWait/Laws.antt =====
-- `internal_semWait` (src/disastrOS_semwait.c) on a wrong number and on a positive count.
use disastr_os_semaphores.Common.{
  ℕ, suc, ℤ, pos, ◌^◌, ◌≤◌, ◌<◌, ◌≡◌, ◌≢◌, ◌∙◌, ap, false, some, List, arith, length, ==-ne,
  ==-self, ◌==ℤ◌, if◌then◌else◌, to_int, int_sub, int_sub-suc, ltb_ℤ,
}
use disastr_os_semaphores.Kernel.{
  Kernel, update, sem_descriptors, dsos_esemaphorewait, and_then, skip,
}
use disastr_os_semaphores.Kernel.Lists.{ListIs, first_such}
use disastr_os_semaphores.Objects.Sem.{sem_descriptor_list_by_fd}
use disastr_os_semaphores.Objects.Sem.Laws.{HasOpen, sem_descriptor_list_by_fd-first}
use disastr_os_semaphores.Syscalls.Common.{set_retvalue}
use disastr_os_semaphores.Syscalls.SemWait.{internal_sem_wait, wait_on}

-- The kernel with another count at a semaphore, and with another return value at a process.
abbrev pub counted : Kernel → (sem : ℕ) → ℤ → Kernel
counted k sem n = record k {
  semaphores = update k.semaphores sem (record (k.semaphores sem) { count = n });
}

abbrev pub returned : Kernel → (p : ℕ) → ℤ → Kernel
returned k p v = record k { pcbs = update k.pcbs p (record (k.pcbs p) { syscall_retvalue = v }) }

abbrev pub fd_arg : Kernel → ℤ
fd_arg k = to_int ((k.pcbs k.running).syscall_args 0)

-- `internal_semWait` on a number that no descriptor of the process has returns the error, and
-- changes nothing else.
pub internal_sem_wait-no_fd :
    (k : Kernel) (ds : List ℕ)
    → k.running ≢ 0
    → ListIs k (sem_descriptors k.running) ds
    → length ds ≤ 1024
    → first_such (λ p. (k.sem_descs p).fd ==ℤ fd_arg k) ds ≡ 0
    → internal_sem_wait k ≡ some (tt, returned k k.running dsos_esemaphorewait)
unfolding internal_sem_wait
internal_sem_wait-no_fd k ds nr is few none_such = simp (==-ne k.running 0 nr) (
    rw (sem_descriptor_list_by_fd-first k ds k.running (fd_arg k) nr is few, none_such)
      (simp (==-ne k.running 0 nr)))

module _ (k : Kernel) (ds : List ℕ) (d sem : ℕ) (o : HasOpen k ds d sem) where
  found : sem_descriptor_list_by_fd (sem_descriptors k.running) (fd_arg k) k ≡ some (d, k)
  found =
      sem_descriptor_list_by_fd-first k ds k.running (fd_arg k) o.running o.list o.few
      ∙ ap (λ (p : ℕ). some (p, k)) o.first

  abbrev pub after : ℤ
  after = int_sub (k.semaphores sem).count (pos 1)

  -- Past the checks: the count goes down, the process may be queued, and 0 is returned.
  pub internal_sem_wait-open :
      internal_sem_wait k
      ≡ and_then
          ((if ltb_ℤ after (pos 0) then wait_on sem d else skip) (counted k sem after))
          λ _. set_retvalue (pos 0)
  unfolding internal_sem_wait
  internal_sem_wait-open = simp (==-ne k.running 0 o.running) (
      rw found
        (simp (==-ne d 0 o.desc) (rw o.semaphore (simp (==-ne sem 0 o.sem_ne, ==-self sem)))))

  -- `internal_semWait` on an open semaphore with a positive count lowers it by one and returns 0, and
  -- changes nothing else.
  pub internal_sem_wait-available :
      (n : ℕ)
      → (k.semaphores sem).count ≡ pos (suc n)
      → n < 2 ^ 31
      → internal_sem_wait k ≡ some (tt, returned (counted k sem (pos n)) k.running (pos 0))
  internal_sem_wait-available n c small =
      let e : after ≡ pos n = rw c (int_sub-suc n small) in
      let stays : ltb_ℤ (pos n) (pos 0) ≡ false = ground arith in
      internal_sem_wait-open ∙ rw e (rw stays (simp (==-ne k.running 0 o.running)))
