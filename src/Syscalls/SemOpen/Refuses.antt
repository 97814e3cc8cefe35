-- ===== src/Syscalls/SemOpen/Refuses.antt =====
-- When `internal_semOpen` (src/disastrOS_semopen.c) opens nothing.
use disastr_os_semaphores.Common.{
  ℕ, ℤ, Bool-cases, inl, inr, refl, ◌∙◌, is_set, ◌==◌, if◌then◌else◌, ◌≡◌, ◌≢◌, ◌≤◌, arith, true,
  false, some, List, length, to_int, ◌==ℤ◌, ==-ne, flag_set,
}
use disastr_os_semaphores.Kernel.{
  Kernel, semaphores_list, dsos_create, dsos_esemaphorecreate, dsos_esemaphoreopen,
}
use disastr_os_semaphores.Kernel.Lists.{ListIs, first_such, find_in-first_such}
use disastr_os_semaphores.Objects.Sem.{semaphore_list_by_id}
use disastr_os_semaphores.Syscalls.SemOpen.{internal_sem_open}
use disastr_os_semaphores.Syscalls.SemWait.Laws.{returned}

-- An argument of the call, as an `int`.
abbrev pub arg : Kernel → ℕ → ℤ
arg k i = to_int ((k.pcbs k.running).syscall_args i)

pub semaphore_list_by_id-first :
    (k : Kernel) (ss : List ℕ) (id : ℤ)
    → ListIs k semaphores_list ss
    → length ss ≤ 1024
    → semaphore_list_by_id semaphores_list id k
      ≡ some (first_such (λ s. (k.semaphores s).id ==ℤ id) ss, k)
unfolding semaphore_list_by_id
semaphore_list_by_id-first k ss id is few =
    find_in-first_such k semaphores_list (λ k' s. (k'.semaphores s).id ==ℤ id) ss (omega arith) is
      few

-- `internal_semOpen` with the flag `DSOS_CREATE` on a number that a semaphore has returns the error
-- `DSOS_ESEMAPHORECREATE`, and changes nothing else.
internal_sem_open-exists :
    (k : Kernel) (ss : List ℕ) (sem : ℕ)
    → k.running ≢ 0
    → ListIs k semaphores_list ss
    → length ss ≤ 1024
    → first_such (λ s. (k.semaphores s).id ==ℤ arg k 0) ss ≡ sem
    → sem ≢ 0
    → flag_set (arg k 1) dsos_create ≡ true
    → internal_sem_open k ≡ some (tt, returned k k.running dsos_esemaphorecreate)
unfolding internal_sem_open
internal_sem_open-exists k ss sem nr is few found ns create = simp (==-ne k.running 0 nr) (
    rw (semaphore_list_by_id-first k ss (arg k 0) is few, found, create)
      (simp (==-ne sem 0 ns, ==-ne k.running 0 nr)))

-- `internal_semOpen` without the flag `DSOS_CREATE` on a number that no semaphore has returns the
-- error `DSOS_ESEMAPHOREOPEN`, and changes nothing else.
internal_sem_open-missing :
    (k : Kernel) (ss : List ℕ)
    → k.running ≢ 0
    → ListIs k semaphores_list ss
    → length ss ≤ 1024
    → first_such (λ s. (k.semaphores s).id ==ℤ arg k 0) ss ≡ 0
    → flag_set (arg k 1) dsos_create ≡ false
    → internal_sem_open k ≡ some (tt, returned k k.running dsos_esemaphoreopen)
unfolding internal_sem_open
internal_sem_open-missing k ss nr is few none_such no_create = simp (==-ne k.running 0 nr) (
    rw (semaphore_list_by_id-first k ss (arg k 0) is few, none_such, no_create)
      (simp (==-ne k.running 0 nr)))

-- `internal_semOpen` refuses to make a semaphore whose number another one has, and to open one that
-- is not there: it returns `DSOS_ESEMAPHORECREATE` or `DSOS_ESEMAPHOREOPEN`, and changes nothing else.
pub internal_sem_open-refuses :
    (k : Kernel) (ss : List ℕ) (sem : ℕ)
    → k.running ≢ 0
    → ListIs k semaphores_list ss
    → length ss ≤ 1024
    → first_such (λ s. (k.semaphores s).id ==ℤ arg k 0) ss ≡ sem
    → flag_set (arg k 1) dsos_create ≡ is_set sem
    → internal_sem_open k
      ≡ some (
        tt,
        returned k k.running (if is_set sem then dsos_esemaphorecreate else dsos_esemaphoreopen),
      )
internal_sem_open-refuses k ss sem nr is few found asks = elim (Bool-cases (sem == 0)) [
  | inl e ↦
      let none_such : sem ≡ 0 = ground (arith, e) in
      rw e (internal_sem_open-missing k ss nr is few (found ∙ none_such) (asks ∙ rw e refl))
  | inr e ↦
      rw e
        (internal_sem_open-exists k ss sem nr is few found (ground (arith, e)) (asks ∙ rw e refl))
]
