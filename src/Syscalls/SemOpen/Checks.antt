-- ===== src/Syscalls/SemOpen/Checks.antt =====
-- `internal_semOpen` (src/disastrOS_semopen.c, steps 4 to 6) of a semaphore that is there.
use disastr_os_semaphores.Common.{
  ℕ, ℤ, pos, ◌≤◌, ◌≡◌, ◌∙◌, ap, ◌⊎◌, inl, inr, false, not, ◌&&◌, some, List, [], arith, length,
  ==-ne, ◌==ℤ◌, flag_set,
}
use disastr_os_semaphores.Kernel.{
  Kernel, semaphore_descriptors, semaphores_list, dsos_create, dsos_excl,
}
use disastr_os_semaphores.Kernel.Lists.{ListIs, first_such}
use disastr_os_semaphores.Syscalls.SemOpen.{internal_sem_open, check_and_open}
use disastr_os_semaphores.Syscalls.SemOpen.Refuses.{arg, semaphore_list_by_id-first}
use disastr_os_semaphores.Syscalls.SemOpen.Opens.{CanOpen, Opened, open_descriptor-Opened}

-- An exclusive opening is asked for only of a semaphore that nobody has open.
abbrev pub MayOpen : (flags : ℤ) → List ℕ → Type 0
MayOpen flags es = (flag_set flags dsos_excl ≡ false) ⊎ (es ≡ [])

pub check_and_open-Opened :
    (k : Kernel) (flags : ℤ) (sem i j : ℕ) (is js ds es : List ℕ)
    → CanOpen k sem i j is js ds es
    → MayOpen flags es
    → (k' : Kernel) × (check_and_open sem flags k ≡ some (tt, k')) × Opened k k' sem i j is js ds es
unfolding check_and_open
check_and_open-Opened k flags sem i j is js ds es c (inl free) =
    let (k', e, o) = open_descriptor-Opened k sem i j is js ds es c in
    (k', simp (==-ne sem 0 c.sem_ne) (rw free e), o)
check_and_open-Opened k flags sem i j is js ds es c (inr none) =
    let (k', e, o) = open_descriptor-Opened k sem i j is js ds es c in
    let size : (k.heads (semaphore_descriptors sem)).size ≡ pos 0 =
      c.entries.size ∙ ap (λ x. pos (length {0} x)) none in
    let still : (flag_set flags dsos_excl
          && not ((k.heads (semaphore_descriptors sem)).size ==ℤ pos 0))
        ≡ false =
      rw size (ground arith) in
    (k', simp (==-ne sem 0 c.sem_ne) (rw still e), o)

-- `internal_semOpen` of a semaphore that is there, without `DSOS_CREATE`, opens it, unless an
-- exclusive opening is asked for and somebody has it open: the process has one more descriptor, with
-- its next number, which the call returns, and the semaphore one more entry, for it. There are at
-- most 1024 semaphores and a free block for the descriptor and one for the entry, in none of the
-- lists, which are in order and share no address.
pub internal_sem_open-Opened :
    (k : Kernel) (ss : List ℕ) (sem i j : ℕ) (is js ds es : List ℕ)
    → ListIs k semaphores_list ss
    → length ss ≤ 1024
    → first_such (λ s. (k.semaphores s).id ==ℤ arg k 0) ss ≡ sem
    → flag_set (arg k 1) dsos_create ≡ false
    → MayOpen (arg k 1) es
    → CanOpen k sem i j is js ds es
    → (k' : Kernel) × (internal_sem_open k ≡ some (tt, k')) × Opened k k' sem i j is js ds es
unfolding internal_sem_open
internal_sem_open-Opened k ss sem i j is js ds es list few found no_create may c =
    let (k', e, o) = check_and_open-Opened k (arg k 1) sem i j is js ds es c may in
    (
      k',
      simp (==-ne k.running 0 c.running)
          (rw (semaphore_list_by_id-first k ss (arg k 0) list few, found, no_create) e),
      o,
    )
