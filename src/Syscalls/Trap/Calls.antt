-- ===== src/Syscalls/Trap/Calls.antt =====
-- What `disastrOS_syscall` (src/disastrOS.c) stores, and what comes back.
use disastr_os_semaphores.Common.{
  ℕ, zero, suc, ℤ, pos, ◌+◌, ◌≡◌, ◌≢◌, ◌<◌, refl, ◌∙◌, false, ◌&&◌, some, arith, ==-ne, ==-self,
  ltb, leb, ltb_ℤ, if◌then◌else◌,
}
use disastr_os_semaphores.Kernel.{Kernel, M, Pcb, update, pure, ◌>>=◌, and_then, get_pcb}
use disastr_os_semaphores.Syscalls.Trap.{
  disastr_os_syscall, store_args, run_handler, syscall_vector, syscall_numarg,
}
use disastr_os_semaphores.Syscalls.Trap.Dispatch.{disastr_os_trap-dispatch}

-- The PCBs with `left` arguments, from the one at `i` on, stored in that of the process `r`.
unfoldable pub stored : (ℕ → Pcb) → (r : ℕ) → (args : ℕ → ℤ) → (left i : ℕ) → ℕ → Pcb
stored pcbs r args zero i = pcbs
stored pcbs r args (suc n) i =
    stored
      (update pcbs r (record (pcbs r) { syscall_args = update (pcbs r).syscall_args i (args i) })) r
      args n (i + 1)

-- What a handler starts from: the arguments and the number of the call are stored.
abbrev pub loaded : Kernel → (num : ℕ) → (args : ℕ → ℤ) → Kernel
loaded k n args =
    let pcbs = stored k.pcbs k.running args (syscall_numarg n) 0 in
    record k { pcbs = update pcbs k.running (record (pcbs k.running) { syscall_num = pos n }) }

abbrev with_pcbs : Kernel → (ℕ → Pcb) → Kernel
with_pcbs k pcbs = record k { pcbs = pcbs }

store_args-stored :
    (k : Kernel) (args : ℕ → ℤ) (n i : ℕ)
    → k.running ≢ 0
    → store_args args n i k ≡ some (tt, with_pcbs k (stored k.pcbs k.running args n i))
unfolding store_args stored
store_args-stored k args zero i nr = refl
store_args-stored k args (suc n) i nr =
    let pcbs = k.pcbs in
    let r = k.running in
    rw (==-ne k.running 0 nr) (
      store_args-stored
        (with_pcbs k (
          update pcbs r
            (record (pcbs r) { syscall_args = update (pcbs r).syscall_args i (args i) })))
        args n (i + 1) nr)

-- The value that the caller reads when its process goes on.
abbrev pub answer : (r : ℕ) → M ℤ
answer r = do p ← get_pcb r; pure p.syscall_retvalue

-- With a process running, a call whose number is below the size of the table stores as many of the
-- arguments as the table says and runs the handler of the number.
pub disastr_os_syscall-loaded :
    (k : Kernel) (n : ℕ) (args : ℕ → ℤ)
    → k.running ≢ 0
    → n < 32
    → disastr_os_syscall (pos n) args k
      ≡ and_then (run_handler (syscall_vector n) (loaded k n args)) (λ _. answer k.running)
unfolding disastr_os_syscall
disastr_os_syscall-loaded k n args nr small =
    let r = k.running in
    let ge : ltb_ℤ (pos n) (pos 0) ≡ false = ground arith in
    let le : ltb_ℤ (pos 32) (pos n) ≡ false = ground arith in
    let low : leb 32 n ≡ false = ground arith in
    let s = store_args-stored k args (syscall_numarg n) 0 nr in
    let trap = disastr_os_trap-dispatch (loaded k n args) n nr (rw (==-self r)) small in
    rw (==-ne k.running 0 nr, ge, le, low, s) (rw (==-ne k.running 0 nr) (rw trap refl))

-- The arguments that were stored, and those that were not.
pub stored-args :
    (pcbs : ℕ → Pcb) (r : ℕ) (args : ℕ → ℤ) (n i j : ℕ)
    → (stored pcbs r args n i r).syscall_args j
      ≡ (if leb i j && ltb j (i + n) then args j else (pcbs r).syscall_args j)
unfolding stored
stored-args pcbs r args zero i j = ground arith
stored-args pcbs r args (suc n) i j =
    stored-args
      (update pcbs r (record (pcbs r) { syscall_args = update (pcbs r).syscall_args i (args i) })) r
      args n (i + 1) j
    ∙ rw (==-self r) (ground arith)

-- Storing arguments changes no other field of the process, and no other process.
pub stored-last_sem_fd :
    (pcbs : ℕ → Pcb) (r : ℕ) (args : ℕ → ℤ) (n i : ℕ)
    → (stored pcbs r args n i r).last_sem_fd ≡ (pcbs r).last_sem_fd
unfolding stored
stored-last_sem_fd pcbs r args zero i = refl
stored-last_sem_fd pcbs r args (suc n) i =
    stored-last_sem_fd
      (update pcbs r (record (pcbs r) { syscall_args = update (pcbs r).syscall_args i (args i) })) r
      args n (i + 1)
    ∙ rw (==-self r) refl

pub stored-other :
    (pcbs : ℕ → Pcb) (r : ℕ) (args : ℕ → ℤ) (n i p : ℕ) → p ≢ r → stored pcbs r args n i p ≡ pcbs p
unfolding stored
stored-other pcbs r args zero i p ne = refl
stored-other pcbs r args (suc n) i p ne =
    stored-other
      (update pcbs r (record (pcbs r) { syscall_args = update (pcbs r).syscall_args i (args i) })) r
      args n (i + 1) p ne
    ∙ rw (==-ne p r ne) refl
