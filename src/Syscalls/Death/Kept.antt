-- ===== src/Syscalls/Death/Kept.antt =====
-- The PCBs that `internal_exit` (src/disastrOS_exit.c) leaves.
use Prim.Native.Nat.{bit_and, bit_or}
use disastr_os_semaphores.Common.{
  ℕ, ℤ, ◌≡◌, ◌≢◌, refl, sym, ◌∙◌, ap, List, [], ◌∷◌, ==-ne, ==-self, to_int,
}
use disastr_os_semaphores.Kernel.{Kernel, Pcb, update, update_keeps, ProcessStatus, dsos_sigchld}
use disastr_os_semaphores.Syscalls.Death.{awaits}
use disastr_os_semaphores.Syscalls.Death.Reparent.{procs, hup, hupped}

-- SIGHUP changes the signals of a PCB and no more.
pub hupped-signals :
    (pcbs : ℕ → Pcb) (ps : List ℕ) (p : ℕ)
    → record (hupped pcbs ps p) { signals = 0 } ≡ record (pcbs p) { signals = 0 }
unfolding hupped
hupped-signals pcbs [] p = refl
hupped-signals pcbs (q ∷ ps) p =
    hupped-signals (update pcbs q (hup (pcbs q))) ps p
    ∙ update_keeps {A = Pcb} {B = Pcb} (λ x. record x { signals = 0 }) pcbs q (hup (pcbs q)) p refl

-- SIGCHLD is sent, as far as the mask lets it through.
abbrev pub chld : Pcb → Pcb
chld p = record p { signals = bit_or p.signals (bit_and dsos_sigchld p.signals_mask) }

-- The value that the process leaves.
abbrev pub exit_value : Kernel → ℤ
exit_value k = to_int ((k.pcbs k.running).syscall_args 0)

abbrev pub valued : Kernel → Kernel
valued k = record k {
  pcbs = update k.pcbs k.running (record (k.pcbs k.running) { return_value = exit_value k });
}

-- The PCBs when the parent has been told: the value is stored, the children have got SIGHUP, the
-- process has terminated, and the parent has got SIGCHLD.
abbrev pub exit_pcbs : Kernel → (f : ℕ) (cs : List ℕ) → ℕ → Pcb
exit_pcbs k f cs =
    let hung = hupped (valued k).pcbs (procs k.pcb_ptrs cs) in
    let gone = update hung k.running (record (hung k.running) { status = ProcessStatus.zombie }) in
    update gone f (chld (gone f))

valued-eq :
    (k : Kernel) {A : Type 0} (g : Pcb → A) (p : ℕ)
    → g (record (k.pcbs k.running) { return_value = exit_value k }) ≡ g (k.pcbs k.running)
    → g ((valued k).pcbs p) ≡ g (k.pcbs p)
valued-eq k g p =
    update_keeps g k.pcbs k.running (record (k.pcbs k.running) { return_value = exit_value k }) p

module _ (k : Kernel) (f : ℕ) (cs : List ℕ) where
  abbrev pub hung : ℕ → Pcb
  hung = hupped (valued k).pcbs (procs k.pcb_ptrs cs)

  abbrev pub gone : ℕ → Pcb
  gone = update hung k.running (record (hung k.running) { status = ProcessStatus.zombie })

  -- What the end looks at is as it was.
  pub hung-eq :
      {A : Type 0} (g : Pcb → A) (p : ℕ)
      → ((q : Pcb) (s : ℕ) → g (record q { signals = s }) ≡ g q)
      → g (hung p) ≡ g ((valued k).pcbs p)
  hung-eq g p same =
      sym (same (hung p) 0)
      ∙ ap g (hupped-signals (valued k).pcbs (procs k.pcb_ptrs cs) p)
      ∙ same ((valued k).pcbs p) 0

  module _ {A : Type 0} (g : Pcb → A)
      (signals : (q : Pcb) (s : ℕ) → g (record q { signals = s }) ≡ g q)
      (status : (q : Pcb) (s : ProcessStatus) → g (record q { status = s }) ≡ g q) where
    gone-eq : (p : ℕ) → g (gone p) ≡ g ((valued k).pcbs p)
    gone-eq p =
        update_keeps g hung k.running (record (hung k.running) { status = ProcessStatus.zombie }) p
          (status (hung k.running) ProcessStatus.zombie)
        ∙ hung-eq g p signals

    pub exit_pcbs-eq : (p : ℕ) → g (exit_pcbs k f cs p) ≡ g ((valued k).pcbs p)
    exit_pcbs-eq p =
        update_keeps g gone f (chld (gone f)) p (signals (gone f) (chld (gone f)).signals)
        ∙ gone-eq p

  pub gone-parent : (gone k.running).parent ≡ (k.pcbs k.running).parent
  gone-parent =
      gone-eq (λ q. q.parent) (λ q s. refl) (λ q s. refl) k.running
      ∙ valued-eq k (λ q. q.parent) k.running refl

  gone-pid : (gone k.running).pid ≡ (k.pcbs k.running).pid
  gone-pid =
      gone-eq (λ q. q.pid) (λ q s. refl) (λ q s. refl) k.running
      ∙ valued-eq k (λ q. q.pid) k.running refl

  pub gone-awaits :
      f ≢ k.running
      → awaits (gone f) (gone k.running).pid ≡ awaits (k.pcbs f) (k.pcbs k.running).pid
  gone-awaits ne =
      ap (awaits (gone f)) gone-pid
      ∙ rw (==-ne f k.running ne) (
          hung-eq (λ q. awaits q (k.pcbs k.running).pid) f (λ q s. refl)
          ∙ rw (==-ne f k.running ne) refl)

pub exit_pid :
    (k : Kernel) (f : ℕ) (cs : List ℕ) (p : ℕ) → (exit_pcbs k f cs p).pid ≡ (k.pcbs p).pid
exit_pid k f cs p =
    exit_pcbs-eq k f cs (λ q. q.pid) (λ q s. refl) (λ q s. refl) p ∙ valued-eq k (λ q. q.pid) p refl

pub exit_args :
    (k : Kernel) (f : ℕ) (cs : List ℕ) (p : ℕ)
    → (exit_pcbs k f cs p).syscall_args ≡ (k.pcbs p).syscall_args
exit_args k f cs p =
    exit_pcbs-eq k f cs (λ q. q.syscall_args) (λ q s. refl) (λ q s. refl) p
    ∙ valued-eq k (λ q. q.syscall_args) p refl

-- The value that is kept is that of the call.
pub exit_kept :
    (k : Kernel) (f : ℕ) (cs : List ℕ) → (exit_pcbs k f cs k.running).return_value ≡ exit_value k
exit_kept k f cs =
    exit_pcbs-eq k f cs (λ q. q.return_value) (λ q s. refl) (λ q s. refl) k.running
    ∙ rw (==-self k.running) refl
