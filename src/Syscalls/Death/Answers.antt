-- ===== src/Syscalls/Death/Answers.antt =====
-- What a waiting parent gets from `internal_exit` (src/disastrOS_exit.c).
use disastr_os_semaphores.Common.{
  ℕ, ℤ, pos, ◌≤◌, ◌≡◌, ◌≢◌, refl, ◌∙◌, ap, not, some, List, length, ==-ne, ==-self, ◌==ℤ◌,
  if◌then◌else◌,
}
use disastr_os_semaphores.LinkedList.{Links, ListHead}
use disastr_os_semaphores.Kernel.{
  Kernel, M, ◌>>=◌, ◌>>◌, skip, Pcb, ListRef, update, update_keeps, waiting_list, children,
  detach_at, set_pcb, get_pcb, put_user, ProcessStatus,
}
use disastr_os_semaphores.Kernel.Lists.{
  ListIs, relinked, first_such, first_such-same, find_in-first_such,
}
use disastr_os_semaphores.Objects.Process.{pcb_ptr_by_pid}
use disastr_os_semaphores.Syscalls.Death.{report_to_parent}
use disastr_os_semaphores.Syscalls.Death.Reaps.{written, put_user-written}
use disastr_os_semaphores.Syscalls.Death.Releases.{bury}
use disastr_os_semaphores.Syscalls.Death.Tells.{exiting, with_status}
use disastr_os_semaphores.Syscalls.Death.Kept.{exit_pcbs, exit_pid}

-- The parent at `f` gets the number and the value of the process `r`, whose PCB is `p`.
abbrev answer : (f r : ℕ) → Pcb → M (Unit {0})
answer f r p = do
  self_in_parent ← pcb_ptr_by_pid (children f) p.pid
  detach_at (children f) self_in_parent
  set_pcb f λ q. record q { syscall_retvalue = p.pid }
  q ← get_pcb f
  if not (q.syscall_args 1 ==ℤ pos 0) then put_user (q.syscall_args 1) p.return_value else skip
  bury r f

module _ (k : Kernel) (f : ℕ) (l : Links) (h : ListHead) where
  abbrev pub raised : Kernel
  raised = with_status (relinked k waiting_list l h) f ProcessStatus.running

  pub report-raised :
      k.running ≢ 0
      → f ≢ 0
      → k.running ≢ f
      → detach_at waiting_list f k ≡ some (f, relinked k waiting_list l h)
      → report_to_parent f k ≡ answer f k.running (k.pcbs k.running) raised
  unfolding report_to_parent
  report-raised nr nf nrf e = rw e (
      rw (==-ne f 0 nf) (rw (==-ne f 0 nf) (rw (==-ne k.running 0 nr, ==-ne k.running f nrf) refl)))

module _ (k : Kernel) (f s r : ℕ) (p : Pcb) (l : Links) (h : ListHead) where
  abbrev forgotten : Kernel
  forgotten = relinked k (children f) l h

  abbrev pub answered : Kernel
  answered = record forgotten {
    pcbs = update k.pcbs f (record (k.pcbs f) { syscall_retvalue = p.pid });
    user_memory = written k.user_memory ((k.pcbs f).syscall_args 1) p.return_value;
  }

  pub answer-answered :
      f ≢ 0
      → pcb_ptr_by_pid (children f) p.pid k ≡ some (s, k)
      → detach_at (children f) s k ≡ some (s, forgotten)
      → answer f r p k ≡ bury r f answered
  answer-answered nf e₁ e₂ =
      let k' = record forgotten {
        pcbs = update k.pcbs f (record (k.pcbs f) { syscall_retvalue = p.pid });
      } in
      rw e₁ (
        rw e₂ (
          rw (==-ne f 0 nf, ==-self f)
            (rw (==-ne f 0 nf)
              (rw (put_user-written k' ((k.pcbs f).syscall_args 1) p.return_value) refl))))

-- The entry of the process among the children of the parent is found, whatever else has changed.
pub found-raised :
    (k : Kernel) (f s : ℕ) (cs xs : List ℕ) (l l₂ : Links) (h : ListRef → ListHead) (h₂ : ListHead)
    → f ≢ 0
    → ListIs (raised (exiting k f cs l h) f l₂ h₂) (children f) xs
    → length xs ≤ 1024
    → first_such (λ e. (k.pcbs (k.pcb_ptrs e).pcb).pid ==ℤ (k.pcbs k.running).pid) xs ≡ s
    → pcb_ptr_by_pid
        (children f)
        (exit_pcbs k f cs k.running).pid
        (raised (exiting k f cs l h) f l₂ h₂)
      ≡ some (s, raised (exiting k f cs l h) f l₂ h₂)
unfolding pcb_ptr_by_pid
found-raised k f s cs xs l l₂ h h₂ nf is few entry =
    let k₂ = raised (exiting k f cs l h) f l₂ h₂ in
    let pid : ℤ = (exit_pcbs k f cs k.running).pid in
    let pids : (p : ℕ) → (k₂.pcbs p).pid ≡ (k.pcbs p).pid = λ p.
      update_keeps (λ q. q.pid) (exit_pcbs k f cs) f
        (record (exit_pcbs k f cs f) { status = ProcessStatus.running }) p refl
      ∙ exit_pid k f cs p in
    find_in-first_such k₂ (children f) (λ k' e. (k'.pcbs (k'.pcb_ptrs e).pcb).pid ==ℤ pid) xs nf is
      few
    ∙ ap (λ x. some (x, k₂))
        (first_such-same (λ e. (k₂.pcbs (k.pcb_ptrs e).pcb).pid ==ℤ pid)
            (λ e. (k.pcbs (k.pcb_ptrs e).pcb).pid ==ℤ (k.pcbs k.running).pid) xs
            (λ e.
              ap (λ x. x ==ℤ pid) (pids (k.pcb_ptrs e).pcb)
              ∙ ap (λ x. (k.pcbs (k.pcb_ptrs e).pcb).pid ==ℤ x) (exit_pid k f cs k.running))
          ∙ entry)
