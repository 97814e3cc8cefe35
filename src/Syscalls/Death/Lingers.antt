-- ===== src/Syscalls/Death/Lingers.antt =====
-- `internal_exit` (src/disastrOS_exit.c) when nobody waits for the process: it stays as a zombie.
use disastr_os_semaphores.Common.{
  ℕ, ◌≡◌, ◌≢◌, refl, sym, ◌∙◌, Bool, true, false, some, List, ◌∷◌, has, ==-ne, ==-self,
}
use disastr_os_semaphores.LinkedList.{Links, ListHead}
use disastr_os_semaphores.LinkedList.Insert.{IsFree}
use disastr_os_semaphores.LinkedList.Apart.{has_head}
use disastr_os_semaphores.Kernel.{Kernel, ListRef, update, ready_list, detach_first, ProcessStatus}
use disastr_os_semaphores.Kernel.Lists.{relinked}
use disastr_os_semaphores.Kernel.World.{World, IsOutside, World-detach_first, World-state}
use disastr_os_semaphores.Kernel.View.{View, put}
use disastr_os_semaphores.Syscalls.Death.{internal_exit, leave_zombie, awaits}
use disastr_os_semaphores.Syscalls.Death.Tells.{
  CanExit, exit_view, exiting, with_status, internal_exit-exiting,
}
use disastr_os_semaphores.Syscalls.Death.Kept.{exit_pcbs, exit_value, hung-eq}

module _ (k : Kernel) (q : ℕ) (l : Links) (h : ListHead) where
  abbrev succeeded : Kernel
  succeeded = record (with_status (relinked k ready_list l h) q ProcessStatus.running) {
    running = q;
  }

  leave_zombie-succeeded :
      q ≢ 0
      → detach_first ready_list k ≡ some (q, relinked k ready_list l h)
      → leave_zombie k ≡ some (tt, succeeded)
  unfolding leave_zombie
  leave_zombie-succeeded nq e = rw e (rw (==-ne q 0 nq) (rw (==-ne q 0 nq) refl))

-- The process stays behind the terminated ones with its value, and its children are those of the
-- first process. The first ready process `q` runs, and is in no list. The PCBs are `exit_pcbs`, but
-- for the status of `q`.
pub record Lingered (k k' : Kernel) (live : ListRef → Bool) (v : View) (f q : ℕ)
    (cs ds zs rs : List ℕ) : Type 0 where
  pub world : World k' live (put (exit_view k v cs ds zs) ready_list rs)
  pub runs : k'.running ≡ q
  pub free : IsFree k'.links q
  pub out : IsOutside live (put (exit_view k v cs ds zs) ready_list rs) q
  pub terminated : (k'.pcbs k.running).status ≡ ProcessStatus.zombie
  pub value : (k'.pcbs k.running).return_value ≡ exit_value k
  pub status : (k'.pcbs q).status ≡ ProcessStatus.running
  pub pcbs :
      k'.pcbs
      ≡ update (exit_pcbs k f cs) q (record (exit_pcbs k f cs q) { status = ProcessStatus.running })
  pub memory : k'.user_memory ≡ k.user_memory

-- `internal_exit`, when the parent does not wait for the process, ends, whatever children there are:
-- the children are behind those of the first process, and the process is the last of the terminated
-- ones and keeps the value of the call for its parent. The first ready process runs. The lists of the
-- kernel are in order and apart, before and after, and no others than these four change.
pub internal_exit-Lingered :
    (k : Kernel) (live : ListRef → Bool) (v : View) (f q : ℕ) (cs ds zs rs : List ℕ)
    → CanExit k live v f cs ds zs
    → awaits (k.pcbs f) (k.pcbs k.running).pid ≡ false
    → live ready_list ≡ true
    → v ready_list ≡ q ∷ rs
    → (k' : Kernel) × (internal_exit k ≡ some (tt, k')) × Lingered k k' live v f q cs ds zs rs
internal_exit-Lingered k live v f q cs ds zs rs c quiet live_ready ready =
    let r = k.running in
    let (l₁, h₁, e₁, w₁) = internal_exit-exiting k live v f cs ds zs c in
    let k₁ = exiting k f cs l₁ h₁ in
    let u = exit_view k v cs ds zs in
    let (l₂, h₂, e₂, w₂, free, out, same) =
      World-detach_first k₁ live u w₁ ready_list live_ready q rs ready in
    let k' = succeeded k₁ q l₂ h₂ in
    let outside : has r (q ∷ rs) ≡ false = rw ready at (c.out ready_list live_ready) in
    let nq : r ≢ q = has_head r q rs outside in
    let nf : r ≢ f = λ e. c.other (sym e) in
    (
      k',
      e₁ ∙ rw quiet (leave_zombie-succeeded k₁ q l₂ h₂ free.ne_null e₂),
      record {
        world =
            World-state (relinked k₁ ready_list l₂ h₂) k' live (put u ready_list rs) refl refl w₂;
        runs = refl;
        free = record { ne_null = free.ne_null; unlinked = free.unlinked };
        out = out;
        terminated = rw (==-ne r q nq, ==-ne r f nf, ==-self r) refl;
        value =
            rw (==-ne r q nq, ==-ne r f nf, ==-self r)
              (hung-eq k f cs (λ p. p.return_value) r (λ p s. refl) ∙ rw (==-self r) refl);
        status = rw (==-self q) refl;
        pcbs = refl;
        memory = refl;
      },
    )
