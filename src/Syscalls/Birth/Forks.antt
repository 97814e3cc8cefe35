-- ===== src/Syscalls/Birth/Forks.antt =====
-- The new process of `internal_fork` (src/disastrOS_fork.c) and `internal_spawn`
-- (src/disastrOS_spawn.c).
use disastr_os_semaphores.Common.{
  ℕ, ◌≡◌, refl, sym, ◌∙◌, ap, false, some, List, ==-ne, ==-self, ◌==◌,
}
use disastr_os_semaphores.Kernel.{Kernel, update}
use disastr_os_semaphores.Objects.Process.Laws.{pcb_alloc-first}
use disastr_os_semaphores.Syscalls.Birth.{internal_fork, internal_spawn}
use disastr_os_semaphores.Syscalls.Birth.Adopt.{CanFork, Forked, new_pcb, adopt-Forked}

internal_fork-Forked :
    (k : Kernel) (i j : ℕ) (is js rs cs : List ℕ)
    → CanFork k i j is js rs cs
    → (k' : Kernel) × (internal_fork k ≡ some (tt, k')) × Forked k k' i j is js rs cs
unfolding internal_fork
internal_fork-Forked k i j is js rs cs c =
    let (k', e, f) = adopt-Forked k i j is js rs cs c in
    (k', rw (pcb_alloc-first k i is c.pcbs c.pcb_ne, ==-ne (new_pcb k i) 0 c.pcb_ne) e, f)

internal_spawn-Forked :
    (k : Kernel) (i j : ℕ) (is js rs cs : List ℕ)
    → CanFork k i j is js rs cs
    → (k' : Kernel) × (internal_spawn k ≡ some (tt, k'))
      × Forked k k' i j is js rs cs
      × ((k'.pcbs (new_pcb k i)).entry ≡ (k.pcbs k.running).syscall_args 0)
      × ((k'.pcbs (new_pcb k i)).entry_arg ≡ (k.pcbs k.running).syscall_args 1)
unfolding internal_spawn
internal_spawn-Forked k i j is js rs cs c =
    let (k', e, f) = adopt-Forked k i j is js rs cs c in
    let p = new_pcb k i in
    let r = k.running in
    let args = (k.pcbs r).syscall_args in
    let other : (r == p) ≡ false = ==-ne r p (λ s. c.pcb_out.0 (sym s)) in
    let live : (k'.running == 0) ≡ false = rw f.running (==-ne r 0 c.scheduled.free.ne_null) in
    let same : (k'.pcbs k'.running).syscall_args ≡ args =
      ap (λ x. (k'.pcbs x).syscall_args) f.running ∙ f.args in
    let spawned = record k' {
      pcbs = update k'.pcbs p (record (k'.pcbs p) { entry = args 0; entry_arg = args 1 });
    } in
    (
      spawned,
      rw (pcb_alloc-first k i is c.pcbs c.pcb_ne, ==-ne p 0 c.pcb_ne, e, live)
          (rw (same, ==-ne p 0 c.pcb_ne) refl),
      record {
        scheduled = record {
          ready = f.scheduled.ready;
          free = record {
            ne_null = f.scheduled.free.ne_null;
            unlinked = f.scheduled.free.unlinked;
          };
          out = f.scheduled.out;
        };
        offspring = f.offspring;
        child = f.child;
        running = f.running;
        value = rw other f.value;
        args = rw other f.args;
        pid = rw (==-self p) f.pid;
        next_pid = f.next_pid;
        status = rw (==-self p) f.status;
        parent = rw (==-self p) f.parent;
        no_children = f.no_children;
        no_descriptors = f.no_descriptors;
        left_over = f.left_over;
        pcbs = f.pcbs;
        ptrs = f.ptrs;
      },
      rw (==-self p) refl,
      rw (==-self p) refl,
    )

-- `internal_fork`, with a block free for the new process and one for a pointer to it, makes a process
-- that is the last ready one and the last child of the running one; it has the next number, no child
-- and no open resource, and its list of semaphore descriptors is the one that the block had before.
-- The running process goes on, and gets that number. The lists of ready processes and of children are
-- in order, before and after. Before, they are apart, the running process and the two blocks are in
-- neither, and their sizes can go up by one as an `int`.
-- `internal_spawn` makes the same process under the same conditions, and the new process runs the
-- function that the call names, on the argument that it names.
pub births-Forked :
    (k : Kernel) (i j : ℕ) (is js rs cs : List ℕ)
    → CanFork k i j is js rs cs
    → ((k' : Kernel) × (internal_fork k ≡ some (tt, k')) × Forked k k' i j is js rs cs)
      × ((k' : Kernel) × (internal_spawn k ≡ some (tt, k'))
          × Forked k k' i j is js rs cs
          × ((k'.pcbs (new_pcb k i)).entry ≡ (k.pcbs k.running).syscall_args 0)
          × ((k'.pcbs (new_pcb k i)).entry_arg ≡ (k.pcbs k.running).syscall_args 1))
births-Forked k i j is js rs cs c =
    (internal_fork-Forked k i j is js rs cs c, internal_spawn-Forked k i j is js rs cs c)
