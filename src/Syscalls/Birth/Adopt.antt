-- ===== src/Syscalls/Birth/Adopt.antt =====
-- What `internal_fork` (src/disastrOS_fork.c) and `internal_spawn` (src/disastrOS_spawn.c) both make of
-- the lists and pools.
use disastr_os_semaphores.Common.{
  ℕ, suc, ◌^◌, ◌<◌, ◌≡◌, ◌≢◌, refl, sym, ◌∙◌, false, some, List, [], ◌∷◌, ◌++◌, arith, length, has,
  ==-ne, ==-self, int_add, pos,
}
use disastr_os_semaphores.LinkedList.{Links, ListHead, list_init}
use disastr_os_semaphores.LinkedList.Seg.{IsList, IsList-frame, SameOutside, Disjoint}
use disastr_os_semaphores.LinkedList.Insert.{IsFree}
use disastr_os_semaphores.LinkedList.Apart.{
  not-has-cons, not-has-append, Disjoint-sym, Disjoint-cons, Disjoint-append, Disjoint-cons_right,
  Disjoint-nil_left,
}
use disastr_os_semaphores.PoolAllocator.Free.{IsValid}
use disastr_os_semaphores.PoolAllocator.Blocks.{taken-IsValid}
use disastr_os_semaphores.Kernel.{
  Kernel, update, pcb_pool, pcb_ptr_pool, children, descriptors, sem_descriptors, ready_list,
  ProcessStatus, insert_back,
}
use disastr_os_semaphores.Kernel.Lists.{ListIs, relinked, insert_back-IsList}
use disastr_os_semaphores.Kernel.Pools.{block_at}
use disastr_os_semaphores.Objects.Process.Laws.{born, pcb_pointed, pcb_ptr_alloc-first}
use disastr_os_semaphores.Syscalls.SemWait.Laws.{returned}
use disastr_os_semaphores.Syscalls.Schedule.Switch.{IsScheduled}
use disastr_os_semaphores.Syscalls.Birth.{adopt}

-- The addresses that the pools of PCBs and of pointers to them hand out next.
abbrev pub new_pcb : Kernel → ℕ → ℕ
new_pcb k i = block_at (k.pools pcb_pool) i

abbrev pub new_pcb_ptr : Kernel → ℕ → ℕ
new_pcb_ptr k j = block_at (k.pools pcb_ptr_pool) j

-- The ready processes are `rs` and the children of the running one `cs`; there is a free block, `i`,
-- for a PCB and one, `j`, for a pointer, in none of these lists.
pub record CanFork (k : Kernel) (i j : ℕ) (is js rs cs : List ℕ) : Type 0 where
  pub scheduled : IsScheduled k rs
  pub offspring : ListIs k (children k.running) cs
  pub pcbs : IsValid (k.pools pcb_pool) (i ∷ is)
  pub ptrs : IsValid (k.pools pcb_ptr_pool) (j ∷ js)
  pub pcb_ne : new_pcb k i ≢ 0
  pub ptr_ne : new_pcb_ptr k j ≢ 0
  pub pcb_out :
      (new_pcb k i ≢ k.running) × (has (new_pcb k i) rs ≡ false) × (has (new_pcb k i) cs ≡ false)
  pub ptr_out :
      (new_pcb_ptr k j ≢ k.running)
      × (new_pcb_ptr k j ≢ new_pcb k i)
      × (has (new_pcb_ptr k j) rs ≡ false)
      × (has (new_pcb_ptr k j) cs ≡ false)
  pub run_out : has k.running cs ≡ false
  pub apart : Disjoint rs cs
  pub room : (suc (length rs) < 2 ^ 31) × (suc (length cs) < 2 ^ 31)

-- The new process is the last ready one, a child of the running one, which goes on and gets its
-- number; it has no child and no open resource. Its list of semaphore descriptors is what the list of
-- the process that had the block before was: nothing sets it.
pub record Forked (k k' : Kernel) (i j : ℕ) (is js rs cs : List ℕ) : Type 0 where
  pub scheduled : IsScheduled k' (rs ++ new_pcb k i ∷ [])
  pub offspring : ListIs k' (children k.running) (cs ++ new_pcb_ptr k j ∷ [])
  pub child : (k'.pcb_ptrs (new_pcb_ptr k j)).pcb ≡ new_pcb k i
  pub running : k'.running ≡ k.running
  pub value : (k'.pcbs k.running).syscall_retvalue ≡ k.last_pid
  pub args : (k'.pcbs k.running).syscall_args ≡ (k.pcbs k.running).syscall_args
  pub pid : (k'.pcbs (new_pcb k i)).pid ≡ k.last_pid
  pub next_pid : k'.last_pid ≡ int_add k.last_pid (pos 1)
  pub status : (k'.pcbs (new_pcb k i)).status ≡ ProcessStatus.ready
  pub parent : (k'.pcbs (new_pcb k i)).parent ≡ k.running
  pub no_children : k'.heads (children (new_pcb k i)) ≡ list_init
  pub no_descriptors : k'.heads (descriptors (new_pcb k i)) ≡ list_init
  pub left_over : k'.heads (sem_descriptors (new_pcb k i)) ≡ k.heads (sem_descriptors (new_pcb k i))
  pub pcbs : IsValid (k'.pools pcb_pool) is
  pub ptrs : IsValid (k'.pools pcb_ptr_pool) js

module _ (k : Kernel) (i j : ℕ) where
  -- The states of `adopt`: the process is set up and has a pointer.
  abbrev parented : Kernel
  parented =
      let p = new_pcb k i in
      let b = born k i in
      let pcbs = update b.pcbs p (record (b.pcbs p) { status = ProcessStatus.ready }) in
      record b { pcbs = update pcbs p (record (pcbs p) { parent = k.running }) }

  abbrev pointed : Kernel
  pointed = pcb_pointed parented j (new_pcb k i)

-- Then the two are put in their lists.
module _ (k : Kernel) (i j : ℕ) (l : Links) (h : ListHead) (l' : Links) (h' : ListHead) where
  abbrev listed : Kernel
  listed = relinked (relinked (pointed k i j) (children k.running) l h) ready_list l' h'

  abbrev adopted : Kernel
  adopted = returned listed k.running k.last_pid

  adopt-eq :
      (js : List ℕ)
      → k.running ≢ 0
      → new_pcb k i ≢ 0
      → new_pcb_ptr k j ≢ 0
      → IsValid (k.pools pcb_ptr_pool) (j ∷ js)
      → insert_back (children k.running) (new_pcb_ptr k j) (pointed k i j)
        ≡ some (new_pcb_ptr k j, relinked (pointed k i j) (children k.running) l h)
      → insert_back ready_list (new_pcb k i) (relinked (pointed k i j) (children k.running) l h)
        ≡ some (new_pcb k i, listed)
      → adopt (new_pcb k i) (born k i) ≡ some (tt, adopted)
  unfolding adopt
  adopt-eq js nr np nq v e e' = simp (==-ne (new_pcb k i) 0 np) (
      rw (pcb_ptr_alloc-first (parented k i j) j (new_pcb k i) js v nq) (
        simp (==-ne (new_pcb_ptr k j) 0 nq) (
          rw (e, e')
            (simp (==-ne (new_pcb k i) 0 np, ==-ne k.running 0 nr, ==-self (new_pcb k i))))))

module _ (k : Kernel) (i j : ℕ) (is js rs cs : List ℕ) (c : CanFork k i j is js rs cs) where
  abbrev p : ℕ
  p = new_pcb k i

  abbrev q : ℕ
  q = new_pcb_ptr k j

  abbrev r : ℕ
  r = k.running

  abbrev start : Kernel
  start = pointed k i j

  links-start : SameOutside (q ∷ p ∷ []) k.links start.links
  links-start a o = ground (arith, o)

  fresh-start : IsFree start.links p
  fresh-start = record { ne_null = c.pcb_ne; unlinked = ground (arith, c.ptr_out.1) }

  ptr-start : IsFree start.links q
  ptr-start = record { ne_null = c.ptr_ne; unlinked = rw (==-self q) }

  children-start : ListIs start (children r) cs
  children-start = rw (==-ne r p (λ e. c.pcb_out.0 (sym e))) (
      IsList-frame (q ∷ p ∷ []) cs c.offspring links-start (
        Disjoint-sym (q ∷ p ∷ []) cs (
          Disjoint-cons q (p ∷ []) cs c.ptr_out.3
            (Disjoint-cons p [] cs c.pcb_out.2 (Disjoint-nil_left cs)))))

  module _ (l : Links) (same : SameOutside (q ∷ cs) start.links l) where
    ready-listed : IsList l (k.heads ready_list) rs
    ready-listed =
        IsList-frame (q ∷ cs) rs
          (IsList-frame (q ∷ p ∷ []) rs c.scheduled.ready links-start (
            Disjoint-sym (q ∷ p ∷ []) rs (
              Disjoint-cons q (p ∷ []) rs c.ptr_out.2
                (Disjoint-cons p [] rs c.pcb_out.1 (Disjoint-nil_left rs)))))
          same (Disjoint-cons_right q rs cs c.ptr_out.2 c.apart)

    fresh-listed : IsFree l p
    fresh-listed = record {
      ne_null = c.pcb_ne;
      unlinked =
          same p (not-has-cons p q cs (λ e. c.ptr_out.1 (sym e)) c.pcb_out.2)
          ∙ fresh-start.unlinked;
    }

    children-apart : Disjoint (cs ++ q ∷ []) (p ∷ rs)
    children-apart =
        Disjoint-append cs (q ∷ []) (p ∷ rs)
          (Disjoint-cons_right p cs rs c.pcb_out.2 (Disjoint-sym rs cs c.apart))
          (Disjoint-cons q [] (p ∷ rs) (not-has-cons q p rs c.ptr_out.1 c.ptr_out.2)
            (Disjoint-nil_left (p ∷ rs)))

    run-listed : (l' : Links) → SameOutside (p ∷ rs) l l' → IsFree l' r
    run-listed l' same' = record {
      ne_null = c.scheduled.free.ne_null;
      unlinked =
          same' r (not-has-cons r p rs (λ e. c.pcb_out.0 (sym e)) c.scheduled.out)
          ∙ same r (not-has-cons r q cs (λ e. c.ptr_out.0 (sym e)) c.run_out)
          ∙ links-start r (
              not-has-cons r q (p ∷ []) (λ e. c.ptr_out.0 (sym e))
                (not-has-cons r p [] (λ e. c.pcb_out.0 (sym e)) refl))
          ∙ c.scheduled.free.unlinked;
    }

  pub adopt-Forked :
      (k' : Kernel) × (adopt p (born k i) ≡ some (tt, k')) × Forked k k' i j is js rs cs
  adopt-Forked =
      let nr = c.scheduled.free.ne_null in
      let (l, h, e, cl, same) =
        insert_back-IsList start (children r) q cs nr children-start ptr-start c.ptr_out.3
          c.room.1 in
      let (l', h', e', rl, same') =
        insert_back-IsList (relinked start (children r) l h) ready_list p rs (omega arith)
          (ready-listed l same) (fresh-listed l same) c.pcb_out.1 c.room.0 in
      (
        adopted k i j l h l' h',
        adopt-eq k i j l h l' h' js nr c.pcb_ne c.ptr_ne c.ptrs e e',
        record {
          scheduled = record {
            ready = rl;
            free = run-listed l same l' same';
            out =
                not-has-append r rs (p ∷ []) c.scheduled.out
                  (not-has-cons r p [] (λ e. c.pcb_out.0 (sym e)) refl);
          };
          offspring =
              rw (==-self r)
                (IsList-frame (p ∷ rs) (cs ++ q ∷ []) cl same' (children-apart l same));
          child = rw (==-self q);
          running = refl;
          value = rw (==-self r);
          args = simp (==-self r, ==-ne r p (λ e. c.pcb_out.0 (sym e)));
          pid = simp (==-ne p r c.pcb_out.0, ==-self p);
          next_pid = refl;
          status = simp (==-ne p r c.pcb_out.0, ==-self p);
          parent = simp (==-ne p r c.pcb_out.0, ==-self p);
          no_children = simp (==-ne p r c.pcb_out.0, ==-self p);
          no_descriptors = simp (==-self p);
          left_over = refl;
          pcbs = taken-IsValid (k.pools pcb_pool) i is c.pcbs;
          ptrs = taken-IsValid (k.pools pcb_ptr_pool) j js c.ptrs;
        },
      )
