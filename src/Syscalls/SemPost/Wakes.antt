-- ===== src/Syscalls/SemPost/Wakes.antt =====
-- `internal_semPost` (src/disastrOS_sempost.c) on a semaphore that processes wait on.
use disastr_os_semaphores.Common.{
  ℕ, suc, ℤ, pos, negsuc, ◌^◌, ◌<◌, ◌≡◌, ◌≢◌, refl, ◌∙◌, false, some, List, [], ◌∷◌, ◌++◌, arith,
  length, has, ==-ne, ==-self, int_add, int_add_neg, ltb_ℤ,
}
use disastr_os_semaphores.LinkedList.{Links, ListHead}
use disastr_os_semaphores.LinkedList.Seg.{IsList-frame, Disjoint}
use disastr_os_semaphores.LinkedList.Apart.{
  has_tail, not-has-append, Disjoint-sym, Disjoint-cons_right, Disjoint-tail, Disjoint-without,
  Disjoint-member,
}
use disastr_os_semaphores.LinkedList.Detach.{not-has-left, not-has-right}
use disastr_os_semaphores.Kernel.{
  Kernel, update, ready_list, waiting_list, waiting_descriptors, ProcessStatus, insert_back,
  detach_first, detach_at,
}
use disastr_os_semaphores.Kernel.Lists.{
  ListIs, relinked, insert_back-IsList, detach_first-IsList, detach_at-IsList,
}
use disastr_os_semaphores.Objects.Sem.Laws.{HasOpen}
use disastr_os_semaphores.Syscalls.SemWait.Laws.{counted, returned}
use disastr_os_semaphores.Syscalls.SemPost.{internal_sem_post, wake_first}
use disastr_os_semaphores.Syscalls.SemPost.Laws.{after, internal_sem_post-open}

-- The process that queue entry `b` stands for.
abbrev pub waiter : Kernel → (b : ℕ) → ℕ
waiter k b = (k.sem_descs (k.sem_desc_ptrs b).descriptor).pcb

-- The queue of the semaphore is `b ∷ bs`, and the process of `b` is in the waiting list; the three
-- lists share no item.
pub record CanWake (k : Kernel) (sem b : ℕ) (bs ps qs rs : List ℕ) : Type 0 where
  pub queue : ListIs k (waiting_descriptors sem) (b ∷ bs)
  pub waiting : ListIs k waiting_list (ps ++ waiter k b ∷ qs)
  pub ready : ListIs k ready_list rs
  pub desc : (k.sem_desc_ptrs b).descriptor ≢ 0
  pub process : waiter k b ≢ 0
  pub queue_waiting : Disjoint (ps ++ waiter k b ∷ qs) (b ∷ bs)
  pub queue_ready : Disjoint rs (b ∷ bs)
  pub waiting_ready : Disjoint rs (ps ++ waiter k b ∷ qs)
  pub process_out : has (waiter k b) rs ≡ false
  pub room : suc (length rs) < 2 ^ 31

-- What waking leaves: the count is higher, the first entry has left the queue, its process has moved
-- from the waiting list to the end of the ready list and is ready, and the call returns 0.
pub record Woken (k k' : Kernel) (sem b : ℕ) (bs ps qs rs : List ℕ) : Type 0 where
  pub count : (k'.semaphores sem).count ≡ int_add (k.semaphores sem).count (pos 1)
  pub queue : ListIs k' (waiting_descriptors sem) bs
  pub waiting : ListIs k' waiting_list (ps ++ qs)
  pub ready : ListIs k' ready_list (rs ++ waiter k b ∷ [])
  pub status : (k'.pcbs (waiter k b)).status ≡ ProcessStatus.ready
  pub value : (k'.pcbs k.running).syscall_retvalue ≡ pos 0
  pub running : k'.running ≡ k.running

module _ (k : Kernel) (sem b : ℕ) (c : ℤ) (l : Links) (h : ListHead) (l2 : Links) (h2 : ListHead)
    (l3 : Links) (h3 : ListHead) where
  abbrev unqueued : Kernel
  unqueued = relinked (counted k sem c) (waiting_descriptors sem) l h

  abbrev made_ready : Kernel
  made_ready = record (relinked unqueued waiting_list l2 h2) {
    pcbs =
        update k.pcbs (waiter k b) (record (k.pcbs (waiter k b)) { status = ProcessStatus.ready });
  }

  abbrev woken : Kernel
  woken = returned (relinked made_ready ready_list l3 h3) k.running (pos 0)

  wake_first-eq :
      b ≢ 0
      → (k.sem_desc_ptrs b).descriptor ≢ 0
      → waiter k b ≢ 0
      → k.running ≢ 0
      → detach_first (waiting_descriptors sem) (counted k sem c) ≡ some (b, unqueued)
      → detach_at waiting_list (waiter k b) unqueued
        ≡ some (waiter k b, relinked unqueued waiting_list l2 h2)
      → insert_back ready_list (waiter k b) made_ready
        ≡ some (waiter k b, relinked made_ready ready_list l3 h3)
      → wake_first sem (counted k sem c) ≡ some (tt, woken)
  unfolding wake_first
  wake_first-eq nb nd nq nr e e2 e3 = rw e (
      simp (==-ne b 0 nb, ==-ne (k.sem_desc_ptrs b).descriptor 0 nd)
        (rw e2 (simp (==-ne (waiter k b) 0 nq) (rw e3 (simp (==-ne k.running 0 nr))))))

module _ (k : Kernel) (sem b : ℕ) (bs ps qs rs : List ℕ) (w : CanWake k sem b bs ps qs rs) where
  -- The writes to the waiting list and the ready list leave the rest of the queue alone.
  queue_stays : Disjoint bs (ps ++ waiter k b ∷ qs) × Disjoint bs (waiter k b ∷ rs)
  queue_stays = (
    Disjoint-tail b bs (ps ++ waiter k b ∷ qs)
        (Disjoint-sym (ps ++ waiter k b ∷ qs) (b ∷ bs) w.queue_waiting),
    Disjoint-cons_right (waiter k b) bs rs
        (has_tail (waiter k b) b bs (Disjoint-member ps (waiter k b) qs (b ∷ bs) w.queue_waiting))
        (Disjoint-tail b bs rs (Disjoint-sym rs (b ∷ bs) w.queue_ready)),
  )

  waiting_stays : Disjoint (ps ++ qs) (waiter k b ∷ rs)
  waiting_stays =
      Disjoint-cons_right (waiter k b) (ps ++ qs) rs
        (not-has-append (waiter k b) ps qs
          (not-has-left k.links (k.heads waiting_list) (waiter k b) ps qs w.waiting)
          (not-has-right k.links (k.heads waiting_list) (waiter k b) ps qs w.waiting))
        (Disjoint-without ps (waiter k b) qs rs
          (Disjoint-sym rs (ps ++ waiter k b ∷ qs) w.waiting_ready))

-- `internal_semPost` on an open semaphore with a negative count, on which a process waits, raises the
-- count, takes the first entry out of the queue, moves its process from the waiting list to the end
-- of the ready list with the status of a ready process, returns 0, and leaves the running process.
pub internal_sem_post-Woken :
    (k : Kernel) (ds : List ℕ) (d sem b : ℕ) (bs ps qs rs : List ℕ) (n : ℕ)
    → HasOpen k ds d sem
    → CanWake k sem b bs ps qs rs
    → (k.semaphores sem).count ≡ negsuc n
    → n < 2 ^ 31
    → (k' : Kernel) × (internal_sem_post k ≡ some (tt, k')) × Woken k k' sem b bs ps qs rs
internal_sem_post-Woken k ds d sem b bs ps qs rs n o w neg small =
    let c = after k ds d sem o in
    let q = waiter k b in
    let (l, h, e, is, free, same) =
      detach_first-IsList (counted k sem c) (waiting_descriptors sem) b bs o.sem_ne w.queue in
    let (l2, h2, e2, is2, free2, same2) =
      detach_at-IsList (unqueued k sem b c l h l h l h) waiting_list q ps qs
        (IsList-frame (b ∷ bs) (ps ++ q ∷ qs) w.waiting same w.queue_waiting) in
    let (l3, h3, e3, is3, same3) =
      insert_back-IsList (made_ready k sem b c l h l2 h2 l h) ready_list q rs (omega arith)
        (IsList-frame (ps ++ q ∷ qs) rs (IsList-frame (b ∷ bs) rs w.ready same w.queue_ready) same2
          w.waiting_ready)
        free2 w.process_out w.room in
    let queue_apart = queue_stays k sem b bs ps qs rs w in
    let waiting_apart = waiting_stays k sem b bs ps qs rs w in
    let some_wait : ltb_ℤ (pos 0) c ≡ false = rw neg (int_add_neg n small).1 in
    (
      woken k sem b c l h l2 h2 l3 h3,
      internal_sem_post-open k ds d sem o
          ∙ rw some_wait (
              wake_first-eq k sem b c l h l2 h2 l3 h3 w.queue.seg.0 w.desc w.process o.running e e2
                e3),
      record {
        count = rw (==-self sem);
        queue = rw (==-self sem) (
            IsList-frame (q ∷ rs) bs (IsList-frame (ps ++ q ∷ qs) bs is same2 (queue_apart.0)) same3
              queue_apart.1);
        waiting = IsList-frame (q ∷ rs) (ps ++ qs) is2 same3 waiting_apart;
        ready = is3;
        status = ground arith;
        value = rw (==-self k.running);
        running = refl;
      },
    )
