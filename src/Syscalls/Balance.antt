-- ===== src/Syscalls/Balance.antt =====
-- The count of a semaphore and the length of its queue (src/disastrOS_semwait.c and
-- disastrOS_sempost.c).
use disastr_os_semaphores.Common.{
  ℕ, zero, suc, ℤ, pos, negsuc, neg_part, ◌-◌, ◌^◌, ◌<◌, ◌≡◌, refl, sym, ◌∙◌, ap, some, List, [],
  ◌∷◌, ◌++◌, arith, length, length-append, ◌⊎◌, inl, inr, ==-self, int_sub_neg, int_add_neg, ◌≤ℤ◌,
  ◌<ℤ◌,
}
use disastr_os_semaphores.Kernel.{Kernel, waiting_descriptors}
use disastr_os_semaphores.Kernel.Lists.{ListIs}
use disastr_os_semaphores.Objects.Sem.Laws.{HasOpen}
use disastr_os_semaphores.Syscalls.SemWait.{internal_sem_wait}
use disastr_os_semaphores.Syscalls.SemWait.Laws.{counted, returned, internal_sem_wait-available}
use disastr_os_semaphores.Syscalls.SemWait.Blocks.{CanWait, new_ptr, internal_sem_wait-Blocked}
use disastr_os_semaphores.Syscalls.SemPost.{internal_sem_post}
use disastr_os_semaphores.Syscalls.SemPost.Laws.{internal_sem_post-available}
use disastr_os_semaphores.Syscalls.SemPost.Wakes.{CanWake, internal_sem_post-Woken}

-- The queue of `sem` is `ws`, as long as the count is below 0.
pub record IsBalanced (k : Kernel) (sem : ℕ) (ws : List ℕ) : Type 0 where
  pub queue : ListIs k (waiting_descriptors sem) ws
  pub count : neg_part (k.semaphores sem).count ≡ length ws

-- `internal_semWait` on an open semaphore, whose count can go down by one as an `int`, keeps the
-- balance. With a positive count the queue stays as it is. Otherwise the new entry stands at its
-- end, provided that a block is free for the entry, in none of the lists, that the running process
-- is not linked and not in the waiting list, and that the queue and the waiting list are in order,
-- apart, and can get longer by one.
pub internal_sem_wait-IsBalanced :
    (k : Kernel) (ds : List ℕ) (d sem i : ℕ) (is ws ps : List ℕ)
    → HasOpen k ds d sem
    → ((k.semaphores sem).count ≤ℤ pos 0 → CanWait k sem i is ws ps)
    → IsBalanced k sem ws
    → negsuc (2 ^ 31 - 1) <ℤ (k.semaphores sem).count
    → (k.semaphores sem).count <ℤ pos (2 ^ 31)
    → (k' : Kernel) × (internal_sem_wait k ≡ some (tt, k'))
      × (((pos 0 <ℤ (k.semaphores sem).count) × IsBalanced k' sem ws)
          ⊎ (((k.semaphores sem).count ≤ℤ pos 0) × IsBalanced k' sem (ws ++ new_ptr k i ∷ [])))
internal_sem_wait-IsBalanced k ds d sem i is ws ps o w bal low high =
    go (k.semaphores sem).count refl
  where
    blocked :
        (k.semaphores sem).count ≤ℤ pos 0
        → (k' : Kernel) × (internal_sem_wait k ≡ some (tt, k'))
          × (((pos 0 <ℤ (k.semaphores sem).count) × IsBalanced k' sem ws)
              ⊎ (((k.semaphores sem).count ≤ℤ pos 0) × IsBalanced k' sem (ws ++ new_ptr k i ∷ [])))
    blocked used =
        let (k', e, b) = internal_sem_wait-Blocked k ds d sem i is ws ps o (w used) used low in
        (
          k',
          e,
          inr (
            used,
            record {
              queue = b.queue;
              count =
                  ap neg_part (b.count ∙ (int_sub_neg (k.semaphores sem).count used low).0)
                  ∙ omega (arith, bal.count, length-append {0} ws (new_ptr k i ∷ []));
            },
          ),
        )

    go :
        (c : ℤ)
        → (k.semaphores sem).count ≡ c
        → (k' : Kernel) × (internal_sem_wait k ≡ some (tt, k'))
          × (((pos 0 <ℤ (k.semaphores sem).count) × IsBalanced k' sem ws)
              ⊎ (((k.semaphores sem).count ≤ℤ pos 0) × IsBalanced k' sem (ws ++ new_ptr k i ∷ [])))
    go (pos zero) e = blocked (rw e (omega arith))
    go (negsuc n) e = blocked (rw e (omega arith))
    go (pos (suc n)) e = (
      returned (counted k sem (pos n)) k.running (pos 0),
      internal_sem_wait-available k ds d sem o n e (let h = rw e at high in omega arith),
      inl (
        rw e (omega arith),
        record { queue = bal.queue; count = rw (==-self sem) (ap neg_part (sym e) ∙ bal.count) },
      ),
    )

-- `internal_semPost` keeps the balance of a semaphore on which nobody waits: its queue stays empty,
-- and its count, below the largest `int`, does not become negative.
pub internal_sem_post-IsBalanced_empty :
    (k : Kernel) (ds : List ℕ) (d sem : ℕ)
    → HasOpen k ds d sem
    → IsBalanced k sem []
    → (k.semaphores sem).count <ℤ pos (2 ^ 31 - 1)
    → (k' : Kernel) × (internal_sem_post k ≡ some (tt, k')) × IsBalanced k' sem []
internal_sem_post-IsBalanced_empty k ds d sem o bal high = go (k.semaphores sem).count refl
  where
    go :
        (c : ℤ)
        → (k.semaphores sem).count ≡ c
        → (k' : Kernel) × (internal_sem_post k ≡ some (tt, k')) × IsBalanced k' sem []
    go (pos n) e = (
      returned (counted k sem (pos (suc n))) k.running (pos 0),
      internal_sem_post-available k ds d sem o n e (let h = rw e at high in omega arith),
      record { queue = bal.queue; count = rw (==-self sem) },
    )
    go (negsuc n) e = absurd (let h = rw e at bal.count in omega arith)

-- `internal_semPost` keeps the balance of a semaphore on which processes wait: the first entry leaves
-- the queue, and the rest is as long as the new count is below 0.
pub internal_sem_post-IsBalanced :
    (k : Kernel) (ds : List ℕ) (d sem b : ℕ) (bs ps qs rs : List ℕ)
    → HasOpen k ds d sem
    → CanWake k sem b bs ps qs rs
    → IsBalanced k sem (b ∷ bs)
    → (k' : Kernel) × (internal_sem_post k ≡ some (tt, k')) × IsBalanced k' sem bs
internal_sem_post-IsBalanced k ds d sem b bs ps qs rs o w bal = go (k.semaphores sem).count refl
  where
    go :
        (c : ℤ)
        → (k.semaphores sem).count ≡ c
        → (k' : Kernel) × (internal_sem_post k ≡ some (tt, k')) × IsBalanced k' sem bs
    go (pos n) e = absurd (let h = rw e at bal.count in omega arith)
    go (negsuc n) e =
        let h = rw e at bal.count in
        let small : n < 2 ^ 31 = omega (arith, bal.queue.small) in
        let (k', eq, b) = internal_sem_post-Woken k ds d sem b bs ps qs rs n o w e small in
        (
          k',
          eq,
          record {
            queue = b.queue;
            count = ap neg_part b.count ∙ rw e ((int_add_neg n small).0 ∙ omega arith);
          },
        )
