-- ===== src/Syscalls/SemWait/Blocks.antt =====
-- `internal_semWait` (src/disastrOS_semwait.c) on a semaphore whose count is used up.
use disastr_os_semaphores.Common.{
  ℕ, suc, ℤ, pos, negsuc, ◌-◌, ◌^◌, ◌<◌, ◌≡◌, ◌≢◌, refl, sym, ◌∙◌, false, some, List, [], ◌∷◌, ◌++◌,
  arith, length, has, ==-ne, ==-self, int_sub, int_sub_neg, ◌≤ℤ◌, ◌<ℤ◌,
}
use disastr_os_semaphores.LinkedList.{Links, ListHead, item_of}
use disastr_os_semaphores.LinkedList.Seg.{IsList, IsList-frame, SameOutside, Disjoint}
use disastr_os_semaphores.LinkedList.Insert.{IsFree}
use disastr_os_semaphores.LinkedList.Writes.{out_left, out_right}
use disastr_os_semaphores.LinkedList.Apart.{
  has_head, has_tail, not-has-cons, Disjoint-sym, Disjoint-cons, Disjoint-cons_right,
  Disjoint-append, Disjoint-nil, Disjoint-nil_left,
}
use disastr_os_semaphores.PoolAllocator.Free.{IsValid}
use disastr_os_semaphores.Kernel.{
  Kernel, update, ready_list, waiting_list, waiting_descriptors, ProcessStatus, insert_back,
  sem_descriptor_ptr_pool,
}
use disastr_os_semaphores.Kernel.Lists.{ListIs, relinked, insert_back-IsList}
use disastr_os_semaphores.Kernel.Pools.{block_at}
use disastr_os_semaphores.Objects.Sem.Laws.{pointed, sem_descriptor_ptr_alloc-first, HasOpen}
use disastr_os_semaphores.Syscalls.SemWait.{internal_sem_wait, wait_on}
use disastr_os_semaphores.Syscalls.SemWait.Laws.{counted, returned, after, internal_sem_wait-open}

-- The address that the pool hands out next.
abbrev pub new_ptr : Kernel → ℕ → ℕ
new_ptr k i = block_at (k.pools sem_descriptor_ptr_pool) i

-- The queue of the semaphore `sem` is `ws`, the waiting processes are `ps`, the running process is
-- in no list, and there is a free pointer block, `i`.
pub record CanWait (k : Kernel) (sem i : ℕ) (is ws ps : List ℕ) : Type 0 where
  pub pool : IsValid (k.pools sem_descriptor_ptr_pool) (i ∷ is)
  pub ptr_ne : new_ptr k i ≢ 0
  pub queue : ListIs k (waiting_descriptors sem) ws
  pub waiting : ListIs k waiting_list ps
  pub free : IsFree k.links k.running
  pub ptr_out : has (new_ptr k i) (k.running ∷ (ws ++ ps)) ≡ false
  pub run_out : has k.running (ws ++ ps) ≡ false
  pub apart : Disjoint ws ps
  pub room : (suc (length ws) < 2 ^ 31) × (suc (length ps) < 2 ^ 31)

module _ (k : Kernel) (d sem i : ℕ) (c : ℤ) (l : Links) (h : ListHead) (l' : Links)
    (h' : ListHead) where
  -- The states of `wait_on`: a pointer is made, it is queued, and the process is put away.
  abbrev queued : Kernel
  queued =
      let k₃ = relinked (pointed (counted k sem c) i d) (waiting_descriptors sem) l h in
      record k₃ {
        pcbs =
            update k.pcbs k.running (record (k.pcbs k.running) { status = ProcessStatus.waiting });
      }

  abbrev put_away : Kernel
  put_away = relinked queued waiting_list l' h'

  wait_on-eq :
      (is : List ℕ)
      → IsValid (k.pools sem_descriptor_ptr_pool) (i ∷ is)
      → new_ptr k i ≢ 0
      → k.running ≢ 0
      → insert_back (waiting_descriptors sem) (new_ptr k i) (pointed (counted k sem c) i d)
        ≡ some (new_ptr k i, relinked (pointed (counted k sem c) i d) (waiting_descriptors sem) l h)
      → insert_back waiting_list k.running queued ≡ some (k.running, put_away)
      → wait_on sem d (counted k sem c) ≡ some (tt, put_away)
  unfolding wait_on
  wait_on-eq is v np nr e e' =
      rw (sem_descriptor_ptr_alloc-first (counted k sem c) i d is v np, e)
        (simp (==-ne k.running 0 nr) (rw e'))

-- What waiting leaves: the count is lower, the process stands last in the queue of the semaphore
-- and in the waiting list, its status is waiting and the call's value 0; yet it is still the running
-- process. Only the items of the two lists and the new pointer are written.
pub record Blocked (k k' : Kernel) (d sem i : ℕ) (ws ps : List ℕ) : Type 0 where
  pub count : (k'.semaphores sem).count ≡ int_sub (k.semaphores sem).count (pos 1)
  pub queue : ListIs k' (waiting_descriptors sem) (ws ++ new_ptr k i ∷ [])
  pub entry : (k'.sem_desc_ptrs (new_ptr k i)).descriptor ≡ d
  pub waiting : ListIs k' waiting_list (ps ++ k.running ∷ [])
  pub status : (k'.pcbs k.running).status ≡ ProcessStatus.waiting
  pub value : (k'.pcbs k.running).syscall_retvalue ≡ pos 0
  pub running : k'.running ≡ k.running
  pub links : SameOutside (new_ptr k i ∷ k.running ∷ (ws ++ ps)) k.links k'.links
  pub ready : k'.heads ready_list ≡ k.heads ready_list

module _ (k : Kernel) (d sem i : ℕ) (is ws ps : List ℕ) (w : CanWait k sem i is ws ps) where
  ptr_ne_running : new_ptr k i ≢ k.running
  ptr_ne_running = has_head (new_ptr k i) k.running (ws ++ ps) w.ptr_out

  ptr_out_both : has (new_ptr k i) (ws ++ ps) ≡ false
  ptr_out_both = has_tail (new_ptr k i) k.running (ws ++ ps) w.ptr_out

  ptr_out_queue : has (new_ptr k i) ws ≡ false
  ptr_out_queue = out_left (new_ptr k i) ws ps ptr_out_both

  ptr_out_waiting : has (new_ptr k i) ps ≡ false
  ptr_out_waiting = out_right (new_ptr k i) ws ps ptr_out_both

  run_out_queue : has k.running (new_ptr k i ∷ ws) ≡ false
  run_out_queue =
      not-has-cons k.running (new_ptr k i) ws (λ e. ptr_ne_running (sym e))
        (out_left k.running ws ps w.run_out)

  run_out_waiting : has k.running ps ≡ false
  run_out_waiting = out_right k.running ws ps w.run_out

  waiting_apart : Disjoint ps (new_ptr k i ∷ ws)
  waiting_apart =
      Disjoint-cons_right (new_ptr k i) ps ws ptr_out_waiting (Disjoint-sym ws ps w.apart)

  queue_apart : Disjoint (ws ++ new_ptr k i ∷ []) (k.running ∷ ps)
  queue_apart =
      Disjoint-append ws (new_ptr k i ∷ []) (k.running ∷ ps)
        (Disjoint-cons_right k.running ws ps (out_left k.running ws ps w.run_out) w.apart)
        (Disjoint-cons (new_ptr k i) [] (k.running ∷ ps)
          (not-has-cons (new_ptr k i) k.running ps ptr_ne_running ptr_out_waiting)
          (Disjoint-nil_left (k.running ∷ ps)))

  -- A new item at the pointer writes no other.
  same_pointed : SameOutside (new_ptr k i ∷ []) k.links (update k.links (new_ptr k i) (item_of 0 0))
  same_pointed a o = rw (==-ne a (new_ptr k i) (has_head a (new_ptr k i) [] o))

  queue_pointed :
      IsList (update k.links (new_ptr k i) (item_of 0 0)) (k.heads (waiting_descriptors sem)) ws
  queue_pointed =
      IsList-frame (new_ptr k i ∷ []) ws w.queue same_pointed
        (Disjoint-cons_right (new_ptr k i) ws [] ptr_out_queue (Disjoint-nil ws))

  ptr-IsFree : IsFree (update k.links (new_ptr k i) (item_of 0 0)) (new_ptr k i)
  ptr-IsFree = record { ne_null = w.ptr_ne; unlinked = rw (==-self (new_ptr k i)) }

  outside_queue :
      (l : Links)
      → SameOutside (new_ptr k i ∷ ws) (update k.links (new_ptr k i) (item_of 0 0)) l
      → SameOutside (new_ptr k i ∷ ws) k.links l
  outside_queue l same a j =
      same a j
      ∙ same_pointed a (not-has-cons a (new_ptr k i) [] (has_head a (new_ptr k i) ws j) refl)

  outside_both :
      (l l' : Links)
      → SameOutside (new_ptr k i ∷ ws) k.links l
      → SameOutside (k.running ∷ ps) l l'
      → SameOutside (new_ptr k i ∷ k.running ∷ (ws ++ ps)) k.links l'
  outside_both l l' s t a j =
      let j₁ = has_tail a (new_ptr k i) (k.running ∷ (ws ++ ps)) j in
      let j₂ = has_tail a k.running (ws ++ ps) j₁ in
      t a (not-has-cons a k.running ps (has_head a k.running (ws ++ ps) j₁) (out_right a ws ps j₂))
      ∙ s a (
          not-has-cons a (new_ptr k i) ws (has_head a (new_ptr k i) (k.running ∷ (ws ++ ps)) j)
            (out_left a ws ps j₂))

module _ (k : Kernel) (ds : List ℕ) (d sem i : ℕ) (is ws ps : List ℕ) where
  -- `internal_semWait` on an open semaphore whose count is not positive, with a pointer block free and
  -- the running process in no list, lowers the count, puts the process at the end of the semaphore's
  -- queue and of the waiting list with the status of a waiting process, and returns 0; but it stays
  -- the running process.
  pub internal_sem_wait-Blocked :
      HasOpen k ds d sem
      → CanWait k sem i is ws ps
      → (k.semaphores sem).count ≤ℤ pos 0
      → negsuc (2 ^ 31 - 1) <ℤ (k.semaphores sem).count
      → (k' : Kernel) × (internal_sem_wait k ≡ some (tt, k')) × Blocked k k' d sem i ws ps
  internal_sem_wait-Blocked o w used low =
      let c = after k ds d sem o in
      let (l, h, e, q, same) =
        insert_back-IsList (pointed (counted k sem c) i d) (waiting_descriptors sem) (new_ptr k i)
          ws o.sem_ne (queue_pointed k d sem i is ws ps w) (ptr-IsFree k d sem i is ws ps w)
          (ptr_out_queue k d sem i is ws ps w) w.room.0 in
      let (l', h', e', q', same') =
        insert_back-IsList (queued k d sem i c l h l h) waiting_list k.running ps (omega arith)
          (IsList-frame (new_ptr k i ∷ ws) ps w.waiting (outside_queue k d sem i is ws ps w l same)
            (waiting_apart k d sem i is ws ps w))
          (record {
            ne_null = o.running;
            unlinked =
                outside_queue k d sem i is ws ps w l same k.running
                  (run_out_queue k d sem i is ws ps w)
                ∙ w.free.unlinked;
          })
          (run_out_waiting k d sem i is ws ps w) w.room.1 in
      (
        returned (put_away k d sem i c l h l' h') k.running (pos 0),
        internal_sem_wait-open k ds d sem o
            ∙ rw (int_sub_neg (k.semaphores sem).count used low).1 (
                rw (wait_on-eq k d sem i c l h l' h' is w.pool w.ptr_ne o.running e e')
                  (simp (==-ne k.running 0 o.running))),
        record {
          count = rw (==-self sem);
          queue = rw (==-self sem) (
              IsList-frame (k.running ∷ ps) (ws ++ new_ptr k i ∷ []) q same'
                (queue_apart k d sem i is ws ps w));
          entry = rw (==-self (new_ptr k i));
          waiting = q';
          status = simp (==-self k.running);
          value = rw (==-self k.running);
          running = refl;
          links =
              outside_both k d sem i is ws ps w l l' (outside_queue k d sem i is ws ps w l same)
                same';
          ready = refl;
        },
      )
