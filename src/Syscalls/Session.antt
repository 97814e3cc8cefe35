-- ===== src/Syscalls/Session.antt =====
-- A process that makes a semaphore, waits on it and posts, by the calls of src/disastrOS.c.
use disastr_os_semaphores.Common.{
  ℕ, suc, ℤ, pos, ◌^◌, ◌<◌, ◌≤◌, ◌≡◌, ◌≢◌, refl, ◌∙◌, ap, true, false, some, List, [], ◌∷◌, ◌++◌,
  arith, length, length-append, has, ==-ne, ==-self, ◌==ℤ◌, to_int, to_int-id, IsInt, flag_set,
}
use disastr_os_semaphores.Kernel.{Kernel, sem_descriptors, dsos_create}
use disastr_os_semaphores.Kernel.Lists.{ListIs, first_such, first_such-last}
use disastr_os_semaphores.LinkedList.Seg.{ne_of_has}
use disastr_os_semaphores.Objects.Sem.Laws.{HasOpen}
use disastr_os_semaphores.Syscalls.SemOpen.Refuses.{arg}
use disastr_os_semaphores.Syscalls.SemOpen.Opens.{new_desc, next_fd}
use disastr_os_semaphores.Syscalls.SemOpen.Creates.{
  CanCreate, Created, new_sem, internal_sem_open-Created,
}
use disastr_os_semaphores.Syscalls.SemWait.Laws.{counted, returned, internal_sem_wait-available}
use disastr_os_semaphores.Syscalls.SemPost.Laws.{internal_sem_post-available}
use disastr_os_semaphores.Syscalls.Trap.{
  syscall_vector, syscall_numarg, disastr_os_open_semaphore, disastr_os_wait_semaphore,
  disastr_os_post_semaphore, one_arg, three_args,
}
use disastr_os_semaphores.Syscalls.Trap.Calls.{
  loaded, stored-args, stored-last_sem_fd, disastr_os_syscall-loaded,
}

-- The number `fd` of the running process is that of the descriptor `d`, which is on `sem`.
pub record HasFd (k : Kernel) (ds : List ℕ) (d sem : ℕ) (fd : ℤ) : Type 0 where
  pub running : k.running ≢ 0
  pub list : ListIs k (sem_descriptors k.running) ds
  pub few : length ds ≤ 1024
  pub first : first_such (λ p. (k.sem_descs p).fd ==ℤ fd) ds ≡ d
  pub desc : d ≢ 0
  pub semaphore : (k.sem_descs d).semaphore ≡ sem
  pub sem_ne : sem ≢ 0

-- A call with one argument, in a table entry that says so.
module _ (k : Kernel) (n : ℕ) (fd : ℤ) (one : syscall_numarg n ≡ 1) where
  one_loaded : arg (loaded k n (one_arg fd)) 0 ≡ to_int fd
  one_loaded =
      rw (==-self k.running)
        (ap to_int (stored-args k.pcbs k.running (one_arg fd) (syscall_numarg n) 0 0 ∙ rw one refl))

  loaded-HasOpen :
      (ds : List ℕ) (d sem : ℕ)
      → IsInt fd
      → HasFd k ds d sem fd
      → HasOpen (loaded k n (one_arg fd)) ds d sem
  loaded-HasOpen ds d sem int h = record {
    running = h.running;
    list = h.list;
    few = h.few;
    first =
        ap (λ x. first_such (λ p. (k.sem_descs p).fd ==ℤ x) ds) (one_loaded ∙ to_int-id fd int)
        ∙ h.first;
    desc = h.desc;
    semaphore = h.semaphore;
    sem_ne = h.sem_ne;
  }

-- The state after a wait or a post that only counts.
abbrev pub counts : Kernel → (num : ℕ) → (fd : ℤ) → (sem n : ℕ) → Kernel
counts k num fd sem n = returned (counted (loaded k num (one_arg fd)) sem (pos n)) k.running (pos 0)

counts-HasFd :
    (k : Kernel) (num : ℕ) (x : ℤ) (n : ℕ) (ds : List ℕ) (d sem : ℕ) (fd : ℤ)
    → HasFd k ds d sem fd
    → HasFd (counts k num x sem n) ds d sem fd
counts-HasFd k num x n ds d sem fd h = record {
  running = h.running;
  list = h.list;
  few = h.few;
  first = h.first;
  desc = h.desc;
  semaphore = h.semaphore;
  sem_ne = h.sem_ne;
}

-- A call of `disastrOS_waitSemaphore` on a positive count, through the trap.
pub disastr_os_wait_semaphore-counts :
    (k : Kernel) (ds : List ℕ) (d sem : ℕ) (fd : ℤ) (n : ℕ)
    → HasFd k ds d sem fd
    → IsInt fd
    → (k.semaphores sem).count ≡ pos (suc n)
    → n < 2 ^ 31
    → disastr_os_wait_semaphore fd k ≡ some (pos 0, counts k 13 fd sem n)
unfolding disastr_os_wait_semaphore syscall_vector syscall_numarg
disastr_os_wait_semaphore-counts k ds d sem fd n h int c small =
    disastr_os_syscall-loaded k 13 (one_arg fd) h.running (omega arith)
    ∙ rw
        (internal_sem_wait-available (loaded k 13 (one_arg fd)) ds d sem
          (loaded-HasOpen k 13 fd refl ds d sem int h) n c small)
        (rw (==-ne k.running 0 h.running, ==-self k.running) refl)

-- A call of `disastrOS_postSemaphore` on a count that is not negative, through the trap.
pub disastr_os_post_semaphore-counts :
    (k : Kernel) (ds : List ℕ) (d sem : ℕ) (fd : ℤ) (n : ℕ)
    → HasFd k ds d sem fd
    → IsInt fd
    → (k.semaphores sem).count ≡ pos n
    → suc n < 2 ^ 31
    → disastr_os_post_semaphore fd k ≡ some (pos 0, counts k 14 fd sem (suc n))
unfolding disastr_os_post_semaphore syscall_vector syscall_numarg
disastr_os_post_semaphore-counts k ds d sem fd n h int c small =
    disastr_os_syscall-loaded k 14 (one_arg fd) h.running (omega arith)
    ∙ rw
        (internal_sem_post-available (loaded k 14 (one_arg fd)) ds d sem
          (loaded-HasOpen k 14 fd refl ds d sem int h) n c small)
        (rw (==-ne k.running 0 h.running, ==-self k.running) refl)

==-self_ℤ : (z : ℤ) → (z ==ℤ z) ≡ true
==-self_ℤ z = ground arith

-- The arguments of an opening, as they are loaded.
module _ (k : Kernel) (id flags count : ℤ) where
  abbrev asked : Kernel
  asked = loaded k 11 (three_args id flags count)

  arg-asked : (i : ℕ) → i < 3 → arg asked i ≡ to_int (three_args id flags count i)
  unfolding syscall_numarg
  arg-asked i lt =
      rw (==-self k.running)
        (ap to_int (stored-args k.pcbs k.running (three_args id flags count) 3 0 i ∙ ground arith))

  asked_fd : next_fd asked ≡ next_fd k
  asked_fd =
      rw (next_fd, ==-self k.running)
        (stored-last_sem_fd k.pcbs k.running (three_args id flags count) (syscall_numarg 11) 0)

  module _ (m i j : ℕ) (ms is js ss ds : List ℕ) (c : CanCreate k id m i j ms is js ss ds) where
    asked-CanCreate : CanCreate asked id m i j ms is js ss ds
    asked-CanCreate = record {
      running = c.running;
      semaphores = c.semaphores;
      few = c.few;
      missing = c.missing;
      list = c.list;
      sems = c.sems;
      descs = c.descs;
      ptrs = c.ptrs;
      sem_ne = c.sem_ne;
      desc_ne = c.desc_ne;
      ptr_ne = c.ptr_ne;
      sem_out = c.sem_out;
      desc_out = c.desc_out;
      ptr_out = c.ptr_out;
      apart = c.apart;
      room = c.room;
    }

    -- A call of `disastrOS_openSemaphore` that makes the semaphore, through the trap.
    pub disastr_os_open_semaphore-Created :
        IsInt id
        → IsInt flags
        → IsInt count
        → flag_set flags dsos_create ≡ true
        → (k' : Kernel) × (disastr_os_open_semaphore id flags count k ≡ some (next_fd k, k'))
          × Created asked k' id count m i j ms is js ss ds
    unfolding disastr_os_open_semaphore syscall_vector
    disastr_os_open_semaphore-Created int_id int_flags int_count create =
        let (k', e, o) =
          internal_sem_open-Created asked id count m i j ms is js ss ds asked-CanCreate
            (arg-asked 0 (omega arith) ∙ to_int-id id int_id)
            (rw (arg-asked 1 (omega arith), to_int-id flags int_flags) create)
            (arg-asked 2 (omega arith) ∙ to_int-id count int_count) in
        (
          k',
          disastr_os_syscall-loaded k 11 (three_args id flags count) c.running (omega arith)
              ∙ rw e (rw (==-ne k.running 0 c.running, o.value, asked_fd) refl),
          o,
        )

    -- The number that was returned is that of the new descriptor, if no descriptor had it before.
    opened-HasFd :
        (k' : Kernel)
        → Created asked k' id count m i j ms is js ss ds
        → ((x : ℕ) → has x ds ≡ true → ((k.sem_descs x).fd ==ℤ next_fd k) ≡ false)
        → length ds < 1024
        → HasFd k' (ds ++ new_desc k i ∷ []) (new_desc k i) (new_sem k m) (next_fd k)
    opened-HasFd k' o fresh few =
        let d = new_desc k i in
        record {
          running = rw o.running c.running;
          list = rw o.running o.list;
          few = omega (arith, length-append {0} ds (d ∷ []), few);
          first =
              first_such-last (λ p. (k'.sem_descs p).fd ==ℤ next_fd k) ds d
                (λ y here. rw (o.other_descs y (ne_of_has y d ds here c.desc_out.2)) (fresh y here))
                (rw (o.desc, asked_fd) (==-self_ℤ (next_fd k)));
          desc = c.desc_ne;
          semaphore = rw o.desc refl;
          sem_ne = c.sem_ne;
        }

-- A process that makes a semaphore with a positive count, with `DSOS_CREATE` and a number that no
-- semaphore has, waits on it and posts: the opening returns the next descriptor number, with which
-- the wait and the post return 0; the wait lowers the count by one and the post raises it again. There
-- is a free block in each of the three pools, and no descriptor of the process, which has fewer than
-- 1024, has the next number; the numbers fit an `int`, and the lists are in order and apart.
pub open_wait_post :
    (k : Kernel) (id flags : ℤ) (n : ℕ) (m i j : ℕ) (ms is js ss ds : List ℕ)
    → CanCreate k id m i j ms is js ss ds
    → IsInt id
    → IsInt flags
    → IsInt (next_fd k)
    → suc n < 2 ^ 31
    → flag_set flags dsos_create ≡ true
    → ((x : ℕ) → has x ds ≡ true → ((k.sem_descs x).fd ==ℤ next_fd k) ≡ false)
    → length ds < 1024
    → (k₁ k₂ k₃ : Kernel) × (disastr_os_open_semaphore id flags (pos (suc n)) k
        ≡ some (next_fd k, k₁))
      × ((k₁.semaphores (new_sem k m)).count ≡ pos (suc n))
      × (disastr_os_wait_semaphore (next_fd k) k₁ ≡ some (pos 0, k₂))
      × ((k₂.semaphores (new_sem k m)).count ≡ pos n)
      × (disastr_os_post_semaphore (next_fd k) k₂ ≡ some (pos 0, k₃))
      × ((k₃.semaphores (new_sem k m)).count ≡ pos (suc n))
open_wait_post k id flags n m i j ms is js ss ds c int_id int_flags int_fd small create fresh few =
    let fd = next_fd k in
    let s = new_sem k m in
    let d = new_desc k i in
    let (k₁, e₁, o) =
      disastr_os_open_semaphore-Created k id flags (pos (suc n)) m i j ms is js ss ds c int_id
        int_flags (omega arith) create in
    let has_fd = opened-HasFd k id flags (pos (suc n)) m i j ms is js ss ds c k₁ o fresh few in
    let count₁ : (k₁.semaphores s).count ≡ pos (suc n) = rw o.sem refl in
    let k₂ = counts k₁ 13 fd s n in
    let count₂ : (k₂.semaphores s).count ≡ pos n = rw (==-self s) refl in
    let has_fd₂ = counts-HasFd k₁ 13 fd n (ds ++ d ∷ []) d s fd has_fd in
    (
      k₁,
      k₂,
      counts k₂ 14 fd s (suc n),
      e₁,
      count₁,
      disastr_os_wait_semaphore-counts k₁ (ds ++ d ∷ []) d s fd n has_fd int_fd count₁
          (omega arith),
      count₂,
      disastr_os_post_semaphore-counts k₂ (ds ++ d ∷ []) d s fd n has_fd₂ int_fd count₂ small,
      rw (==-self s) refl,
    )
