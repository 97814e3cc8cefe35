-- ===== src/Syscalls/Schedule/Lists.antt =====
-- The lists that the loop of `internal_schedule` (src/disastrOS_schedule.c) works on, and its first
-- timer.
use disastr_os_semaphores.Common.{
  ℕ, pos, ◌+◌, ◌^◌, ◌<◌, ◌≡◌, ◌≢◌, refl, false, some, List, ◌∷◌, ◌++◌, arith, length, has,
  has-append, ==-ne, ◌≤ℤ◌, ltb_ℤ,
}
use disastr_os_semaphores.LinkedList.{Links, ListHead}
use disastr_os_semaphores.LinkedList.Seg.{Disjoint}
use disastr_os_semaphores.LinkedList.Insert.{IsFree}
use disastr_os_semaphores.PoolAllocator.{PoolAllocator, success, release_block}
use disastr_os_semaphores.PoolAllocator.Free.{IsValid}
use disastr_os_semaphores.Kernel.{
  Kernel, update, set_pool, detach_first, timer_pool, timer_list, ready_list, waiting_list,
  ProcessStatus, release,
}
use disastr_os_semaphores.Kernel.Lists.{ListIs, relinked}
use disastr_os_semaphores.Kernel.Pools.{block_at}
use disastr_os_semaphores.Objects.Timer.{
  timer_list_current, timer_list_remove_current, timer_item_free,
}

-- The timers are `ts`, the waiting processes `ps`, and the ready ones those that the loop has woken,
-- `ws`, and those that were ready before, `rs`. The running process is in none of these lists.
pub record Lists (k : Kernel) (ts ps ws rs : List ℕ) : Type 0 where
  pub timers : ListIs k timer_list ts
  pub waiting : ListIs k waiting_list ps
  pub ready : ListIs k ready_list (ws ++ rs)
  pub timers_waiting : Disjoint ts ps
  pub timers_ready : Disjoint ts (ws ++ rs)
  pub waiting_ready : Disjoint ps (ws ++ rs)
  pub room : length ps + length (ws ++ rs) < 2 ^ 31
  pub free : IsFree k.links k.running
  pub out :
      (has k.running ts ≡ false) × (has k.running ps ≡ false) × (has k.running (ws ++ rs) ≡ false)

-- The first timer has elapsed, and is block `j` of its pool, whose free blocks are `is`; its process
-- is `p`.
pub record IsDue (k : Kernel) (t p j : ℕ) (is : List ℕ) : Type 0 where
  pub elapsed : (k.timers t).awakening_time ≤ℤ k.disastr_os_time
  pub process : (k.timers t).pcb ≡ p
  pub valid : IsValid (k.pools timer_pool) is
  pub block : t ≡ block_at (k.pools timer_pool) j
  pub held : (j < (k.pools timer_pool).size_max) × (has j is ≡ false)

-- The process `p` is ready and has no timer, and the block of its timer is free.
pub record Woke (k k' : Kernel) (p j : ℕ) (is : List ℕ) : Type 0 where
  pub pcbs :
      k'.pcbs ≡ update k.pcbs p (record (k.pcbs p) { status = ProcessStatus.ready; timer = 0 })
  pub timers : k'.timers ≡ k.timers
  pub time : k'.disastr_os_time ≡ k.disastr_os_time
  pub running : k'.running ≡ k.running
  pub valid : IsValid (k'.pools timer_pool) (j ∷ is)
  pub buffer : (k'.pools timer_pool).buffer ≡ (k.pools timer_pool).buffer
  pub item_size : (k'.pools timer_pool).item_size ≡ (k.pools timer_pool).item_size
  pub size_max : (k'.pools timer_pool).size_max ≡ (k.pools timer_pool).size_max

-- An item more among those that are apart from others.
pub Disjoint-add :
    (ws : List ℕ) (p : ℕ) (rs zs : List ℕ)
    → Disjoint (ws ++ rs) zs
    → has p zs ≡ false
    → Disjoint (ws ++ p ∷ rs) zs
Disjoint-add ws p rs zs d o a i = ground (arith, has-append a ws rs, has-append a ws (p ∷ rs), d a)

pub not-has-add :
    (a : ℕ) (ws : List ℕ) (p : ℕ) (rs : List ℕ)
    → has a (ws ++ rs) ≡ false
    → a ≢ p
    → has a (ws ++ p ∷ rs) ≡ false
not-has-add a ws p rs o ne = ground (arith, has-append a ws rs, has-append a ws (p ∷ rs))

pub not-has-without :
    (a : ℕ) (us : List ℕ) (p : ℕ) (vs : List ℕ)
    → has a (us ++ p ∷ vs) ≡ false
    → (has a (us ++ vs) ≡ false) × (a ≢ p)
not-has-without a us p vs o = (
  ground (arith, has-append a us vs, has-append a us (p ∷ vs)),
  ground (arith, has-append a us (p ∷ vs)),
)

pub timer_list_current-due :
    (k : Kernel) (t : ℕ) (ts : List ℕ)
    → ListIs k timer_list (t ∷ ts)
    → (k.timers t).awakening_time ≤ℤ k.disastr_os_time
    → timer_list_current timer_list k.disastr_os_time k ≡ some (t, k)
unfolding timer_list_current
timer_list_current-due k t ts is due =
    let late : ltb_ℤ k.disastr_os_time (k.timers t).awakening_time ≡ false = ground arith in
    rw is.first (simp (==-ne t 0 is.seg.0, late))

pub timer_list_remove_current-eq :
    (k : Kernel) (t j : ℕ) (l : Links) (h : ListHead) (a : PoolAllocator)
    → t ≢ 0
    → t ≡ block_at (k.pools timer_pool) j
    → detach_first timer_list k ≡ some (t, relinked k timer_list l h)
    → release_block (k.pools timer_pool) (block_at (k.pools timer_pool) j) ≡ some (success, a)
    → timer_list_remove_current timer_list k
      ≡ some (
        pos 0,
        (let k' = relinked k timer_list l h in
            record k' { pools = set_pool k'.pools timer_pool a }),
      )
unfolding timer_list_remove_current timer_item_free release
timer_list_remove_current-eq k t j l h a ne is e e' = rw e (rw (==-ne t 0 ne) (rw is (rw e' refl)))
