-- ===== src/Objects/Timer.antt =====
-- Timers, in the order of their times: src/disastrOS_timer.c.
pub mod Order
pub mod Add
use disastr_os_semaphores.Common.{
  ℕ, zero, suc, ℤ, pos, negsuc, ◌==◌, is_set, ltb_ℤ, not, Option, none, some, if◌then◌else◌,
}
use disastr_os_semaphores.LinkedList.{Links}
use disastr_os_semaphores.PoolAllocator.{PoolAllocatorResult}
use disastr_os_semaphores.Kernel.{
  M, pure, ◌>>=◌, ◌>>◌, gets, TimerItem, timer_pool, ListRef, alloc, release, unlink, put_timer,
  get_timer, get_head, insert_at, detach_first, no_change, walk_rounds,
}

unfoldable pub timer_item_alloc : (awakening_time : ℤ) → (pcb : ℕ) → M ℕ
timer_item_alloc awakening_time pcb = do
  item ← alloc timer_pool
  if item == 0 then pure 0 else do
    unlink item
    put_timer item (record { awakening_time = awakening_time; pcb = pcb })
    pure item

unfoldable pub timer_item_free : ℕ → M PoolAllocatorResult
timer_item_free item = release timer_pool item

-- The loop of `TimerList_add`: the last item whose time is not after the given one.
unfoldable pub previous_item : Links → (ℕ → TimerItem) → ℤ → (rounds aux previous : ℕ) → Option ℕ
previous_item l items time zero aux previous = none
previous_item l items time (suc n) aux previous =
    let rest = previous_item l items time n (l aux).next aux in
    if is_set aux
    then if ltb_ℤ time (items aux).awakening_time then some previous else rest
    else some previous

unfoldable pub timer_list_add : ListRef → (awakening_time : ℤ) → (pcb : ℕ) → M ℕ
timer_list_add timers awakening_time pcb = do
  h ← get_head timers
  k ← gets (λ k. k)
  previous ← no_change (previous_item k.links k.timers awakening_time walk_rounds h.first 0)
  new_item ← timer_item_alloc awakening_time pcb
  if new_item == 0 then pure 0 else do insert_at timers previous new_item; pure new_item

unfoldable pub timer_list_current : ListRef → (current_time : ℤ) → M ℕ
timer_list_current timers current_time = do
  h ← get_head timers
  if h.first == 0 then pure 0 else do
    item ← get_timer h.first
    if not (ltb_ℤ current_time item.awakening_time) then pure h.first else pure 0

unfoldable pub timer_list_remove_current : ListRef → M ℤ
unfolding timer_item_free
timer_list_remove_current timers = do
  item ← detach_first timers
  if item == 0 then pure (negsuc 0) else do timer_item_free item; pure (pos 0)
