-- ===== src/Objects/Timer/Add.antt =====
-- `TimerList_add` (src/disastrOS_timer.c) and the order of the timers.
use disastr_os_semaphores.Common.{
  ℕ, ℤ, ◌≡◌, ◌≢◌, ◌≤◌, refl, true, false, some, List, [], ◌∷◌, ◌++◌, arith, length, has, first_or,
  last_or, ==-ne, ==-self,
}
use disastr_os_semaphores.LinkedList.{Links, ListHead, item_of}
use disastr_os_semaphores.LinkedList.Seg.{IsList, IsList-frame, SameOutside}
use disastr_os_semaphores.PoolAllocator.Free.{IsValid}
use disastr_os_semaphores.PoolAllocator.Blocks.{taken}
use disastr_os_semaphores.Kernel.View.{same_ref_self}
use disastr_os_semaphores.Kernel.{
  Kernel, ListRef, owner_of, timer_pool, set_pool, update, insert_at, walk_rounds,
}
use disastr_os_semaphores.Kernel.Lists.{ListIs, relinked, insert_at-IsList}
use disastr_os_semaphores.Kernel.Pools.{block_at, alloc-first}
use disastr_os_semaphores.Objects.Timer.{previous_item, timer_item_alloc, timer_list_add}
use disastr_os_semaphores.Objects.Timer.Order.{
  not_after, from_later, not_after-from_later, previous_item-not_after, IsOrdered, put-IsOrdered,
  not_after-frame, from_later-frame, IsOrdered-frame,
}

-- The address that the pool of timers hands out next.
abbrev pub new_timer : Kernel → ℕ → ℕ
new_timer k i = block_at (k.pools timer_pool) i

-- The list at `r` is `xs`, in the order of the times, and there is a free block, `i`, for a timer.
pub record CanAdd (k : Kernel) (r : ListRef) (i : ℕ) (is xs : List ℕ) : Type 0 where
  pub owner : owner_of r ≢ 0
  pub list : ListIs k r xs
  pub few : length xs ≤ 1024
  pub ordered : IsOrdered k.timers xs
  pub pool : IsValid (k.pools timer_pool) (i ∷ is)
  pub new_ne : new_timer k i ≢ 0
  pub new_out : has (new_timer k i) xs ≡ false

module _ (k : Kernel) (r : ListRef) (time : ℤ) (pcb i : ℕ) where
  abbrev pub timed : Kernel
  timed = record k {
    pools = set_pool k.pools timer_pool (taken (k.pools timer_pool) i);
    links = update k.links (new_timer k i) (item_of 0 0);
    timers = update k.timers (new_timer k i) (record { awakening_time = time; pcb = pcb });
  }

  timer_item_alloc-first :
      (is : List ℕ)
      → IsValid (k.pools timer_pool) (i ∷ is)
      → new_timer k i ≢ 0
      → timer_item_alloc time pcb k ≡ some (new_timer k i, timed)
  unfolding timer_item_alloc
  timer_item_alloc-first is v ne =
      rw (alloc-first k timer_pool i is v) (simp (==-ne (new_timer k i) 0 ne))

  timer_list_add-eq :
      (is : List ℕ) (first previous : ℕ) (l : Links) (h : ListHead)
      → owner_of r ≢ 0
      → (k.heads r).first ≡ first
      → previous_item k.links k.timers time walk_rounds first 0 ≡ some previous
      → IsValid (k.pools timer_pool) (i ∷ is)
      → new_timer k i ≢ 0
      → insert_at r previous (new_timer k i) timed ≡ some (new_timer k i, relinked timed r l h)
      → timer_list_add r time pcb k ≡ some (new_timer k i, relinked timed r l h)
  unfolding timer_list_add
  timer_list_add-eq is first previous l h owner ef ep v ne e =
      rw (==-ne (owner_of r) 0 owner, ef, ep, timer_item_alloc-first is v ne)
        (simp (==-ne (new_timer k i) 0 ne) (rw e refl))

-- The list that `TimerList_add` makes, and what it writes.
pub timer_list_add-relinked :
    (k : Kernel) (r : ListRef) (time : ℤ) (pcb i : ℕ) (is xs : List ℕ)
    → CanAdd k r i is xs
    → (l : Links) × (h : ListHead) × (timer_list_add r time pcb k
        ≡ some (new_timer k i, relinked (timed k r time pcb i) r l h))
      × IsList l h (not_after k.timers time xs ++ new_timer k i ∷ from_later k.timers time xs)
      × SameOutside (new_timer k i ∷ xs) (timed k r time pcb i).links l
unfolding walk_rounds
timer_list_add-relinked k r time pcb i is xs c =
    let new = new_timer k i in
    let t = timed k r time pcb i in
    let ys = not_after k.timers time xs in
    let zs = from_later k.timers time xs in
    let whole : ys ++ zs ≡ xs = not_after-from_later k.timers time xs in
    let here : IsList t.links (t.heads r) (ys ++ zs) = rw whole (
      IsList-frame (new ∷ []) xs c.list (λ a o. ground (arith, o))
        (λ a j. ground (arith, c.new_out, j))) in
    let (l, h, e, is', other) =
      insert_at-IsList t r new ys zs here
        (record { ne_null = c.new_ne; unlinked = rw (==-self new) }) (rw whole c.new_out)
        (rw whole (omega (arith, c.few))) in
    (
      l,
      h,
      timer_list_add-eq k r time pcb i is (first_or 0 xs) (last_or 0 ys) l h c.owner c.list.first
          (previous_item-not_after k.links k.timers time 1025 0 xs c.list.seg
            (omega (arith, c.few)))
          c.pool c.new_ne e,
      is',
      rw whole at other,
    )

pub timed-IsOrdered :
    (k : Kernel) (r : ListRef) (time : ℤ) (pcb i : ℕ) (is xs : List ℕ)
    → CanAdd k r i is xs
    → IsOrdered
        (timed k r time pcb i).timers
        (not_after k.timers time xs ++ new_timer k i ∷ from_later k.timers time xs)
timed-IsOrdered k r time pcb i is xs c =
    let new = new_timer k i in
    let t = timed k r time pcb i in
    let same : (a : ℕ) → has a xs ≡ true → t.timers a ≡ k.timers a =
      λ a j. ground (arith, c.new_out, j) in
    let self : t.timers new ≡ record { awakening_time = time; pcb = pcb } = rw (==-self new) in
    let o = put-IsOrdered t.timers new xs (IsOrdered-frame k.timers t.timers xs same c.ordered) in
    rw
      (
        self,
        not_after-frame k.timers t.timers time xs same,
        from_later-frame k.timers t.timers time xs same,
      )
      at o

-- `TimerList_add` on a list in the order of the times, with a block free, returns the new timer,
-- which holds the given time and process, and puts it behind those that are no later and before
-- the others: the list is in order again.
pub timer_list_add-IsOrdered :
    (k : Kernel) (r : ListRef) (time : ℤ) (pcb i : ℕ) (is xs : List ℕ)
    → CanAdd k r i is xs
    → (k' : Kernel) × (timer_list_add r time pcb k ≡ some (new_timer k i, k'))
      × ListIs k' r (not_after k.timers time xs ++ new_timer k i ∷ from_later k.timers time xs)
      × IsOrdered k'.timers
          (not_after k.timers time xs ++ new_timer k i ∷ from_later k.timers time xs)
      × (k'.timers (new_timer k i) ≡ record { awakening_time = time; pcb = pcb })
timer_list_add-IsOrdered k r time pcb i is xs c =
    let (l, h, e, is', other) = timer_list_add-relinked k r time pcb i is xs c in
    (
      relinked (timed k r time pcb i) r l h,
      e,
      rw (same_ref_self r) is',
      timed-IsOrdered k r time pcb i is xs c,
      rw (==-self (new_timer k i)),
    )
