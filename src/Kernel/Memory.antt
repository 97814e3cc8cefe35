-- ===== src/Kernel/Memory.antt =====
-- Reads and writes of the kernel's structs, its lists and its pools, as the C code makes them.
use disastr_os_semaphores.Common.{
  ℕ, zero, suc, ℤ, Bool, Option, none, some, ◌==◌, ◌==ℤ◌, is_set, if◌then◌else◌,
}
use disastr_os_semaphores.LinkedList.{ListHead, Links, null, list_insert, list_detach}
use disastr_os_semaphores.PoolAllocator.{
  PoolAllocator, PoolAllocatorResult, get_block, release_block,
}
use disastr_os_semaphores.Kernel.Types.{
  Pcb, PcbPtr, TimerItem, Resource, Descriptor, DescriptorPtr, Semaphore, SemDescriptor,
  SemDescriptorPtr, ListRef, same_ref, owner_of, PoolId, pool_number,
}
use disastr_os_semaphores.Kernel.State.{Kernel, M, ◌>>=◌, gets, modify, checked, update}

-- `*p`, for each type of struct.
abbrev pub get_pcb : ℕ → M Pcb
get_pcb p = checked p (gets λ k. k.pcbs p)

abbrev pub get_pcb_ptr : ℕ → M PcbPtr
get_pcb_ptr p = checked p (gets λ k. k.pcb_ptrs p)

abbrev pub get_timer : ℕ → M TimerItem
get_timer p = checked p (gets λ k. k.timers p)

abbrev pub get_resource : ℕ → M Resource
get_resource p = checked p (gets λ k. k.resources p)

abbrev pub get_desc : ℕ → M Descriptor
get_desc p = checked p (gets λ k. k.descs p)

abbrev pub get_desc_ptr : ℕ → M DescriptorPtr
get_desc_ptr p = checked p (gets λ k. k.desc_ptrs p)

abbrev pub get_semaphore : ℕ → M Semaphore
get_semaphore p = checked p (gets λ k. k.semaphores p)

abbrev pub get_sem_desc : ℕ → M SemDescriptor
get_sem_desc p = checked p (gets λ k. k.sem_descs p)

abbrev pub get_sem_desc_ptr : ℕ → M SemDescriptorPtr
get_sem_desc_ptr p = checked p (gets λ k. k.sem_desc_ptrs p)

-- Writes to fields of `*p`.
abbrev pub set_pcb : ℕ → (Pcb → Pcb) → M (Unit {0})
set_pcb p f = checked p (modify λ k. record k { pcbs = update k.pcbs p (f (k.pcbs p)) })

abbrev pub put_pcb_ptr : ℕ → PcbPtr → M (Unit {0})
put_pcb_ptr p v = checked p (modify λ k. record k { pcb_ptrs = update k.pcb_ptrs p v })

abbrev pub put_timer : ℕ → TimerItem → M (Unit {0})
put_timer p v = checked p (modify λ k. record k { timers = update k.timers p v })

abbrev pub put_resource : ℕ → Resource → M (Unit {0})
put_resource p v = checked p (modify λ k. record k { resources = update k.resources p v })

abbrev pub set_desc : ℕ → (Descriptor → Descriptor) → M (Unit {0})
set_desc p f = checked p (modify λ k. record k { descs = update k.descs p (f (k.descs p)) })

abbrev pub put_desc_ptr : ℕ → DescriptorPtr → M (Unit {0})
put_desc_ptr p v = checked p (modify λ k. record k { desc_ptrs = update k.desc_ptrs p v })

abbrev pub set_semaphore : ℕ → (Semaphore → Semaphore) → M (Unit {0})
set_semaphore p f =
    checked p (modify λ k. record k { semaphores = update k.semaphores p (f (k.semaphores p)) })

abbrev pub set_sem_desc : ℕ → (SemDescriptor → SemDescriptor) → M (Unit {0})
set_sem_desc p f =
    checked p (modify λ k. record k { sem_descs = update k.sem_descs p (f (k.sem_descs p)) })

abbrev pub put_sem_desc_ptr : ℕ → SemDescriptorPtr → M (Unit {0})
put_sem_desc_ptr p v =
    checked p (modify λ k. record k { sem_desc_ptrs = update k.sem_desc_ptrs p v })

-- `*result = value`
abbrev pub put_user : ℤ → ℤ → M (Unit {0})
put_user a v = modify λ k. record k { user_memory = λ b. if b ==ℤ a then v else k.user_memory b }

abbrev pub set_running : ℕ → M (Unit {0})
set_running p = modify λ k. record k { running = p }

-- The two pointers of the item at `p` are set to NULL.
abbrev pub unlink : ℕ → M (Unit {0})
unlink p =
    checked p
      (modify λ k. record k { links = update k.links p (record { prev = null; next = null }) })

-- The `ListHead` at a place, in a struct that is not NULL.
abbrev pub get_head : ListRef → M ListHead
get_head r = checked (owner_of r) (gets λ k. k.heads r)

abbrev pub set_heads : (ListRef → ListHead) → ListRef → ListHead → ListRef → ListHead
set_heads f r h s = if same_ref s r then h else f s

abbrev pub put_head : ListRef → ListHead → M (Unit {0})
put_head r h = checked (owner_of r) (modify λ k. record k { heads = set_heads k.heads r h })

-- What a list function returned, written back.
abbrev pub write_back : ListRef → Option (ℕ × Links × ListHead) → M ℕ
write_back r none k = none
write_back r (some (p, l, h)) k = some (p, record k { links = l; heads = set_heads k.heads r h })

-- `List_insert(&r, prev, item)` and `List_detach(&r, item)`.
unfoldable pub insert_at : ListRef → (prev item : ℕ) → M ℕ
insert_at r prev item k = write_back r (list_insert k.links (k.heads r) prev item) k

unfoldable pub detach_at : ListRef → (item : ℕ) → M ℕ
detach_at r item k = write_back r (list_detach k.links (k.heads r) item) k

-- `List_insert(&r, r.last, item)`
unfoldable pub insert_back : ListRef → (item : ℕ) → M ℕ
insert_back r item = do h ← get_head r; insert_at r h.last item

-- `List_detach(&r, r.first)`
unfoldable pub detach_first : ListRef → M ℕ
detach_first r = do h ← get_head r; detach_at r h.first

abbrev pub set_pool : (PoolId → PoolAllocator) → PoolId → PoolAllocator → PoolId → PoolAllocator
set_pool f i a j = if pool_number j == pool_number i then a else f j

abbrev pub pool_back : {A : Type 0} → PoolId → Option (A × PoolAllocator) → M A
pool_back i none k = none
pool_back i (some (r, a)) k = some (r, record k { pools = set_pool k.pools i a })

-- `PoolAllocator_getBlock` and `PoolAllocator_releaseBlock` on one of the pools.
unfoldable pub alloc : PoolId → M ℕ
alloc i k = pool_back i (get_block (k.pools i)) k

unfoldable pub release : PoolId → ℕ → M PoolAllocatorResult
release i block k = pool_back i (release_block (k.pools i) block) k

-- Every block of a pool is visited within this many rounds, so a walk that takes more is in a cycle.
unfoldable pub walk_rounds : ℕ
walk_rounds = 1025

-- The loops that look for the first item of a list that passes a test, from `aux` on: the item, or
-- NULL at the end.
unfoldable pub walk : Links → (ℕ → Bool) → (rounds aux : ℕ) → Option ℕ
walk l test zero aux = none
walk l test (suc n) aux =
    let rest = walk l test n (l aux).next in
    if is_set aux then if test aux then some aux else rest else some null

abbrev pub no_change : {A : Type 0} → Option A → M A
no_change none k = none
no_change (some a) k = some (a, k)

unfoldable pub find_in : ListRef → (Kernel → ℕ → Bool) → M ℕ
find_in r test = do
  h ← get_head r
  k ← gets (λ k. k)
  no_change (walk k.links (test k) walk_rounds h.first)
