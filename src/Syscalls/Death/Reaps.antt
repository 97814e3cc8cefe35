-- ===== src/Syscalls/Death/Reaps.antt =====
-- `internal_wait` (src/disastrOS_wait.c) when the child has terminated.
use disastr_os_semaphores.Common.{
  ℕ, ℤ, pos, ◌<◌, ◌≤◌, ◌≡◌, ◌≢◌, refl, ◌∙◌, Bool, Bool-cases, inl, inr, true, false, not, some,
  List, ◌∷◌, ◌++◌, length, has, ==-ne, ==-self, ◌==ℤ◌, if◌then◌else◌,
}
use disastr_os_semaphores.LinkedList.{Links, ListHead}
use disastr_os_semaphores.LinkedList.Seg.{Seg-right}
use disastr_os_semaphores.PoolAllocator.{PoolAllocator, success, release_block}
use disastr_os_semaphores.PoolAllocator.Free.{IsValid}
use disastr_os_semaphores.PoolAllocator.Blocks.{release_block-IsValid}
use disastr_os_semaphores.Kernel.{
  Kernel, ListRef, skip, set_pool, pcb_pool, pcb_ptr_pool, children, zombie_list, detach_at,
  release, put_user, ProcessStatus,
}
use disastr_os_semaphores.Kernel.Lists.{ListIs, relinked}
use disastr_os_semaphores.Kernel.Pools.{block_at}
use disastr_os_semaphores.Kernel.World.{World, World-detach_at, World-state}
use disastr_os_semaphores.Kernel.View.{View, put}
use disastr_os_semaphores.Objects.Process.{pcb_free, pcb_ptr_free}
use disastr_os_semaphores.Syscalls.SemWait.Laws.{returned}
use disastr_os_semaphores.Syscalls.SemOpen.Refuses.{arg}
use disastr_os_semaphores.Syscalls.Death.{internal_wait, reap, is_zombie}
use disastr_os_semaphores.Syscalls.Death.Scan.{
  result_arg, matches, first_or_last, first_ne, internal_wait-scanned,
}

-- `if (result) *result = value`
abbrev pub written : (ℤ → ℤ) → (result value : ℤ) → ℤ → ℤ
written m result value = if result ==ℤ pos 0 then m else λ a. if a ==ℤ result then value else m a

pub put_user-written :
    (k : Kernel) (result value : ℤ)
    → (if not (result ==ℤ pos 0) then put_user result value else skip) k
      ≡ some (tt, record k { user_memory = written k.user_memory result value })
put_user-written k result value = elim (Bool-cases (result ==ℤ pos 0)) [
  | inl e ↦ rw e refl
  | inr e ↦ rw e refl
]

-- The states between the commands of `reap`.
module _ (k : Kernel) (e p : ℕ) (l₁ l₂ : Links) (h₁ h₂ : ListHead) (a b : PoolAllocator) where
  abbrev pub unlinked : Kernel
  unlinked = relinked k (children k.running) l₁ h₁

  abbrev pub freed : Kernel
  freed = record unlinked { pools = set_pool unlinked.pools pcb_ptr_pool a }

  abbrev pub buried : Kernel
  buried = returned (relinked freed zombie_list l₂ h₂) k.running (k.pcbs p).pid

  abbrev pub reaped : Kernel
  reaped = record buried {
    user_memory = written k.user_memory (result_arg k) (k.pcbs p).return_value;
    pools = set_pool buried.pools pcb_pool b;
  }

  reap-eq :
      k.running ≢ 0
      → e ≢ 0
      → p ≢ 0
      → detach_at (children k.running) e k ≡ some (e, unlinked)
      → release_block (k.pools pcb_ptr_pool) e ≡ some (success, a)
      → detach_at zombie_list p freed ≡ some (p, relinked freed zombie_list l₂ h₂)
      → release_block (k.pools pcb_pool) p ≡ some (success, b)
      → reap e p (result_arg k) k ≡ some (tt, reaped)
  unfolding reap pcb_ptr_free pcb_free release
  reap-eq nr ne np e₁ ea e₂ eb = rw e₁ (
      rw ea (
        rw e₂ (
          simp
            (
              ==-ne p 0 np,
              ==-ne k.running 0 nr,
              put_user-written buried (result_arg k) (k.pcbs p).return_value,
            )
            (rw eb refl))))

-- The children are `us ++ e ∷ vs`, and the scan stops at the entry `e`, whose child `p` has terminated;
-- the others that have are `ys` and `zs`. The entry is block `j` of its pool, and the PCB block `i`.
pub record CanReap (k : Kernel) (live : ListRef → Bool) (v : View) (e p : ℕ) (us vs ys zs : List ℕ)
    (i j : ℕ) (is js : List ℕ) : Type 0 where
  pub world : World k live v
  pub live_children : live (children k.running) ≡ true
  pub live_zombies : live zombie_list ≡ true
  pub offspring : v (children k.running) ≡ us ++ e ∷ vs
  pub few : length (us ++ e ∷ vs) ≤ 1024
  pub picked : first_or_last (matches k (arg k 0)) 0 (us ++ e ∷ vs) ≡ e
  pub child : (k.pcb_ptrs e).pcb ≡ p
  pub terminated : (k.pcbs p).status ≡ ProcessStatus.zombie
  pub zombies : v zombie_list ≡ ys ++ p ∷ zs
  pub pcbs : IsValid (k.pools pcb_pool) is
  pub ptrs : IsValid (k.pools pcb_ptr_pool) js
  pub pcb_block : p ≡ block_at (k.pools pcb_pool) i
  pub ptr_block : e ≡ block_at (k.pools pcb_ptr_pool) j
  pub pcb_held : (i < (k.pools pcb_pool).size_max) × (has i is ≡ false)
  pub ptr_held : (j < (k.pools pcb_ptr_pool).size_max) × (has j js ≡ false)

-- The child is none any more, nor among the terminated ones; no other list changes. The call returns
-- its number, and the value that it left is stored where the call says. Both blocks are free.
pub record Reaped (k k' : Kernel) (live : ListRef → Bool) (v : View) (p : ℕ) (us vs ys zs : List ℕ)
    (i j : ℕ) (is js : List ℕ) : Type 0 where
  pub world : World k' live (put (put v (children k.running) (us ++ vs)) zombie_list (ys ++ zs))
  pub value : (k'.pcbs k.running).syscall_retvalue ≡ (k.pcbs p).pid
  pub memory : k'.user_memory ≡ written k.user_memory (result_arg k) (k.pcbs p).return_value
  pub others : (q : ℕ) → q ≢ k.running → k'.pcbs q ≡ k.pcbs q
  pub running : k'.running ≡ k.running
  pub pcbs : IsValid (k'.pools pcb_pool) (i ∷ is)
  pub ptrs : IsValid (k'.pools pcb_ptr_pool) (j ∷ js)

-- `internal_wait`, where the child at which the scan stops has terminated, takes its entry from the
-- children of the process and the child from the terminated ones, gives both blocks back, stores the
-- value that it left where the call says, and returns its number. The scan stops at the first
-- terminated child if the call names none, else at the first with the number that it names, and at
-- the last child if there is no such one. The lists of the kernel are in order and apart, before and
-- after; no list but these two changes, and no PCB but that of the running process.
pub internal_wait-Reaped :
    (k : Kernel) (live : ListRef → Bool) (v : View) (e p : ℕ) (us vs ys zs : List ℕ) (i j : ℕ)
    (is js : List ℕ)
    → CanReap k live v e p us vs ys zs i j is js
    → (k' : Kernel) × (internal_wait k ≡ some (tt, k')) × Reaped k k' live v p us vs ys zs i j is js
internal_wait-Reaped k live v e p us vs ys zs i j is js c =
    let r = k.running in
    let list : ListIs k (children r) (us ++ e ∷ vs) =
      rw c.offspring at (c.world.lists (children r) c.live_children) in
    let dead : ListIs k zombie_list (ys ++ p ∷ zs) =
      rw c.zombies at (c.world.lists zombie_list c.live_zombies) in
    let ne : e ≢ 0 = (Seg-right k.links 0 0 us (e ∷ vs) list.seg).0 in
    let np : p ≢ 0 = (Seg-right k.links 0 0 ys (p ∷ zs) dead.seg).0 in
    let zombie : is_zombie (k.pcbs p).status ≡ true = rw c.terminated refl in
    let nr = c.world.owners (children r) c.live_children in
    let (l₁, h₁, e₁, w₁, free₁, out₁, same₁) =
      World-detach_at k live v c.world (children r) c.live_children e us vs c.offspring in
    let (a, ea, va, ba, sa, ma) =
      release_block-IsValid (k.pools pcb_ptr_pool) j js c.ptrs c.ptr_held.0 c.ptr_held.1 in
    let (b, eb, vb, bb, sb, mb) =
      release_block-IsValid (k.pools pcb_pool) i is c.pcbs c.pcb_held.0 c.pcb_held.1 in
    let k₂ = freed k e p l₁ l₁ h₁ h₁ a a in
    let v₁ = put v (children r) (us ++ vs) in
    let (l₂, h₂, e₂, w₂, free₂, out₂, same₂) =
      World-detach_at k₂ live v₁
        (World-state (unlinked k e p l₁ l₁ h₁ h₁ a a) k₂ live v₁ refl refl w₁) zombie_list
        c.live_zombies p ys zs c.zombies in
    let k' = reaped k e p l₁ l₂ h₁ h₂ a b in
    (
      k',
      internal_wait-scanned k e p (us ++ e ∷ vs) nr np (record {
        offspring = list;
        some_child = first_ne k (children r) e us vs list;
        few = c.few;
        picked = c.picked;
        child = c.child;
      })
          ∙ rw zombie (
              reap-eq k e p l₁ l₂ h₁ h₂ a b nr ne np e₁ (rw c.ptr_block ea) e₂ (rw c.pcb_block eb)),
      record {
        world =
            World-state (relinked k₂ zombie_list l₂ h₂) k' live (put v₁ zombie_list (ys ++ zs)) refl
              refl w₂;
        value = rw (==-self r) refl;
        memory = refl;
        others = λ q nq. rw (==-ne q r nq) refl;
        running = refl;
        pcbs = vb;
        ptrs = va;
      },
    )
