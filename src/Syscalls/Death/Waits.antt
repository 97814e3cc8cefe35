-- ===== src/Syscalls/Death/Waits.antt =====
-- `internal_wait` (src/disastrOS_wait.c) when the child goes on: the process waits.
use disastr_os_semaphores.Common.{
  ℕ, suc, ◌^◌, ◌<◌, ◌≡◌, ◌≢◌, refl, ◌∙◌, Bool, true, false, some, List, [], ◌∷◌, ◌++◌, length,
  ==-ne,
}
use disastr_os_semaphores.LinkedList.{Links, ListHead}
use disastr_os_semaphores.LinkedList.Insert.{IsFree}
use disastr_os_semaphores.Kernel.{
  Kernel, ListRef, update, ready_list, waiting_list, insert_back, detach_first, ProcessStatus,
}
use disastr_os_semaphores.Kernel.Lists.{relinked}
use disastr_os_semaphores.Kernel.World.{
  World, IsOutside, World-insert_back, World-detach_first, World-state,
}
use disastr_os_semaphores.Kernel.View.{View, put}
use disastr_os_semaphores.Syscalls.Death.{internal_wait, block_parent, is_zombie}
use disastr_os_semaphores.Syscalls.Death.Scan.{IsScanned, internal_wait-scanned}

-- The running process is in no list; the first ready process is `q`, and `rs` are behind it.
pub record CanYield (k : Kernel) (live : ListRef → Bool) (v : View) (q : ℕ) (ps rs : List ℕ)
    : Type 0 where
  pub world : World k live v
  pub live_waiting : live waiting_list ≡ true
  pub live_ready : live ready_list ≡ true
  pub waiting : v waiting_list ≡ ps
  pub ready : v ready_list ≡ q ∷ rs
  pub free : IsFree k.links k.running
  pub out : IsOutside live v k.running
  pub room : suc (length ps) < 2 ^ 31

abbrev pub yielded_view : Kernel → View → (ps rs : List ℕ) → View
yielded_view k v ps rs = put (put v waiting_list (ps ++ k.running ∷ [])) ready_list rs

-- The process that ran waits, and `q` runs. No PCB changes but the status of the process that waits.
abbrev pub yielding : Kernel → (q : ℕ) → Links → (ListRef → ListHead) → Kernel
yielding k q l h = record k {
  links = l;
  heads = h;
  pcbs = update k.pcbs k.running (record (k.pcbs k.running) { status = ProcessStatus.waiting });
  running = q;
}

-- The lists with the process behind the waiting ones, and `q` in none of them.
pub record Yielded (k k' : Kernel) (live : ListRef → Bool) (v : View) (q : ℕ) (ps rs : List ℕ)
    : Type 0 where
  pub world : World k' live (yielded_view k v ps rs)
  pub free : IsFree k'.links q
  pub out : IsOutside live (yielded_view k v ps rs) q

module _ (k : Kernel) (q : ℕ) (l₁ l₂ : Links) (h₁ h₂ : ListHead) where
  abbrev laid_down : Kernel
  laid_down = record k {
    pcbs = update k.pcbs k.running (record (k.pcbs k.running) { status = ProcessStatus.waiting });
  }

  abbrev yielded : Kernel
  yielded = record (relinked (relinked laid_down waiting_list l₁ h₁) ready_list l₂ h₂) {
    running = q;
  }

  block_parent-eq :
      k.running ≢ 0
      → insert_back waiting_list k.running laid_down
        ≡ some (k.running, relinked laid_down waiting_list l₁ h₁)
      → detach_first ready_list (relinked laid_down waiting_list l₁ h₁)
        ≡ some (q, relinked (relinked laid_down waiting_list l₁ h₁) ready_list l₂ h₂)
      → block_parent k ≡ some (tt, yielded)
  unfolding block_parent
  block_parent-eq nr e₁ e₂ = rw (==-ne k.running 0 nr) (rw e₁ (rw e₂ refl))

block_parent-Yielded :
    (k : Kernel) (live : ListRef → Bool) (v : View) (q : ℕ) (ps rs : List ℕ)
    → CanYield k live v q ps rs
    → (l : Links) × (h : ListRef → ListHead) × (block_parent k ≡ some (tt, yielding k q l h))
      × Yielded k (yielding k q l h) live v q ps rs
block_parent-Yielded k live v q ps rs c =
    let r = k.running in
    let k₁ = laid_down k q k.links k.links (k.heads waiting_list) (k.heads waiting_list) in
    let v₁ = put v waiting_list (ps ++ r ∷ []) in
    let (l₁, h₁, e₁, w₁, same₁) =
      World-insert_back k₁ live v (World-state k k₁ live v refl refl c.world) waiting_list
        c.live_waiting r ps c.waiting c.free c.out c.room in
    let (l₂, h₂, e₂, w₂, free₂, out₂, same₂) =
      World-detach_first (relinked k₁ waiting_list l₁ h₁) live v₁ w₁ ready_list c.live_ready q rs
        c.ready in
    let k' = yielded k q l₁ l₂ h₁ h₂ in
    (
      l₂,
      k'.heads,
      block_parent-eq k q l₁ l₂ h₁ h₂ c.free.ne_null e₁ e₂,
      record {
        world =
            World-state (relinked (relinked k₁ waiting_list l₁ h₁) ready_list l₂ h₂) k' live
              (put v₁ ready_list rs) refl refl w₂;
        free = record { ne_null = free₂.ne_null; unlinked = free₂.unlinked };
        out = out₂;
      },
    )

-- `internal_wait` for a child that has not terminated puts the process behind the waiting ones, with
-- the status of a waiting process, and the first ready process runs. The lists of the kernel are in
-- order and apart, before and after; no list changes but these two, and no other PCB.
pub internal_wait-Yielded :
    (k : Kernel) (live : ListRef → Bool) (v : View) (e p q : ℕ) (cs ps rs : List ℕ)
    → CanYield k live v q ps rs
    → IsScanned k e p cs
    → p ≢ 0
    → is_zombie (k.pcbs p).status ≡ false
    → (l : Links) × (h : ListRef → ListHead) × (internal_wait k ≡ some (tt, yielding k q l h))
      × Yielded k (yielding k q l h) live v q ps rs
internal_wait-Yielded k live v e p q cs ps rs c s np alive =
    let (l, h, e', y) = block_parent-Yielded k live v q ps rs c in
    (l, h, internal_wait-scanned k e p cs c.free.ne_null np s ∙ rw alive e', y)
