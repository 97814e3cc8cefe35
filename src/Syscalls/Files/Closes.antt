-- ===== src/Syscalls/Files/Closes.antt =====
-- Closing a resource (src/disastrOS_close_resource.c).
use disastr_os_semaphores.Common.{
  ℕ, pos, ◌<◌, ◌≤◌, ◌≡◌, ◌≢◌, refl, ◌∙◌, ap, Bool, true, false, some, List, ◌∷◌, ◌++◌, length, has,
  ==-ne, ==-self, ◌==ℤ◌,
}
use disastr_os_semaphores.LinkedList.{Links, ListHead}
use disastr_os_semaphores.PoolAllocator.{PoolAllocator, success, release_block}
use disastr_os_semaphores.PoolAllocator.Free.{IsValid}
use disastr_os_semaphores.PoolAllocator.Blocks.{release_block-IsValid}
use disastr_os_semaphores.Kernel.{
  Kernel, ListRef, set_pool, descriptor_pool, descriptor_ptr_pool, descriptors,
  resource_descriptors, detach_at, release,
}
use disastr_os_semaphores.Kernel.Lists.{ListIs, relinked, first_such, find_in-first_such}
use disastr_os_semaphores.Kernel.Pools.{block_at}
use disastr_os_semaphores.Kernel.View.{View, put}
use disastr_os_semaphores.Kernel.World.{World, World-detach_at, World-state}
use disastr_os_semaphores.Objects.File.{descriptor_free, descriptor_ptr_free, descriptor_list_by_fd}
use disastr_os_semaphores.Syscalls.SemWait.Laws.{returned}
use disastr_os_semaphores.Syscalls.SemOpen.Refuses.{arg}
use disastr_os_semaphores.Syscalls.Files.{internal_close_resource}

-- The states between the commands.
module _ (k : Kernel) (d x res : ℕ) (l₁ l₂ : Links) (h₁ h₂ : ListHead) (a b : PoolAllocator) where
  abbrev unlinked : Kernel
  unlinked = relinked k (descriptors k.running) l₁ h₁

  abbrev detached : Kernel
  detached = relinked unlinked (resource_descriptors res) l₂ h₂

  abbrev closed : Kernel
  closed =
      returned
        (record detached {
          pools = set_pool (set_pool k.pools descriptor_pool a) descriptor_ptr_pool b;
        })
        k.running (pos 0)

  close-eq :
      k.running ≢ 0
      → d ≢ 0
      → x ≢ 0
      → res ≢ 0
      → (k.descs d).resource ≡ res
      → (k.descs d).ptr ≡ x
      → descriptor_list_by_fd (descriptors k.running) (arg k 0) k ≡ some (d, k)
      → detach_at (descriptors k.running) d k ≡ some (d, unlinked)
      → detach_at (resource_descriptors res) x unlinked ≡ some (x, detached)
      → release_block (k.pools descriptor_pool) d ≡ some (success, a)
      → release_block (k.pools descriptor_ptr_pool) x ≡ some (success, b)
      → internal_close_resource k ≡ some (tt, closed)
  unfolding internal_close_resource descriptor_free descriptor_ptr_free release
  close-eq nr nd nx ns er ex e₀ e₁ e₂ ea eb = rw (==-ne k.running 0 nr) (
      rw e₀ (
        rw (==-ne d 0 nd) (
          rw e₁ (
            rw (==-ne d 0 nd) (
              rw (==-ne d 0 nd) (
                rw (er, ex)
                  (rw (==-ne res 0 ns) (
                    rw e₂
                      (rw (==-ne x 0 nx) (rw ea (rw eb (rw (==-ne k.running 0 nr) refl))))))))))))

-- The descriptor `d` is the first of the process with the number of the call; its entry in the list of
-- its resource is `x`. They are the blocks `i` and `j` of their pools.
pub record CanCloseFile (k : Kernel) (live : ListRef → Bool) (v : View) (d x res : ℕ)
    (us vs ys zs : List ℕ) (i j : ℕ) (is js : List ℕ) : Type 0 where
  pub world : World k live v
  pub live_files : live (descriptors k.running) ≡ true
  pub live_entries : live (resource_descriptors res) ≡ true
  pub files : v (descriptors k.running) ≡ us ++ d ∷ vs
  pub few : length (us ++ d ∷ vs) ≤ 1024
  pub found : first_such (λ y. (k.descs y).fd ==ℤ arg k 0) (us ++ d ∷ vs) ≡ d
  pub resource : (k.descs d).resource ≡ res
  pub entry : (k.descs d).ptr ≡ x
  pub entries : v (resource_descriptors res) ≡ ys ++ x ∷ zs
  pub descs : IsValid (k.pools descriptor_pool) is
  pub ptrs : IsValid (k.pools descriptor_ptr_pool) js
  pub desc_block : d ≡ block_at (k.pools descriptor_pool) i
  pub ptr_block : x ≡ block_at (k.pools descriptor_ptr_pool) j
  pub desc_held : (i < (k.pools descriptor_pool).size_max) × (has i is ≡ false)
  pub ptr_held : (j < (k.pools descriptor_ptr_pool).size_max) × (has j js ≡ false)

pub record ClosedFile (k k' : Kernel) (live : ListRef → Bool) (v : View) (res : ℕ)
    (us vs ys zs : List ℕ) (i j : ℕ) (is js : List ℕ) : Type 0 where
  pub world :
      World k' live
        (put (put v (descriptors k.running) (us ++ vs)) (resource_descriptors res) (ys ++ zs))
  pub value : (k'.pcbs k.running).syscall_retvalue ≡ pos 0
  pub others : (q : ℕ) → q ≢ k.running → k'.pcbs q ≡ k.pcbs q
  pub descs : IsValid (k'.pools descriptor_pool) (i ∷ is)
  pub ptrs : IsValid (k'.pools descriptor_ptr_pool) (j ∷ js)

-- `internal_close_resource` of a number that a descriptor of the process has takes the descriptor out
-- of the list of the process and its entry out of that of the resource, gives both blocks back, and
-- returns zero. The lists of the kernel are in order and apart, before and after; no other list
-- changes, and no PCB but that of the process.
pub internal_close_resource-ClosedFile :
    (k : Kernel) (live : ListRef → Bool) (v : View) (d x res : ℕ) (us vs ys zs : List ℕ) (i j : ℕ)
    (is js : List ℕ)
    → CanCloseFile k live v d x res us vs ys zs i j is js
    → (k' : Kernel) × (internal_close_resource k ≡ some (tt, k'))
      × ClosedFile k k' live v res us vs ys zs i j is js
unfolding descriptor_list_by_fd
internal_close_resource-ClosedFile k live v d x res us vs ys zs i j is js c =
    let r = k.running in
    let files : ListIs k (descriptors r) (us ++ d ∷ vs) =
      rw c.files at (c.world.lists (descriptors r) c.live_files) in
    let nr = c.world.owners (descriptors r) c.live_files in
    let found : descriptor_list_by_fd (descriptors r) (arg k 0) k ≡ some (d, k) =
      find_in-first_such k (descriptors r) (λ k' y. (k'.descs y).fd ==ℤ arg k 0) (us ++ d ∷ vs) nr
        files c.few
      ∙ ap (λ y. some (y, k)) c.found in
    let (l₁, h₁, e₁, w₁, free₁, out₁, same₁) =
      World-detach_at k live v c.world (descriptors r) c.live_files d us vs c.files in
    let v₁ = put v (descriptors r) (us ++ vs) in
    let k₁ = relinked k (descriptors r) l₁ h₁ in
    let (l₂, h₂, e₂, w₂, free₂, out₂, same₂) =
      World-detach_at k₁ live v₁ w₁ (resource_descriptors res) c.live_entries x ys zs c.entries in
    let (a, ea, va, ba, sa, ma) =
      release_block-IsValid (k.pools descriptor_pool) i is c.descs c.desc_held.0 c.desc_held.1 in
    let (b, eb, vb, bb, sb, mb) =
      release_block-IsValid (k.pools descriptor_ptr_pool) j js c.ptrs c.ptr_held.0 c.ptr_held.1 in
    let k' = closed k d x res l₁ l₂ h₁ h₂ a b in
    (
      k',
      close-eq k d x res l₁ l₂ h₁ h₂ a b nr free₁.ne_null free₂.ne_null
          (c.world.owners (resource_descriptors res) c.live_entries) c.resource c.entry found e₁ e₂
          (rw c.desc_block ea) (rw c.ptr_block eb),
      record {
        world =
            World-state (relinked k₁ (resource_descriptors res) l₂ h₂) k' live
              (put v₁ (resource_descriptors res) (ys ++ zs)) refl refl w₂;
        value = rw (==-self r) refl;
        others = λ q nq. rw (==-ne q r nq) refl;
        descs = va;
        ptrs = vb;
      },
    )
