-- ===== src/Syscalls/Files/Destroys.antt =====
-- Destroying a resource (src/disastrOS_destroy_resource.c).
use disastr_os_semaphores.Common.{
  ℕ, pos, ◌<◌, ◌≤◌, ◌≡◌, ◌≢◌, refl, ◌∙◌, ap, Bool, true, false, some, List, [], ◌∷◌, ◌++◌, arith,
  length, has, ==-ne, ==-self, ◌==ℤ◌,
}
use disastr_os_semaphores.LinkedList.{Links, ListHead}
use disastr_os_semaphores.PoolAllocator.{PoolAllocator, success, release_block}
use disastr_os_semaphores.PoolAllocator.Free.{IsValid}
use disastr_os_semaphores.PoolAllocator.Blocks.{release_block-IsValid}
use disastr_os_semaphores.Kernel.{
  Kernel, ListRef, set_pool, resource_pool, resources_list, resource_descriptors, detach_at,
  release, dsos_eresourceinuse,
}
use disastr_os_semaphores.Kernel.Lists.{ListIs, relinked, first_such, find_in-first_such}
use disastr_os_semaphores.Kernel.Pools.{block_at}
use disastr_os_semaphores.Kernel.View.{View, put}
use disastr_os_semaphores.Kernel.World.{World, World-detach_at, World-state}
use disastr_os_semaphores.Objects.File.{resource_free, resource_list_by_id}
use disastr_os_semaphores.Syscalls.SemWait.Laws.{returned}
use disastr_os_semaphores.Syscalls.SemOpen.Refuses.{arg}
use disastr_os_semaphores.Syscalls.Files.{internal_destroy_resource}

module _ (k : Kernel) (res : ℕ) (l : Links) (h : ListHead) (a : PoolAllocator) where
  abbrev destroyed : Kernel
  destroyed =
      returned (record (relinked k resources_list l h) { pools = set_pool k.pools resource_pool a })
        k.running (pos 0)

  destroy-unused :
      k.running ≢ 0
      → res ≢ 0
      → resource_list_by_id resources_list (arg k 0) k ≡ some (res, k)
      → (k.heads (resource_descriptors res)).size ≡ pos 0
      → (k.heads (resource_descriptors res)).first ≡ 0
      → (k.heads (resource_descriptors res)).last ≡ 0
      → detach_at resources_list res k ≡ some (res, relinked k resources_list l h)
      → release_block (k.pools resource_pool) res ≡ some (success, a)
      → internal_destroy_resource k ≡ some (tt, destroyed)
  unfolding internal_destroy_resource resource_free release
  destroy-unused nr ns e₀ size first last e₁ ea = rw (==-ne k.running 0 nr) (
      rw e₀ (
        rw (==-ne res 0 ns) (
          rw (==-ne res 0 ns) (
            rw size (
              rw e₁ (
                rw (==-ne res 0 ns) (
                  rw (==-ne res 0 ns)
                    (rw first (rw last (rw ea (rw (==-ne k.running 0 nr) refl)))))))))))

destroy-used :
    (k : Kernel) (res : ℕ)
    → k.running ≢ 0
    → res ≢ 0
    → resource_list_by_id resources_list (arg k 0) k ≡ some (res, k)
    → ((k.heads (resource_descriptors res)).size ==ℤ pos 0) ≡ false
    → internal_destroy_resource k ≡ some (tt, returned k k.running dsos_eresourceinuse)
unfolding internal_destroy_resource
destroy-used k res nr ns e₀ size =
    rw (==-ne k.running 0 nr)
      (rw e₀ (rw (==-ne res 0 ns) (rw (==-ne res 0 ns) (rw size (rw (==-ne k.running 0 nr) refl)))))

-- The resource `res` is the first with the number of the call, and the entries `es` are of descriptors
-- that are open on it; it is block `i` of its pool.
pub record CanDestroy (k : Kernel) (live : ListRef → Bool) (v : View) (res : ℕ) (us vs es : List ℕ)
    (i : ℕ) (is : List ℕ) : Type 0 where
  pub world : World k live v
  pub runs : k.running ≢ 0
  pub live_resources : live resources_list ≡ true
  pub live_entries : live (resource_descriptors res) ≡ true
  pub resources : v resources_list ≡ us ++ res ∷ vs
  pub few : length (us ++ res ∷ vs) ≤ 1024
  pub found : first_such (λ y. (k.resources y).id ==ℤ arg k 0) (us ++ res ∷ vs) ≡ res
  pub entries : v (resource_descriptors res) ≡ es
  pub pool : IsValid (k.pools resource_pool) is
  pub block : res ≡ block_at (k.pools resource_pool) i
  pub held : (i < (k.pools resource_pool).size_max) × (has i is ≡ false)

-- With descriptors open nothing changes but the error that is returned; without, the resource leaves
-- its list, its block is free, and zero is returned.
abbrev pub Destroyed :
    (k k' : Kernel) (live : ListRef → Bool) (v : View) (us vs es : List ℕ) (i : ℕ) (is : List ℕ)
    → Type 0
Destroyed k k' live v us vs (e ∷ es) i is = k' ≡ returned k k.running dsos_eresourceinuse
Destroyed k k' live v us vs [] i is =
    World k' live (put v resources_list (us ++ vs))
    × IsValid (k'.pools resource_pool) (i ∷ is)
    × ((k'.pcbs k.running).syscall_retvalue ≡ pos 0)
    × ((q : ℕ) → q ≢ k.running → k'.pcbs q ≡ k.pcbs q)

-- `internal_destroy_resource` of a resource that is there returns the error `DSOS_ERESOURCEINUSE` and
-- changes nothing else if a descriptor is open on it. If none is, it takes the resource out of
-- its list, gives its block back and returns zero; the lists of the kernel are in order and apart,
-- before and after, and no other list and no PCB but that of the process changes.
pub internal_destroy_resource-Destroyed :
    (k : Kernel) (live : ListRef → Bool) (v : View) (res : ℕ) (us vs es : List ℕ) (i : ℕ)
    (is : List ℕ)
    → CanDestroy k live v res us vs es i is
    → (k' : Kernel) × (internal_destroy_resource k ≡ some (tt, k'))
      × Destroyed k k' live v us vs es i is
unfolding resource_list_by_id
internal_destroy_resource-Destroyed k live v res us vs es i is c =
    let r = k.running in
    let listed : ListIs k resources_list (us ++ res ∷ vs) =
      rw c.resources at (c.world.lists resources_list c.live_resources) in
    let ns = c.world.owners (resource_descriptors res) c.live_entries in
    let found : resource_list_by_id resources_list (arg k 0) k ≡ some (res, k) =
      find_in-first_such k resources_list (λ k' y. (k'.resources y).id ==ℤ arg k 0) (us ++ res ∷ vs)
        (omega arith) listed c.few
      ∙ ap (λ y. some (y, k)) c.found in
    let entries : ListIs k (resource_descriptors res) es =
      rw c.entries at (c.world.lists (resource_descriptors res) c.live_entries) in
    by_entries es c.runs ns found entries c
  where
    by_entries :
        (es : List ℕ)
        → k.running ≢ 0
        → res ≢ 0
        → resource_list_by_id resources_list (arg k 0) k ≡ some (res, k)
        → ListIs k (resource_descriptors res) es
        → CanDestroy k live v res us vs es i is
        → (k' : Kernel) × (internal_destroy_resource k ≡ some (tt, k'))
          × Destroyed k k' live v us vs es i is
    by_entries (e ∷ es) nr ns found entries c =
        let some_open : ((k.heads (resource_descriptors res)).size ==ℤ pos 0) ≡ false =
          rw entries.size (ground arith) in
        (returned k k.running dsos_eresourceinuse, destroy-used k res nr ns found some_open, refl)
    by_entries [] nr ns found entries c =
        let (l, h, e₁, w, free, out, same) =
          World-detach_at k live v c.world resources_list c.live_resources res us vs c.resources in
        let (a, ea, va, ba, sa, ma) =
          release_block-IsValid (k.pools resource_pool) i is c.pool c.held.0 c.held.1 in
        let k' = destroyed k res l h a in
        (
          k',
          destroy-unused k res l h a nr ns found entries.size entries.first entries.last e₁
              (rw c.block ea),
          (
            World-state (relinked k resources_list l h) k' live (put v resources_list (us ++ vs))
                refl refl w,
            va,
            rw (==-self k.running) refl,
            λ q nq. rw (==-ne q k.running nq) refl,
          ),
        )
