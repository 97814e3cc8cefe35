-- ===== src/Syscalls/Files/Opens.antt =====
-- Opening a resource that is there (src/disastrOS_open_resource.c).
use disastr_os_semaphores.Common.{
  ℕ, flag_set, suc, ℤ, pos, ◌^◌, ◌<◌, ◌≤◌, ◌≡◌, ◌≢◌, refl, sym, ◌∙◌, ap, Bool, true, false, not,
  ◌&&◌, some, List, [], ◌∷◌, ◌++◌, arith, length, has, int_add, ==-ne, ==-self, ◌==ℤ◌,
}
use disastr_os_semaphores.LinkedList.{Links, ListHead, item_of}
use disastr_os_semaphores.LinkedList.Insert.{IsFree}
use disastr_os_semaphores.PoolAllocator.Free.{IsValid}
use disastr_os_semaphores.PoolAllocator.Blocks.{taken-IsValid}
use disastr_os_semaphores.Kernel.{
  Kernel, ListRef, Descriptor, update, update_self, descriptor_pool, descriptor_ptr_pool,
  descriptors, resource_descriptors, resources_list, insert_back, dsos_create, dsos_excl,
}
use disastr_os_semaphores.Kernel.Lists.{ListIs, relinked, first_such, find_in-first_such}
use disastr_os_semaphores.Kernel.Pools.{block_at}
use disastr_os_semaphores.Kernel.View.{View, put}
use disastr_os_semaphores.Kernel.World.{
  World, IsOutside, World-insert_back, World-state, World-unlink, IsOutside-put,
}
use disastr_os_semaphores.LinkedList.Apart.{not-has-append, not-has-cons}
use disastr_os_semaphores.Objects.File.Laws.{
  file_described, descriptor_alloc-first, file_pointed, descriptor_ptr_alloc-first,
}
use disastr_os_semaphores.Syscalls.SemWait.Laws.{returned}
use disastr_os_semaphores.Syscalls.SemOpen.Refuses.{arg}
use disastr_os_semaphores.Objects.File.{resource_list_by_id}
use disastr_os_semaphores.Syscalls.Files.{
  open_file, check_file, wrong_resource, internal_open_resource,
}

-- The blocks for the descriptor and its pointer, and the number of the next descriptor.
abbrev new_file : Kernel → (i : ℕ) → ℕ
new_file k i = block_at (k.pools descriptor_pool) i

abbrev new_entry : Kernel → (j : ℕ) → ℕ
new_entry k j = block_at (k.pools descriptor_ptr_pool) j

abbrev next_file : Kernel → ℤ
next_file k = (k.pcbs k.running).last_fd

-- The states between the commands, with the descriptor in block `i` and its pointer in block `j`.
module _ (k : Kernel) (res i j : ℕ) (l₁ l₂ : Links) (h₁ h₂ : ListHead) where
  abbrev described : Kernel
  described = file_described k i (next_file k) res k.running

  abbrev counted : Kernel
  counted = record described {
    pcbs =
        update k.pcbs k.running
          (record (k.pcbs k.running) { last_fd = int_add (next_file k) (pos 1) });
  }

  abbrev pointed : Kernel
  pointed = file_pointed counted j (new_file k i)

  abbrev owned : Kernel
  owned = relinked pointed (descriptors k.running) l₁ h₁

  abbrev joined : Kernel
  joined = record owned {
    descs =
        update owned.descs (new_file k i)
          (record (owned.descs (new_file k i)) { ptr = (new_entry k j) });
  }

  abbrev entered : Kernel
  entered = relinked joined (resource_descriptors res) l₂ h₂

  open-eq :
      (is js : List ℕ)
      → k.running ≢ 0
      → (new_file k i) ≢ 0
      → (new_entry k j) ≢ 0
      → IsValid (k.pools descriptor_pool) (i ∷ is)
      → IsValid (k.pools descriptor_ptr_pool) (j ∷ js)
      → insert_back (descriptors k.running) (new_file k i) pointed ≡ some (new_file k i, owned)
      → insert_back (resource_descriptors res) (new_entry k j) joined
        ≡ some (new_entry k j, entered)
      → open_file res k ≡ some (tt, returned entered k.running (joined.descs (new_file k i)).fd)
  unfolding open_file
  open-eq is js nr nd nx vd vx e₁ e₂ = rw (==-ne k.running 0 nr) (
      rw (descriptor_alloc-first k i (next_file k) res k.running is vd) (
        rw (==-ne (new_file k i) 0 nd, ==-ne k.running 0 nr)
          (rw (descriptor_ptr_alloc-first counted j (new_file k i) js vx nx) (
            rw e₁ (
              rw (==-ne (new_file k i) 0 nd)
                (rw e₂ (rw (==-ne (new_file k i) 0 nd) (rw (==-ne k.running 0 nr) refl))))))))

-- The call asks for the resource `res`, which is there, with its type and without `DSOS_CREATE`, and
-- for no other descriptor on it only if there is none. A block is free in each of the two pools. The
-- process has the descriptors `ds`, and the resource the entries `es`; the new blocks are in no list.
pub record CanOpenFile (k : Kernel) (live : ListRef → Bool) (v : View) (res : ℕ) (ss ds es : List ℕ)
    (i j : ℕ) (is js : List ℕ) : Type 0 where
  pub world : World k live v
  pub live_resources : live resources_list ≡ true
  pub live_files : live (descriptors k.running) ≡ true
  pub live_entries : live (resource_descriptors res) ≡ true
  pub resources : v resources_list ≡ ss
  pub few : length ss ≤ 1024
  pub found : first_such (λ y. (k.resources y).id ==ℤ arg k 0) ss ≡ res
  pub type : ((k.resources res).type ==ℤ arg k 1) ≡ true
  pub no_create : flag_set (arg k 2) dsos_create ≡ false
  pub allowed :
      (flag_set (arg k 2) dsos_excl && not ((k.heads (resource_descriptors res)).size ==ℤ pos 0))
      ≡ false
  pub files : v (descriptors k.running) ≡ ds
  pub entries : v (resource_descriptors res) ≡ es
  pub descs : IsValid (k.pools descriptor_pool) (i ∷ is)
  pub ptrs : IsValid (k.pools descriptor_ptr_pool) (j ∷ js)
  pub file_ne : new_file k i ≢ 0
  pub entry_ne : new_entry k j ≢ 0
  pub file_out : IsOutside live v (new_file k i)
  pub entry_out : IsOutside live v (new_entry k j)
  pub other : new_entry k j ≢ new_file k i
  pub room : (suc (length ds) < 2 ^ 31) × (suc (length es) < 2 ^ 31)

abbrev pub opened_view : Kernel → View → (res : ℕ) (ds es : List ℕ) (i j : ℕ) → View
opened_view k v res ds es i j =
    put (put v (descriptors k.running) (ds ++ new_file k i ∷ [])) (resource_descriptors res)
      (es ++ new_entry k j ∷ [])

pub record OpenedFile (k k' : Kernel) (live : ListRef → Bool) (v : View) (res : ℕ) (ds es : List ℕ)
    (i j : ℕ) (is js : List ℕ) : Type 0 where
  pub world : World k' live (opened_view k v res ds es i j)
  pub value : (k'.pcbs k.running).syscall_retvalue ≡ next_file k
  pub next : (k'.pcbs k.running).last_fd ≡ int_add (next_file k) (pos 1)
  pub number : (k'.descs (new_file k i)).fd ≡ next_file k
  pub resource : (k'.descs (new_file k i)).resource ≡ res
  pub entry : (k'.descs (new_file k i)).ptr ≡ new_entry k j
  pub owner : (k'.descs (new_file k i)).pcb ≡ k.running
  pub pointer : (k'.desc_ptrs (new_entry k j)).descriptor ≡ new_file k i
  pub descs : IsValid (k'.pools descriptor_pool) is
  pub ptrs : IsValid (k'.pools descriptor_ptr_pool) js

internal_open_resource-open_file :
    (k : Kernel) (res : ℕ)
    → k.running ≢ 0
    → res ≢ 0
    → resource_list_by_id resources_list (arg k 0) k ≡ some (res, k)
    → flag_set (arg k 2) dsos_create ≡ false
    → ((k.resources res).type ==ℤ arg k 1) ≡ true
    → (flag_set (arg k 2) dsos_excl && not ((k.heads (resource_descriptors res)).size ==ℤ pos 0))
      ≡ false
    → internal_open_resource k ≡ open_file res k
unfolding internal_open_resource check_file wrong_resource
internal_open_resource-open_file k res nr ns e₀ create type allowed =
    simp (==-ne k.running 0 nr) (
      rw e₀ (rw create (simp (==-ne res 0 ns) (rw type (simp (==-ne res 0 ns) (rw allowed refl))))))

-- `internal_open_resource` without DSOS_CREATE, of a resource that is there and of the type that the
-- call names, and with DSOS_EXCL only of one that nobody has open, with a block free in each of the
-- two pools and in no list, makes a descriptor of the resource and of the process with its next
-- number, the last of its list, and an entry that points to the descriptor, the last of the
-- resource's list, and returns the number; the next number goes up by one. The lists of the kernel
-- are in order and apart, before and after, and no other list changes; their sizes can go up by one as
-- an `int`. One block less is free in each of the two pools.
pub internal_open_resource-OpenedFile :
    (k : Kernel) (live : ListRef → Bool) (v : View) (res : ℕ) (ss ds es : List ℕ) (i j : ℕ)
    (is js : List ℕ)
    → CanOpenFile k live v res ss ds es i j is js
    → (k' : Kernel) × (internal_open_resource k ≡ some (tt, k'))
      × OpenedFile k k' live v res ds es i j is js
unfolding resource_list_by_id
internal_open_resource-OpenedFile k live v res ss ds es i j is js c =
    let r = k.running in
    let d = new_file k i in
    let x = new_entry k j in
    let nr = c.world.owners (descriptors r) c.live_files in
    let ns = c.world.owners (resource_descriptors res) c.live_entries in
    let listed : ListIs k resources_list ss =
      rw c.resources at (c.world.lists resources_list c.live_resources) in
    let found : resource_list_by_id resources_list (arg k 0) k ≡ some (res, k) =
      find_in-first_such k resources_list (λ k' y. (k'.resources y).id ==ℤ arg k 0) ss (omega arith)
        listed c.few
      ∙ ap (λ y. some (y, k)) c.found in
    let k₃ = pointed k res i j k.links k.links (k.heads resources_list) (k.heads resources_list) in
    let w₃ : World k₃ live v =
      World-state (record k { links = k₃.links }) k₃ live v refl refl
        (World-unlink (record k { links = update k.links d (item_of 0 0) }) live v x (item_of 0 0)
          c.entry_out (World-unlink k live v d (item_of 0 0) c.file_out c.world)) in
    let other : d ≢ x = λ e. c.other (sym e) in
    let free : IsFree k₃.links d = record {
      ne_null = c.file_ne;
      unlinked = rw (==-ne d x other, ==-self d) refl;
    } in
    let (l₁, h₁, e₁, w₁, same₁) =
      World-insert_back k₃ live v w₃ (descriptors r) c.live_files d ds c.files free c.file_out
        c.room.0 in
    let v₁ = put v (descriptors r) (ds ++ d ∷ []) in
    let k₅ = joined k res i j l₁ l₁ h₁ h₁ in
    let w₅ = World-state (relinked k₃ (descriptors r) l₁ h₁) k₅ live v₁ refl refl w₁ in
    let x_free : IsFree l₁ x = record {
      ne_null = c.entry_ne;
      unlinked = same₁ x c.other c.entry_out ∙ rw (==-self x) refl;
    } in
    let x_files : has x ds ≡ false = rw c.files at (c.entry_out (descriptors r) c.live_files) in
    let x_out : IsOutside live v₁ x =
      IsOutside-put live v (descriptors r) (ds ++ d ∷ []) x
        (not-has-append x ds (d ∷ []) x_files (not-has-cons x d [] c.other refl)) c.entry_out in
    let (l₂, h₂, e₂, w₂, same₂) =
      World-insert_back k₅ live v₁ w₅ (resource_descriptors res) c.live_entries x es c.entries
        x_free x_out c.room.1 in
    let k₆ = entered k res i j l₁ l₂ h₁ h₂ in
    let k' = returned k₆ r (k₅.descs d).fd in
    let made : Descriptor = record (k.descs d) { fd = next_file k; resource = res; pcb = r } in
    let now : k₅.descs d ≡ record made { ptr = x } =
      update_self (update k.descs d made) d (record (update k.descs d made d) { ptr = x })
      ∙ ap {A = Descriptor} {B = Descriptor} (λ y. record y { ptr = x })
          (update_self k.descs d made) in
    (
      k',
      internal_open_resource-open_file k res nr ns found c.no_create c.type c.allowed
          ∙ open-eq k res i j l₁ l₂ h₁ h₂ is js nr c.file_ne c.entry_ne c.descs c.ptrs e₁ e₂,
      record {
        world = World-state k₆ k' live (opened_view k v res ds es i j) refl refl w₂;
        value = rw (==-self r) (ap (λ y. y.fd) now);
        next = rw (==-self r) refl;
        number = ap (λ y. y.fd) now;
        resource = ap (λ y. y.resource) now;
        entry = ap (λ y. y.ptr) now;
        owner = ap (λ y. y.pcb) now;
        pointer = rw (==-self x) refl;
        descs = taken-IsValid (k.pools descriptor_pool) i is c.descs;
        ptrs = taken-IsValid (k.pools descriptor_ptr_pool) j js c.ptrs;
      },
    )
