-- ===== src/Syscalls/SemClose/Closes.antt =====
-- What `internal_semClose` (src/disastrOS_semclose.c) does to the lists and pools.
use disastr_os_semaphores.Common.{
  ℕ, pos, ◌<◌, ◌≡◌, ◌≢◌, refl, false, some, List, [], ◌∷◌, ◌++◌, arith, has, ==-ne, ==-self, ◌==ℤ◌,
}
use disastr_os_semaphores.LinkedList.{Links, ListHead}
use disastr_os_semaphores.LinkedList.Seg.{IsList-frame, SameOutside, Disjoint, Seg-right}
use disastr_os_semaphores.LinkedList.Apart.{Disjoint-sym, Disjoint-without}
use disastr_os_semaphores.PoolAllocator.{PoolAllocator, success, release_block}
use disastr_os_semaphores.PoolAllocator.Free.{IsValid}
use disastr_os_semaphores.PoolAllocator.Blocks.{release_block-IsValid}
use disastr_os_semaphores.Kernel.{
  Kernel, PoolId, ListRef, same_ref, ready_list, waiting_list, set_pool, sem_descriptor_pool,
  sem_descriptor_ptr_pool, sem_descriptors, semaphore_descriptors, waiting_descriptors,
  semaphores_list, detach_at, release,
}
use disastr_os_semaphores.Kernel.Lists.{ListIs, relinked, detach_at-IsList}
use disastr_os_semaphores.Kernel.Pools.{block_at}
use disastr_os_semaphores.Objects.Sem.{sem_descriptor_free, sem_descriptor_ptr_free}
use disastr_os_semaphores.Objects.Sem.Laws.{HasOpen, sem_descriptor_list_by_fd-first}
use disastr_os_semaphores.Syscalls.SemClose.{internal_sem_close, drop_unused}
use disastr_os_semaphores.Syscalls.SemWait.Laws.{returned, fd_arg}

-- The semaphores that are left when `s`, between `ss` and `ts`, has the descriptors `es`.
abbrev pub kept : (es : List ℕ) → (s : ℕ) → (ss ts : List ℕ) → List ℕ
kept [] s ss ts = ss ++ ts
kept (e ∷ es) s ss ts = ss ++ s ∷ ts

-- What dropping a semaphore leaves as it was: all but the list of semaphores.
record Dropped (k k' : Kernel) (ss : List ℕ) : Type 0 where
  links : SameOutside ss k.links k'.links
  heads : (r : ListRef) → same_ref r semaphores_list ≡ false → k'.heads r ≡ k.heads r
  pools : (i : PoolId) → k'.pools i ≡ k.pools i
  running : k'.running ≡ k.running
  semaphores : k'.semaphores ≡ k.semaphores

drop_unused-Dropped :
    (k : Kernel) (s : ℕ) (es ss ts : List ℕ)
    → s ≢ 0
    → ListIs k (semaphore_descriptors s) es
    → ListIs k semaphores_list (ss ++ s ∷ ts)
    → (k' : Kernel) × (drop_unused s k ≡ some (tt, k'))
      × ListIs k' semaphores_list (kept es s ss ts)
      × Dropped k k' (ss ++ s ∷ ts)
unfolding drop_unused
drop_unused-Dropped k s [] ss ts ns is all =
    let (l, h, e, is', free, same) = detach_at-IsList k semaphores_list s ss ts all in
    (
      relinked k semaphores_list l h,
      simp (==-ne s 0 ns, is.size) (rw e refl),
      is',
      record {
        links = same;
        heads = λ r o. rw o refl;
        pools = λ i. refl;
        running = refl;
        semaphores = refl;
      },
    )
drop_unused-Dropped k s (x ∷ es) ss ts ns is all =
    let some_left : ((k.heads (semaphore_descriptors s)).size ==ℤ pos 0) ≡ false =
      rw is.size (ground arith) in
    (
      k,
      simp (==-ne s 0 ns, some_left),
      all,
      record {
        links = λ a o. refl;
        heads = λ r o. refl;
        pools = λ i. refl;
        running = refl;
        semaphores = refl;
      },
    )

-- The number in the call is that of the descriptor `d`, on the semaphore `s`, whose entry for it is
-- `q`; both are blocks that their pools have handed out. The three lists share no address.
pub record CanClose (k : Kernel) (d s q i j : ℕ) (is js us vs as' bs ss ts : List ℕ) : Type 0 where
  pub opened : HasOpen k (us ++ d ∷ vs) d s
  pub entry : (k.sem_descs d).ptr ≡ q
  pub entries : ListIs k (semaphore_descriptors s) (as' ++ q ∷ bs)
  pub all : ListIs k semaphores_list (ss ++ s ∷ ts)
  pub descs : IsValid (k.pools sem_descriptor_pool) is
  pub ptrs : IsValid (k.pools sem_descriptor_ptr_pool) js
  pub desc_block : d ≡ block_at (k.pools sem_descriptor_pool) i
  pub ptr_block : q ≡ block_at (k.pools sem_descriptor_ptr_pool) j
  pub desc_held : (i < (k.pools sem_descriptor_pool).size_max) × (has i is ≡ false)
  pub ptr_held : (j < (k.pools sem_descriptor_ptr_pool).size_max) × (has j js ≡ false)
  pub list_entries : Disjoint (us ++ d ∷ vs) (as' ++ q ∷ bs)
  pub list_all : Disjoint (us ++ d ∷ vs) (ss ++ s ∷ ts)
  pub entries_all : Disjoint (as' ++ q ∷ bs) (ss ++ s ∷ ts)

-- The descriptor and the entry are gone and their blocks are free; the semaphore is gone from the list
-- if that was its last entry. No semaphore, queue or process list changes, and the call returns 0.
pub record Closed (k k' : Kernel) (s i j : ℕ) (is js us vs as' bs ss ts : List ℕ) : Type 0 where
  pub list : ListIs k' (sem_descriptors k.running) (us ++ vs)
  pub entries : ListIs k' (semaphore_descriptors s) (as' ++ bs)
  pub all : ListIs k' semaphores_list (kept (as' ++ bs) s ss ts)
  pub descs : IsValid (k'.pools sem_descriptor_pool) (i ∷ is)
  pub ptrs : IsValid (k'.pools sem_descriptor_ptr_pool) (j ∷ js)
  pub semaphores : k'.semaphores ≡ k.semaphores
  pub queues : (x : ℕ) → k'.heads (waiting_descriptors x) ≡ k.heads (waiting_descriptors x)
  pub ready : k'.heads ready_list ≡ k.heads ready_list
  pub waiting : k'.heads waiting_list ≡ k.heads waiting_list
  pub running : k'.running ≡ k.running
  pub value : (k'.pcbs k.running).syscall_retvalue ≡ pos 0

-- The states before and after `drop_unused`.
module _ (k : Kernel) (d s q : ℕ) (l₁ l₂ : Links) (h₁ h₂ : ListHead) where
  abbrev unlisted : Kernel
  unlisted = relinked k (sem_descriptors k.running) l₁ h₁

  abbrev unentered : Kernel
  unentered = relinked unlisted (semaphore_descriptors s) l₂ h₂

  module _ (k₃ : Kernel) (a b : PoolAllocator) where
    abbrev closed : Kernel
    closed =
        returned
          (record k₃ {
            pools = set_pool (set_pool k₃.pools sem_descriptor_pool a) sem_descriptor_ptr_pool b;
          })
          k.running (pos 0)

    internal_sem_close-eq :
        (ds : List ℕ)
        → HasOpen k ds d s
        → q ≢ 0
        → (k.sem_descs d).ptr ≡ q
        → detach_at (sem_descriptors k.running) d k ≡ some (d, unlisted)
        → detach_at (semaphore_descriptors s) q unlisted ≡ some (q, unentered)
        → drop_unused s unentered ≡ some (tt, k₃)
        → k₃.running ≡ k.running
        → release_block (k₃.pools sem_descriptor_pool) d ≡ some (success, a)
        → release_block (k₃.pools sem_descriptor_ptr_pool) q ≡ some (success, b)
        → internal_sem_close k ≡ some (tt, closed)
    unfolding internal_sem_close sem_descriptor_free sem_descriptor_ptr_free release
    internal_sem_close-eq ds o nq ptr e₁ e₂ e₃ run ea eb = simp (==-ne k.running 0 o.running) (
        rw
          (
            sem_descriptor_list_by_fd-first k ds k.running (fd_arg k) o.running o.list o.few,
            o.first,
          )
          (simp (==-ne d 0 o.desc) (
            rw e₁ (
              simp (==-ne d 0 o.desc) (
                rw (o.semaphore, ptr)
                  (rw e₂ (
                    simp (==-ne q 0 nq)
                      (rw e₃ (rw ea (rw eb (simp (run, ==-ne k.running 0 o.running))))))))))))

-- `internal_semClose` on a number that a descriptor of the process has takes the descriptor out of the
-- list of the process and its entry out of that of the semaphore, takes the semaphore off the list if
-- no entry is left, gives both blocks back, and returns 0. The three lists are in order and apart,
-- and the two blocks are handed out.
pub internal_sem_close-Closed :
    (k : Kernel) (d s q i j : ℕ) (is js us vs as' bs ss ts : List ℕ)
    → CanClose k d s q i j is js us vs as' bs ss ts
    → (k' : Kernel) × (internal_sem_close k ≡ some (tt, k'))
      × Closed k k' s i j is js us vs as' bs ss ts
internal_sem_close-Closed k d s q i j is js us vs as' bs ss ts c =
    let r = k.running in
    let ds = us ++ d ∷ vs in
    let es = as' ++ q ∷ bs in
    let all = ss ++ s ∷ ts in
    let (l₁, h₁, e₁, is₁, free₁, same₁) =
      detach_at-IsList k (sem_descriptors r) d us vs c.opened.list in
    let (l₂, h₂, e₂, is₂, free₂, same₂) =
      detach_at-IsList (unlisted k d s q l₁ l₁ h₁ h₁) (semaphore_descriptors s) q as' bs
        (IsList-frame ds es c.entries same₁ (Disjoint-sym ds es c.list_entries)) in
    let k₂ = unentered k d s q l₁ l₂ h₁ h₂ in
    let (k₃, e₃, all', dr) =
      drop_unused-Dropped k₂ s (as' ++ bs) ss ts c.opened.sem_ne (rw (==-self s) is₂) (
        IsList-frame es all (IsList-frame ds all c.all same₁ (Disjoint-sym ds all c.list_all)) same₂
          (Disjoint-sym es all c.entries_all)) in
    let (a, ea, va, buffer_a, item_a, max_a) =
      release_block-IsValid (k.pools sem_descriptor_pool) i is c.descs c.desc_held.0
        c.desc_held.1 in
    let (b, eb, vb, buffer_b, item_b, max_b) =
      release_block-IsValid (k.pools sem_descriptor_ptr_pool) j js c.ptrs c.ptr_held.0
        c.ptr_held.1 in
    (
      closed k d s q l₁ l₂ h₁ h₂ k₃ a b,
      internal_sem_close-eq k d s q l₁ l₂ h₁ h₂ k₃ a b ds c.opened
          (Seg-right k.links 0 0 as' (q ∷ bs) c.entries.seg).0 c.entry e₁ e₂ e₃ dr.running
          (rw (dr.pools sem_descriptor_pool, c.desc_block) ea)
          (rw (dr.pools sem_descriptor_ptr_pool, c.ptr_block) eb),
      record {
        list =
            rw (dr.heads (sem_descriptors r) refl, ==-self r)
              (IsList-frame all (us ++ vs)
                (IsList-frame es (us ++ vs) is₁ same₂ (Disjoint-without us d vs es c.list_entries))
                dr.links (Disjoint-without us d vs all c.list_all));
        entries =
            rw (dr.heads (semaphore_descriptors s) refl, ==-self s)
              (IsList-frame all (as' ++ bs) is₂ dr.links
                (Disjoint-without as' q bs all c.entries_all));
        all = all';
        descs = va;
        ptrs = vb;
        semaphores = dr.semaphores;
        queues = λ x. dr.heads (waiting_descriptors x) refl;
        ready = dr.heads ready_list refl;
        waiting = dr.heads waiting_list refl;
        running = dr.running;
        value = rw (==-self r) refl;
      },
    )
