-- ===== src/Syscalls/Start/Ready.antt =====
-- The state that `disastrOS_start` (src/disastrOS.c) leaves to the first process.
use disastr_os_semaphores.Common.{
  ℕ, suc, ℤ, pos, ◌≡◌, ◌≢◌, refl, inl, false, some, List, [], ◌∷◌, ==-ne, ==-self, int_add, ◌==◌,
  arith,
}
use disastr_os_semaphores.LinkedList.{Links, list_init}
use disastr_os_semaphores.LinkedList.Seg.{IsList}
use disastr_os_semaphores.PoolAllocator.{PoolAllocator}
use disastr_os_semaphores.PoolAllocator.Free.{IsValid}
use disastr_os_semaphores.PoolAllocator.Blocks.{taken-IsValid}
use disastr_os_semaphores.PoolAllocator.Init.{count_up}
use disastr_os_semaphores.Kernel.{
  Kernel, PoolId, pcb_pool, pcb_ptr_pool, timer_pool, resource_pool, descriptor_pool,
  descriptor_ptr_pool, semaphore_pool, sem_descriptor_pool, sem_descriptor_ptr_pool, pool_number,
  set_heads, update, ready_list, waiting_list, zombie_list, resources_list, semaphores_list,
  timer_list, children, descriptors, ProcessStatus,
}
use disastr_os_semaphores.Kernel.Lists.{ListIs}
use disastr_os_semaphores.Kernel.Pools.{block_at}
use disastr_os_semaphores.Objects.Process.Laws.{born, pcb_alloc-first}
use disastr_os_semaphores.Syscalls.Schedule.Switch.{IsScheduled}
use disastr_os_semaphores.Syscalls.Schedule.Fair.{IsQuiet}
use disastr_os_semaphores.Syscalls.Start.{Layout, disastr_os_start}
use disastr_os_semaphores.Syscalls.Start.Pools.{IsFit, IsFresh, Inits, inits, after_sem_descriptor}

-- One process runs and none is ready; no list has an item; all blocks of all pools are free but the
-- one of the process. The process has the first number, no parent and no child, and what it runs is
-- `f` with the argument `args`.
pub record IsStarted (c : Layout) (f args first_pid : ℤ) (k : Kernel) : Type 0 where
  pub scheduled : IsScheduled k []
  pub quiet : IsQuiet k
  pub running : k.running ≡ c.buffer pcb_pool
  pub init_pcb : k.init_pcb ≡ k.running
  pub waiting : ListIs k waiting_list []
  pub zombies : ListIs k zombie_list []
  pub resources : ListIs k resources_list []
  pub semaphores : ListIs k semaphores_list []
  pub children : ListIs k (children k.running) []
  pub descriptors : ListIs k (descriptors k.running) []
  pub status : (k.pcbs k.running).status ≡ ProcessStatus.running
  pub parent : (k.pcbs k.running).parent ≡ 0
  pub pid : (k.pcbs k.running).pid ≡ first_pid
  pub next_pid : k.last_pid ≡ int_add first_pid (pos 1)
  pub entry : (k.pcbs k.running).entry ≡ f
  pub entry_arg : (k.pcbs k.running).entry_arg ≡ args
  pub processes : IsValid (k.pools pcb_pool) (count_up 1 1023)
  pub pools : (i : PoolId) → (pool_number i == 0) ≡ false → IsFresh c i (k.pools i)

-- The heads of the global lists are set, then the first process is made and runs.
abbrev cleared : Kernel → Kernel
cleared k = record k {
  init_pcb = 0;
  running = 0;
  heads =
      set_heads
        (set_heads
          (set_heads
            (set_heads (set_heads (set_heads k.heads ready_list list_init) waiting_list list_init)
              zombie_list list_init)
            resources_list list_init)
          semaphores_list list_init)
        timer_list list_init;
}

abbrev entered : (f args : ℤ) → ℕ → Kernel → Kernel
entered f args p k = record k {
  running = p;
  init_pcb = p;
  pcbs =
      let pcbs = update k.pcbs p (record (k.pcbs p) { status = ProcessStatus.running }) in
      update pcbs p (record (pcbs p) { entry = f; entry_arg = args });
}

empty-IsList : (l : Links) → IsList l list_init []
unfolding list_init
empty-IsList l = record { first = refl; last = refl; size = refl; small = omega arith; seg = tt }

module _ (c : Layout) (f args : ℤ) (k : Kernel) (a : PoolId → PoolAllocator) where
  abbrev started : Kernel
  started = entered f args (block_at (a pcb_pool) 0) (born (cleared (after_sem_descriptor c k a)) 0)

  disastr_os_start-eq :
      (is : List ℕ)
      → Inits c k a
      → IsValid (a pcb_pool) (0 ∷ is)
      → block_at (a pcb_pool) 0 ≢ 0
      → disastr_os_start c f args k ≡ some (tt, started)
  unfolding disastr_os_start
  disastr_os_start-eq is s v ne =
      rw (s.pcb, s.timer, s.resource, s.descriptor, s.semaphore, s.sem_descriptor)
        (rw (pcb_alloc-first (cleared (after_sem_descriptor c k a)) 0 is v ne)
          (simp (==-ne (block_at (a pcb_pool) 0) 0 ne, ==-self (block_at (a pcb_pool) 0))))

  pools-IsFresh :
      ((i : PoolId) → IsFresh c i (a i))
      → (i : PoolId) → (pool_number i == 0) ≡ false
      → IsFresh c i (started.pools i)
  pools-IsFresh fresh pcb_pool o = cc
  pools-IsFresh fresh pcb_ptr_pool o = fresh pcb_ptr_pool
  pools-IsFresh fresh timer_pool o = fresh timer_pool
  pools-IsFresh fresh resource_pool o = fresh resource_pool
  pools-IsFresh fresh descriptor_pool o = fresh descriptor_pool
  pools-IsFresh fresh descriptor_ptr_pool o = fresh descriptor_ptr_pool
  pools-IsFresh fresh semaphore_pool o = fresh semaphore_pool
  pools-IsFresh fresh sem_descriptor_pool o = fresh sem_descriptor_pool
  pools-IsFresh fresh sem_descriptor_ptr_pool o = fresh sem_descriptor_ptr_pool

count_up-first : (i n : ℕ) → count_up i (suc n) ≡ i ∷ count_up (suc i) n
unfolding count_up
count_up-first i n = refl

-- `disastrOS_start`, with a buffer for each pool that is not at NULL and whose size fits an `int`,
-- succeeds, and the first process runs in an empty system.
pub disastr_os_start-IsStarted :
    (c : Layout) (f args : ℤ) (k : Kernel)
    → IsFit c
    → (k' : Kernel) × (disastr_os_start c f args k ≡ some (tt, k'))
      × IsStarted c f args k.last_pid k'
unfolding list_init
disastr_os_start-IsStarted c f args k fit =
    let (a, fresh, s) = inits c fit k in
    let p = block_at (a pcb_pool) 0 in
    let v : IsValid (a pcb_pool) (0 ∷ count_up 1 1023) =
      rw (count_up-first 0 1023) at (fresh pcb_pool).valid in
    let here : p ≡ c.buffer pcb_pool = omega (arith, (fresh pcb_pool).buffer) in
    let ne : p ≢ 0 = rw here (fit.ne_null pcb_pool) in
    let k' = started c f args k a in
    (
      k',
      disastr_os_start-eq c f args k a (count_up 1 1023) s v ne,
      record {
        scheduled = record {
          ready = empty-IsList k'.links;
          free = record { ne_null = ne; unlinked = rw (==-self p) };
          out = refl;
        };
        quiet = inl refl;
        running = here;
        init_pcb = refl;
        waiting = empty-IsList k'.links;
        zombies = empty-IsList k'.links;
        resources = empty-IsList k'.links;
        semaphores = empty-IsList k'.links;
        children = rw (==-self p) (empty-IsList k'.links);
        descriptors = rw (==-self p) (empty-IsList k'.links);
        status = simp (==-self p);
        parent = simp (==-self p);
        pid = simp (==-self p);
        next_pid = refl;
        entry = simp (==-self p);
        entry_arg = simp (==-self p);
        processes = taken-IsValid (a pcb_pool) 0 (count_up 1 1023) v;
        pools = pools-IsFresh c f args k a fresh;
      },
    )
