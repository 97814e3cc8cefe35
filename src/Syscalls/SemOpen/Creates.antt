-- ===== src/Syscalls/SemOpen/Creates.antt =====
-- `internal_semOpen` (src/disastrOS_semopen.c) when it makes a new semaphore.
use disastr_os_semaphores.Common.{
  ℕ, suc, ℤ, pos, ◌^◌, ◌<◌, ◌≤◌, ◌≡◌, ◌≢◌, refl, sym, ◌∙◌, ap, inr, true, false, some, List, [],
  ◌∷◌, ◌++◌, arith, length, has, has-append, ==-ne, ==-self, ◌==ℤ◌, flag_set, int_add,
}
use disastr_os_semaphores.LinkedList.{Links, ListHead, list_init}
use disastr_os_semaphores.LinkedList.Seg.{IsList, IsList-frame, SameOutside, Disjoint}
use disastr_os_semaphores.LinkedList.Insert.{IsFree}
use disastr_os_semaphores.LinkedList.Apart.{
  not-has-cons, Disjoint-sym, Disjoint-cons, Disjoint-append, Disjoint-cons_right,
  Disjoint-nil_left, Disjoint-nil,
}
use disastr_os_semaphores.PoolAllocator.Free.{IsValid}
use disastr_os_semaphores.PoolAllocator.Blocks.{taken-IsValid}
use disastr_os_semaphores.Kernel.{
  Kernel, semaphore_pool, sem_descriptor_pool, sem_descriptor_ptr_pool, sem_descriptors,
  semaphore_descriptors, semaphores_list, waiting_descriptors, ready_list, waiting_list,
  dsos_create,
}
use disastr_os_semaphores.Kernel.Lists.{ListIs, relinked, insert_back-IsList, first_such}
use disastr_os_semaphores.Kernel.Pools.{block_at}
use disastr_os_semaphores.Objects.Sem.Laws.{made, semaphore_alloc-first}
use disastr_os_semaphores.Syscalls.SemOpen.{internal_sem_open}
use disastr_os_semaphores.Syscalls.SemOpen.Refuses.{arg, semaphore_list_by_id-first}
use disastr_os_semaphores.Syscalls.SemOpen.Opens.{CanOpen, Opened, new_desc, new_desc_ptr, next_fd}
use disastr_os_semaphores.Syscalls.SemOpen.Checks.{check_and_open-Opened}

-- The address that the pool of semaphores hands out next.
abbrev pub new_sem : Kernel → ℕ → ℕ
new_sem k m = block_at (k.pools semaphore_pool) m

-- The semaphores are `ss`, none of which has the number `id`; the running process has the descriptors
-- `ds`; each of the three pools has a free block, which is in none of these lists.
pub record CanCreate (k : Kernel) (id : ℤ) (m i j : ℕ) (ms is js ss ds : List ℕ) : Type 0 where
  pub running : k.running ≢ 0
  pub semaphores : ListIs k semaphores_list ss
  pub few : length ss ≤ 1024
  pub missing : first_such (λ s. (k.semaphores s).id ==ℤ id) ss ≡ 0
  pub list : ListIs k (sem_descriptors k.running) ds
  pub sems : IsValid (k.pools semaphore_pool) (m ∷ ms)
  pub descs : IsValid (k.pools sem_descriptor_pool) (i ∷ is)
  pub ptrs : IsValid (k.pools sem_descriptor_ptr_pool) (j ∷ js)
  pub sem_ne : new_sem k m ≢ 0
  pub desc_ne : new_desc k i ≢ 0
  pub ptr_ne : new_desc_ptr k j ≢ 0
  pub sem_out : (has (new_sem k m) ss ≡ false) × (has (new_sem k m) ds ≡ false)
  pub desc_out :
      (new_desc k i ≢ new_sem k m)
      × (has (new_desc k i) ss ≡ false)
      × (has (new_desc k i) ds ≡ false)
  pub ptr_out :
      (new_desc_ptr k j ≢ new_sem k m)
      × (new_desc_ptr k j ≢ new_desc k i)
      × (has (new_desc_ptr k j) ss ≡ false)
      × (has (new_desc_ptr k j) ds ≡ false)
  pub apart : Disjoint ds ss
  pub room : suc (length ds) < 2 ^ 31

-- The new semaphore, with its number and count, is the last in the list; nobody waits on it. The
-- running process has one more descriptor, with its next number, which the call returns; it is on
-- the new semaphore, whose one entry is for it. No other semaphore or descriptor changes, nor do the
-- ready and the waiting processes.
pub record Created (k k' : Kernel) (id count : ℤ) (m i j : ℕ) (ms is js ss ds : List ℕ)
    : Type 0 where
  pub semaphores : ListIs k' semaphores_list (ss ++ new_sem k m ∷ [])
  pub sem : k'.semaphores (new_sem k m) ≡ record { id = id; count = count }
  pub other_sems : (a : ℕ) → a ≢ new_sem k m → k'.semaphores a ≡ k.semaphores a
  pub queue : ListIs k' (waiting_descriptors (new_sem k m)) []
  pub list : ListIs k' (sem_descriptors k.running) (ds ++ new_desc k i ∷ [])
  pub entries : ListIs k' (semaphore_descriptors (new_sem k m)) (new_desc_ptr k j ∷ [])
  pub desc :
      k'.sem_descs (new_desc k i)
      ≡ record { pcb = k.running; semaphore = new_sem k m; fd = next_fd k; ptr = new_desc_ptr k j }
  pub other_descs : (a : ℕ) → a ≢ new_desc k i → k'.sem_descs a ≡ k.sem_descs a
  pub entry : (k'.sem_desc_ptrs (new_desc_ptr k j)).descriptor ≡ new_desc k i
  pub running : k'.running ≡ k.running
  pub value : (k'.pcbs k.running).syscall_retvalue ≡ next_fd k
  pub next : (k'.pcbs k.running).last_sem_fd ≡ int_add (next_fd k) (pos 1)
  pub ready : k'.heads ready_list ≡ k.heads ready_list
  pub waiting : k'.heads waiting_list ≡ k.heads waiting_list
  pub sems : IsValid (k'.pools semaphore_pool) ms
  pub descs : IsValid (k'.pools sem_descriptor_pool) is
  pub ptrs : IsValid (k'.pools sem_descriptor_ptr_pool) js

module _ (k : Kernel) (id count : ℤ) (m i j : ℕ) (ms is js ss ds : List ℕ)
    (c : CanCreate k id m i j ms is js ss ds) where
  abbrev s : ℕ
  s = new_sem k m

  abbrev d : ℕ
  d = new_desc k i

  abbrev q : ℕ
  q = new_desc_ptr k j

  abbrev start : Kernel
  start = made k m id count

  links-start : SameOutside (s ∷ []) k.links start.links
  links-start a o = ground (arith, o)

  sem-start : IsFree start.links s
  sem-start = record { ne_null = c.sem_ne; unlinked = rw (==-self s) }

  semaphores-start : ListIs start semaphores_list ss
  semaphores-start =
      IsList-frame (s ∷ []) ss c.semaphores links-start
        (Disjoint-sym (s ∷ []) ss (Disjoint-cons s [] ss c.sem_out.0 (Disjoint-nil_left ss)))

  none-waits : (l : Links) → IsList l list_init []
  unfolding list_init
  none-waits l = record { first = refl; last = refl; size = refl; small = omega arith; seg = tt }

  module _ (l : Links) (h : ListHead) (same : SameOutside (s ∷ ss) start.links l) where
    abbrev new_listed : Kernel
    new_listed = relinked start semaphores_list l h

    can_open : CanOpen new_listed s i j is js ds []
    can_open = record {
      running = c.running;
      sem_ne = c.sem_ne;
      list =
          IsList-frame (s ∷ ss) ds
            (IsList-frame (s ∷ []) ds c.list links-start
              (Disjoint-sym (s ∷ []) ds (Disjoint-cons s [] ds c.sem_out.1 (Disjoint-nil_left ds))))
            same (Disjoint-cons_right s ds ss c.sem_out.1 c.apart);
      entries = rw (==-self s) (none-waits l);
      descs = c.descs;
      ptrs = c.ptrs;
      desc_ne = c.desc_ne;
      ptr_ne = c.ptr_ne;
      desc_out = (c.desc_out.2, refl);
      ptr_out = (c.ptr_out.1, c.ptr_out.3, refl);
      apart = Disjoint-nil ds;
      room = (c.room, omega arith);
    }

    -- The items that the opening writes are none of the list of semaphores.
    semaphores-apart : Disjoint (ss ++ s ∷ []) (q ∷ d ∷ (ds ++ []))
    semaphores-apart =
        let ds' : Disjoint (ds ++ []) ss =
          Disjoint-append ds [] ss c.apart (Disjoint-nil_left ss) in
        let out : has s (ds ++ []) ≡ false = rw (has-append s ds []) (rw c.sem_out.1 refl) in
        Disjoint-append ss (s ∷ []) (q ∷ d ∷ (ds ++ []))
          (Disjoint-sym (q ∷ d ∷ (ds ++ [])) ss (
            Disjoint-cons q (d ∷ (ds ++ [])) ss c.ptr_out.2
              (Disjoint-cons d (ds ++ []) ss c.desc_out.1 ds')))
          (Disjoint-cons s [] (q ∷ d ∷ (ds ++ []))
            (not-has-cons s q (d ∷ (ds ++ [])) (λ e. c.ptr_out.0 (sym e))
              (not-has-cons s d (ds ++ []) (λ e. c.desc_out.0 (sym e)) out))
            (Disjoint-nil_left (q ∷ d ∷ (ds ++ []))))

    module _ (k' : Kernel) (o : Opened new_listed k' s i j is js ds [])
        (is' : IsList l h (ss ++ s ∷ [])) where
      created : Created k k' id count m i j ms is js ss ds
      created = record {
        semaphores =
            rw o.all
              (IsList-frame (q ∷ d ∷ (ds ++ [])) (ss ++ s ∷ []) is' o.links semaphores-apart);
        sem = ap (λ f. f s) o.semaphores ∙ rw (==-self s);
        other_sems = λ a ne. ap (λ f. f a) o.semaphores ∙ rw (==-ne a s ne);
        queue = rw (o.queues s, ==-self s) (none-waits k'.links);
        list = o.list;
        entries = o.entries;
        desc = o.desc;
        other_descs = o.other_descs;
        entry = o.entry;
        running = o.running;
        value = o.value;
        next = o.next;
        ready = o.ready;
        waiting = o.waiting;
        sems = rw o.sem_pool (taken-IsValid (k.pools semaphore_pool) m ms c.sems);
        descs = o.descs;
        ptrs = o.ptrs;
      }

  -- `internal_semOpen` with `DSOS_CREATE` and a number that no semaphore has, with a block free in
  -- each of the three pools, makes the semaphore with the given count, on which nobody waits, and
  -- opens it for the running process: its descriptor has the next number, which the call returns.
  -- The lists are in order and share no address, and the three blocks are in none of them.
  pub internal_sem_open-Created :
      arg k 0 ≡ id
      → flag_set (arg k 1) dsos_create ≡ true
      → arg k 2 ≡ count
      → (k' : Kernel) × (internal_sem_open k ≡ some (tt, k'))
        × Created k k' id count m i j ms is js ss ds
  unfolding internal_sem_open
  internal_sem_open-Created e0 create e2 =
      let (l, h, e, is', same) =
        insert_back-IsList start semaphores_list s ss (omega arith) semaphores-start sem-start
          c.sem_out.0 (omega (arith, c.few)) in
      let (k', e', o) =
        check_and_open-Opened (new_listed l h same) (arg k 1) s i j is js ds [] (can_open l h same)
          (inr refl) in
      (
        k',
        simp (==-ne k.running 0 c.running) (
            rw (e0, e2)
              (rw (semaphore_list_by_id-first k ss id c.semaphores c.few, c.missing, create)
                (rw (semaphore_alloc-first k m id count ms c.sems c.sem_ne) (rw e e')))),
        created l h same k' o is',
      )
