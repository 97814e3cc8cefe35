-- ===== src/Syscalls/SemOpen/Opens.antt =====
-- What opening a semaphore (src/disastrOS_semopen.c, steps 5 and 6) makes of the lists and pools.
use disastr_os_semaphores.Common.{
  ℕ, suc, ℤ, pos, ◌^◌, ◌<◌, ◌≡◌, ◌≢◌, refl, sym, ◌∙◌, false, some, List, [], ◌∷◌, ◌++◌, arith,
  length, has, ==-ne, ==-self, int_add,
}
use disastr_os_semaphores.LinkedList.{Links, ListHead, item_of}
use disastr_os_semaphores.LinkedList.Seg.{IsList, IsList-frame, SameOutside, Disjoint}
use disastr_os_semaphores.LinkedList.Writes.{out_left, out_right}
use disastr_os_semaphores.LinkedList.Insert.{IsFree}
use disastr_os_semaphores.LinkedList.Apart.{
  has_head, has_tail, not-has-cons, Disjoint-sym, Disjoint-cons, Disjoint-append,
  Disjoint-cons_right, Disjoint-nil_left,
}
use disastr_os_semaphores.PoolAllocator.Free.{IsValid}
use disastr_os_semaphores.PoolAllocator.Blocks.{taken-IsValid}
use disastr_os_semaphores.Kernel.{
  Kernel, update, semaphore_pool, sem_descriptor_pool, sem_descriptor_ptr_pool, sem_descriptors,
  semaphore_descriptors, waiting_descriptors, ready_list, waiting_list, semaphores_list,
  insert_back,
}
use disastr_os_semaphores.Kernel.Lists.{ListIs, relinked, insert_back-IsList}
use disastr_os_semaphores.Kernel.Pools.{block_at}
use disastr_os_semaphores.Objects.Sem.Laws.{
  described, sem_descriptor_alloc-first, pointed, sem_descriptor_ptr_alloc-first,
}
use disastr_os_semaphores.Syscalls.SemWait.Laws.{returned}
use disastr_os_semaphores.Syscalls.SemOpen.{open_descriptor}

-- The addresses that the pools of descriptors and of pointers to them hand out next, and the number
-- of the next descriptor.
abbrev pub new_desc : Kernel → ℕ → ℕ
new_desc k i = block_at (k.pools sem_descriptor_pool) i

abbrev pub new_desc_ptr : Kernel → ℕ → ℕ
new_desc_ptr k j = block_at (k.pools sem_descriptor_ptr_pool) j

abbrev pub next_fd : Kernel → ℤ
next_fd k = (k.pcbs k.running).last_sem_fd

-- The running process has the descriptors `ds`, and the semaphore the entries `es`; there is a free
-- block, `i`, for a descriptor and one, `j`, for a pointer, in none of these lists.
pub record CanOpen (k : Kernel) (sem i j : ℕ) (is js ds es : List ℕ) : Type 0 where
  pub running : k.running ≢ 0
  pub sem_ne : sem ≢ 0
  pub list : ListIs k (sem_descriptors k.running) ds
  pub entries : ListIs k (semaphore_descriptors sem) es
  pub descs : IsValid (k.pools sem_descriptor_pool) (i ∷ is)
  pub ptrs : IsValid (k.pools sem_descriptor_ptr_pool) (j ∷ js)
  pub desc_ne : new_desc k i ≢ 0
  pub ptr_ne : new_desc_ptr k j ≢ 0
  pub desc_out : (has (new_desc k i) ds ≡ false) × (has (new_desc k i) es ≡ false)
  pub ptr_out :
      (new_desc_ptr k j ≢ new_desc k i)
      × (has (new_desc_ptr k j) ds ≡ false)
      × (has (new_desc_ptr k j) es ≡ false)
  pub apart : Disjoint ds es
  pub room : (suc (length ds) < 2 ^ 31) × (suc (length es) < 2 ^ 31)

-- The process has one more descriptor, with its next number, which the call returns; it is on the
-- semaphore, which has one more entry, for it. No semaphore changes, nor any queue, nor the ready
-- and the waiting processes.
pub record Opened (k k' : Kernel) (sem i j : ℕ) (is js ds es : List ℕ) : Type 0 where
  pub list : ListIs k' (sem_descriptors k.running) (ds ++ new_desc k i ∷ [])
  pub entries : ListIs k' (semaphore_descriptors sem) (es ++ new_desc_ptr k j ∷ [])
  pub desc :
      k'.sem_descs (new_desc k i)
      ≡ record { pcb = k.running; semaphore = sem; fd = next_fd k; ptr = new_desc_ptr k j }
  pub other_descs : (a : ℕ) → a ≢ new_desc k i → k'.sem_descs a ≡ k.sem_descs a
  pub entry : (k'.sem_desc_ptrs (new_desc_ptr k j)).descriptor ≡ new_desc k i
  pub running : k'.running ≡ k.running
  pub value : (k'.pcbs k.running).syscall_retvalue ≡ next_fd k
  pub next : (k'.pcbs k.running).last_sem_fd ≡ int_add (next_fd k) (pos 1)
  pub semaphores : k'.semaphores ≡ k.semaphores
  pub queues : (s : ℕ) → k'.heads (waiting_descriptors s) ≡ k.heads (waiting_descriptors s)
  pub ready : k'.heads ready_list ≡ k.heads ready_list
  pub waiting : k'.heads waiting_list ≡ k.heads waiting_list
  pub all : k'.heads semaphores_list ≡ k.heads semaphores_list
  pub links : SameOutside (new_desc_ptr k j ∷ new_desc k i ∷ (ds ++ es)) k.links k'.links
  pub sem_pool : k'.pools semaphore_pool ≡ k.pools semaphore_pool
  pub descs : IsValid (k'.pools sem_descriptor_pool) is
  pub ptrs : IsValid (k'.pools sem_descriptor_ptr_pool) js

-- The states of `open_descriptor`: the descriptor is made and put in its list, then the pointer.
module _ (k : Kernel) (sem i j : ℕ) where
  abbrev counted_up : Kernel
  counted_up =
      let b = described k i (next_fd k) sem k.running in
      record b {
        pcbs =
            update k.pcbs k.running
              (record (k.pcbs k.running) { last_sem_fd = int_add (next_fd k) (pos 1) });
      }

  module _ (l : Links) (h : ListHead) where
    abbrev owned : Kernel
    owned = relinked counted_up (sem_descriptors k.running) l h

    abbrev pointed_to : Kernel
    pointed_to =
        let d = new_desc k i in
        let b = pointed owned j d in
        record b {
          sem_descs = update b.sem_descs d (record (b.sem_descs d) { ptr = new_desc_ptr k j });
        }

    abbrev opened : Links → ListHead → Kernel
    opened l' h' =
        returned (relinked pointed_to (semaphore_descriptors sem) l' h') k.running (next_fd k)

    open_descriptor-eq :
        (is js : List ℕ) (l' : Links) (h' : ListHead)
        → k.running ≢ 0
        → new_desc k i ≢ 0
        → new_desc_ptr k j ≢ 0
        → IsValid (k.pools sem_descriptor_pool) (i ∷ is)
        → IsValid (k.pools sem_descriptor_ptr_pool) (j ∷ js)
        → insert_back (sem_descriptors k.running) (new_desc k i) counted_up
          ≡ some (new_desc k i, owned)
        → insert_back (semaphore_descriptors sem) (new_desc_ptr k j) pointed_to
          ≡ some (new_desc_ptr k j, relinked pointed_to (semaphore_descriptors sem) l' h')
        → open_descriptor sem k ≡ some (tt, opened l' h')
    unfolding open_descriptor
    open_descriptor-eq is js l' h' nr nd nq v w e e' =
        let d = new_desc k i in
        simp (==-ne k.running 0 nr) (
          rw (sem_descriptor_alloc-first k i (next_fd k) sem k.running is v nd) (
            simp (==-ne d 0 nd, ==-ne k.running 0 nr)
              (rw e (
                rw (sem_descriptor_ptr_alloc-first owned j d js w nq) (
                  simp (==-ne d 0 nd)
                    (rw e' (simp (==-ne d 0 nd, ==-self d, ==-ne k.running 0 nr))))))))

module _ (k : Kernel) (sem i j : ℕ) (is js ds es : List ℕ) (c : CanOpen k sem i j is js ds es) where
  abbrev d : ℕ
  d = new_desc k i

  abbrev q : ℕ
  q = new_desc_ptr k j

  abbrev start : Kernel
  start = counted_up k sem i j

  links-start : SameOutside (d ∷ []) k.links start.links
  links-start a o = ground (arith, o)

  list-start : ListIs start (sem_descriptors k.running) ds
  list-start =
      IsList-frame (d ∷ []) ds c.list links-start
        (Disjoint-sym (d ∷ []) ds (Disjoint-cons d [] ds c.desc_out.0 (Disjoint-nil_left ds)))

  desc-start : IsFree start.links d
  desc-start = record { ne_null = c.desc_ne; unlinked = rw (==-self d) }

  module _ (l : Links) (same : SameOutside (d ∷ ds) start.links l) where
    abbrev m : Links
    m = update l q (item_of 0 0)

    links-pointed : SameOutside (q ∷ []) l m
    links-pointed a o = ground (arith, o)

    ptr-pointed : IsFree m q
    ptr-pointed = record { ne_null = c.ptr_ne; unlinked = rw (==-self q) }

    entries-pointed : IsList m (k.heads (semaphore_descriptors sem)) es
    entries-pointed =
        IsList-frame (q ∷ []) es
          (IsList-frame (d ∷ ds) es
            (IsList-frame (d ∷ []) es c.entries links-start (
              Disjoint-sym (d ∷ []) es (Disjoint-cons d [] es c.desc_out.1 (Disjoint-nil_left es))))
            same (Disjoint-sym (d ∷ ds) es (Disjoint-cons d ds es c.desc_out.1 c.apart)))
          links-pointed
          (Disjoint-sym (q ∷ []) es (Disjoint-cons q [] es c.ptr_out.2 (Disjoint-nil_left es)))

    module _ (l' : Links) (same' : SameOutside (q ∷ es) m l') where
      IsList-opened : (h : ListHead) → IsList l h (ds ++ d ∷ []) → IsList l' h (ds ++ d ∷ [])
      IsList-opened h is' =
          IsList-frame (q ∷ es) (ds ++ d ∷ [])
            (IsList-frame (q ∷ []) (ds ++ d ∷ []) is' links-pointed (
              Disjoint-append ds (d ∷ []) (q ∷ [])
                (Disjoint-sym (q ∷ []) ds
                  (Disjoint-cons q [] ds c.ptr_out.1 (Disjoint-nil_left ds)))
                (Disjoint-cons d [] (q ∷ []) (not-has-cons d q [] (λ e. c.ptr_out.0 (sym e)) refl)
                  (Disjoint-nil_left (q ∷ [])))))
            same'
            (Disjoint-append ds (d ∷ []) (q ∷ es) (Disjoint-cons_right q ds es c.ptr_out.1 c.apart)
              (Disjoint-cons d [] (q ∷ es)
                (not-has-cons d q es (λ e. c.ptr_out.0 (sym e)) c.desc_out.1)
                (Disjoint-nil_left (q ∷ es))))

      links-opened : SameOutside (q ∷ d ∷ (ds ++ es)) k.links l'
      links-opened a o =
          let o' = has_tail a q (d ∷ (ds ++ es)) o in
          let o'' = has_tail a d (ds ++ es) o' in
          let nq = has_head a q (d ∷ (ds ++ es)) o in
          let nd = has_head a d (ds ++ es) o' in
          same' a (not-has-cons a q es nq (out_right a ds es o''))
          ∙ links-pointed a (not-has-cons a q [] nq refl)
          ∙ same a (not-has-cons a d ds nd (out_left a ds es o''))
          ∙ links-start a (not-has-cons a d [] nd refl)

  -- A process with room for a descriptor opens the semaphore.
  pub open_descriptor-Opened :
      (k' : Kernel) × (open_descriptor sem k ≡ some (tt, k')) × Opened k k' sem i j is js ds es
  open_descriptor-Opened =
      let r = k.running in
      let (l, h, e, list, same) =
        insert_back-IsList start (sem_descriptors r) d ds c.running list-start desc-start
          c.desc_out.0 c.room.0 in
      let (l', h', e', entries, same') =
        insert_back-IsList (pointed_to k sem i j l h) (semaphore_descriptors sem) q es c.sem_ne
          (entries-pointed l same) (ptr-pointed l same) c.ptr_out.2 c.room.1 in
      (
        opened k sem i j l h l' h',
        open_descriptor-eq k sem i j l h is js l' h' c.running c.desc_ne c.ptr_ne c.descs c.ptrs e
            e',
        record {
          list = rw (==-self r) (IsList-opened l same l' same' h list);
          entries = rw (==-self sem) entries;
          desc = simp (==-self d);
          other_descs = λ a ne. simp (==-ne a d ne);
          entry = rw (==-self q);
          running = refl;
          value = simp (==-self r);
          next = simp (==-self r);
          semaphores = refl;
          queues = λ s. refl;
          ready = refl;
          waiting = refl;
          all = refl;
          links = links-opened l same l' same';
          sem_pool = refl;
          descs = taken-IsValid (k.pools sem_descriptor_pool) i is c.descs;
          ptrs = taken-IsValid (k.pools sem_descriptor_ptr_pool) j js c.ptrs;
        },
      )
