-- ===== src/Syscalls/Schedule/Switch.antt =====
-- Switching processes (src/disastrOS_schedule.c), with the ready list as a sequence.
use disastr_os_semaphores.Common.{
  ℕ, ◌≡◌, ◌≢◌, refl, ◌∙◌, true, false, some, List, [], ◌∷◌, ◌++◌, arith, has, has-append, ==-ne,
  ◌==◌,
}
use disastr_os_semaphores.LinkedList.{Links, ListHead}
use disastr_os_semaphores.LinkedList.Seg.{SameOutside}
use disastr_os_semaphores.LinkedList.Insert.{IsFree}
use disastr_os_semaphores.Kernel.{
  Kernel, set_heads, detach_first, insert_back, ListRef, ready_list, ProcessStatus, update,
  same_ref,
}
use disastr_os_semaphores.Kernel.Lists.{ListIs, relinked, detach_first-IsList, insert_back-IsList}
use disastr_os_semaphores.Syscalls.Schedule.{switch_process}

-- A process runs, and it is not in the ready list, which is `ps`.
pub record IsScheduled (k : Kernel) (ps : List ℕ) : Type 0 where
  pub ready : ListIs k ready_list ps
  pub free : IsFree k.links k.running
  pub out : has k.running ps ≡ false

-- What `switch_process` leaves as it was: all but the list of ready processes, the items in it and
-- the state of the two processes.
pub record SameBut (k k' : Kernel) (changed : List ℕ) : Type 0 where
  pub links : SameOutside changed k.links k'.links
  pub heads : (r : ListRef) → same_ref r ready_list ≡ false → k'.heads r ≡ k.heads r
  pub pcbs : (q : ℕ) → q ≢ k.running → q ≢ k'.running → k'.pcbs q ≡ k.pcbs q
  pub time : k'.disastr_os_time ≡ k.disastr_os_time
  pub timers : (p : ℕ) → k'.timers p ≡ k.timers p

abbrev pub Switched : Kernel → (p : ℕ) → (ps : List ℕ) → Kernel → Type 0
Switched k p ps k' =
    (k'.running ≡ p)
    × IsScheduled k' (ps ++ k.running ∷ [])
    × ((k'.pcbs p).status ≡ ProcessStatus.running)
    × ((k'.pcbs k.running).status ≡ ProcessStatus.ready)
    × SameBut k k' (k.running ∷ p ∷ ps)

-- The states that `switch_process` goes through, with what the two list functions leave.
module _ (k : Kernel) (p : ℕ) (l : Links) (h : ListHead) (l' : Links) (h' : ListHead) where
  abbrev stopped : Kernel
  stopped = record k {
    links = l;
    heads = set_heads k.heads ready_list h;
    pcbs = update k.pcbs k.running (record (k.pcbs k.running) { status = ProcessStatus.ready });
  }

  abbrev switched : Kernel
  switched = record k {
    links = l';
    heads = set_heads stopped.heads ready_list h';
    pcbs = update stopped.pcbs p (record (stopped.pcbs p) { status = ProcessStatus.running });
    running = p;
  }

  switch_process-eq :
      (k.heads ready_list).first ≡ p
      → p ≢ 0
      → k.running ≢ 0
      → detach_first ready_list k ≡ some (p, relinked k ready_list l h)
      → insert_back ready_list k.running stopped
        ≡ some (k.running, relinked stopped ready_list l' h')
      → switch_process k ≡ some (tt, switched)
  unfolding switch_process
  switch_process-eq first np nr e e' =
      let some_ready : ((k.heads ready_list).first == 0) ≡ false = rw first (==-ne p 0 np) in
      rw (some_ready, e, ==-ne k.running 0 nr, e', ==-ne p 0 np)

  SameBut-switched :
      (ps : List ℕ)
      → SameOutside (p ∷ ps) k.links l
      → SameOutside (k.running ∷ ps) l l'
      → SameBut k switched (k.running ∷ p ∷ ps)
  SameBut-switched ps same same' = record {
    links = λ a o. same' a (ground arith) ∙ same a (ground arith);
    heads = λ r o. rw o;
    pcbs = λ q nr np. simp (==-ne q p np, ==-ne q k.running nr);
    time = refl;
    timers = λ q. refl;
  }

-- With a process ready, `switch_process` makes the first ready one run, with the status of a running
-- process, and the one that ran the last ready one, with the status of a ready process. Only these
-- two processes, the ready list and the items in it change.
pub switch_process-rotate :
    (k : Kernel) (p : ℕ) (ps : List ℕ)
    → IsScheduled k (p ∷ ps)
    → (k' : Kernel) × (switch_process k ≡ some (tt, k')) × Switched k p ps k'
switch_process-rotate k p ps s =
    let (l, h, e, is, free, same) = detach_first-IsList k ready_list p ps (omega arith) s.ready in
    let r = k.running in
    let free' : IsFree l r = record {
      ne_null = s.free.ne_null;
      unlinked = same r s.out ∙ s.free.unlinked;
    } in
    let (l', h', e', is', same') =
      insert_back-IsList (stopped k p l h l h) ready_list r ps (omega arith) is free'
        (ground (arith, s.out)) (omega (arith, s.ready.small)) in
    let ne : p ≢ r = ground (arith, s.out) in
    let out' : has p (r ∷ ps) ≡ false = ground (arith, s.ready.seg.2) in
    (
      switched k p l h l' h',
      switch_process-eq k p l h l' h' s.ready.first s.ready.seg.0 s.free.ne_null e e',
      (
        refl,
        record {
          ready = is';
          free = record { ne_null = s.ready.seg.0; unlinked = same' p out' ∙ free.unlinked };
          out = ground (arith, has-append p ps (r ∷ []));
        },
        ground arith,
        ground arith,
        SameBut-switched k p l h l' h' ps same same',
      ),
    )

-- With no process ready, `switch_process` changes nothing: the running one goes on.
pub switch_process-alone : (k : Kernel) → IsScheduled k [] → switch_process k ≡ some (tt, k)
unfolding switch_process
switch_process-alone k s =
    let none_ready : ((k.heads ready_list).first == 0) ≡ true = rw s.ready.first refl in
    rw none_ready
