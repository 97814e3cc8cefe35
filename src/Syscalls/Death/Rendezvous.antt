-- ===== src/Syscalls/Death/Rendezvous.antt =====
-- A process that waits and its child that exits: src/disastrOS_wait.c and disastrOS_exit.c together.
use disastr_os_semaphores.Common.{
  ℕ, suc, ℤ, pos, ◌+◌, ◌^◌, ◌<◌, ◌≤◌, ◌≡◌, ◌≢◌, refl, sym, ◌∙◌, ap, Bool, Bool-cases, inl, inr,
  true, false, ◌||◌, some, List, [], ◌∷◌, ◌++◌, length, has, ==-ne, ==-self, ◌==ℤ◌, to_int,
}
use disastr_os_semaphores.LinkedList.{Links, ListHead}
use disastr_os_semaphores.LinkedList.Apart.{has_head}
use disastr_os_semaphores.PoolAllocator.Free.{IsValid}
use disastr_os_semaphores.Kernel.{
  Kernel, Pcb, ListRef, update, update_self, update_keeps, same_ref, zombie_list, waiting_list,
  ready_list, children, descriptors, timer_list, pcb_pool, ProcessStatus, dsos_call_wait,
}
use disastr_os_semaphores.Kernel.Lists.{first_such, first_such-same}
use disastr_os_semaphores.Kernel.Pools.{block_at}
use disastr_os_semaphores.Kernel.World.{World, World-state, World-view}
use disastr_os_semaphores.Kernel.View.{View, put, same_ref-eq}
use mathlib.Core.List.{append-nil}
use disastr_os_semaphores.LinkedList.Insert.{IsFree}
use disastr_os_semaphores.Syscalls.Death.{internal_wait, internal_exit, is_zombie, awaits}
use disastr_os_semaphores.Syscalls.Death.Scan.{IsScanned, result_arg}
use disastr_os_semaphores.Syscalls.Death.Waits.{
  CanYield, Yielded, yielding, yielded_view, internal_wait-Yielded,
}
use disastr_os_semaphores.Syscalls.Death.Reaps.{written}
use disastr_os_semaphores.Syscalls.Death.Reparent.{adopted_view}
use disastr_os_semaphores.Syscalls.Death.Reports.{CanReport, reported_view, internal_exit-Reported}

-- The process at `q` has made a call with the arguments `a`.
abbrev pub called : Kernel → (q : ℕ) → (a : ℕ → ℤ) → Kernel
called k q a = record k { pcbs = update k.pcbs q (record (k.pcbs q) { syscall_args = a }) }

-- The running process calls `wait` for any child or for its child `q`, which is the first ready
-- process; the child at which the scan stops, `p`, has not terminated. The child `q` has the entry `s`
-- with the parent, the children `gs`, no timer and no open resource; its PCB is block `i`. The first
-- process has the children `ds`.
pub record CanMeet (k : Kernel) (live : ListRef → Bool) (v : View) (e p q s : ℕ)
    (os ps rs gs ds zs us vs ts is : List ℕ) (i : ℕ) : Type 0 where
  pub yields : CanYield k live v q ps rs
  pub scanned : IsScanned k e p os
  pub some_child : p ≢ 0
  pub alive : is_zombie (k.pcbs p).status ≡ false
  pub call : (k.pcbs k.running).syscall_num ≡ pos dsos_call_wait
  pub target :
      (((k.pcbs k.running).syscall_args 0 ==ℤ pos 0)
        || ((k.pcbs k.running).syscall_args 0 ==ℤ (k.pcbs q).pid))
      ≡ true
  pub parent : (k.pcbs q).parent ≡ k.running
  pub live_own : live (children q) ≡ true
  pub live_init : live (children k.init_pcb) ≡ true
  pub other : same_ref (children k.init_pcb) (children q) ≡ false
  pub own : v (children q) ≡ gs
  pub before : v (children k.init_pcb) ≡ ds
  pub processes : (x : ℕ) → has x gs ≡ true → (k.pcb_ptrs x).pcb ≢ 0
  pub room : length gs + length ds < 2 ^ 31
  pub few : length gs ≤ 1024
  pub live_zombies : live zombie_list ≡ true
  pub zombies : v zombie_list ≡ zs
  pub zombie_room : suc (length zs) < 2 ^ 31
  pub live_siblings : live (children k.running) ≡ true
  pub siblings : adopted_view v q k.init_pcb gs ds (children k.running) ≡ us ++ s ∷ vs
  pub few_siblings : length (us ++ s ∷ vs) ≤ 1024
  pub entry :
      first_such (λ x. (k.pcbs (k.pcb_ptrs x).pcb).pid ==ℤ (k.pcbs q).pid) (us ++ s ∷ vs) ≡ s
  pub live_timers : live timer_list ≡ true
  pub timers : v timer_list ≡ ts
  pub few_timers : length ts ≤ 1024
  pub other_timers : (t : ℕ) → has t ts ≡ true → (k.timers t).pcb ≢ q
  pub live_files : live (descriptors q) ≡ true
  pub no_files : v (descriptors q) ≡ []
  pub pcbs : IsValid (k.pools pcb_pool) is
  pub block : q ≡ block_at (k.pools pcb_pool) i
  pub held : (i < (k.pools pcb_pool).size_max) × (has i is ≡ false)

-- The process runs again, in no list, with the number of the child as the result of its call; the
-- first argument of the child's call is where the process asked for it. The child is in no list, and
-- its block is free.
pub record Met (k k' : Kernel) (live : ListRef → Bool) (v : View) (q : ℕ) (a : ℕ → ℤ)
    (rs gs ds us vs is : List ℕ) (i : ℕ) : Type 0 where
  pub world :
      World k' live (
        put (adopted_view (put v ready_list rs) q k.init_pcb gs ds) (children k.running) (us ++ vs))
  pub running : k'.running ≡ k.running
  pub status : (k'.pcbs k.running).status ≡ ProcessStatus.running
  pub value : (k'.pcbs k.running).syscall_retvalue ≡ (k.pcbs q).pid
  pub memory : k'.user_memory ≡ written k.user_memory (result_arg k) (to_int (a 0))
  pub pcbs : IsValid (k'.pools pcb_pool) (i ∷ is)
  pub free : IsFree k'.links k.running

module _ (k : Kernel) (live : ListRef → Bool) (v : View) (e p q s : ℕ)
    (os ps rs gs ds zs us vs ts is : List ℕ) (i : ℕ) (a : ℕ → ℤ)
    (c : CanMeet k live v e p q s os ps rs gs ds zs us vs ts is i) where
  module _ (l : Links) (h : ListRef → ListHead) where
    abbrev asleep : Kernel
    asleep = yielding k q l h

    abbrev exits : Kernel
    exits = called asleep q a

    same_pid : (p : ℕ) → (exits.pcbs p).pid ≡ (k.pcbs p).pid
    same_pid p =
        update_keeps (λ x. x.pid) asleep.pcbs q (record (asleep.pcbs q) { syscall_args = a }) p refl
        ∙ update_keeps (λ x. x.pid) k.pcbs k.running
            (record (k.pcbs k.running) { status = ProcessStatus.waiting }) p refl

    parent_asleep :
        k.running ≢ q
        → exits.pcbs k.running ≡ record (k.pcbs k.running) { status = ProcessStatus.waiting }
    parent_asleep nq = rw (==-ne k.running q nq, ==-self k.running) refl

    parent-awaits : k.running ≢ q → awaits (exits.pcbs k.running) (exits.pcbs q).pid ≡ true
    parent-awaits nq =
        ap (λ x. awaits x (exits.pcbs q).pid) (parent_asleep nq)
        ∙ ap (awaits (record (k.pcbs k.running) { status = ProcessStatus.waiting })) (same_pid q)
        ∙ rw (c.call, c.target) refl

    entry-same :
        first_such (λ x. (exits.pcbs (k.pcb_ptrs x).pcb).pid ==ℤ (exits.pcbs q).pid) (us ++ s ∷ vs)
        ≡ s
    entry-same =
        first_such-same (λ x. (exits.pcbs (k.pcb_ptrs x).pcb).pid ==ℤ (exits.pcbs q).pid)
          (λ x. (k.pcbs (k.pcb_ptrs x).pcb).pid ==ℤ (k.pcbs q).pid) (us ++ s ∷ vs)
          (λ x.
            ap (λ y. y ==ℤ (exits.pcbs q).pid) (same_pid (k.pcb_ptrs x).pcb)
            ∙ ap (λ y. (k.pcbs (k.pcb_ptrs x).pcb).pid ==ℤ y) (same_pid q))
        ∙ c.entry

  -- The state in which the child calls `exit`.
  CanReport-called :
      (l : Links) (h : ListRef → ListHead)
      → q ≢ k.running
      → Yielded k (yielding k q l h) live v q ps rs
      → CanReport
          (called (yielding k q l h) q a)
          live
          (yielded_view k v ps rs)
          k.running
          s
          gs
          ds
          zs
          ps
          []
          us
          vs
          ts
          is
          i
  CanReport-called l h nq y = record {
    exits = record {
      adopts = record {
        world =
            World-state (yielding k q l h) (called (yielding k q l h) q a) live
              (yielded_view k v ps rs) refl refl y.world;
        live_own = c.live_own;
        live_init = c.live_init;
        other = c.other;
        own = c.own;
        before = c.before;
        processes = c.processes;
        room = c.room;
      };
      few = c.few;
      live_zombies = c.live_zombies;
      zombies = c.zombies;
      free = record { ne_null = y.free.ne_null; unlinked = y.free.unlinked };
      out = y.out;
      room = c.zombie_room;
      parent = rw (==-self q, ==-ne q k.running nq) c.parent;
      has_parent = c.yields.free.ne_null;
      other = λ x. nq (sym x);
    };
    awaited = parent-awaits l h (λ x. nq (sym x));
    live_waiting = c.yields.live_waiting;
    waiting = refl;
    live_siblings = c.live_siblings;
    siblings = c.siblings;
    few_siblings = c.few_siblings;
    entry = entry-same l h;
    live_timers = c.live_timers;
    timers = c.timers;
    few_timers = c.few_timers;
    other_timers = c.other_timers;
    live_files = c.live_files;
    no_files = c.no_files;
    pcbs = c.pcbs;
    block = c.block;
    held = c.held;
  }

  -- Among the waiting processes, the parent comes and goes.
  met_view :
      (r : ListRef)
      → put
          (adopted_view (put v ready_list rs) q k.init_pcb gs ds)
          (children k.running)
          (us ++ vs)
          r
        ≡ put
            (put (adopted_view (yielded_view k v ps rs) q k.init_pcb gs ds) waiting_list (ps ++ []))
            (children k.running)
            (us ++ vs)
            r
  met_view r = elim (Bool-cases (same_ref r waiting_list)) [
    | inl e ↦ rw (same_ref-eq r waiting_list e) (c.yields.waiting ∙ sym (append-nil ps))
    | inr n ↦ rw n refl
  ]

  -- A process calls `wait` for any child or for its child `q`, with lists in order and apart. The
  -- child at which its scan stops has not terminated; `q` is the first ready process, is not the first
  -- process of the system, and has no timer and no open resource. One entry, the first with its number,
  -- is that of `q` among the children, each entry of a child of `q` has a process, and the PCB of `q` is
  -- a block that is handed out. No list is so long that a loop or a size runs out. Then the process has status waiting and is behind
  -- the waiting ones, `q` runs, and no other list has changed. When `q` exits with the arguments `a`,
  -- the process runs again, and its call has returned the number of the child and stored the first of
  -- `a` where the call says. The lists are in order and apart. The waiting and the terminated processes
  -- are those of before; `q` is no child any more, its children are behind those of the first process,
  -- and its block is free.
  pub internal_exit-internal_wait :
      (k₁ k₂ : Kernel) × (internal_wait k ≡ some (tt, k₁))
      × (k₁.running ≡ q)
      × ((k₁.pcbs k.running).status ≡ ProcessStatus.waiting)
      × World k₁ live (yielded_view k v ps rs)
      × (internal_exit (called k₁ q a) ≡ some (tt, k₂))
      × Met k k₂ live v q a rs gs ds us vs is i
  internal_exit-internal_wait =
      let r = k.running in
      let outside : has r (q ∷ rs) ≡ false =
        rw c.yields.ready at (c.yields.out ready_list c.yields.live_ready) in
      let nq : r ≢ q = has_head r q rs outside in
      let (l, h, e₁, y) =
        internal_wait-Yielded k live v e p q os ps rs c.yields c.scanned c.some_child c.alive in
      let k₁ = asleep l h in
      let exit = CanReport-called l h (λ x. nq (sym x)) y in
      let (k₂, e₂, m) =
        internal_exit-Reported (exits l h) live (yielded_view k v ps rs) r s gs ds zs ps [] us vs ts
          is i exit in
      (
        k₁,
        k₂,
        e₁,
        refl,
        rw (==-self r) refl,
        y.world,
        e₂,
        record {
          world =
              World-view k₂ live
                (reported_view (exits l h) (yielded_view k v ps rs) r gs ds ps [] us vs)
                (put (adopted_view (put v ready_list rs) q k.init_pcb gs ds) (children r)
                  (us ++ vs))
                met_view m.world;
          running = m.running;
          status = m.status;
          value = m.answer ∙ same_pid l h q;
          memory =
              m.memory
              ∙ ap
                  (λ (x : Pcb).
                    written k.user_memory (x.syscall_args 1)
                      (to_int (((exits l h).pcbs q).syscall_args 0)))
                  (parent_asleep l h nq)
              ∙ ap (λ (x : Pcb). written k.user_memory (result_arg k) (to_int (x.syscall_args 0)))
                  (update_self k₁.pcbs q (record (k₁.pcbs q) { syscall_args = a }));
          pcbs = m.pcbs;
          free = m.free;
        },
      )
