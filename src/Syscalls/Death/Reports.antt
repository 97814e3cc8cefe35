-- ===== src/Syscalls/Death/Reports.antt =====
-- `internal_exit` (src/disastrOS_exit.c) when the parent waits for the process.
use disastr_os_semaphores.Common.{
  ℕ, ℤ, first_or, ◌≤◌, ◌<◌, ◌≡◌, ◌≢◌, refl, sym, ◌∙◌, ap, Bool, Bool-cases, inl, inr, true, false,
  some, List, [], ◌∷◌, ◌++◌, length, has, ◌==ℤ◌,
}
use disastr_os_semaphores.LinkedList.Insert.{IsFree}
use disastr_os_semaphores.LinkedList.Apart.{has-without}
use disastr_os_semaphores.PoolAllocator.Free.{IsValid}
use disastr_os_semaphores.PoolAllocator.Blocks.{release_block-IsValid}
use disastr_os_semaphores.Kernel.{
  Kernel, ListRef, same_ref, update_self, update_keeps, zombie_list, waiting_list, children,
  descriptors, timer_list, pcb_pool, ProcessStatus,
}
use disastr_os_semaphores.Kernel.Lists.{relinked, first_such}
use disastr_os_semaphores.Kernel.Pools.{block_at}
use disastr_os_semaphores.Kernel.World.{
  World, IsOutside, World-detach_at, World-state, World-view, IsOutside-put,
}
use disastr_os_semaphores.Kernel.View.{View, put, same_ref-eq}
use mathlib.Core.List.{append-nil}
use disastr_os_semaphores.Objects.Process.{pcb_ptr_by_pid}
use disastr_os_semaphores.Syscalls.Death.{internal_exit, awaits}
use disastr_os_semaphores.Syscalls.Death.Reaps.{written}
use disastr_os_semaphores.Syscalls.Death.Reparent.{adopted_view}
use disastr_os_semaphores.Syscalls.Death.Answers.{
  raised, answered, report-raised, answer-answered, found-raised,
}
use disastr_os_semaphores.Syscalls.Death.Releases.{buried_by, bury-buried_by}
use disastr_os_semaphores.Syscalls.Death.Tells.{CanExit, exit_view, exiting, internal_exit-exiting}
use disastr_os_semaphores.Syscalls.Death.Kept.{
  exit_pcbs, exit_value, exit_pid, exit_args, exit_kept,
}

-- The process ends under `CanExit`, its parent `f` is among the waiting processes and waits for it, and
-- `s` is its entry among the children of the parent (those of the first process may have grown). No
-- timer and no open resource of the process is left. Its PCB is block `i` of the pool.
pub record CanReport (k : Kernel) (live : ListRef → Bool) (v : View) (f s : ℕ)
    (cs ds zs ps ws us vs ts is : List ℕ) (i : ℕ) : Type 0 where
  pub exits : CanExit k live v f cs ds zs
  pub awaited : awaits (k.pcbs f) (k.pcbs k.running).pid ≡ true
  pub live_waiting : live waiting_list ≡ true
  pub waiting : v waiting_list ≡ ps ++ f ∷ ws
  pub live_siblings : live (children f) ≡ true
  pub siblings : adopted_view v k.running k.init_pcb cs ds (children f) ≡ us ++ s ∷ vs
  pub few_siblings : length (us ++ s ∷ vs) ≤ 1024
  pub entry :
      first_such (λ e. (k.pcbs (k.pcb_ptrs e).pcb).pid ==ℤ (k.pcbs k.running).pid) (us ++ s ∷ vs)
      ≡ s
  pub live_timers : live timer_list ≡ true
  pub timers : v timer_list ≡ ts
  pub few_timers : length ts ≤ 1024
  pub other_timers : (t : ℕ) → has t ts ≡ true → (k.timers t).pcb ≢ k.running
  pub live_files : live (descriptors k.running) ≡ true
  pub no_files : v (descriptors k.running) ≡ []
  pub pcbs : IsValid (k.pools pcb_pool) is
  pub block : k.running ≡ block_at (k.pools pcb_pool) i
  pub held : (i < (k.pools pcb_pool).size_max) × (has i is ≡ false)

abbrev pub reported_view : Kernel → View → (f : ℕ) (cs ds ps ws us vs : List ℕ) → View
reported_view k v f cs ds ps ws us vs =
    put (put (adopted_view v k.running k.init_pcb cs ds) waiting_list (ps ++ ws)) (children f)
      (us ++ vs)

-- Among the terminated processes, this one comes and goes.
passing :
    (k : Kernel) (v : View) (f : ℕ) (cs ds zs ps ws us vs : List ℕ)
    → v zombie_list ≡ zs
    → (r : ListRef)
    → reported_view k v f cs ds ps ws us vs r
      ≡ put
          (put (put (exit_view k v cs ds zs) waiting_list (ps ++ ws)) (children f) (us ++ vs))
          zombie_list
          (zs ++ [])
          r
passing k v f cs ds zs ps ws us vs e r = elim (Bool-cases (same_ref r zombie_list)) [
  | inl i ↦ rw (same_ref-eq r zombie_list i) (e ∙ sym (append-nil zs))
  | inr n ↦ rw n refl
]

-- The parent runs, and is in no list; it has the number of the process as the result of its call, and
-- the value where the call says. The process is in no list, and its block is free.
pub record Reported (k k' : Kernel) (live : ListRef → Bool) (v : View) (f : ℕ)
    (cs ds ps ws us vs is : List ℕ) (i : ℕ) : Type 0 where
  pub world : World k' live (reported_view k v f cs ds ps ws us vs)
  pub running : k'.running ≡ f
  pub status : (k'.pcbs f).status ≡ ProcessStatus.running
  pub answer : (k'.pcbs f).syscall_retvalue ≡ (k.pcbs k.running).pid
  pub memory : k'.user_memory ≡ written k.user_memory ((k.pcbs f).syscall_args 1) (exit_value k)
  pub out : IsOutside live (reported_view k v f cs ds ps ws us vs) f
  pub free : IsFree k'.links f
  pub gone : IsOutside live (reported_view k v f cs ds ps ws us vs) k.running
  pub pcbs : IsValid (k'.pools pcb_pool) (i ∷ is)

-- `internal_exit`, when the parent waits for the process, ends, whatever children there are: the
-- children are behind those of the first process, the parent leaves the waiting processes and runs,
-- its call returns the number of the process, and the value of the call is stored where the parent
-- asked for it. The process is no child any more, it does not stay among the terminated ones, and its
-- block is free. The lists of the kernel are in order and apart, before and after. The process has
-- no timer and no open resource.
pub internal_exit-Reported :
    (k : Kernel) (live : ListRef → Bool) (v : View) (f s : ℕ) (cs ds zs ps ws us vs ts is : List ℕ)
    (i : ℕ)
    → CanReport k live v f s cs ds zs ps ws us vs ts is i
    → (k' : Kernel) × (internal_exit k ≡ some (tt, k'))
      × Reported k k' live v f cs ds ps ws us vs is i
internal_exit-Reported k live v f s cs ds zs ps ws us vs ts is i c =
    let r = k.running in
    let nr = c.exits.free.ne_null in
    let nf = c.exits.has_parent in
    let nrf : r ≢ f = λ e. c.exits.other (sym e) in
    let (l₁, h₁, e₁, w₁) = internal_exit-exiting k live v f cs ds zs c.exits in
    let k₁ = exiting k f cs l₁ h₁ in
    let p₁ = k₁.pcbs r in
    let v₁ = exit_view k v cs ds zs in
    let (l₂, h₂, e₂, w₂, free₂, out₂, same₂) =
      World-detach_at k₁ live v₁ w₁ waiting_list c.live_waiting f ps ws c.waiting in
    let k₂ = raised k₁ f l₂ h₂ in
    let v₂ = put v₁ waiting_list (ps ++ ws) in
    let w₂' = World-state (relinked k₁ waiting_list l₂ h₂) k₂ live v₂ refl refl w₂ in
    let found : pcb_ptr_by_pid (children f) p₁.pid k₂ ≡ some (s, k₂) =
      found-raised k f s cs (us ++ s ∷ vs) l₁ l₂ h₁ h₂ nf
        (rw c.siblings at (w₂'.lists (children f) c.live_siblings)) c.few_siblings c.entry in
    let (l₃, h₃, e₃, w₃, free₃, out₃, same₃) =
      World-detach_at k₂ live v₂ w₂' (children f) c.live_siblings s us vs c.siblings in
    let k₃ = answered k₂ f s r p₁ l₃ h₃ in
    let v₃ = put v₂ (children f) (us ++ vs) in
    let w₃' = World-state (relinked k₂ (children f) l₃ h₃) k₃ live v₃ refl refl w₃ in
    let (l₄, h₄, e₄, w₄, free₄, out₄, same₄) =
      World-detach_at k₃ live v₃ w₃' zombie_list c.exits.live_zombies r zs [] refl in
    let out_zombies : has f (zs ++ []) ≡ false =
      has-without f r zs [] (out₂ zombie_list c.exits.live_zombies) in
    let f_out : IsOutside live v₃ f =
      IsOutside-put live v₂ (children f) (us ++ vs) f
        (has-without f s us vs (rw c.siblings at (out₂ (children f) c.live_siblings))) out₂ in
    let (b, eb, vb, bb, sb, mb) =
      release_block-IsValid (k.pools pcb_pool) i is c.pcbs c.held.0 c.held.1 in
    let k' = buried_by k₃ f l₄ h₄ b in
    let v₄ = put v₃ zombie_list (zs ++ []) in
    let same = passing k v f cs ds zs ps ws us vs c.exits.zombies in
    (
      k',
      e₁
          ∙ rw c.awaited (report-raised k₁ f l₂ h₂ nr nf nrf e₂)
          ∙ answer-answered k₂ f s r p₁ l₃ h₃ nf found e₃
          ∙ bury-buried_by k₃ f l₄ h₄ b ts nr
              (record {
                timers = rw c.timers at (w₃'.lists timer_list c.live_timers);
                few = c.few_timers;
                other_timers = c.other_timers;
                descriptors =
                    (w₃'.lists (descriptors r) c.live_files).first ∙ ap (first_or 0) c.no_files;
              })
              e₄ (rw c.block eb),
      record {
        world =
            World-view k' live v₄ (reported_view k v f cs ds ps ws us vs) same
              (World-state (relinked k₃ zombie_list l₄ h₄) k' live v₄ refl refl w₄);
        running = refl;
        status =
            ap (λ p. p.status)
              (update_self k₂.pcbs f (record (k₂.pcbs f) { syscall_retvalue = p₁.pid }))
            ∙ ap (λ p. p.status)
                (update_self k₁.pcbs f (record (k₁.pcbs f) { status = ProcessStatus.running }));
        answer =
            ap (λ p. p.syscall_retvalue)
              (update_self k₂.pcbs f (record (k₂.pcbs f) { syscall_retvalue = p₁.pid }))
            ∙ exit_pid k f cs r;
        memory =
            ap (λ (a : ℕ → ℤ). written k.user_memory (a 1) p₁.return_value)
              (update_keeps (λ q. q.syscall_args) (exit_pcbs k f cs) f
                  (record (exit_pcbs k f cs f) { status = ProcessStatus.running }) f refl
                ∙ exit_args k f cs f)
            ∙ ap (written k.user_memory ((k.pcbs f).syscall_args 1)) (exit_kept k f cs);
        out = λ u lu.
            ap (has f) (same u)
            ∙ IsOutside-put live v₃ zombie_list (zs ++ []) f out_zombies f_out u lu;
        free = record { ne_null = nf; unlinked = same₄ f f_out ∙ same₃ f out₂ ∙ free₂.unlinked };
        gone = λ u lu. ap (has r) (same u) ∙ out₄ u lu;
        pcbs = vb;
      },
    )
