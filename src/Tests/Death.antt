-- ===== src/Tests/Death.antt =====
-- `wait` and `exit` (src/disastrOS_wait.c and disastrOS_exit.c) in a small family of processes.
use disastr_os_semaphores.Common.{ℕ, pos, ◌≡◌, ◌≢◌, refl, sym, some, none, [], ◌∷◌, arith, to_int}
use disastr_os_semaphores.Kernel.{
  Kernel, ListRef, children, zombie_list, waiting_list, ready_list, ProcessStatus,
}
use disastr_os_semaphores.Kernel.Lists.{first_such}
use disastr_os_semaphores.Kernel.World.{World}
use disastr_os_semaphores.Syscalls.Death.{internal_wait, internal_exit, reparent}
use disastr_os_semaphores.Syscalls.Death.Scan.{first_or_last, IsScanned}
use disastr_os_semaphores.Syscalls.Death.Reaps.{CanReap, Reaped, internal_wait-Reaped}
use disastr_os_semaphores.Syscalls.Death.Waits.{CanYield}
use disastr_os_semaphores.Syscalls.Death.Reparent.{CanAdopt}
use disastr_os_semaphores.Syscalls.Death.Endless.{give_children, IsTurned, reparent-none}
use disastr_os_semaphores.Syscalls.Death.Tells.{CanExit}
use disastr_os_semaphores.Syscalls.Death.Lingers.{Lingered, internal_exit-Lingered}
use disastr_os_semaphores.Syscalls.Death.Reports.{CanReport, Reported, internal_exit-Reported}
use disastr_os_semaphores.Syscalls.Death.Waits.{yielded_view}
use disastr_os_semaphores.Syscalls.Death.Rendezvous.{
  CanMeet, Met, called, internal_exit-internal_wait,
}
use disastr_os_semaphores.Tests.Family.{family, family_view, alive, family-World, family-IsOutside}
use disastr_os_semaphores.Tests.Kernel.{free}
use disastr_os_semaphores.Tests.Open.{pool_at-IsValid}

-- Process 100 calls `wait`, and its child has terminated.
abbrev bereaved : Kernel
bereaved = family zombie_list 1000 100 900 ProcessStatus.zombie ProcessStatus.running

bereaved-CanReap :
    CanReap bereaved alive
      (family_view zombie_list 1000)
      2000
      1000
      []
      []
      []
      []
      0
      0
      (1 ∷ [])
      (1 ∷ [])
unfolding first_or_last to_int
bereaved-CanReap = record {
  world =
      family-World zombie_list 1000 (omega arith) (omega arith) 100 900 ProcessStatus.zombie
        ProcessStatus.running;
  live_children = refl;
  live_zombies = refl;
  offspring = refl;
  few = omega arith;
  picked = refl;
  child = refl;
  terminated = refl;
  zombies = refl;
  pcbs = pool_at-IsValid 1000;
  ptrs = pool_at-IsValid 2000;
  pcb_block = refl;
  ptr_block = refl;
  pcb_held = (omega arith, refl);
  ptr_held = (omega arith, refl);
}

internal_wait-Reaped_example :
    (k' : Kernel) × (internal_wait bereaved ≡ some (tt, k'))
    × Reaped bereaved k' alive (family_view zombie_list 1000) 1000 [] [] [] [] 0 0 (1 ∷ []) (1 ∷ [])
internal_wait-Reaped_example =
    internal_wait-Reaped bereaved alive (family_view zombie_list 1000) 2000 1000 [] [] [] [] 0 0
      (1 ∷ []) (1 ∷ []) bereaved-CanReap

-- Process 100 calls `wait`, and its child is ready.
abbrev patient : Kernel
patient = family ready_list 1000 100 900 ProcessStatus.ready ProcessStatus.running

patient-World : World patient alive (family_view ready_list 1000)
patient-World =
    family-World ready_list 1000 (omega arith) (omega arith) 100 900 ProcessStatus.ready
      ProcessStatus.running

patient-CanYield : CanYield patient alive (family_view ready_list 1000) 1000 [] []
patient-CanYield = record {
  world = patient-World;
  live_waiting = refl;
  live_ready = refl;
  waiting = refl;
  ready = refl;
  free = free 100 (omega arith);
  out = family-IsOutside ready_list 1000 100 (omega arith) (omega arith) (omega arith);
  room = omega arith;
}

patient-IsScanned : IsScanned patient 2000 1000 (2000 ∷ [])
unfolding first_or_last to_int
patient-IsScanned = record {
  offspring = patient-World.lists (children 100) refl;
  some_child = omega arith;
  few = omega arith;
  picked = refl;
  child = refl;
}

-- Process 1000 calls `exit`; its parent is ready, or waits.
abbrev leaving : (place : ListRef) (who : ℕ) (parent : ProcessStatus) → Kernel
leaving place who parent = family place who 1000 900 ProcessStatus.running parent

leaving-CanAdopt :
    (place : ListRef) (who : ℕ) (parent : ProcessStatus)
    → who ≢ 2000
    → who ≢ 2100
    → CanAdopt (leaving place who parent) alive (family_view place who) (2100 ∷ []) []
leaving-CanAdopt place who parent n m = record {
  world = family-World place who n m 1000 900 ProcessStatus.running parent;
  live_own = refl;
  live_init = refl;
  other = refl;
  own = refl;
  before = refl;
  processes = λ e i z. ground (arith, i);
  room = omega arith;
}

leaving-CanExit :
    (place : ListRef) (who : ℕ) (parent : ProcessStatus)
    → who ≢ 2000
    → who ≢ 2100
    → who ≢ 1000
    → family_view place who zombie_list ≡ []
    → CanExit (leaving place who parent) alive (family_view place who) 100 (2100 ∷ []) [] []
leaving-CanExit place who parent n m w z = record {
  adopts = leaving-CanAdopt place who parent n m;
  few = omega arith;
  live_zombies = refl;
  zombies = z;
  free = free 1000 (omega arith);
  out = family-IsOutside place who 1000 (omega arith) (omega arith) (λ e. w (sym e));
  room = omega arith;
  parent = refl;
  has_parent = omega arith;
  other = omega arith;
}

abbrev unattended : Kernel
unattended = leaving ready_list 100 ProcessStatus.ready

internal_exit-Lingered_example :
    (k' : Kernel) × (internal_exit unattended ≡ some (tt, k'))
    × Lingered unattended k' alive (family_view ready_list 100) 100 100 (2100 ∷ []) [] [] []
internal_exit-Lingered_example =
    internal_exit-Lingered unattended alive (family_view ready_list 100) 100 100 (2100 ∷ []) [] []
      []
      (leaving-CanExit ready_list 100 ProcessStatus.ready (omega arith) (omega arith) (omega arith)
        refl)
      refl refl refl

abbrev attended : Kernel
attended = leaving waiting_list 100 ProcessStatus.waiting

attended-CanReport :
    CanReport attended alive
      (family_view waiting_list 100)
      100
      2000
      (2100 ∷ [])
      []
      []
      []
      []
      []
      []
      []
      (1 ∷ [])
      0
unfolding first_such
attended-CanReport = record {
  exits =
      leaving-CanExit waiting_list 100 ProcessStatus.waiting (omega arith) (omega arith)
        (omega arith) refl;
  awaited = refl;
  live_waiting = refl;
  waiting = refl;
  live_siblings = refl;
  siblings = refl;
  few_siblings = omega arith;
  entry = refl;
  live_timers = refl;
  timers = refl;
  few_timers = omega arith;
  other_timers = λ t i z. ground (arith, i);
  live_files = refl;
  no_files = refl;
  pcbs = pool_at-IsValid 1000;
  block = refl;
  held = (omega arith, refl);
}

internal_exit-Reported_example :
    (k' : Kernel) × (internal_exit attended ≡ some (tt, k'))
    × Reported attended k' alive
        (family_view waiting_list 100)
        100
        (2100 ∷ [])
        []
        []
        []
        []
        []
        (1 ∷ [])
        0
internal_exit-Reported_example =
    internal_exit-Reported attended alive (family_view waiting_list 100) 100 2000 (2100 ∷ []) [] []
      [] [] [] [] [] (1 ∷ []) 0 attended-CanReport

patient-CanMeet :
    CanMeet patient alive
      (family_view ready_list 1000)
      2000
      1000
      1000
      2000
      (2000 ∷ [])
      []
      []
      (2100 ∷ [])
      []
      []
      []
      []
      []
      (1 ∷ [])
      0
unfolding first_such
patient-CanMeet = record {
  yields = patient-CanYield;
  scanned = patient-IsScanned;
  some_child = omega arith;
  alive = refl;
  call = refl;
  target = refl;
  parent = refl;
  live_own = refl;
  live_init = refl;
  other = refl;
  own = refl;
  before = refl;
  processes = λ e i z. ground (arith, i);
  room = omega arith;
  few = omega arith;
  live_zombies = refl;
  zombies = refl;
  zombie_room = omega arith;
  live_siblings = refl;
  siblings = refl;
  few_siblings = omega arith;
  entry = refl;
  live_timers = refl;
  timers = refl;
  few_timers = omega arith;
  other_timers = λ t i z. ground (arith, i);
  live_files = refl;
  no_files = refl;
  pcbs = pool_at-IsValid 1000;
  block = refl;
  held = (omega arith, refl);
}

-- The child exits with 33.
internal_exit-internal_wait_example :
    (k₁ k₂ : Kernel) × (internal_wait patient ≡ some (tt, k₁))
    × (k₁.running ≡ 1000)
    × ((k₁.pcbs 100).status ≡ ProcessStatus.waiting)
    × World k₁ alive (yielded_view patient (family_view ready_list 1000) [] [])
    × (internal_exit (called k₁ 1000 (λ i. pos 33)) ≡ some (tt, k₂))
    × Met patient k₂ alive
        (family_view ready_list 1000)
        1000
        (λ i. pos 33)
        []
        (2100 ∷ [])
        []
        []
        []
        (1 ∷ [])
        0
internal_exit-internal_wait_example =
    internal_exit-internal_wait patient alive (family_view ready_list 1000) 2000 1000 1000 2000
      (2000 ∷ []) [] [] (2100 ∷ []) [] [] [] [] [] (1 ∷ []) 0 (λ i. pos 33) patient-CanMeet

-- Process 1000 is the first one, and has a child.
abbrev first_one : Kernel
first_one = family ready_list 100 1000 1000 ProcessStatus.running ProcessStatus.ready

reparent-none_example :
    (k' : Kernel) × (give_children 5 first_one ≡ some (tt, k'))
    × IsTurned 5 first_one k' alive (family_view ready_list 100) (2100 ∷ [])
    × (reparent 5 first_one ≡ none)
reparent-none_example =
    reparent-none 5 first_one alive (family_view ready_list 100) 2100 [] (record {
      world =
          family-World ready_list 100 (omega arith) (omega arith) 1000 1000 ProcessStatus.running
            ProcessStatus.ready;
      live_own = refl;
      first = refl;
      own = refl;
      processes = λ e i z. ground (arith, i);
      room = omega arith;
    })
