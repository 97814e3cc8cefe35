-- ===== src/Syscalls/Schedule/Wakes.antt =====
-- The loop of `internal_schedule` (src/disastrOS_schedule.c) that wakes processes, and the switch to the
-- first of them.
use disastr_os_semaphores.Common.{
  ℕ, zero, suc, ℤ, ◌+◌, ◌<◌, ◌≡◌, refl, sym, ◌∙◌, ap, Bool-cases, inl, inr, true, false, some, List,
  [], ◌∷◌, ◌++◌, arith, length, has, last_or, ==-ne, ◌==◌, ◌≤ℤ◌, ◌<ℤ◌,
}
use mathlib.Core.List.{append-nil}
use disastr_os_semaphores.PoolAllocator.{PoolAllocator}
use disastr_os_semaphores.PoolAllocator.Free.{IsValid}
use disastr_os_semaphores.LinkedList.Writes.{out_left}
use disastr_os_semaphores.LinkedList.Apart.{has_head, has_tail, not-has-cons}
use disastr_os_semaphores.Kernel.{Kernel, TimerItem, Pcb, update, timer_pool, ProcessStatus}
use disastr_os_semaphores.Kernel.Pools.{block_at}
use disastr_os_semaphores.Syscalls.Schedule.{wake_elapsed}
use disastr_os_semaphores.Syscalls.Schedule.Fair.{IsQuiet, timer_list_current-quiet}
use disastr_os_semaphores.Syscalls.Schedule.Lists.{Lists, IsDue, Woke}
use disastr_os_semaphores.Syscalls.Schedule.Round.{wake_elapsed-Woke}
use disastr_os_semaphores.Syscalls.Schedule.Without.{
  without, without_all, without-split, last_or-snoc, append_snoc,
}

-- The processes of timers.
abbrev pub processes : (ℕ → TimerItem) → List ℕ → List ℕ
processes timers [] = []
processes timers (t ∷ ts) = (timers t).pcb ∷ processes timers ts

-- The timers have elapsed, and the process of each is among the waiting ones, `ps`, when those of the
-- timers before it are taken away.
abbrev pub AreElapsed : (ℕ → TimerItem) → (time : ℤ) → (ts ps : List ℕ) → Type 0
AreElapsed timers time [] ps = Unit {0}
AreElapsed timers time (t ∷ ts) ps =
    ((timers t).awakening_time ≤ℤ time)
    × (has (timers t).pcb ps ≡ true)
    × AreElapsed timers time ts (without (timers t).pcb ps)

-- The first timer, if there is one, has not elapsed.
abbrev pub IsLater : (ℕ → TimerItem) → (time : ℤ) → List ℕ → Type 0
IsLater timers time [] = Unit {0}
IsLater timers time (t ∷ ts) = time <ℤ (timers t).awakening_time

-- The timers are blocks of the pool, and none of these is free.
abbrev pub AreHeld : PoolAllocator → (is ts : List ℕ) → Type 0
AreHeld a is [] = Unit {0}
AreHeld a is (t ∷ ts) =
    ((j : ℕ) × (t ≡ block_at a j) × (j < a.size_max) × (has j is ≡ false)) × AreHeld a is ts

-- The processes `ps` are ready and have no timer, and the others are as they were.
pub record AreReady (pcbs pcbs' : ℕ → Pcb) (ps : List ℕ) : Type 0 where
  pub status : (p : ℕ) → has p ps ≡ true → (pcbs' p).status ≡ ProcessStatus.ready
  pub timer : (p : ℕ) → has p ps ≡ true → (pcbs' p).timer ≡ 0
  pub others : (p : ℕ) → has p ps ≡ false → pcbs' p ≡ pcbs p

-- The processes of the elapsed timers, `es`, have gone from the waiting ones to the front of the ready
-- ones, in the order of their timers. These are gone, and their blocks are free.
pub record AllWoke (k k' : Kernel) (es ls ps ws rs is : List ℕ) : Type 0 where
  pub lists : Lists k' ls (without_all (processes k.timers es) ps) (ws ++ processes k.timers es) rs
  pub ready : AreReady k.pcbs k'.pcbs (processes k.timers es)
  pub quiet : IsQuiet k'
  pub running : k'.running ≡ k.running
  pub free_blocks : List ℕ
  pub valid : IsValid (k'.pools timer_pool) free_blocks
  pub freed : length free_blocks ≡ length es + length is

IsQuiet-IsLater :
    (k : Kernel) (ls ps ws rs : List ℕ)
    → Lists k ls ps ws rs
    → IsLater k.timers k.disastr_os_time ls
    → IsQuiet k
IsQuiet-IsLater k [] ps ws rs c later = inl c.timers.first
IsQuiet-IsLater k (t ∷ ls) ps ws rs c later = inr (rw c.timers.first later)

wake_elapsed-quiet :
    (k : Kernel) (n previous : ℕ) → IsQuiet k → wake_elapsed (suc n) previous k ≡ some (tt, k)
unfolding wake_elapsed
wake_elapsed-quiet k n previous quiet = rw (timer_list_current-quiet k quiet) refl

AreHeld-Woke :
    (k k' : Kernel) (p j : ℕ) (is ts : List ℕ)
    → Woke k k' p j is
    → has (block_at (k.pools timer_pool) j) ts ≡ false
    → AreHeld (k.pools timer_pool) is ts
    → AreHeld (k'.pools timer_pool) (j ∷ is) ts
AreHeld-Woke k k' p j is [] w out held = tt
AreHeld-Woke k k' p j is (t ∷ ts) w out ((i, at_i, small, busy), held) =
    let block = block_at (k.pools timer_pool) j in
    (
      (
        i,
        rw (w.buffer, w.item_size) at_i,
        rw w.size_max small,
        not-has-cons i j is
            (λ e. has_head block t ts out (sym (at_i ∙ ap (block_at (k.pools timer_pool)) e))) busy,
      ),
      AreHeld-Woke k k' p j is ts w (has_tail block t ts out) held,
    )

AreReady-cons :
    (pcbs pcbs' pcbs'' : ℕ → Pcb) (p : ℕ) (ps : List ℕ)
    → pcbs' ≡ update pcbs p (record (pcbs p) { status = ProcessStatus.ready; timer = 0 })
    → AreReady pcbs' pcbs'' ps
    → AreReady pcbs pcbs'' (p ∷ ps)
AreReady-cons pcbs pcbs' pcbs'' p ps e r = record {
  status = λ q i. elim (Bool-cases (has q ps)) [
    | inl j ↦ r.status q j
    | inr o ↦ let here : (q == p) ≡ true = ground (arith, o) in rw (r.others q o, e, here) refl
  ];
  timer = λ q i. elim (Bool-cases (has q ps)) [
    | inl j ↦ r.timer q j
    | inr o ↦ let here : (q == p) ≡ true = ground (arith, o) in rw (r.others q o, e, here) refl
  ];
  others = λ q o. r.others q (has_tail q p ps o) ∙ rw (e, ==-ne q p (has_head q p ps o)) refl;
}

-- The loop, with the timers `es` elapsed and more rounds than these.
pub wake_elapsed-AllWoke :
    (es ls ps ws rs is : List ℕ) (n : ℕ) (k : Kernel)
    → Lists k (es ++ ls) ps ws rs
    → AreElapsed k.timers k.disastr_os_time es ps
    → IsLater k.timers k.disastr_os_time ls
    → AreHeld (k.pools timer_pool) is es
    → IsValid (k.pools timer_pool) is
    → length es < n
    → (k' : Kernel) × (wake_elapsed n (last_or 0 ws) k ≡ some (tt, k'))
      × AllWoke k k' es ls ps ws rs is
unfolding without_all
wake_elapsed-AllWoke es ls ps ws rs is zero k c due later held v enough = absurd (omega arith)
wake_elapsed-AllWoke [] ls ps ws rs is (suc n) k c due later held v enough =
    let quiet = IsQuiet-IsLater k ls ps ws rs c later in
    (
      k,
      wake_elapsed-quiet k n (last_or 0 ws) quiet,
      record {
        lists = rw (append-nil ws) c;
        ready = record { status = λ p i. cc; timer = λ p i. cc; others = λ p o. refl };
        quiet = quiet;
        running = refl;
        free_blocks = is;
        valid = v;
        freed = omega arith;
      },
    )
wake_elapsed-AllWoke (t ∷ es) ls ps ws rs is (suc n) k c (past, waits, due) later
      ((j, at_j, small, busy), held) v enough =
    let p = (k.timers t).pcb in
    let (us, vs, split, rest) = without-split p ps waits in
    let d : IsDue k t p j is = record {
      elapsed = past;
      process = refl;
      valid = v;
      block = at_j;
      held = (small, busy);
    } in
    let (k₁, e, c₁, w) = wake_elapsed-Woke k t p j (es ++ ls) us vs ws rs is (rw split at c) d n in
    let c₂ : Lists k₁ (es ++ ls) (without p ps) (ws ++ p ∷ []) rs = rw rest c₁ in
    let out : has (block_at (k.pools timer_pool) j) es ≡ false =
      rw at_j at (out_left t es ls c.timers.seg.2) in
    let (k', e', a) =
      wake_elapsed-AllWoke es ls (without p ps) (ws ++ p ∷ []) rs (j ∷ is) n k₁ c₂
        (rw (w.timers, w.time) due) (rw (w.timers, w.time) later)
        (AreHeld-Woke k k₁ p j is es w out held) w.valid (omega arith) in
    (
      k',
      e ∙ (rw (last_or-snoc 0 ws p) at e'),
      record {
        lists = rw (w.timers, append_snoc ws p (processes k.timers es)) at a.lists;
        ready =
            AreReady-cons k.pcbs k₁.pcbs k'.pcbs p (processes k.timers es) w.pcbs
              (rw w.timers at a.ready);
        quiet = a.quiet;
        running = a.running ∙ w.running;
        free_blocks = a.free_blocks;
        valid = a.valid;
        freed = omega (arith, a.freed);
      },
    )
