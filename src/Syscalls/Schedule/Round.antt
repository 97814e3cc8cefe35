-- ===== src/Syscalls/Schedule/Round.antt =====
-- What one round of the loop of `internal_schedule` (src/disastrOS_schedule.c) makes of the lists and of
-- the pool of timers.
use disastr_os_semaphores.Common.{
  ℕ, suc, ◌+◌, ◌^◌, ◌<◌, ◌≡◌, ◌≢◌, refl, ◌∙◌, false, List, [], ◌∷◌, ◌++◌, arith, length,
  length-append, has, last_or,
}
use disastr_os_semaphores.LinkedList.{Links, ListHead}
use disastr_os_semaphores.LinkedList.Seg.{IsList, IsList-frame, SameOutside, Disjoint, Seg-right}
use disastr_os_semaphores.LinkedList.Insert.{IsFree}
use disastr_os_semaphores.LinkedList.Detach.{not-has-left, not-has-right}
use disastr_os_semaphores.LinkedList.Apart.{
  has_tail, not-has-cons, not-has-append, Disjoint-sym, Disjoint-tail, Disjoint-without,
  Disjoint-member, Disjoint-cons_right,
}
use disastr_os_semaphores.PoolAllocator.Blocks.{release_block-IsValid}
use disastr_os_semaphores.Kernel.{Kernel, timer_pool, timer_list, ready_list, waiting_list}
use disastr_os_semaphores.Kernel.Lists.{
  relinked, detach_at-IsList, detach_first-IsList, insert_at-IsList,
}
use disastr_os_semaphores.Syscalls.Schedule.{wake_elapsed}
use disastr_os_semaphores.Syscalls.Schedule.Lists.{
  Lists, IsDue, Woke, Disjoint-add, not-has-add, not-has-without, timer_list_current-due,
  timer_list_remove_current-eq,
}
use disastr_os_semaphores.Syscalls.Schedule.Wake.{made_ready, woken, wake_elapsed-round}
use disastr_os_semaphores.Syscalls.Schedule.Without.{append_snoc}

module _ (k : Kernel) (t p j : ℕ) (ts us vs ws rs is : List ℕ)
    (c : Lists k (t ∷ ts) (us ++ p ∷ vs) ws rs) (due : IsDue k t p j is) where
  p_ne : p ≢ 0
  p_ne = (Seg-right k.links 0 0 us (p ∷ vs) c.waiting.seg).0

  p-not_ready : has p (ws ++ rs) ≡ false
  p-not_ready = Disjoint-member us p vs (ws ++ rs) c.waiting_ready

  p-not_timer : has p (t ∷ ts) ≡ false
  p-not_timer =
      Disjoint-member us p vs (t ∷ ts) (Disjoint-sym (t ∷ ts) (us ++ p ∷ vs) c.timers_waiting)

  waiting-ready : Disjoint (us ++ vs) (p ∷ (ws ++ rs))
  waiting-ready =
      Disjoint-cons_right p (us ++ vs) (ws ++ rs)
        (not-has-append p us vs (not-has-left k.links (k.heads waiting_list) p us vs c.waiting)
          (not-has-right k.links (k.heads waiting_list) p us vs c.waiting))
        (Disjoint-without us p vs (ws ++ rs) c.waiting_ready)

  waiting-timers : Disjoint (us ++ vs) (t ∷ ts)
  waiting-timers =
      Disjoint-without us p vs (t ∷ ts) (Disjoint-sym (t ∷ ts) (us ++ p ∷ vs) c.timers_waiting)

  ready-timers : Disjoint (ws ++ p ∷ rs) (t ∷ ts)
  ready-timers =
      Disjoint-add ws p rs (t ∷ ts) (Disjoint-sym (t ∷ ts) (ws ++ rs) c.timers_ready) p-not_timer

  ready-waiting : Disjoint (us ++ vs) (ws ++ p ∷ rs)
  ready-waiting = Disjoint-sym (ws ++ p ∷ rs) (us ++ vs) (
      Disjoint-add ws p rs (us ++ vs)
        (Disjoint-sym (us ++ vs) (ws ++ rs) (Disjoint-without us p vs (ws ++ rs) c.waiting_ready))
        (not-has-append p us vs (not-has-left k.links (k.heads waiting_list) p us vs c.waiting)
          (not-has-right k.links (k.heads waiting_list) p us vs c.waiting)))

  room-after : length (us ++ vs) + length (ws ++ p ∷ rs) < 2 ^ 31
  room-after = omega (
    arith,
    c.room,
    length-append {0} us vs,
    length-append {0} us (p ∷ vs),
    length-append {0} ws rs,
    length-append {0} ws (p ∷ rs),
  )

  -- The lists after the three writes.
  module _ (l₁ l₂ l₃ : Links) (h₁ h₂ h₃ : ListHead) (same₁ : SameOutside (us ++ p ∷ vs) k.links l₁)
      (same₂ : SameOutside (p ∷ (ws ++ rs)) l₁ l₂) (same₃ : SameOutside (t ∷ ts) l₂ l₃) where
    waiting-after : IsList l₁ h₁ (us ++ vs) → IsList l₃ h₁ (us ++ vs)
    waiting-after is₁ =
        IsList-frame (t ∷ ts) (us ++ vs)
          (IsList-frame (p ∷ (ws ++ rs)) (us ++ vs) is₁ same₂ waiting-ready) same₃ waiting-timers

    ready-after : IsList l₂ h₂ (ws ++ p ∷ rs) → IsList l₃ h₂ ((ws ++ p ∷ []) ++ rs)
    ready-after is₂ =
        rw (append_snoc ws p rs) (IsList-frame (t ∷ ts) (ws ++ p ∷ rs) is₂ same₃ ready-timers)

    running-after :
        IsFree l₃ k.running
        × (has k.running ts ≡ false)
        × (has k.running (us ++ vs) ≡ false)
        × (has k.running ((ws ++ p ∷ []) ++ rs) ≡ false)
    running-after =
        let (ot, op, or) = c.out in
        let (ow, ne) = not-has-without k.running us p vs op in
        (
          record {
            ne_null = c.free.ne_null;
            unlinked =
                same₃ k.running ot
                ∙ same₂ k.running (not-has-cons k.running p (ws ++ rs) ne or)
                ∙ same₁ k.running op
                ∙ c.free.unlinked;
          },
          has_tail k.running t ts ot,
          ow,
          rw (append_snoc ws p rs) (not-has-add k.running ws p rs or ne),
        )

  -- A round takes the process out of the waiting ones and puts it behind those that were woken.
  pub wake_elapsed-Woke :
      (n : ℕ)
      → (k' : Kernel) × (wake_elapsed (suc n) (last_or 0 ws) k ≡ wake_elapsed n p k')
        × Lists k' ts (us ++ vs) (ws ++ p ∷ []) rs
        × Woke k k' p j is
  wake_elapsed-Woke n =
      let (l₁, h₁, e₁, is₁, free₁, same₁) = detach_at-IsList k waiting_list p us vs c.waiting in
      let (l₂, h₂, e₂, is₂, same₂) =
        insert_at-IsList (made_ready k p l₁ h₁) ready_list p ws rs
          (IsList-frame (us ++ p ∷ vs) (ws ++ rs) c.ready same₁
            (Disjoint-sym (us ++ p ∷ vs) (ws ++ rs) c.waiting_ready))
          free₁ p-not_ready (omega (arith, c.room, length-append {0} us (p ∷ vs))) in
      let timers₂ : IsList l₂ (k.heads timer_list) (t ∷ ts) =
        IsList-frame (p ∷ (ws ++ rs)) (t ∷ ts)
          (IsList-frame (us ++ p ∷ vs) (t ∷ ts) c.timers same₁ c.timers_waiting) same₂
          (Disjoint-cons_right p (t ∷ ts) (ws ++ rs) p-not_timer c.timers_ready) in
      let k₂ = relinked (made_ready k p l₁ h₁) ready_list l₂ h₂ in
      let (l₃, h₃, e₃, is₃, free₃, same₃) =
        detach_first-IsList k₂ timer_list t ts (omega arith) timers₂ in
      let (a, e₄, v, b, s, m) =
        release_block-IsValid (k.pools timer_pool) j is due.valid due.held.0 due.held.1 in
      let (free, out_timers, out_waiting, out_ready) =
        running-after l₁ l₂ l₃ h₁ h₂ h₃ same₁ same₂ same₃ in
      (
        woken k p l₁ h₁ l₂ h₂ l₃ h₃ a,
        wake_elapsed-round k p l₁ h₁ l₂ h₂ l₃ h₃ a n (last_or 0 ws) t c.timers.seg.0 p_ne
            due.process (timer_list_current-due k t ts c.timers due.elapsed) e₁ e₂
            (timer_list_remove_current-eq k₂ t j l₃ h₃ a c.timers.seg.0 due.block e₃ e₄),
        record {
          timers = is₃;
          waiting = waiting-after l₁ l₂ l₃ h₁ h₂ h₃ same₁ same₂ same₃ is₁;
          ready = ready-after l₁ l₂ l₃ h₁ h₂ h₃ same₁ same₂ same₃ is₂;
          timers_waiting =
              Disjoint-tail t ts (us ++ vs) (Disjoint-sym (us ++ vs) (t ∷ ts) waiting-timers);
          timers_ready = rw (append_snoc ws p rs) (
              Disjoint-tail t ts (ws ++ p ∷ rs)
                (Disjoint-sym (ws ++ p ∷ rs) (t ∷ ts) ready-timers));
          waiting_ready = rw (append_snoc ws p rs) ready-waiting;
          room = rw (append_snoc ws p rs) room-after;
          free = free;
          out = (out_timers, out_waiting, out_ready);
        },
        record {
          pcbs = refl;
          timers = refl;
          time = refl;
          running = refl;
          valid = v;
          buffer = b;
          item_size = s;
          size_max = m;
        },
      )
