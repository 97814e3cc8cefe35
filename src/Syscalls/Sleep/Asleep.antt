-- ===== src/Syscalls/Sleep/Asleep.antt =====
-- What `internal_sleep` (src/disastrOS_sleep.c) makes of the lists.
use disastr_os_semaphores.Common.{
  ℕ, ◌≡◌, refl, sym, ◌∙◌, true, false, some, List, [], ◌∷◌, ◌++◌, arith, length-append, has, ==-ne,
  ==-self,
}
use disastr_os_semaphores.LinkedList.{Links, ListHead}
use disastr_os_semaphores.LinkedList.Seg.{IsList, IsList-frame, SameOutside, Disjoint}
use disastr_os_semaphores.LinkedList.Insert.{IsFree}
use disastr_os_semaphores.LinkedList.Apart.{
  has_head, not-has-cons, Disjoint-sym, Disjoint-tail, Disjoint-cons, Disjoint-cons_right,
  Disjoint-append, Disjoint-nil_left,
}
use disastr_os_semaphores.Kernel.{Kernel, timer_list, ready_list, waiting_list, ProcessStatus}
use disastr_os_semaphores.Kernel.Lists.{relinked, insert_back-IsList, detach_first-IsList}
use disastr_os_semaphores.Objects.Timer.{timer_list_add}
use disastr_os_semaphores.Objects.Timer.Order.{
  not_after, from_later, not_after-from_later, IsOrdered,
}
use disastr_os_semaphores.Objects.Timer.Add.{
  new_timer, timed, timer_list_add-relinked, timed-IsOrdered,
}
use disastr_os_semaphores.Syscalls.Schedule.Lists.{Lists, Disjoint-add, not-has-add}
use disastr_os_semaphores.Syscalls.Sleep.{internal_sleep}
use disastr_os_semaphores.Syscalls.Sleep.States.{
  wake_time, put_down, left, slept, internal_sleep-eq, CanSleep,
}

-- `t` is the new timer; the timers before it are `ys` and those behind it `zs`.
module _ (k : Kernel) (i q : ℕ) (is ys zs ps rs : List ℕ)
    (s : CanSleep k i q is (ys ++ zs) ps rs) where
  abbrev r : ℕ
  r = k.running

  abbrev t : ℕ
  t = new_timer k i

  abbrev start : Kernel
  start = timed k timer_list (wake_time k) k.running i

  t-out : has t (r ∷ ps) ≡ false
  t-out = not-has-cons t r ps s.timer_out.0 s.timer_out.1

  r-out : (has r (ys ++ t ∷ zs) ≡ false) × (has r ps ≡ false) × (has r (q ∷ rs) ≡ false)
  r-out = (
    not-has-add r ys t zs s.lists.out.0 (λ e. s.timer_out.0 (sym e)),
    s.lists.out.1,
    s.lists.out.2,
  )

  links-start : SameOutside (t ∷ []) k.links start.links
  links-start a o = ground (arith, o)

  framed-start :
      (h : ListHead) (xs : List ℕ)
      → IsList k.links h xs
      → has t xs ≡ false
      → IsList start.links h xs
  framed-start h xs is' o =
      IsList-frame (t ∷ []) xs is' links-start
        (Disjoint-sym (t ∷ []) xs (Disjoint-cons t [] xs o (Disjoint-nil_left xs)))

  timers-waiting : Disjoint (ys ++ t ∷ zs) (r ∷ ps)
  timers-waiting =
      Disjoint-add ys t zs (r ∷ ps)
        (Disjoint-cons_right r (ys ++ zs) ps s.lists.out.0 s.lists.timers_waiting) t-out

  timers-ready : Disjoint (ys ++ t ∷ zs) (q ∷ rs)
  timers-ready = Disjoint-add ys t zs (q ∷ rs) s.lists.timers_ready s.timer_out.2

  waiting-ready : Disjoint (ps ++ r ∷ []) (q ∷ rs)
  waiting-ready =
      Disjoint-append ps (r ∷ []) (q ∷ rs) s.lists.waiting_ready
        (Disjoint-cons r [] (q ∷ rs) r-out.2 (Disjoint-nil_left (q ∷ rs)))

  others-timers :
      (xs : List ℕ) → Disjoint (ys ++ zs) xs → has t xs ≡ false → Disjoint xs (t ∷ (ys ++ zs))
  others-timers xs d o = Disjoint-cons_right t xs (ys ++ zs) o (Disjoint-sym (ys ++ zs) xs d)

  q-out : (has q (ys ++ t ∷ zs) ≡ false) × (has q (ps ++ r ∷ []) ≡ false) × (has q rs ≡ false)
  q-out =
      let here : has q (q ∷ rs) ≡ true = rw (==-self q) refl in
      (
        Disjoint-sym (ys ++ t ∷ zs) (q ∷ rs) timers-ready q here,
        Disjoint-sym (ps ++ r ∷ []) (q ∷ rs) waiting-ready q here,
        s.lists.ready.seg.2,
      )

  -- The lists after each write.
  module _ (l₁ : Links) (same₁ : SameOutside (t ∷ (ys ++ zs)) start.links l₁) where
    waiting-before : IsList l₁ (k.heads waiting_list) ps
    waiting-before =
        IsList-frame (t ∷ (ys ++ zs)) ps
          (framed-start (k.heads waiting_list) ps s.lists.waiting s.timer_out.1) same₁
          (others-timers ps s.lists.timers_waiting s.timer_out.1)

    running-before : IsFree l₁ r
    running-before = record {
      ne_null = s.lists.free.ne_null;
      unlinked =
          same₁ r (not-has-cons r t (ys ++ zs) (λ e. s.timer_out.0 (sym e)) s.lists.out.0)
          ∙ links-start r (not-has-cons r t [] (λ e. s.timer_out.0 (sym e)) refl)
          ∙ s.lists.free.unlinked;
    }

    module _ (l₂ : Links) (same₂ : SameOutside (r ∷ ps) l₁ l₂) where
      ready-before : IsList l₂ (k.heads ready_list) (q ∷ rs)
      ready-before =
          IsList-frame (r ∷ ps) (q ∷ rs)
            (IsList-frame (t ∷ (ys ++ zs)) (q ∷ rs)
              (framed-start (k.heads ready_list) (q ∷ rs) s.lists.ready s.timer_out.2) same₁
              (others-timers (q ∷ rs) s.lists.timers_ready s.timer_out.2))
            same₂
            (Disjoint-cons_right r (q ∷ rs) ps r-out.2
              (Disjoint-sym ps (q ∷ rs) s.lists.waiting_ready))

      module _ (l₃ : Links) (h₁ h₂ h₃ : ListHead) (same₃ : SameOutside (q ∷ rs) l₂ l₃) where
        lists-after :
            IsList l₁ h₁ (ys ++ t ∷ zs)
            → IsList l₂ h₂ (ps ++ r ∷ [])
            → IsList l₃ h₃ rs
            → IsFree l₃ q
            → Lists (slept k i q l₁ l₂ l₃ h₁ h₂ h₃) (ys ++ t ∷ zs) (ps ++ r ∷ []) [] rs
        lists-after is₁ is₂ is₃ free₃ =
            let behind =
              Disjoint-tail q rs (ps ++ r ∷ [])
                (Disjoint-sym (ps ++ r ∷ []) (q ∷ rs) waiting-ready) in
            record {
              timers =
                  IsList-frame (q ∷ rs) (ys ++ t ∷ zs)
                    (IsList-frame (r ∷ ps) (ys ++ t ∷ zs) is₁ same₂ timers-waiting) same₃
                    timers-ready;
              waiting = IsList-frame (q ∷ rs) (ps ++ r ∷ []) is₂ same₃ waiting-ready;
              ready = is₃;
              timers_waiting = Disjoint-sym (ps ++ r ∷ []) (ys ++ t ∷ zs) (
                  Disjoint-append ps (r ∷ []) (ys ++ t ∷ zs)
                    (Disjoint-tail r ps (ys ++ t ∷ zs)
                      (Disjoint-sym (ys ++ t ∷ zs) (r ∷ ps) timers-waiting))
                    (Disjoint-cons r [] (ys ++ t ∷ zs) r-out.0 (Disjoint-nil_left (ys ++ t ∷ zs))));
              timers_ready = Disjoint-sym rs (ys ++ t ∷ zs) (
                  Disjoint-tail q rs (ys ++ t ∷ zs)
                    (Disjoint-sym (ys ++ t ∷ zs) (q ∷ rs) timers-ready));
              waiting_ready = Disjoint-sym rs (ps ++ r ∷ []) behind;
              room = omega (arith, s.lists.room, length-append {0} ps (r ∷ []));
              free = free₃;
              out = q-out;
            }

  asleep :
      (l₁ : Links) (h₁ : ListHead)
      → timer_list_add timer_list (wake_time k) r k ≡ some (t, relinked start timer_list l₁ h₁)
      → IsList l₁ h₁ (ys ++ t ∷ zs)
      → SameOutside (t ∷ (ys ++ zs)) start.links l₁
      → (k' : Kernel) × (internal_sleep k ≡ some (tt, k'))
        × Lists k' (ys ++ t ∷ zs) (ps ++ r ∷ []) [] rs
        × (k'.running ≡ q)
        × ((k'.pcbs r).status ≡ ProcessStatus.waiting)
        × (k'.pcbs q ≡ k.pcbs q)
        × (k'.timers ≡ start.timers)
  asleep l₁ h₁ e₁ is₁ same₁ =
      let (l₂, h₂, e₂, is₂, same₂) =
        insert_back-IsList (put_down k i q l₁ l₁ l₁ h₁ h₁ h₁) waiting_list r ps (omega arith)
          (waiting-before l₁ same₁) (running-before l₁ same₁) r-out.1
          (omega (arith, s.lists.room)) in
      let (l₃, h₃, e₃, is₃, free₃, same₃) =
        detach_first-IsList (left k i q l₁ l₂ l₂ h₁ h₂ h₂) ready_list q rs (omega arith)
          (ready-before l₁ same₁ l₂ same₂) in
      (
        slept k i q l₁ l₂ l₃ h₁ h₂ h₃,
        internal_sleep-eq k i q l₁ l₂ l₃ h₁ h₂ h₃ s.lists.free.ne_null s.lists.ready.seg.0
            s.add.new_ne s.awake s.lists.ready.first e₁ e₂ e₃,
        lists-after l₁ same₁ l₂ same₂ l₃ h₁ h₂ h₃ same₃ is₁ is₂ is₃ free₃,
        refl,
        rw (==-self r),
        rw (==-ne q r (λ e. has_head r q rs r-out.2 (sym e))),
        refl,
      )

-- `internal_sleep`, with another process ready, a block free for the timer and none for the process
-- yet, puts the running process behind the waiting ones and its timer among the timers, which stay in
-- the order of their times, at the time now and as many cycles more as the call asks for. The first
-- ready process runs, and nothing in its PCB changes; the lists stay in order and apart.
pub internal_sleep-asleep :
    (k : Kernel) (i q : ℕ) (is xs ps rs : List ℕ)
    → CanSleep k i q is xs ps rs
    → (k' : Kernel) × (internal_sleep k ≡ some (tt, k'))
      × Lists k'
          (not_after k.timers (wake_time k) xs
            ++ new_timer k i ∷ from_later k.timers (wake_time k) xs)
          (ps ++ k.running ∷ [])
          []
          rs
      × IsOrdered k'.timers (
          not_after k.timers (wake_time k) xs
          ++ new_timer k i ∷ from_later k.timers (wake_time k) xs)
      × (k'.timers (new_timer k i) ≡ record { awakening_time = wake_time k; pcb = k.running })
      × ((k'.pcbs k.running).status ≡ ProcessStatus.waiting)
      × (k'.running ≡ q)
      × (k'.pcbs q ≡ k.pcbs q)
internal_sleep-asleep k i q is xs ps rs s =
    let time = wake_time k in
    let ys = not_after k.timers time xs in
    let zs = from_later k.timers time xs in
    let whole : ys ++ zs ≡ xs = not_after-from_later k.timers time xs in
    let s' : CanSleep k i q is (ys ++ zs) ps rs = rw whole s in
    let (l, h, e, is', same) = timer_list_add-relinked k timer_list time k.running i is xs s.add in
    let (k', e', lists, run, status, pcb, timers) =
      asleep k i q is ys zs ps rs s' l h e is' (rw whole same) in
    (
      k',
      e',
      lists,
      rw timers (timed-IsOrdered k timer_list time k.running i is xs s.add),
      rw timers (rw (==-self (new_timer k i)) refl),
      status,
      run,
      pcb,
    )
