-- ===== src/Syscalls/Death/Reparent.antt =====
-- The loop of `internal_exit` (src/disastrOS_exit.c) that gives the children to the first process.
use Prim.Native.Nat.{bit_and, bit_or}
use disastr_os_semaphores.Common.{
  ℕ, zero, suc, ◌+◌, ◌^◌, ◌<◌, ◌≡◌, ◌≢◌, refl, sym, ◌∙◌, ap, Bool, true, false, some, List, [], ◌∷◌,
  ◌++◌, arith, first_or, length, length-append, has, ==-ne, ==-self, is_set,
}
use mathlib.Core.List.{append-nil, append_assoc}
use disastr_os_semaphores.LinkedList.{Links, ListHead}
use disastr_os_semaphores.LinkedList.Apart.{has_head, has_tail, not-has-cons, not-has-append}
use disastr_os_semaphores.Kernel.{
  Kernel, Pcb, PcbPtr, ListRef, M, skip, and_then, ◌>>◌, update, same_ref, children, detach_first,
  insert_back, dsos_sighup,
}
use disastr_os_semaphores.Kernel.Lists.{relinked}
use disastr_os_semaphores.Kernel.World.{
  World, SameElsewhere, World-insert_back, World-detach_first, World-state, World-view,
  IsOutside-put,
}
use disastr_os_semaphores.Kernel.View.{
  View, put, put-put_both, put-same, same_ref-sym, same_ref_self,
}
use disastr_os_semaphores.Syscalls.Schedule.Wake.{when_set, when_unset}
use disastr_os_semaphores.Syscalls.Death.{give_child, reparent}

-- The processes at the entries of a list of children.
abbrev pub procs : (ℕ → PcbPtr) → List ℕ → List ℕ
procs ptrs [] = []
procs ptrs (e ∷ es) = (ptrs e).pcb ∷ procs ptrs es

-- SIGHUP is sent, as far as the mask lets it through.
abbrev pub hup : Pcb → Pcb
hup p = record p { signals = bit_or p.signals (bit_and dsos_sighup p.signals_mask) }

unfoldable pub hupped : (ℕ → Pcb) → List ℕ → ℕ → Pcb
hupped pcbs [] = pcbs
hupped pcbs (p ∷ ps) = hupped (update pcbs p (hup (pcbs p))) ps

-- A round, with what comes after it.
abbrev round_and : M (Unit {0}) → M (Unit {0})
round_and next = do give_child; next

module _ (k : Kernel) (e : ℕ) (l₁ l₂ : Links) (h₁ h₂ : ListHead) where
  abbrev pub orphaned : Kernel
  orphaned = relinked k (children k.running) l₁ h₁

  abbrev pub handed : Kernel
  handed =
      let k₂ = relinked orphaned (children k.init_pcb) l₂ h₂ in
      let p = (k.pcb_ptrs e).pcb in record k₂ { pcbs = update k.pcbs p (hup (k.pcbs p)) }

  pub give_child-handed :
      e ≢ 0
      → (k.pcb_ptrs e).pcb ≢ 0
      → detach_first (children k.running) k ≡ some (e, orphaned)
      → insert_back (children k.init_pcb) e orphaned
        ≡ some (e, relinked orphaned (children k.init_pcb) l₂ h₂)
      → give_child k ≡ some (tt, handed)
  unfolding give_child
  give_child-handed ne np e₁ e₂ =
      rw e₁ (rw (==-ne e 0 ne) (rw e₂ (simp (==-ne e 0 ne, ==-ne (k.pcb_ptrs e).pcb 0 np))))

  pub reparent-round :
      (n : ℕ)
      → k.running ≢ 0
      → e ≢ 0
      → (k.heads (children k.running)).first ≡ e
      → (k.pcb_ptrs e).pcb ≢ 0
      → detach_first (children k.running) k ≡ some (e, orphaned)
      → insert_back (children k.init_pcb) e orphaned
        ≡ some (e, relinked orphaned (children k.init_pcb) l₂ h₂)
      → reparent (suc n) k ≡ reparent n handed
  unfolding reparent
  reparent-round n nr ne first np e₁ e₂ =
      let set : is_set (k.heads (children k.running)).first ≡ true =
        rw (first, ==-ne e 0 ne) refl in
      rw (==-ne k.running 0 nr) (
        when_set (is_set (k.heads (children k.running)).first) (round_and (reparent n)) skip k set
        ∙ ap (λ x. and_then x λ _. reparent n) (give_child-handed ne np e₁ e₂))

reparent_done :
    (k : Kernel) (n : ℕ)
    → k.running ≢ 0
    → (k.heads (children k.running)).first ≡ 0
    → reparent (suc n) k ≡ some (tt, k)
unfolding reparent
reparent_done k n nr none_left = rw (==-ne k.running 0 nr) (
    when_unset (is_set (k.heads (children k.running)).first) (round_and (reparent n)) skip k
      (rw none_left refl))

-- The children of the running process are `cs`, and those of the first process, which is another one,
-- `ds`.
pub record CanAdopt (k : Kernel) (live : ListRef → Bool) (v : View) (cs ds : List ℕ) : Type 0 where
  pub world : World k live v
  pub live_own : live (children k.running) ≡ true
  pub live_init : live (children k.init_pcb) ≡ true
  pub other : same_ref (children k.init_pcb) (children k.running) ≡ false
  pub own : v (children k.running) ≡ cs
  pub before : v (children k.init_pcb) ≡ ds
  pub processes : (e : ℕ) → has e cs ≡ true → (k.pcb_ptrs e).pcb ≢ 0
  pub room : length cs + length ds < 2 ^ 31

abbrev pub adopted_view : View → (running init : ℕ) → (cs ds : List ℕ) → View
adopted_view v r i cs ds = put (put v (children r) []) (children i) (ds ++ cs)

abbrev pub given_away : Kernel → Links → (ListRef → ListHead) → (cs : List ℕ) → Kernel
given_away k l h cs = record k { links = l; heads = h; pcbs = hupped k.pcbs (procs k.pcb_ptrs cs) }

-- With more rounds than children, the loop ends: all are behind those of the first process, and each
-- is sent SIGHUP. Nothing else of the state changes.
pub reparent-given_away :
    (cs ds : List ℕ) (n : ℕ) (k : Kernel) (live : ListRef → Bool) (v : View)
    → CanAdopt k live v cs ds
    → length cs < n
    → (l : Links) × (h : ListRef → ListHead) × (reparent n k ≡ some (tt, given_away k l h cs))
      × World (given_away k l h cs) live (adopted_view v k.running k.init_pcb cs ds)
      × SameElsewhere live v k.links l
unfolding hupped
reparent-given_away cs ds zero k live v c enough = absurd (omega arith)
reparent-given_away [] ds (suc n) k live v c enough =
    let r = k.running in
    let none_left : (k.heads (children r)).first ≡ 0 =
      (c.world.lists (children r) c.live_own).first ∙ ap (first_or 0) c.own in
    (
      k.links,
      k.heads,
      reparent_done k n (c.world.owners (children r) c.live_own) none_left,
      World-view k live v (adopted_view v r k.init_pcb [] ds)
          (λ s.
            put-same (put v (children r) []) (children k.init_pcb) (ds ++ []) s
              (rw c.other (c.before ∙ sym (append-nil ds)))
            ∙ put-same v (children r) [] s c.own)
          c.world,
      (λ a o. refl),
    )
reparent-given_away (e ∷ cs) ds (suc n) k live v c enough =
    let a = children k.running in
    let b = children k.init_pcb in
    let here = c.world.lists a c.live_own in
    let (l₁, h₁, e₁, w₁, free₁, out₁, same₁) =
      World-detach_first k live v c.world a c.live_own e cs c.own in
    let v₁ = put v a cs in
    let (l₂, h₂, e₂, w₂, same₂) =
      World-insert_back (orphaned k e l₁ l₁ h₁ h₁) live v₁ w₁ b c.live_init e ds
        (rw c.other c.before) free₁ out₁ (omega (arith, c.room)) in
    let v₂ = put v₁ b (ds ++ e ∷ []) in
    let k₂ = handed k e l₁ l₂ h₁ h₂ in
    let ne : e ≢ 0 = free₁.ne_null in
    let first : (k.heads a).first ≡ e = here.first ∙ ap (first_or 0) c.own in
    let round =
      reparent-round k e l₁ l₂ h₁ h₂ n (c.world.owners a c.live_own) ne first
        (c.processes e (rw (==-self e) refl)) e₁ e₂ in
    let (l, h, e', w, same) =
      reparent-given_away cs (ds ++ e ∷ []) n k₂ live v₂
        (record {
          world = World-state (relinked (orphaned k e l₁ l₁ h₁ h₁) b l₂ h₂) k₂ live v₂ refl refl w₂;
          live_own = c.live_own;
          live_init = c.live_init;
          other = c.other;
          own = rw (same_ref-sym b a c.other, same_ref_self a) refl;
          before = rw (same_ref_self b) refl;
          processes = λ x i. c.processes x (rw i (ground arith));
          room = rw (length-append ds (e ∷ [])) (omega (arith, c.room));
        })
        (omega (arith, enough)) in
    (
      l,
      h,
      round ∙ e',
      World-view (given_away k l h (e ∷ cs)) live
          (adopted_view v₂ k.running k.init_pcb cs (ds ++ e ∷ []))
          (adopted_view v k.running k.init_pcb (e ∷ cs) ds)
          (λ s.
            put-put_both v a b cs (ds ++ e ∷ []) [] (ds ++ e ∷ cs) s
            ∙ ap (λ xs. put (put v₂ a []) b xs s) (sym (append_assoc ds (e ∷ []) cs)))
          w,
      (λ x o.
          let out : has x (e ∷ cs) ≡ false = rw c.own at (o a c.live_own) in
          let out_ds : has x ds ≡ false = rw c.before at (o b c.live_init) in
          let nx = has_head x e cs out in
          let o₁ = IsOutside-put live v a cs x (has_tail x e cs out) o in
          let o₂ =
            IsOutside-put live v₁ b (ds ++ e ∷ []) x
              (not-has-append x ds (e ∷ []) out_ds (not-has-cons x e [] nx refl)) o₁ in
          same x o₂ ∙ same₂ x nx o₁ ∙ same₁ x o),
    )
