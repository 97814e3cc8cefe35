-- ===== src/Syscalls/Death/Endless.antt =====
-- The loop of `internal_exit` (src/disastrOS_exit.c) over the children, for the first process.
use disastr_os_semaphores.Common.{
  ℕ, zero, suc, ◌^◌, ◌<◌, ◌≡◌, ◌≢◌, refl, sym, ◌∙◌, ap, Bool, Bool-cases, inl, inr, true, some,
  none, List, [], ◌∷◌, ◌++◌, arith, length, length-append, first_or, has, has-append, ==-self,
}
use disastr_os_semaphores.Kernel.{Kernel, ListRef, M, skip, ◌>>◌, children, same_ref}
use disastr_os_semaphores.Kernel.Lists.{relinked}
use disastr_os_semaphores.Kernel.World.{
  World, World-detach_first, World-insert_back, World-state, World-view,
}
use disastr_os_semaphores.Kernel.View.{View, put, put-same, same_ref_self}
use disastr_os_semaphores.Syscalls.Death.{give_child, reparent}
use disastr_os_semaphores.Syscalls.Death.Reparent.{
  handed, orphaned, give_child-handed, reparent-round,
}

-- The first process runs, and has the children `e ∷ cs`.
pub record IsFirstParent (k : Kernel) (live : ListRef → Bool) (v : View) (e : ℕ) (cs : List ℕ)
    : Type 0 where
  pub world : World k live v
  pub live_own : live (children k.running) ≡ true
  pub first : k.init_pcb ≡ k.running
  pub own : v (children k.running) ≡ e ∷ cs
  pub processes : (x : ℕ) → has x (e ∷ cs) ≡ true → (k.pcb_ptrs x).pcb ≢ 0
  pub room : suc (length cs) < 2 ^ 31

-- The first item of `cs ++ e ∷ []`, and the others.
abbrev next_first : (e : ℕ) → List ℕ → ℕ
next_first e cs = first_or e cs

abbrev next_others : (e : ℕ) → List ℕ → List ℕ
next_others e [] = []
next_others e (c ∷ cs) = cs ++ e ∷ []

turned : (e : ℕ) (cs : List ℕ) → cs ++ e ∷ [] ≡ next_first e cs ∷ next_others e cs
turned e [] = refl
turned e (c ∷ cs) = refl

has-rotate : (x e : ℕ) (cs : List ℕ) → has x (cs ++ e ∷ []) ≡ true → has x (e ∷ cs) ≡ true
has-rotate x e cs i = ground (arith, has-append x cs (e ∷ []))

-- The body of the loop, `n` times.
unfoldable pub give_children : (n : ℕ) → M (Unit {0})
give_children zero = skip
give_children (suc n) = do give_child; give_children n

-- A list after `n` times in which its first item has become the last one.
unfoldable pub turns : (n : ℕ) → List ℕ → List ℕ
turns zero cs = cs
turns (suc n) [] = []
turns (suc n) (c ∷ cs) = turns n (cs ++ c ∷ [])

-- After `n` rounds the state is `k'`: the children of the running process, which is the first one, are
-- those of before, turned, and it still has one.
pub record IsTurned (n : ℕ) (k k' : Kernel) (live : ListRef → Bool) (v : View) (cs : List ℕ)
    : Type 0 where
  pub world : World k' live (put v (children k.running) (turns n cs))
  pub running : k'.running ≡ k.running
  pub first_process : k'.init_pcb ≡ k.init_pcb
  pub more : (k'.heads (children k.running)).first ≢ 0

module _ (k : Kernel) (live : ListRef → Bool) (v : View) (e : ℕ) (cs : List ℕ)
    (c : IsFirstParent k live v e cs) where
  head-more : (k.heads (children k.running)).first ≢ 0
  head-more =
      let a = children k.running in
      let (l₁, h₁, e₁, w₁, free₁, out₁, same₁) =
        World-detach_first k live v c.world a c.live_own e cs c.own in
      rw ((c.world.lists a c.live_own).first ∙ ap (first_or 0) c.own) free₁.ne_null

  -- The view after one round.
  abbrev turned_view : View
  turned_view = put (put v (children k.running) cs) (children k.init_pcb) (cs ++ e ∷ [])

  turned_view-put :
      (xs : List ℕ) (s : ListRef)
      → put turned_view (children k.running) xs s ≡ put v (children k.running) xs s
  turned_view-put xs s = rw c.first (elim (Bool-cases (same_ref s (children k.running))) [
    | inl i ↦ rw i refl
    | inr o ↦ rw o refl
  ])

  -- One round of the loop.
  one_turn :
      (k₂ : Kernel) × (give_child k ≡ some (tt, k₂))
      × ((n : ℕ) → reparent (suc n) k ≡ reparent n k₂)
      × (k₂.running ≡ k.running)
      × (k₂.init_pcb ≡ k.init_pcb)
      × IsFirstParent k₂ live turned_view (next_first e cs) (next_others e cs)
  one_turn =
      let a = children k.running in
      let b = children k.init_pcb in
      let here = c.world.lists a c.live_own in
      let (l₁, h₁, e₁, w₁, free₁, out₁, same₁) =
        World-detach_first k live v c.world a c.live_own e cs c.own in
      let v₁ = put v a cs in
      let (l₂, h₂, e₂, w₂, same₂) =
        World-insert_back (orphaned k e l₁ l₁ h₁ h₁) live v₁ w₁ b (rw c.first c.live_own) e cs
          (rw (c.first, same_ref_self a) refl) free₁ out₁ c.room in
      let k₂ = handed k e l₁ l₂ h₁ h₂ in
      let nr = c.world.owners a c.live_own in
      let np = c.processes e (rw (==-self e) refl) in
      let now : turned_view a ≡ cs ++ e ∷ [] = rw (c.first, same_ref_self a) refl in
      let first : (k.heads a).first ≡ e = here.first ∙ ap (first_or 0) c.own in
      (
        k₂,
        give_child-handed k e l₁ l₂ h₁ h₂ free₁.ne_null np e₁ e₂,
        λ n. reparent-round k e l₁ l₂ h₁ h₂ n nr free₁.ne_null first np e₁ e₂,
        refl,
        refl,
        record {
          world =
              World-state (relinked (orphaned k e l₁ l₁ h₁ h₁) b l₂ h₂) k₂ live turned_view refl
                refl w₂;
          live_own = c.live_own;
          first = c.first;
          own = now ∙ turned e cs;
          processes = λ x i. c.processes x (has-rotate x e cs (ap (has x) (turned e cs) ∙ i));
          room =
              let same : suc (length (next_others e cs)) ≡ length (cs ++ e ∷ []) =
                ap length (sym (turned e cs)) in
              omega (arith, c.room, same, length-append cs (e ∷ []));
        },
      )

-- The first process exits while it has children, fewer than 2 ^ 31 and each of them a process,
-- with lists in order and apart. The loop gives the children to the process itself, and never
-- ends: for every number `n`, the body of the loop runs `n` times without a fault. Then the list
-- of children is that of before with its first item moved to the end `n` times, every other list
-- is as it was, and the condition of the loop holds once more. So no number of rounds is enough.
pub reparent-none :
    (n : ℕ) (k : Kernel) (live : ListRef → Bool) (v : View) (e : ℕ) (cs : List ℕ)
    → IsFirstParent k live v e cs
    → (k' : Kernel) × (give_children n k ≡ some (tt, k'))
      × IsTurned n k k' live v (e ∷ cs)
      × (reparent n k ≡ none)
unfolding reparent give_children turns
reparent-none zero k live v e cs c = (
  k,
  refl,
  record {
    world =
        World-view k live v (put v (children k.running) (e ∷ cs))
          (λ s. put-same v (children k.running) (e ∷ cs) s c.own) c.world;
    running = refl;
    first_process = refl;
    more = head-more k live v e cs c;
  },
  refl,
)
reparent-none (suc n) k live v e cs c =
    let (k₂, body, round, same, same_init, c₂) = one_turn k live v e cs c in
    let (k', runs, t, more_rounds) =
      reparent-none n k₂ live (turned_view k live v e cs c) (next_first e cs) (next_others e cs)
        c₂ in
    let a = children k.running in
    let u = turned_view k live v e cs c in
    (
      k',
      rw body runs,
      record {
        world =
            World-view k' live
              (put (turned_view k live v e cs c) (children k₂.running)
                (turns n (next_first e cs ∷ next_others e cs)))
              (put v (children k.running) (turns n (cs ++ e ∷ [])))
              (λ s.
                sym (turned_view-put k live v e cs c (turns n (cs ++ e ∷ [])) s)
                ∙ ap (λ (xs : List ℕ). put u a (turns n xs) s) (turned e cs)
                ∙ ap
                    (λ (r : ℕ). put u (children r) (turns n (next_first e cs ∷ next_others e cs)) s)
                    (sym same))
              t.world;
        running = t.running ∙ same;
        first_process = t.first_process ∙ same_init;
        more = rw same at t.more;
      },
      round n ∙ more_rounds,
    )
