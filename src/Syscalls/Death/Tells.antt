-- ===== src/Syscalls/Death/Tells.antt =====
-- `internal_exit` (src/disastrOS_exit.c) up to the test of the parent.
use Prim.Native.Nat.{bit_and, bit_or}
use disastr_os_semaphores.Common.{
  ℕ, suc, ◌^◌, ◌<◌, ◌≤◌, ◌≡◌, ◌≢◌, refl, sym, ◌∙◌, ap, Bool, true, false, some, List, [], ◌∷◌, ◌++◌,
  arith, length, has, ==-ne, ==-self, if◌then◌else◌,
}
use disastr_os_semaphores.LinkedList.{Links, ListHead}
use disastr_os_semaphores.LinkedList.Insert.{IsFree}
use disastr_os_semaphores.Syscalls.Common.{running_pcb}
use mathlib.Core.Path.{subst}
use disastr_os_semaphores.LinkedList.Apart.{not-has-append}
use disastr_os_semaphores.Kernel.{
  M, ◌>>=◌, ◌>>◌, set_pcb, get_pcb, Kernel, ListRef, update, children, zombie_list, insert_back,
  walk_rounds, ProcessStatus, dsos_sigchld,
}
use disastr_os_semaphores.Kernel.Lists.{relinked}
use disastr_os_semaphores.Kernel.World.{
  World, IsOutside, World-insert_back, World-state, IsOutside-put,
}
use disastr_os_semaphores.Kernel.View.{View, put}
use disastr_os_semaphores.Syscalls.Death.{
  internal_exit, reparent, report_to_parent, leave_zombie, awaits,
}
use disastr_os_semaphores.Syscalls.Death.Reparent.{
  CanAdopt, adopted_view, given_away, reparent-given_away,
}
use disastr_os_semaphores.Syscalls.Death.Kept.{valued, chld, exit_pcbs, gone-parent, gone-awaits}

abbrev pub with_status : Kernel → (p : ℕ) → ProcessStatus → Kernel
with_status k p s = record k { pcbs = update k.pcbs p (record (k.pcbs p) { status = s }) }

-- The parent is told, and what follows is its choice.
abbrev tell : M (Unit {0})
tell = do
  p ← running_pcb
  set_pcb p.parent
      λ q. record q { signals = bit_or q.signals (bit_and dsos_sigchld q.signals_mask) }
  parent ← get_pcb p.parent
  if awaits parent p.pid then report_to_parent p.parent else leave_zombie

-- What `internal_exit` does once the children are given away.
abbrev die : (r : ℕ) → M (Unit {0})
die r = do
  set_pcb r λ p. record p { status = ProcessStatus.zombie }
  insert_back zombie_list r
  tell

internal_exit-die :
    (k k₁ : Kernel)
    → k.running ≢ 0
    → k.init_pcb ≢ 0
    → reparent walk_rounds (valued k) ≡ some (tt, k₁)
    → internal_exit k ≡ die k.running k₁
unfolding internal_exit
internal_exit-die k k₁ nr ni e =
    simp (==-ne k.running 0 nr, ==-ne k.init_pcb 0 ni) (rw e (rw (==-ne k.running 0 nr) refl))

-- The process with the PCB `f` gets SIGCHLD.
abbrev pub told : (k : Kernel) (f : ℕ) → Kernel
told k f = record k { pcbs = update k.pcbs f (chld (k.pcbs f)) }

-- What is done at the end, for a parent at `f`.
abbrev pub reports : Kernel → (f : ℕ) → M (Unit {0})
reports k f = if awaits (k.pcbs f) (k.pcbs k.running).pid then report_to_parent f else leave_zombie

tell-told :
    (k : Kernel) (f : ℕ)
    → k.running ≢ 0
    → f ≢ 0
    → (k.pcbs k.running).parent ≡ f
    → tell k ≡ reports k f (told k f)
tell-told k f nr nf parent =
    let father = (k.pcbs k.running).parent in
    let set : father ≢ 0 = λ e. nf (sym parent ∙ e) in
    subst (λ f. tell k ≡ reports k f (told k f)) parent
      (rw (==-ne k.running 0 nr, ==-ne father 0 set, ==-self father) (rw (==-ne father 0 set) refl))

module _ (k : Kernel) (l : Links) (h : ListHead) where
  abbrev pub dead : Kernel
  dead = relinked (with_status k k.running ProcessStatus.zombie) zombie_list l h

  die-dead :
      k.running ≢ 0
      → insert_back zombie_list k.running (with_status k k.running ProcessStatus.zombie)
        ≡ some (k.running, dead)
      → die k.running k ≡ tell dead
  die-dead nr e = rw (==-ne k.running 0 nr) (rw e (rw (==-ne k.running 0 nr) refl))

-- The process, whose parent is another one at `f`, is in no list, and has the children `cs`; those of
-- the first process are `ds`, and the terminated ones are `zs`.
pub record CanExit (k : Kernel) (live : ListRef → Bool) (v : View) (f : ℕ) (cs ds zs : List ℕ)
    : Type 0 where
  pub adopts : CanAdopt k live v cs ds
  pub few : length cs ≤ 1024
  pub live_zombies : live zombie_list ≡ true
  pub zombies : v zombie_list ≡ zs
  pub free : IsFree k.links k.running
  pub out : IsOutside live v k.running
  pub room : suc (length zs) < 2 ^ 31
  pub parent : (k.pcbs k.running).parent ≡ f
  pub has_parent : f ≢ 0
  pub other : f ≢ k.running

abbrev pub exit_view : Kernel → View → (cs ds zs : List ℕ) → View
exit_view k v cs ds zs =
    put (adopted_view v k.running k.init_pcb cs ds) zombie_list (zs ++ k.running ∷ [])

abbrev pub exiting : (k : Kernel) (f : ℕ) (cs : List ℕ) → Links → (ListRef → ListHead) → Kernel
exiting k f cs l h = record k { links = l; heads = h; pcbs = exit_pcbs k f cs }

pub internal_exit-exiting :
    (k : Kernel) (live : ListRef → Bool) (v : View) (f : ℕ) (cs ds zs : List ℕ)
    → CanExit k live v f cs ds zs
    → (l : Links) × (h : ListRef → ListHead) × (internal_exit k ≡ reports k f (exiting k f cs l h))
      × World (exiting k f cs l h) live (exit_view k v cs ds zs)
internal_exit-exiting k live v f cs ds zs c =
    let r = k.running in
    let a = children r in
    let b = children k.init_pcb in
    let nr = c.free.ne_null in
    let enough : length cs < walk_rounds = unfold walk_rounds in omega (arith, c.few) in
    let (l₁, h₁, e₁, w₁, same₁) =
      reparent-given_away cs ds walk_rounds (valued k) live v
        (record {
          world = World-state k (valued k) live v refl refl c.adopts.world;
          live_own = c.adopts.live_own;
          live_init = c.adopts.live_init;
          other = c.adopts.other;
          own = c.adopts.own;
          before = c.adopts.before;
          processes = c.adopts.processes;
          room = c.adopts.room;
        })
        enough in
    let k₁ = given_away (valued k) l₁ h₁ cs in
    let v₁ = adopted_view v r k.init_pcb cs ds in
    let out_cs : has r cs ≡ false = rw c.adopts.own at (c.out a c.adopts.live_own) in
    let out_ds : has r ds ≡ false = rw c.adopts.before at (c.out b c.adopts.live_init) in
    let free : IsFree l₁ r = record { ne_null = nr; unlinked = same₁ r c.out ∙ c.free.unlinked } in
    let out : IsOutside live v₁ r =
      IsOutside-put live (put v a []) b (ds ++ cs) r (not-has-append r ds cs out_ds out_cs)
        (IsOutside-put live v a [] r refl c.out) in
    let (l₂, h₂, e₂, w₂, same₂) =
      World-insert_back (with_status k₁ r ProcessStatus.zombie) live v₁
        (World-state k₁ (with_status k₁ r ProcessStatus.zombie) live v₁ refl refl w₁) zombie_list
        c.live_zombies r zs c.zombies free out c.room in
    let k₂ = dead k₁ l₂ h₂ in
    (
      l₂,
      k₂.heads,
      internal_exit-die k k₁ nr (c.adopts.world.owners b c.adopts.live_init) e₁
          ∙ die-dead k₁ l₂ h₂ nr e₂
          ∙ tell-told k₂ f nr c.has_parent (gone-parent k f cs ∙ c.parent)
          ∙ ap (λ x. (if x then report_to_parent f else leave_zombie) (told k₂ f))
              (gone-awaits k f cs c.other),
      World-state k₂ (exiting k f cs l₂ k₂.heads) live (exit_view k v cs ds zs) refl refl w₂,
    )
