-- ===== src/Syscalls/Death/Scan.antt =====
-- The scan of the children in `internal_wait` (src/disastrOS_wait.c).
use disastr_os_semaphores.Common.{
  ℕ, zero, suc, ℤ, pos, ◌<◌, ◌≤◌, ◌≡◌, ◌≢◌, refl, Bool, Bool-cases, inl, inr, false, not, ◌&&◌,
  ◌||◌, some, List, [], ◌∷◌, ◌++◌, arith, length, first_or, ==-ne, ◌==◌, ◌==ℤ◌, is_set,
  if◌then◌else◌, ◌∙◌, ap, ltb_ℤ,
}
use disastr_os_semaphores.LinkedList.Seg.{Seg}
use disastr_os_semaphores.LinkedList.{Links}
use disastr_os_semaphores.Kernel.Lists.{ListIs}
use disastr_os_semaphores.Kernel.{Kernel, ListRef, children, walk_rounds}
use disastr_os_semaphores.Syscalls.Death.{
  internal_wait, scan_children, reap, block_parent, is_zombie,
}
use disastr_os_semaphores.Syscalls.SemOpen.Refuses.{arg}

-- The child at an entry is the one that is waited for: a zombie if any child is, else the one with
-- the number.
abbrev pub matches : Kernel → (pid : ℤ) → (entry : ℕ) → Bool
matches k pid e =
    let p = k.pcbs (k.pcb_ptrs e).pcb in
    ((pid ==ℤ pos 0) && is_zombie p.status) || (not (pid ==ℤ pos 0) && p.pid ==ℤ pid)

-- The first entry that passes the test, or the last one if none does.
unfoldable pub first_or_last : (ℕ → Bool) → ℕ → List ℕ → ℕ
first_or_last test d [] = d
first_or_last test d (x ∷ xs) = if test x then x else first_or_last test x xs

pub scan_children-first_or_last :
    (k : Kernel) (pid : ℤ) (n p d : ℕ) (xs : List ℕ)
    → Seg k.links p 0 xs
    → length xs < n
    → scan_children k pid n (first_or 0 xs) d ≡ some (first_or_last (matches k pid) d xs)
unfolding scan_children first_or_last
scan_children-first_or_last k pid zero p d xs s enough = absurd (omega arith)
scan_children-first_or_last k pid (suc n) p d [] s enough = refl
scan_children-first_or_last k pid (suc n) p d (x ∷ xs) s enough =
    let rest = scan_children-first_or_last k pid n x x xs s.3 (omega arith) in
    elim (Bool-cases (matches k pid x)) [
      | inl e ↦ rw (==-ne x 0 s.0, s.1) (rw e refl)
      | inr e ↦ rw (==-ne x 0 s.0, s.1) (rw e (rw rest refl))
    ]

-- Every entry of a list has an address, so the scan of a list with one stops at one.
pub first_or_last-ne :
    (l : Links) (test : ℕ → Bool) (p d : ℕ) (xs : List ℕ)
    → Seg l p 0 xs
    → d ≢ 0
    → first_or_last test d xs ≢ 0
unfolding first_or_last
first_or_last-ne l test p d [] s nd = nd
first_or_last-ne l test p d (x ∷ xs) s nd = elim (Bool-cases (test x)) [
  | inl e ↦ rw e s.0
  | inr e ↦ rw e (first_or_last-ne l test x x xs s.3 s.0)
]

picked_ne :
    (k : Kernel) (e : ℕ) (cs : List ℕ)
    → Seg k.links 0 0 cs
    → first_or 0 cs ≢ 0
    → first_or_last (matches k (arg k 0)) 0 cs ≡ e
    → e ≢ 0
unfolding first_or_last
picked_ne k e [] s some_child picked z = some_child refl
picked_ne k e (x ∷ xs) s some_child picked z =
    first_or_last-ne k.links (matches k (arg k 0)) 0 1 (x ∷ xs) s (omega arith) (picked ∙ z)

pub first_ne :
    (k : Kernel) (r : ListRef) (x : ℕ) (us vs : List ℕ)
    → ListIs k r (us ++ x ∷ vs)
    → (k.heads r).first ≢ 0
first_ne k r x [] vs is = rw is.first is.seg.0
first_ne k r x (u ∷ us) vs is = rw is.first is.seg.0

-- The second argument of the call, where the value of the child goes.
abbrev pub result_arg : Kernel → ℤ
result_arg k = (k.pcbs k.running).syscall_args 1

-- The children of the running process are `cs`, and the scan stops at the entry `e` of the child `p`.
pub record IsScanned (k : Kernel) (e p : ℕ) (cs : List ℕ) : Type 0 where
  pub offspring : ListIs k (children k.running) cs
  pub some_child : (k.heads (children k.running)).first ≢ 0
  pub few : length cs ≤ 1024
  pub picked : first_or_last (matches k (arg k 0)) 0 cs ≡ e
  pub child : (k.pcb_ptrs e).pcb ≡ p

-- Then the child is reaped, or waited for.
pub internal_wait-scanned :
    (k : Kernel) (e p : ℕ) (cs : List ℕ)
    → k.running ≢ 0
    → p ≢ 0
    → IsScanned k e p cs
    → internal_wait k
      ≡ (if is_zombie (k.pcbs p).status then reap e p (result_arg k) else block_parent) k
unfolding internal_wait
internal_wait-scanned k e p cs nr np c =
    let enough : length cs < walk_rounds = unfold walk_rounds in omega (arith, c.few) in
    let scan = scan_children-first_or_last k (arg k 0) walk_rounds 0 0 cs c.offspring.seg enough in
    let start : scan_children k (arg k 0) walk_rounds (k.heads (children k.running)).first 0
        ≡ some e =
      ap (λ f. scan_children k (arg k 0) walk_rounds f 0) c.offspring.first
      ∙ scan
      ∙ ap some c.picked in
    let ne : e ≢ 0 =
      picked_ne k e cs c.offspring.seg (rw c.offspring.first at c.some_child) c.picked in
    let found : (is_set p && is_zombie (k.pcbs p).status) ≡ is_zombie (k.pcbs p).status =
      rw (==-ne p 0 np) refl in
    let no_error : (ltb_ℤ (pos 0) (arg k 0) && p == 0) ≡ false = rw (==-ne p 0 np) (ground arith) in
    simp (==-ne k.running 0 nr, ==-ne (k.heads (children k.running)).first 0 c.some_child)
      (rw start (simp (==-ne e 0 ne, c.child) (rw no_error (rw found refl))))
