-- ===== src/Objects/Timer/Order.antt =====
-- Lists of timers in the order of their times (`TimerList_add` of src/disastrOS_timer.c).
use disastr_os_semaphores.Common.{
  ℕ, zero, suc, ℤ, ◌≡◌, ◌<◌, refl, ◌⊎◌, inl, inr, Bool-cases, true, some, List, [], ◌∷◌, ◌++◌,
  arith, length, has, first_or, last_or, ltb_ℤ, ◌≤ℤ◌, ◌==◌, ==-ne, if◌then◌else◌,
}
use disastr_os_semaphores.LinkedList.{Links}
use disastr_os_semaphores.LinkedList.Seg.{Seg}
use disastr_os_semaphores.Kernel.{TimerItem}
use disastr_os_semaphores.Objects.Timer.{previous_item}

-- The items before the first one with a later time, and the others.
unfoldable pub not_after : (ℕ → TimerItem) → ℤ → List ℕ → List ℕ
not_after f time [] = []
not_after f time (x ∷ xs) = if ltb_ℤ time (f x).awakening_time then [] else x ∷ not_after f time xs

unfoldable pub from_later : (ℕ → TimerItem) → ℤ → List ℕ → List ℕ
from_later f time [] = []
from_later f time (x ∷ xs) =
    if ltb_ℤ time (f x).awakening_time then x ∷ xs else from_later f time xs

pub not_after-from_later :
    (f : ℕ → TimerItem) (time : ℤ) (xs : List ℕ) → not_after f time xs ++ from_later f time xs ≡ xs
unfolding not_after from_later
not_after-from_later f time [] = refl
not_after-from_later f time (x ∷ xs) = elim (Bool-cases (ltb_ℤ time (f x).awakening_time)) [
  | inl e ↦ rw e
  | inr e ↦ rw (e, not_after-from_later f time xs)
]

-- The loop ends, with the last of the items that come before.
pub previous_item-not_after :
    (l : Links) (f : ℕ → TimerItem) (time : ℤ) (n p : ℕ) (xs : List ℕ)
    → Seg l p 0 xs
    → length xs < n
    → previous_item l f time n (first_or 0 xs) p ≡ some (last_or p (not_after f time xs))
unfolding previous_item not_after
previous_item-not_after l f time zero p xs s enough = absurd (omega arith)
previous_item-not_after l f time (suc n) p [] s enough = refl
previous_item-not_after l f time (suc n) p (x ∷ xs) s enough =
    elim (Bool-cases (ltb_ℤ time (f x).awakening_time)) [
      | inl e ↦ rw (==-ne x 0 s.0, e)
      | inr e ↦
          rw (==-ne x 0 s.0, e, s.1) (previous_item-not_after l f time n x xs s.3 (omega arith))
    ]

-- Each item is no later than those behind it.
abbrev pub IsOrdered : (ℕ → TimerItem) → List ℕ → Type 0
IsOrdered f [] = Unit
IsOrdered f (x ∷ xs) =
    ((y : ℕ) → has y xs ≡ true → (f x).awakening_time ≤ℤ (f y).awakening_time) × IsOrdered f xs

has-put :
    (f : ℕ → TimerItem) (time : ℤ) (new y : ℕ) (xs : List ℕ)
    → has y (not_after f time xs ++ new ∷ from_later f time xs) ≡ true
    → (y ≡ new) ⊎ (has y xs ≡ true)
unfolding not_after from_later
has-put f time new y [] i = ground (arith, i)
has-put f time new y (x ∷ xs) i = elim (Bool-cases (ltb_ℤ time (f x).awakening_time)) [
  | inl e ↦ let j : has y (new ∷ x ∷ xs) ≡ true = rw e at i in ground (arith, j)
  | inr e ↦
      let j : has y (x ∷ (not_after f time xs ++ new ∷ from_later f time xs)) ≡ true = rw e at i in
      elim (Bool-cases (y == x)) [
        | inl same ↦ inr (rw same refl)
        | inr other ↦
            let j' : has y (not_after f time xs ++ new ∷ from_later f time xs) ≡ true =
              rw other at j in
            elim (has-put f time new y xs j') [
              | inl same ↦ inl same
              | inr k ↦ inr (rw (other, k) refl)
            ]
      ]
]

pub put-IsOrdered :
    (f : ℕ → TimerItem) (new : ℕ) (xs : List ℕ)
    → IsOrdered f xs
    → IsOrdered f
        (not_after f (f new).awakening_time xs ++ new ∷ from_later f (f new).awakening_time xs)
unfolding not_after from_later
put-IsOrdered f new [] o = (λ y i. absurd (ground (arith, i)), tt)
put-IsOrdered f new (x ∷ xs) o =
    let t = (f new).awakening_time in
    elim (Bool-cases (ltb_ℤ t (f x).awakening_time)) [
      | inl e ↦
          let later : t ≤ℤ (f x).awakening_time = ground (arith, e) in
          rw e (
            λ y i. elim (Bool-cases (y == x)) [
              | inl same ↦ let e' : y ≡ x = ground (arith, same) in rw e' later
              | inr other ↦
                  let j : has y xs ≡ true = rw other at i in
                  let le = o.0 y j in omega (arith, le, later)
            ],
            o,
          )
      | inr e ↦
          let early : (f x).awakening_time ≤ℤ t = ground (arith, e) in
          rw e (
            λ y i. elim (has-put f t new y xs i) [ inl same ↦ rw same early | inr j ↦ o.0 y j ],
            put-IsOrdered f new xs o.1,
          )
    ]

-- Only the times of the list's own items matter.
module _ (f g : ℕ → TimerItem) where
  pub not_after-frame :
      (time : ℤ) (xs : List ℕ)
      → ((y : ℕ) → has y xs ≡ true → g y ≡ f y)
      → not_after g time xs ≡ not_after f time xs
  unfolding not_after
  not_after-frame time [] same = refl
  not_after-frame time (x ∷ xs) same =
      let e : g x ≡ f x = same x (ground arith) in
      rw (e, not_after-frame time xs (λ y i. same y (ground (arith, i)))) refl

  pub from_later-frame :
      (time : ℤ) (xs : List ℕ)
      → ((y : ℕ) → has y xs ≡ true → g y ≡ f y)
      → from_later g time xs ≡ from_later f time xs
  unfolding from_later
  from_later-frame time [] same = refl
  from_later-frame time (x ∷ xs) same =
      let e : g x ≡ f x = same x (ground arith) in
      rw (e, from_later-frame time xs (λ y i. same y (ground (arith, i)))) refl

  pub IsOrdered-frame :
      (xs : List ℕ) → ((y : ℕ) → has y xs ≡ true → g y ≡ f y) → IsOrdered f xs → IsOrdered g xs
  IsOrdered-frame [] same o = tt
  IsOrdered-frame (x ∷ xs) same o = (
    λ y i.
        let ex : g x ≡ f x = same x (ground arith) in
        let ey : g y ≡ f y = same y (ground (arith, i)) in rw (ex, ey) (o.0 y i),
    IsOrdered-frame xs (λ y i. same y (ground (arith, i))) o.1,
  )
