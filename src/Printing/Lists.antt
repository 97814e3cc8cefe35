-- ===== src/Printing/Lists.antt =====
-- What the print functions write of lists that are in order.
use disastr_os_semaphores.Common.{
  ℕ, zero, suc, ◌<◌, ◌≤◌, ◌≡◌, ◌≢◌, refl, Bool, true, false, some, List, [], ◌∷◌, arith, length,
  has, first_or, ==-ne, ==-self,
}
use disastr_os_semaphores.LinkedList.Seg.{Seg, not-has-zero, ne_of_has}
use disastr_os_semaphores.Kernel.{Kernel, ListRef, owner_of, walk_rounds}
use disastr_os_semaphores.Kernel.Lists.{ListIs}
use disastr_os_semaphores.Printing.{String, Print, both, ◌▸◌, say, print_items, print_list}

-- The items of a sequence, one after the other.
abbrev more : List ℕ → Bool
more [] = false
more (x ∷ xs) = true

unfoldable pub listed : (item : ℕ → Print) → (behind : Bool → Print) → List ℕ → Print
listed item behind [] k = some []
listed item behind (x ∷ xs) k =
    both (item x k) (both (behind (more xs) k) (listed item behind xs k))

print_items-listed :
    (k : Kernel) (item : ℕ → Print) (behind : Bool → Print) (n p : ℕ) (xs : List ℕ)
    → Seg k.links p 0 xs
    → length xs < n
    → print_items item behind n (first_or 0 xs) k ≡ listed item behind xs k
unfolding print_items listed
print_items-listed k item behind zero p xs s enough = absurd (omega arith)
print_items-listed k item behind (suc n) p [] s enough = refl
print_items-listed k item behind (suc n) p (x ∷ []) s enough =
    rw (==-ne x 0 s.0, s.1) (rw (print_items-listed k item behind n x [] tt (omega arith)) refl)
print_items-listed k item behind (suc n) p (x ∷ y ∷ ys) s enough =
    rw (==-ne x 0 s.0, s.1, ==-ne y 0 s.3.0)
      (rw (print_items-listed k item behind n x (y ∷ ys) s.3 (omega arith)) refl)

-- Items that print the same.
listed-cong :
    (k : Kernel) (item item' : ℕ → Print) (behind : Bool → Print) (xs : List ℕ)
    → ((x : ℕ) → has x xs ≡ true → item x k ≡ item' x k)
    → listed item behind xs k ≡ listed item' behind xs k
unfolding listed
listed-cong k item item' behind [] same = refl
listed-cong k item item' behind (x ∷ xs) same =
    rw
      (
        same x (rw (==-self x) refl),
        listed-cong k item item' behind xs (λ y i. same y (ground (arith, i))),
      )
      refl

-- `p`, then the items between the two texts.
unfoldable pub list_of :
    (opening closing : String) → (item : ℕ → Print) → (behind : Bool → Print) → List ℕ → Print
unfolding listed
list_of opening closing item behind xs = say opening ▸ listed item behind xs ▸ say closing

-- The list at `r` is `xs`, of no more items than a pool has.
pub record IsShort (k : Kernel) (r : ListRef) (xs : List ℕ) : Type 0 where
  pub list : ListIs k r xs
  pub few : length xs ≤ 1024

-- A print function that walks over a list in order, of at most 1024 items and not behind NULL, ends, and
-- writes what the items of the list print, in their order, with what stands behind each, if `item`
-- and `item'` print the same of each.
pub print_list-list_of :
    (k : Kernel) (opening closing : String) (item item' : ℕ → Print) (behind : Bool → Print)
    (r : ListRef) (xs : List ℕ)
    → owner_of r ≢ 0
    → IsShort k r xs
    → ((x : ℕ) → x ≢ 0 → has x xs ≡ true → item x k ≡ item' x k)
    → print_list opening closing item behind r k ≡ list_of opening closing item' behind xs k
unfolding print_list list_of walk_rounds
print_list-list_of k opening closing item item' behind r xs owner is same =
    let zero_out = not-has-zero k.links 0 0 xs is.list.seg in
    rw (==-ne (owner_of r) 0 owner, is.list.first)
      (rw (print_items-listed k item behind 1025 0 xs is.list.seg (omega (arith, is.few))) (
        rw (listed-cong k item item' behind xs (λ x i. same x (ne_of_has x 0 xs i zero_out) i))
          refl))
