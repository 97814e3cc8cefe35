-- ===== src/PoolAllocator/Commands.antt =====
-- Any use of a pool (src/pool_allocator.c), and the stack of free blocks that stands for it.
use disastr_os_semaphores.Common.{
  ℕ, ◌+◌, ◌^◌, ◌<◌, ◌≤◌, ◌≡◌, refl, Option, none, some, List, [], ◌∷◌,
}
use disastr_os_semaphores.PoolAllocator.{
  PoolAllocator, PoolAllocatorResult, get_block, release_block,
}
use disastr_os_semaphores.PoolAllocator.Free.{IsValid}
use disastr_os_semaphores.PoolAllocator.Blocks.{get_block-IsValid, get_block-exhausted}
use disastr_os_semaphores.PoolAllocator.Refine.{
  Shape, shape_of, take_first, give_back, release_block-give_back,
}

-- What a caller does with a pool, and what it is answered.
pub data Command : Type 0 where
  get : Command
  give : (block : ℕ) → Command

pub data Answer : Type 0 where
  block : ℕ → Answer
  result : PoolAllocatorResult → Answer

abbrev got : Option (ℕ × PoolAllocator) → Option (Answer × PoolAllocator)
got none = none
got (some (b, a)) = some (block b, a)

abbrev gave : Option (PoolAllocatorResult × PoolAllocator) → Option (Answer × PoolAllocator)
gave none = none
gave (some (r, a)) = some (result r, a)

abbrev perform : Command → PoolAllocator → Option (Answer × PoolAllocator)
perform get a = got (get_block a)
perform (give b) a = gave (release_block a b)

abbrev then_run :
    (PoolAllocator → Option (List Answer × PoolAllocator))
    → Option (Answer × PoolAllocator)
    → Option (List Answer × PoolAllocator)
then_run next none = none
then_run next (some (x, a)) = elim (next a) [ none ↦ none | some (xs, a') ↦ some (x ∷ xs, a') ]

-- The commands one after the other, on the pool and on the stack.
unfoldable pub run : List Command → PoolAllocator → Option (List Answer × PoolAllocator)
run [] a = some ([], a)
run (c ∷ cs) a = then_run (run cs) (perform c a)

abbrev pub ideal : Shape → Command → List ℕ → Answer × List ℕ
ideal c get ks = let (b, ks') = take_first c ks in (block b, ks')
ideal c (give b) ks = let (r, ks') = give_back c b ks in (result r, ks')

unfoldable pub run_ideal : Shape → List Command → List ℕ → List Answer × List ℕ
run_ideal c [] ks = ([], ks)
run_ideal c (x ∷ xs) ks =
    let (r, ks') = ideal c x ks in let (rs, ks'') = run_ideal c xs ks' in (r ∷ rs, ks'')

-- The distance of every block that is given back fits an `int`.
abbrev pub InReach : Shape → List Command → Type 0
InReach c [] = Unit {0}
InReach c (get ∷ xs) = InReach c xs
InReach c (give b ∷ xs) = (b < c.buffer + 2 ^ 31) × (c.buffer ≤ b + 2 ^ 31) × InReach c xs

-- Any commands on a pool whose free blocks are `ks` are answered as by a stack of block numbers that
-- starts with `ks`: a block is taken from its top, and given back to it where it is aligned, inside
-- the buffer and not on the stack, with the error that says which of these fails otherwise. The
-- pool never faults, and its free blocks are those of the stack, provided that the distance of every
-- block that is given back to the buffer fits an `int`.
pub run-run_ideal :
    (cs : List Command) (a : PoolAllocator) (ks : List ℕ)
    → IsValid a ks
    → InReach (shape_of a) cs
    → (a' : PoolAllocator) × (run cs a ≡ some ((run_ideal (shape_of a) cs ks).0, a'))
      × IsValid a' (run_ideal (shape_of a) cs ks).1
unfolding run run_ideal
run-run_ideal [] a ks v reach = (a, refl, v)
run-run_ideal (get ∷ cs) a [] v reach =
    let (a', e, v') = run-run_ideal cs a [] v reach in
    (a', rw (get_block-exhausted a v, e) refl, v')
run-run_ideal (get ∷ cs) a (k ∷ ks) v reach =
    let (a₁, e₁, v₁, lt, out, b, s, n) = get_block-IsValid a k ks v in
    let same : shape_of a₁ ≡ shape_of a =
      λ i. record { buffer = b i; item_size = s i; size_max = n i } in
    let (a', e, v') = run-run_ideal cs a₁ ks v₁ (rw same reach) in
    (a', rw e₁ (rw e (rw same refl)), rw same at v')
run-run_ideal (give b ∷ cs) a ks v reach =
    let (a₁, e₁, v₁, same) = release_block-give_back a ks b v reach.0 reach.1 in
    let (a', e, v') = run-run_ideal cs a₁ (give_back (shape_of a) b ks).1 v₁ (rw same reach.2) in
    (a', rw e₁ (rw e (rw same refl)), rw same at v')
