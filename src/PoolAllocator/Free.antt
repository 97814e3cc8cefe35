-- ===== src/PoolAllocator/Free.antt =====
-- The invariant of a pool: which blocks are free, and in which order they are handed out
-- (src/pool_allocator.c).
use disastr_os_semaphores.Common.{
  ℕ, zero, suc, ◌*◌, ◌^◌, ◌≤◌, ◌<◌, ◌≡◌, ◌≢◌, refl, true, false, Bool-cases, inl, inr, List, [],
  ◌∷◌, arith, ◌==◌, if◌then◌else◌, ℤ, pos, length, has, ==-ne,
}
use disastr_os_semaphores.PoolAllocator.{PoolAllocator, null_idx, detached_idx, write}

-- From the index `i` the array chains the blocks `ks`, which are distinct and below `n`.
abbrev pub FreeChain : (ℕ → ℤ) → (n : ℕ) → (i : ℤ) → List ℕ → Type 0
FreeChain f n i [] = i ≡ null_idx
FreeChain f n i (k ∷ ks) = (i ≡ pos k) × (k < n) × (has k ks ≡ false) × FreeChain f n (f k) ks

-- The blocks `ks` are free, in this order, and every other block is marked as handed out.
pub record IsValid (a : PoolAllocator) (ks : List ℕ) : Type 0 where
  pub chain : FreeChain a.free_list a.size_max a.first_idx ks
  pub busy : (k : ℕ) → k < a.size_max → has k ks ≡ false → a.free_list k ≡ detached_idx
  pub size : a.size ≡ pos (length ks)
  pub item_pos : 0 < a.item_size
  pub fits : a.size_max * a.item_size < 2 ^ 31

pub FreeChain-write :
    (f : ℕ → ℤ) (n k : ℕ) (v i : ℤ) (ks : List ℕ)
    → has k ks ≡ false
    → FreeChain f n i ks
    → FreeChain (write f k v) n i ks
unfolding write
FreeChain-write f n k v i [] out c = c
FreeChain-write f n k v i (j ∷ ks) out c =
    let ne : j ≢ k = ground arith in
    (c.0, c.1, c.2, rw (==-ne j k ne) (FreeChain-write f n k v (f j) ks (ground arith) c.3))

-- Distinct numbers below `n` are at most `n`.
abbrev Distinct : ℕ → List ℕ → Type 0
Distinct n [] = Unit {0}
Distinct n (k ∷ ks) = (k < n) × (has k ks ≡ false) × Distinct n ks

pub Distinct-of_FreeChain :
    (f : ℕ → ℤ) (n : ℕ) (i : ℤ) (ks : List ℕ) → FreeChain f n i ks → Distinct n ks
Distinct-of_FreeChain f n i [] c = tt
Distinct-of_FreeChain f n i (k ∷ ks) c = (c.1, c.2, Distinct-of_FreeChain f n (f k) ks c.3)

erase : ℕ → List ℕ → List ℕ
erase a [] = []
erase a (x ∷ xs) = if a == x then xs else x ∷ erase a xs

has-erase : (a b : ℕ) (xs : List ℕ) → has b xs ≡ false → has b (erase a xs) ≡ false
unfolding erase
has-erase a b [] o = refl
has-erase a b (x ∷ xs) o = ground (arith, has-erase a b xs)

length-erase : (a : ℕ) (xs : List ℕ) → has a xs ≡ true → length xs ≡ suc (length (erase a xs))
unfolding erase
length-erase a [] i = ground arith
length-erase a (x ∷ xs) i = ground (arith, length-erase a xs)

Distinct-lower : (n : ℕ) (xs : List ℕ) → has n xs ≡ false → Distinct (suc n) xs → Distinct n xs
Distinct-lower n [] o d = tt
Distinct-lower n (x ∷ xs) o d = (ground arith, d.1, Distinct-lower n xs (ground arith) d.2)

Distinct-erase : (n : ℕ) (xs : List ℕ) → Distinct (suc n) xs → Distinct n (erase n xs)
unfolding erase
Distinct-erase n [] d = tt
Distinct-erase n (x ∷ xs) d = elim (Bool-cases (n == x)) [
  | inl e ↦ let e' : n ≡ x = ground arith in rw e (Distinct-lower n xs (rw e' d.1) d.2)
  | inr ne ↦ rw ne (ground arith, has-erase n x xs d.1, Distinct-erase n xs d.2)
]

pub length-le_of_Distinct : (n : ℕ) (xs : List ℕ) → Distinct n xs → length xs ≤ n
length-le_of_Distinct zero [] d = omega arith
length-le_of_Distinct zero (x ∷ xs) d = absurd (omega arith)
length-le_of_Distinct (suc n) xs d = elim (Bool-cases (has n xs)) [
  | inl i ↦
      omega
        (arith, length-erase n xs i, length-le_of_Distinct n (erase n xs) (Distinct-erase n xs d))
  | inr o ↦ omega (arith, length-le_of_Distinct n xs (Distinct-lower n xs o d))
]

-- At most `size_max` blocks are free, and their number fits an `int`.
pub length-le_size_max :
    (a : PoolAllocator) (ks : List ℕ)
    → IsValid a ks
    → (length ks ≤ a.size_max) × (a.size_max < 2 ^ 31)
length-le_size_max a ks v = (
  length-le_of_Distinct a.size_max ks
      (Distinct-of_FreeChain a.free_list a.size_max a.first_idx ks v.chain),
  grind (arith, v.item_pos, v.fits),
)
