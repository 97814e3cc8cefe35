-- ===== src/PoolAllocator/Refine.antt =====
-- The pool (src/pool_allocator.c) and a stack of free blocks: what its callers rely on.
use native.Mathlib.Nat.{div-add-mod}
use disastr_os_semaphores.Common.{
  ℕ, zero, suc, ◌+◌, ◌-◌, ◌*◌, ◌/◌, ◌%◌, ◌^◌, ◌<◌, ◌≤◌, ◌≡◌, refl, ap, ◌∙◌, Bool, true, false, not,
  ◌||◌, Bool-cases, inl, inr, some, List, [], ◌∷◌, arith, ltb, leb, is_set, if◌then◌else◌, ℤ, pos,
  negsuc, pos_part, neg_part, has, ltb_ℤ, sub_ℕ, ==-ne, ◌-ℤ◌,
}
use disastr_os_semaphores.PoolAllocator.{
  PoolAllocator, PoolAllocatorResult, success, unaligned_free, out_of_range, double_free,
  release_block, block_offset, quot,
}
use disastr_os_semaphores.PoolAllocator.Free.{IsValid}
use disastr_os_semaphores.PoolAllocator.Blocks.{release_block-IsValid}
use disastr_os_semaphores.PoolAllocator.Misuse.{block_offset-exact, release_block-double_free}

-- What is fixed when a pool is made.
pub record Shape : Type 0 where
  pub buffer : ℕ
  pub item_size : ℕ
  pub size_max : ℕ

abbrev pub shape_of : PoolAllocator → Shape
shape_of a = record { buffer = a.buffer; item_size = a.item_size; size_max = a.size_max }

abbrev pub address : Shape → ℕ → ℕ
address c k = c.buffer + k * c.item_size

-- Taking a block: the first free one, or NULL.
abbrev pub take_first : Shape → List ℕ → ℕ × List ℕ
take_first c [] = (0, [])
take_first c (k ∷ ks) = (address c k, ks)

-- Giving a block back, at a distance from the buffer, on which side of its start.
abbrev pub give_at : Shape → (below : Bool) → (distance : ℕ) → List ℕ → PoolAllocatorResult × List ℕ
give_at c below distance ks =
    if is_set (distance % c.item_size)
    then (unaligned_free, ks)
    else if below || not (ltb (distance / c.item_size) c.size_max)
    then (out_of_range, ks)
    else if has (distance / c.item_size) ks
    then (double_free, ks)
    else (success, distance / c.item_size ∷ ks)

abbrev pub give_back : Shape → (block : ℕ) → List ℕ → PoolAllocatorResult × List ℕ
give_back c block ks = give_at c (ltb block c.buffer) (block - c.buffer + (c.buffer - block)) ks

-- A positive multiple of the size of a block is at least one block away.
quotient-pos : (m s : ℕ) → is_set (suc m % s) ≡ false → 0 < suc m / s
quotient-pos m s even = go (suc m / s) refl
  where
    go : (q : ℕ) → suc m / s ≡ q → 0 < q
    go (suc q) e = omega arith
    go zero e =
        let r : suc m % s ≡ 0 = ground (arith, even) in
        let f : s * 0 + 0 ≡ suc m = rw (e, r) at (div-add-mod (suc m) s) in absurd (omega arith)

negative : (q n : ℕ) → 0 < q → (ltb_ℤ (sub_ℕ 0 q) (pos 0) || not (ltb_ℤ (sub_ℕ 0 q) (pos n))) ≡ true
negative q n p = ground arith

multiple : (m s : ℕ) → is_set (m % s) ≡ false → m / s * s ≡ m
multiple m s even = let r : m % s ≡ 0 = ground (arith, even) in omega (arith, div-add-mod m s)

-- The pool answers a release as the stack does, and is again as the stack says.
abbrev Released : PoolAllocator → (block : ℕ) → PoolAllocatorResult × List ℕ → Type 0
Released a block (r, ks) =
    (a' : PoolAllocator) × (release_block a block ≡ some (r, a'))
    × IsValid a' ks
    × (shape_of a' ≡ shape_of a)

module _ (a : PoolAllocator) (ks : List ℕ) (block : ℕ) (v : IsValid a ks) where
  refused :
      (o : ℤ)
      → block_offset a block ≡ o
      → is_set ((pos_part o + neg_part o) % a.item_size) ≡ true
      → release_block a block ≡ some (unaligned_free, a)
  unfolding release_block
  refused o e odd = let ip = v.item_pos in rw e (rw (==-ne a.item_size 0 (omega arith), odd))

  outside :
      (o : ℤ)
      → block_offset a block ≡ o
      → is_set ((pos_part o + neg_part o) % a.item_size) ≡ false
      → (ltb_ℤ (quot o a.item_size) (pos 0) || not (ltb_ℤ (quot o a.item_size) (pos a.size_max)))
        ≡ true
      → release_block a block ≡ some (out_of_range, a)
  unfolding release_block
  outside o e even out = rw e (rw (==-ne a.item_size 0 (omega (arith, v.item_pos)), even, out))

  above :
      (m : ℕ)
      → block_offset a block ≡ pos m
      → block ≡ a.buffer + m
      → Released a block (give_at (shape_of a) false m ks)
  above m e at = elim (Bool-cases (is_set (m % a.item_size))) [
    | inl odd ↦ rw odd (a, refused (pos m) e (ground (arith, odd)), v, refl)
    | inr even ↦ elim (Bool-cases (ltb (m / a.item_size) a.size_max)) [
      | inr far ↦
          rw (even, far)
            (a, outside (pos m) e (ground (arith, even)) (ground (arith, far)), v, refl)
      | inl near ↦
          let q = m / a.item_size in
          let lt : q < a.size_max = ground (arith, near) in
          let here : block ≡ a.buffer + q * a.item_size =
            omega (arith, multiple m a.item_size even) in
          elim (Bool-cases (has q ks)) [
            | inl free ↦
                rw (even, near, free)
                  (
                    a,
                    ap (release_block a) here ∙ release_block-double_free a q ks v free lt,
                    v,
                    refl,
                  )
            | inr busy ↦
                let (a', done, v', b, s, n) = release_block-IsValid a q ks v lt busy in
                rw (even, near, busy)
                  (
                    a',
                    ap (release_block a) here ∙ done,
                    v',
                    λ i. record { buffer = b i; item_size = s i; size_max = n i },
                  )
          ]
    ]
  ]

  under :
      (m : ℕ)
      → block_offset a block ≡ negsuc m
      → Released a block (give_at (shape_of a) true (suc m) ks)
  under m e = elim (Bool-cases (is_set (suc m % a.item_size))) [
    | inl odd ↦ rw odd (a, refused (negsuc m) e (ground (arith, odd)), v, refl)
    | inr even ↦ rw even (
      a,
      outside (negsuc m) e (ground (arith, even))
          (negative (suc m / a.item_size) a.size_max (quotient-pos m a.item_size even)),
      v,
      refl,
    )
  ]

-- `PoolAllocator_releaseBlock`, on every branch.
pub release_block-give_back :
    (a : PoolAllocator) (ks : List ℕ) (block : ℕ)
    → IsValid a ks
    → block < a.buffer + 2 ^ 31
    → a.buffer ≤ block + 2 ^ 31
    → Released a block (give_back (shape_of a) block ks)
unfolding ◌-ℤ◌
release_block-give_back a ks block v lo hi = go (leb a.buffer block) refl
  where
    go : (b : Bool) → leb a.buffer block ≡ b → Released a block (give_back (shape_of a) block ks)
    go true e =
        let side : ltb block a.buffer ≡ false = ground (arith, e) in
        let dist : block - a.buffer + (a.buffer - block) ≡ block - a.buffer = ground (arith, e) in
        rw (side, dist)
          (above a ks block v (block - a.buffer)
            (block_offset-exact a block lo hi ∙ ground (arith, e)) (ground (arith, e)))
    go false e =
        let side : ltb block a.buffer ≡ true = ground (arith, e) in
        let dist : block - a.buffer + (a.buffer - block) ≡ suc (a.buffer - block - 1) =
          ground (arith, e) in
        rw (side, dist)
          (under a ks block v (a.buffer - block - 1)
            (block_offset-exact a block lo hi ∙ ground (arith, e)))
