-- ===== src/PoolAllocator/Misuse.antt =====
-- `PoolAllocator_releaseBlock` (src/pool_allocator.c): what undoes what, and what it refuses.
use mathlib.Core.Path.{fun_ext}
use native.Mathlib.Nat.{div-add-mod}
use disastr_os_semaphores.Common.{
  ℕ, suc, ◌*◌, ◌%◌, ◌+◌, ◌^◌, ◌<◌, ◌≤◌, ◌≡◌, sym, ap, true, false, Bool-cases, inl, inr, some, List,
  [], ◌∷◌, arith, ◌==◌, ℤ, pos, pos_part, neg_part, length, has, ◌∙◌, ◌==ℤ◌, int_add, int_sub,
  int_add_pos, int_sub-suc, ◌<ℤ◌, ◌≤ℤ◌, negsuc, IsInt, ◌-ℤ◌, to_int-id, ◌/◌,
}
use disastr_os_semaphores.PoolAllocator.{
  PoolAllocator, success, double_free, detached_idx, write, get_block, block_offset, release_block,
  quot,
}
use disastr_os_semaphores.PoolAllocator.Free.{FreeChain, IsValid, length-le_size_max}
use disastr_os_semaphores.PoolAllocator.Blocks.{
  taken, released, get_block_first, taken-IsValid, release_block_eq, release_block_checked,
}

-- With a block free, `PoolAllocator_getBlock` and then `PoolAllocator_releaseBlock` of its block leave
-- the pool exactly as it was.
pub release_block-get_block :
    (a : PoolAllocator) (k : ℕ) (ks : List ℕ)
    → IsValid a (k ∷ ks)
    → (block : ℕ) × (a' : PoolAllocator) × (get_block a ≡ some (block, a'))
      × (release_block a' block ≡ some (success, a))
unfolding write
release_block-get_block a k ks v = (
  a.buffer + k * a.item_size,
  taken a k,
  get_block_first a k ks v,
  release_block_eq (taken a k) k ks (taken-IsValid a k ks v) v.chain.1 v.chain.2
      ∙ ap (λ (p : PoolAllocator). some (success, p)) same,
)
  where
    entries : write (write a.free_list k detached_idx) k (a.free_list k) ≡ a.free_list
    entries = fun_ext λ j. ground arith

    sizes : int_add (int_sub a.size (pos 1)) (pos 1) ≡ a.size
    sizes = rw (
      v.size,
      int_sub-suc (length ks) (omega (arith, length-le_size_max a (k ∷ ks) v)),
      int_add_pos (length ks) (omega (arith, length-le_size_max a (k ∷ ks) v)),
    )

    same : released (taken a k) k ≡ a
    same = λ i. record {
      buffer = a.buffer;
      free_list = entries i;
      buffer_size = a.buffer_size;
      size = sizes i;
      size_max = a.size_max;
      item_size = a.item_size;
      first_idx = sym v.chain.0 i;
    }

-- A free block is not marked as handed out.
pub chain_entry :
    (f : ℕ → ℤ) (n : ℕ) (i : ℤ) (ks : List ℕ) (k : ℕ)
    → FreeChain f n i ks
    → has k ks ≡ true
    → (f k ==ℤ detached_idx) ≡ false
chain_entry f n i [] k c h = ground arith
chain_entry f n i (j ∷ []) k c h = let e : k ≡ j = ground arith in rw (e, c.3)
chain_entry f n i (j ∷ j' ∷ ks) k c h = elim (Bool-cases (k == j)) [
  | inl same ↦ let e : k ≡ j = ground arith in rw (e, c.3.0) (ground arith)
  | inr other ↦ chain_entry f n (f j) (j' ∷ ks) k c.3 (ground arith)
]

-- `PoolAllocator_releaseBlock` of a block that is free already reports it and changes nothing.
pub release_block-double_free :
    (a : PoolAllocator) (k : ℕ) (ks : List ℕ)
    → IsValid a ks
    → has k ks ≡ true
    → k < a.size_max
    → release_block a (a.buffer + k * a.item_size) ≡ some (double_free, a)
release_block-double_free a k ks v h lt = rw (
  release_block_checked a k ks v lt,
  chain_entry a.free_list a.size_max a.first_idx ks k v.chain h,
)

pub in_range : (b c : ℕ) → b < c + 2 ^ 31 → c ≤ b + 2 ^ 31 → IsInt (pos b -ℤ pos c)
unfolding ◌-ℤ◌
in_range b c lo hi = ground arith

-- The checks of `PoolAllocator_releaseBlock`, as the offset and the index pass them.
release_block_passed :
    (a a' : PoolAllocator) (block : ℕ)
    → release_block a block ≡ some (success, a')
    → ((pos_part (block_offset a block) + neg_part (block_offset a block)) % a.item_size ≡ 0)
      × (pos 0 ≤ℤ quot (block_offset a block) a.item_size)
      × (quot (block_offset a block) a.item_size <ℤ pos a.size_max)
      × ((a.free_list (pos_part (quot (block_offset a block) a.item_size)) ==ℤ detached_idx) ≡ true)
unfolding release_block
release_block_passed a a' block e = ground arith

pub block_offset-exact :
    (a : PoolAllocator) (block : ℕ)
    → block < a.buffer + 2 ^ 31
    → a.buffer ≤ block + 2 ^ 31
    → block_offset a block ≡ pos block -ℤ pos a.buffer
unfolding block_offset
block_offset-exact a block lo hi =
    to_int-id (pos block -ℤ pos a.buffer) (in_range block a.buffer lo hi)

pub whole : (m b c i : ℕ) → (m + 0) % i ≡ 0 → pos m ≡ pos b -ℤ pos c → b ≡ c + m / i * i
unfolding ◌-ℤ◌
whole m b c i r d =
    let e : m + 0 ≡ m = omega arith in
    let r' : m % i ≡ 0 = rw e at r in
    let s : b ≡ c + m = ground arith in omega (arith, div-add-mod m i)

below_zero : (m i : ℕ) → 0 < i → (0 + suc m) % i ≡ 0 → pos 0 ≤ℤ quot (negsuc m) i → ⊥
below_zero m i ip r le =
    let z : suc m / i ≡ 0 = ground arith in
    let e : 0 + suc m ≡ suc m = omega arith in
    let r' : suc m % i ≡ 0 = rw e at r in
    let f : i * 0 + 0 ≡ suc m = rw (z, r') at (div-add-mod (suc m) i) in absurd (omega arith)

-- Only a block that is handed out can be released: where `PoolAllocator_releaseBlock` succeeds (at
-- an address whose distance to the buffer fits an `int`), the address is that of one.
pub release_block-handed_out :
    (a a' : PoolAllocator) (ks : List ℕ) (block : ℕ)
    → IsValid a ks
    → block < a.buffer + 2 ^ 31
    → a.buffer ≤ block + 2 ^ 31
    → release_block a block ≡ some (success, a')
    → (k : ℕ) × (k < a.size_max) × (has k ks ≡ false) × (block ≡ a.buffer + k * a.item_size)
release_block-handed_out a a' ks block v lo hi e =
    go (block_offset a block) (block_offset-exact a block lo hi) (release_block_passed a a' block e)
  where
    go :
        (offset : ℤ)
        → offset ≡ pos block -ℤ pos a.buffer
        → ((pos_part offset + neg_part offset) % a.item_size ≡ 0)
          × (pos 0 ≤ℤ quot offset a.item_size)
          × (quot offset a.item_size <ℤ pos a.size_max)
          × ((a.free_list (pos_part (quot offset a.item_size)) ==ℤ detached_idx) ≡ true)
        → (k : ℕ) × (k < a.size_max) × (has k ks ≡ false) × (block ≡ a.buffer + k * a.item_size)
    go (pos m) d c = (
      m / a.item_size,
      omega (arith, c.2),
      elim (Bool-cases (has (m / a.item_size) ks)) [
        | inl h ↦
            cc (chain_entry a.free_list a.size_max a.first_idx ks (m / a.item_size) v.chain h, c.3)
        | inr n ↦ n
      ],
      whole m block a.buffer a.item_size c.0 d,
    )
    go (negsuc m) d c = absurd (below_zero m a.item_size v.item_pos c.0 c.1)
