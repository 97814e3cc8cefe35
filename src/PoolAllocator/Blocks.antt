-- ===== src/PoolAllocator/Blocks.antt =====
-- `PoolAllocator_getBlock` and `_releaseBlock` (src/pool_allocator.c) on pools with known free blocks.
use native.Mathlib.Nat.{mul-div_cancel, mul-mod_left, mul-lt-mul_of_pos_right}
use disastr_os_semaphores.Common.{
  ℕ, ◌*◌, ◌%◌, ◌+◌, ◌^◌, ◌<◌, ◌≡◌, refl, sym, ap, true, false, not, some, List, [], ◌∷◌, arith,
  ◌==◌, ltb, if◌then◌else◌, pos, length, has, ◌∙◌, ==-ne, ==-self, to_int, to_int-id, ◌-ℤ◌, ◌==ℤ◌,
  ltb_ℤ, int_add, int_sub, int_add_pos, int_sub-suc, is_set,
}
use disastr_os_semaphores.PoolAllocator.{
  PoolAllocator, success, double_free, detached_idx, write, block_address, get_block, block_offset,
  release_block, quot,
}
use disastr_os_semaphores.PoolAllocator.Free.{
  IsValid, FreeChain-write, length-le_size_max, Distinct-of_FreeChain, length-le_of_Distinct,
}

minus : (b n : ℕ) → pos (b + n) -ℤ pos b ≡ pos n
unfolding ◌-ℤ◌
minus b n = ground arith

module _ (a : PoolAllocator) (ks : List ℕ) (v : IsValid a ks) where
  -- The offset of a block fits an `int`.
  offset_fits : (k : ℕ) → k < a.size_max → k * a.item_size < 2 ^ 31
  offset_fits k lt = omega (arith, v.fits, mul-lt-mul_of_pos_right {k = a.item_size} lt v.item_pos)

  pub block_address-exact :
      (k : ℕ) → k < a.size_max → block_address a k ≡ a.buffer + k * a.item_size
  unfolding block_address
  block_address-exact k lt =
      rw (to_int-id (pos (k * a.item_size)) (omega (arith, offset_fits k lt))) (omega arith)

  pub block_offset-address :
      (k : ℕ) → k < a.size_max → block_offset a (block_address a k) ≡ pos (k * a.item_size)
  unfolding block_offset
  block_offset-address k lt = rw (block_address-exact k lt) (
      ap to_int (minus a.buffer (k * a.item_size))
      ∙ to_int-id (pos (k * a.item_size)) (omega (arith, offset_fits k lt)))

-- The pool without its first free block `k`, and with the block `k` back in front.
abbrev pub taken : PoolAllocator → ℕ → PoolAllocator
taken a k = record a {
  free_list = write a.free_list k detached_idx;
  size = int_sub a.size (pos 1);
  first_idx = a.free_list k;
}

abbrev pub released : PoolAllocator → ℕ → PoolAllocator
released a k = record a {
  free_list = write a.free_list k a.first_idx;
  size = int_add a.size (pos 1);
  first_idx = pos k;
}

pub get_block_first :
    (a : PoolAllocator) (k : ℕ) (ks : List ℕ)
    → IsValid a (k ∷ ks)
    → get_block a ≡ some (a.buffer + k * a.item_size, taken a k)
unfolding get_block
get_block_first a k ks v =
    let lt : ltb k a.size_max ≡ true = ground arith in
    simp v.chain.0
      (rw (==-ne (k + 1) 0 (omega arith), lt, block_address-exact a (k ∷ ks) v k v.chain.1))

pub taken-IsValid :
    (a : PoolAllocator) (k : ℕ) (ks : List ℕ) → IsValid a (k ∷ ks) → IsValid (taken a k) ks
unfolding write
taken-IsValid a k ks v = record {
  chain =
      FreeChain-write a.free_list a.size_max k detached_idx (a.free_list k) ks v.chain.2 v.chain.3;
  busy = λ j lt out. ground (arith, v.busy j);
  size = rw v.size (int_sub-suc (length ks) (omega (arith, length-le_size_max a (k ∷ ks) v)));
  item_pos = v.item_pos;
  fits = v.fits;
}

-- `PoolAllocator_getBlock` with free blocks hands out the first one: its address, in the buffer, is
-- that of a block that was free; the block is marked and is no longer free, and the pool is valid.
pub get_block-IsValid :
    (a : PoolAllocator) (k : ℕ) (ks : List ℕ)
    → IsValid a (k ∷ ks)
    → (a' : PoolAllocator) × (get_block a ≡ some (a.buffer + k * a.item_size, a'))
      × IsValid a' ks
      × (k < a'.size_max)
      × (has k ks ≡ false)
      × (a'.buffer ≡ a.buffer)
      × (a'.item_size ≡ a.item_size)
      × (a'.size_max ≡ a.size_max)
get_block-IsValid a k ks v = (
  taken a k,
  get_block_first a k ks v,
  taken-IsValid a k ks v,
  v.chain.1,
  v.chain.2,
  refl,
  refl,
  refl,
)

-- `PoolAllocator_getBlock` with no free block returns NULL and changes nothing.
pub get_block-exhausted : (a : PoolAllocator) → IsValid a [] → get_block a ≡ some (0, a)
unfolding get_block
get_block-exhausted a v = rw v.chain

length-lt_of_busy :
    (a : PoolAllocator) (k : ℕ) (ks : List ℕ)
    → IsValid a ks
    → k < a.size_max
    → has k ks ≡ false
    → length ks < a.size_max
length-lt_of_busy a k ks v lt out =
    length-le_of_Distinct a.size_max (k ∷ ks)
      (lt, out, Distinct-of_FreeChain a.free_list a.size_max a.first_idx ks v.chain)

-- What the checks of `PoolAllocator_releaseBlock` find of the address of block `k`.
module _ (a : PoolAllocator) (k : ℕ) (ks : List ℕ) (v : IsValid a ks) (lt : k < a.size_max) where
  block_offset_lem : block_offset a (a.buffer + k * a.item_size) ≡ pos (k * a.item_size)
  block_offset_lem =
      ap (block_offset a) (sym (block_address-exact a ks v k lt)) ∙ block_offset-address a ks v k lt

  aligned : is_set ((k * a.item_size + 0) % a.item_size) ≡ false
  aligned =
      let e : k * a.item_size + 0 ≡ k * a.item_size = omega arith in
      rw (e, mul-mod_left k a.item_size)

  quot_lem : quot (pos (k * a.item_size)) a.item_size ≡ pos k
  quot_lem = ap pos (mul-div_cancel k v.item_pos)

  -- Past the checks, only the mark decides.
  pub release_block_checked : release_block a (a.buffer + k * a.item_size) ≡ (
      if not (a.free_list k ==ℤ detached_idx)
      then some (double_free, a)
      else some (success, released a k))
  unfolding release_block
  release_block_checked =
      let nz : (a.item_size == 0) ≡ false = ground (arith, v.item_pos) in
      let low : ltb_ℤ (pos k) (pos 0) ≡ false = ground arith in
      let high : ltb_ℤ (pos k) (pos a.size_max) ≡ true = ground arith in
      rw (block_offset_lem, nz, aligned, quot_lem, mul-div_cancel k v.item_pos) (rw (low, high))

pub release_block_eq :
    (a : PoolAllocator) (k : ℕ) (ks : List ℕ)
    → IsValid a ks
    → k < a.size_max
    → has k ks ≡ false
    → release_block a (a.buffer + k * a.item_size) ≡ some (success, released a k)
release_block_eq a k ks v lt out = rw (release_block_checked a k ks v lt, v.busy k lt out)

-- `PoolAllocator_releaseBlock` of a block that is handed out succeeds: the block is the first free
-- one, and the pool is valid.
pub release_block-IsValid :
    (a : PoolAllocator) (k : ℕ) (ks : List ℕ)
    → IsValid a ks
    → k < a.size_max
    → has k ks ≡ false
    → (a' : PoolAllocator) × (release_block a (a.buffer + k * a.item_size) ≡ some (success, a'))
      × IsValid a' (k ∷ ks)
      × (a'.buffer ≡ a.buffer)
      × (a'.item_size ≡ a.item_size)
      × (a'.size_max ≡ a.size_max)
unfolding write
release_block-IsValid a k ks v lt out = (
  released a k,
  release_block_eq a k ks v lt out,
  record {
    chain = (
      refl,
      lt,
      out,
      rw (==-self k)
          (FreeChain-write a.free_list a.size_max k a.first_idx a.first_idx ks out v.chain),
    );
    busy = λ j l o. ground (arith, v.busy j);
    size = rw v.size (
        int_add_pos (length ks)
          (omega (arith, length-lt_of_busy a k ks v lt out, length-le_size_max a ks v)));
    item_pos = v.item_pos;
    fits = v.fits;
  },
  refl,
  refl,
  refl,
)
