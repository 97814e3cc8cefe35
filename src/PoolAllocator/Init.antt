-- ===== src/PoolAllocator/Init.antt =====
-- `PoolAllocator_init` (src/pool_allocator.c) on enough memory and on too little.
use disastr_os_semaphores.Common.{
  ℕ, zero, suc, ◌*◌, ◌%◌, ◌+◌, ◌-◌, ◌^◌, ◌<◌, ◌≡◌, refl, sym, ap, true, false, ◌&&◌, some, List, [],
  ◌∷◌, arith, ltb, leb, if◌then◌else◌, ℤ, pos, length, has, ◌∙◌, ==-ne, to_int, to_int-id, ltb_ℤ,
  ◌≤ℤ◌, ◌<ℤ◌,
}
use disastr_os_semaphores.PoolAllocator.{
  PoolAllocator, success, not_enough_memory, null_idx, int_size, write, chain_blocks,
  requested_size, init,
}
use disastr_os_semaphores.PoolAllocator.Free.{FreeChain, IsValid}

-- The numbers from `i` on, `n` of them.
unfoldable pub count_up : ℕ → ℕ → List ℕ
count_up i zero = []
count_up i (suc n) = i ∷ count_up (suc i) n

length-count_up : (i n : ℕ) → length (count_up i n) ≡ n
unfolding count_up
length-count_up i zero = refl
length-count_up i (suc n) = ap suc (length-count_up (suc i) n)

has-count_up : (i n k : ℕ) → has k (count_up i n) ≡ (leb i k && ltb k (i + n))
unfolding count_up
has-count_up i zero k = ground arith
has-count_up i (suc n) k = ground (arith, has-count_up (suc i) n k)

chain_blocks_lem :
    (r i : ℕ) (f : ℕ → ℤ) (j : ℕ)
    → chain_blocks r i f j ≡ (if leb i j && ltb j (i + r) then pos (j + 1) else f j)
unfolding chain_blocks
chain_blocks_lem zero i f j = ground arith
chain_blocks_lem (suc r) i f j =
    ground (arith, chain_blocks_lem r (i + 1) (write f i (pos (i + 1))) j)

-- An array whose entries count up to `n - 1`, and end there, is one chain.
FreeChain-count_up :
    (f : ℕ → ℤ) (n : ℕ)
    → ((j : ℕ) → j + 1 < n → f j ≡ pos (j + 1))
    → f (n - 1) ≡ null_idx
    → (i r : ℕ) → i + suc r ≡ n
    → FreeChain f n (pos i) (count_up i (suc r))
unfolding count_up
FreeChain-count_up f n up last i zero e =
    let i' : i ≡ n - 1 = omega arith in (refl, omega arith, refl, rw i' last)
FreeChain-count_up f n up last i (suc r) e =
    let next : f i ≡ pos (suc i) = up i (omega arith) ∙ ap pos (omega arith) in
    (
      refl,
      omega arith,
      has-count_up (suc i) (suc r) i ∙ ground arith,
      rw next (FreeChain-count_up f n up last (suc i) r (omega arith)),
    )

pub requested_size-exact :
    (s n : ℕ) → n * (s + int_size) < 2 ^ 31 → requested_size s n ≡ pos (n * (s + int_size))
unfolding requested_size
requested_size-exact s n fits =
    let e : n * (s + int_size) % 2 ^ 64 ≡ n * (s + int_size) = omega arith in
    rw e (to_int-id (pos (n * (s + int_size))) (omega arith))

-- `PoolAllocator_init` on enough memory, for at least one item of at least one byte and sizes that
-- fit an `int`, succeeds; all blocks are then free, in increasing order.
pub init-IsValid :
    (a : PoolAllocator) (item_size num_items block : ℕ) (memory_size : ℤ)
    → 0 < item_size
    → 0 < num_items
    → num_items * (item_size + int_size) < 2 ^ 31
    → pos (num_items * (item_size + int_size)) ≤ℤ memory_size
    → (a' : PoolAllocator) × (init a item_size num_items block memory_size ≡ some (success, a'))
      × IsValid a' (count_up 0 num_items)
      × (a'.buffer ≡ block)
      × (a'.item_size ≡ item_size)
      × (a'.size_max ≡ num_items)
unfolding init
init-IsValid a s zero block m sp np fits enough = absurd (omega arith)
init-IsValid a s (suc n) block m sp np fits enough = (
  record {
    buffer = block;
    free_list = f;
    buffer_size = to_int (pos (s * suc n));
    size = pos (suc n);
    size_max = suc n;
    item_size = s;
    first_idx = pos 0;
  },
  rw (==-ne (suc n) 0 (omega arith), enough') refl,
  record {
    chain = FreeChain-count_up f (suc n) up last 0 n (omega arith);
    busy = λ k lt out. absurd (ground (arith, has-count_up 0 (suc n) k));
    size = ap pos (sym (length-count_up 0 (suc n)));
    item_pos = sp;
    fits = grind arith;
  },
  refl,
  refl,
  refl,
)
  where
    f : ℕ → ℤ
    f = write (chain_blocks (suc n - 1) 0 a.free_list) (suc n - 1) null_idx

    last : f (suc n - 1) ≡ null_idx
    last = ground arith

    up : (j : ℕ) → j + 1 < suc n → f j ≡ pos (j + 1)
    up j lt = ground (arith, chain_blocks_lem (suc n - 1) 0 a.free_list j)

    enough' : ltb_ℤ m (requested_size s (suc n)) ≡ false
    enough' = rw (requested_size-exact s (suc n) fits) (ground arith)

-- `PoolAllocator_init` on too little memory reports it and leaves the pool alone.
pub init-not_enough_memory :
    (a : PoolAllocator) (item_size num_items block : ℕ) (memory_size : ℤ)
    → num_items * (item_size + int_size) < 2 ^ 31
    → memory_size <ℤ pos (num_items * (item_size + int_size))
    → init a item_size num_items block memory_size ≡ some (not_enough_memory, a)
unfolding init
init-not_enough_memory a s n block m fits few =
    let few' : ltb_ℤ m (requested_size s n) ≡ true =
      rw (requested_size-exact s n fits) (ground arith) in
    rw few'
