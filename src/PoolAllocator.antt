-- ===== src/PoolAllocator.antt =====
-- src/pool_allocator.c and pool_allocator.h: blocks of one size from a static buffer. The free list
-- is an array of indices behind the blocks, one `int` for each block.
pub mod Free
pub mod Init
pub mod Blocks
pub mod Misuse
pub mod Refine
pub mod Commands
use Prim.Native.String.{String}
use disastr_os_semaphores.Common.{
  ℕ, zero, suc, ◌+◌, ◌-◌, ◌*◌, ◌/◌, ◌%◌, ◌^◌, Bool, true, false, not, ◌||◌, Option, none, some,
  ◌==◌, ltb, is_set, if◌then◌else◌, ℤ, pos, negsuc, pos_part, neg_part, sub_ℕ, ◌+ℤ◌, ◌-ℤ◌, ltb_ℤ,
  ◌==ℤ◌, to_int, int_add, int_sub,
}

pub data PoolAllocatorResult : Type 0 where
  success not_enough_memory unaligned_free out_of_range double_free : PoolAllocatorResult

unfoldable pub strerror : PoolAllocatorResult → String
strerror success = "Success"
strerror not_enough_memory = "NotEnoughMemory"
strerror unaligned_free = "UnalignedFree"
strerror out_of_range = "OutOfRange"
strerror double_free = "DoubleFree"

-- `free_list` holds what the array holds; an index outside it is a fault. `item_size` and
-- `size_max` come from `sizeof` and from constants, so they are not negative. `bucket_size` is
-- never used.
pub record PoolAllocator : Type 0 where
  pub buffer : ℕ
  pub free_list : ℕ → ℤ
  pub buffer_size : ℤ
  pub size : ℤ
  pub size_max : ℕ
  pub item_size : ℕ
  pub first_idx : ℤ

abbrev pub null_idx : ℤ
null_idx = negsuc 0

abbrev pub detached_idx : ℤ
detached_idx = negsuc 1

-- `sizeof(int)`
abbrev pub int_size : ℕ
int_size = 4

-- `free_list[i] = v`
unfoldable pub write : (ℕ → ℤ) → ℕ → ℤ → ℕ → ℤ
write f i v j = if j == i then v else f j

-- The loop that chains the blocks, with the rounds that are left.
unfoldable pub chain_blocks : ℕ → (i : ℕ) → (ℕ → ℤ) → ℕ → ℤ
unfolding write
chain_blocks zero i f = f
chain_blocks (suc rounds) i f = chain_blocks rounds (i + 1) (write f i (pos (i + 1)))

-- `num_items * (item_size + sizeof(int))` is a `size_t`, cut down to an `int`.
unfoldable pub requested_size : (item_size num_items : ℕ) → ℤ
unfolding to_int
requested_size item_size num_items = to_int (pos (num_items * (item_size + int_size) % 2 ^ 64))

-- `PoolAllocator_init`. With no item it writes before the free list: a fault.
unfoldable pub init :
    PoolAllocator
    → (item_size num_items memory_block : ℕ) → (memory_size : ℤ)
    → Option (PoolAllocatorResult × PoolAllocator)
unfolding requested_size chain_blocks to_int
init a item_size num_items memory_block memory_size =
    if ltb_ℤ memory_size (requested_size item_size num_items)
    then some (not_enough_memory, a)
    else if num_items == 0
    then none
    else some (
      success,
      record {
        buffer = memory_block;
        free_list = write (chain_blocks (num_items - 1) 0 a.free_list) (num_items - 1) null_idx;
        buffer_size = to_int (pos (item_size * num_items));
        size = pos num_items;
        size_max = num_items;
        item_size = item_size;
        first_idx = pos 0;
      },
    )

-- A pointer plus an `int` offset.
abbrev pub offset_by : ℕ → ℤ → ℕ
offset_by p d = p + pos_part d - neg_part d

unfoldable pub block_address : PoolAllocator → ℕ → ℕ
unfolding to_int
block_address a i = offset_by a.buffer (to_int (pos (i * a.item_size)))

-- What `PoolAllocator_getBlock` does with the index of the first free block.
take_block : PoolAllocator → ℤ → Option (ℕ × PoolAllocator)
take_block a (negsuc i) = none
take_block a (pos i) =
    if ltb i a.size_max
    then some (
      block_address a i,
      record a {
        free_list = write a.free_list i detached_idx;
        size = int_sub a.size (pos 1);
        first_idx = a.free_list i;
      },
    )
    else none

-- `PoolAllocator_getBlock`: NULL if no block is left; an index out of the array is a fault.
unfoldable pub get_block : PoolAllocator → Option (ℕ × PoolAllocator)
unfolding take_block
get_block a = if a.first_idx ==ℤ null_idx then some (0, a) else take_block a a.first_idx

-- C's division of an `int`, towards 0.
abbrev pub quot : ℤ → ℕ → ℤ
quot (pos n) d = pos (n / d)
quot (negsuc n) d = sub_ℕ 0 (suc n / d)

unfoldable pub block_offset : PoolAllocator → ℕ → ℤ
unfolding to_int ◌-ℤ◌
block_offset a block = to_int (pos block -ℤ pos a.buffer)

-- `PoolAllocator_releaseBlock`. Division by an `item_size` of 0 is a fault.
unfoldable pub release_block :
    PoolAllocator → (block : ℕ) → Option (PoolAllocatorResult × PoolAllocator)
release_block a block =
    let offset = block_offset a block in
    let idx = quot offset a.item_size in
    if a.item_size == 0
    then none
    else if is_set ((pos_part offset + neg_part offset) % a.item_size)
    then some (unaligned_free, a)
    else if ltb_ℤ idx (pos 0) || not (ltb_ℤ idx (pos a.size_max))
    then some (out_of_range, a)
    else if not (a.free_list (pos_part idx) ==ℤ detached_idx)
    then some (double_free, a)
    else some (
      success,
      record a {
        free_list = write a.free_list (pos_part idx) a.first_idx;
        size = int_add a.size (pos 1);
        first_idx = idx;
      },
    )
