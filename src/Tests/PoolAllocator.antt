-- ===== src/Tests/PoolAllocator.antt =====
-- A pool of two blocks (src/pool_allocator.c).
use disastr_os_semaphores.Common.{
  ℕ, pos, ◌≡◌, refl, false, [], ◌∷◌, arith, has, if◌then◌else◌, ◌==◌, ◌<◌, ◌*◌, ◌+◌,
}
use disastr_os_semaphores.PoolAllocator.{PoolAllocator, null_idx, detached_idx}
use disastr_os_semaphores.PoolAllocator.Free.{IsValid}
use disastr_os_semaphores.PoolAllocator.Blocks.{released, release_block_eq}
use disastr_os_semaphores.PoolAllocator.Misuse.{release_block-handed_out}

-- Blocks of 8 bytes from address 400: block 0 is handed out, and block 1 free.
abbrev pub one_free : PoolAllocator
one_free = record {
  buffer = 400;
  free_list = λ i. if i == 1 then null_idx else detached_idx;
  buffer_size = pos 16;
  size = pos 1;
  size_max = 2;
  item_size = 8;
  first_idx = pos 1;
}

pub one_free-IsValid : IsValid one_free (1 ∷ [])
one_free-IsValid = record {
  chain = (refl, omega arith, refl, refl);
  busy = λ k lt out. ground (arith, out);
  size = refl;
  item_pos = omega arith;
  fits = omega arith;
}

-- Both handed out.
abbrev pub none_free : PoolAllocator
none_free = record one_free { free_list = λ i. detached_idx; size = pos 0; first_idx = null_idx }

pub none_free-IsValid : IsValid none_free []
none_free-IsValid = record {
  chain = refl;
  busy = λ k lt out. refl;
  size = refl;
  item_pos = omega arith;
  fits = omega arith;
}

release_block-handed_out_example :
    (k : ℕ) × (k < 2) × (has k (1 ∷ []) ≡ false) × (400 ≡ 400 + k * 8)
release_block-handed_out_example =
    release_block-handed_out one_free (released one_free 0) (1 ∷ []) 400 one_free-IsValid
      (omega arith) (omega arith)
      (release_block_eq one_free 0 (1 ∷ []) one_free-IsValid (omega arith) refl)
