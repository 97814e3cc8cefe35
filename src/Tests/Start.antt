-- ===== src/Tests/Start.antt =====
-- Starting the system (src/disastrOS.c), and a use of a pool (src/pool_allocator.c).
use disastr_os_semaphores.Common.{pos, ◌+◌, ◌*◌, ◌^◌, ◌<◌, ◌≡◌, some, [], ◌∷◌, arith}
use disastr_os_semaphores.PoolAllocator.{
  PoolAllocator, int_size, success, double_free, out_of_range, unaligned_free,
}
use disastr_os_semaphores.PoolAllocator.Free.{IsValid}
use disastr_os_semaphores.PoolAllocator.Commands.{
  get, give, block, result, run, run_ideal, run-run_ideal,
}
use disastr_os_semaphores.Kernel.{
  Kernel, PoolId, pool_number, pcb_pool, pcb_ptr_pool, timer_pool, resource_pool, descriptor_pool,
  descriptor_ptr_pool, semaphore_pool, sem_descriptor_pool, sem_descriptor_ptr_pool,
}
use disastr_os_semaphores.Syscalls.Start.{Layout, disastr_os_start}
use disastr_os_semaphores.Syscalls.Start.Pools.{capacity, IsFit}
use disastr_os_semaphores.Syscalls.Start.Ready.{IsStarted, disastr_os_start-IsStarted}
use disastr_os_semaphores.Tests.Kernel.{kernel_of, no_head}
use disastr_os_semaphores.Tests.PoolAllocator.{one_free, one_free-IsValid}

-- Structs of 64 bytes, in buffers that do not overlap.
abbrev layout : Layout
layout = record { item_size = λ i. 64; buffer = λ i. 4194304 * (1 + pool_number i) }

layout-fits : (i : PoolId) → capacity i * (64 + int_size) < 2 ^ 31
layout-fits pcb_pool = omega arith
layout-fits pcb_ptr_pool = omega arith
layout-fits timer_pool = omega arith
layout-fits resource_pool = omega arith
layout-fits descriptor_pool = omega arith
layout-fits descriptor_ptr_pool = omega arith
layout-fits semaphore_pool = omega arith
layout-fits sem_descriptor_pool = omega arith
layout-fits sem_descriptor_ptr_pool = omega arith

layout-IsFit : IsFit layout
layout-IsFit = record {
  item_pos = λ i. omega arith;
  fits = layout-fits;
  ne_null = λ i. omega arith;
}

abbrev zeroed : Kernel
zeroed = kernel_of (pos 0) (pos 0) no_head no_head no_head

disastr_os_start-IsStarted_example :
    (k' : Kernel) × (disastr_os_start layout (pos 77) (pos 0) zeroed ≡ some (tt, k'))
    × IsStarted layout (pos 77) (pos 0) (pos 8) k'
disastr_os_start-IsStarted_example =
    disastr_os_start-IsStarted layout (pos 77) (pos 0) zeroed layout-IsFit

-- Block 1 is taken, then there is none, it is given back, and so is block 0, then block 1 again, then
-- an address between the blocks and one behind them.
run-run_ideal_example :
    (a' : PoolAllocator) × (run
        (get ∷ get ∷ give 408 ∷ give 400 ∷ give 408 ∷ give 404 ∷ give 416 ∷ [])
        one_free
      ≡ some (
        block 408
            ∷ block 0
            ∷ result success
            ∷ result success
            ∷ result double_free
            ∷ result unaligned_free
            ∷ result out_of_range
            ∷ [],
        a',
      ))
    × IsValid a' (0 ∷ 1 ∷ [])
unfolding run_ideal
run-run_ideal_example =
    run-run_ideal (get ∷ get ∷ give 408 ∷ give 400 ∷ give 408 ∷ give 404 ∷ give 416 ∷ []) one_free
      (1 ∷ []) one_free-IsValid
      (
        omega arith,
        omega arith,
        (
          omega arith,
          omega arith,
          (omega arith, omega arith, (omega arith, omega arith, (omega arith, omega arith, tt))),
        ),
      )
