-- ===== src/Objects/Process.antt =====
-- PCBs and pointers to them: src/disastrOS_pcb.c.
pub mod Laws
use disastr_os_semaphores.Common.{ℕ, ℤ, pos, ◌==ℤ◌, int_add, ◌-◌, ◌^◌}
use disastr_os_semaphores.LinkedList.{list_init}
use disastr_os_semaphores.PoolAllocator.{PoolAllocatorResult}
use disastr_os_semaphores.Kernel.{
  M, pure, ◌>>=◌, ◌>>◌, gets, modify, ProcessStatus, Pcb, pcb_pool, pcb_ptr_pool, ListRef, children,
  descriptors, alloc, release, unlink, set_pcb, put_pcb_ptr, put_head, find_in,
}

-- The fields that `PCB_alloc` sets, the lists apart.
abbrev pub fresh_pcb : (pid : ℤ) → Pcb → Pcb
fresh_pcb pid p = record p {
  pid = pid;
  return_value = pos 0;
  status = ProcessStatus.invalid;
  last_fd = pos 0;
  signals = 0;
  signals_mask = 2 ^ 32 - 1;
  parent = 0;
  timer = 0;
  last_sem_fd = pos 0;
}

-- `PCB_alloc` does not test for NULL: without a block the first write is a fault. It initialises the
-- list of descriptors twice, and that of semaphore descriptors not at all.
unfoldable pub pcb_alloc : M ℕ
unfolding int_add
pcb_alloc = do
  pcb ← alloc pcb_pool
  unlink pcb
  pid ← gets (λ k. k.last_pid)
  modify λ k. record k { last_pid = int_add k.last_pid (pos 1) }
  set_pcb pcb (fresh_pcb pid)
  put_head (descriptors pcb) list_init
  put_head (children pcb) list_init
  put_head (descriptors pcb) list_init
  pure pcb

unfoldable pub pcb_free : ℕ → M PoolAllocatorResult
pcb_free pcb = release pcb_pool pcb

unfoldable pub pcb_ptr_alloc : (pcb : ℕ) → M ℕ
pcb_ptr_alloc pcb = do
  pcb_ptr ← alloc pcb_ptr_pool
  unlink pcb_ptr
  put_pcb_ptr pcb_ptr (record { pcb = pcb })
  pure pcb_ptr

unfoldable pub pcb_ptr_free : ℕ → M PoolAllocatorResult
pcb_ptr_free pcb_ptr = release pcb_ptr_pool pcb_ptr

unfoldable pub pcb_by_pid : ListRef → (pid : ℤ) → M ℕ
unfolding find_in
pcb_by_pid head pid = find_in head λ k p. (k.pcbs p).pid ==ℤ pid

-- The `pcb` of a `PCBPtr` is never NULL: they are made for new PCBs only.
unfoldable pub pcb_ptr_by_pid : ListRef → (pid : ℤ) → M ℕ
unfolding find_in
pcb_ptr_by_pid head pid = find_in head λ k p. (k.pcbs (k.pcb_ptrs p).pcb).pid ==ℤ pid
