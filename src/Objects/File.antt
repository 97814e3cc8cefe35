-- ===== src/Objects/File.antt =====
-- Resources and their descriptors: src/disastrOS_resource.c and disastrOS_descriptor.c.
pub mod Laws
use disastr_os_semaphores.Common.{ℕ, ℤ, ◌==◌, ◌==ℤ◌, if◌then◌else◌}
use disastr_os_semaphores.LinkedList.{list_init}
use disastr_os_semaphores.PoolAllocator.{PoolAllocatorResult}
use disastr_os_semaphores.Kernel.{
  M, pure, ◌>>=◌, ◌>>◌, resource_pool, descriptor_pool, descriptor_ptr_pool, ListRef,
  resource_descriptors, alloc, release, unlink, put_resource, set_desc, put_desc_ptr, put_head,
  get_head, find_in, fault_if,
}

unfoldable pub resource_alloc : (id type : ℤ) → M ℕ
resource_alloc id type = do
  r ← alloc resource_pool
  if r == 0 then pure 0 else do
    unlink r
    put_resource r (record { id = id; type = type })
    put_head (resource_descriptors r) list_init
    pure r

-- `Resource_free` asserts that no descriptor is left.
unfoldable pub resource_free : ℕ → M PoolAllocatorResult
resource_free r = do
  h ← get_head (resource_descriptors r)
  fault_if h.first
  fault_if h.last
  release resource_pool r

unfoldable pub resource_list_by_id : ListRef → (id : ℤ) → M ℕ
unfolding find_in
resource_list_by_id l id = find_in l λ k p. (k.resources p).id ==ℤ id

unfoldable pub descriptor_alloc : (fd : ℤ) → (res pcb : ℕ) → M ℕ
descriptor_alloc fd res pcb = do
  d ← alloc descriptor_pool
  if d == 0
      then pure 0
      else do unlink d; set_desc d λ v. record v { fd = fd; resource = res; pcb = pcb }; pure d

unfoldable pub descriptor_free : ℕ → M PoolAllocatorResult
descriptor_free d = release descriptor_pool d

unfoldable pub descriptor_list_by_fd : ListRef → (fd : ℤ) → M ℕ
unfolding find_in
descriptor_list_by_fd l fd = find_in l λ k p. (k.descs p).fd ==ℤ fd

unfoldable pub descriptor_ptr_alloc : (descriptor : ℕ) → M ℕ
descriptor_ptr_alloc descriptor = do
  d ← alloc descriptor_ptr_pool
  if d == 0
      then pure 0
      else do unlink d; put_desc_ptr d (record { descriptor = descriptor }); pure d

unfoldable pub descriptor_ptr_free : ℕ → M PoolAllocatorResult
descriptor_ptr_free d = release descriptor_ptr_pool d
