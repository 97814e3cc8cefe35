-- ===== src/Syscalls/Files.antt =====
-- The system calls on resources: src/disastrOS_open_resource.c, disastrOS_close_resource.c and
-- disastrOS_destroy_resource.c.
pub mod Opens
pub mod Closes
pub mod Destroys
use disastr_os_semaphores.Common.{
  ℕ, ℤ, pos, ◌==◌, ◌==ℤ◌, is_set, ◌&&◌, not, flag_set, int_add, if◌then◌else◌,
}
use disastr_os_semaphores.Kernel.{
  M, pure, ◌>>=◌, ◌>>◌, resources_list, descriptors, resource_descriptors, get_head, insert_back,
  detach_at, set_pcb, get_desc, set_desc, get_resource, assert_set, dsos_create, dsos_excl,
  dsos_eresourcecreate, dsos_eresourceopen, dsos_eresourcenoexcl, dsos_eresourcenofd,
  dsos_eresourceclose, dsos_eresourceinuse,
}
use disastr_os_semaphores.Objects.File.{
  resource_alloc, resource_free, resource_list_by_id, descriptor_alloc, descriptor_free,
  descriptor_list_by_fd, descriptor_ptr_alloc, descriptor_ptr_free,
}
use disastr_os_semaphores.Syscalls.Common.{get_running, running_pcb, int_arg, set_retvalue}

-- The descriptor of the running process, and the entry in the resource's list.
unfoldable pub open_file : (res : ℕ) → M (Unit {0})
open_file res = do
  p ← running_pcb
  r ← get_running
  des ← descriptor_alloc p.last_fd res r
  if des == 0 then set_retvalue dsos_eresourcenofd else do
    set_pcb r λ p. record p { last_fd = int_add p.last_fd (pos 1) }
    desptr ← descriptor_ptr_alloc des
    insert_back (descriptors r) des
    set_desc des λ d. record d { ptr = desptr }
    insert_back (resource_descriptors res) desptr
    d ← get_desc des
    set_retvalue d.fd

-- `!res || res->type != type`
unfoldable pub wrong_resource : (res : ℕ) → (type : ℤ) → M ℕ
wrong_resource res type =
    if res == 0 then pure 1 else do v ← get_resource res; pure (if v.type ==ℤ type then 0 else 1)

unfoldable pub check_file : (res : ℕ) → (type open_mode : ℤ) → M (Unit {0})
check_file res type open_mode = do
  wrong ← wrong_resource res type
  if is_set wrong then set_retvalue dsos_eresourceopen else do
    h ← get_head (resource_descriptors res)
    if flag_set open_mode dsos_excl && not (h.size ==ℤ pos 0)
        then set_retvalue dsos_eresourcenoexcl
        else open_file res

unfoldable pub internal_open_resource : M (Unit {0})
internal_open_resource = do
  id ← int_arg 0
  type ← int_arg 1
  open_mode ← int_arg 2
  res ← resource_list_by_id resources_list id
  if flag_set open_mode dsos_create
      then (if is_set res then set_retvalue dsos_eresourcecreate else do
        new ← resource_alloc id type
        insert_back resources_list new
        check_file new type open_mode)
      else check_file res type open_mode

unfoldable pub internal_close_resource : M (Unit {0})
internal_close_resource = do
  fd ← int_arg 0
  r ← get_running
  found ← descriptor_list_by_fd (descriptors r) fd
  if found == 0 then set_retvalue dsos_eresourceclose else do
    des ← detach_at (descriptors r) found
    assert_set des
    d ← get_desc des
    get_resource d.resource
    desptr ← detach_at (resource_descriptors d.resource) d.ptr
    assert_set desptr
    descriptor_free des
    descriptor_ptr_free desptr
    set_retvalue (pos 0)

unfoldable pub internal_destroy_resource : M (Unit {0})
internal_destroy_resource = do
  id ← int_arg 0
  found ← resource_list_by_id resources_list id
  if found == 0 then set_retvalue dsos_eresourceclose else do
    h ← get_head (resource_descriptors found)
    if not (h.size ==ℤ pos 0) then set_retvalue dsos_eresourceinuse else do
      res ← detach_at resources_list found
      assert_set res
      resource_free res
      set_retvalue (pos 0)
