-- ===== src/Kernel/Types.antt =====
-- The kernel's structs: disastrOS_pcb.h, disastrOS_timer.h, disastrOS_resource.h,
-- disastrOS_descriptor.h, disastrOS_semaphore.h and disastrOS_semdescriptor.h (in src/). A pointer is
-- an address, 0 being NULL. The first field of each struct, its `ListItem`, is kept in the map of
-- links at the struct's address, and its `ListHead` fields in the map of heads (`ListRef`).
use disastr_os_semaphores.Common.{ℕ, ℤ, Bool, ◌==◌, ◌&&◌}

pub data ProcessStatus : Type 0 where
  invalid created running ready waiting suspended zombie : ProcessStatus

-- `cpu_state` and `stack` are the processor's; of the former `entry` and `entry_arg` keep the
-- function and the argument that `makecontext` is given. The signal sets are bit patterns.
pub record Pcb : Type 0 where
  pub pid : ℤ
  pub return_value : ℤ
  pub status : ProcessStatus
  pub signals : ℕ
  pub signals_mask : ℕ
  pub parent : ℕ
  pub timer : ℕ
  pub last_fd : ℤ
  pub last_sem_fd : ℤ
  pub syscall_num : ℤ
  pub syscall_args : ℕ → ℤ
  pub syscall_retvalue : ℤ
  pub entry : ℤ
  pub entry_arg : ℤ

pub record PcbPtr : Type 0 where
  pub pcb : ℕ

pub record TimerItem : Type 0 where
  pub awakening_time : ℤ
  pub pcb : ℕ

pub record Resource : Type 0 where
  pub id : ℤ
  pub type : ℤ

pub record Descriptor : Type 0 where
  pub pcb : ℕ
  pub resource : ℕ
  pub fd : ℤ
  pub ptr : ℕ

-- Both `DescriptorPtr` structs have a second `ListItem`, which nothing uses.
pub record DescriptorPtr : Type 0 where
  pub descriptor : ℕ

pub record Semaphore : Type 0 where
  pub id : ℤ
  pub count : ℤ

pub record SemDescriptor : Type 0 where
  pub pcb : ℕ
  pub semaphore : ℕ
  pub fd : ℤ
  pub ptr : ℕ

pub record SemDescriptorPtr : Type 0 where
  pub descriptor : ℕ

-- Where a `ListHead` stands: a global, or a field of the struct at an address.
pub data ListRef : Type 0 where
  ready_list waiting_list zombie_list resources_list semaphores_list timer_list : ListRef
  children : ℕ → ListRef
  descriptors : ℕ → ListRef
  sem_descriptors : ℕ → ListRef
  resource_descriptors : ℕ → ListRef
  semaphore_descriptors : ℕ → ListRef
  waiting_descriptors : ℕ → ListRef

-- A number for each field, and the address of the struct (that of a global is never NULL).
abbrev pub field_of : ListRef → ℕ
field_of ready_list = 0
field_of waiting_list = 1
field_of zombie_list = 2
field_of resources_list = 3
field_of semaphores_list = 4
field_of timer_list = 5
field_of (children p) = 6
field_of (descriptors p) = 7
field_of (sem_descriptors p) = 8
field_of (resource_descriptors p) = 9
field_of (semaphore_descriptors p) = 10
field_of (waiting_descriptors p) = 11

abbrev pub owner_of : ListRef → ℕ
owner_of (children p) = p
owner_of (descriptors p) = p
owner_of (sem_descriptors p) = p
owner_of (resource_descriptors p) = p
owner_of (semaphore_descriptors p) = p
owner_of (waiting_descriptors p) = p
owner_of _ = 1

abbrev pub same_ref : ListRef → ListRef → Bool
same_ref r s = field_of r == field_of s && owner_of r == owner_of s

-- The static pools.
pub data PoolId : Type 0 where
  pcb_pool pcb_ptr_pool timer_pool resource_pool descriptor_pool descriptor_ptr_pool : PoolId
  semaphore_pool sem_descriptor_pool sem_descriptor_ptr_pool : PoolId

abbrev pub pool_number : PoolId → ℕ
pool_number pcb_pool = 0
pool_number pcb_ptr_pool = 1
pool_number timer_pool = 2
pool_number resource_pool = 3
pool_number descriptor_pool = 4
pool_number descriptor_ptr_pool = 5
pool_number semaphore_pool = 6
pool_number sem_descriptor_pool = 7
pool_number sem_descriptor_ptr_pool = 8
