-- ===== src/Kernel/Constants.antt =====
-- src/disastrOS_constants.h.
use disastr_os_semaphores.Common.{ℕ, ℤ, negsuc}

-- The capacity of the pools that are in use.
abbrev pub max_num_processes : ℕ
max_num_processes = 1024

abbrev pub max_num_resources : ℕ
max_num_resources = 1024

abbrev pub max_num_semaphores : ℕ
max_num_semaphores = 1024

abbrev pub dsos_sigchld : ℕ
dsos_sigchld = 0x1

abbrev pub dsos_sighup : ℕ
dsos_sighup = 0x2

abbrev pub dsos_esyscall_not_implemented : ℤ
dsos_esyscall_not_implemented = negsuc 1

abbrev pub dsos_esyscall_out_of_range : ℤ
dsos_esyscall_out_of_range = negsuc 2

abbrev pub dsos_ewait : ℤ
dsos_ewait = negsuc 4

abbrev pub dsos_espawn : ℤ
dsos_espawn = negsuc 5

abbrev pub dsos_esleep : ℤ
dsos_esleep = negsuc 6

abbrev pub dsos_eresourcecreate : ℤ
dsos_eresourcecreate = negsuc 7

abbrev pub dsos_eresourceopen : ℤ
dsos_eresourceopen = negsuc 8

abbrev pub dsos_eresourcenoexcl : ℤ
dsos_eresourcenoexcl = negsuc 9

abbrev pub dsos_eresourcenofd : ℤ
dsos_eresourcenofd = negsuc 10

abbrev pub dsos_eresourceclose : ℤ
dsos_eresourceclose = negsuc 11

abbrev pub dsos_eresourceinuse : ℤ
dsos_eresourceinuse = negsuc 12

abbrev pub dsos_esemaphorecreate : ℤ
dsos_esemaphorecreate = negsuc 13

abbrev pub dsos_esemaphoreopen : ℤ
dsos_esemaphoreopen = negsuc 14

abbrev pub dsos_esemaphorenoexcl : ℤ
dsos_esemaphorenoexcl = negsuc 15

abbrev pub dsos_esemaphorewait : ℤ
dsos_esemaphorewait = negsuc 16

abbrev pub dsos_esemaphoreclose : ℤ
dsos_esemaphoreclose = negsuc 18

abbrev pub dsos_max_syscalls : ℕ
dsos_max_syscalls = 32

abbrev pub dsos_call_preempt : ℕ
dsos_call_preempt = 1

abbrev pub dsos_call_fork : ℕ
dsos_call_fork = 2

abbrev pub dsos_call_wait : ℕ
dsos_call_wait = 3

abbrev pub dsos_call_exit : ℕ
dsos_call_exit = 4

abbrev pub dsos_call_spawn : ℕ
dsos_call_spawn = 5

abbrev pub dsos_call_sleep : ℕ
dsos_call_sleep = 6

abbrev pub dsos_call_open_resource : ℕ
dsos_call_open_resource = 7

abbrev pub dsos_call_close_resource : ℕ
dsos_call_close_resource = 8

abbrev pub dsos_call_destroy_resource : ℕ
dsos_call_destroy_resource = 9

abbrev pub dsos_call_shutdown : ℕ
dsos_call_shutdown = 10

abbrev pub dsos_call_semopen : ℕ
dsos_call_semopen = 11

abbrev pub dsos_call_semclose : ℕ
dsos_call_semclose = 12

abbrev pub dsos_call_semwait : ℕ
dsos_call_semwait = 13

abbrev pub dsos_call_sempost : ℕ
dsos_call_sempost = 14

abbrev pub dsos_create : ℕ
dsos_create = 0x1

abbrev pub dsos_excl : ℕ
dsos_excl = 0x4
