-- ===== src/Lib.antt =====
-- The kernel of disastrOS with its semaphores, modelled and verified.
--
-- disastrOS is a teaching operating system in one C program. Its processes are contexts on one
-- stack each; they enter the kernel by a trap (`disastrOS_syscall`) or a timer interrupt. The kernel
-- keeps its objects in static pools and links them into intrusive lists: the ready, waiting and
-- zombie processes, the timers, the resources, the semaphores, the descriptors of each process, and
-- for each semaphore the queue of those that wait on it. A handler reads the arguments that the trap
-- stored in the running process, changes the lists, and stores a return value.
--
-- The parts, from the bottom:
--   LinkedList.antt: src/linked_list.c. `list_insert` is `List_insert`, `list_detach` is
--     `List_detach`, `list_find` is `List_find`. `IsList` (LinkedList/Seg) says which sequence of
--     addresses a list stands for; Writes, Insert, Detach and Find prove the operations on sequences.
--   PoolAllocator.antt: src/pool_allocator.c. `init`, `get_block`, `release_block`. `IsValid`
--     (PoolAllocator/Free) is the invariant of a pool with the sequence of its free blocks; Blocks,
--     Init and Misuse are about single calls, and Refine and Commands about any sequence of them,
--     next to a stack of block numbers (`run_ideal`).
--   Kernel.antt: the constants (src/disastrOS_constants.h), the structs, the state (the globals of
--     src/disastrOS.c and one map of memory for each struct), and the commands on it; Kernel/Lists
--     and Kernel/Pools carry the theorems on lists and pools over to the state. `World`
--     (Kernel/World) says that all lists of a state together are in order and share no item, with a
--     `View` (Kernel/View) for their sequences.
--   Objects.antt: allocation and search of the objects. Process is src/disastrOS_pcb.c, Timer
--     src/disastrOS_timer.c, File src/disastrOS_resource.c and disastrOS_descriptor.c, and Sem
--     src/disastrOS_semaphore.c and disastrOS_semdescriptor.c.
--   Syscalls.antt: the handlers. SemOpen, SemClose, SemWait and SemPost are the semaphore calls
--     (src/disastrOS_semopen.c and so on), Schedule is src/disastrOS_schedule.c and
--     disastrOS_preempt.c, Birth fork and spawn, Death wait and exit, Sleep sleep and shutdown, Files
--     the resource calls, Trap the dispatch and the calls of the programs, and Start
--     `disastrOS_start` (src/disastrOS.c). A name such as `internal_semWait` is here
--     `internal_sem_wait`. The modules below a handler are about what it does: Refuses its errors,
--     Opens, Checks, Creates, Closes and Destroys, Wakes and Blocks its lists. Below Schedule, Switch and
--     Fair are about the turns of the ready processes, and Wake, Lists, Round, Wakes and Resumes about one
--     round, all rounds and the end of the loop over the timers. Below Death, Scan, Reaps
--     and Waits are about `internal_wait`, Reparent, Endless, Kept, Tells, Lingers, Releases, Answers
--     and Reports about the parts of `internal_exit`, and Rendezvous about a process that waits and
--     its child that exits. Below Trap, Dispatch is about the number of a call, and Calls and Handlers
--     about the arguments and the handler that each call reaches. Session puts the calls of one
--     process together, through the trap.
--   Printing.antt: `disastrOS_printStatus` (src/disastrOS.c) and the print functions of the objects, as
--     the texts and numbers that they write; Printing/Lists and Printing/Status say what they write of
--     lists that are in order.
--   ReadersWriters.antt: src/disastrOS_semaphore_test2.c, a program on top of the kernel. `writer_job`,
--     `reader_job`, `child_function` and `init_function` are its functions of these names, as jobs
--     that make one access to a shared variable or one call of the kernel at a time; `run` is any
--     sequence of their steps (ReadersWriters/Bounds), `alone` one job from its start to its end, and `slots_read` the
--     slots that it reads (Alone, Writes and Reads).
--   Tests.antt: the theorems at work on concrete lists, pools and kernels.
--
-- How C is read. A pointer is an address, NULL being 0; each struct type has its own map of memory,
-- and the `ListItem` that every linked struct starts with stands in the map `links` at the address
-- of the struct. A command returns a value and the new state, or `none`: a dereference of NULL, an
-- index outside an array, an assertion that fails, or a loop that does not end. The kernel's structs
-- stand in static buffers, so no other address faults. An `int` wraps round at 32 bits (`to_int`).
--
-- Fuel. The loops over lists take at most `walk_rounds`, 1025, rounds. The items of every list come
-- from a pool of at most 1024 blocks, so a loop over a list that is in order needs no more.
--
-- Not modelled: contexts, signals, the log file and the messages that handlers print on their way,
-- since these only call the C library; the process that runs next is the field `running`. The other test
-- programs (src/disastrOS_test.c and disastrOS_semaphore_test.c) are callers of the kernel and no part
-- of it. In the readers and writers the kernel answers anything, so that nothing about them rests on
-- whether a semaphore really stops a process. The sizes of the structs and the places of the buffers are
-- parameters of `disastrOS_start` (`Layout`).
pub mod Common
pub mod LinkedList
pub mod PoolAllocator
pub mod Kernel
pub mod Objects
pub mod Syscalls
pub mod Printing
pub mod ReadersWriters
pub mod Tests
