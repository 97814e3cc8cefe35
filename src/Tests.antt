-- ===== src/Tests.antt =====
-- The theorems at work on small lists, pools and kernels.
mod LinkedList
mod PoolAllocator
mod Kernel
mod Family
mod Death
mod Semaphores
mod Schedule
mod Trap
mod Timer
mod SemOpen
mod Wake
mod Open
mod Start
mod Close
mod Printing
mod ReadersWriters
mod Files
