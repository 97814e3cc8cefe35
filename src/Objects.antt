-- ===== src/Objects.antt =====
-- The kernel's objects: how each struct is allocated, freed and found in a list
-- (src/disastrOS_pcb.c, disastrOS_timer.c, disastrOS_resource.c, disastrOS_descriptor.c,
-- disastrOS_semaphore.c and disastrOS_semdescriptor.c).
pub mod Process
pub mod Timer
pub mod File
pub mod Sem
