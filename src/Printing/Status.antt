-- ===== src/Printing/Status.antt =====
-- `disastrOS_printStatus` (src/disastrOS.c) and the state as sequences.
use disastr_os_semaphores.Common.{ℕ, ◌≡◌, ◌≢◌, true, List, ◌++◌, has, is_set, if◌then◌else◌}
use disastr_os_semaphores.Kernel.{
  Kernel, ListRef, children, resource_descriptors, semaphore_descriptors, waiting_descriptors,
  timer_list, resources_list, semaphores_list, ready_list, waiting_list, zombie_list,
}
use disastr_os_semaphores.Printing.{
  Print, ◌▸◌, say, nothing, show_at, show_pid, comma, line_end, pcb_ptr_entry, timer_entry,
  descriptor_ptr_entry, sem_descriptor_ptr_entry,
}
use disastr_os_semaphores.Printing.Lists.{list_of, IsShort}

-- The texts around the seven parts of the status.
abbrev pub frame : (running timers resources semaphores ready waiting zombies : Print) → Print
frame running timers resources semaphores ready waiting zombies =
    say "****************** DisastrOS ******************\n"
    ▸ say "Running: "
    ▸ running
    ▸ say "\n"
    ▸ say "Timers: "
    ▸ timers
    ▸ say "\nResources: "
    ▸ resources
    ▸ say "\nSemaphores: "
    ▸ semaphores
    ▸ say "\nReady: "
    ▸ ready
    ▸ say "\nWaiting: "
    ▸ waiting
    ▸ say "\nZombie: "
    ▸ zombies
    ▸ say "\n***********************************************\n\n"

-- What is printed of the state whose lists are the sequences `view`.
module _ (view : ListRef → List ℕ) where
  abbrev pub pcb_of : ℕ → Print
  pcb_of p =
      say "[pid: "
      ▸ show_pid p
      ▸ say ", child: "
      ▸ list_of "(" ")" pcb_ptr_entry comma (view (children p))
      ▸ say "]"

  abbrev pub resource_of : ℕ → Print
  resource_of r =
      say "id: "
      ▸ show_at r (λ k. (k.resources r).id)
      ▸ say ", type:"
      ▸ show_at r (λ k. (k.resources r).type)
      ▸ say ", pids:"
      ▸ list_of "[" "]" descriptor_ptr_entry comma (view (resource_descriptors r))

  abbrev pub semaphore_of : ℕ → Print
  semaphore_of s =
      say "id: "
      ▸ show_at s (λ k. (k.semaphores s).id)
      ▸ say ", count:"
      ▸ show_at s (λ k. (k.semaphores s).count)
      ▸ say ", pids:"
      ▸ list_of "[" "]" sem_descriptor_ptr_entry comma (view (semaphore_descriptors s))
      ▸ say "waiting: "
      ▸ list_of "[" "]" sem_descriptor_ptr_entry comma (view (waiting_descriptors s))

  abbrev pub processes_of : ListRef → Print
  processes_of r = list_of "{\n" "}\n" (λ p. say "\t" ▸ pcb_of p) line_end (view r)

  unfoldable pub status_of : Print
  status_of k =
      frame (if is_set k.running then pcb_of k.running else nothing)
        (list_of "[" "]" timer_entry comma (view timer_list))
        (list_of "{\n" "}\n" (λ r. say "\t" ▸ resource_of r) line_end (view resources_list))
        (list_of "{\n" "}\n" (λ s. say "\t" ▸ semaphore_of s) line_end (view semaphores_list))
        (processes_of ready_list) (processes_of waiting_list) (processes_of zombie_list) k

-- The six global lists, and those of the structs that are in them, are the sequences `view`, each of at
-- most 1024 items.
pub record IsViewed (k : Kernel) (view : ListRef → List ℕ) : Type 0 where
  pub timers : IsShort k timer_list (view timer_list)
  pub resources : IsShort k resources_list (view resources_list)
  pub semaphores : IsShort k semaphores_list (view semaphores_list)
  pub ready : IsShort k ready_list (view ready_list)
  pub waiting : IsShort k waiting_list (view waiting_list)
  pub zombies : IsShort k zombie_list (view zombie_list)
  pub own_children : k.running ≢ 0 → IsShort k (children k.running) (view (children k.running))
  pub offspring :
      (p : ℕ)
      → has p (view ready_list ++ (view waiting_list ++ view zombie_list)) ≡ true
      → IsShort k (children p) (view (children p))
  pub opened :
      (r : ℕ)
      → has r (view resources_list) ≡ true
      → IsShort k (resource_descriptors r) (view (resource_descriptors r))
  pub entries :
      (s : ℕ)
      → has s (view semaphores_list) ≡ true
      → IsShort k (semaphore_descriptors s) (view (semaphore_descriptors s))
        × IsShort k (waiting_descriptors s) (view (waiting_descriptors s))
