-- ===== src/Printing.antt =====
-- What the kernel prints of its state: `disastrOS_printStatus` (src/disastrOS.c) and the print functions
-- of src/disastrOS_pcb.c, disastrOS_timer.c, disastrOS_resource.c, disastrOS_descriptor.c,
-- disastrOS_semaphore.c and disastrOS_semdescriptor.c.
pub mod Lists
pub mod Status
pub use Prim.Native.String.{String}
use disastr_os_semaphores.Common.{
  ℕ, zero, suc, ℤ, Bool, true, false, Option, none, some, List, [], ◌∷◌, ◌++◌, ◌==◌, is_set,
  if◌then◌else◌,
}
use disastr_os_semaphores.Kernel.{
  Kernel, ListRef, owner_of, children, descriptors, sem_descriptors, resource_descriptors,
  semaphore_descriptors, waiting_descriptors, timer_list, resources_list, semaphores_list,
  ready_list, waiting_list, zombie_list, walk_rounds,
}

-- What one `printf` writes: its text, cut where a number is put in.
pub data Piece : Type 0 where
  text : String → Piece
  number : ℤ → Piece

-- Printing reads the state. It is a fault to read through NULL.
abbrev pub Print : Type 0
Print = Kernel → Option (List Piece)

abbrev pub both : Option (List Piece) → Option (List Piece) → Option (List Piece)
both none o = none
both (some ps) none = none
both (some ps) (some qs) = some (ps ++ qs)

infixr 5 ◌▸◌
abbrev pub ◌▸◌ : Print → Print → Print
(p ▸ q) k = both (p k) (q k)

abbrev pub say : String → Print
say s k = some (text s ∷ [])

abbrev pub nothing : Print
nothing k = some []

-- A number that is read through the pointer `p`.
abbrev pub show_at : (p : ℕ) → (Kernel → ℤ) → Print
show_at p f k = if p == 0 then none else some (number (f k) ∷ [])

-- `pcb->pid`
abbrev pub show_pid : ℕ → Print
show_pid p = show_at p λ k. (k.pcbs p).pid

-- A loop over a list: for each item, what it prints, then what follows where there is a next one or
-- none.
unfoldable pub print_items : (item : ℕ → Print) → (behind : Bool → Print) → (rounds aux : ℕ) → Print
print_items item behind zero aux k = none
print_items item behind (suc n) aux k =
    let rest = print_items item behind n (k.links aux).next k in
    if is_set aux
    then both (item aux k) (both (behind (is_set (k.links aux).next) k) rest)
    else some []

unfoldable pub print_list :
    (opening closing : String) → (item : ℕ → Print) → (behind : Bool → Print) → ListRef → Print
unfolding print_items walk_rounds
print_list opening closing item behind r k =
    if owner_of r == 0
    then none
    else (say opening ▸ print_items item behind walk_rounds (k.heads r).first ▸ say closing) k

-- `if (next) printf(", ")`, and the end of a line.
abbrev pub comma : Bool → Print
comma true = say ", "
comma false = nothing

abbrev pub line_end : Bool → Print
line_end true = say "," ▸ say "\n"
line_end false = say "\n"

-- What the loops print for each item.
abbrev pub pcb_ptr_entry : ℕ → Print
pcb_ptr_entry a k = show_pid (k.pcb_ptrs a).pcb k

abbrev pub timer_entry : ℕ → Print
timer_entry a k =
    (say "(pid:"
        ▸ show_pid (k.timers a).pcb
        ▸ say ", t:"
        ▸ show_at a (λ k. (k.timers a).awakening_time)
        ▸ say ")")
      k

abbrev pub descriptor_ptr_entry : ℕ → Print
descriptor_ptr_entry a k =
    let d = (k.desc_ptrs a).descriptor in
    if d == 0
    then none
    else (say "(pid: "
          ▸ show_pid (k.descs d).pcb
          ▸ say ", fd: "
          ▸ show_at d (λ k. (k.descs d).fd)
          ▸ say ", rid:"
          ▸ show_at (k.descs d).resource (λ k. (k.resources (k.descs d).resource).id)
          ▸ say ")")
        k

abbrev pub sem_descriptor_ptr_entry : ℕ → Print
sem_descriptor_ptr_entry a k =
    let d = (k.sem_desc_ptrs a).descriptor in
    if d == 0
    then none
    else (say "(pid: "
          ▸ show_pid (k.sem_descs d).pcb
          ▸ say ", fd: "
          ▸ show_at d (λ k. (k.sem_descs d).fd)
          ▸ say ", rid:"
          ▸ show_at (k.sem_descs d).semaphore (λ k. (k.semaphores (k.sem_descs d).semaphore).id)
          ▸ say ")")
        k

abbrev pub descriptor_entry : ℕ → Print
descriptor_entry d k =
    (say "(fd: "
        ▸ show_at d (λ k. (k.descs d).fd)
        ▸ say ", rid:"
        ▸ show_at (k.descs d).resource (λ k. (k.resources (k.descs d).resource).id)
        ▸ say ")")
      k

abbrev pub sem_descriptor_entry : ℕ → Print
sem_descriptor_entry d k =
    (say "(fd: "
        ▸ show_at d (λ k. (k.sem_descs d).fd)
        ▸ say ", rid:"
        ▸ show_at (k.sem_descs d).semaphore (λ k. (k.semaphores (k.sem_descs d).semaphore).id)
        ▸ say ")")
      k

unfoldable pub descriptor_list_print : ListRef → Print
unfolding print_list
descriptor_list_print = print_list "[" "]" descriptor_entry comma

unfoldable pub sem_descriptor_list_print : ListRef → Print
unfolding print_list
sem_descriptor_list_print = print_list "[" "]" sem_descriptor_entry comma

unfoldable pub pcb_ptr_list_print : ListRef → Print
unfolding print_list
pcb_ptr_list_print = print_list "(" ")" pcb_ptr_entry comma

unfoldable pub pcb_print : ℕ → Print
unfolding pcb_ptr_list_print
pcb_print p =
    say "[pid: " ▸ show_pid p ▸ say ", child: " ▸ pcb_ptr_list_print (children p) ▸ say "]"

unfoldable pub pcb_list_print : ListRef → Print
unfolding print_list pcb_print
pcb_list_print = print_list "{\n" "}\n" (λ p. say "\t" ▸ pcb_print p) line_end

unfoldable pub timer_list_print : ListRef → Print
unfolding print_list
timer_list_print = print_list "[" "]" timer_entry comma

unfoldable pub descriptor_ptr_list_print : ListRef → Print
unfolding print_list
descriptor_ptr_list_print = print_list "[" "]" descriptor_ptr_entry comma

unfoldable pub sem_descriptor_ptr_list_print : ListRef → Print
unfolding print_list
sem_descriptor_ptr_list_print = print_list "[" "]" sem_descriptor_ptr_entry comma

unfoldable pub resource_print : ℕ → Print
unfolding descriptor_ptr_list_print
resource_print r =
    say "id: "
    ▸ show_at r (λ k. (k.resources r).id)
    ▸ say ", type:"
    ▸ show_at r (λ k. (k.resources r).type)
    ▸ say ", pids:"
    ▸ descriptor_ptr_list_print (resource_descriptors r)

unfoldable pub resource_list_print : ListRef → Print
unfolding print_list resource_print
resource_list_print = print_list "{\n" "}\n" (λ r. say "\t" ▸ resource_print r) line_end

unfoldable pub semaphore_print : ℕ → Print
unfolding sem_descriptor_ptr_list_print
semaphore_print s =
    say "id: "
    ▸ show_at s (λ k. (k.semaphores s).id)
    ▸ say ", count:"
    ▸ show_at s (λ k. (k.semaphores s).count)
    ▸ say ", pids:"
    ▸ sem_descriptor_ptr_list_print (semaphore_descriptors s)
    ▸ say "waiting: "
    ▸ sem_descriptor_ptr_list_print (waiting_descriptors s)

unfoldable pub semaphore_list_print : ListRef → Print
unfolding print_list semaphore_print
semaphore_list_print = print_list "{\n" "}\n" (λ s. say "\t" ▸ semaphore_print s) line_end

unfoldable pub disastr_os_print_status : Print
unfolding pcb_print timer_list_print resource_list_print semaphore_list_print pcb_list_print
disastr_os_print_status k =
    (say "****************** DisastrOS ******************\n"
        ▸ say "Running: "
        ▸ (if is_set k.running then pcb_print k.running else nothing)
        ▸ say "\n"
        ▸ say "Timers: "
        ▸ timer_list_print timer_list
        ▸ say "\nResources: "
        ▸ resource_list_print resources_list
        ▸ say "\nSemaphores: "
        ▸ semaphore_list_print semaphores_list
        ▸ say "\nReady: "
        ▸ pcb_list_print ready_list
        ▸ say "\nWaiting: "
        ▸ pcb_list_print waiting_list
        ▸ say "\nZombie: "
        ▸ pcb_list_print zombie_list
        ▸ say "\n***********************************************\n\n")
      k
