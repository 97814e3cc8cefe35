-- ===== src/ReadersWriters.antt =====
-- The readers and writers of src/disastrOS_semaphore_test2.c. A job is what a process does, one
-- access to a shared variable or one call of the kernel at a time, since a timer signal may stop it
-- between any two of them. What the kernel answers is not fixed.
pub mod Bounds
pub mod Alone
pub mod Writes
pub mod Reads
use disastr_os_semaphores.Common.{
  ℕ, zero, suc, ℤ, pos, negsuc, ◌+◌, ◌%◌, Bool, true, false, not, ◌&&◌, Option, none, some, List,
  [], ◌∷◌, ◌==◌, ◌==ℤ◌, ltb, ltb_ℤ, int_add, int_sub, if◌then◌else◌,
}
use disastr_os_semaphores.Kernel.{update}

abbrev pub readers_num : ℕ
readers_num = 5

abbrev pub writers_num : ℕ
writers_num = 5

abbrev pub writers_sem_id : ℤ
writers_sem_id = pos 0

abbrev pub mutex_sem_id : ℤ
mutex_sem_id = pos 2

abbrev pub buffer_size : ℕ
buffer_size = 128

abbrev pub reader_child : ℤ
reader_child = pos 0

abbrev pub writer_child : ℤ
writer_child = pos 1

pub record ChildArgs : Type 0 where
  pub sem_id : ℤ
  pub number : ℤ

-- The global variables, but for `transactions`, and `deposit`, which is not used.
pub data Var : Type 0 where
  read_index write_index write_sem mutex_sem readcount : Var

-- The calls of the kernel. Behind the flags of an opening may stand the count.
pub data Call : Type 0 where
  print_status : Call
  open_semaphore : (id : ℤ) → (flags : ℤ) → (count : List ℤ) → Call
  wait_semaphore : (fd : ℤ) → Call
  post_semaphore : (fd : ℤ) → Call
  close_semaphore : (fd : ℤ) → Call
  spawn : ChildArgs → Call
  wait : (pid : ℤ) → Call
  get_pid : Call

pub data Job : Type 0 where
  exit : (value : ℤ) → Job
  shutdown : Job
  call : Call → (ℤ → Job) → Job
  load : Var → (ℤ → Job) → Job
  store : Var → ℤ → Job → Job
  load_slot : (index : ℤ) → (ℤ → Job) → Job
  store_slot : (index : ℤ) → ℤ → Job → Job

-- A part of a job, which a rest follows.
abbrev pub Part : Type 0 → Type 0
Part A = (A → Job) → Job

infixl 1 ◌>>=◌
abbrev ◌>>=◌ : {A B : Type 0} → Part A → (A → Part B) → Part B
(m >>= f) next = m λ a. f a next

infixl 1 ◌>>◌
abbrev ◌>>◌ : {A B : Type 0} → Part A → Part B → Part B
m >> n = m >>= λ _. n

abbrev done : Part (Unit {0})
done next = next tt

abbrev ask : Call → Part ℤ
ask c next = call c next

abbrev get : Var → Part ℤ
get x next = load x next

abbrev set : Var → ℤ → Part (Unit {0})
set x v next = store x v (next tt)

abbrev get_slot : ℤ → Part ℤ
get_slot i next = load_slot i next

abbrev set_slot : ℤ → ℤ → Part (Unit {0})
set_slot i v next = store_slot i v (next tt)

-- `ERROR_HANDLER`
abbrev pub error_handler : (ret : ℤ) → Part (Unit {0})
error_handler ret next = if ltb_ℤ ret (pos 0) then exit (pos 1) else next tt

-- `(i + 1) % BUFFER_SIZE`, where the remainder has the sign of `i + 1`.
unfoldable pub c_mod : ℤ → ℤ
c_mod (pos n) = pos (n % 128)
c_mod (negsuc n) = int_sub (pos 0) (pos (suc n % 128))

abbrev pub next_index : ℤ → ℤ
next_index i = c_mod (int_add i (pos 1))

-- `while (i < 100) { ...; i++; }`, with `left` rounds left.
unfoldable pub rounds : (left : ℕ) → Part (Unit {0}) → Part (Unit {0})
rounds zero round next = next tt
rounds (suc left) round next = round λ _. rounds left round next

abbrev pub writer_round : (write_fd writer_no : ℤ) → Part (Unit {0})
writer_round write_fd writer_no = do
  ret ← ask (wait_semaphore write_fd)
  error_handler ret
  i ← get write_index
  set_slot i writer_no
  i ← get write_index
  set write_index (next_index i)
  ret ← ask (post_semaphore write_fd)
  error_handler ret

unfoldable pub writer_job : (writer_no : ℤ) → Part (Unit {0})
writer_job writer_no = do
  write_fd ← ask (open_semaphore writers_sem_id (pos 0) [])
  error_handler write_fd
  rounds 100 (writer_round write_fd writer_no)
  ask (close_semaphore write_fd)
  done

-- The first reader locks the writers out.
abbrev pub reader_entry : (write_fd mutex_fd : ℤ) → Part (Unit {0})
reader_entry write_fd mutex_fd = do
  ret ← ask (wait_semaphore mutex_fd)
  error_handler ret
  n ← get readcount
  set readcount (int_add n (pos 1))
  n ← get readcount
  if n ==ℤ pos 1 then (do ret ← ask (wait_semaphore write_fd); error_handler ret) else done
  ret ← ask (post_semaphore mutex_fd)
  error_handler ret

-- The item is read, and the last reader lets the writers in.
abbrev pub reader_leave : (write_fd : ℤ) → Part (Unit {0})
reader_leave write_fd = do
  i ← get read_index
  read_transaction ← get_slot i
  i ← get read_index
  set read_index (next_index i)
  n ← get readcount
  set readcount (int_sub n (pos 1))
  n ← get readcount
  if n ==ℤ pos 0 then (do ret ← ask (post_semaphore write_fd); error_handler ret) else done

abbrev pub reader_round : (write_fd mutex_fd : ℤ) → Part (Unit {0})
reader_round write_fd mutex_fd = do reader_entry write_fd mutex_fd; reader_leave write_fd

unfoldable pub reader_job : Part (Unit {0})
reader_job = do
  write_fd ← ask (open_semaphore writers_sem_id (pos 0) [])
  error_handler write_fd
  mutex_fd ← ask (open_semaphore mutex_sem_id (pos 0) [])
  error_handler mutex_fd
  rounds 100 (reader_round write_fd mutex_fd)
  ask (close_semaphore write_fd)
  ask (close_semaphore mutex_fd)
  done

-- The number of the reader only goes to its messages.
unfoldable pub child_function : ChildArgs → Job
child_function args =
    (do
      ask print_status
      if args.sem_id ==ℤ reader_child
          then reader_job
          else if args.sem_id ==ℤ writer_child
          then writer_job args.number
          else done
      ask get_pid)
      λ pid. exit (int_add pid (pos 1))

-- The children with the numbers from `i` on, of which `left` are left.
unfoldable pub spawn_children : (sem_id : ℤ) → (i left : ℕ) → Part (Unit {0})
spawn_children sem_id i zero = done
spawn_children sem_id i (suc left) = do
  ask (spawn (record { sem_id = sem_id; number = pos i }))
  spawn_children sem_id (suc i) left

-- The children that are alive are waited for, until an error.
unfoldable pub await_children : (alive_children : ℕ) → Part (Unit {0})
await_children zero next = next tt
await_children (suc n) next =
    call (wait (pos 0)) λ pid. if ltb_ℤ pid (pos 0) then next tt else await_children n next

unfoldable pub init_function : Job
init_function =
    (do
      ask print_status
      mutex ← ask (open_semaphore mutex_sem_id (pos 5) (pos 128 ∷ []))
      set mutex_sem mutex
      mutex ← get mutex_sem
      error_handler mutex
      write ← ask (open_semaphore writers_sem_id (pos 5) (pos 0 ∷ []))
      set write_sem write
      write ← get write_sem
      error_handler write
      ask print_status
      spawn_children writer_child 0 writers_num
      spawn_children reader_child 0 readers_num
      ask print_status
      await_children 10
      mutex ← get mutex_sem
      ask (close_semaphore mutex)
      write ← get write_sem
      ask (close_semaphore write)
      ask print_status)
      λ _. shutdown

-- The shared variables and the slots of `transactions`.
pub record Shared : Type 0 where
  pub vars : Var → ℤ
  pub slots : ℕ → ℤ

abbrev pub var_number : Var → ℕ
var_number read_index = 0
var_number write_index = 1
var_number write_sem = 2
var_number mutex_sem = 3
var_number readcount = 4

abbrev pub put_var : Shared → Var → ℤ → Shared
put_var m x v = record m { vars = λ y. if var_number y == var_number x then v else m.vars y }

abbrev pub put_slot : Shared → ℕ → ℤ → Shared
put_slot m i v = record m { slots = update m.slots i v }

-- An index inside the buffer.
abbrev pub in_buffer : ℤ → Bool
in_buffer (pos n) = ltb n 128
in_buffer (negsuc n) = false

abbrev pub slot_of : ℤ → ℕ
slot_of (pos n) = n
slot_of (negsuc n) = 0

-- The processes, `count` of them so far, and what they share.
pub record Running : Type 0 where
  pub shared : Shared
  pub jobs : ℕ → Job
  pub count : ℕ

-- A call that succeeds may make a process.
abbrev pub called : Call → (answer : ℤ) → Running → Running
called (spawn args) answer s =
    if ltb_ℤ answer (pos 0)
    then s
    else record s { jobs = update s.jobs s.count (child_function args); count = suc s.count }
called _ answer s = s

abbrev pub goes_on : Running → (p : ℕ) → Job → Running
goes_on s p j = record s { jobs = update s.jobs p j }

-- The next step of the process `p`, whose job is `j`; the kernel answers a call with `answer`. An
-- access outside the buffer faults.
unfoldable pub advance : (p : ℕ) (answer : ℤ) → Running → Job → Option Running
advance p answer s (exit v) = some s
advance p answer s shutdown = some s
advance p answer s (call c f) = some (called c answer (goes_on s p (f answer)))
advance p answer s (load x f) = some (goes_on s p (f (s.shared.vars x)))
advance p answer s (store x v j) = some (record (goes_on s p j) { shared = put_var s.shared x v })
advance p answer s (load_slot i f) =
    if in_buffer i then some (goes_on s p (f (s.shared.slots (slot_of i)))) else none
advance p answer s (store_slot i v j) =
    if in_buffer i
    then some (record (goes_on s p j) { shared = put_slot s.shared (slot_of i) v })
    else none

abbrev after : Option Running → (Running → Option Running) → Option Running
after none f = none
after (some s) f = f s

-- Any sequence of steps: which process, and what the kernel answers.
unfoldable pub run : List (ℕ × ℤ) → Running → Option Running
run [] s = some s
run ((p, answer) ∷ es) s = after (advance p answer s (s.jobs p)) (run es)

-- What `main` starts: the variables are zero, and `init_function` is the only process.
abbrev pub started : Running
started = record {
  shared = record { vars = λ x. pos 0; slots = λ i. pos 0 };
  jobs = λ p. if p == 0 then init_function else exit (pos 0);
  count = 1;
}
