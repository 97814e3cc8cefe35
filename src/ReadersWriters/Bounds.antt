-- ===== src/ReadersWriters/Bounds.antt =====
-- The buffer of src/disastrOS_semaphore_test2.c under any sequence of steps.
use disastr_os_semaphores.Common.{
  ℕ, zero, suc, ℤ, pos, negsuc, ◌<◌, ◌≡◌, ◌∙◌, refl, ap, Bool, Bool-cases, inl, inr, true, false,
  some, List, [], ◌∷◌, arith, ltb, ltb_ℤ, ◌==◌, ◌==ℤ◌, int_add_pos, if◌then◌else◌,
}
use disastr_os_semaphores.Kernel.{update}
use disastr_os_semaphores.ReadersWriters.{
  Var, Call, Job, Part, ChildArgs, Shared, Running, in_buffer, slot_of, c_mod, next_index,
  error_handler, rounds, writer_round, reader_round, reader_entry, reader_leave, writer_job,
  reader_job, child_function, spawn_children, await_children, init_function, var_number, put_var,
  put_slot, called, goes_on, advance, run, started, writer_child, reader_child,
}

-- What a variable may hold.
abbrev pub fits : Var → ℤ → Bool
fits x v = if ltb (var_number x) 2 then in_buffer v else true

-- Every access of the job is inside the buffer, if the variables hold what they may.
unfoldable pub IsSafe : Job → Type 0
IsSafe (Job.exit v) = Unit
IsSafe Job.shutdown = Unit
IsSafe (Job.call c f) = (v : ℤ) → IsSafe (f v)
IsSafe (Job.load x f) = (v : ℤ) → fits x v ≡ true → IsSafe (f v)
IsSafe (Job.store x v j) = (fits x v ≡ true) × IsSafe j
IsSafe (Job.load_slot i f) = (in_buffer i ≡ true) × ((v : ℤ) → IsSafe (f v))
IsSafe (Job.store_slot i v j) = (in_buffer i ≡ true) × IsSafe j

-- A part is safe if what follows is.
abbrev IsSafePart : {A : Type 0} → Part A → Type 0
IsSafePart {A} m = (next : A → Job) → ((a : A) → IsSafe (next a)) → IsSafe (m next)

next_index-in_buffer : (v : ℤ) → in_buffer v ≡ true → in_buffer (next_index v) ≡ true
unfolding c_mod
next_index-in_buffer (pos n) i =
    let small : n < 128 = ground (arith, i) in rw (int_add_pos n (omega arith)) (ground arith)
next_index-in_buffer (negsuc n) i = cc

error_handler-IsSafe :
    (ret : ℤ) (j : Job) → IsSafe j → IsSafe (if ltb_ℤ ret (pos 0) then Job.exit (pos 1) else j)
unfolding IsSafe
error_handler-IsSafe ret j safe = elim (Bool-cases (ltb_ℤ ret (pos 0))) [
  | inl e ↦ rw e tt
  | inr e ↦ rw e safe
]

rounds-IsSafe : (n : ℕ) (round : Part (Unit {0})) → IsSafePart round → IsSafePart (rounds n round)
unfolding rounds
rounds-IsSafe zero round safe next after = after tt
rounds-IsSafe (suc n) round safe next after =
    safe (λ _. rounds n round next) (λ _. rounds-IsSafe n round safe next after)

either-IsSafe :
    {A : Type 0} (b : Bool) (m n : Part A) (next : A → Job)
    → IsSafe (m next)
    → IsSafe (n next)
    → IsSafe ((if b then m else n) next)
either-IsSafe true m n next sm sn = sm
either-IsSafe false m n next sm sn = sn

writer_round-IsSafe : (fd number : ℤ) → IsSafePart (writer_round fd number)
unfolding IsSafe
writer_round-IsSafe fd number next safe ret = error_handler-IsSafe ret _ (λ i fi.
    (fi, λ j fj. (next_index-in_buffer j fj, λ ret'. error_handler-IsSafe ret' _ (safe tt))))

writer_job-IsSafe : (number : ℤ) → IsSafePart (writer_job number)
unfolding IsSafe writer_job
writer_job-IsSafe number next safe fd = error_handler-IsSafe fd _ (
    rounds-IsSafe 100 (writer_round fd number) (writer_round-IsSafe fd number) _ (λ _ ret. safe tt))

reader_entry-IsSafe : (write_fd mutex_fd : ℤ) → IsSafePart (reader_entry write_fd mutex_fd)
unfolding IsSafe
reader_entry-IsSafe write_fd mutex_fd next safe ret =
    let rest : (ret' : ℤ) → IsSafe (error_handler ret' next) =
      λ ret'. error_handler-IsSafe ret' (next tt) (safe tt) in
    error_handler-IsSafe ret _ (λ n _.
      (refl, λ n' _. either-IsSafe (n' ==ℤ pos 1) _ _ _ (λ r. error_handler-IsSafe r _ rest) rest))

reader_leave-IsSafe : (write_fd : ℤ) → IsSafePart (reader_leave write_fd)
unfolding IsSafe
reader_leave-IsSafe write_fd next safe i fi = (
  fi,
  λ _ j fj. (
    next_index-in_buffer j fj,
    λ n _. (
      refl,
      λ n' _.
          either-IsSafe (n' ==ℤ pos 0) _ _ _ (λ r. error_handler-IsSafe r _ (safe tt)) (safe tt),
    ),
  ),
)

reader_job-IsSafe : IsSafePart reader_job
unfolding IsSafe reader_job
reader_job-IsSafe next safe fd = error_handler-IsSafe fd _ (λ fd'. error_handler-IsSafe fd' _ (
    rounds-IsSafe 100 (reader_round fd fd')
      (λ next' safe'.
        reader_entry-IsSafe fd fd' (λ _. reader_leave fd next')
          (λ _. reader_leave-IsSafe fd next' safe'))
      _ (λ _ r r'. safe tt)))

pub child_function-IsSafe : (args : ChildArgs) → IsSafe (child_function args)
unfolding IsSafe child_function
child_function-IsSafe args r =
    either-IsSafe (args.sem_id ==ℤ reader_child) _ _ _ (reader_job-IsSafe _ (λ _ pid. tt)) (
      either-IsSafe (args.sem_id ==ℤ writer_child) _ _ _
        (writer_job-IsSafe args.number _ (λ _ pid. tt)) (λ pid. tt))

spawn_children-IsSafe : (id : ℤ) (i n : ℕ) → IsSafePart (spawn_children id i n)
unfolding IsSafe spawn_children
spawn_children-IsSafe id i zero next safe = safe tt
spawn_children-IsSafe id i (suc n) next safe = λ r. spawn_children-IsSafe id (suc i) n next safe

await_children-IsSafe : (n : ℕ) → IsSafePart (await_children n)
unfolding IsSafe await_children
await_children-IsSafe zero next safe = safe tt
await_children-IsSafe (suc n) next safe = λ pid. elim (Bool-cases (ltb_ℤ pid (pos 0))) [
  | inl e ↦ rw e (safe tt)
  | inr e ↦ rw e (await_children-IsSafe n next safe)
]

init_function-IsSafe : IsSafe init_function
unfolding IsSafe init_function
init_function-IsSafe r mutex = (
  refl,
  λ m _. error_handler-IsSafe m _ (λ write. (
    refl,
    λ w _. error_handler-IsSafe w _ (λ r'. spawn_children-IsSafe writer_child 0 5 _ (λ _.
        spawn_children-IsSafe reader_child 0 5 _
          (λ _ r'. await_children-IsSafe 10 _ (λ _ m' _ r₁ w' _ r₂ r₃. tt)))),
  )),
)

-- Every job is safe, and the variables hold what they may.
record AreSafe (s : Running) : Type 0 where
  jobs : (p : ℕ) → IsSafe (s.jobs p)
  vars : (x : Var) → fits x (s.shared.vars x) ≡ true

update-AreSafe :
    (jobs : ℕ → Job) (p : ℕ) (j : Job)
    → ((q : ℕ) → IsSafe (jobs q))
    → IsSafe j
    → (q : ℕ) → IsSafe (update jobs p j q)
update-AreSafe jobs p j all safe q = elim (Bool-cases (q == p)) [
  | inl e ↦ rw e safe
  | inr e ↦ rw e (all q)
]

called-AreSafe : (c : Call) (v : ℤ) (s : Running) → AreSafe s → AreSafe (called c v s)
called-AreSafe (Call.spawn args) v s a = elim (Bool-cases (ltb_ℤ v (pos 0))) [
  | inl e ↦ rw e a
  | inr e ↦
      let jobs =
        update-AreSafe s.jobs s.count (child_function args) a.jobs (child_function-IsSafe args) in
      rw e (record { jobs = jobs; vars = a.vars })
]
called-AreSafe Call.print_status v s a = a
called-AreSafe (Call.open_semaphore id flags count) v s a = a
called-AreSafe (Call.wait_semaphore fd) v s a = a
called-AreSafe (Call.post_semaphore fd) v s a = a
called-AreSafe (Call.close_semaphore fd) v s a = a
called-AreSafe (Call.wait pid) v s a = a
called-AreSafe Call.get_pid v s a = a

pub put_var-fits :
    (m : Shared) (x : Var) (v : ℤ)
    → ((y : Var) → fits y (m.vars y) ≡ true)
    → fits x v ≡ true
    → (y : Var) → fits y ((put_var m x v).vars y) ≡ true
put_var-fits m x v all f y = elim (Bool-cases (var_number y == var_number x)) [
  | inl e ↦
      let same : var_number y ≡ var_number x = ground (arith, e) in
      rw e (ap (λ n. if ltb n 2 then in_buffer v else true) same ∙ f)
  | inr e ↦ rw e (all y)
]

advance-AreSafe :
    (p : ℕ) (v : ℤ) (s : Running) (j : Job)
    → AreSafe s
    → IsSafe j
    → (s' : Running) × (advance p v s j ≡ some s') × AreSafe s'
unfolding advance IsSafe
advance-AreSafe p v s (Job.exit x) a safe = (s, refl, a)
advance-AreSafe p v s Job.shutdown a safe = (s, refl, a)
advance-AreSafe p v s (Job.call c f) a safe = (
  _,
  refl,
  called-AreSafe c v (goes_on s p (f v))
      (record { jobs = update-AreSafe s.jobs p (f v) a.jobs (safe v); vars = a.vars }),
)
advance-AreSafe p v s (Job.load x f) a safe =
    let j = f (s.shared.vars x) in
    (
      _,
      refl,
      record {
        jobs = update-AreSafe s.jobs p j a.jobs (safe (s.shared.vars x) (a.vars x));
        vars = a.vars;
      },
    )
advance-AreSafe p v s (Job.store x u j) a safe = (
  _,
  refl,
  record {
    jobs = update-AreSafe s.jobs p j a.jobs safe.1;
    vars = put_var-fits s.shared x u a.vars safe.0;
  },
)
advance-AreSafe p v s (Job.load_slot i f) a safe =
    let j = f (s.shared.slots (slot_of i)) in
    (
      goes_on s p j,
      rw safe.0 refl,
      record {
        jobs = update-AreSafe s.jobs p j a.jobs (safe.1 (s.shared.slots (slot_of i)));
        vars = a.vars;
      },
    )
advance-AreSafe p v s (Job.store_slot i u j) a safe = (
  record (goes_on s p j) { shared = put_slot s.shared (slot_of i) u },
  rw safe.0 refl,
  record { jobs = update-AreSafe s.jobs p j a.jobs safe.1; vars = a.vars },
)

run-AreSafe :
    (es : List (ℕ × ℤ)) (s : Running)
    → AreSafe s
    → (s' : Running) × (run es s ≡ some s') × AreSafe s'
unfolding run
run-AreSafe [] s a = (s, refl, a)
run-AreSafe ((p, v) ∷ es) s a =
    let (s₁, e₁, a₁) = advance-AreSafe p v s (s.jobs p) a (a.jobs p) in
    let (s₂, e₂, a₂) = run-AreSafe es s₁ a₁ in (s₂, rw e₁ e₂, a₂)

started-AreSafe : AreSafe started
unfolding IsSafe
started-AreSafe = record {
  jobs = λ p. elim (Bool-cases (p == 0)) [ inl e ↦ rw e init_function-IsSafe | inr e ↦ rw e tt ];
  vars = λ x. elim (Bool-cases (ltb (var_number x) 2)) [ inl e ↦ rw e refl | inr e ↦ rw e refl ];
}

-- Whatever the order of the steps of the processes, and whatever the kernel answers them, no reader
-- or writer accesses `transactions` outside its 128 slots, and both indices stay inside.
pub run-in_buffer :
    (es : List (ℕ × ℤ))
    → (s : Running) × (run es started ≡ some s)
      × (in_buffer (s.shared.vars Var.read_index) ≡ true)
      × (in_buffer (s.shared.vars Var.write_index) ≡ true)
run-in_buffer es =
    let (s, e, a) = run-AreSafe es started started-AreSafe in
    (s, e, a.vars Var.read_index, a.vars Var.write_index)
