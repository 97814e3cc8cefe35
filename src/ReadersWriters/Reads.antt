-- ===== src/ReadersWriters/Reads.antt =====
-- A reader of src/disastrOS_semaphore_test2.c while no other process runs.
use disastr_os_semaphores.Common.{
  ℕ, zero, suc, ℤ, pos, ◌+◌, ◌%◌, ◌<◌, ◌≡◌, ◌∙◌, refl, ap, false, List, [], ◌∷◌, ◌++◌, arith, ltb_ℤ,
  int_add, int_sub, int_add_pos, int_sub-suc,
}
use mathlib.Core.List.{append-nil}
use disastr_os_semaphores.ReadersWriters.{
  Var, Call, Job, Shared, rounds, reader_round, reader_job, child_function, put_var, reader_child,
  writers_sem_id, mutex_sem_id,
}
use disastr_os_semaphores.ReadersWriters.Alone.{
  with_calls, alone, slots_read, next_slots, times, next_index-pos, round_shift,
}

-- The shared variables after one item has been read, from the slot `r`.
abbrev visited : (r : ℕ) → Shared → Shared
visited r m =
    put_var (put_var (put_var m Var.readcount (pos 1)) Var.read_index (pos ((r + 1) % 128)))
      Var.readcount (pos 0)

unfoldable visits : (n r : ℕ) → Shared → Shared
visits zero r m = m
visits (suc n) r m = visits n ((r + 1) % 128) (visited r m)

one_more : int_add (pos 0) (pos 1) ≡ pos 1
one_more = int_add_pos 0 (omega arith)

one_less : int_sub (pos 1) (pos 1) ≡ pos 0
one_less = int_sub-suc 0 (omega arith)

module _ (answer : Call → ℤ) (ok : (c : Call) → ltb_ℤ (answer c) (pos 0) ≡ false)
    (write_fd mutex_fd : ℤ) where
  abbrev round_calls : List Call
  round_calls =
      Call.wait_semaphore mutex_fd
      ∷ Call.wait_semaphore write_fd
      ∷ Call.post_semaphore mutex_fd
      ∷ Call.post_semaphore write_fd
      ∷ []

  reader_round-visited :
      (r : ℕ) (m : Shared) (next : Unit {0} → Job)
      → r < 128
      → m.vars Var.read_index ≡ pos r
      → m.vars Var.readcount ≡ pos 0
      → alone answer (reader_round write_fd mutex_fd next) m
        ≡ with_calls round_calls (alone answer (next tt) (visited r m))
  unfolding alone
  reader_round-visited r m next small at_r nobody =
      rw (ok (Call.wait_semaphore mutex_fd), nobody)
        (rw (one_more) (
          rw (ok (Call.wait_semaphore write_fd)) (
            rw (ok (Call.post_semaphore mutex_fd)) (
              rw (at_r) (
                rw (next_index-pos r small)
                  (rw one_less (rw (ok (Call.post_semaphore write_fd)) refl)))))))

  rounds-visits :
      (n r : ℕ) (m : Shared) (next : Unit {0} → Job)
      → r < 128
      → m.vars Var.read_index ≡ pos r
      → m.vars Var.readcount ≡ pos 0
      → alone answer (rounds n (reader_round write_fd mutex_fd) next) m
        ≡ with_calls (times n round_calls) (alone answer (next tt) (visits n r m))
  unfolding rounds times visits
  rounds-visits zero r m next small at_r nobody = refl
  rounds-visits (suc n) r m next small at_r nobody =
      reader_round-visited r m (λ _. rounds n (reader_round write_fd mutex_fd) next) small at_r
        nobody
      ∙ ap (with_calls round_calls)
          (rounds-visits n ((r + 1) % 128) (visited r m) next (ground arith) refl refl)

  -- Each round reads the slot at `read_index`, and no other.
  reader_round-slots_read :
      (r : ℕ) (m : Shared) (next : Unit {0} → Job)
      → r < 128
      → m.vars Var.read_index ≡ pos r
      → m.vars Var.readcount ≡ pos 0
      → slots_read answer (reader_round write_fd mutex_fd next) m
        ≡ pos r ∷ slots_read answer (next tt) (visited r m)
  unfolding slots_read
  reader_round-slots_read r m next small at_r nobody =
      rw (slots_read, ok (Call.wait_semaphore mutex_fd), nobody)
        (rw (one_more) (
          rw (ok (Call.wait_semaphore write_fd)) (
            rw (ok (Call.post_semaphore mutex_fd)) (
              rw (at_r) (
                rw (next_index-pos r small)
                  (rw one_less (rw (ok (Call.post_semaphore write_fd)) refl)))))))

  rounds-slots_read :
      (n r : ℕ) (m : Shared) (next : Unit {0} → Job)
      → r < 128
      → m.vars Var.read_index ≡ pos r
      → m.vars Var.readcount ≡ pos 0
      → slots_read answer (rounds n (reader_round write_fd mutex_fd) next) m
        ≡ next_slots n r ++ slots_read answer (next tt) (visits n r m)
  unfolding rounds visits next_slots
  rounds-slots_read zero r m next small at_r nobody = refl
  rounds-slots_read (suc n) r m next small at_r nobody =
      reader_round-slots_read r m (λ _. rounds n (reader_round write_fd mutex_fd) next) small at_r
        nobody
      ∙ ap {A = List ℤ} {B = List ℤ} (λ is. pos r ∷ is)
          (rounds-slots_read n ((r + 1) % 128) (visited r m) next (ground arith) refl refl)

visits-read_index :
    (n r : ℕ) (m : Shared)
    → r < 128
    → m.vars Var.read_index ≡ pos r
    → (visits n r m).vars Var.read_index ≡ pos ((r + n) % 128)
unfolding visits
visits-read_index zero r m small e = e ∙ ap pos (ground arith)
visits-read_index (suc n) r m small e =
    visits-read_index n ((r + 1) % 128) (visited r m) (ground arith) refl ∙ ap pos (round_shift r n)

visits-readcount :
    (n r : ℕ) (m : Shared)
    → m.vars Var.readcount ≡ pos 0
    → (visits n r m).vars Var.readcount ≡ pos 0
unfolding visits
visits-readcount zero r m e = e
visits-readcount (suc n) r m e = visits-readcount n ((r + 1) % 128) (visited r m) refl

visits-others :
    (n r : ℕ) (m : Shared)
    → ((visits n r m).vars Var.write_index ≡ m.vars Var.write_index)
      × ((c : ℕ) → (visits n r m).slots c ≡ m.slots c)
unfolding visits
visits-others zero r m = (refl, λ c. refl)
visits-others (suc n) r m = visits-others n ((r + 1) % 128) (visited r m)

-- A reader that runs alone while no other is inside, and gets no error, makes 100 rounds, in each of
-- which it takes `mutex_sem`, then `write_sem`, and posts both; then it closes both and exits with its
-- number and one. The slots that it reads are the next 100 from `read_index` on, round the end, one
-- after the other and no others: `read_index` is behind them, no reader is inside, and the items and
-- `write_index` are as they were.
pub alone-reader :
    (answer : Call → ℤ) (number : ℤ) (r : ℕ) (m : Shared)
    → ((c : Call) → ltb_ℤ (answer c) (pos 0) ≡ false)
    → r < 128
    → m.vars Var.read_index ≡ pos r
    → m.vars Var.readcount ≡ pos 0
    → (m' : Shared) × (alone answer
          (child_function (record { sem_id = reader_child; number = number }))
          m
        ≡ (
          int_add (answer Call.get_pid) (pos 1),
          Call.print_status
                ∷ Call.open_semaphore writers_sem_id (pos 0) []
                ∷ Call.open_semaphore mutex_sem_id (pos 0) []
                ∷ times 100 (
                    Call.wait_semaphore (answer (Call.open_semaphore mutex_sem_id (pos 0) []))
                    ∷ Call.wait_semaphore (answer (Call.open_semaphore writers_sem_id (pos 0) []))
                    ∷ Call.post_semaphore (answer (Call.open_semaphore mutex_sem_id (pos 0) []))
                    ∷ Call.post_semaphore (answer (Call.open_semaphore writers_sem_id (pos 0) []))
                    ∷ [])
              ++ Call.close_semaphore (answer (Call.open_semaphore writers_sem_id (pos 0) []))
                ∷ Call.close_semaphore (answer (Call.open_semaphore mutex_sem_id (pos 0) []))
                ∷ Call.get_pid
                ∷ [],
          m',
        ))
      × (slots_read answer (child_function (record { sem_id = reader_child; number = number })) m
          ≡ next_slots 100 r)
      × (m'.vars Var.read_index ≡ pos ((r + 100) % 128))
      × (m'.vars Var.readcount ≡ pos 0)
      × (m'.vars Var.write_index ≡ m.vars Var.write_index)
      × ((c : ℕ) → m'.slots c ≡ m.slots c)
unfolding alone slots_read child_function reader_job
alone-reader answer number r m ok small at_r nobody =
    let opens_write = Call.open_semaphore writers_sem_id (pos 0) [] in
    let opens_mutex = Call.open_semaphore mutex_sem_id (pos 0) [] in
    let write_fd : ℤ = answer opens_write in
    let mutex_fd : ℤ = answer opens_mutex in
    let m' = visits 100 r m in
    let ends : Unit {0} → Job = λ _. Job.call (Call.close_semaphore write_fd) λ _.
      Job.call (Call.close_semaphore mutex_fd)
        λ _. Job.call Call.get_pid λ pid. Job.exit (int_add pid (pos 1)) in
    (
      m',
      rw (ok opens_write) (
          rw (ok opens_mutex) (
            ap (with_calls (Call.print_status ∷ opens_write ∷ opens_mutex ∷ []))
              (rounds-visits answer ok write_fd mutex_fd 100 r m ends small at_r nobody))),
      rw (slots_read, ok opens_write)
          (rw (ok opens_mutex) (
            rounds-slots_read answer ok write_fd mutex_fd 100 r m ends small at_r nobody
            ∙ append-nil (next_slots 100 r))),
      visits-read_index 100 r m small at_r,
      visits-readcount 100 r m nobody,
      (visits-others 100 r m).0,
      (visits-others 100 r m).1,
    )
