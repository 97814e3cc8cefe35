-- ===== src/Tests/ReadersWriters.antt =====
-- The readers and writers of src/disastrOS_semaphore_test2.c at work.
use disastr_os_semaphores.Common.{
  ℕ, pos, ◌≡◌, refl, true, false, some, [], ◌∷◌, ◌++◌, ◌<◌, ◌+◌, ◌-◌, ◌%◌, arith, ltb, ◌==◌,
  int_add, if◌then◌else◌,
}
use disastr_os_semaphores.ReadersWriters.{
  Var, Call, Job, Shared, Running, in_buffer, var_number, run, started, child_function,
  writer_child, reader_child, writers_sem_id, mutex_sem_id,
}
use disastr_os_semaphores.ReadersWriters.Bounds.{run-in_buffer}
use disastr_os_semaphores.ReadersWriters.Alone.{alone, times, slots_read, next_slots}
use disastr_os_semaphores.ReadersWriters.Writes.{alone-writer}
use disastr_os_semaphores.ReadersWriters.Reads.{alone-reader}

-- The first process opens the first semaphore and then gets an error.
run-in_buffer_example :
    (s : Running) × (run
        ((0, pos 0) ∷ (0, pos 1) ∷ (0, pos 0) ∷ (0, pos 0) ∷ (7, pos 3) ∷ [])
        started
      ≡ some s)
    × (in_buffer (s.shared.vars Var.read_index) ≡ true)
    × (in_buffer (s.shared.vars Var.write_index) ≡ true)
run-in_buffer_example =
    run-in_buffer ((0, pos 0) ∷ (0, pos 1) ∷ (0, pos 0) ∷ (0, pos 0) ∷ (7, pos 3) ∷ [])

-- Every call returns 4, and both indices are near the end of the buffer.
abbrev near_end : Shared
near_end = record {
  vars = λ x. if var_number x == var_number Var.readcount then pos 0 else pos 120;
  slots = λ c. pos 9;
}

abbrev writer : Job
writer = child_function (record { sem_id = writer_child; number = pos 3 })

alone-writer_example :
    (m' : Shared) × (alone (λ c. pos 4) writer near_end ≡ (
      int_add (pos 4) (pos 1),
      Call.print_status
            ∷ Call.open_semaphore writers_sem_id (pos 0) []
            ∷ times 100 (Call.wait_semaphore (pos 4) ∷ Call.post_semaphore (pos 4) ∷ [])
          ++ Call.close_semaphore (pos 4) ∷ Call.get_pid ∷ [],
      m',
    ))
    × (m'.vars Var.write_index ≡ pos ((120 + 100) % 128))
    × ((y : Var)
        → (var_number y == var_number Var.write_index) ≡ false
        → m'.vars y ≡ near_end.vars y)
    × ((c : ℕ)
        → c < 128
        → m'.slots c ≡ (if ltb ((c + 128 - 120) % 128) 100 then pos 3 else near_end.slots c))
alone-writer_example = alone-writer (λ c. pos 4) (pos 3) 120 near_end (λ c. refl) (omega arith) refl

alone-reader_example :
    (m' : Shared) × (alone
        (λ c. pos 4)
        (child_function (record { sem_id = reader_child; number = pos 2 }))
        near_end
      ≡ (
        int_add (pos 4) (pos 1),
        Call.print_status
              ∷ Call.open_semaphore writers_sem_id (pos 0) []
              ∷ Call.open_semaphore mutex_sem_id (pos 0) []
              ∷ times 100 (
                  Call.wait_semaphore (pos 4)
                  ∷ Call.wait_semaphore (pos 4)
                  ∷ Call.post_semaphore (pos 4)
                  ∷ Call.post_semaphore (pos 4)
                  ∷ [])
            ++ Call.close_semaphore (pos 4) ∷ Call.close_semaphore (pos 4) ∷ Call.get_pid ∷ [],
        m',
      ))
    × (slots_read
          (λ c. pos 4)
          (child_function (record { sem_id = reader_child; number = pos 2 }))
          near_end
        ≡ next_slots 100 120)
    × (m'.vars Var.read_index ≡ pos ((120 + 100) % 128))
    × (m'.vars Var.readcount ≡ pos 0)
    × (m'.vars Var.write_index ≡ near_end.vars Var.write_index)
    × ((c : ℕ) → m'.slots c ≡ near_end.slots c)
alone-reader_example =
    alone-reader (λ c. pos 4) (pos 2) 120 near_end (λ c. refl) (omega arith) refl refl
