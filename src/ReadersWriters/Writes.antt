-- ===== src/ReadersWriters/Writes.antt =====
-- A writer of src/disastrOS_semaphore_test2.c while no other process runs.
use disastr_os_semaphores.Common.{
  ℕ, zero, suc, ℤ, pos, ◌+◌, ◌-◌, ◌%◌, ◌<◌, ◌≤◌, ◌≡◌, ◌≢◌, ◌∙◌, refl, ap, Bool, Bool-cases, inl,
  inr, true, false, [], ◌∷◌, ◌++◌, arith, ltb, ltb_ℤ, ◌==◌, int_add, if◌then◌else◌,
}
use disastr_os_semaphores.ReadersWriters.{
  Var, Call, Job, Shared, var_number, rounds, writer_round, writer_job, child_function, put_var,
  put_slot, writer_child, writers_sem_id,
}
use disastr_os_semaphores.ReadersWriters.Alone.{
  with_calls, alone, times, next_index-pos, round_shift,
}

-- The shared variables with `n` items of a writer behind those that are there.
abbrev deposit : (number : ℤ) → (w : ℕ) → Shared → Shared
deposit number w m = put_var (put_slot m w number) Var.write_index (pos ((w + 1) % 128))

-- The shared variables after `n` items, the first in the slot `w`.
unfoldable deposits : (number : ℤ) → (n w : ℕ) → Shared → Shared
deposits number zero w m = m
deposits number (suc n) w m = deposits number n ((w + 1) % 128) (deposit number w m)

module _ (answer : Call → ℤ) (ok : (c : Call) → ltb_ℤ (answer c) (pos 0) ≡ false)
    (fd number : ℤ) where
  writer_round-deposit :
      (w : ℕ) (m : Shared) (next : Unit {0} → Job)
      → w < 128
      → m.vars Var.write_index ≡ pos w
      → alone answer (writer_round fd number next) m
        ≡ with_calls
            (Call.wait_semaphore fd ∷ Call.post_semaphore fd ∷ [])
            (alone answer (next tt) (deposit number w m))
  unfolding alone
  writer_round-deposit w m next small at_w =
      rw (ok (Call.wait_semaphore fd), at_w)
        (rw (next_index-pos w small) (rw (ok (Call.post_semaphore fd)) refl))

  rounds-deposits :
      (n w : ℕ) (m : Shared) (next : Unit {0} → Job)
      → w < 128
      → m.vars Var.write_index ≡ pos w
      → alone answer (rounds n (writer_round fd number) next) m
        ≡ with_calls
            (times n (Call.wait_semaphore fd ∷ Call.post_semaphore fd ∷ []))
            (alone answer (next tt) (deposits number n w m))
  unfolding rounds times deposits
  rounds-deposits zero w m next small at_w = refl
  rounds-deposits (suc n) w m next small at_w =
      writer_round-deposit w m (λ _. rounds n (writer_round fd number) next) small at_w
      ∙ ap (with_calls (Call.wait_semaphore fd ∷ Call.post_semaphore fd ∷ []))
          (rounds-deposits n ((w + 1) % 128) (deposit number w m) next (ground arith) refl)

below_zero : (x : ℕ) → ltb x 0 ≡ false
below_zero x = ground arith

same_either : (b : Bool) (x : ℤ) → (if b then x else x) ≡ x
same_either true x = refl
same_either false x = refl

slot_here : (w n : ℕ) → w < 128 → ltb ((w + 128 - w) % 128) (suc n) ≡ true
slot_here w n sw = ground arith

-- How far a slot is behind the next one.
behind_next :
    (c w : ℕ)
    → w < 128
    → c < 128
    → c ≢ w
    → suc ((c + 128 - (w + 1) % 128) % 128) ≡ (c + 128 - w) % 128
behind_next c w sw sc other = omega arith

slot_shift :
    (c w n : ℕ)
    → w < 128
    → c < 128
    → suc n ≤ 128
    → c ≢ w
    → ltb ((c + 128 - (w + 1) % 128) % 128) n ≡ ltb ((c + 128 - w) % 128) (suc n)
slot_shift c w n sw sc sn other = rw (← behind_next c w sw sc other) (ground arith)

-- The slots from `w` on, round the end, have the items, and the rest is as it was.
deposits-slots :
    (number : ℤ) (n w : ℕ) (m : Shared) (c : ℕ)
    → w < 128
    → c < 128
    → n ≤ 128
    → (deposits number n w m).slots c ≡ (if ltb ((c + 128 - w) % 128) n then number else m.slots c)
unfolding deposits
deposits-slots number zero w m c sw sc sn = rw (below_zero ((c + 128 - w) % 128)) refl
deposits-slots number (suc n) w m c sw sc sn =
    deposits-slots number n ((w + 1) % 128) (deposit number w m) c (ground arith) sc (omega arith)
    ∙ elim (Bool-cases (c == w)) [
      | inl e ↦
          let same : c ≡ w = ground (arith, e) in
          let at_zero : ltb ((c + 128 - w) % 128) (suc n) ≡ true = rw same (slot_here w n sw) in
          rw (e, at_zero) (same_either (ltb ((c + 128 - (w + 1) % 128) % 128) n) number)
      | inr e ↦
          let other : c ≢ w = ground (arith, e) in rw (e, slot_shift c w n sw sc sn other) refl
    ]

deposits-write_index :
    (number : ℤ) (n w : ℕ) (m : Shared)
    → w < 128
    → m.vars Var.write_index ≡ pos w
    → (deposits number n w m).vars Var.write_index ≡ pos ((w + n) % 128)
unfolding deposits
deposits-write_index number zero w m sw e = e ∙ ap pos (ground arith)
deposits-write_index number (suc n) w m sw e =
    deposits-write_index number n ((w + 1) % 128) (deposit number w m) (ground arith) refl
    ∙ ap pos (round_shift w n)

deposits-others :
    (number : ℤ) (n w : ℕ) (m : Shared) (y : Var)
    → (var_number y == var_number Var.write_index) ≡ false
    → (deposits number n w m).vars y ≡ m.vars y
unfolding deposits
deposits-others number zero w m y other = refl
deposits-others number (suc n) w m y other =
    deposits-others number n ((w + 1) % 128) (deposit number w m) y other ∙ rw other refl

-- A writer that runs alone, and gets no error, makes 100 rounds, in each of which it waits for the
-- semaphore and posts it; then it closes it and exits with its number and one. It leaves its items in
-- the next 100 slots from `write_index` on, round the end, and `write_index` behind them, and
-- nothing else is changed.
pub alone-writer :
    (answer : Call → ℤ) (number : ℤ) (w : ℕ) (m : Shared)
    → ((c : Call) → ltb_ℤ (answer c) (pos 0) ≡ false)
    → w < 128
    → m.vars Var.write_index ≡ pos w
    → (m' : Shared) × (alone answer
          (child_function (record { sem_id = writer_child; number = number }))
          m
        ≡ (
          int_add (answer Call.get_pid) (pos 1),
          Call.print_status
                ∷ Call.open_semaphore writers_sem_id (pos 0) []
                ∷ times 100 (
                    Call.wait_semaphore (answer (Call.open_semaphore writers_sem_id (pos 0) []))
                    ∷ Call.post_semaphore (answer (Call.open_semaphore writers_sem_id (pos 0) []))
                    ∷ [])
              ++ Call.close_semaphore (answer (Call.open_semaphore writers_sem_id (pos 0) []))
                ∷ Call.get_pid
                ∷ [],
          m',
        ))
      × (m'.vars Var.write_index ≡ pos ((w + 100) % 128))
      × ((y : Var) → (var_number y == var_number Var.write_index) ≡ false → m'.vars y ≡ m.vars y)
      × ((c : ℕ)
          → c < 128
          → m'.slots c ≡ (if ltb ((c + 128 - w) % 128) 100 then number else m.slots c))
unfolding alone child_function writer_job
alone-writer answer number w m ok small at_w =
    let opens = Call.open_semaphore writers_sem_id (pos 0) [] in
    let fd : ℤ = answer opens in
    let m' = deposits number 100 w m in
    let ends : Unit {0} → Job = λ _.
      Job.call (Call.close_semaphore fd)
        λ _. Job.call Call.get_pid λ pid. Job.exit (int_add pid (pos 1)) in
    (
      m',
      rw (ok opens) (
          ap (with_calls (Call.print_status ∷ opens ∷ []))
            (rounds-deposits answer ok fd number 100 w m ends small at_w)),
      deposits-write_index number 100 w m small at_w,
      deposits-others number 100 w m,
      λ c sc. deposits-slots number 100 w m c small sc (omega arith),
    )
