-- ===== src/ReadersWriters/Alone.antt =====
-- What a reader or writer of src/disastrOS_semaphore_test2.c does while no other process runs.
use disastr_os_semaphores.Common.{
  ℕ, zero, suc, ℤ, pos, ◌+◌, ◌%◌, ◌<◌, ◌≡◌, ap, List, [], ◌∷◌, ◌++◌, arith, int_add_pos,
}
use disastr_os_semaphores.ReadersWriters.{
  Call, Job, Shared, slot_of, c_mod, next_index, put_var, put_slot,
}

-- The value with which a job exits, its calls, and what it leaves in the shared variables.
abbrev pub Outcome : Type 0
Outcome = ℤ × List Call × Shared

abbrev pub with_calls : List Call → Outcome → Outcome
with_calls cs (value, ds, m) = (value, cs ++ ds, m)

-- A job from its start to its end, with the answers of the kernel.
unfoldable pub alone : (Call → ℤ) → Job → Shared → Outcome
alone answer (Job.exit value) m = (value, [], m)
alone answer Job.shutdown m = (pos 0, [], m)
alone answer (Job.call c f) m = with_calls (c ∷ []) (alone answer (f (answer c)) m)
alone answer (Job.load x f) m = alone answer (f (m.vars x)) m
alone answer (Job.store x v j) m = alone answer j (put_var m x v)
alone answer (Job.load_slot i f) m = alone answer (f (m.slots (slot_of i))) m
alone answer (Job.store_slot i v j) m = alone answer j (put_slot m (slot_of i) v)

-- The indices of the slots that the job reads meanwhile, in order.
unfoldable pub slots_read : (Call → ℤ) → Job → Shared → List ℤ
slots_read answer (Job.exit value) m = []
slots_read answer Job.shutdown m = []
slots_read answer (Job.call c f) m = slots_read answer (f (answer c)) m
slots_read answer (Job.load x f) m = slots_read answer (f (m.vars x)) m
slots_read answer (Job.store x v j) m = slots_read answer j (put_var m x v)
slots_read answer (Job.load_slot i f) m = i ∷ slots_read answer (f (m.slots (slot_of i))) m
slots_read answer (Job.store_slot i v j) m = slots_read answer j (put_slot m (slot_of i) v)

-- The `n` indices from `r` on, round the end of the buffer.
unfoldable pub next_slots : (n r : ℕ) → List ℤ
next_slots zero r = []
next_slots (suc n) r = pos r ∷ next_slots n ((r + 1) % 128)

-- The calls `cs`, `n` times.
unfoldable pub times : ℕ → List Call → List Call
times zero cs = []
times (suc n) cs = cs ++ times n cs

pub next_index-pos : (w : ℕ) → w < 128 → next_index (pos w) ≡ pos ((w + 1) % 128)
unfolding c_mod
next_index-pos w small = rw (int_add_pos w (omega arith)) (ap (λ x. pos (x % 128)) (omega arith))

pub round_shift : (w n : ℕ) → ((w + 1) % 128 + n) % 128 ≡ (w + suc n) % 128
round_shift w n = omega arith
