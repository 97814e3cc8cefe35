-- ===== src/Kernel/State.antt =====
-- The state of the kernel, and commands over it.
use disastr_os_semaphores.Common.{
  ℕ, ℤ, Bool, Bool-cases, inl, inr, Option, none, some, ◌≡◌, ◌∙◌, refl, ap, sym, arith, ==-self,
  ◌==◌, if◌then◌else◌,
}
use disastr_os_semaphores.LinkedList.{ListHead, Links}
use disastr_os_semaphores.PoolAllocator.{PoolAllocator}
use disastr_os_semaphores.Kernel.Types.{
  Pcb, PcbPtr, TimerItem, Resource, Descriptor, DescriptorPtr, Semaphore, SemDescriptor,
  SemDescriptorPtr, ListRef, PoolId,
}

-- The memory, one map for each type of struct, and the globals of disastrOS.c. `user_memory` is what
-- `int*` arguments of system calls point to.
pub record Kernel : Type 0 where
  pub links : Links
  pub heads : ListRef → ListHead
  pub pools : PoolId → PoolAllocator
  pub pcbs : ℕ → Pcb
  pub pcb_ptrs : ℕ → PcbPtr
  pub timers : ℕ → TimerItem
  pub resources : ℕ → Resource
  pub descs : ℕ → Descriptor
  pub desc_ptrs : ℕ → DescriptorPtr
  pub semaphores : ℕ → Semaphore
  pub sem_descs : ℕ → SemDescriptor
  pub sem_desc_ptrs : ℕ → SemDescriptorPtr
  pub user_memory : ℤ → ℤ
  pub init_pcb : ℕ
  pub running : ℕ
  pub last_pid : ℤ
  pub disastr_os_time : ℤ
  pub shutdown_now : Bool

-- A command returns a value and the new state; `none` is a fault (a NULL pointer is dereferenced, an
-- array is left, an assertion fails) or a loop that does not end.
abbrev pub M : Type 0 → Type 0
M A = Kernel → Option (A × Kernel)

abbrev pub pure : {A : Type 0} → A → M A
pure a k = some (a, k)

abbrev pub and_then : {A B : Type 0} → Option (A × Kernel) → (A → M B) → Option (B × Kernel)
and_then none f = none
and_then (some (a, k)) f = f a k

infixl 5 ◌>>=◌ ◌>>◌
abbrev pub ◌>>=◌ : {A B : Type 0} → M A → (A → M B) → M B
◌>>=◌ m f k = and_then (m k) f

abbrev pub ◌>>◌ : {A B : Type 0} → M A → M B → M B
m >> n = m >>= λ _. n

abbrev pub skip : M (Unit {0})
skip = pure tt

-- The value of a global or a field of the state.
abbrev pub gets : {A : Type 0} → (Kernel → A) → M A
gets f k = some (f k, k)

abbrev pub modify : (Kernel → Kernel) → M (Unit {0})
modify f k = some (tt, f k)

-- A command that runs if the pointer is not NULL, and faults if it is; `assert(p)` too.
abbrev pub checked : {A : Type 0} → ℕ → M A → M A
checked p m k = if p == 0 then none else m k

abbrev pub assert_set : ℕ → M (Unit {0})
assert_set p = checked p skip

-- `assert(p==0)`
abbrev pub fault_if : ℕ → M (Unit {0})
fault_if p k = if p == 0 then some (tt, k) else none

-- A map with the value at one address changed.
abbrev pub update : {A : Type 0} → (ℕ → A) → ℕ → A → ℕ → A
update f p v q = if q == p then v else f q

pub update_self : {A : Type 0} (f : ℕ → A) (p : ℕ) (v : A) → update f p v p ≡ v
update_self f p v = rw (==-self p) refl

-- What the new value has in common with the old one stays.
pub update_keeps :
    {A B : Type 0} (g : A → B) (f : ℕ → A) (p : ℕ) (v : A) (q : ℕ)
    → g v ≡ g (f p)
    → g (update f p v q) ≡ g (f q)
update_keeps g f p v q same = elim (Bool-cases (q == p)) [
  | inl e ↦ let eq : q ≡ p = ground (arith, e) in rw e (same ∙ ap (λ x. g (f x)) (sym eq))
  | inr e ↦ rw e refl
]
