-- ===== src/Syscalls/Start/Pools.antt =====
-- The pools after the `_init` functions of the objects, called by `disastrOS_start`
-- (src/disastrOS.c).
use disastr_os_semaphores.Common.{
  ℕ, ◌+◌, ◌*◌, ◌^◌, ◌≤ℤ◌, ◌<◌, ◌≡◌, ◌≢◌, refl, ap, some, arith, pos, to_int, to_int-id,
}
use disastr_os_semaphores.PoolAllocator.{PoolAllocator, int_size}
use disastr_os_semaphores.PoolAllocator.Free.{IsValid}
use disastr_os_semaphores.PoolAllocator.Init.{count_up, init-IsValid}
use disastr_os_semaphores.Kernel.{
  Kernel, PoolId, pcb_pool, pcb_ptr_pool, timer_pool, resource_pool, descriptor_pool,
  descriptor_ptr_pool, semaphore_pool, sem_descriptor_pool, sem_descriptor_ptr_pool, set_pool,
}
use disastr_os_semaphores.Syscalls.Start.{
  Layout, assert_success, pool_init, pcb_init, timer_init, resource_init, descriptor_init,
  semaphore_init, sem_descriptor_init,
}

-- How many items the buffer of a pool has room for.
abbrev pub capacity : PoolId → ℕ
capacity descriptor_pool = 32768
capacity descriptor_ptr_pool = 32768
capacity sem_descriptor_pool = 32768
capacity sem_descriptor_ptr_pool = 32768
capacity _ = 1024

-- Every struct has a size, every buffer's size fits an `int`, and no buffer is at NULL.
pub record IsFit (c : Layout) : Type 0 where
  pub item_pos : (i : PoolId) → 0 < c.item_size i
  pub fits : (i : PoolId) → capacity i * (c.item_size i + int_size) < 2 ^ 31
  pub ne_null : (i : PoolId) → c.buffer i ≢ 0

-- The pool `i` has 1024 blocks in its buffer, and all are free.
pub record IsFresh (c : Layout) (i : PoolId) (a : PoolAllocator) : Type 0 where
  pub valid : IsValid a (count_up 0 1024)
  pub buffer : a.buffer ≡ c.buffer i
  pub item_size : a.item_size ≡ c.item_size i
  pub size_max : a.size_max ≡ 1024

abbrev pub with_pool : Kernel → PoolId → PoolAllocator → Kernel
with_pool k i a = record k { pools = set_pool k.pools i a }

-- The states between the functions, with the pools that they make.
module _ (c : Layout) (k : Kernel) (a : PoolId → PoolAllocator) where
  abbrev pub after_pcb : Kernel
  after_pcb = with_pool (with_pool k pcb_pool (a pcb_pool)) pcb_ptr_pool (a pcb_ptr_pool)

  abbrev pub after_timer : Kernel
  after_timer = with_pool after_pcb timer_pool (a timer_pool)

  abbrev pub after_resource : Kernel
  after_resource = with_pool after_timer resource_pool (a resource_pool)

  abbrev pub after_descriptor : Kernel
  after_descriptor =
      with_pool (with_pool after_resource descriptor_pool (a descriptor_pool)) descriptor_ptr_pool
        (a descriptor_ptr_pool)

  abbrev pub after_semaphore : Kernel
  after_semaphore = with_pool after_descriptor semaphore_pool (a semaphore_pool)

  abbrev pub after_sem_descriptor : Kernel
  after_sem_descriptor =
      with_pool (with_pool after_semaphore sem_descriptor_pool (a sem_descriptor_pool))
        sem_descriptor_ptr_pool (a sem_descriptor_ptr_pool)

  -- Each function succeeds, in this order.
  pub record Inits : Type 0 where
    pub pcb : pcb_init c k ≡ some (tt, after_pcb)
    pub timer : timer_init c after_pcb ≡ some (tt, after_timer)
    pub resource : resource_init c after_timer ≡ some (tt, after_resource)
    pub descriptor : descriptor_init c after_resource ≡ some (tt, after_descriptor)
    pub semaphore : semaphore_init c after_descriptor ≡ some (tt, after_semaphore)
    pub sem_descriptor : sem_descriptor_init c after_semaphore ≡ some (tt, after_sem_descriptor)

enough :
    (i : PoolId) (s : ℕ)
    → capacity i * (s + int_size) < 2 ^ 31
    → (1024 * (s + int_size) < 2 ^ 31)
      × (pos (1024 * (s + int_size)) ≤ℤ pos (capacity i * (s + int_size)))
enough pcb_pool s h = omega arith
enough pcb_ptr_pool s h = omega arith
enough timer_pool s h = omega arith
enough resource_pool s h = omega arith
enough descriptor_pool s h = omega arith
enough descriptor_ptr_pool s h = omega arith
enough semaphore_pool s h = omega arith
enough sem_descriptor_pool s h = omega arith
enough sem_descriptor_ptr_pool s h = omega arith

module _ (c : Layout) (fit : IsFit c) (k : Kernel) where
  step :
      (i : PoolId)
      → (a : PoolAllocator) × IsFresh c i a
        × ((k' : Kernel)
            → k'.pools i ≡ k.pools i
            → pool_init c i 1024 (capacity i) k' ≡ some (tt, with_pool k' i a))
  unfolding pool_init
  step i =
      let s = c.item_size i in
      let (a, e, v, b, sz, n) =
        init-IsValid (k.pools i) s 1024 (c.buffer i) (pos (capacity i * (s + int_size)))
          (fit.item_pos i) (omega arith) (enough i s (fit.fits i)).0 (enough i s (fit.fits i)).1 in
      let memory : to_int (pos (capacity i * (s + int_size))) ≡ pos (capacity i * (s + int_size)) =
        to_int-id (pos (capacity i * (s + int_size))) (omega (arith, fit.fits i)) in
      (
        a,
        record { valid = v; buffer = b; item_size = sz; size_max = n },
        λ k' same. rw (memory, same) (ap (λ o. assert_success i o k') e),
      )

  pub inits : (a : PoolId → PoolAllocator) × ((i : PoolId) → IsFresh c i (a i)) × Inits c k a
  unfolding pcb_init timer_init resource_init descriptor_init semaphore_init sem_descriptor_init
  inits =
      let s = step in
      (
        λ i. (s i).0,
        λ i. (s i).1,
        record {
          pcb =
              rw
                (
                  (s pcb_pool).2 k refl,
                  (s pcb_ptr_pool).2 (with_pool k pcb_pool (s pcb_pool).0) refl,
                )
                refl;
          timer = (s timer_pool).2 (after_pcb c k (λ i. (s i).0)) refl;
          resource = (s resource_pool).2 (after_timer c k (λ i. (s i).0)) refl;
          descriptor =
              rw
                (
                  (s descriptor_pool).2 (after_resource c k (λ i. (s i).0)) refl,
                  (s descriptor_ptr_pool).2
                      (with_pool (after_resource c k (λ i. (s i).0)) descriptor_pool
                        (s descriptor_pool).0)
                      refl,
                )
                refl;
          semaphore = (s semaphore_pool).2 (after_descriptor c k (λ i. (s i).0)) refl;
          sem_descriptor =
              rw
                (
                  (s sem_descriptor_pool).2 (after_semaphore c k (λ i. (s i).0)) refl,
                  (s sem_descriptor_ptr_pool).2
                      (with_pool (after_semaphore c k (λ i. (s i).0)) sem_descriptor_pool
                        (s sem_descriptor_pool).0)
                      refl,
                )
                refl;
        },
      )
