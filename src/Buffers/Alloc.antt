-- ===== src/Buffers/Alloc.antt =====
-- The allocation of pooled memory, and the adoption of a provided buffer, in
-- libs/coio-uring/src/buf.rs.
pub mod Bytes
pub mod Return
use conrt.Base.{
  ℕ, ◌+◌, ◌*◌, ◌%◌, ◌^◌, Bool, true, false, Option, none, some, ltb, leb, ◌==◌, if◌then◌else◌,
  Outcome, done, panicked, ◌>>=◌, ◌>>◌, assert,
}
use conrt.Buffers.Views.{Ref, Slice, Layout}
use conrt.Buffers.Fixed.{FixedSlab}
use conrt.Buffers.Pools
use conrt.Buffers.Pools.{Pool, Pools}
use conrt.Buffers.Routing
use conrt.Buffers.Routing.{Thread, active_gen, with_pools}

unfoldable pub assert_class_alignment : Layout → Pool FixedSlab → ℕ → Outcome (Unit {0})
unfolding Pools.slot_align
assert_class_alignment T pool class =
    Pools.slot_align pool class >>= λ slot_align. assert (leb T.align_of slot_align)

-- A call on the fixed pool.
abbrev in_fixed : {R : Type 0} → Pools → Outcome (R × Pool FixedSlab) → Outcome (R × Pools)
in_fixed p call = call >>= λ r. done (r.0, record p { fixed_pool = r.1 })

unfoldable pub alloc : Layout → Thread → Outcome (Option Ref × Thread)
unfolding Pools.class_for assert_class_alignment Pools.acquire_ref active_gen with_pools
alloc T t = do
  assert (ltb 0 T.size_of)
  with_pools
      (λ p. elim (Pools.class_for p.fixed_pool T.size_of) [
        | none ↦ done (none, p)
        | some class ↦ do
          assert_class_alignment T p.fixed_pool class
          in_fixed p (Pools.acquire_ref (active_gen t) T class p.fixed_pool)
      ])
      t

unfoldable pub alloc_mut : Layout → Thread → Outcome (Option Ref × Thread)
unfolding Pools.class_for assert_class_alignment Pools.acquire_mut active_gen with_pools
alloc_mut T t = do
  assert (ltb 0 T.size_of)
  with_pools
      (λ p. elim (Pools.class_for p.fixed_pool T.size_of) [
        | none ↦ done (none, p)
        | some class ↦ do
          assert_class_alignment T p.fixed_pool class
          in_fixed p (Pools.acquire_mut (active_gen t) T class p.fixed_pool)
      ])
      t

-- The view of exactly `count` elements of the slot.
abbrev shorten : ℕ → Option Slice → Option Slice
shorten count none = none
shorten count (some slot) = some (record { ref = slot.ref; len = count % 2 ^ 32 })

-- What follows the product, which `checked_mul` has bounded.
unfoldable pub alloc_slots : Layout → ℕ → Thread → Outcome (Option Slice × Thread)
unfolding Pools.class_for assert_class_alignment Pools.acquire_slice_mut active_gen with_pools
alloc_slots T count t =
    with_pools
      (λ p. elim (Pools.class_for p.fixed_pool (count * T.size_of)) [
        | none ↦ done (none, p)
        | some class ↦ do
          assert_class_alignment T p.fixed_pool class
          (slot, p') ← in_fixed p (Pools.acquire_slice_mut (active_gen t) T class p.fixed_pool)
          done (shorten count slot, p')
      ])
      t

unfoldable pub alloc_slice_mut : Layout → ℕ → Thread → Outcome (Option Slice × Thread)
unfolding alloc_slots
alloc_slice_mut T count t = do
  assert (ltb 0 T.size_of)
  (if leb (2 ^ 64) (count * T.size_of)
      then done (none, t)
      else if count * T.size_of == 0
      then done (none, t)
      else alloc_slots T count t)

-- `io::Result<BytesMut>`
pub data Allocated : Type 0 where
  bytes : Slice → Allocated
  efbig : Allocated
  enomem : Allocated

abbrev pub or_enomem : Option Slice → Allocated
or_enomem none = enomem
or_enomem (some s) = bytes s

unfoldable pub alloc_bytes : ℕ → Thread → Outcome (Allocated × Thread)
unfolding Pools.class_for Pools.acquire_bytes_mut active_gen with_pools
alloc_bytes size t =
    with_pools
      (λ p. elim (Pools.class_for p.fixed_pool size) [
        | none ↦ done (efbig, p)
        | some class ↦ do
          (slot, p') ← in_fixed p (Pools.acquire_bytes_mut (active_gen t) class p.fixed_pool)
          done (or_enomem slot, p')
      ])
      t

unfoldable pub provided_bytes : (class local len : ℕ) → Thread → Outcome (Slice × Thread)
unfolding Pools.select active_gen with_pools
provided_bytes class local len t =
    with_pools
      (λ p. do
        (s, pool) ← Pools.select (active_gen t) class local len p.provided_pool
        done (s, record p { provided_pool = pool }))
      t
