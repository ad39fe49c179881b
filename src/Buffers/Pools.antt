-- ===== src/Buffers/Pools.antt =====
-- libs/coio-uring/src/buf/pool.rs, and the routing of a `bid` in libs/coio-uring/src/pools.rs: the
-- slabs of one direction with their table of classes, and the two pools of a runtime.

pub mod Build
use conrt.Base.{
  ℕ, ◌+◌, ◌*◌, Bool, List, ◌∷◌, Option, length, set, ◌==◌, if◌then◌else◌, Outcome, done, ◌>>=◌,
  ◌>>◌, assert, vec_get,
}
use conrt.Buffers.Classes.{SizeClass, align_of_size, bid_provided, bid_class, bid_local}
use conrt.Buffers.Classes
use conrt.Buffers.Tracker
use conrt.Buffers.Tracker.{BorrowTracker}
use conrt.Buffers.Views.{Ref, Slice, Layout}
use conrt.Buffers.Fixed
use conrt.Buffers.Fixed.{FixedSlab}
use conrt.Buffers.Provided
use conrt.Buffers.Provided.{ProvidedSlab}

-- The trait `Slab`. `tracker_mut` is a pair of a read and a write.
pub record Slab (S : Type 0) : Type 0 where
  pub slot_size : S → ℕ
  pub base : S → ℕ
  pub tracker : S → BorrowTracker
  pub set_tracker : BorrowTracker → S → S
  pub recycle : S → ℕ → S

-- The trait's default methods.
abbrev pub slot_ptr : {S : Type 0} → Slab S → S → ℕ → ℕ
slot_ptr i s local = i.base s + local * i.slot_size s

unfoldable pub drop_view : {S : Type 0} → Slab S → Bool → ℕ → S → Outcome S
unfolding Tracker.drop_view
drop_view i exclusive local s = do
  (gone, tracker) ← Tracker.drop_view (i.tracker s) exclusive local
  let released = i.set_tracker tracker s
  done (if gone then i.recycle released local else released)

instance abbrev pub fixed_slab : Slab FixedSlab
fixed_slab = record {
  slot_size = λ s. s.size;
  base = λ s. s.slab_base;
  tracker = λ s. s.tracker;
  set_tracker = λ t s. record s { tracker = t };
  recycle = Fixed.recycle;
}

instance abbrev pub provided_slab : Slab ProvidedSlab
provided_slab = record {
  slot_size = λ s. s.size;
  base = λ s. s.slab_base;
  tracker = λ s. s.tracker;
  set_tracker = λ t s. record s { tracker = t };
  recycle = Provided.recycle;
}

pub record Pool (S : Type 0) : Type 0 where
  pub classes : List SizeClass
  pub slabs : List S

-- Class `i` of the table has the slot size of slab `i`.
unfoldable pub check_sizes :
    {S : Type 0} ⦃i : Slab S⦄ → List SizeClass → List S → Outcome (Unit {0})
check_sizes ⦃i⦄ (c ∷ cs) (s ∷ ss) = do assert (c.size == i.slot_size s); check_sizes cs ss
check_sizes _ _ = done tt

module _ {S : Type 0} where
  unfoldable pub new : ⦃i : Slab S⦄ → List SizeClass → List S → Outcome (Pool S)
  unfolding check_sizes
  new classes slabs = do
    assert (length classes == length slabs)
    check_sizes classes slabs
    done (record { classes = classes; slabs = slabs })

  unfoldable pub class_for : Pool S → ℕ → Option ℕ
  unfolding Classes.class_for
  class_for p size = Classes.class_for p.classes size

  unfoldable pub slot_align : Pool S → ℕ → Outcome ℕ
  slot_align p class = vec_get p.classes class >>= λ c. done (align_of_size c.size)

  -- What a call does through `slab_mut`.
  unfoldable pub slab_mut : {R : Type 0} → (S → Outcome (R × S)) → ℕ → Pool S → Outcome (R × Pool S)
  slab_mut call class p = do
    s ← vec_get p.slabs class
    (r, s') ← call s
    done (r, record p { slabs = set p.slabs class s' })

module _ (active : Option ℕ) where
  unfoldable pub acquire_ref : Layout → ℕ → Pool FixedSlab → Outcome (Option Ref × Pool FixedSlab)
  unfolding slab_mut
  acquire_ref T = slab_mut (Fixed.acquire_ref T active)

  unfoldable pub acquire_mut : Layout → ℕ → Pool FixedSlab → Outcome (Option Ref × Pool FixedSlab)
  unfolding slab_mut
  acquire_mut T = slab_mut (Fixed.acquire_mut T active)

  unfoldable pub acquire_slice :
      Layout → ℕ → Pool FixedSlab → Outcome (Option Slice × Pool FixedSlab)
  unfolding slab_mut
  acquire_slice T = slab_mut (Fixed.acquire_slice T active)

  unfoldable pub acquire_slice_mut :
      Layout → ℕ → Pool FixedSlab → Outcome (Option Slice × Pool FixedSlab)
  unfolding slab_mut
  acquire_slice_mut T = slab_mut (Fixed.acquire_slice_mut T active)

  unfoldable pub acquire_bytes : ℕ → Pool FixedSlab → Outcome (Option Slice × Pool FixedSlab)
  unfolding slab_mut
  acquire_bytes = slab_mut (Fixed.acquire_bytes active)

  unfoldable pub acquire_bytes_mut : ℕ → Pool FixedSlab → Outcome (Option Slice × Pool FixedSlab)
  unfolding slab_mut
  acquire_bytes_mut = slab_mut (Fixed.acquire_bytes_mut active)

  unfoldable pub select :
      (class local len : ℕ) → Pool ProvidedSlab → Outcome (Slice × Pool ProvidedSlab)
  unfolding slab_mut
  select class local len = slab_mut (Provided.select active local len) class

  unfoldable pub select_mut :
      (class local len : ℕ) → Pool ProvidedSlab → Outcome (Slice × Pool ProvidedSlab)
  unfolding slab_mut
  select_mut class local len = slab_mut (Provided.select_mut active local len) class

-- `slab_layout` is the size of the allocation at `slab`.
pub record Pools : Type 0 where
  pub slab : ℕ
  pub slab_layout : ℕ
  pub provided_pool : Pool ProvidedSlab
  pub fixed_pool : Pool FixedSlab

-- A function of any slab and one of its slots, as `dyn Slab` allows.
abbrev pub SlabCall : Type 0 → Type 1
SlabCall R = (S : Type 0) → Slab S → ℕ → S → Outcome (R × S)

unfoldable pub with_slab : {R : Type 0} → ℕ → SlabCall R → Pools → Outcome (R × Pools)
unfolding slab_mut
with_slab bid call p =
    let provided = do
      (r, pool) ←
          slab_mut (call ProvidedSlab provided_slab (bid_local bid)) (bid_class bid) p.provided_pool
      done (r, record p { provided_pool = pool })
    in let fixed = do
      (r, pool) ← slab_mut (call FixedSlab fixed_slab (bid_local bid)) (bid_class bid) p.fixed_pool
      done (r, record p { fixed_pool = pool })
      in if bid_provided bid then provided else fixed
