-- ===== src/Buffers/Fixed.antt =====
-- libs/coio-uring/src/buf/fixed.rs: one size class of the fixed pool, a stack of free slots with
-- their borrow counts. Addresses are numbers. The head of `free` is the end of the source's `Vec`.
-- `active` is `active_gen()`, the generation of the running runtime.
pub mod Free
pub mod Runs
use conrt.Base.{
  ℕ, zero, suc, ◌+◌, ◌*◌, ◌/◌, ◌%◌, Bool, true, false, List, [], ◌∷◌, Option, none, some, ltb, ◌==◌,
  if◌then◌else◌, Outcome, done, panicked, ◌>>=◌, ◌>>◌, assert,
}
use conrt.Buffers.Classes.{align_of_size, pack_bid}
use conrt.Buffers.Tracker
use conrt.Buffers.Tracker.{BorrowTracker}
use conrt.Buffers.Views.{Ref, Slice, Layout, u8}

pub record FixedSlab : Type 0 where
  pub size : ℕ
  pub class : ℕ
  pub slab_base : ℕ
  pub free : List ℕ
  pub tracker : BorrowTracker

-- `(0..count).rev()`, whose last entry is popped first: the slots from `first` on.
unfoldable pub slots : ℕ → ℕ → List ℕ
slots zero first = []
slots (suc n) first = first ∷ slots n (first + 1)

unfoldable pub new : ℕ → ℕ → ℕ → ℕ → Outcome FixedSlab
unfolding Tracker.new slots
new slab_base size count class = do
  assert (ltb 0 size)
  assert (ltb 0 count)
  assert (slab_base % align_of_size size == 0)
  done (record {
    size = size;
    class = class;
    slab_base = slab_base;
    free = slots count 0;
    tracker = Tracker.new count;
  })

-- `Slab::slot_ptr`
abbrev pub slot_ptr : FixedSlab → ℕ → ℕ
slot_ptr s local = s.slab_base + local * s.size

-- The debug assertion that slot `local` is aligned for `T`.
abbrev debug_assert_slot_aligned : Layout → FixedSlab → ℕ → Outcome (Unit {0})
debug_assert_slot_aligned T s local = assert (slot_ptr s local % T.align_of == 0)

unfoldable pub acquire_slot : FixedSlab → Outcome (Option ℕ × FixedSlab)
unfolding Tracker.take_exclusive
acquire_slot s = elim s.free [
  | [] ↦ done (none, s)
  | local ∷ rest ↦ do
    tracker ← Tracker.take_exclusive s.tracker local
    done (some local, record s { free = rest; tracker = tracker })
]

unfoldable pub acquire_slot_shared : FixedSlab → Outcome (Option ℕ × FixedSlab)
unfolding Tracker.take_shared
acquire_slot_shared s = elim s.free [
  | [] ↦ done (none, s)
  | local ∷ rest ↦ do
    tracker ← Tracker.take_shared s.tracker local
    done (some local, record s { free = rest; tracker = tracker })
]

-- `active_gen().expect(..)`, and the view's name of the slot.
abbrev make_ref : Option ℕ → FixedSlab → ℕ → Outcome Ref
make_ref none s local = panicked
make_ref (some generation) s local =
    done (record { bid = pack_bid false s.class local; generation = generation; offset = 0 })

-- A view of the slot that was popped, if one was.
abbrev view_of {ℓ} :
    {V : Type ℓ}
    → (FixedSlab → ℕ → Outcome V)
    → Option ℕ × FixedSlab
    → Outcome (Option V × FixedSlab)
view_of make (none, s) = done (none, s)
view_of make (some local, s) = make s local >>= λ v. done (some v, s)

unfoldable pub acquire_ref : Layout → Option ℕ → FixedSlab → Outcome (Option Ref × FixedSlab)
unfolding acquire_slot_shared
acquire_ref T active s = do
  assert (ltb 0 T.size_of)
  popped ← acquire_slot_shared s
  view_of (λ s' local. debug_assert_slot_aligned T s' local >> make_ref active s' local) popped

unfoldable pub acquire_mut : Layout → Option ℕ → FixedSlab → Outcome (Option Ref × FixedSlab)
unfolding acquire_slot
acquire_mut T active s = do
  assert (ltb 0 T.size_of)
  popped ← acquire_slot s
  view_of (λ s' local. debug_assert_slot_aligned T s' local >> make_ref active s' local) popped

-- The division by `size_of` panics for a type of size 0.
abbrev slice_of : Layout → Option ℕ → FixedSlab → ℕ → Outcome Slice
slice_of T active s local = do
  debug_assert_slot_aligned T s local
  ref ← make_ref active s local
  assert (ltb 0 T.size_of)
  done (record { ref = ref; len = s.size / T.size_of })

unfoldable pub acquire_slice : Layout → Option ℕ → FixedSlab → Outcome (Option Slice × FixedSlab)
unfolding acquire_slot_shared
acquire_slice T active s = acquire_slot_shared s >>= view_of (slice_of T active)

unfoldable pub acquire_slice_mut :
    Layout → Option ℕ → FixedSlab → Outcome (Option Slice × FixedSlab)
unfolding acquire_slot
acquire_slice_mut T active s = acquire_slot s >>= view_of (slice_of T active)

unfoldable pub acquire_bytes : Option ℕ → FixedSlab → Outcome (Option Slice × FixedSlab)
unfolding acquire_slice
acquire_bytes active s = acquire_slice u8 active s

unfoldable pub acquire_bytes_mut : Option ℕ → FixedSlab → Outcome (Option Slice × FixedSlab)
unfolding acquire_slice_mut
acquire_bytes_mut active s = acquire_slice_mut u8 active s

unfoldable pub recycle : FixedSlab → ℕ → FixedSlab
recycle s local = record s { free = local ∷ s.free }

-- `Slab::drop_view`: the slot goes back to the stack with its last view.
unfoldable pub drop_view : FixedSlab → Bool → ℕ → Outcome FixedSlab
unfolding recycle Tracker.drop_view
drop_view s exclusive local = do
  (gone, tracker) ← Tracker.drop_view s.tracker exclusive local
  let released : FixedSlab = record s { tracker = tracker }
  done (if gone then recycle released local else released)
