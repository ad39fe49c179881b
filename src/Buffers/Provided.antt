-- ===== src/Buffers/Provided.antt =====
-- libs/coio-uring/src/buf/provided.rs: one size class of the provided pool, a ring of descriptors that
-- the kernel takes buffers from, with the borrow counts of the slots. Addresses are numbers, and
-- `active` is `active_gen()`. A descriptor's `resv` is left out: that of the first one is the
-- shared tail, `ring_tail`. The two system calls that hand the ring to the kernel are left out too.
pub mod Counts
pub mod Ring
pub mod Runs
pub mod Fresh
use conrt.Base.{
  ℕ, zero, suc, ◌+◌, ◌-◌, ◌*◌, ◌%◌, ◌^◌, Bool, true, false, List, [], ◌∷◌, Option, none, some, set,
  ltb, leb, ◌==◌, if◌then◌else◌, Outcome, done, panicked, ◌>>=◌, ◌>>◌, assert, expect,
}
use conrt.Buffers.Classes.{is_power_of_two, pack_bid}
use conrt.Buffers.Tracker
use conrt.Buffers.Tracker.{BorrowTracker}
use conrt.Buffers.Views.{Ref, Slice}

pub record IoUringBuf : Type 0 where
  pub addr : ℕ
  pub len : ℕ
  pub bid : ℕ

pub record ProvidedSlab : Type 0 where
  pub buf_count : ℕ
  pub size : ℕ
  pub slab_base : ℕ
  pub class : ℕ
  pub ring : List IoUringBuf
  pub ring_tail : ℕ
  pub ring_size : ℕ
  pub tail : ℕ
  pub tracker : BorrowTracker

-- `(n + PAGE_SIZE - 1) & !(PAGE_SIZE - 1)`
abbrev pub page_align : ℕ → ℕ
page_align n = (n + 4095) - (n + 4095) % 4096

abbrev pub descriptor : (slab_base size local : ℕ) → IoUringBuf
descriptor slab_base size local = record {
  addr = slab_base + local * size;
  len = size;
  bid = local;
}

-- The descriptors of the slots from `first` on.
unfoldable pub descriptors : (slab_base size count first : ℕ) → List IoUringBuf
descriptors slab_base size zero first = []
descriptors slab_base size (suc n) first =
    descriptor slab_base size first ∷ descriptors slab_base size n (first + 1)

unfoldable pub new : (slab_base count size class : ℕ) → Outcome ProvidedSlab
unfolding is_power_of_two descriptors Tracker.new
new slab_base count size class = do
  assert (is_power_of_two count)
  assert (ltb 0 count)
  assert (leb count 32768)
  assert (ltb 0 size)
  assert (ltb class 128)
  done (record {
    buf_count = count;
    size = size;
    slab_base = slab_base;
    class = class;
    ring = descriptors slab_base size count 0;
    ring_tail = count;
    ring_size = page_align (count * 16);
    tail = count;
    tracker = Tracker.new count;
  })

-- The count is a power of two, so the mask is a remainder.
unfoldable pub recycle_buffer : ℕ → ProvidedSlab → ProvidedSlab
recycle_buffer local s =
    let tail = (s.tail + 1) % 2 ^ 16 in
    record s {
      ring = set s.ring (s.tail % s.buf_count) (descriptor s.slab_base s.size local);
      tail = tail;
      ring_tail = tail;
    }

abbrev selected : ProvidedSlab → ℕ → ℕ → ℕ → Slice
selected s local generation len = record {
  ref = record { bid = pack_bid true s.class local; generation = generation; offset = 0 };
  len = len;
}

unfoldable pub select : Option ℕ → ℕ → ℕ → ProvidedSlab → Outcome (Slice × ProvidedSlab)
unfolding Tracker.take_shared
select active local len s = do
  generation ← expect active
  assert (leb len s.size)
  tracker ← Tracker.take_shared s.tracker local
  done (selected s local generation len, record s { tracker = tracker })

unfoldable pub select_mut : Option ℕ → ℕ → ℕ → ProvidedSlab → Outcome (Slice × ProvidedSlab)
unfolding Tracker.take_shared Tracker.upgrade
select_mut active local len s = do
  generation ← expect active
  assert (leb len s.size)
  shared ← Tracker.take_shared s.tracker local
  tracker ← Tracker.upgrade shared local
  done (selected s local generation len, record s { tracker = tracker })

-- `Slab::recycle`, which cuts the slot down to a `u16`.
unfoldable pub recycle : ProvidedSlab → ℕ → ProvidedSlab
unfolding recycle_buffer
recycle s local = recycle_buffer (local % 2 ^ 16) s

-- `Slab::drop_view`: the buffer goes back to the ring with its last view.
unfoldable pub drop_view : ProvidedSlab → Bool → ℕ → Outcome ProvidedSlab
unfolding recycle Tracker.drop_view
drop_view s exclusive local = do
  (gone, tracker) ← Tracker.drop_view s.tracker exclusive local
  let released : ProvidedSlab = record s { tracker = tracker }
  done (if gone then recycle released local else released)
