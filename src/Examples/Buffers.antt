-- ===== src/Examples/Buffers.antt =====
-- The buffer pool's size classes, borrow counts and slots at concrete inputs.
use conrt.Base.{◌^◌, ◌<◌, true, false, List, [], ◌∷◌, ◌≡◌, refl, arith}
use conrt.Base.Words.{pos, negsuc}
use conrt.Buffers.Classes.{
  SizeClass, SizeClassLayout, pack_bid, bid_provided, bid_class, bid_local, class_for,
  layout_classes, layout_from, sort_by_size, strictly_increasing, check_class, layout_at,
  is_power_of_two, is_power_of, insert_by_size, default_size_classes,
}
use conrt.Buffers.Classes.Bid.{bid-pack_bid, Fits, class_for-Fits}
use conrt.Buffers.Classes.Layout.{Chain, layout_classes-Chain}
use conrt.Buffers.Tracker
use conrt.Buffers.Tracker.{BorrowTracker}
use conrt.Buffers.Tracker.Borrows.{shared, clone_shared, call, change, outcome, call-change}
use conrt.Buffers.Fixed
use conrt.Buffers.Fixed.{FixedSlab, acquire_slot, acquire_slot_shared, recycle}
use conrt.Buffers.Fixed.Free.{IsValid}
use conrt.Buffers.Fixed.Runs.{
  SlabOp, acquire, acquire_shared, change_view, release, run-new-IsValid,
}

bid-pack_bid_example :
    (bid_provided (pack_bid true 200 5) ≡ true)
    × (bid_class (pack_bid true 200 5) ≡ 72)
    × (bid_local (pack_bid true 200 5) ≡ 5)
    × (pack_bid true 200 5 < 2 ^ 32)
bid-pack_bid_example = bid-pack_bid true 200 5

class_for-Fits_example : Fits default_size_classes 300 0 (class_for default_size_classes 300)
class_for-Fits_example = class_for-Fits default_size_classes 300 (omega arith)

abbrev two_classes : List SizeClass
two_classes = record { size = 4; count = 1 } ∷ record { size = 1; count = 3 } ∷ []

abbrev two_layouts : List SizeClassLayout
two_layouts =
    record { size = 1; count = 3; base_offset = 0; total = 3 }
    ∷ record { size = 4; count = 1; base_offset = 4; total = 8 }
    ∷ []

layout_classes-Chain_example : Chain 0 two_layouts
unfolding layout_classes layout_from sort_by_size insert_by_size strictly_increasing check_class
    layout_at is_power_of_two is_power_of
layout_classes-Chain_example = layout_classes-Chain two_classes false two_layouts refl

abbrev lent : BorrowTracker
lent = record { borrows = pos 0 ∷ pos 2 ∷ negsuc 0 ∷ [] }

call-change_example : call clone_shared lent 1 ≡ outcome lent 1 (change clone_shared (shared 1))
call-change_example = call-change clone_shared lent 1 (shared 1) refl (omega arith)

-- Two slots, of which the first is held by a shared view.
abbrev half : FixedSlab
half = record {
  size = 64;
  class = 0;
  slab_base = 128;
  free = 1 ∷ [];
  tracker = record { borrows = pos 1 ∷ pos 0 ∷ [] };
}

abbrev fresh : FixedSlab
fresh = record half { free = 0 ∷ 1 ∷ []; tracker = record { borrows = pos 0 ∷ pos 0 ∷ [] } }

abbrev ops : List SlabOp
ops = acquire ∷ acquire_shared ∷ change_view clone_shared 1 ∷ release true 0 ∷ []

abbrev after_session : FixedSlab
after_session = record half { free = 0 ∷ []; tracker = record { borrows = pos 0 ∷ pos 2 ∷ [] } }

run-new-IsValid_example : IsValid after_session
unfolding Fixed.new Fixed.slots acquire_slot acquire_slot_shared Fixed.drop_view recycle Tracker.new
    Tracker.take_exclusive Tracker.take_shared Tracker.clone_shared Tracker.drop_view
run-new-IsValid_example = run-new-IsValid 128 64 2 0 fresh after_session ops refl refl
