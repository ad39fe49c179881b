-- ===== src/Examples/Pools.antt =====
-- The pools, their views and the ring at concrete inputs.
use conrt.Base.{ℕ, ◌+◌, ◌≤◌, true, false, List, [], ◌∷◌, some, ◌≡◌, ◌⊎◌, refl, arith, done}
use conrt.Base.Words.{pos, negsuc}
use conrt.Buffers.Classes.{
  SizeClass, pack_bid, bid_provided, bid_class, bid_local, class_for, position_from, layout_classes,
  layout_from, sort_by_size, strictly_increasing, check_class, layout_at, is_power_of_two,
  is_power_of, insert_by_size,
}
use conrt.Buffers.Tracker
use conrt.Buffers.Views.{Slice}
use conrt.Buffers.Fixed
use conrt.Buffers.Fixed.{FixedSlab}
use conrt.Buffers.Provided
use conrt.Buffers.Provided.{ProvidedSlab}
use conrt.Buffers.Pools
use conrt.Buffers.Pools.{Pools, with_slab, slab_mut}
use conrt.Buffers.Pools.Build.{
  build_pools, last_total, widest, provided_slabs, fixed_slabs, register_all,
}
use conrt.Buffers.Pools.Build.Regions.{Region}
use conrt.Buffers.Pools.Build.Apart.{with_slab-build_pools}
use conrt.Buffers.Pools.Build.Valid.{build_pools-IsValid}
use conrt.Buffers.Routing.{
  Thread, active_gen, active_gen_matches, resolve_ptr, with_pools, clone_view, split_exclusive,
  enter_active_gen, exit_active_gen, set_current_pools,
}
use conrt.Buffers.Routing.Steps.{Runs}
use conrt.Buffers.Refs
use conrt.Buffers.Refs.Stale.{Harmless, enter_active_gen-Harmless}
use conrt.Buffers.Slices.Bytes.{sub, as_ref, bytes_at}
use conrt.Buffers.Slices.BytesMut.{split_at}
use conrt.Buffers.Slices.Halves.{as_ref-sub, as_ref-split_at}
use conrt.Buffers.Alloc.{alloc_bytes}
use conrt.Buffers.Alloc.Bytes.{IsValid, Allocates, whole_slot, alloc_bytes-Allocates}
use conrt.Buffers.Alloc.Return.{drop_mut-alloc_bytes}

abbrev provided_spec : List SizeClass
provided_spec = record { size = 4; count = 2 } ∷ []

abbrev fixed_spec : List SizeClass
fixed_spec = record { size = 4; count = 1 } ∷ record { size = 1; count = 3 } ∷ []

abbrev pairs : ProvidedSlab
pairs = record {
  buf_count = 2;
  size = 4;
  slab_base = 4096;
  class = 0;
  ring = record { addr = 4096; len = 4; bid = 0 } ∷ record { addr = 4100; len = 4; bid = 1 } ∷ [];
  ring_tail = 2;
  ring_size = 4096;
  tail = 2;
  tracker = record { borrows = pos 0 ∷ pos 0 ∷ [] };
}

abbrev bytewise : FixedSlab
bytewise = record {
  size = 1;
  class = 0;
  slab_base = 4104;
  free = 0 ∷ 1 ∷ 2 ∷ [];
  tracker = record { borrows = pos 0 ∷ pos 0 ∷ pos 0 ∷ [] };
}

abbrev single : FixedSlab
single = record {
  size = 4;
  class = 1;
  slab_base = 4108;
  free = 0 ∷ [];
  tracker = record { borrows = pos 0 ∷ [] };
}

-- The pools with some slab of the 4-byte class.
abbrev pools_with : FixedSlab → Pools
pools_with s = record {
  slab = 4096;
  slab_layout = 16;
  provided_pool = record { classes = provided_spec; slabs = pairs ∷ [] };
  fixed_pool = record {
    classes = record { size = 1; count = 3 } ∷ record { size = 4; count = 1 } ∷ [];
    slabs = bytewise ∷ s ∷ [];
  };
}

abbrev built : Pools
built = pools_with single

builds : build_pools (λ s. true) (some 4096) true provided_spec fixed_spec ≡ done built
unfolding build_pools layout_classes layout_from sort_by_size insert_by_size strictly_increasing
    check_class layout_at is_power_of_two is_power_of last_total widest provided_slabs fixed_slabs
    register_all Pools.new Pools.check_sizes Fixed.new Fixed.slots Provided.new Provided.descriptors
    Tracker.new
builds = refl

abbrev pairs_region : Region
pairs_region = record { start = 4096; slot_size = 4; slots = 2 }

abbrev single_region : Region
single_region = record { start = 4108; slot_size = 4; slots = 1 }

with_slab-build_pools_example :
    (4096 ≤ 4100) × (4100 + 4 ≤ 4112) × ((4100 + 4 ≤ 4108) ⊎ (4108 + 4 ≤ 4100))
unfolding with_slab slab_mut pack_bid bid_provided bid_class bid_local
with_slab-build_pools_example =
    with_slab-build_pools (λ s. true) (some 4096) true provided_spec fixed_spec built built built
      (pack_bid true 0 1) (pack_bid false 1 0) 4100 4108 pairs_region single_region builds refl refl
      (omega arith) (omega arith) (omega arith) (omega arith) (omega arith)

build_pools-IsValid_example : IsValid built
build_pools-IsValid_example =
    build_pools-IsValid (λ s. true) (some 4096) true provided_spec fixed_spec built builds

built-IsValid : IsValid built
built-IsValid =
    build_pools-IsValid (λ s. true) (some 4096) true provided_spec fixed_spec built builds

abbrev thread : Thread
thread = record { running = true; generation = 2; current_pools = some built }

runs : Runs thread built
runs = record { running = refl; published = refl }

alloc_bytes-Allocates_example : Allocates 3 thread built (alloc_bytes 3 thread)
alloc_bytes-Allocates_example = alloc_bytes-Allocates 3 thread built runs built-IsValid

-- The 4-byte slot in use by some views.
abbrev in_use : FixedSlab → Thread
in_use s = record thread { current_pools = some (pools_with s) }

abbrev held : FixedSlab
held = record single { free = []; tracker = record { borrows = negsuc 0 ∷ [] } }

drop_mut-alloc_bytes_example : Refs.drop_mut (whole_slot 2 single 0).ref (in_use held) ≡ done thread
unfolding alloc_bytes Pools.class_for class_for position_from Pools.acquire_bytes_mut
    Fixed.acquire_bytes_mut Fixed.acquire_slice_mut Fixed.acquire_slot Tracker.take_exclusive
    slab_mut active_gen with_pools
drop_mut-alloc_bytes_example =
    drop_mut-alloc_bytes 3 thread (in_use held) built (whole_slot 2 single 0) runs built-IsValid
      refl

abbrev shared_by : ℕ → FixedSlab
shared_by n = record single { free = []; tracker = record { borrows = pos n ∷ [] } }

abbrev view : Slice
view = whole_slot 2 single 0

abbrev middle : Slice
middle = record { ref = record view.ref { offset = 1 }; len = 2 }

as_ref-sub_example :
    as_ref (λ a. a) middle (in_use (shared_by 2)) ≡ done (4109 ∷ 4110 ∷ [], in_use (shared_by 2))
unfolding as_ref bytes_at Refs.as_ptr resolve_ptr active_gen_matches active_gen with_pools with_slab
    slab_mut pack_bid bid_provided bid_class bid_local sub clone_view Tracker.clone_shared
as_ref-sub_example =
    as_ref-sub (λ a. a) 1 3 view middle (in_use (shared_by 1)) (in_use (shared_by 2))
      (in_use (shared_by 1)) (4108 ∷ 4109 ∷ 4110 ∷ 4111 ∷ []) (omega arith) refl refl

abbrev front : Slice
front = record view { len = 1 }

abbrev back : Slice
back = record { ref = record view.ref { offset = 1 }; len = 3 }

abbrev held_twice : FixedSlab
held_twice = record held { tracker = record { borrows = negsuc 1 ∷ [] } }

as_ref-split_at_example :
    (as_ref (λ a. a) front (in_use held_twice) ≡ done (4108 ∷ [], in_use held_twice))
    × (as_ref (λ a. a) back (in_use held_twice) ≡ done (4109 ∷ 4110 ∷ 4111 ∷ [], in_use held_twice))
    × (front.ref.offset + front.len ≡ back.ref.offset)
unfolding as_ref bytes_at Refs.as_ptr resolve_ptr active_gen_matches active_gen with_pools with_slab
    slab_mut pack_bid bid_provided bid_class bid_local split_at split_exclusive
    Tracker.split_exclusive
as_ref-split_at_example =
    as_ref-split_at (λ a. a) 1 view front back (in_use held) (in_use held_twice) (in_use held)
      (4108 ∷ 4109 ∷ 4110 ∷ 4111 ∷ []) (omega arith) refl refl

abbrev next_thread : Thread
next_thread = record thread { generation = 3 }

enter_active_gen-Harmless_example :
    Harmless view (exit_active_gen thread)
    × ((p : Pools) → Harmless view (set_current_pools p next_thread))
unfolding enter_active_gen exit_active_gen
enter_active_gen-Harmless_example =
    enter_active_gen-Harmless view thread next_thread (omega arith) refl
