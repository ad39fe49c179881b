-- ===== src/Buffers/Pools/Build.antt =====
-- `build_pools` of libs/coio-uring/src/pools.rs: both pools over one allocation. What the allocator
-- and the kernel answer is an argument: `slab` is the address that `alloc` returns, `accepts` whether
-- the kernel takes a provided ring, and `registered` whether it takes the whole slab.
pub mod Regions
pub mod Slots
pub mod Inside
pub mod Apart
pub mod Valid
use conrt.Base.{
  ℕ, zero, suc, ◌+◌, ◌-◌, ◌*◌, ◌%◌, ◌^◌, Bool, true, false, List, [], ◌∷◌, ◌++◌, map, Option, none,
  some, leb, if◌then◌else◌, Outcome, done, panicked, ◌>>=◌, ◌>>◌, assert, expect,
}
use conrt.Buffers.Classes.{
  SizeClass, SizeClassLayout, align_of_size, div_ceil, is_power_of_two, layout_classes,
}
use conrt.Buffers.Fixed
use conrt.Buffers.Fixed.{FixedSlab}
use conrt.Buffers.Provided
use conrt.Buffers.Provided.{ProvidedSlab}
use conrt.Buffers.Pools
use conrt.Buffers.Pools.{Pools, fixed_slab, provided_slab}

-- `layout.last().map(|l| l.total)`
unfoldable pub last_total : List SizeClassLayout → Option ℕ
last_total [] = none
last_total (l ∷ []) = some l.total
last_total (l ∷ m ∷ ls) = last_total (m ∷ ls)

-- `.max()` of the alignments.
unfoldable pub widest : List SizeClass → Option ℕ
widest [] = none
widest (c ∷ cs) = elim (widest cs) [
  | none ↦ some (align_of_size c.size)
  | some a ↦ some (if leb (align_of_size c.size) a then a else align_of_size c.size)
]

abbrev pub class_of : SizeClassLayout → SizeClass
class_of l = record { size = l.size; count = l.count }

unfoldable pub provided_slabs :
    (base index : ℕ) → List SizeClassLayout → Outcome (List ProvidedSlab)
unfolding Provided.new
provided_slabs base index [] = done []
provided_slabs base index (l ∷ ls) = do
  s ← Provided.new (base + l.base_offset) (l.count % 2 ^ 16) l.size (index % 2 ^ 8)
  ss ← provided_slabs base (index + 1) ls
  done (s ∷ ss)

-- `base` is where the fixed classes start.
unfoldable pub fixed_slabs : (base index : ℕ) → List SizeClassLayout → Outcome (List FixedSlab)
unfolding Fixed.new
fixed_slabs base index [] = done []
fixed_slabs base index (l ∷ ls) = do
  s ← Fixed.new (base + l.base_offset) l.size l.count (index % 2 ^ 8)
  ss ← fixed_slabs base (index + 1) ls
  done (s ∷ ss)

module _ (accepts : ProvidedSlab → Bool) where
  -- `register_all`, and `unregister_all` with the kernel's other answer.
  unfoldable pub register_all : List ProvidedSlab → Bool
  register_all [] = true
  register_all (s ∷ ss) = if accepts s then register_all ss else false

  unfoldable pub build_pools :
      (slab : Option ℕ) (registered : Bool) (provided_spec fixed_spec : List SizeClass)
      → Outcome Pools
  unfolding layout_classes last_total widest is_power_of_two provided_slabs fixed_slabs register_all
      Pools.new
  build_pools slab registered provided_spec fixed_spec = do
    provided_layout ← layout_classes provided_spec true
    fixed_layout ← layout_classes fixed_spec false
    provided_total ← expect (last_total provided_layout)
    align ← expect (widest (provided_spec ++ fixed_spec))
    assert (is_power_of_two align)
    let fixed_start = div_ceil provided_total align * align
    fixed_total ← expect (last_total fixed_layout)
    let total = fixed_start + fixed_total
    assert (leb total (2 ^ 32 - 1))
    base ← expect slab
    provided ← provided_slabs base 0 provided_layout
    provided_pool ← Pools.new (map class_of provided_layout) provided
    assert (register_all provided)
    fixed ← fixed_slabs (base + fixed_start) 0 fixed_layout
    fixed_pool ← Pools.new (map class_of fixed_layout) fixed
    assert registered
    done (record {
      slab = base;
      slab_layout = total;
      provided_pool = provided_pool;
      fixed_pool = fixed_pool;
    })
