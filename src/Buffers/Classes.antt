-- ===== src/Buffers/Classes.antt =====
-- libs/coio-uring/src/classes.rs: the size classes, the packed `bid`, and the layout of a slab.
-- A `u32` is a number below 2^32. The fields that `pack_bid` joins by `|` do not overlap, so `|`
-- is a sum, and a mask of k ones is the remainder by 2^k.
pub mod Bid
pub mod Counts
pub mod Layout
use conrt.Base.{
  ℕ, zero, suc, ◌+◌, ◌-◌, ◌*◌, ◌/◌, ◌%◌, ◌^◌, min, Bool, true, false, not, ◌&&◌, List, [], ◌∷◌,
  Option, none, some, length, ltb, leb, ◌==◌, if◌then◌else◌, Outcome, done, panicked, ◌>>=◌, ◌>>◌,
  assert,
}
use conrt.Base.Words.{shr, low_bits}
use mathlib.Core.Option

pub record SizeClass : Type 0 where
  pub size : ℕ
  pub count : ℕ

abbrev pub bid_class_shift : ℕ
bid_class_shift = 24

abbrev pub bid_provided_flag : ℕ
bid_provided_flag = 2 ^ 31

-- BID_LOCAL_MASK
abbrev pub bid_local_mask : ℕ
bid_local_mask = 2 ^ 24 - 1

abbrev pub buffer_max_align : ℕ
buffer_max_align = 4096

unfoldable pub pack_bid : Bool → ℕ → ℕ → ℕ
pack_bid provided class local =
    (if provided then bid_provided_flag else 0)
    + low_bits class 7 * 2 ^ bid_class_shift
    + low_bits local 24

unfoldable pub bid_provided : ℕ → Bool
bid_provided bid = shr bid 31 % 2 == 1

unfoldable pub bid_class : ℕ → ℕ
bid_class bid = low_bits (shr bid bid_class_shift) 7

unfoldable pub bid_local : ℕ → ℕ
bid_local bid = low_bits bid 24

-- `classes.iter().position(..)`
unfoldable pub position_from : List SizeClass → ℕ → ℕ → Option ℕ
position_from [] size index = none
position_from (c ∷ cs) size index =
    if leb size c.size then some index else position_from cs size (index + 1)

-- The index is cast to a `u8`.
unfoldable pub class_for : List SizeClass → ℕ → Option ℕ
unfolding position_from
class_for classes size = Option.map (λ index. index % 2 ^ 8) (position_from classes size 0)

pub record SizeClassLayout : Type 0 where
  pub size : ℕ
  pub count : ℕ
  pub base_offset : ℕ
  pub total : ℕ

-- `is_power_of_two` of a number below 2^fuel.
unfoldable pub is_power_of : ℕ → ℕ → Bool
is_power_of zero n = false
is_power_of (suc fuel) n =
    let rest = is_power_of fuel (n / 2) in
    if n == 1 then true else if n % 2 == 0 then rest else false

unfoldable pub is_power_of_two : ℕ → Bool
unfolding is_power_of
is_power_of_two n = is_power_of 32 n

-- `sort_by_key(|class| class.size)`, a stable sort.
unfoldable pub insert_by_size : SizeClass → List SizeClass → List SizeClass
insert_by_size c [] = c ∷ []
insert_by_size c (d ∷ ds) = if leb c.size d.size then c ∷ d ∷ ds else d ∷ insert_by_size c ds

unfoldable pub sort_by_size : List SizeClass → List SizeClass
unfolding insert_by_size
sort_by_size [] = []
sort_by_size (c ∷ cs) = insert_by_size c (sort_by_size cs)

-- `for pair in sorted.windows(2) { assert!(pair[0].size < pair[1].size) }`
unfoldable pub strictly_increasing : List SizeClass → Bool
strictly_increasing [] = true
strictly_increasing (c ∷ []) = true
strictly_increasing (c ∷ d ∷ ds) = ltb c.size d.size && strictly_increasing (d ∷ ds)

abbrev pub is_empty {ℓ} : {A : Type ℓ} → List A → Bool
is_empty [] = true
is_empty (x ∷ xs) = false

abbrev pub div_ceil : ℕ → ℕ → ℕ
div_ceil a b = (a + b - 1) / b

-- The alignment of a class: its slot size, at most one page.
abbrev pub align_of_size : ℕ → ℕ
align_of_size size = min size buffer_max_align

unfoldable pub layout_at : ℕ → SizeClass → SizeClassLayout
layout_at base c =
    let base_offset = div_ceil base (align_of_size c.size) * align_of_size c.size in
    record {
      size = c.size;
      count = c.count;
      base_offset = base_offset % 2 ^ 32;
      total = base_offset + c.size * c.count;
    }

-- What the loop asserts of a class before it places it.
unfoldable pub check_class : Bool → SizeClass → Outcome (Unit {0})
unfolding is_power_of_two
check_class power_of_two_counts c = do
  assert (ltb 0 c.size)
  assert (is_power_of_two c.size)
  assert (ltb 0 c.count)
  assert (leb c.count bid_local_mask)
  assert (if power_of_two_counts then is_power_of_two c.count && leb c.count 32768 else true)

-- The loop over the sorted classes. `base` and each `total` stay below 2^32 and a class holds less
-- than 2^32 * 2^24 bytes, so none of the `u64` operations wraps.
unfoldable pub layout_from : Bool → ℕ → List SizeClass → Outcome (List SizeClassLayout)
unfolding check_class layout_at
layout_from power_of_two_counts base [] = done []
layout_from power_of_two_counts base (c ∷ cs) = do
  check_class power_of_two_counts c
  let l = layout_at base c
  assert (leb l.total (2 ^ 32 - 1))
  rest ← layout_from power_of_two_counts l.total cs
  done (l ∷ rest)

unfoldable pub layout_classes : List SizeClass → Bool → Outcome (List SizeClassLayout)
unfolding layout_from sort_by_size strictly_increasing
layout_classes classes power_of_two_counts = do
  assert (not (is_empty classes))
  assert (leb (length classes) 128)
  let sorted = sort_by_size classes
  assert (strictly_increasing sorted)
  layout_from power_of_two_counts 0 sorted

-- DEFAULT_SIZE_CLASSES
abbrev pub default_size_classes : List SizeClass
default_size_classes =
    record { size = 64; count = 1024 }
    ∷ record { size = 256; count = 1024 }
    ∷ record { size = 1024; count = 256 }
    ∷ record { size = 4096; count = 64 }
    ∷ record { size = 16384; count = 8 }
    ∷ record { size = 65536; count = 1 }
    ∷ []
