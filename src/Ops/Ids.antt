-- ===== src/Ops/Ids.antt =====
-- The slot ids of libs/coio-core/src/runtime.rs: 0 for a free slot, and else the op's id with a bit for
-- a cancellation that is under way.
pub mod Pending
use conrt.Base.{ℕ, ◌+◌, ◌-◌, ◌/◌, ◌%◌, ◌^◌, Bool, ◌==◌, if◌then◌else◌}

-- `NonZeroU64`, by the number before it.
pub record NonZero : Type 0 where
  pub before : ℕ

abbrev pub get : NonZero → ℕ
get n = n.before + 1

abbrev pub after : NonZero → NonZero
after n = record { before = n.before + 1 }

-- CANCEL_PENDING, the bit over the op ids, and MAX_OP_ID
abbrev pub cancel_bit : ℕ
cancel_bit = 2 ^ 62

unfoldable pub id_bits : ℕ → ℕ
id_bits id = id % cancel_bit

unfoldable pub is_cancel_pending : ℕ → Bool
is_cancel_pending id = id / cancel_bit % 2 == 1

-- `id |= CANCEL_PENDING`
unfoldable pub set_pending : ℕ → ℕ
unfolding is_cancel_pending
set_pending id = if is_cancel_pending id then id else id + cancel_bit

-- `id &= !CANCEL_PENDING`
unfoldable pub clear_pending : ℕ → ℕ
unfolding is_cancel_pending
clear_pending id = if is_cancel_pending id then id - cancel_bit else id

abbrev pub is_free : ℕ → Bool
is_free id = id == 0

-- FREE_NONE
abbrev pub free_none : ℕ
free_none = 2 ^ 32 - 1
