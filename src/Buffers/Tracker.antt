-- ===== src/Buffers/Tracker.antt =====
-- libs/coio-uring/src/buf/tracker.rs: how many views hold each slot of a slab.
-- A count is an `i32`; a failed `assert!` or an index out of bounds is `panicked`.
pub mod Borrows
use conrt.Base.{
  ℕ, Bool, true, false, not, List, Option, none, some, get_elem?, set, replicate, ◌==◌,
  if◌then◌else◌, Outcome, done, panicked, ◌>>=◌, ◌>>◌, assert,
}
use conrt.Base.Words.{ℤ, pos, negsuc, incr_i32, decr_i32, is_zero, is_positive, is_negative}

-- 0 is a free slot, positive counts shared views, negative counts exclusive views.
pub record BorrowTracker : Type 0 where
  pub borrows : List ℤ

unfoldable pub new : ℕ → BorrowTracker
new count = record { borrows = replicate count (pos 0) }

-- `self.borrows[local as usize]`
abbrev pub read : BorrowTracker → ℕ → Outcome ℤ
read t local = elim (get_elem? t.borrows local) [ none ↦ panicked | some b ↦ done b ]

abbrev pub write : BorrowTracker → ℕ → ℤ → BorrowTracker
write t local b = record t { borrows = set t.borrows local b }

unfoldable pub take_shared : BorrowTracker → ℕ → Outcome BorrowTracker
take_shared t local = do
  borrow ← read t local
  assert (is_zero borrow)
  done (write t local (pos 1))

unfoldable pub take_exclusive : BorrowTracker → ℕ → Outcome BorrowTracker
take_exclusive t local = do
  borrow ← read t local
  assert (is_zero borrow)
  done (write t local (negsuc 0))

unfoldable pub clone_shared : BorrowTracker → ℕ → Outcome BorrowTracker
clone_shared t local = do
  borrow ← read t local
  assert (is_positive borrow)
  done (write t local (incr_i32 borrow))

unfoldable pub split_exclusive : BorrowTracker → ℕ → Outcome BorrowTracker
split_exclusive t local = do
  borrow ← read t local
  assert (is_negative borrow)
  done (write t local (decr_i32 borrow))

-- `*borrow == 1` and `*borrow == -1`
abbrev is_one : ℤ → Bool
is_one (pos n) = if n == 1 then true else false
is_one (negsuc n) = false

abbrev is_minus_one : ℤ → Bool
is_minus_one (pos n) = false
is_minus_one (negsuc n) = if n == 0 then true else false

unfoldable pub upgrade : BorrowTracker → ℕ → Outcome BorrowTracker
upgrade t local = do borrow ← read t local; assert (is_one borrow); done (write t local (negsuc 0))

unfoldable pub downgrade : BorrowTracker → ℕ → Outcome BorrowTracker
downgrade t local = do
  borrow ← read t local
  assert (is_minus_one borrow)
  done (write t local (pos 1))

-- The result says whether the slot is free again.
unfoldable pub drop_view : BorrowTracker → Bool → ℕ → Outcome (Bool × BorrowTracker)
drop_view t exclusive local = do
  borrow ← read t local
  assert (not (is_zero borrow))
  assert (if exclusive then is_negative borrow else is_positive borrow)
  let after = if exclusive then incr_i32 borrow else decr_i32 borrow
  done (is_zero after, write t local after)
