-- ===== src/Buffers/Tracker/Borrows.antt =====
-- The borrow counts of tracker.rs against the rule they stand for: a slot is free, shared by some
-- views, or held exclusively by some.
use conrt.Base.{
  ℕ, zero, suc, ◌+◌, ◌<◌, Bool, true, false, Option, none, some, ◌≡◌, arith, get_elem?, Outcome,
  done, panicked, outcome_map, ◌==◌, if◌then◌else◌,
}
use conrt.Base.Words.{ℤ, pos, negsuc, i32_max}
use conrt.Buffers.Tracker
use conrt.Buffers.Tracker.{BorrowTracker}

-- `shared n` and `exclusive n` are held by `n + 1` views.
pub data Slot : Type 0 where
  free : Slot
  shared : ℕ → Slot
  exclusive : ℕ → Slot

pub data Change : Type 0 where
  take_shared take_exclusive clone_shared split_exclusive upgrade downgrade : Change
  drop_view : Bool → Change

-- What the change makes of a slot; `none` for a change that the slot's state does not allow.
abbrev pub change : Change → Slot → Option Slot
change take_shared free = some (shared 0)
change take_exclusive free = some (exclusive 0)
change clone_shared (shared n) = some (shared (n + 1))
change split_exclusive (exclusive n) = some (exclusive (n + 1))
change upgrade (shared zero) = some (exclusive 0)
change downgrade (exclusive zero) = some (shared 0)
change (drop_view true) (exclusive zero) = some free
change (drop_view true) (exclusive (suc n)) = some (exclusive n)
change (drop_view false) (shared zero) = some free
change (drop_view false) (shared (suc n)) = some (shared n)
change _ _ = none

-- The count that stands for a slot's state.
abbrev pub count : Slot → ℤ
count free = pos 0
count (shared n) = pos (suc n)
count (exclusive n) = negsuc n

abbrev pub views : Slot → ℕ
views free = 0
views (shared n) = n + 1
views (exclusive n) = n + 1

-- The tracker's call for a change.
abbrev pub call : Change → BorrowTracker → ℕ → Outcome BorrowTracker
call take_shared t local = Tracker.take_shared t local
call take_exclusive t local = Tracker.take_exclusive t local
call clone_shared t local = Tracker.clone_shared t local
call split_exclusive t local = Tracker.split_exclusive t local
call upgrade t local = Tracker.upgrade t local
call downgrade t local = Tracker.downgrade t local
call (drop_view e) t local = outcome_map (λ r. r.1) (Tracker.drop_view t e local)

-- What is left of the tracker when the slot's state becomes the given one.
abbrev pub outcome : BorrowTracker → ℕ → Option Slot → Outcome BorrowTracker
outcome t local none = panicked
outcome t local (some s) = done (Tracker.write t local (count s))

-- For a slot with fewer views than an `i32` counts, every call does to the slot what the borrowing
-- rule says and nothing to the others, and it panics exactly where the rule forbids the change.
pub call-change :
    (c : Change) (t : BorrowTracker) (local : ℕ) (s : Slot)
    → get_elem? t.borrows local ≡ some (count s)
    → views s < i32_max
    → call c t local ≡ outcome t local (change c s)
unfolding Tracker.take_shared Tracker.take_exclusive Tracker.clone_shared Tracker.split_exclusive
    Tracker.upgrade Tracker.downgrade Tracker.drop_view
call-change take_shared t local s h b = ground arith
call-change take_exclusive t local s h b = ground arith
call-change clone_shared t local s h b = ground arith
call-change split_exclusive t local s h b = ground arith
call-change upgrade t local s h b = ground arith
call-change downgrade t local s h b = ground arith
call-change (drop_view true) t local s h b = ground arith
call-change (drop_view false) t local s h b = ground arith

-- For a slot with fewer views than an `i32` counts, releasing a view, where it does not panic,
-- reports the slot as free exactly when it was the last view.
pub drop_view-last :
    (t t' : BorrowTracker) (e gone : Bool) (local : ℕ) (s : Slot)
    → get_elem? t.borrows local ≡ some (count s)
    → views s < i32_max
    → Tracker.drop_view t e local ≡ done (gone, t')
    → gone ≡ (if views s == 1 then true else false)
unfolding Tracker.drop_view
drop_view-last t t' e gone local s h b d = ground arith
