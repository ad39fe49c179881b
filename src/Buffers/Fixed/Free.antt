-- ===== src/Buffers/Fixed/Free.antt =====
-- The free stack of fixed.rs and the borrow counts always agree.
use conrt.Base.{
  ℕ, zero, suc, ◌+◌, Bool, true, false, List, [], ◌∷◌, Option, none, some, ◌≡◌, refl, arith,
  get_elem?, set, ◌==◌, if◌then◌else◌, Outcome, done, panicked,
}
use conrt.Base.Words.{ℤ, pos, negsuc, is_zero}
use conrt.Buffers.Tracker.{BorrowTracker}
use conrt.Buffers.Fixed.{FixedSlab, acquire_slot, acquire_slot_shared, drop_view}

-- How often a slot is on the stack.
abbrev pub occurrences : ℕ → List ℕ → ℕ
occurrences i [] = 0
occurrences i (x ∷ xs) = (if x == i then 1 else 0) + occurrences i xs

-- How often it should be there: once if it is a slot with no view.
abbrev pub unborrowed : Option ℤ → ℕ
unborrowed none = 0
unborrowed (some b) = if is_zero b then 1 else 0

-- The stack holds each slot that no view holds, once, and nothing else.
abbrev pub IsValid : FixedSlab → Type 0
IsValid s = (i : ℕ) → occurrences i s.free ≡ unborrowed (get_elem? s.tracker.borrows i)

get_elem?-set :
    (xs : List ℤ) (i j : ℕ) (v : ℤ) {w : ℤ}
    → get_elem? xs i ≡ some w
    → get_elem? (set xs i v) j ≡ (if i == j then some v else get_elem? xs j)
get_elem?-set [] i j v h = cc
get_elem?-set (x ∷ xs) zero zero v h = ground arith
get_elem?-set (x ∷ xs) zero (suc j) v h = ground arith
get_elem?-set (x ∷ xs) (suc i) zero v h = ground arith
get_elem?-set (x ∷ xs) (suc i) (suc j) v h = ground (arith, get_elem?-set xs i j v h)

-- A slot was popped: it had no view before and has the count `held` now, no other count changed,
-- and it came off the top of the stack.
pub record Popped (s : FixedSlab) (held : ℤ) (local : ℕ) (s' : FixedSlab) : Type 0 where
  pub was_free : get_elem? s.tracker.borrows local ≡ some (pos 0)
  pub now_held : s'.tracker.borrows ≡ set s.tracker.borrows local held
  pub rest : s.free ≡ local ∷ s'.free
  pub valid : IsValid s'

abbrev pub Acquires : FixedSlab → ℤ → Outcome (Option ℕ × FixedSlab) → Type 0
Acquires s held panicked = ⊥
Acquires s held (done (none, s')) = (s.free ≡ []) × (s' ≡ s)
Acquires s held (done (some local, s')) = Popped s held local s'

-- The top of the stack has no view.
top_free :
    (s : FixedSlab) (local : ℕ) (rest : List ℕ)
    → IsValid s
    → s.free ≡ local ∷ rest
    → get_elem? s.tracker.borrows local ≡ some (pos 0)
top_free s local rest v e = ground (arith, v local)

popped_valid :
    (s : FixedSlab) (held : ℤ) (local : ℕ) (rest : List ℕ)
    → IsValid s
    → is_zero held ≡ false
    → s.free ≡ local ∷ rest
    → (i : ℕ) → occurrences i rest ≡ unborrowed (get_elem? (set s.tracker.borrows local held) i)
popped_valid s held local rest v z e i =
    ground (arith, v i, get_elem?-set s.tracker.borrows local i held (top_free s local rest v e))

module _ (size class slab_base : ℕ) (tracker : BorrowTracker) where
  slab : List ℕ → FixedSlab
  slab free = record {
    size = size;
    class = class;
    slab_base = slab_base;
    free = free;
    tracker = tracker;
  }

  exclusive_from :
      (free : List ℕ)
      → IsValid (slab free)
      → Acquires (slab free) (negsuc 0) (acquire_slot (slab free))
  unfolding slab acquire_slot
  exclusive_from [] v = (refl, refl)
  exclusive_from (x ∷ xs) v =
      let e = top_free (slab (x ∷ xs)) x xs v refl in
      rw e (record {
        was_free = e;
        now_held = refl;
        rest = refl;
        valid = popped_valid (slab (x ∷ xs)) (negsuc 0) x xs v refl refl;
      })

  shared_from :
      (free : List ℕ)
      → IsValid (slab free)
      → Acquires (slab free) (pos 1) (acquire_slot_shared (slab free))
  unfolding slab acquire_slot_shared
  shared_from [] v = (refl, refl)
  shared_from (x ∷ xs) v =
      let e = top_free (slab (x ∷ xs)) x xs v refl in
      rw e (record {
        was_free = e;
        now_held = refl;
        rest = refl;
        valid = popped_valid (slab (x ∷ xs)) (pos 1) x xs v refl refl;
      })

-- Acquiring a slot never panics in a valid slab. With a free slot it hands out one that no view
-- holds, marks it exclusive and leaves the slab valid; with none it returns none and changes
-- nothing.
pub acquire_slot-Acquires : (s : FixedSlab) → IsValid s → Acquires s (negsuc 0) (acquire_slot s)
unfolding slab
acquire_slot-Acquires s v = exclusive_from s.size s.class s.slab_base s.tracker s.free v

-- Acquiring a shared slot never panics in a valid slab. With a free slot it hands out one that no
-- view holds, marks it with one shared view and leaves the slab valid; with none it returns none
-- and changes nothing.
pub acquire_slot_shared-Acquires :
    (s : FixedSlab) → IsValid s → Acquires s (pos 1) (acquire_slot_shared s)
unfolding slab
acquire_slot_shared-Acquires s v = shared_from s.size s.class s.slab_base s.tracker s.free v

-- Setting the count of a borrowed slot keeps the slab valid if the stack gains the slot exactly
-- when the new count is 0.
pub set_valid :
    (s : FixedSlab) (local : ℕ) (b b' : ℤ)
    → IsValid s
    → get_elem? s.tracker.borrows local ≡ some b
    → is_zero b ≡ false
    → (i : ℕ)
    → occurrences i (if is_zero b' then local ∷ s.free else s.free)
      ≡ unborrowed (get_elem? (set s.tracker.borrows local b') i)
set_valid s local b b' v h nz i = ground (arith, v i, get_elem?-set s.tracker.borrows local i b' h)

dropped :
    (s s' : FixedSlab) (e : Bool) (local : ℕ) (b : Option ℤ)
    → IsValid s
    → get_elem? s.tracker.borrows local ≡ b
    → drop_view s e local ≡ done s'
    → IsValid s'
unfolding drop_view
dropped s s' e local none v h d i = ground arith
dropped s s' true local (some (pos n)) v h d i = ground arith
dropped s s' false local (some (pos zero)) v h d i = ground arith
dropped s s' false local (some (pos (suc n))) v h d i =
    ground (arith, set_valid s local (pos (suc n)) (pos n) v h refl i)
dropped s s' false local (some (negsuc n)) v h d i = ground arith
dropped s s' true local (some (negsuc zero)) v h d i =
    ground (arith, set_valid s local (negsuc zero) (pos 0) v h refl i)
dropped s s' true local (some (negsuc (suc n))) v h d i =
    ground (arith, set_valid s local (negsuc (suc n)) (negsuc n) v h refl i)

-- Releasing a view of a valid slab, where it does not panic, leaves the slab valid.
pub drop_view-IsValid :
    (s s' : FixedSlab) (e : Bool) (local : ℕ)
    → IsValid s
    → drop_view s e local ≡ done s'
    → IsValid s'
drop_view-IsValid s s' e local v h = dropped s s' e local _ v refl h
