-- ===== src/Buffers/Fixed/Runs.antt =====
-- Runs of a fixed slab: acquiring slots, changing their views and dropping them.
use conrt.Base.{
  ℕ, zero, suc, ◌+◌, ◌<◌, Bool, true, false, List, [], ◌∷◌, Option, none, some, ◌≡◌, refl, sym, ap,
  subst, ◌∙◌, arith, get_elem?, set, replicate, if◌then◌else◌, Outcome, done, panicked, ◌>>=◌,
  outcome_map, >>=-eq-done, done-injective, inl, inr, Bool-cases,
}
use conrt.Base.Words.{ℤ, pos, negsuc, is_zero, incr_i32, decr_i32}
use conrt.Buffers.Tracker
use conrt.Buffers.Tracker.{BorrowTracker}
use conrt.Buffers.Tracker.Borrows
use conrt.Buffers.Tracker.Borrows.{
  Change, clone_shared, split_exclusive, upgrade, downgrade, take_shared, take_exclusive, call,
}
use conrt.Buffers.Fixed.{FixedSlab, new, slots, acquire_slot, acquire_slot_shared, drop_view}
use conrt.Buffers.Fixed.Free.{
  IsValid, occurrences, unborrowed, Acquires, acquire_slot-Acquires, acquire_slot_shared-Acquires,
  set_valid, drop_view-IsValid,
}

-- Cloning, splitting, upgrading and downgrading views never frees a slot.
abbrev pub held_change : Change → Bool
held_change clone_shared = true
held_change split_exclusive = true
held_change upgrade = true
held_change downgrade = true
held_change _ = false

-- The call replaces one non-zero count by another.
abbrev pub Moves : BorrowTracker → ℕ → BorrowTracker → Type 0
Moves t local t' =
    (b : ℤ) × (b' : ℤ) × (get_elem? t.borrows local ≡ some b)
    × (is_zero b ≡ false)
    × (is_zero b' ≡ false)
    × (t'.borrows ≡ set t.borrows local b')

pub moves :
    (c : Change) (t t' : BorrowTracker) (local : ℕ) (b : Option ℤ)
    → held_change c ≡ true
    → get_elem? t.borrows local ≡ b
    → call c t local ≡ done t'
    → Moves t local t'
unfolding Tracker.clone_shared Tracker.split_exclusive Tracker.upgrade Tracker.downgrade
moves take_shared t t' local b p h d = cc
moves take_exclusive t t' local b p h d = cc
moves (Borrows.drop_view e) t t' local b p h d = cc
moves clone_shared t t' local none p h d = absurd (ground arith)
moves clone_shared t t' local (some (pos zero)) p h d = absurd (ground arith)
moves clone_shared t t' local (some (pos (suc n))) p h d =
    (pos (suc n), incr_i32 (pos (suc n)), h, refl, ground arith, ground arith)
moves clone_shared t t' local (some (negsuc n)) p h d = absurd (ground arith)
moves split_exclusive t t' local none p h d = absurd (ground arith)
moves split_exclusive t t' local (some (pos n)) p h d = absurd (ground arith)
moves split_exclusive t t' local (some (negsuc n)) p h d =
    (negsuc n, decr_i32 (negsuc n), h, refl, ground arith, ground arith)
moves upgrade t t' local none p h d = absurd (ground arith)
moves upgrade t t' local (some (negsuc n)) p h d = absurd (ground arith)
moves upgrade t t' local (some (pos zero)) p h d = absurd (ground arith)
moves upgrade t t' local (some (pos (suc n))) p h d =
    (pos (suc n), negsuc 0, h, refl, refl, ground arith)
moves downgrade t t' local none p h d = absurd (ground arith)
moves downgrade t t' local (some (pos n)) p h d = absurd (ground arith)
moves downgrade t t' local (some (negsuc n)) p h d = (negsuc n, pos 1, h, refl, refl, ground arith)

-- What the runtime does to a slab: hand out a slot, change a view it has handed out, drop one.
pub data SlabOp : Type 0 where
  acquire acquire_shared : SlabOp
  change_view : Change → ℕ → SlabOp
  release : Bool → ℕ → SlabOp

abbrev pub apply : SlabOp → FixedSlab → Outcome FixedSlab
apply acquire s = outcome_map (λ r. r.1) (acquire_slot s)
apply acquire_shared s = outcome_map (λ r. r.1) (acquire_slot_shared s)
apply (change_view c local) s =
    if held_change c
    then outcome_map (λ t. record s { tracker = t }) (call c s.tracker local)
    else panicked
apply (release e local) s = drop_view s e local

abbrev pub run : FixedSlab → List SlabOp → Outcome FixedSlab
run s [] = done s
run s (o ∷ os) = apply o s >>= λ s'. run s' os

Acquires-IsValid :
    (s s' : FixedSlab) (held : ℤ) (r : Outcome (Option ℕ × FixedSlab))
    → IsValid s
    → Acquires s held r
    → outcome_map (λ p. p.1) r ≡ done s'
    → IsValid s'
Acquires-IsValid s s' held panicked v a d = cc
Acquires-IsValid s s' held (done (none, t)) v a d =
    subst IsValid {x = s} {y = s'} (sym a.1 ∙ done-injective d) v
Acquires-IsValid s s' held (done (some local, t)) v a d =
    subst IsValid {x = t} {y = s'} (done-injective d) a.valid

moved-IsValid :
    (s : FixedSlab) (local : ℕ) (t : BorrowTracker)
    → IsValid s
    → Moves s.tracker local t
    → IsValid (record s { tracker = t })
moved-IsValid s local t v (b, b', h, nz, nz', e) i = ground (arith, set_valid s local b b' v h nz i)

changed-IsValid :
    (c : Change) (local : ℕ) (s s' : FixedSlab)
    → IsValid s
    → held_change c ≡ true
    → outcome_map (λ t. record s { tracker = t }) (call c s.tracker local) ≡ done s'
    → (r : Outcome BorrowTracker) → call c s.tracker local ≡ r
    → IsValid s'
changed-IsValid c local s s' v p d panicked e = absurd (cc)
changed-IsValid c local s s' v p d (done t) e =
    subst IsValid {x = record s { tracker = t }} {y = s'}
      (done-injective (subst (λ r. outcome_map (λ t. record s { tracker = t }) r ≡ done s') e d))
      (moved-IsValid s local t v (moves c s.tracker t local _ p refl e))

apply-IsValid : (o : SlabOp) (s s' : FixedSlab) → IsValid s → apply o s ≡ done s' → IsValid s'
apply-IsValid acquire s s' v d = Acquires-IsValid s s' _ _ v (acquire_slot-Acquires s v) d
apply-IsValid acquire_shared s s' v d =
    Acquires-IsValid s s' _ _ v (acquire_slot_shared-Acquires s v) d
apply-IsValid (change_view c local) s s' v d = elim (Bool-cases (held_change c)) [
  | inl p ↦ changed-IsValid c local s s' v p (rw p at d) _ refl
  | inr p ↦ absurd (ground arith)
]
apply-IsValid (release e local) s s' v d = drop_view-IsValid s s' e local v d

slots_below : (n first i : ℕ) → i < first → occurrences i (slots n first) ≡ 0
unfolding slots
slots_below zero first i h = refl
slots_below (suc n) first i h = ground (arith, slots_below n (first + 1) i)

pub slots_from :
    (n first i : ℕ)
    → occurrences (first + i) (slots n first) ≡ unborrowed (get_elem? (replicate n (pos 0)) i)
unfolding slots
slots_from zero first i = refl
slots_from (suc n) first zero = ground (arith, slots_below n (first + 1) (first + 0))
slots_from (suc n) first (suc i) =
    let e : first + suc i ≡ first + 1 + i = omega arith in
    ground (arith, slots_from n (first + 1) i, ap (λ k. occurrences k (slots n (first + 1))) e)

pub new-IsValid :
    (base size count class : ℕ) (s : FixedSlab) → new base size count class ≡ done s → IsValid s
unfolding new slots Tracker.new
new-IsValid base size count class s d i = ground (arith, slots_from count 0 i)

run-IsValid : (os : List SlabOp) (s s' : FixedSlab) → IsValid s → run s os ≡ done s' → IsValid s'
run-IsValid [] s s' v d = subst IsValid {x = s} {y = s'} (done-injective d) v
run-IsValid (o ∷ os) s s' v d =
    let (t, e, f) = >>=-eq-done (apply o s) _ d in run-IsValid os t s' (apply-IsValid o s t v e) f

-- From a fresh slab, any run of acquisitions, view changes and releases that does not panic ends
-- with the stack holding each slot that no view holds exactly once, and no other slot.
pub run-new-IsValid :
    (base size count class : ℕ) (s s' : FixedSlab) (os : List SlabOp)
    → new base size count class ≡ done s
    → run s os ≡ done s'
    → IsValid s'
run-new-IsValid base size count class s s' os n r =
    run-IsValid os s s' (new-IsValid base size count class s n) r
