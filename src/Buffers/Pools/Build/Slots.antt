-- ===== src/Buffers/Pools/Build/Slots.antt =====
-- Slots of regions that follow one another: each lies between the two ends, and no two overlap.
use native.Mathlib.Nat.{mul-le-mul_right}
use conrt.Base.{ℕ, zero, suc, ◌+◌, ◌*◌, ◌≤◌, ◌<◌, List, [], ◌∷◌, some, ◌≡◌, subst, arith, get_elem?}
use conrt.Buffers.Pools.{fixed_slab, provided_slab}
use conrt.Buffers.Pools.Build.Regions.{Region, end_of, Laid}

-- Slot `i` of a region, and the address after it.
abbrev pub slot_start : Region → ℕ → ℕ
slot_start r i = r.start + i * r.slot_size

abbrev pub slot_end : Region → ℕ → ℕ
slot_end r i = slot_start r i + r.slot_size

pub slot-inside : (r : Region) (i : ℕ) → i < r.slots → slot_end r i ≤ end_of r
slot-inside r i h = grind (arith, mul-le-mul_right {m = suc i} {n = r.slots} r.slot_size h)

pub slots-apart : (r : Region) (i j : ℕ) → i < j → slot_end r i ≤ slot_start r j
slots-apart r i j h = grind (arith, mul-le-mul_right {m = suc i} {n = j} r.slot_size h)

Laid-low-le : (rs : List Region) (low high : ℕ) → Laid low high rs → low ≤ high
Laid-low-le [] low high h = h
Laid-low-le (r ∷ rs) low high h =
    let rest = Laid-low-le rs (end_of r) high h.1 in omega (arith, h.0, rest)

-- A region lies between the two addresses, and after every region before it.
pub Laid-region :
    (rs : List Region) (low high k : ℕ) (r : Region)
    → Laid low high rs
    → get_elem? rs k ≡ some r
    → (low ≤ r.start) × (end_of r ≤ high)
Laid-region [] low high k r h e = cc
Laid-region (q ∷ rs) low high zero r h e =
    let e' : q ≡ r = cc in
    subst (λ x. (low ≤ x.start) × (end_of x ≤ high)) e' (h.0, Laid-low-le rs (end_of q) high h.1)
Laid-region (q ∷ rs) low high (suc k) r h e =
    let rest = Laid-region rs (end_of q) high k r h.1 e in (omega (arith, h.0, rest.0), rest.1)

pub Laid-before :
    (rs : List Region) (low high j k : ℕ) (q r : Region)
    → Laid low high rs
    → j < k
    → get_elem? rs j ≡ some q
    → get_elem? rs k ≡ some r
    → end_of q ≤ r.start
Laid-before [] low high j k q r h lt e f = cc
Laid-before (x ∷ rs) low high j zero q r h lt e f = absurd (omega arith)
Laid-before (x ∷ rs) low high zero (suc k) q r h lt e f =
    let e' : x ≡ q = cc in
    subst (λ y. end_of y ≤ r.start) e' (Laid-region rs (end_of x) high k r h.1 f).0
Laid-before (x ∷ rs) low high (suc j) (suc k) q r h lt e f =
    Laid-before rs (end_of x) high j k q r h.1 (omega arith) e f
