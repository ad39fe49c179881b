-- ===== src/Buffers/Classes/Bid.antt =====
-- The packed `bid` of classes.rs, and the choice of a class by `class_for`.
use mathlib.Core.Option
use conrt.Base.{
  ℕ, suc, ◌+◌, ◌≤◌, ◌<◌, ◌^◌, ◌%◌, Bool, true, false, List, [], ◌∷◌, Option, none, some, ◌≡◌, refl,
  inl, inr, ap, arith, length, get_elem?, get_elem?-lt, All, take, leb, leb→le, Bool-cases,
}
use conrt.Buffers.Classes.{
  SizeClass, pack_bid, bid_provided, bid_class, bid_local, position_from, class_for,
}

-- Unpacking a packed id gives back the pool flag, and the class and the slot cut down to their 7
-- and 24 bits; the id is below 2^32.
pub bid-pack_bid :
    (provided : Bool) (class local : ℕ)
    → (bid_provided (pack_bid provided class local) ≡ provided)
      × (bid_class (pack_bid provided class local) ≡ class % 2 ^ 7)
      × (bid_local (pack_bid provided class local) ≡ local % 2 ^ 24)
      × (pack_bid provided class local < 2 ^ 32)
unfolding pack_bid bid_provided bid_class bid_local
bid-pack_bid true class local = ground arith
bid-pack_bid false class local = ground arith

-- Packing what a `u32` id unpacks to gives back the id.
pub pack_bid-bid :
    (bid : ℕ) → bid < 2 ^ 32 → pack_bid (bid_provided bid) (bid_class bid) (bid_local bid) ≡ bid
unfolding pack_bid bid_provided bid_class bid_local
pack_bid-bid bid h = ground arith

-- What the result of a search that starts at index `k` says of the classes.
abbrev pub Fits : List SizeClass → ℕ → ℕ → Option ℕ → Type 0
Fits classes size k none = All (λ d. d.size < size) classes
Fits classes size k (some i) =
    (j : ℕ) × (c : SizeClass) × (i ≡ k + j)
    × (get_elem? classes j ≡ some c)
    × (size ≤ c.size)
    × All (λ d. d.size < size) (take j classes)

Fits-cons :
    (c : SizeClass) (cs : List SizeClass) (size k : ℕ) (r : Option ℕ)
    → c.size < size
    → Fits cs size (k + 1) r
    → Fits (c ∷ cs) size k r
Fits-cons c cs size k none h f = (h, f)
Fits-cons c cs size k (some i) h (j, d, e, g, le, rest) = (suc j, d, omega arith, g, le, (h, rest))

position_from-Fits :
    (classes : List SizeClass) (size k : ℕ) → Fits classes size k (position_from classes size k)
unfolding position_from
position_from-Fits [] size k = tt
position_from-Fits (c ∷ cs) size k = elim (Bool-cases (leb size c.size)) [
  | inl e ↦ rw e (0, c, omega arith, refl, leb→le size c.size e, tt)
  | inr e ↦ rw e (Fits-cons c cs size k _ (ground arith) (position_from-Fits cs size (k + 1)))
]

Fits-bound :
    (classes : List SizeClass) (size : ℕ) (r : Option ℕ)
    → length classes ≤ 128
    → Fits classes size 0 r
    → Option.map (λ i. i % 2 ^ 8) r ≡ r
Fits-bound classes size none h f = refl
Fits-bound classes size (some i) h (j, c, e, g, le, rest) =
    ap some (omega (arith, get_elem?-lt classes j g))

-- In a table of at most 128 classes, `class_for` finds the first class whose slots hold `size`
-- bytes: that class is large enough and every class before it is too small. It finds none only when
-- every class is too small.
pub class_for-Fits :
    (classes : List SizeClass) (size : ℕ)
    → length classes ≤ 128
    → Fits classes size 0 (class_for classes size)
unfolding class_for
class_for-Fits classes size h =
    let f = position_from-Fits classes size 0 in
    rw (Fits-bound classes size (position_from classes size 0) h f) f
