-- ===== src/Buffers/Provided/Counts.antt =====
-- How many slots no view holds, and how often a slot is in a queue.
use conrt.Base.{
  ℕ, zero, suc, ◌+◌, ◌<◌, ◌≤◌, false, List, [], ◌∷◌, ◌++◌, some, ◌≡◌, arith, length, get_elem?, set,
  ◌==◌, if◌then◌else◌,
}
use conrt.Base.Words.{ℤ, is_zero}
use conrt.Buffers.Fixed.Free.{occurrences, unborrowed}

-- The number of slots that no view holds.
abbrev pub free_slots : List ℤ → ℕ
free_slots [] = 0
free_slots (b ∷ bs) = (if is_zero b then 1 else 0) + free_slots bs

pub free_slots-set :
    (bs : List ℤ) (i : ℕ) (b v : ℤ)
    → get_elem? bs i ≡ some b
    → free_slots (set bs i v) + unborrowed (some b) ≡ free_slots bs + unborrowed (some v)
free_slots-set [] i b v g = cc
free_slots-set (x ∷ xs) zero b v g = ground (arith, g)
free_slots-set (x ∷ xs) (suc i) b v g = omega (arith, free_slots-set xs i b v g)

free_slots-le : (bs : List ℤ) → free_slots bs ≤ length bs
free_slots-le [] = omega arith
free_slots-le (b ∷ bs) = ground (arith, free_slots-le bs)

-- A slot that a view holds is not among them.
pub free_slots-lt :
    (bs : List ℤ) (i : ℕ) (b : ℤ)
    → get_elem? bs i ≡ some b
    → is_zero b ≡ false
    → free_slots bs < length bs
free_slots-lt [] i b g nz = cc
free_slots-lt (x ∷ xs) zero b g nz = ground (arith, g, nz, free_slots-le xs)
free_slots-lt (x ∷ xs) (suc i) b g nz = ground (arith, free_slots-lt xs i b g nz)

pub occurrences-append :
    (i x : ℕ) (xs : List ℕ)
    → occurrences i (xs ++ x ∷ []) ≡ occurrences i xs + (if x == i then 1 else 0)
occurrences-append i x [] = omega arith
occurrences-append i x (y ∷ ys) = omega (arith, occurrences-append i x ys)
