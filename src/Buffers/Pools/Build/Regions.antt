-- ===== src/Buffers/Pools/Build/Regions.antt =====
-- Where the slabs of the pools that `build_pools` returns lie in its allocation.
use native.Mathlib.Nat.{mul-le-mul_right, mul_comm}
use conrt.Base.{
  ℕ, ◌+◌, ◌*◌, ◌%◌, ◌^◌, ◌≤◌, List, [], ◌∷◌, ◌++◌, map, some, ◌≡◌, refl, sym, ap, subst, arith,
  length, length-replicate, ltb, leb, ◌∙◌, ◌==◌, Outcome, done, panicked, ◌>>=◌, assert-eq-done,
  >>=-eq-done, done-injective,
}
use conrt.Buffers.Classes.{SizeClass, SizeClassLayout, is_power_of_two}
use conrt.Buffers.Classes.Layout.{LaidOut, Chain}
use conrt.Base.Words.{pos}
use conrt.Buffers.Tracker
use conrt.Buffers.Fixed
use conrt.Buffers.Fixed.{FixedSlab}
use conrt.Buffers.Provided
use conrt.Buffers.Provided.{ProvidedSlab}
use conrt.Buffers.Pools
use conrt.Buffers.Pools.{Slab, Pools, Pool, fixed_slab, provided_slab, check_sizes}
use conrt.Buffers.Pools.Build.{last_total, provided_slabs, fixed_slabs}

-- The memory of a slab: as many slots as its tracker counts.
pub record Region : Type 0 where
  pub start : ℕ
  pub slot_size : ℕ
  pub slots : ℕ

abbrev pub region : {S : Type 0} → Slab S → S → Region
region i s = record {
  start = i.base s;
  slot_size = i.slot_size s;
  slots = length (i.tracker s).borrows;
}

abbrev pub end_of : Region → ℕ
end_of r = r.start + r.slots * r.slot_size

abbrev pub regions : Pools → List Region
regions p =
    map (region provided_slab) p.provided_pool.slabs ++ map (region fixed_slab) p.fixed_pool.slabs

-- The regions follow one another between two addresses.
abbrev pub Laid : (low high : ℕ) → List Region → Type 0
Laid low high [] = low ≤ high
Laid low high (r ∷ rs) = (low ≤ r.start) × Laid (end_of r) high rs

pub Laid-append :
    (xs ys : List Region) (low m m' high : ℕ)
    → Laid low m xs
    → m ≤ m'
    → Laid m' high ys
    → Laid low high (xs ++ ys)
Laid-append [] [] low m m' high a le b = omega arith
Laid-append [] (y ∷ ys) low m m' high a le b = (omega arith, b.1)
Laid-append (x ∷ xs) ys low m m' high a le b =
    (a.0, Laid-append xs ys (end_of x) m m' high a.1 le b)

-- Each region is that of its class, in the part of the allocation that starts at `base`.
abbrev pub Placed : ℕ → List SizeClassLayout → List Region → Type 0
Placed base [] [] = Unit {0}
Placed base (l ∷ ls) (r ∷ rs) =
    (r.start ≡ base + l.base_offset)
    × (r.slots ≤ l.count)
    × (r.slot_size ≡ l.size)
    × Placed base ls rs
Placed base _ _ = ⊥

end-le :
    (base low : ℕ) (l : SizeClassLayout) (r : Region)
    → LaidOut low l
    → r.start ≡ base + l.base_offset
    → r.slots ≤ l.count
    → r.slot_size ≡ l.size
    → end_of r ≤ base + l.total
end-le base low l r o s c e = omega (
  arith,
  o.extent,
  s,
  ap (λ (k : ℕ). r.slots * k) e,
  mul-le-mul_right l.size c,
  mul_comm l.size l.count,
)

pub Laid-weaken :
    (rs : List Region) (low low' high : ℕ) → low ≤ low' → Laid low' high rs → Laid low high rs
Laid-weaken [] low low' high le a = omega arith
Laid-weaken (r ∷ rs) low low' high le a = (omega arith, a.1)

pub Placed-Laid :
    (ls : List SizeClassLayout) (rs : List Region) (base low total : ℕ)
    → Chain low ls
    → last_total ls ≡ some total
    → Placed base ls rs
    → Laid (base + low) (base + total) rs
unfolding last_total
Placed-Laid [] rs base low total c e p = cc
Placed-Laid (l ∷ ls) [] base low total c e p = elim p [ ]
Placed-Laid (l ∷ []) (r ∷ []) base low total (o, c) e (s, n, z, p) =
    (omega (arith, o.after), ground (arith, end-le base low l r o s n z))
Placed-Laid (l ∷ []) (r ∷ r' ∷ rs) base low total c e p = elim p.3 [ ]
Placed-Laid (l ∷ m ∷ ls) (r ∷ rs) base low total (o, c) e (s, n, z, p) = (
  omega (arith, o.after),
  Laid-weaken rs (end_of r) (base + l.total) (base + total) (end-le base low l r o s n z)
      (Placed-Laid (m ∷ ls) rs base l.total total c e p),
)

-- What a new slab says of its memory.
abbrev pub Made : {S : Type 0} → Slab S → (base count size : ℕ) → S → Type 0
Made i base count size s =
    (i.base s ≡ base) × (length (i.tracker s).borrows ≡ count) × (i.slot_size s ≡ size)

new_provided :
    (base count size class : ℕ) (s : ProvidedSlab)
    → Provided.new base count size class ≡ done s
    → Made provided_slab base count size s
unfolding Provided.new Tracker.new
new_provided base count size class s h =
    let (_, h1) = assert-eq-done (is_power_of_two count) _ h in
    let (_, h2) = assert-eq-done (ltb 0 count) _ h1 in
    let (_, h3) = assert-eq-done (leb count 32768) _ h2 in
    let (_, h4) = assert-eq-done (ltb 0 size) _ h3 in
    let (_, h5) = assert-eq-done (ltb class 128) _ h4 in
    let e = done-injective h5 in
    (
      ap ProvidedSlab.slab_base (sym e),
      ap (λ (x : ProvidedSlab). length x.tracker.borrows) (sym e) ∙ length-replicate count (pos 0),
      ap ProvidedSlab.size (sym e),
    )

pub new_fixed :
    (base size count class : ℕ) (s : FixedSlab)
    → Fixed.new base size count class ≡ done s
    → Made fixed_slab base count size s
unfolding Fixed.new Tracker.new
new_fixed base size count class s h = ground (arith, length-replicate count (pos 0))

-- A slab and the slabs after it.
pub cons-done :
    {S : Type 0} (m : Outcome S) (r : Outcome (List S)) (ss : List S)
    → (m >>= λ s. r >>= λ rest. done (s ∷ rest)) ≡ done ss
    → (s : S) × (rest : List S) × (m ≡ done s) × (r ≡ done rest) × (s ∷ rest ≡ ss)
cons-done (done s) (done rest) ss h = (s, rest, refl, refl, done-injective h)
cons-done (done s) panicked ss h = cc
cons-done panicked r ss h = cc

pub provided_slabs-Placed :
    (base index : ℕ) (ls : List SizeClassLayout) (ss : List ProvidedSlab)
    → provided_slabs base index ls ≡ done ss
    → Placed base ls (map (region provided_slab) ss)
unfolding provided_slabs
provided_slabs-Placed base index [] [] h = tt
provided_slabs-Placed base index [] (s ∷ ss) h = cc
provided_slabs-Placed base index (l ∷ ls) ss h =
    let (s, rest, made, e, eq) = cons-done _ (provided_slabs base (index + 1) ls) ss h in
    let (b, c, z) =
      new_provided (base + l.base_offset) (l.count % 2 ^ 16) l.size (index % 2 ^ 8) s made in
    subst (λ xs. Placed base (l ∷ ls) (map (region provided_slab) xs)) eq
      (b, omega (arith, c), z, provided_slabs-Placed base (index + 1) ls rest e)

pub fixed_slabs-Placed :
    (base index : ℕ) (ls : List SizeClassLayout) (ss : List FixedSlab)
    → fixed_slabs base index ls ≡ done ss
    → Placed base ls (map (region fixed_slab) ss)
unfolding fixed_slabs
fixed_slabs-Placed base index [] [] h = tt
fixed_slabs-Placed base index [] (s ∷ ss) h = cc
fixed_slabs-Placed base index (l ∷ ls) ss h =
    let (s, rest, made, e, eq) = cons-done _ (fixed_slabs base (index + 1) ls) ss h in
    let (b, c, z) = new_fixed (base + l.base_offset) l.size l.count (index % 2 ^ 8) s made in
    subst (λ xs. Placed base (l ∷ ls) (map (region fixed_slab) xs)) eq
      (b, omega (arith, c), z, fixed_slabs-Placed base (index + 1) ls rest e)

-- A pool keeps the slabs that it is given.
pub new-slabs :
    {S : Type 0} ⦃i : Slab S⦄ (cs : List SizeClass) (ss : List S) (p : Pool S)
    → Pools.new cs ss ≡ done p
    → (p.classes ≡ cs) × (p.slabs ≡ ss)
unfolding Pools.new
new-slabs cs ss p h =
    let (_, h1) = assert-eq-done (length cs == length ss) _ h in
    let (_, _, h2) =
      >>=-eq-done (check_sizes cs ss) (λ _. done (record { classes = cs; slabs = ss })) h1 in
    (ap Pool.classes (sym (done-injective h2)), ap Pool.slabs (sym (done-injective h2)))
