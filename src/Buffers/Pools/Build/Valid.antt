-- ===== src/Buffers/Pools/Build/Valid.antt =====
-- The pools that `build_pools` returns are well formed.
use conrt.Base.{
  ℕ, zero, suc, ◌+◌, ◌%◌, ◌^◌, ◌<◌, Bool, List, [], ◌∷◌, map, Option, some, ◌≡◌, refl, sym, ap,
  subst, ◌∙◌, arith, length, get_elem?, get_elem?-lt, done, done-injective,
}
use conrt.Buffers.Classes.{SizeClass, SizeClassLayout}
use conrt.Buffers.Classes.Counts.{Counted}
use conrt.Buffers.Fixed
use conrt.Buffers.Fixed.{FixedSlab}
use conrt.Buffers.Fixed.Free
use conrt.Buffers.Fixed.Runs.{new-IsValid}
use conrt.Buffers.Provided.{ProvidedSlab}
use conrt.Buffers.Pools.{Pools, fixed_slab}
use conrt.Buffers.Pools.Build.{class_of, fixed_slabs, build_pools}
use conrt.Buffers.Pools.Build.Regions.{new_fixed, cons-done}
use conrt.Buffers.Pools.Build.Inside.{Parts, build_pools-Parts}
use conrt.Buffers.Alloc.Bytes.{IsValid}

-- What is known of the slab of a class.
pub record Fresh (l : SizeClassLayout) (index : ℕ) (s : FixedSlab) : Type 0 where
  pub size : s.size ≡ l.size
  pub class : s.class ≡ index % 2 ^ 8
  pub slots : length s.tracker.borrows ≡ l.count
  pub valid : Free.IsValid s

new-class :
    (base size count class : ℕ) (s : FixedSlab)
    → Fixed.new base size count class ≡ done s
    → s.class ≡ class
unfolding Fixed.new
new-class base size count class s h = ground arith

-- The slab of class `k`, when the first class has the number `index`.
fixed_slabs-Fresh :
    (base index : ℕ) (ls : List SizeClassLayout) (ss : List FixedSlab) (k : ℕ) (s : FixedSlab)
    → fixed_slabs base index ls ≡ done ss
    → get_elem? ss k ≡ some s
    → (l : SizeClassLayout) × (get_elem? ls k ≡ some l) × Fresh l (index + k) s
unfolding fixed_slabs
fixed_slabs-Fresh base index [] [] k s h found = cc
fixed_slabs-Fresh base index [] (x ∷ ss) k s h found = cc
fixed_slabs-Fresh base index (l ∷ ls) ss zero s h found =
    let (x, rest, made, e, eq) = cons-done _ (fixed_slabs base (index + 1) ls) ss h in
    let same : x ≡ s = let q : some x ≡ some s = ap (λ xs. get_elem? xs 0) eq ∙ found in cc in
    let (b, c, z) = new_fixed (base + l.base_offset) l.size l.count (index % 2 ^ 8) x made in
    (
      l,
      refl,
      subst (Fresh l (index + 0)) same (record {
        size = z;
        class =
            omega (arith, new-class (base + l.base_offset) l.size l.count (index % 2 ^ 8) x made);
        slots = c;
        valid = new-IsValid (base + l.base_offset) l.size l.count (index % 2 ^ 8) x made;
      }),
    )
fixed_slabs-Fresh base index (l ∷ ls) ss (suc k) s h found =
    let (x, rest, made, e, eq) = cons-done _ (fixed_slabs base (index + 1) ls) ss h in
    let (l', at, fresh) =
      fixed_slabs-Fresh base (index + 1) ls rest k s e
        (ap (λ xs. get_elem? xs (suc k)) eq ∙ found) in
    (l', at, subst (λ i. Fresh l' i s) {x = index + 1 + k} {y = index + suc k} (omega arith) fresh)

length-fixed_slabs :
    (base index : ℕ) (ls : List SizeClassLayout) (ss : List FixedSlab)
    → fixed_slabs base index ls ≡ done ss
    → length ss ≡ length ls
unfolding fixed_slabs
length-fixed_slabs base index [] ss h = ap length (sym (done-injective h))
length-fixed_slabs base index (l ∷ ls) ss h =
    let (x, rest, made, e, eq) = cons-done _ (fixed_slabs base (index + 1) ls) ss h in
    ap length (sym eq) ∙ ap suc (length-fixed_slabs base (index + 1) ls rest e)

get_elem?-Counted :
    (ls : List SizeClassLayout) (k : ℕ) (l : SizeClassLayout)
    → Counted ls
    → get_elem? ls k ≡ some l
    → l.count < 2 ^ 24
get_elem?-Counted [] k l c e = cc
get_elem?-Counted (x ∷ ls) zero l c e =
    let same : x ≡ l = cc in subst (λ y. y.count < 2 ^ 24) same c.0
get_elem?-Counted (x ∷ ls) (suc k) l c e = get_elem?-Counted ls k l c.1 e

length-map : {A B : Type 0} (f : A → B) (xs : List A) → length (map f xs) ≡ length xs
length-map f [] = refl
length-map f (x ∷ xs) = ap suc (length-map f xs)

-- The class of a layout, found by its number.
size-class_of :
    (ls : List SizeClassLayout) (k : ℕ) (l : SizeClassLayout) (c : SizeClass)
    → get_elem? ls k ≡ some l
    → get_elem? (map class_of ls) k ≡ some c
    → c.size ≡ l.size
size-class_of [] k l c e f = cc
size-class_of (x ∷ ls) zero l c e f =
    let same : x ≡ l = cc in
    let made : class_of x ≡ c = cc in ap SizeClass.size (sym made) ∙ ap SizeClassLayout.size same
size-class_of (x ∷ ls) (suc k) l c e f = size-class_of ls k l c e f

Parts-IsValid : (p : Pools) → Parts p → IsValid p
Parts-IsValid p b =
    let fresh = λ (k : ℕ) (s : FixedSlab).
      fixed_slabs-Fresh (p.slab + b.fixed_start) 0 b.fixed_layout p.fixed_pool.slabs k s
        b.fixed_made in
    let same =
      length-fixed_slabs (p.slab + b.fixed_start) 0 b.fixed_layout p.fixed_pool.slabs
        b.fixed_made in
    let classes = ap length b.fixed_classes ∙ length-map class_of b.fixed_layout in
    record {
      few = omega (arith, classes, b.fixed_few);
      same_length = same ∙ sym classes;
      same_size = λ k c s at found.
          let (l, here, f) = fresh k s found in
          size-class_of b.fixed_layout k l c here
            (ap (λ cs. get_elem? cs k) (sym b.fixed_classes) ∙ at)
          ∙ sym f.size;
      class_index = λ k s found.
          let (l, here, f) = fresh k s found in
          let bound = get_elem?-lt b.fixed_layout k here in
          let small = b.fixed_few in omega (arith, f.class, bound, small);
      counts = λ k s found.
          let (l, here, f) = fresh k s found in
          let few = get_elem?-Counted b.fixed_layout k l b.fixed_counts here in
          omega (arith, f.slots, few);
      stacks = λ k s found. (fresh k s found).2.valid;
    }

-- The pools that `build_pools` returns are well formed: their fixed pool has at most 128 classes, a
-- slab for each with the slot size of its class and its own number, fewer than 2^24 slots in each,
-- and stacks that hold exactly the slots that no view holds.
pub build_pools-IsValid :
    (accepts : ProvidedSlab → Bool) (slab : Option ℕ) (registered : Bool)
    (provided_spec fixed_spec : List SizeClass) (p : Pools)
    → build_pools accepts slab registered provided_spec fixed_spec ≡ done p
    → IsValid p
build_pools-IsValid accepts slab registered ps fs p h =
    Parts-IsValid p (build_pools-Parts accepts slab registered ps fs p h)
