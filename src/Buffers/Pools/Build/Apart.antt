-- ===== src/Buffers/Pools/Build/Apart.antt =====
-- No two buffers of the pools share a byte.
use conrt.Base.{
  ℕ, zero, suc, ◌+◌, ◌^◌, ◌≤◌, ◌<◌, ◌≢◌, Bool, true, false, List, [], ◌∷◌, ◌++◌, map, Option, some,
  ◌≡◌, refl, sym, ap, subst, ◌∙◌, ◌⊎◌, inl, inr, arith, length, get_elem?, if◌then◌else◌, done,
  >>=-elim, vec_get, vec_get-eq-done, done-injective, Bool-cases,
}
use conrt.Buffers.Classes.{SizeClass, bid_provided, bid_class, bid_local}
use conrt.Buffers.Classes.Bid.{pack_bid-bid}
use conrt.Buffers.Pools.{
  Pools, Pool, Slab, SlabCall, slot_ptr, fixed_slab, provided_slab, with_slab, slab_mut,
}
use conrt.Buffers.Pools.Build.{build_pools}
use conrt.Buffers.Pools.Build.Regions.{Region, region, end_of, regions}
use conrt.Buffers.Pools.Build.Slots.{
  slot_start, slot_end, slot-inside, slots-apart, Laid-region, Laid-before,
}
use conrt.Buffers.Provided.{ProvidedSlab}
use conrt.Buffers.Pools.Build.Inside.{Parts, build_pools-Parts, Parts-Laid}

-- What a view's calls find at a `bid`: the slab's memory, and the address of the slot in it.
abbrev pub find_slot : SlabCall (Region × ℕ)
find_slot S i local s = done ((region i s, slot_ptr i s local), s)

-- Where the slab of a `bid` stands among the regions.
abbrev place : Pools → ℕ → ℕ
place p bid =
    if bid_provided bid then bid_class bid else length p.provided_pool.slabs + bid_class bid

get_elem?-map :
    {A B : Type 0} (f : A → B) (xs : List A) (i : ℕ) {a : A}
    → get_elem? xs i ≡ some a
    → get_elem? (map f xs) i ≡ some (f a)
get_elem?-map f [] i e = cc
get_elem?-map f (x ∷ xs) zero e = cc
get_elem?-map f (x ∷ xs) (suc i) e = get_elem?-map f xs i e

get_elem?-append_left :
    {A : Type 0} (xs ys : List A) (i : ℕ) {a : A}
    → get_elem? xs i ≡ some a
    → get_elem? (xs ++ ys) i ≡ some a
get_elem?-append_left [] ys i e = cc
get_elem?-append_left (x ∷ xs) ys zero e = e
get_elem?-append_left (x ∷ xs) ys (suc i) e = get_elem?-append_left xs ys i e

get_elem?-append_right :
    {A B : Type 0} (f : B → A) (xs : List B) (ys : List A) (i : ℕ)
    → get_elem? (map f xs ++ ys) (length xs + i) ≡ get_elem? ys i
get_elem?-append_right f [] ys i = ap (get_elem? ys) {x = 0 + i} {y = i} (omega arith)
get_elem?-append_right f (x ∷ xs) ys i =
    ap (get_elem? (f x ∷ map f xs ++ ys)) {x = suc (length xs) + i} {y = suc (length xs + i)}
      (omega arith)
    ∙ get_elem?-append_right f xs ys i

-- The slab that a call reads is in its pool.
slab_mut-region :
    {S : Type 0} (i : Slab S) (class local : ℕ) (pool pool' : Pool S) (slot : Region × ℕ)
    → slab_mut (find_slot S i local) class pool ≡ done (slot, pool')
    → (get_elem? (map (region i) pool.slabs) class ≡ some slot.0)
      × (slot.1 ≡ slot_start slot.0 local)
unfolding slab_mut
slab_mut-region i class local pool pool' slot h =
    >>=-elim (vec_get pool.slabs class) _ h λ s found h1.
      let e : (region i s, slot_ptr i s local) ≡ slot = ap (λ q. q.0) (done-injective h1) in
      subst
        (λ x.
          (get_elem? (map (region i) pool.slabs) class ≡ some x.0) × (x.1 ≡ slot_start x.0 local))
        e (get_elem?-map (region i) pool.slabs class (vec_get-eq-done pool.slabs class found), refl)

-- A `bid` that names a slab of its pool, and what the slab is.
abbrev Found : Pools → ℕ → Region → Type 0
Found p bid r =
    (get_elem? (regions p) (place p bid) ≡ some r)
    × (bid_provided bid ≡ true → bid_class bid < length p.provided_pool.slabs)

get_elem?-map_lt :
    {A B : Type 0} (f : A → B) (xs : List A) (i : ℕ) {b : B}
    → get_elem? (map f xs) i ≡ some b
    → i < length xs
get_elem?-map_lt f [] i e = cc
get_elem?-map_lt f (x ∷ xs) zero e = omega arith
get_elem?-map_lt f (x ∷ xs) (suc i) e = omega (arith, get_elem?-map_lt f xs i e)

with_slab-Found :
    (p q : Pools) (bid : ℕ) (slot : Region × ℕ)
    → with_slab bid find_slot p ≡ done (slot, q)
    → Found p bid slot.0 × (slot.1 ≡ slot_start slot.0 (bid_local bid))
unfolding with_slab
with_slab-Found p q bid slot h = elim (Bool-cases (bid_provided bid)) [
  | inl e ↦
      >>=-elim
        (slab_mut (find_slot _ provided_slab (bid_local bid)) (bid_class bid) p.provided_pool)
        (λ x. done (x.0, record p { provided_pool = x.1 })) (rw e at h)
        λ x found h1.
          let at =
            slab_mut-region provided_slab (bid_class bid) (bid_local bid) p.provided_pool x.1 x.0
              found in
          let same : x.0 ≡ slot = ap (λ y. y.0) (done-injective h1) in
          rw e (
            (
              get_elem?-append_left (map (region provided_slab) p.provided_pool.slabs)
                  (map (region fixed_slab) p.fixed_pool.slabs) (bid_class bid)
                  (at.0 ∙ ap some (ap (λ y. y.0) same)),
              λ _.
                  get_elem?-map_lt (region provided_slab) p.provided_pool.slabs (bid_class bid)
                    at.0,
            ),
            subst (λ y. y.1 ≡ slot_start y.0 (bid_local bid)) same at.1,
          )
  | inr e ↦
      >>=-elim (slab_mut (find_slot _ fixed_slab (bid_local bid)) (bid_class bid) p.fixed_pool)
        (λ x. done (x.0, record p { fixed_pool = x.1 })) (rw e at h)
        λ x found h1.
          let at =
            slab_mut-region fixed_slab (bid_class bid) (bid_local bid) p.fixed_pool x.1 x.0 found in
          let same : x.0 ≡ slot = ap (λ y. y.0) (done-injective h1) in
          rw e (
            (
              get_elem?-append_right (region provided_slab) p.provided_pool.slabs
                    (map (region fixed_slab) p.fixed_pool.slabs) (bid_class bid)
                  ∙ at.0
                  ∙ ap some (ap (λ y. y.0) same),
              λ t. absurd (cc),
            ),
            subst (λ y. y.1 ≡ slot_start y.0 (bid_local bid)) same at.1,
          )
]

-- A place tells the pool and the class.
place_parts :
    (n : ℕ) (k k' : Bool) (c c' : ℕ)
    → (k ≡ true → c < n)
    → (k' ≡ true → c' < n)
    → (if k then c else n + c) ≡ (if k' then c' else n + c')
    → (k ≡ k') × (c ≡ c')
place_parts n true true c c' b b' e = (refl, e)
place_parts n true false c c' b b' e = absurd (omega (arith, b refl))
place_parts n false true c c' b b' e = absurd (omega (arith, b' refl))
place_parts n false false c c' b b' e = (refl, omega arith)

-- Two ids with one place and one local id are one id.
same_place :
    (p : Pools) (bid bid' : ℕ) (r r' : Region)
    → bid < 2 ^ 32
    → bid' < 2 ^ 32
    → Found p bid r
    → Found p bid' r'
    → place p bid ≡ place p bid'
    → bid_local bid ≡ bid_local bid'
    → bid ≡ bid'
same_place p bid bid' r r' b b' f f' e l =
    let (k, c) =
      place_parts (length p.provided_pool.slabs) (bid_provided bid) (bid_provided bid')
        (bid_class bid) (bid_class bid') f.1 f'.1 e in
    sym (pack_bid-bid bid b) ∙ rw k (rw c (rw l refl)) ∙ pack_bid-bid bid' b'

same_elem :
    (xs : List Region) (k k' : ℕ) (r r' : Region)
    → k ≡ k'
    → get_elem? xs k ≡ some r
    → get_elem? xs k' ≡ some r'
    → r ≡ r'
same_elem xs k k' r r' e f f' = let q : some r ≡ some r' = sym f ∙ ap (get_elem? xs) e ∙ f' in cc

compare_ℕ : (a b : ℕ) → (a < b) ⊎ ((a ≡ b) ⊎ (b < a))
compare_ℕ a b = ground arith

-- The two slots have no byte in common.
abbrev Apart : Region → ℕ → Region → ℕ → Type 0
Apart r i q j = (slot_end r i ≤ slot_start q j) ⊎ (slot_end q j ≤ slot_start r i)

before-Apart :
    (r q : Region) (i j : ℕ) → i < r.slots → end_of r ≤ q.start → slot_end r i ≤ slot_start q j
before-Apart r q i j b le = omega (arith, slot-inside r i b)

module _ (p : Pools) (parts : Parts p) (bid bid' : ℕ) (r r' : Region) where
  Found-Apart :
      Found p bid r
      → Found p bid' r'
      → bid < 2 ^ 32
      → bid' < 2 ^ 32
      → bid ≢ bid'
      → bid_local bid < r.slots
      → bid_local bid' < r'.slots
      → Apart r (bid_local bid) r' (bid_local bid')
  Found-Apart f f' b b' ne l l' =
      let laid = Parts-Laid p parts in
      elim (compare_ℕ (place p bid) (place p bid')) [
        | inl lt ↦ inl (
            before-Apart r r' (bid_local bid) (bid_local bid') l
              (Laid-before (regions p) _ _ _ _ r r' laid lt f.0 f'.0))
        | inr (inr gt) ↦ inr (
            before-Apart r' r (bid_local bid') (bid_local bid) l'
              (Laid-before (regions p) _ _ _ _ r' r laid gt f'.0 f.0))
        | inr (inl e) ↦
            let q = same_elem (regions p) (place p bid) (place p bid') r r' e f.0 f'.0 in
            subst (λ x. Apart r (bid_local bid) x (bid_local bid')) q
              (elim (compare_ℕ (bid_local bid) (bid_local bid')) [
                | inl lt ↦ inl (slots-apart r (bid_local bid) (bid_local bid') lt)
                | inr (inr gt) ↦ inr (slots-apart r (bid_local bid') (bid_local bid) gt)
                | inr (inl l≡) ↦ absurd (ne (same_place p bid bid' r r' b b' f f' e l≡))
              ])
      ]

-- In the pools that `build_pools` returns, take the addresses that `slot_ptr` gives for two
-- different buffer ids, which are below 2^32 and whose local ids are those of slots. The first slot
-- lies inside the allocation, and the two have no byte in common, whichever pool and class each is
-- in.
pub with_slab-build_pools :
    (accepts : ProvidedSlab → Bool) (slab : Option ℕ) (registered : Bool)
    (provided_spec fixed_spec : List SizeClass) (p q q' : Pools) (bid bid' ptr ptr' : ℕ)
    (r r' : Region)
    → build_pools accepts slab registered provided_spec fixed_spec ≡ done p
    → with_slab bid find_slot p ≡ done ((r, ptr), q)
    → with_slab bid' find_slot p ≡ done ((r', ptr'), q')
    → bid < 2 ^ 32
    → bid' < 2 ^ 32
    → bid ≢ bid'
    → bid_local bid < r.slots
    → bid_local bid' < r'.slots
    → (p.slab ≤ ptr)
      × (ptr + r.slot_size ≤ p.slab + p.slab_layout)
      × ((ptr + r.slot_size ≤ ptr') ⊎ (ptr' + r'.slot_size ≤ ptr))
with_slab-build_pools accepts slab registered ps fs p q q' bid bid' ptr ptr' r r' h w w' b b' ne l
      l' =
    let parts = build_pools-Parts accepts slab registered ps fs p h in
    let f = with_slab-Found p q bid (r, ptr) w in
    let f' = with_slab-Found p q' bid' (r', ptr') w' in
    let inside =
      Laid-region (regions p) p.slab (p.slab + p.slab_layout) (place p bid) r (Parts-Laid p parts)
        f.0.0 in
    let apart = Found-Apart p parts bid bid' r r' f.0 f'.0 b b' ne l l' in
    (
      omega (arith, inside.0, f.1),
      omega (arith, inside.1, f.1, slot-inside r (bid_local bid) l),
      grind (arith, apart, f.1, f'.1),
    )
