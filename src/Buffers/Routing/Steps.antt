-- ===== src/Buffers/Routing/Steps.antt =====
-- A call through the thread's pools, by what it does to the one slab that it reaches.
use conrt.Base.{
  ℕ, zero, suc, ◌^◌, ◌<◌, true, false, List, [], ◌∷◌, some, ◌≡◌, refl, ap, ◌∙◌, arith, get_elem?,
  set, Outcome, done, >>=-done, assert-done, vec_get-done, expect, >>=-elim, assert-elim,
  expect-eq-done, done-injective, sym,
}
use conrt.Buffers.Classes.{pack_bid, bid_class, bid_local}
use conrt.Buffers.Classes.Bid.{bid-pack_bid}
use conrt.Buffers.Fixed.{FixedSlab}
use conrt.Buffers.Pools.{Pools, Pool, SlabCall, fixed_slab, slab_mut, with_slab}
use conrt.Buffers.Routing.{Thread, with_pools, active_gen, active_gen_matches, state}

-- A runtime is running on the thread and its pools are published.
pub record Runs (t : Thread) (p : Pools) : Type 0 where
  pub running : t.running ≡ true
  pub published : t.current_pools ≡ some p

pub Runs-active_gen : {t : Thread} {p : Pools} → Runs t p → active_gen t ≡ some t.generation
unfolding active_gen
Runs-active_gen r = rw r.running

pub Runs-active_gen_matches :
    {t : Thread} {p : Pools} → Runs t p → active_gen_matches t t.generation ≡ true
unfolding active_gen_matches
Runs-active_gen_matches {t} r = rw (Runs-active_gen r) (ground arith)

pub set-get_elem? :
    {A : Type 0} (xs : List A) (i : ℕ) {a : A} → get_elem? xs i ≡ some a → set xs i a ≡ xs
set-get_elem? [] i e = refl
set-get_elem? (x ∷ xs) zero e = cc
set-get_elem? (x ∷ xs) (suc i) e = ap (◌∷◌ x) (set-get_elem? xs i e)

pub set-set : {A : Type 0} (xs : List A) (i : ℕ) (a b : A) → set (set xs i a) i b ≡ set xs i b
set-set [] i a b = refl
set-set (x ∷ xs) zero a b = refl
set-set (x ∷ xs) (suc i) a b = ap (◌∷◌ x) (set-set xs i a b)

pub get_elem?-set_self :
    {A : Type 0} (xs : List A) (i : ℕ) {a : A} (b : A)
    → get_elem? xs i ≡ some a
    → get_elem? (set xs i b) i ≡ some b
get_elem?-set_self [] i b e = cc
get_elem?-set_self (x ∷ xs) zero b e = refl
get_elem?-set_self (x ∷ xs) (suc i) b e = get_elem?-set_self xs i b e

-- The thread with other pools.
abbrev pub with_current : Pools → Thread → Thread
with_current p t = record t { current_pools = some p }

pub with_pools-done :
    {R : Type 0} (call : Pools → Outcome (R × Pools)) (t : Thread) (p p' : Pools) (r : R)
    → Runs t p
    → call p ≡ done (r, p')
    → with_pools call t ≡ done (r, with_current p' t)
unfolding with_pools
with_pools-done call t p p' r runs e =
    assert-done t.running _ runs.running
      (>>=-done (expect t.current_pools) _ (ap expect runs.published) (>>=-done (call p) _ e refl))

pub slab_mut-done :
    {S R : Type 0} (call : S → Outcome (R × S)) (class : ℕ) (pool : Pool S) (s s' : S) (r : R)
    → get_elem? pool.slabs class ≡ some s
    → call s ≡ done (r, s')
    → slab_mut call class pool ≡ done (r, record pool { slabs = set pool.slabs class s' })
unfolding slab_mut
slab_mut-done call class pool s s' r found e =
    >>=-done _ _ (vec_get-done pool.slabs class found) (>>=-done (call s) _ e refl)

-- The pools with another slab of the fixed pool.
abbrev pub with_fixed : ℕ → FixedSlab → Pools → Pools
with_fixed class s p = record p {
  fixed_pool = record p.fixed_pool { slabs = set p.fixed_pool.slabs class s };
}

-- A call on the slot of a fixed `bid` reaches slot `local` of slab `class`.
pub with_slab-fixed :
    {R : Type 0} (call : SlabCall R) (class local : ℕ) (p : Pools) (s s' : FixedSlab) (r : R)
    → class < 2 ^ 7
    → local < 2 ^ 24
    → get_elem? p.fixed_pool.slabs class ≡ some s
    → call FixedSlab fixed_slab local s ≡ done (r, s')
    → with_slab (pack_bid false class local) call p ≡ done (r, with_fixed class s' p)
unfolding with_slab
with_slab-fixed call class local p s s' r c l found e =
    let (provided, class_e, local_e, _) = bid-pack_bid false class local in
    let ce : bid_class (pack_bid false class local) ≡ class = omega (arith, class_e) in
    let le : bid_local (pack_bid false class local) ≡ local = omega (arith, local_e) in
    rw provided (
      rw ce (
        rw le (
          >>=-done _ _
            (slab_mut-done (call FixedSlab fixed_slab local) class p.fixed_pool s s' r found e)
            refl)))

-- The same for a thread's call that returns nothing.
pub on_slot-fixed :
    (call : SlabCall (Unit {0})) (class local : ℕ) (t : Thread) (p : Pools) (s s' : FixedSlab)
    → Runs t p
    → class < 2 ^ 7
    → local < 2 ^ 24
    → get_elem? p.fixed_pool.slabs class ≡ some s
    → call FixedSlab fixed_slab local s ≡ done (tt, s')
    → state (with_pools (with_slab (pack_bid false class local) call) t)
      ≡ done (with_current (with_fixed class s' p) t)
on_slot-fixed call class local t p s s' runs c l found e =
    >>=-done (with_pools (with_slab (pack_bid false class local) call) t) (λ r. done r.1)
      (with_pools-done (with_slab (pack_bid false class local) call) t p (with_fixed class s' p) tt
        runs (with_slab-fixed call class local p s s' tt c l found e))
      refl

-- What a call through the pools needs, where it does not panic.
pub with_pools-inversion :
    {R : Type 0} (call : Pools → Outcome (R × Pools)) (t t' : Thread) (r : R)
    → with_pools call t ≡ done (r, t')
    → (p : Pools) × (p' : Pools) × Runs t p × (call p ≡ done (r, p')) × (with_current p' t ≡ t')
unfolding with_pools
with_pools-inversion call t t' r h = assert-elim t.running _ h λ running h1.
    >>=-elim (expect t.current_pools) _ h1 λ p published h2. >>=-elim (call p) _ h2 λ x called h3. (
      p,
      x.1,
      record { running = running; published = expect-eq-done t.current_pools published },
      called ∙ ap (λ y. done (y, x.1)) (ap (λ z. z.0) (done-injective h3)),
      ap (λ z. z.1) (done-injective h3),
    )

pub Runs-unique : {t : Thread} {p p' : Pools} → Runs t p → Runs t p' → p ≡ p'
Runs-unique {p = p} {p' = p'} a b = let e : some p ≡ some p' = sym a.published ∙ b.published in cc
