-- ===== src/Buffers/Slices/Address.antt =====
-- Changing the borrow count of a slot leaves every view of it at its address.
use conrt.Base.{
  ℕ, ◌+◌, ◌*◌, true, false, ◌≡◌, refl, sym, ap, subst, ◌∙◌, inl, inr, some, get_elem?, set, Outcome,
  done, ◌>>=◌, >>=-elim, >>=-done, assert-elim, assert-done, vec_get, vec_get-eq-done,
  done-injective, Bool-cases,
}
use conrt.Buffers.Classes.{bid_provided, bid_class, bid_local}
use conrt.Buffers.Tracker.{BorrowTracker}
use conrt.Buffers.Fixed.{FixedSlab}
use conrt.Buffers.Provided.{ProvidedSlab}
use conrt.Buffers.Pools.{
  Slab, Pool, Pools, SlabCall, slot_ptr, slab_mut, with_slab, fixed_slab, provided_slab,
}
use conrt.Buffers.Routing.{
  Thread, active_gen, active_gen_matches, resolve_ptr, with_pools, borrowing, state,
}
use conrt.Buffers.Routing.Steps.{
  get_elem?-set_self, set-get_elem?, slab_mut-done, with_pools-inversion, Runs-unique, with_current,
  with_pools-done,
}

-- A write of the tracker does not move the slab.
pub record Stays {S : Type 0} (i : Slab S) : Type 0 where
  pub base : (t : BorrowTracker) (s : S) → i.base (i.set_tracker t s) ≡ i.base s
  pub slot_size : (t : BorrowTracker) (s : S) → i.slot_size (i.set_tracker t s) ≡ i.slot_size s

fixed-Stays : Stays fixed_slab
fixed-Stays = record { base = λ t s. refl; slot_size = λ t s. refl }

provided-Stays : Stays provided_slab
provided-Stays = record { base = λ t s. refl; slot_size = λ t s. refl }

-- The call of `resolve_ptr`.
abbrev pub slot_address : SlabCall ℕ
slot_address S i local s = done (slot_ptr i s local, s)

module _ {S : Type 0} (i : Slab S) (class local : ℕ) where
  found-address :
      (pool q : Pool S) (addr : ℕ)
      → slab_mut (slot_address S i local) class pool ≡ done (addr, q)
      → (s : S) × (get_elem? pool.slabs class ≡ some s) × (slot_ptr i s local ≡ addr)
  unfolding slab_mut
  found-address pool q addr a =
      >>=-elim (vec_get pool.slabs class) _ a
        λ s found a1. (s, vec_get-eq-done pool.slabs class found, ap (λ r. r.0) (done-injective a1))

  found-moved :
      (change : BorrowTracker → ℕ → Outcome BorrowTracker) (pool pool' : Pool S)
      → slab_mut (borrowing change S i local) class pool ≡ done (tt, pool')
      → (s : S) × (tracker : BorrowTracker) × (get_elem? pool.slabs class ≡ some s)
        × (record pool { slabs = set pool.slabs class (i.set_tracker tracker s) } ≡ pool')
  unfolding slab_mut
  found-moved change pool pool' c = >>=-elim (vec_get pool.slabs class) _ c λ s found c1.
      >>=-elim (borrowing change S i local s) _ c1 λ r called c2.
        >>=-elim (change (i.tracker s) local) _ called λ tracker changed c3.
          let e : i.set_tracker tracker s ≡ r.1 = ap (λ x. x.1) (done-injective c3) in
          (
            s,
            tracker,
            vec_get-eq-done pool.slabs class found,
            ap (λ x. record pool { slabs = set pool.slabs class x }) e
                ∙ ap (λ x. x.1) (done-injective c2),
          )

  address-done :
      (pool : Pool S) (s : S)
      → get_elem? pool.slabs class ≡ some s
      → slab_mut (slot_address S i local) class pool ≡ done (slot_ptr i s local, pool)
  address-done pool s found =
      slab_mut-done (slot_address S i local) class pool s s (slot_ptr i s local) found refl
      ∙ ap (λ xs. done (slot_ptr i s local, record pool { slabs = xs }))
          (set-get_elem? pool.slabs class found)

  slab_mut-address :
      Stays i
      → (change : BorrowTracker → ℕ → Outcome BorrowTracker) (pool pool' q : Pool S) (addr : ℕ)
      → slab_mut (borrowing change S i local) class pool ≡ done (tt, pool')
      → slab_mut (slot_address S i local) class pool ≡ done (addr, q)
      → slab_mut (slot_address S i local) class pool' ≡ done (addr, pool')
  slab_mut-address stays change pool pool' q addr c a =
      let (s, tracker, found, moved) = found-moved change pool pool' c in
      let (s', found', at) = found-address pool q addr a in
      let same : s ≡ s' = let e : some s ≡ some s' = sym found ∙ found' in cc in
      let here : get_elem? pool'.slabs class ≡ some (i.set_tracker tracker s) =
        ap (λ x. get_elem? (Pool.slabs x) class) (sym moved)
        ∙ get_elem?-set_self pool.slabs class (i.set_tracker tracker s) found in
      let kept : slot_ptr i (i.set_tracker tracker s) local ≡ addr =
        ap (λ b. b + local * i.slot_size (i.set_tracker tracker s)) (stays.base tracker s)
        ∙ ap (λ z. i.base s + local * z) (stays.slot_size tracker s)
        ∙ ap (λ x. slot_ptr i x local) same
        ∙ at in
      address-done pool' (i.set_tracker tracker s) here ∙ ap (λ x. done (x, pool')) kept

module _ {R : Type 0} (call : SlabCall R) (bid : ℕ) (p : Pools) where
  abbrev in_provided : Outcome (R × Pool ProvidedSlab) → Outcome (R × Pools)
  in_provided r = r >>= λ x. done (x.0, record p { provided_pool = x.1 })

  abbrev in_fixed : Outcome (R × Pool FixedSlab) → Outcome (R × Pools)
  in_fixed r = r >>= λ x. done (x.0, record p { fixed_pool = x.1 })

  with_slab-provided :
      bid_provided bid ≡ true
      → with_slab bid call p
        ≡ in_provided (
            slab_mut
              (call ProvidedSlab provided_slab (bid_local bid))
              (bid_class bid)
              p.provided_pool)
  unfolding with_slab
  with_slab-provided e = rw e refl

  with_slab-fixed :
      bid_provided bid ≡ false
      → with_slab bid call p
        ≡ in_fixed
            (slab_mut (call FixedSlab fixed_slab (bid_local bid)) (bid_class bid) p.fixed_pool)
  unfolding with_slab
  with_slab-fixed e = rw e refl

-- The same for a call routed by a `bid`.
pub with_slab-address :
    (change : BorrowTracker → ℕ → Outcome BorrowTracker) (bid addr : ℕ) (p p' q : Pools)
    → with_slab bid (borrowing change) p ≡ done (tt, p')
    → with_slab bid slot_address p ≡ done (addr, q)
    → with_slab bid slot_address p' ≡ done (addr, p')
with_slab-address change bid addr p p' q c a = elim (Bool-cases (bid_provided bid)) [
  | inl e ↦
      >>=-elim _ (λ x. done (x.0, record p { provided_pool = x.1 }))
        (sym (with_slab-provided (borrowing change) bid p e) ∙ c)
        λ r rc c1.
          >>=-elim _ (λ x. done (x.0, record p { provided_pool = x.1 }))
            (sym (with_slab-provided slot_address bid p e) ∙ a)
            λ x xa a1.
              subst (λ z. with_slab bid slot_address z ≡ done (addr, z))
                (ap (λ z. z.1) (done-injective c1))
                (with_slab-provided slot_address bid (record p { provided_pool = r.1 }) e
                  ∙ >>=-done _ (λ x. done (x.0, record p { provided_pool = x.1 }))
                      (slab_mut-address provided_slab (bid_class bid) (bid_local bid) provided-Stays
                        change p.provided_pool r.1 x.1 x.0 rc xa)
                      (ap (λ n. done (n, record p { provided_pool = r.1 }))
                        (ap (λ z. z.0) (done-injective a1))))
  | inr e ↦
      >>=-elim _ (λ x. done (x.0, record p { fixed_pool = x.1 }))
        (sym (with_slab-fixed (borrowing change) bid p e) ∙ c)
        λ r rc c1.
          >>=-elim _ (λ x. done (x.0, record p { fixed_pool = x.1 }))
            (sym (with_slab-fixed slot_address bid p e) ∙ a)
            λ x xa a1.
              subst (λ z. with_slab bid slot_address z ≡ done (addr, z))
                (ap (λ z. z.1) (done-injective c1))
                (with_slab-fixed slot_address bid (record p { fixed_pool = r.1 }) e
                  ∙ >>=-done _ (λ x. done (x.0, record p { fixed_pool = x.1 }))
                      (slab_mut-address fixed_slab (bid_class bid) (bid_local bid) fixed-Stays
                        change p.fixed_pool r.1 x.1 x.0 rc xa)
                      (ap (λ n. done (n, record p { fixed_pool = r.1 }))
                        (ap (λ z. z.0) (done-injective a1))))
]

-- The same for a thread's call: a view that has an address keeps it.
pub resolve_ptr-borrowing :
    (change : BorrowTracker → ℕ → Outcome BorrowTracker) (bid generation offset addr : ℕ)
    (t t' q : Thread)
    → state (with_pools (with_slab bid (borrowing change)) t) ≡ done t'
    → resolve_ptr bid generation offset t ≡ done (addr, q)
    → (base : ℕ) × (addr ≡ base + offset)
      × ((offset' : ℕ) → resolve_ptr bid generation offset' t' ≡ done (base + offset', t'))
unfolding resolve_ptr with_pools active_gen_matches active_gen
resolve_ptr-borrowing change bid generation offset addr t t' q c a =
    assert-elim (active_gen_matches t generation) _ a λ matches a1.
      >>=-elim (with_pools (with_slab bid slot_address) t) _ a1 λ x resolved a2.
        >>=-elim (with_pools (with_slab bid (borrowing change)) t) _ c λ r changed c1.
          let (p, p', runs, found, left) = with_pools-inversion _ t r.1 r.0 changed in
          let (p2, q2, runs2, found2, _) = with_pools-inversion _ t x.1 x.0 resolved in
          let same = Runs-unique runs2 runs in
          let moved =
            with_slab-address change bid x.0 p p' q2 found
              (subst (λ z. with_slab bid slot_address z ≡ done (x.0, q2)) same found2) in
          let after : with_current p' t ≡ t' = left ∙ done-injective c1 in
          (
            x.0,
            sym (ap (λ z. z.0) (done-injective a2)),
            subst
                (λ z.
                  (offset' : ℕ) → resolve_ptr bid generation offset' z ≡ done (x.0 + offset', z))
                after
                (λ offset'. assert-done _ _ matches (
                  >>=-done _ _
                    (with_pools-done (with_slab bid slot_address) (with_current p' t) p' p' x.0
                      (record { running = runs.running; published = refl }) moved)
                    refl)),
          )
