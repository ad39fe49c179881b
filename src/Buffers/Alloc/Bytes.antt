-- ===== src/Buffers/Alloc/Bytes.antt =====
-- What `alloc_bytes` gives in a well-formed thread.
use native.Mathlib.Nat.{mod-one, div-one}
use conrt.Base.{
  ℕ, zero, suc, ◌^◌, ◌≤◌, ◌<◌, false, List, [], ◌∷◌, Option, none, some, ◌≡◌, refl, sym, ap, subst,
  ◌∙◌, arith, length, get_elem?, get_elem?-lt, All, take, Outcome, done, panicked, >>=-done,
}
use conrt.Base.Words.{negsuc}
use conrt.Buffers.Classes.{SizeClass, pack_bid}
use conrt.Buffers.Classes.Bid.{Fits, class_for-Fits}
use conrt.Buffers.Views.{Slice}
use conrt.Buffers.Fixed
use conrt.Buffers.Fixed.{FixedSlab}
use conrt.Buffers.Fixed.Free.{Popped, Acquires, acquire_slot-Acquires}
use conrt.Buffers.Fixed.Free
use conrt.Buffers.Pools
use conrt.Buffers.Pools.{Pools}
use conrt.Buffers.Routing.{Thread, active_gen}
use conrt.Buffers.Routing.Steps.{
  Runs, Runs-active_gen, set-get_elem?, with_pools-done, slab_mut-done, with_fixed, with_current,
}
use conrt.Buffers.Alloc.{Allocated, bytes, efbig, enomem, or_enomem, alloc_bytes}

-- The table of the fixed pool fits its slabs, and each slab's stack its borrow counts.
pub record IsValid (p : Pools) : Type 0 where
  pub few : length p.fixed_pool.classes ≤ 128
  pub same_length : length p.fixed_pool.slabs ≡ length p.fixed_pool.classes
  pub same_size :
      (k : ℕ) (c : SizeClass) (s : FixedSlab)
      → get_elem? p.fixed_pool.classes k ≡ some c
      → get_elem? p.fixed_pool.slabs k ≡ some s
      → c.size ≡ s.size
  pub class_index : (k : ℕ) (s : FixedSlab) → get_elem? p.fixed_pool.slabs k ≡ some s → s.class ≡ k
  pub counts :
      (k : ℕ) (s : FixedSlab)
      → get_elem? p.fixed_pool.slabs k ≡ some s
      → length s.tracker.borrows < 2 ^ 24
  pub stacks : (k : ℕ) (s : FixedSlab) → get_elem? p.fixed_pool.slabs k ≡ some s → Free.IsValid s

-- The view of all of slot `local`.
abbrev pub whole_slot : ℕ → FixedSlab → ℕ → Slice
whole_slot generation s local = record {
  ref = record { bid = pack_bid false s.class local; generation = generation; offset = 0 };
  len = s.size;
}

-- Class `k` is the first whose slots hold `size` bytes.
pub record Chosen (size : ℕ) (p : Pools) (k : ℕ) (s : FixedSlab) : Type 0 where
  pub slab : get_elem? p.fixed_pool.slabs k ≡ some s
  pub fits : size ≤ s.size
  pub first : All (λ c. c.size < size) (take k p.fixed_pool.classes)

abbrev pub Allocates : ℕ → Thread → Pools → Outcome (Allocated × Thread) → Type 0
Allocates size t p panicked = ⊥
Allocates size t p (done (efbig, t')) =
    All (λ c. c.size < size) p.fixed_pool.classes × (t' ≡ with_current p t)
Allocates size t p (done (enomem, t')) =
    (k : ℕ) × (s : FixedSlab) × Chosen size p k s × (s.free ≡ []) × (t' ≡ with_current p t)
Allocates size t p (done (bytes v, t')) =
    (k : ℕ) × (s : FixedSlab) × (s' : FixedSlab) × (local : ℕ) × Chosen size p k s
    × Popped s (negsuc 0) local s'
    × (s' ≡ record s { free = s'.free; tracker = s'.tracker })
    × (v ≡ whole_slot t.generation s local)
    × (t' ≡ with_current (with_fixed k s' p) t)

-- The view that the slab makes of the slot it has popped.
acquire_bytes_mut-some :
    (generation local : ℕ) (s s' : FixedSlab)
    → Fixed.acquire_slot s ≡ done (some local, s')
    → Fixed.acquire_bytes_mut (some generation) s ≡ done (some (whole_slot generation s' local), s')
unfolding Fixed.acquire_bytes_mut
acquire_bytes_mut-some generation local s s' e = >>=-done (Fixed.acquire_slot s) _ e (
    rw (mod-one (Fixed.slot_ptr s' local)) (
      ap (λ n. done (some (record { ref = (whole_slot generation s' local).ref; len = n }), s'))
        (div-one s'.size)))

acquire_bytes_mut-none :
    (active : Option ℕ) (s s' : FixedSlab)
    → Fixed.acquire_slot s ≡ done (none, s')
    → Fixed.acquire_bytes_mut active s ≡ done (none, s')
unfolding Fixed.acquire_bytes_mut
acquire_bytes_mut-none active s s' e = >>=-done (Fixed.acquire_slot s) _ e refl

-- Popping a slot changes the stack and the counts only.
acquire_slot-fields :
    (s s' : FixedSlab) (slot : Option ℕ)
    → Fixed.acquire_slot s ≡ done (slot, s')
    → s' ≡ record s { free = s'.free; tracker = s'.tracker }
unfolding Fixed.acquire_slot
acquire_slot-fields s s' slot h = ground arith

-- The run once the class is chosen, by what its slab does.
alloc_bytes-class :
    (size k : ℕ) (t : Thread) (p : Pools) (s s' : FixedSlab) (slot : Option Slice)
    → Runs t p
    → Pools.class_for p.fixed_pool size ≡ some k
    → get_elem? p.fixed_pool.slabs k ≡ some s
    → Fixed.acquire_bytes_mut (active_gen t) s ≡ done (slot, s')
    → alloc_bytes size t ≡ done (or_enomem slot, with_current (with_fixed k s' p) t)
unfolding alloc_bytes Pools.acquire_bytes_mut
alloc_bytes-class size k t p s s' slot runs e found call =
    with_pools-done _ t p (with_fixed k s' p) (or_enomem slot) runs (
      rw e (
        >>=-done _ _
          (>>=-done _ _
            (slab_mut-done (Fixed.acquire_bytes_mut (active_gen t)) k p.fixed_pool s s' slot found
              call)
            refl)
          refl))

alloc_bytes-efbig :
    (size : ℕ) (t : Thread) (p : Pools)
    → Runs t p
    → Pools.class_for p.fixed_pool size ≡ none
    → alloc_bytes size t ≡ done (efbig, with_current p t)
unfolding alloc_bytes
alloc_bytes-efbig size t p runs e = with_pools-done _ t p p efbig runs (rw e refl)

-- The same slab put back.
with_fixed_same :
    (k : ℕ) (s s' : FixedSlab) (p : Pools)
    → get_elem? p.fixed_pool.slabs k ≡ some s
    → s' ≡ s
    → with_fixed k s' p ≡ p
with_fixed_same k s s' p found e =
    ap (λ x. with_fixed k x p) e
    ∙ ap (λ xs. record p { fixed_pool = record p.fixed_pool { slabs = xs } })
        (set-get_elem? p.fixed_pool.slabs k found)

get_elem?-total :
    {A : Type 0} (xs : List A) (i : ℕ) → i < length xs → (a : A) × (get_elem? xs i ≡ some a)
get_elem?-total [] i h = absurd (omega arith)
get_elem?-total (x ∷ xs) zero h = (x, refl)
get_elem?-total (x ∷ xs) (suc i) h = get_elem?-total xs i (omega arith)

module _ (size : ℕ) (t : Thread) (p : Pools) (runs : Runs t p) (v : IsValid p) where
  from_class :
      (k : ℕ) (s : FixedSlab) (r : Outcome (Option ℕ × FixedSlab))
      → Pools.class_for p.fixed_pool size ≡ some k
      → Chosen size p k s
      → Fixed.acquire_slot s ≡ r
      → Acquires s (negsuc 0) r
      → Allocates size t p (alloc_bytes size t)
  from_class k s panicked e c q a = elim a [ ]
  from_class k s (done (none, s')) e c q (empty, same) =
      subst (Allocates size t p)
        (sym (
          alloc_bytes-class size k t p s s' none runs e c.slab
            (acquire_bytes_mut-none (active_gen t) s s' q)))
        (k, s, c, empty, ap (λ x. with_current x t) (with_fixed_same k s s' p c.slab same))
  from_class k s (done (some local, s')) e c q a =
      let same = acquire_slot-fields s s' (some local) q in
      let made =
        ap (λ g. Fixed.acquire_bytes_mut g s) (Runs-active_gen runs)
        ∙ acquire_bytes_mut-some t.generation local s s' q in
      subst (Allocates size t p)
        (sym (
          alloc_bytes-class size k t p s s' (some (whole_slot t.generation s' local)) runs e c.slab
            made))
        (k, s, s', local, c, a, same, ap (λ x. whole_slot t.generation x local) same, refl)

  from_choice :
      (o : Option ℕ)
      → Pools.class_for p.fixed_pool size ≡ o
      → Fits p.fixed_pool.classes size 0 o
      → Allocates size t p (alloc_bytes size t)
  from_choice none e f =
      subst (Allocates size t p) (sym (alloc_bytes-efbig size t p runs e)) (f, refl)
  from_choice (some k) e (j, c, at, found, fits, before) =
      let there = get_elem?-lt p.fixed_pool.classes j found in
      let (s, slab) = get_elem?-total p.fixed_pool.slabs j (omega (arith, v.same_length)) in
      let sized : c.size ≡ s.size = v.same_size j c s found slab in
      let index : j ≡ k = omega arith in
      from_class k s (Fixed.acquire_slot s) e
        (record {
          slab = subst (λ i. get_elem? p.fixed_pool.slabs i ≡ some s) index slab;
          fits = omega arith;
          first = subst (λ i. All (λ d. d.size < size) (take i p.fixed_pool.classes)) index before;
        })
        refl (acquire_slot-Acquires s (v.stacks j s slab))

-- On a thread that runs with well-formed pools, `alloc_bytes` never panics. It fails with EFBIG
-- exactly where every class of the fixed pool is too small, and with ENOMEM where the stack of the
-- first class that is large enough is empty, and then changes nothing. Else it gives a view of all
-- of a slot of that class, one that no view held and that is now held exclusively, and changes no
-- other slab.
pub alloc_bytes-Allocates :
    (size : ℕ) (t : Thread) (p : Pools)
    → Runs t p
    → IsValid p
    → Allocates size t p (alloc_bytes size t)
unfolding Pools.class_for
alloc_bytes-Allocates size t p runs v =
    from_choice size t p runs v (Pools.class_for p.fixed_pool size) refl
      (class_for-Fits p.fixed_pool.classes size v.few)
