-- ===== src/Buffers/Alloc/Return.antt =====
-- A buffer of `alloc_bytes` that is dropped leaves the thread as it was.
use conrt.Base.{
  ℕ, false, ◌^◌, ◌<◌, true, some, ◌≡◌, refl, sym, ap, subst, ◌∙◌, arith, get_elem?, get_elem?-lt,
  set, Outcome, done, panicked, >>=-done,
}
use conrt.Base.Words.{pos, negsuc}
use conrt.Buffers.Classes.{pack_bid}
use conrt.Buffers.Tracker
use conrt.Buffers.Views.{Slice}
use conrt.Buffers.Fixed
use conrt.Buffers.Fixed.{FixedSlab}
use conrt.Buffers.Fixed.Free.{Popped}
use conrt.Buffers.Pools
use conrt.Buffers.Pools.{Pools, fixed_slab}
use conrt.Buffers.Routing
use conrt.Buffers.Routing.{Thread, active_gen_matches, dropping}
use conrt.Buffers.Routing.Steps.{
  Runs, Runs-active_gen_matches, set-get_elem?, set-set, get_elem?-set_self, on_slot-fixed,
  with_fixed, with_current,
}
use conrt.Buffers.Refs
use conrt.Buffers.Alloc.{Allocated, bytes, efbig, enomem, alloc_bytes}
use conrt.Buffers.Alloc.Bytes.{IsValid, Allocates, whole_slot, alloc_bytes-Allocates}

-- Dropping the view of a slot that was just popped pushes it back.
drop-Popped :
    (s s' : FixedSlab) (local : ℕ)
    → Popped s (negsuc 0) local s'
    → s' ≡ record s { free = s'.free; tracker = s'.tracker }
    → Pools.drop_view fixed_slab true local s' ≡ done s
unfolding Pools.drop_view Tracker.drop_view Fixed.recycle
drop-Popped s s' local popped same =
    let held : get_elem? s'.tracker.borrows local ≡ some (negsuc 0) =
      ap (λ bs. get_elem? bs local) popped.now_held
      ∙ get_elem?-set_self s.tracker.borrows local (negsuc 0) popped.was_free in
    let freed : set s'.tracker.borrows local (pos 0) ≡ s.tracker.borrows =
      ap (λ bs. set bs local (pos 0)) popped.now_held
      ∙ set-set s.tracker.borrows local (negsuc 0) (pos 0)
      ∙ set-get_elem? s.tracker.borrows local popped.was_free in
    ground (arith, held, freed, same, popped.rest)

-- The same through the view: `RefMut::drop` finds the slab by the `bid`.
drop_mut-Popped :
    (t : Thread) (p : Pools) (k local : ℕ) (s s' : FixedSlab)
    → Runs t p
    → k < 2 ^ 7
    → local < 2 ^ 24
    → s.class ≡ k
    → get_elem? p.fixed_pool.slabs k ≡ some s
    → Popped s (negsuc 0) local s'
    → s' ≡ record s { free = s'.free; tracker = s'.tracker }
    → Refs.drop_mut (whole_slot t.generation s local).ref (with_current (with_fixed k s' p) t)
      ≡ done (with_current p t)
unfolding Refs.drop_mut Routing.drop_view
drop_mut-Popped t p k local s s' runs kb lb class found popped same =
    let t' = with_current (with_fixed k s' p) t in
    let p' = with_fixed k s' p in
    let runs' : Runs t' p' = record { running = runs.running; published = refl } in
    let back = drop-Popped s s' local popped same in
    let slabs = p.fixed_pool.slabs in
    subst
      (λ c.
        Routing.drop_view (pack_bid false c local) t.generation true t' ≡ done (with_current p t))
      (sym class)
      (rw (Runs-active_gen_matches runs') (
        on_slot-fixed (dropping true) k local t' p' s' s runs' kb lb
          (get_elem?-set_self slabs k s' found)
          (>>=-done (Pools.drop_view fixed_slab true local s') (λ x. done (tt, x)) back refl)
        ∙ ap
            (λ xs.
              done (with_current (record p { fixed_pool = record p.fixed_pool { slabs = xs } }) t))
            (set-set slabs k s' s ∙ set-get_elem? slabs k found)))

-- What `alloc_bytes` gave, taken apart over the result.
returned :
    (size : ℕ) (t t' : Thread) (p : Pools) (b : Slice) (r : Outcome (Allocated × Thread))
    → Runs t p
    → IsValid p
    → Allocates size t p r
    → r ≡ done (bytes b, t')
    → Refs.drop_mut b.ref t' ≡ done (with_current p t)
returned size t t' p b panicked runs v a e = elim a [ ]
returned size t t' p b (done (efbig, t'')) runs v a e = absurd (cc)
returned size t t' p b (done (enomem, t'')) runs v a e = absurd (cc)
returned size t t' p b (done (bytes w, t'')) runs v (k, s, s', local, c, popped, same, view, left)
      e =
    let there = get_elem?-lt p.fixed_pool.slabs k c.slab in
    let slot = get_elem?-lt s.tracker.borrows local popped.was_free in
    let few = v.counts k s c.slab in
    let back =
      drop_mut-Popped t p k local s s' runs (omega (arith, v.few, v.same_length, there))
        (omega (arith, few, slot)) (v.class_index k s c.slab) c.slab popped same in
    let view_b : b ≡ whole_slot t.generation s local = cc in
    let left_t : t' ≡ with_current (with_fixed k s' p) t = cc in rw view_b (rw left_t back)

-- On a thread that runs with well-formed pools, dropping a buffer that `alloc_bytes` has given puts
-- the slabs, their stacks and their borrow counts back to what they were before.
pub drop_mut-alloc_bytes :
    (size : ℕ) (t t' : Thread) (p : Pools) (b : Slice)
    → Runs t p
    → IsValid p
    → alloc_bytes size t ≡ done (bytes b, t')
    → Refs.drop_mut b.ref t' ≡ done t
drop_mut-alloc_bytes size t t' p b runs v e =
    returned size t t' p b (alloc_bytes size t) runs v (alloc_bytes-Allocates size t p runs v) e
    ∙ ap (λ o. done (record t { current_pools = o })) (sym runs.published)
