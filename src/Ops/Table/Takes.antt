-- ===== src/Ops/Table/Takes.antt =====
-- What the allocation of an op slot or a cancel slot hands out.
use conrt.Base.{
  ℕ, ◌+◌, ◌≢◌, true, false, List, [], ◌∷◌, ◌++◌, some, ◌≡◌, refl, sym, ap, arith, ◌==◌, inl, inr,
  ℕ_discrete, Outcome, done, panicked, >>=-eq-done, assert-eq-done, done-injective, vec_get,
  vec_get-eq-done,
}
use conrt.Ops.Ids.{free_none, is_free}
use conrt.Ops.Slots
use conrt.Ops.Slots.{IoSlot, SlotBody, live, free_link}
use conrt.Ops.Cancels
use conrt.Ops.Cancels.{CancelSlot, CancelBody, cancel_done, cancel_link}
use conrt.Ops.Stack.Take.{Taken}
use conrt.Ops.Table.{Runtime, pop_op_slot, alloc_op_slot, pop_cancel_slot, alloc_cancel_slot}
use conrt.Ops.Table.Valid.{body_link, cancel_body_link, op_link, cancel_slot_link}

module _ {L : Type 0} where
  free_next-eq-done :
      (s : IoSlot L) (next : ℕ) → Slots.free_next s ≡ done next → op_link s ≡ some next
  unfolding Slots.free_next
  free_next-eq-done s next h = body_case s.body (assert-eq-done (is_free s.id) _ h).1
    where
      body_case :
          (b : SlotBody)
          → (elim b as (λ x. Outcome ℕ) [ live shim callback ↦ panicked | free_link n ↦ done n ])
            ≡ done next
          → body_link b ≡ some next
      body_case (live shim callback) h = cc
      body_case (free_link n) h = ap some (done-injective h)

module _ {L : Type 0} where
  cancel_free_next-eq-done :
      (s : CancelSlot L) (next : ℕ)
      → Cancels.free_next s ≡ done next
      → cancel_slot_link s ≡ some next
  unfolding Cancels.free_next
  cancel_free_next-eq-done s next h = body_case s.body (assert-eq-done (is_free s.id) _ h).1
    where
      body_case :
          (b : CancelBody)
          → (elim b as (λ x. Outcome ℕ) [
            | cancel_done callback ↦ panicked
            | cancel_link n ↦ done n
          ])
            ≡ done next
          → cancel_body_link b ≡ some next
      body_case (cancel_done callback) h = cc
      body_case (cancel_link n) h = ap some (done-injective h)

module _ {G L B : Type 0} where
  -- The runtime with a slot of the op slab taken.
  abbrev pub with_op_slot : List (IoSlot L) → ℕ → Runtime G L B → Runtime G L B
  with_op_slot slab head rt = record rt {
    inflight_ops = rt.inflight_ops + 1;
    io_slab = slab;
    free_slots_head = head;
  }

  pub record TakesOp (rt : Runtime G L B) (index : ℕ) : Type 0 where
    pub slab : List (IoSlot L)
    pub head : ℕ
    pub taken : Taken op_link rt.io_slab rt.free_slots_head index slab head

  pop_op_slot-TakesOp :
      (rt rt₁ : Runtime G L B) (index : ℕ)
      → rt.free_slots_head ≢ free_none
      → pop_op_slot rt ≡ done (index, rt₁)
      → (t : TakesOp rt index) × (rt₁ ≡ with_op_slot t.slab t.head rt)
  unfolding pop_op_slot
  pop_op_slot-TakesOp rt rt₁ index ne h =
      let (s, e, h₁) = >>=-eq-done (vec_get rt.io_slab rt.free_slots_head) _ h in
      let (next, f, h₂) = >>=-eq-done (Slots.free_next s) _ h₁ in
      let p = done-injective h₂ in
      (
        record {
          slab = rt.io_slab;
          head = next;
          taken = inl (record {
            slot = s;
            not_empty = ne;
            at_head = sym (ap (λ (q : ℕ × Runtime G L B). q.0) p);
            there = vec_get-eq-done rt.io_slab rt.free_slots_head e;
            linked = free_next-eq-done s next f;
            same = refl;
          });
        },
        sym (ap (λ (q : ℕ × Runtime G L B). q.1) p),
      )

  pub alloc_op_slot-TakesOp :
      (rt rt₁ : Runtime G L B) (index : ℕ)
      → alloc_op_slot rt ≡ done (index, rt₁)
      → (t : TakesOp rt index) × (rt₁ ≡ with_op_slot t.slab t.head rt)
  unfolding alloc_op_slot Slots.init_free
  alloc_op_slot-TakesOp rt rt₁ index h = elim (ℕ_discrete rt.free_slots_head free_none) [
    | yes e ↦
        let head_is : (rt.free_slots_head == free_none) ≡ true = ground (arith, e) in
        let p = done-injective (rw (head_is) at h) in
        (
          record {
            slab = rt.io_slab ++ Slots.init_free free_none ∷ [];
            head = rt.free_slots_head;
            taken = inr (record {
              slot = Slots.init_free free_none;
              empty = e;
              at_end = sym (ap (λ (q : ℕ × Runtime G L B). q.0) p);
              more = refl;
              still_empty = e;
            });
          },
          sym (ap (λ (q : ℕ × Runtime G L B). q.1) p),
        )
    | no ne ↦
        let head_is : (rt.free_slots_head == free_none) ≡ false = ground (arith, ne) in
        pop_op_slot-TakesOp rt rt₁ index ne (rw (head_is) at h)
  ]

  -- The runtime with a slot of the cancel slab taken.
  abbrev pub with_cancel_slot : List (CancelSlot L) → ℕ → Runtime G L B → Runtime G L B
  with_cancel_slot slab head rt = record rt {
    inflight_cancels = rt.inflight_cancels + 1;
    cancel_slab = slab;
    free_cancels_head = head;
  }

  pub record TakesCancel (rt : Runtime G L B) (index : ℕ) : Type 0 where
    pub slab : List (CancelSlot L)
    pub head : ℕ
    pub taken : Taken cancel_slot_link rt.cancel_slab rt.free_cancels_head index slab head

  pop_cancel_slot-TakesCancel :
      (rt rt₁ : Runtime G L B) (index : ℕ)
      → rt.free_cancels_head ≢ free_none
      → pop_cancel_slot rt ≡ done (index, rt₁)
      → (t : TakesCancel rt index) × (rt₁ ≡ with_cancel_slot t.slab t.head rt)
  unfolding pop_cancel_slot
  pop_cancel_slot-TakesCancel rt rt₁ index ne h =
      let (s, e, h₁) = >>=-eq-done (vec_get rt.cancel_slab rt.free_cancels_head) _ h in
      let (next, f, h₂) = >>=-eq-done (Cancels.free_next s) _ h₁ in
      let p = done-injective h₂ in
      (
        record {
          slab = rt.cancel_slab;
          head = next;
          taken = inl (record {
            slot = s;
            not_empty = ne;
            at_head = sym (ap (λ (q : ℕ × Runtime G L B). q.0) p);
            there = vec_get-eq-done rt.cancel_slab rt.free_cancels_head e;
            linked = cancel_free_next-eq-done s next f;
            same = refl;
          });
        },
        sym (ap (λ (q : ℕ × Runtime G L B). q.1) p),
      )

  pub alloc_cancel_slot-TakesCancel :
      (rt rt₁ : Runtime G L B) (index : ℕ)
      → alloc_cancel_slot rt ≡ done (index, rt₁)
      → (t : TakesCancel rt index) × (rt₁ ≡ with_cancel_slot t.slab t.head rt)
  unfolding alloc_cancel_slot Cancels.init_free
  alloc_cancel_slot-TakesCancel rt rt₁ index h = elim (ℕ_discrete rt.free_cancels_head free_none) [
    | yes e ↦
        let head_is : (rt.free_cancels_head == free_none) ≡ true = ground (arith, e) in
        let p = done-injective (rw (head_is) at h) in
        (
          record {
            slab = rt.cancel_slab ++ Cancels.init_free free_none ∷ [];
            head = rt.free_cancels_head;
            taken = inr (record {
              slot = Cancels.init_free free_none;
              empty = e;
              at_end = sym (ap (λ (q : ℕ × Runtime G L B). q.0) p);
              more = refl;
              still_empty = e;
            });
          },
          sym (ap (λ (q : ℕ × Runtime G L B). q.1) p),
        )
    | no ne ↦
        let head_is : (rt.free_cancels_head == free_none) ≡ false = ground (arith, ne) in
        pop_cancel_slot-TakesCancel rt rt₁ index ne (rw (head_is) at h)
  ]
