-- ===== src/Ops/Drive/Teardown.antt =====
-- What is dropped at the end of the runtime.
use conrt.Base.{
  ℕ, zero, suc, ◌+◌, List, [], ◌∷◌, none, some, ◌≡◌, refl, arith, length, get_elem?, if◌then◌else◌,
  length-append,
}
use conrt.Ops.Ids.{get, is_free, id_bits}
use conrt.Ops.Slots.{IoSlot, SlotBody, live, free_link}
use conrt.Ops.Cancels.{CancelSlot, CancelBody, cancel_done, cancel_link}
use conrt.Ops.Stack.{in_use}
use conrt.Ops.Table.{Runtime, Backend}
use conrt.Ops.Table.Valid.{
  IdOk, CancelIdOk, OpOk, CancelOk, op_link, cancel_slot_link, body_link, cancel_body_link, Valid,
}
use conrt.Ops.Drive.{io_locals, cancel_locals, teardown}

-- A slot is counted if its id says that it is in use.
used_by_id :
    (n id : ℕ) (b : SlotBody)
    → IdOk n b id
    → ◌≡◌ {A = ℕ} (elim (body_link b) [ none ↦ 1 | some next ↦ 0 ]) (if is_free id then 0 else 1)
unfolding id_bits
used_by_id n id (live shim callback) (a, b, c) = ground (arith, a)
used_by_id n id (free_link next) e = ground (arith, e)

cancel_used_by_id :
    (id : ℕ) (b : CancelBody)
    → CancelIdOk b id
    → ◌≡◌ {A = ℕ}
        (elim (cancel_body_link b) [ none ↦ 1 | some next ↦ 0 ])
        (if is_free id then 0 else 1)
cancel_used_by_id id (cancel_done callback) a = ground (arith, a)
cancel_used_by_id id (cancel_link next) e = ground (arith, e)

module _ {L : Type 0} where
  length-io_locals :
      (n : ℕ) (slab : List (IoSlot L))
      → ((i : ℕ) (s : IoSlot L) → get_elem? slab i ≡ some s → OpOk n s)
      → length (io_locals slab) ≡ in_use op_link slab
  unfolding io_locals
  length-io_locals n [] each = refl
  length-io_locals n (s ∷ ss) each =
      let rest = length-io_locals n ss (λ i. each (suc i)) in
      ground (arith, used_by_id n s.id s.body (each zero s refl), rest)

  length-cancel_locals :
      (slab : List (CancelSlot L))
      → ((i : ℕ) (s : CancelSlot L) → get_elem? slab i ≡ some s → CancelOk s)
      → length (cancel_locals slab) ≡ in_use cancel_slot_link slab
  unfolding cancel_locals
  length-cancel_locals [] each = refl
  length-cancel_locals (s ∷ ss) each =
      let rest = length-cancel_locals ss (λ i. each (suc i)) in
      ground (arith, cancel_used_by_id s.id s.body (each zero s refl), rest)

-- From a well-formed state the teardown drops as many locals as there are ops and cancellations in
-- flight.
pub length-teardown :
    {G L B Req : Type 0} (backend : Backend B Req) (rt : Runtime G L B)
    → Valid rt
    → length (teardown backend rt).1 ≡ rt.inflight_ops + rt.inflight_cancels
unfolding teardown
length-teardown backend rt valid = omega (
  arith,
  length-append (io_locals rt.io_slab) (cancel_locals rt.cancel_slab),
  length-io_locals (get rt.next_id) rt.io_slab valid.0.each,
  length-cancel_locals rt.cancel_slab valid.1.each,
  valid.0.stacked.counted,
  valid.1.stacked.counted,
)
