-- ===== src/Ops/Table/Free.antt =====
-- A slot given back: the state stays well formed.
use conrt.Base.{
  ℕ, ◌-◌, ◌<◌, ◌≢◌, false, not, none, some, ◌≡◌, refl, sym, ap, subst, ◌∙◌, arith, set, get_elem?,
  ◌==◌, length-set, done, ltb, >>=-eq-done, assert-eq-done, done-injective, vec_get,
  vec_get-eq-done, expect,
}
use conrt.Ops.Ids.{get, id_bits, is_free}
use conrt.Ops.Slots
use conrt.Ops.Slots.{IoSlot, SlotBody, live, free_link}
use conrt.Ops.Cancels
use conrt.Ops.Cancels.{CancelSlot, CancelBody, cancel_done, cancel_link}
use conrt.Ops.Stack.Slab.{Slab-free}
use conrt.Ops.Table.{
  Runtime, free_op_slot, free_op_slot_taken, free_cancel_slot, free_cancel_slot_dropping_local,
}
use conrt.Ops.Table.Valid.{
  op_link, cancel_slot_link, OpOk, CancelOk, IdOk, CancelIdOk, body_link, cancel_body_link,
  Gone-set, Step,
}

IdOk-live : (n id : ℕ) (b : SlotBody) → IdOk n b id → is_free id ≡ false → body_link b ≡ none
IdOk-live n id (live shim callback) ok used = refl
IdOk-live n id (free_link next) ok used = absurd (ground (arith, ok, used))

CancelIdOk-live :
    (id : ℕ) (b : CancelBody) → CancelIdOk b id → is_free id ≡ false → cancel_body_link b ≡ none
CancelIdOk-live id (cancel_done callback) ok used = refl
CancelIdOk-live id (cancel_link next) ok used = absurd (ground (arith, ok, used))

free-OpOk : (n head id : ℕ) (b : SlotBody) → body_link b ≡ some head → id ≡ 0 → IdOk n b id
free-OpOk n head id (live shim callback) l z = cc
free-OpOk n head id (free_link next) l z = z

free-CancelOk :
    (head id : ℕ) (b : CancelBody) → cancel_body_link b ≡ some head → id ≡ 0 → CancelIdOk b id
free-CancelOk head id (cancel_done callback) l z = cc
free-CancelOk head id (cancel_link next) l z = z

module _ {L : Type 0} where
  pub OpOk-live : (n : ℕ) (s : IoSlot L) → OpOk n s → is_free s.id ≡ false → op_link s ≡ none
  OpOk-live n s = IdOk-live n s.id s.body

  pub CancelOk-live :
      (s : CancelSlot L) → CancelOk s → is_free s.id ≡ false → cancel_slot_link s ≡ none
  CancelOk-live s = CancelIdOk-live s.id s.body

  pub op_push_free-eq-done :
      (head : ℕ) (s v : IoSlot L)
      → Slots.push_free head s ≡ done v
      → (is_free s.id ≡ false) × (op_link v ≡ some head) × (v.id ≡ 0)
  unfolding Slots.push_free
  op_push_free-eq-done head s v h =
      let (used, h₁) = assert-eq-done (not (is_free s.id)) _ h in
      let (empty, h₂) = assert-eq-done (s.buf == _) _ h₁ in
      let e = done-injective h₂ in
      (ground (arith, used), ap op_link (sym e), ap (λ (s : IoSlot L). s.id) (sym e))

  pub cancel_push_free-eq-done :
      (head : ℕ) (s v : CancelSlot L)
      → Cancels.push_free head s ≡ done v
      → (is_free s.id ≡ false) × (cancel_slot_link v ≡ some head) × (v.id ≡ 0)
  unfolding Cancels.push_free
  cancel_push_free-eq-done head s v h =
      let (used, h₁) = assert-eq-done (not (is_free s.id)) _ h in
      let e = done-injective h₁ in
      (ground (arith, used), ap cancel_slot_link (sym e), ap (λ (s : CancelSlot L). s.id) (sym e))

pub zero-bits : (x : ℕ) → 0 < x → id_bits 0 ≢ x
unfolding id_bits
zero-bits x h = omega (arith, h)

module _ {G L B : Type 0} where
  -- A write of a free slot over one in use, which goes on top of the stack.
  free_op-Step :
      (rt : Runtime G L B) (i : ℕ) (s taken v : IoSlot L)
      → get_elem? rt.io_slab i ≡ some s
      → taken.id ≡ s.id
      → Slots.push_free rt.free_slots_head taken ≡ done v
      → Step rt (record rt {
        inflight_ops = rt.inflight_ops - 1;
        io_slab = set rt.io_slab i v;
        free_slots_head = i;
      })
  free_op-Step rt i s taken v g same h =
      let (used, l, z) = op_push_free-eq-done rt.free_slots_head taken v h in
      record {
        grows = (omega (arith, length-set rt.io_slab i v), omega arith, omega arith);
        keeps = λ small valid. (
          Slab-free op_link (OpOk (get rt.next_id)) i v s valid.0 g
              (OpOk-live (get rt.next_id) s (valid.0.each i s g) (ap is_free (sym same) ∙ used)) l
              (free-OpOk (get rt.next_id) rt.free_slots_head v.id v.body l z),
          valid.1,
          valid.2,
        );
        stays_gone = λ small valid op gone. (
          gone.0,
          Gone-set rt.io_slab i op.slot (get op.id) v s g
              (λ other.
                subst (λ n. id_bits n ≢ get op.id) (sym z) (zero-bits (get op.id) (omega arith)))
              gone.1,
        );
      }

  free_cancel-Step :
      (rt : Runtime G L B) (i : ℕ) (s taken v : CancelSlot L)
      → get_elem? rt.cancel_slab i ≡ some s
      → taken.id ≡ s.id
      → Cancels.push_free rt.free_cancels_head taken ≡ done v
      → Step rt (record rt {
        inflight_cancels = rt.inflight_cancels - 1;
        cancel_slab = set rt.cancel_slab i v;
        free_cancels_head = i;
      })
  free_cancel-Step rt i s taken v g same h =
      let (used, l, z) = cancel_push_free-eq-done rt.free_cancels_head taken v h in
      record {
        grows = (omega arith, omega (arith, length-set rt.cancel_slab i v), omega arith);
        keeps = λ small valid. (
          valid.0,
          Slab-free cancel_slot_link CancelOk i v s valid.1 g
              (CancelOk-live s (valid.1.each i s g) (ap is_free (sym same) ∙ used)) l
              (free-CancelOk rt.free_cancels_head v.id v.body l z),
          valid.2,
        );
        stays_gone = λ small valid op gone. gone;
      }

  pub free_op_slot_taken-Step :
      (i : ℕ) (rt rt' : Runtime G L B) → free_op_slot_taken i rt ≡ done rt' → Step rt rt'
  unfolding free_op_slot_taken
  free_op_slot_taken-Step i rt rt' h =
      let (some_used, h₁) = assert-eq-done (ltb 0 rt.inflight_ops) _ h in
      let (s, e, h₂) = >>=-eq-done (vec_get rt.io_slab i) _ h₁ in
      let (v, f, h₃) = >>=-eq-done (Slots.push_free rt.free_slots_head s) _ h₂ in
      subst (Step rt) (done-injective h₃)
        (free_op-Step rt i s s v (vec_get-eq-done rt.io_slab i e) refl f)

  pub free_op_slot-Step :
      (i : ℕ) (rt rt' : Runtime G L B) → free_op_slot i rt ≡ done rt' → Step rt rt'
  unfolding free_op_slot
  free_op_slot-Step i rt rt' h =
      let (some_used, h₁) = assert-eq-done (ltb 0 rt.inflight_ops) _ h in
      let (s, e, h₂) = >>=-eq-done (vec_get rt.io_slab i) _ h₁ in
      let (dropped, d, h₃) = >>=-eq-done (expect s.local) _ h₂ in
      let (v, f, h₄) =
        >>=-eq-done (Slots.push_free rt.free_slots_head (record s { local = none })) _ h₃ in
      subst (Step rt) (done-injective h₄)
        (free_op-Step rt i s (record s { local = none }) v (vec_get-eq-done rt.io_slab i e) refl f)

  pub free_cancel_slot-Step :
      (i : ℕ) (rt rt' : Runtime G L B) → free_cancel_slot i rt ≡ done rt' → Step rt rt'
  unfolding free_cancel_slot
  free_cancel_slot-Step i rt rt' h =
      let (some_used, h₁) = assert-eq-done (ltb 0 rt.inflight_cancels) _ h in
      let (s, e, h₂) = >>=-eq-done (vec_get rt.cancel_slab i) _ h₁ in
      let (v, f, h₃) = >>=-eq-done (Cancels.push_free rt.free_cancels_head s) _ h₂ in
      subst (Step rt) (done-injective h₃)
        (free_cancel-Step rt i s s v (vec_get-eq-done rt.cancel_slab i e) refl f)

  pub free_cancel_slot_dropping_local-Step :
      (i : ℕ) (rt rt' : Runtime G L B)
      → free_cancel_slot_dropping_local i rt ≡ done rt'
      → Step rt rt'
  unfolding free_cancel_slot_dropping_local
  free_cancel_slot_dropping_local-Step i rt rt' h =
      let (some_used, h₁) = assert-eq-done (ltb 0 rt.inflight_cancels) _ h in
      let (s, e, h₂) = >>=-eq-done (vec_get rt.cancel_slab i) _ h₁ in
      let (dropped, d, h₃) = >>=-eq-done (expect s.local) _ h₂ in
      let (v, f, h₄) =
        >>=-eq-done (Cancels.push_free rt.free_cancels_head (record s { local = none })) _ h₃ in
      subst (Step rt) (done-injective h₄) (
        free_cancel-Step rt i s (record s { local = none }) v (vec_get-eq-done rt.cancel_slab i e)
          refl f)
