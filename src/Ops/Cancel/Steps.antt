-- ===== src/Ops/Cancel/Steps.antt =====
-- `cancel`, and the mark that it sets and that a completion clears: the state stays well formed.
use conrt.Base.{
  ℕ, ◌*◌, ◌<◌, ◌≢◌, Bool, true, false, not, ◌&&◌, Option, none, some, ◌≡◌, refl, sym, ap, subst,
  ◌∙◌, arith, set, get_elem?, ◌==◌, if◌then◌else◌, length-set, Bool-cases, inl, inr, done,
  >>=-eq-done, done-injective, vec_get, vec_get-eq-done,
}
use conrt.Ops.Ids.{get, cancel_bit, id_bits, is_cancel_pending, set_pending, clear_pending}
use conrt.Ops.Ids.Pending.{
  set_pending-bits, clear_pending-bits, id_bits_idem, clear_pending_zero, id_bits-small,
}
use conrt.Ops.Slots.{IoSlot, SlotBody, live, free_link}
use conrt.Ops.Stack.Slab.{Slab-set}
use conrt.Ops.Table.{Runtime, Backend, Op}
use conrt.Ops.Table.Valid.{Gone-set, IdOk, op_link, OpOk, Step, Step-refl, Step-trans}
use conrt.Ops.Cancel.{submit_cancel, can_cancel, mark_pending, cancel}
use conrt.Ops.Cancel.Submit.{submit_cancel-Step}

-- A mark on an op in use leaves its id's bits.
set_pending-IdOk :
    (n id : ℕ) (b : SlotBody) → 0 < id_bits id → IdOk n b id → IdOk n b (set_pending id)
unfolding id_bits
set_pending-IdOk n id (live shim callback) pos (a, b, c) =
    let (same, small) = set_pending-bits id c in (rw (same) a, rw (same) b, small)
set_pending-IdOk n id (free_link next) pos valid = absurd (omega (arith, pos, valid))

pub clear_pending-IdOk : (n id : ℕ) (b : SlotBody) → IdOk n b id → IdOk n b (clear_pending id)
clear_pending-IdOk n id (live shim callback) (a, b, c) =
    let same : clear_pending id ≡ id_bits id = clear_pending-bits id c in
    let idem = id_bits_idem id in
    (rw (same, idem) a, rw (same, idem) b, rw (same) (id_bits-small id))
clear_pending-IdOk n id (free_link next) valid = ap clear_pending valid ∙ clear_pending_zero

IdOk-bound : (n id : ℕ) (b : SlotBody) → IdOk n b id → id < 2 * cancel_bit
IdOk-bound n id (live shim callback) (a, b, c) = c
IdOk-bound n id (free_link next) valid = omega (arith, valid)

pub clear_pending-same : (id : ℕ) → id < 2 * cancel_bit → id_bits (clear_pending id) ≡ id_bits id
clear_pending-same id bound = ap id_bits (clear_pending-bits id bound) ∙ id_bits_idem id

module _ {G L B : Type 0} where
  -- The id of a slot is written.
  pub write_id-Step :
      (rt : Runtime G L B) (i id : ℕ) (s : IoSlot L)
      → get_elem? rt.io_slab i ≡ some s
      → (IdOk (get rt.next_id) s.body s.id → IdOk (get rt.next_id) s.body id)
      → (s.id < 2 * cancel_bit → id_bits id ≡ id_bits s.id)
      → Step rt (record rt { io_slab = set rt.io_slab i (record s { id = id }) })
  write_id-Step rt i id s g keep same = record {
    grows =
        (omega (arith, length-set rt.io_slab i (record s { id = id })), omega arith, omega arith);
    keeps = λ small valid. (
      Slab-set op_link (OpOk (get rt.next_id)) i (record s { id = id }) s valid.0 g refl
          (keep (valid.0.each i s g)),
      valid.1,
      valid.2,
    );
    stays_gone = λ small valid op gone. (
      gone.0,
      Gone-set rt.io_slab i op.slot (get op.id) (record s { id = id }) s g
          (λ other.
            subst (λ n. n ≢ get op.id)
              (sym (same (IdOk-bound (get rt.next_id) s.id s.body (valid.0.each i s g)))) other)
          gone.1,
    );
  }

  mark_pending-Step :
      (i : ℕ) (rt rt' : Runtime G L B) (s : IoSlot L)
      → get_elem? rt.io_slab i ≡ some s
      → 0 < id_bits s.id
      → mark_pending i rt ≡ done rt'
      → Step rt rt'
  unfolding mark_pending
  mark_pending-Step i rt rt' s g pos h =
      let (t, e, h₁) = >>=-eq-done (vec_get rt.io_slab i) _ h in
      let gt = vec_get-eq-done rt.io_slab i e in
      subst (Step rt) (done-injective h₁) (
        write_id-Step rt i (set_pending t.id) t gt
          (set_pending-IdOk (get rt.next_id) t.id t.body
            (subst (λ (q : IoSlot L). 0 < id_bits q.id) (some-injective (sym g ∙ gt)) pos))
          (λ bound. (set_pending-bits t.id bound).0))
    where
      some-injective : {a b : IoSlot L} → some a ≡ some b → a ≡ b
      some-injective e = cc

  can_cancel-eq-true :
      (op : Op) (rt : Runtime G L B)
      → can_cancel op rt ≡ true
      → (s : IoSlot L) × (get_elem? rt.io_slab op.slot ≡ some s) × (id_bits s.id ≡ get op.id)
  unfolding can_cancel
  can_cancel-eq-true op rt h = found (get_elem? rt.io_slab op.slot) h
    where
      found :
          (o : Option (IoSlot L))
          → (elim o [
            | none ↦ false
            | some slot ↦ id_bits slot.id == get op.id && not (is_cancel_pending slot.id)
          ])
            ≡ true
          → (s : IoSlot L) × (o ≡ some s) × (id_bits s.id ≡ get op.id)
      found none h = cc
      found (some s) h = (s, refl, ground (arith, h))

module _ {G L B Req : Type 0} (backend : Backend B Req) where
  pub cancel-Step :
      (op : Op) (callback : ℕ) (local : L) (rt rt' : Runtime G L B)
      → cancel backend op callback local rt ≡ done rt'
      → Step rt rt'
  unfolding cancel
  cancel-Step op callback local rt rt' h = elim (Bool-cases (can_cancel op rt)) [
    | inl may ↦
        let (s, g, same) = can_cancel-eq-true op rt may in
        let ((submitted, rt₁), e, h₁) =
          >>=-eq-done (submit_cancel backend op callback local rt) _ (rw (may) at h) in
        let (step, slab) = submit_cancel-Step backend op callback local rt rt₁ submitted e in
        Step-trans step (
          marked-or-not submitted rt₁ s (ap (λ q. get_elem? q op.slot) slab ∙ g)
            (subst (λ n. 0 < n) (sym same) (omega arith)) h₁)
    | inr stale ↦ subst (Step rt) (done-injective (rw (stale) at h)) (Step-refl rt)
  ]
    where
      marked-or-not :
          (submitted : Bool) (rt₁ : Runtime G L B) (s : IoSlot L)
          → get_elem? rt₁.io_slab op.slot ≡ some s
          → 0 < id_bits s.id
          → (if submitted then mark_pending op.slot rt₁ else done rt₁) ≡ done rt'
          → Step rt₁ rt'
      marked-or-not true rt₁ s g pos h = mark_pending-Step op.slot rt₁ rt' s g pos h
      marked-or-not false rt₁ s g pos h = subst (Step rt₁) (done-injective h) (Step-refl rt₁)
