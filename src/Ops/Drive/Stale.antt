-- ===== src/Ops/Drive/Stale.antt =====
-- A handle of an op that has completed.
use conrt.Base.{
  get_elem?-set, ℕ, ◌<◌, ◌≢◌, Bool, true, false, not, some, ◌≡◌, refl, sym, ap, subst, ◌∙◌, arith,
  get_elem?, get_elem?-lt, ltb, if◌then◌else◌, inl, inr, Option-cases, Outcome, done, >>=-eq-done,
  assert-eq-done, done-injective, vec_get, vec_get-eq-done,
}
use conrt.Ops.Ids.{get, is_free, id_bits}
use conrt.Ops.Slots
use conrt.Ops.Slots.{IoSlot}
use conrt.Ops.Table.{Runtime, Backend, Op, Completion, free_op_slot_taken}
use conrt.Ops.Table.Valid.{Small-before, Valid, Small, Gone}
use conrt.Ops.Table.Free.{op_push_free-eq-done, zero-bits, free_op_slot_taken-Step}
use conrt.Ops.Cancel.{can_cancel, cancel}
use conrt.Ops.Complete.{Code, complete_live, complete_op, take_completion}
use conrt.Ops.Complete.Steps.{complete_live-eq-done, take_completion-Step}
use conrt.Ops.Table.Fresh.{IdOk-below}
use conrt.Ops.Drive.{drive}
use conrt.Ops.Drive.Steps.{drive-Step}

not-eq-true : (b : Bool) → not b ≡ true → b ≡ false
not-eq-true true h = cc
not-eq-true false h = refl

module _ {G L B : Type 0} where
  -- The handle is of the op in its slot.
  abbrev pub Names : Op → Runtime G L B → Type 0
  Names op rt =
      (s : IoSlot L) × (get_elem? rt.io_slab op.slot ≡ some s) × (id_bits s.id ≡ get op.id)

  free_op_slot_taken-Gone :
      (op : Op) (rt rt' : Runtime G L B)
      → get op.id < get rt.next_id
      → free_op_slot_taken op.slot rt ≡ done rt'
      → Gone op rt'
  unfolding free_op_slot_taken
  free_op_slot_taken-Gone op rt rt' old h =
      let (some_used, h₁) = assert-eq-done (ltb 0 rt.inflight_ops) _ h in
      let (s, e, h₂) = >>=-eq-done (vec_get rt.io_slab op.slot) _ h₁ in
      let (v, f, h₃) = >>=-eq-done (Slots.push_free rt.free_slots_head s) _ h₂ in
      let (used, l, z) = op_push_free-eq-done rt.free_slots_head s v f in
      let here = get_elem?-lt rt.io_slab op.slot (vec_get-eq-done rt.io_slab op.slot e) in
      subst (Gone op) (done-injective h₃) (
        old,
        λ t gt.
            let t_is : t ≡ v =
              ground (arith, get_elem?-set rt.io_slab op.slot op.slot v here, gt) in
            subst (λ n. id_bits n ≢ get op.id) (sym (ap (λ (q : IoSlot L). q.id) t_is ∙ z))
              (zero-bits (get op.id) (omega arith)),
      )

  can_cancel-Gone : (op : Op) (rt : Runtime G L B) → Gone op rt → can_cancel op rt ≡ false
  unfolding can_cancel
  can_cancel-Gone op rt gone = elim (Option-cases (get_elem? rt.io_slab op.slot)) [
    | inl e ↦ rw (e, can_cancel) refl
    | inr (s, e) ↦ rw (e, can_cancel) (ground (arith, gone.1 s e))
  ]

module _ {G L B Req : Type 0} (backend : Backend B Req) (code : Code G L B Req) where
  complete_live-Gone :
      (op : Op) (c : Completion) (s : IoSlot L) (rt rt' : Runtime G L B)
      → get_elem? rt.io_slab op.slot ≡ some s
      → get op.id < get rt.next_id
      → Valid rt
      → Small rt'
      → complete_live backend code op.slot c s rt ≡ done rt'
      → Gone op rt'
  complete_live-Gone op c s rt rt' g old valid small h =
      let (rt₁, rt₂, before, f, after) =
        complete_live-eq-done backend code op.slot c s rt rt' g h in
      let freed = free_op_slot_taken-Step op.slot rt₁ rt₂ f in
      let small₂ = Small-before after small in
      after.stays_gone small (freed.keeps small₂ (before.keeps (Small-before freed small₂) valid))
        op (free_op_slot_taken-Gone op rt₁ rt₂ (omega (arith, old, before.grows.2)) f)

  complete_op-live :
      (i : ℕ) (c : Completion) (s : IoSlot L) (rt rt' : Runtime G L B)
      → get_elem? rt.io_slab i ≡ some s
      → is_free s.id ≡ false
      → complete_op backend code i c rt ≡ done rt'
      → complete_live backend code i c s rt ≡ done rt'
  unfolding complete_op
  complete_op-live i c s rt rt' g used h =
      if_false (is_free s.id) _ _ used (rw (g, complete_op) at h)
    where
      if_false :
          (b : Bool) (x y : Outcome (Runtime G L B))
          → b ≡ false
          → (if b then x else y) ≡ done rt'
          → y ≡ done rt'
      if_false true x y e h = cc
      if_false false x y e h = h

  take_completion-Gone :
      (op : Op) (c : Completion) (rt rt' : Runtime G L B)
      → c.cancel ≡ false
      → c.slot ≡ op.slot
      → Names op rt
      → Valid rt
      → Small rt'
      → take_completion backend code c rt ≡ done rt'
      → Gone op rt'
  unfolding take_completion
  take_completion-Gone op c rt rt' an_op at (s, g, own) valid small h =
      let (t, e, h₁) =
        >>=-eq-done (vec_get rt.io_slab c.slot) _ (rw (an_op, take_completion) at h) in
      let (used, h₂) = assert-eq-done (not (is_free t.id)) _ h₁ in
      let g' : get_elem? rt.io_slab c.slot ≡ some s = ap (get_elem? rt.io_slab) at ∙ g in
      let same : t ≡ s = ground (arith, vec_get-eq-done rt.io_slab c.slot e, g') in
      let live_s : is_free s.id ≡ false =
        ap (λ (q : IoSlot L). is_free q.id) (sym same) ∙ not-eq-true (is_free t.id) used in
      let below = (IdOk-below (get rt.next_id) s.id s.body (valid.0.each c.slot s g') live_s).0 in
      complete_live-Gone op c s rt rt' g (omega (arith, below, own)) valid small (
        subst (λ i. complete_live backend code i c s rt ≡ done rt') at
          (complete_op-live c.slot c s rt rt' g' live_s h₂))

  -- Where the state is well formed and a handle names the op in its slot, once a completion of that
  -- slot has been taken, and the loop has gone on from there to its end with fewer than 2^32 - 1
  -- slots in each slab, a cancellation through the handle changes nothing, whatever the callbacks
  -- did meanwhile.
  pub drive-stale :
      (op : Op) (c : Completion) (rounds drains : ℕ) (rt rt' rt'' : Runtime G L B) (callback : ℕ)
      (local : L)
      → Valid rt
      → Names op rt
      → c.cancel ≡ false
      → c.slot ≡ op.slot
      → take_completion backend code c rt ≡ done rt'
      → drive backend code rounds drains rt' ≡ done (some rt'')
      → Small rt''
      → cancel backend op callback local rt'' ≡ done rt''
  unfolding cancel
  drive-stale op c rounds drains rt rt' rt'' callback local valid names an_op at h h' small =
      let step = drive-Step backend code rounds drains rt' rt'' h' in
      let small' = Small-before step small in
      let gone = take_completion-Gone op c rt rt' an_op at names valid small' h in
      let valid' = (take_completion-Step backend code c rt rt' h).keeps small' valid in
      rw (can_cancel-Gone op rt'' (step.stays_gone small valid' op gone), cancel) refl
