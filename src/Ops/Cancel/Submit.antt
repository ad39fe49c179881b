-- ===== src/Ops/Cancel/Submit.antt =====
-- `submit_cancel`: the state stays well formed, whether the backend takes the request or not, and the op
-- slots are as before.
use conrt.Base.{
  ℕ, ◌<◌, Bool, true, false, none, ◌≡◌, sym, ap, subst, ◌∙◌, arith, set, if◌then◌else◌, length-set,
  Outcome, done, ltb, >>=-eq-done, assert-eq-done, done-injective, vec_get, expect, ◌>>=◌,
}
use conrt.Ops.Ids.{NonZero, get, after, cancel_bit, is_free}
use conrt.Ops.Cancels
use conrt.Ops.Cancels.{CancelSlot, CancelBody, cancel_done, cancel_link}
use conrt.Ops.Stack.Take.{Taken-grows}
use conrt.Ops.Stack.Slab.{Slab-take, Slab-weaken}
use conrt.Ops.Table.{
  Runtime, Backend, Op, alloc_cancel_slot, next_op_id, free_cancel_slot_dropping_local,
}
use conrt.Ops.Table.Valid.{
  cancel_body_link, cancel_slot_link, CancelIdOk, CancelOk, Step, Step-trans,
}
use conrt.Ops.Table.Takes.{TakesCancel, with_cancel_slot, alloc_cancel_slot-TakesCancel}
use conrt.Ops.Table.Free.{free_cancel_slot_dropping_local-Step}
use conrt.Ops.Table.Register.{IdOk-weaken, next_op_id-eq-done}
use conrt.Ops.Cancel.{submit_cancel}

module _ {L : Type 0} where
  claim-eq-done :
      (id : NonZero) (target : ℕ) (target_id : NonZero) (callback : ℕ) (local : L)
      (s v : CancelSlot L)
      → Cancels.claim id target target_id callback local s ≡ done v
      → (v.body ≡ cancel_done callback) × (v.id ≡ get id)
  unfolding Cancels.claim
  claim-eq-done id target target_id callback local s v h =
      let (free, h₁) = assert-eq-done (is_free s.id) _ h in
      let e = done-injective h₁ in
      (ap (λ (s : CancelSlot L). s.body) (sym e), ap (λ (s : CancelSlot L). s.id) (sym e))

module _ {G L B : Type 0} where
  claimed-Step :
      (rt : Runtime G L B) (index : ℕ) (t : TakesCancel rt index) (v : CancelSlot L) (b : B)
      (callback : ℕ)
      → v.body ≡ cancel_done callback
      → v.id ≡ get rt.next_id
      → get rt.next_id < cancel_bit
      → Step rt (record (with_cancel_slot t.slab t.head rt) {
        backend = b;
        cancel_slab = set t.slab index v;
        next_id = after rt.next_id;
      })
  claimed-Step rt index t v b callback vb vi below = record {
    grows = (
      omega arith,
      omega (arith, Taken-grows cancel_slot_link t.taken, length-set t.slab index v),
      omega arith,
    );
    keeps = λ small valid. (
      Slab-weaken
          (λ s. IdOk-weaken (get rt.next_id) (get (after rt.next_id)) s.id s.body (omega arith))
          valid.0,
      Slab-take cancel_slot_link CancelOk v valid.1 t.taken (ap cancel_body_link vb)
          (subst (λ b. CancelIdOk b v.id) (sym vb) (subst (λ i. 0 < i) (sym vi) (omega arith)))
          (omega (arith, small.1, length-set t.slab index v)),
      omega (arith, below),
    );
    stays_gone = λ small valid op gone. (omega (arith, gone.0), gone.1);
  }

  free_cancel_slot_dropping_local-slab :
      (i : ℕ) (rt rt' : Runtime G L B)
      → free_cancel_slot_dropping_local i rt ≡ done rt'
      → rt'.io_slab ≡ rt.io_slab
  unfolding free_cancel_slot_dropping_local
  free_cancel_slot_dropping_local-slab i rt rt' h =
      let (some_used, h₁) = assert-eq-done (ltb 0 rt.inflight_cancels) _ h in
      let (s, e, h₂) = >>=-eq-done (vec_get rt.cancel_slab i) _ h₁ in
      let (dropped, d, h₃) = >>=-eq-done (expect s.local) _ h₂ in
      let (v, f, h₄) =
        >>=-eq-done (Cancels.push_free rt.free_cancels_head (record s { local = none })) _ h₃ in
      ap (λ (q : Runtime G L B). q.io_slab) (sym (done-injective h₄))

  submitted-or-freed :
      (submitted : Bool) (index : ℕ) (rt rt₃ rt' : Runtime G L B) (res : Bool)
      → Step rt rt₃
      → rt₃.io_slab ≡ rt.io_slab
      → if◌then◌else◌ {A = Outcome (Bool × Runtime G L B)} submitted
          (done (true, rt₃))
          (free_cancel_slot_dropping_local index rt₃ >>= λ rt₄. done (false, rt₄))
        ≡ done (res, rt')
      → Step rt rt' × (rt'.io_slab ≡ rt.io_slab)
  submitted-or-freed true index rt rt₃ rt' res step same h =
      subst (λ q. Step rt q × (q.io_slab ≡ rt.io_slab))
        (ap (λ (q : Bool × Runtime G L B). q.1) (done-injective h)) (step, same)
  submitted-or-freed false index rt rt₃ rt' res step same h =
      let (rt₄, r, h₁) = >>=-eq-done (free_cancel_slot_dropping_local index rt₃) _ h in
      subst (λ q. Step rt q × (q.io_slab ≡ rt.io_slab))
        (ap (λ (q : Bool × Runtime G L B). q.1) (done-injective h₁))
        (
          Step-trans step (free_cancel_slot_dropping_local-Step index rt₃ rt₄ r),
          free_cancel_slot_dropping_local-slab index rt₃ rt₄ r ∙ same,
        )

module _ {G L B Req : Type 0} (backend : Backend B Req) where
  pub submit_cancel-Step :
      (victim : Op) (callback : ℕ) (local : L) (rt rt' : Runtime G L B) (res : Bool)
      → submit_cancel backend victim callback local rt ≡ done (res, rt')
      → Step rt rt' × (rt'.io_slab ≡ rt.io_slab)
  unfolding submit_cancel
  submit_cancel-Step victim callback local rt rt' res h =
      let ((index, rt₁), a, h₁) = >>=-eq-done (alloc_cancel_slot rt) _ h in
      let ((id, rt₂), n, h₂) = >>=-eq-done (next_op_id rt₁) _ h₁ in
      let (before, g, h₃) = >>=-eq-done (vec_get rt₂.cancel_slab index) _ h₂ in
      let (slot, c, h₄) =
        >>=-eq-done (Cancels.claim id victim.slot victim.id callback local before) _ h₃ in
      let (takes, e₁) = alloc_cancel_slot-TakesCancel rt rt₁ index a in
      let (low, e_id, e_rt) = next_op_id-eq-done rt₁ rt₂ id n in
      let same_id : id ≡ rt.next_id = e_id ∙ ap (λ (q : Runtime G L B). q.next_id) e₁ in
      let e₂ : rt₂
          ≡ record (with_cancel_slot takes.slab takes.head rt) { next_id = after rt.next_id } =
        e_rt ∙ ap (λ (q : Runtime G L B). record q { next_id = after q.next_id }) e₁ in
      let (body, slot_id) = claim-eq-done id victim.slot victim.id callback local before slot c in
      submitted-or-freed _ index rt _ rt' res
        (subst
          (λ (q : Runtime G L B). Step rt (record q {
            backend = (backend.cancel index victim.slot victim.class q.backend).1;
            cancel_slab = set q.cancel_slab index slot;
          }))
          (sym e₂)
          (claimed-Step rt index takes slot _ callback body (slot_id ∙ ap get same_id)
            (subst (λ n. get n < cancel_bit) (ap (λ (q : Runtime G L B). q.next_id) e₁) low)))
        (ap (λ (q : Runtime G L B). q.io_slab) e₂) h₄
