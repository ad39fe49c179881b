-- ===== src/Ops/Complete/Settle.antt =====
-- The end of a cancellation: the state stays well formed.
use conrt.Base.{
  ℕ, Bool, true, false, not, ◌&&◌, ◌||◌, none, some, ◌≡◌, sym, ap, subst, ◌⊎◌, arith, set,
  get_elem?, ◌==◌, length-set, inl, inr, Bool-cases, Option-cases, done, >>=-eq-done,
  assert-eq-done, done-injective, vec_get, vec_get-eq-done, expect,
}
use conrt.Base.Words.{ℤ, is_zero}
use conrt.Ops.Ids.{get, is_free, id_bits, is_cancel_pending, clear_pending}
use conrt.Ops.Cancels
use conrt.Ops.Cancels.{CancelSlot}
use conrt.Ops.Stack.Slab.{Slab-set}
use conrt.Ops.Table.{Runtime, Backend, free_cancel_slot}
use conrt.Ops.Table.Valid.{cancel_slot_link, CancelOk, Step, Step-refl, Step-trans}
use conrt.Ops.Table.Free.{free_cancel_slot-Step, free_cancel_slot_dropping_local-Step}
use conrt.Ops.Cancel.Steps.{clear_pending-same, clear_pending-IdOk, write_id-Step}
use conrt.Ops.Callback.Steps.{run_prog-Step}
use conrt.Ops.Complete.{
  Code, find_cancel_of, drop_cancel_of, unmark_pending, clear_target, complete_cancel,
  dispatch_cancel_of, settle_cancel,
}

module _ {G L B : Type 0} where
  -- The local of a cancel slot is moved out.
  take_local-Step :
      (rt : Runtime G L B) (i : ℕ) (s v : CancelSlot L) (local : L)
      → get_elem? rt.cancel_slab i ≡ some s
      → Cancels.take_local s ≡ done (local, v)
      → Step rt (record rt { cancel_slab = set rt.cancel_slab i v })
  unfolding Cancels.take_local
  take_local-Step rt i s v local g h =
      let (used, h₁) = assert-eq-done (not (is_free s.id)) _ h in
      let (l, e, h₂) = >>=-eq-done (expect s.local) _ h₁ in
      let v_is : record s { local = none } ≡ v =
        ap (λ (q : L × CancelSlot L). q.1) (done-injective h₂) in
      record {
        grows = (omega arith, omega (arith, length-set rt.cancel_slab i v), omega arith);
        keeps = λ small valid. (
          valid.0,
          Slab-set cancel_slot_link CancelOk i v s valid.1 g (ap cancel_slot_link (sym v_is))
              (subst CancelOk v_is (valid.1.each i s g)),
          valid.2,
        );
        stays_gone = λ small valid op gone. gone;
      }

  drop_cancel_of-Step :
      (i : ℕ) (rt rt' : Runtime G L B) → drop_cancel_of i rt ≡ done rt' → Step rt rt'
  unfolding drop_cancel_of
  drop_cancel_of-Step i rt rt' h = elim (Option-cases (find_cancel_of i rt)) [
    | inl e ↦ subst (Step rt) (done-injective (rw (e, drop_cancel_of) at h)) (Step-refl rt)
    | inr (c, e) ↦ free_cancel_slot_dropping_local-Step c rt rt' (rw (e, drop_cancel_of) at h)
  ]

  unmark_pending-Step :
      (i : ℕ) (rt rt' : Runtime G L B) → unmark_pending i rt ≡ done rt' → Step rt rt'
  unfolding unmark_pending
  unmark_pending-Step i rt rt' h =
      let (s, e, h₁) = >>=-eq-done (vec_get rt.io_slab i) _ h in
      subst (Step rt) (done-injective h₁) (
        write_id-Step rt i (clear_pending s.id) s (vec_get-eq-done rt.io_slab i e)
          (clear_pending-IdOk (get rt.next_id) s.id s.body) (clear_pending-same s.id))

  clear_target-Step :
      (target target_id : ℕ) (rt : Runtime G L B) → Step rt (clear_target target target_id rt)
  unfolding clear_target
  clear_target-Step target target_id rt = elim (Option-cases (get_elem? rt.io_slab target)) [
    | inl e ↦ rw (e, clear_target) (Step-refl rt)
    | inr (s, e) ↦
        rw (e, clear_target)
          (elim (Bool-cases (is_cancel_pending s.id && id_bits s.id == target_id)) [
            | inl t ↦ rw (t) (
                write_id-Step rt target (clear_pending s.id) s e
                  (clear_pending-IdOk (get rt.next_id) s.id s.body) (clear_pending-same s.id))
            | inr t ↦ rw (t) (Step-refl rt)
          ])
  ]

  pub complete_cancel-Step :
      (i : ℕ) (result : ℤ) (rt rt' : Runtime G L B)
      → complete_cancel i result rt ≡ done rt'
      → Step rt rt'
  unfolding complete_cancel
  complete_cancel-Step i result rt rt' h = elim (Option-cases (get_elem? rt.cancel_slab i)) [
    | inl e ↦ subst (Step rt) (done-injective (rw (e, complete_cancel) at h)) (Step-refl rt)
    | inr (s, e) ↦ live_or_not s e (Bool-cases (is_free s.id || is_zero result))
  ]
    where
      live_or_not :
          (s : CancelSlot L)
          → get_elem? rt.cancel_slab i ≡ some s
          → ((is_free s.id || is_zero result) ≡ true) ⊎ ((is_free s.id || is_zero result) ≡ false)
          → Step rt rt'
      live_or_not s e (inl t) =
          subst (Step rt) (done-injective (rw (e, complete_cancel, t) at h)) (Step-refl rt)
      live_or_not s e (inr t) =
          let ((local, v), l, h₁) =
            >>=-eq-done (Cancels.take_local s) _ (rw (e, complete_cancel, t) at h) in
          let (rt₁, f, h₂) =
            >>=-eq-done (free_cancel_slot i (record rt { cancel_slab = set rt.cancel_slab i v })) _
              h₁ in
          subst (Step rt) (done-injective h₂) (
            Step-trans (take_local-Step rt i s v local e l) (
              Step-trans (free_cancel_slot-Step i _ rt₁ f)
                (clear_target-Step s.target s.target_id rt₁)))

module _ {G L B Req : Type 0} (backend : Backend B Req) (code : Code G L B Req) where
  dispatch_cancel_of-Step :
      (i : ℕ) (victim victim' : L) (rt rt' : Runtime G L B)
      → dispatch_cancel_of backend code i victim rt ≡ done (victim', rt')
      → Step rt rt'
  unfolding dispatch_cancel_of
  dispatch_cancel_of-Step i victim victim' rt rt' h = elim (Option-cases (find_cancel_of i rt)) [
    | inl e ↦
        subst (Step rt)
          (ap (λ (q : L × Runtime G L B). q.1) (done-injective (rw (e, dispatch_cancel_of) at h)))
          (Step-refl rt)
    | inr (c, e) ↦
        let (s, g, h₁) =
          >>=-eq-done (vec_get rt.cancel_slab c) _ (rw (e, dispatch_cancel_of) at h) in
        let (callback, b, h₂) = >>=-eq-done (Cancels.callback_of s) _ h₁ in
        let ((own, v), l, h₃) = >>=-eq-done (Cancels.take_local s) _ h₂ in
        let (rt₁, f, h₄) =
          >>=-eq-done (free_cancel_slot c (record rt { cancel_slab = set rt.cancel_slab c v })) _
            h₃ in
        Step-trans (take_local-Step rt c s v own (vec_get-eq-done rt.cancel_slab c g) l) (
          Step-trans (free_cancel_slot-Step c _ rt₁ f)
            (run_prog-Step backend (code.on_cancelled callback victim own) victim' rt₁ rt' h₄))
  ]

  pub settle_cancel-Step :
      (i : ℕ) (pending won : Bool) (local local' : L) (rt rt' : Runtime G L B)
      → settle_cancel backend code i pending won local rt ≡ done (local', rt')
      → Step rt rt'
  unfolding settle_cancel
  settle_cancel-Step i false won local local' rt rt' h =
      subst (Step rt) (ap (λ (q : L × Runtime G L B). q.1) (done-injective h)) (Step-refl rt)
  settle_cancel-Step i true true local local' rt rt' h =
      let ((local₁, rt₁), d, h₁) = >>=-eq-done (dispatch_cancel_of backend code i local rt) _ h in
      let (rt₂, u, h₂) = >>=-eq-done (unmark_pending i rt₁) _ h₁ in
      subst (Step rt) (ap (λ (q : L × Runtime G L B). q.1) (done-injective h₂)) (
        Step-trans (dispatch_cancel_of-Step i local local₁ rt rt₁ d)
          (unmark_pending-Step i rt₁ rt₂ u))
  settle_cancel-Step i true false local local' rt rt' h =
      let (rt₁, d, h₁) = >>=-eq-done (drop_cancel_of i rt) _ h in
      let (rt₂, u, h₂) = >>=-eq-done (unmark_pending i rt₁) _ h₁ in
      subst (Step rt) (ap (λ (q : L × Runtime G L B). q.1) (done-injective h₂))
        (Step-trans (drop_cancel_of-Step i rt rt₁ d) (unmark_pending-Step i rt₁ rt₂ u))
