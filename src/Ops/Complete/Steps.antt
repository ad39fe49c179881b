-- ===== src/Ops/Complete/Steps.antt =====
-- A completion taken: the state stays well formed, whatever the shim and the callbacks do.
use conrt.Base.{
  ℕ, Bool, true, false, not, ◌&&◌, Option, some, ◌≡◌, sym, ap, subst, length, set, get_elem?, ltb,
  if◌then◌else◌, inl, inr, Bool-cases, Option-cases, done, >>=-eq-done, assert-eq-done,
  done-injective, vec_get, expect,
}
use conrt.Ops.Arena
use conrt.Ops.Arena.{Run, run_bufs, release_run}
use conrt.Ops.Ids.{is_free, is_cancel_pending}
use conrt.Ops.Slots
use conrt.Ops.Slots.{IoSlot}
use conrt.Ops.Table.{Runtime, Backend, Completion, free_op_slot_taken}
use conrt.Ops.Table.Valid.{Step, Step-refl, Step-trans}
use conrt.Ops.Table.Free.{free_op_slot_taken-Step}
use conrt.Ops.Table.Register.{write-Step}
use conrt.Ops.Callback.{run_prog}
use conrt.Ops.Callback.Steps.{run_prog-Step, same-Step}
use conrt.Ops.Complete.{
  Code, OpOutcome, OpShimArgs, outcome_of, dispatch_shim, settle_cancel, complete_live, complete_op,
  take_completion,
}
use conrt.Ops.Complete.Settle.{complete_cancel-Step, settle_cancel-Step}

module _ {L : Type 0} where
  take_local-eq-done :
      (s v : IoSlot L) (local : L)
      → Slots.take_local (record s { buf = Arena.buf_none; buf_len = 0 }) ≡ done (local, v)
      → (v.body ≡ s.body) × (v.id ≡ s.id)
  unfolding Slots.take_local
  take_local-eq-done s v local h =
      let (used, h₁) = assert-eq-done (not (is_free s.id)) _ h in
      let (l, e, h₂) = >>=-eq-done (expect s.local) _ h₁ in
      let p = done-injective h₂ in
      (ap (λ (q : L × IoSlot L). q.1.body) (sym p), ap (λ (q : L × IoSlot L). q.1.id) (sym p))

module _ {G L B Req : Type 0} (backend : Backend B Req) (code : Code G L B Req) where
  dispatch_shim-Step :
      (shim : ℕ) (run : Option Run) (outcome : OpOutcome) (callback : ℕ) (local : L) (class : ℕ)
      (rt rt' : Runtime G L B)
      → dispatch_shim backend code shim run outcome callback local class rt ≡ done rt'
      → Step rt rt'
  unfolding dispatch_shim
  dispatch_shim-Step shim run outcome callback local class rt rt' h =
      let (bufs, b, h₁) = >>=-eq-done (run_bufs run rt.buf_arena) _ h in
      let away : Runtime G L B = record rt { buf_arena = Arena.new } in
      let args : OpShimArgs L = record {
        local = local;
        bufs = bufs;
        outcome = outcome;
        callback = callback;
        class = class;
      } in
      let ((unit, rt₁), p, h₂) = >>=-eq-done (run_prog backend (code.shim shim args) away) _ h₁ in
      let (arena, a, h₃) = >>=-eq-done (release_run run rt.buf_arena) _ h₂ in
      subst (Step rt) (done-injective h₃) (
        Step-trans (same-Step rt away) (
          Step-trans (run_prog-Step backend (code.shim shim args) unit away rt₁ p)
            (same-Step rt₁ (record rt₁ { buf_arena = arena }))))

  -- The completion of a live op: steps, the slot freed, and then the shim.
  pub complete_live-eq-done :
      (i : ℕ) (c : Completion) (s : IoSlot L) (rt rt' : Runtime G L B)
      → get_elem? rt.io_slab i ≡ some s
      → complete_live backend code i c s rt ≡ done rt'
      → (rt₁ : Runtime G L B) × (rt₂ : Runtime G L B) × Step rt rt₁
        × (free_op_slot_taken i rt₁ ≡ done rt₂)
        × Step rt₂ rt'
  unfolding complete_live Slots.take_buf_run
  complete_live-eq-done i c s rt rt' g h =
      let pending = is_cancel_pending s.id in
      let ((shim, callback), b, h₁) = >>=-eq-done (Slots.live_body s) _ h in
      let ((local, v), l, h₂) =
        >>=-eq-done (Slots.take_local (record s { buf = Arena.buf_none; buf_len = 0 })) _ h₁ in
      let (body, id) = take_local-eq-done s v local l in
      let rt₀ : Runtime G L B = record rt { io_slab = set rt.io_slab i v } in
      let ((local', rt₁), e, h₃) =
        >>=-eq-done (settle_cancel backend code i pending (pending && c.cancelled) local rt₀) _
          h₂ in
      let (rt₂, f, h₄) = >>=-eq-done (free_op_slot_taken i rt₁) _ h₃ in
      (
        rt₁,
        rt₂,
        Step-trans (write-Step rt i s v rt.buf_arena g body id) (
            settle_cancel-Step backend code i pending (pending && c.cancelled) local local' rt₀ rt₁
              e),
        f,
        dispatch_shim-Step shim _ (outcome_of (pending && c.cancelled) c) callback local' c.class
            rt₂ rt' h₄,
      )

  complete_op-Step :
      (i : ℕ) (c : Completion) (rt rt' : Runtime G L B)
      → complete_op backend code i c rt ≡ done rt'
      → Step rt rt'
  unfolding complete_op
  complete_op-Step i c rt rt' h = elim (Option-cases (get_elem? rt.io_slab i)) [
    | inl e ↦ subst (Step rt) (done-injective (rw (e, complete_op) at h)) (Step-refl rt)
    | inr (s, e) ↦ free_or_live s e (is_free s.id) (rw (e, complete_op) at h)
  ]
    where
      free_or_live :
          (s : IoSlot L)
          → get_elem? rt.io_slab i ≡ some s
          → (free : Bool)
          → (if free then done rt else complete_live backend code i c s rt) ≡ done rt'
          → Step rt rt'
      free_or_live s e true h = subst (Step rt) (done-injective h) (Step-refl rt)
      free_or_live s e false h =
          let (rt₁, rt₂, before, f, after) = complete_live-eq-done i c s rt rt' e h in
          Step-trans before (Step-trans (free_op_slot_taken-Step i rt₁ rt₂ f) after)

  pub take_completion-Step :
      (c : Completion) (rt rt' : Runtime G L B)
      → take_completion backend code c rt ≡ done rt'
      → Step rt rt'
  unfolding take_completion
  take_completion-Step c rt rt' h = elim (Bool-cases c.cancel) [
    | inl t ↦
        let (in_range, h₁) =
          assert-eq-done (ltb c.slot (length rt.cancel_slab)) _ (rw (t, take_completion) at h) in
        complete_cancel-Step c.slot c.result rt rt' h₁
    | inr t ↦
        let (s, g, h₁) = >>=-eq-done (vec_get rt.io_slab c.slot) _ (rw (t, take_completion) at h) in
        let (used, h₂) = assert-eq-done (not (is_free s.id)) _ h₁ in
        complete_op-Step c.slot c rt rt' h₂
  ]
