-- ===== src/Ops/Cancel.antt =====
-- The request of a cancellation in libs/coio-core/src/runtime.rs.
pub mod Submit
pub mod Steps
use mathlib.Core.Option
use conrt.Base.{
  ℕ, Bool, true, false, not, ◌&&◌, List, [], ◌∷◌, Option, none, some, set, get_elem?, ◌==◌,
  if◌then◌else◌, Outcome, done, panicked, ◌>>=◌, ◌>>◌, vec_get,
}
use conrt.Ops.Ids.{get, id_bits, is_cancel_pending, set_pending}
use conrt.Ops.Cancels
use conrt.Ops.Table.{
  Runtime, Backend, Op, next_op_id, alloc_cancel_slot, free_cancel_slot_dropping_local,
}

module _ {G L B : Type 0} where
  -- The op is still in its slot, and no cancellation of it is under way.
  unfoldable pub can_cancel : Op → Runtime G L B → Bool
  unfolding id_bits is_cancel_pending
  can_cancel op rt = elim (get_elem? rt.io_slab op.slot) [
    | none ↦ false
    | some slot ↦ id_bits slot.id == get op.id && not (is_cancel_pending slot.id)
  ]

  unfoldable pub mark_pending : ℕ → Runtime G L B → Outcome (Runtime G L B)
  unfolding set_pending
  mark_pending index rt = do
    slot ← vec_get rt.io_slab index
    done (record rt { io_slab = set rt.io_slab index (record slot { id = set_pending slot.id }) })

module _ {G L B Req : Type 0} (backend : Backend B Req) where
  -- Whether the cancellation was submitted.
  unfoldable pub submit_cancel : Op → ℕ → L → Runtime G L B → Outcome (Bool × Runtime G L B)
  unfolding alloc_cancel_slot next_op_id Cancels.claim free_cancel_slot_dropping_local
  submit_cancel victim callback local rt = do
    (index, rt₁) ← alloc_cancel_slot rt
    (id, rt₂) ← next_op_id rt₁
    slot ← vec_get rt₂.cancel_slab index
    claimed ← Cancels.claim id victim.slot victim.id callback local slot
    let (submitted, b) = backend.cancel index victim.slot victim.class rt₂.backend
    let rt₃ : Runtime G L B = record rt₂ {
      backend = b;
      cancel_slab = set rt₂.cancel_slab index claimed;
    }
    if submitted
        then done (true, rt₃)
        else free_cancel_slot_dropping_local index rt₃ >>= λ rt₄. done (false, rt₄)

  unfoldable pub cancel : Op → ℕ → L → Runtime G L B → Outcome (Runtime G L B)
  unfolding can_cancel submit_cancel mark_pending
  cancel op callback local rt =
      if can_cancel op rt
      then (do
        (submitted, rt') ← submit_cancel op callback local rt
        if submitted then mark_pending op.slot rt' else done rt')
      else done rt
