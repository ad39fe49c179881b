-- ===== src/Ops/Drive.antt =====
-- The main loop of libs/coio-core/src/runtime.rs, and its end. `none` says that the fuel ran out.
pub mod Steps
pub mod Stale
pub mod Teardown
pub mod Fuel
use mathlib.Core.Option
use conrt.Base.{
  ℕ, zero, suc, Bool, true, false, not, ◌||◌, List, [], ◌∷◌, ◌++◌, Option, none, some, ◌==◌,
  if◌then◌else◌, Outcome, done, panicked, ◌>>=◌,
}
use conrt.Ops.Ids.{is_free}
use conrt.Ops.Slots.{IoSlot}
use conrt.Ops.Cancels.{CancelSlot}
use conrt.Ops.Table.{Runtime, Backend}
use conrt.Ops.Complete.{Code, take_completion}

unfoldable pub has_inflight : {G L B : Type 0} → Runtime G L B → Bool
has_inflight rt = not (rt.inflight_ops == 0) || not (rt.inflight_cancels == 0)

module _ {G L B Req : Type 0} (backend : Backend B Req) (code : Code G L B Req) where
  -- Completions one by one until the backend has none ready.
  unfoldable pub drain_cqes : ℕ → Runtime G L B → Outcome (Option (Runtime G L B))
  unfolding take_completion
  drain_cqes zero rt = done none
  drain_cqes (suc fuel) rt =
      let (next, b) = backend.next_completion rt.backend in
      elim next [
        | none ↦ done (some (record rt { backend = b }))
        | some c ↦ take_completion backend code c (record rt { backend = b }) >>= drain_cqes fuel
      ]

  -- What follows a drain: the end if nothing is in flight, and else a wait, which may fail.
  unfoldable pub drive : ℕ → ℕ → Runtime G L B → Outcome (Option (Runtime G L B))
  unfolding drain_cqes has_inflight
  drive zero drains rt = done none
  drive (suc rounds) drains rt = drain_cqes drains rt >>= λ drained. elim drained [
    | none ↦ done none
    | some rt' ↦
        let (woken, b) = backend.wait rt'.backend in
        if has_inflight rt'
        then (if woken
            then drive rounds drains (record rt' { backend = b })
            else done (some (record rt' { backend = b })))
        else done (some rt')
  ]

module _ {L : Type 0} where
  -- The locals that live slots still own.
  unfoldable pub io_locals : List (IoSlot L) → List (Option L)
  io_locals [] = []
  io_locals (s ∷ ss) = if is_free s.id then io_locals ss else s.local ∷ io_locals ss

  unfoldable pub cancel_locals : List (CancelSlot L) → List (Option L)
  cancel_locals [] = []
  cancel_locals (s ∷ ss) = if is_free s.id then cancel_locals ss else s.local ∷ cancel_locals ss

-- `Drop`: the backend quiesces first, and then the locals are dropped, in this order.
unfoldable pub teardown : {G L B Req : Type 0} → Backend B Req → Runtime G L B → B × List (Option L)
unfolding io_locals cancel_locals
teardown backend rt =
    (backend.begin_teardown rt.backend, io_locals rt.io_slab ++ cancel_locals rt.cancel_slab)
