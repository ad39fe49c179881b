-- ===== src/Ops/Complete.antt =====
-- Cancellation and completion in libs/coio-core/src/runtime.rs. `code` says what the function pointers
-- do: a shim gets the op's local and buffers, a cancel's callback gets both locals and hands back the
-- op's.
pub mod Settle
pub mod Steps
use mathlib.Core.Option
use conrt.Base.{
  ℕ, zero, suc, ◌+◌, ◌-◌, Bool, true, false, not, ◌&&◌, ◌||◌, List, [], ◌∷◌, Option, none, some,
  length, set, get_elem?, ltb, ◌==◌, if◌then◌else◌, Outcome, done, panicked, ◌>>=◌, ◌>>◌, assert,
  vec_get, expect,
}
use conrt.Base.Words.{ℤ, is_zero}
use conrt.Ops.Arena
use conrt.Ops.Arena.{IoBufErased, Run, run_bufs, release_run}
use conrt.Ops.Ids.{is_free, id_bits, is_cancel_pending, set_pending, clear_pending}
use conrt.Ops.Slots
use conrt.Ops.Slots.{IoSlot}
use conrt.Ops.Cancels
use conrt.Ops.Cancels.{CancelSlot}
use conrt.Ops.Callback.{Prog, run_prog}
use conrt.Ops.Table.{
  Runtime, Backend, Op, Completion, next_op_id, alloc_cancel_slot, free_cancel_slot,
  free_cancel_slot_dropping_local, free_op_slot_taken,
}

pub data OpOutcome : Type 0 where
  completed : (result : ℤ) (flags : ℕ) → OpOutcome
  cancelled : OpOutcome

abbrev pub outcome_of : Bool → Completion → OpOutcome
outcome_of won c = if won then cancelled else completed c.result c.flags

pub record OpShimArgs (L : Type 0) : Type 0 where
  pub local : L
  pub bufs : List IoBufErased
  pub outcome : OpOutcome
  pub callback : ℕ
  pub class : ℕ

-- What the function pointers do.
pub record Code (G L B Req : Type 0) : Type 0 where
  pub shim : ℕ → OpShimArgs L → Prog G L B Req (Unit {0})
  pub on_cancelled : ℕ → (victim own : L) → Prog G L B Req L

module _ {L : Type 0} where
  -- `cancel_slab.iter().position(..)`
  unfoldable pub position_of : (target target_id : ℕ) → List (CancelSlot L) → Option ℕ
  position_of target target_id [] = none
  position_of target target_id (c ∷ cs) =
      if not (is_free c.id) && (c.target == target && c.target_id == target_id)
      then some 0
      else Option.map suc (position_of target target_id cs)

module _ {G L B : Type 0} where
  unfoldable pub find_cancel_of : ℕ → Runtime G L B → Option ℕ
  unfolding position_of clear_pending
  find_cancel_of index rt = elim (get_elem? rt.io_slab index) [
    | none ↦ none
    | some slot ↦
        if is_free slot.id then none else position_of index (clear_pending slot.id) rt.cancel_slab
  ]

  unfoldable pub drop_cancel_of : ℕ → Runtime G L B → Outcome (Runtime G L B)
  unfolding find_cancel_of free_cancel_slot_dropping_local
  drop_cancel_of index rt = elim (find_cancel_of index rt) [
    | none ↦ done rt
    | some c ↦ free_cancel_slot_dropping_local c rt
  ]

  unfoldable pub unmark_pending : ℕ → Runtime G L B → Outcome (Runtime G L B)
  unfolding clear_pending
  unmark_pending index rt = do
    slot ← vec_get rt.io_slab index
    done (record rt { io_slab = set rt.io_slab index (record slot { id = clear_pending slot.id }) })

  -- The mark of the op that a lost cancellation named, if it is still there.
  unfoldable pub clear_target : (target target_id : ℕ) → Runtime G L B → Runtime G L B
  unfolding id_bits is_cancel_pending clear_pending
  clear_target target target_id rt = elim (get_elem? rt.io_slab target) [
    | none ↦ rt
    | some slot ↦
        if is_cancel_pending slot.id && id_bits slot.id == target_id
        then record rt {
          io_slab = set rt.io_slab target (record slot { id = clear_pending slot.id });
        }
        else rt
  ]

  -- The cancellation's own completion: its local is dropped if it did not take effect.
  unfoldable pub complete_cancel : ℕ → ℤ → Runtime G L B → Outcome (Runtime G L B)
  unfolding Cancels.take_local free_cancel_slot clear_target
  complete_cancel index result rt = elim (get_elem? rt.cancel_slab index) [
    | none ↦ done rt
    | some slot ↦ if is_free slot.id || is_zero result then done rt else (do
      (dropped, taken) ← Cancels.take_local slot
      rt' ← free_cancel_slot index (record rt { cancel_slab = set rt.cancel_slab index taken })
      done (clear_target slot.target slot.target_id rt'))
  ]

module _ {G L B Req : Type 0} (backend : Backend B Req) (code : Code G L B Req) where
  -- The arena is put aside while the shim runs, and put back after it with the run released.
  unfoldable pub dispatch_shim :
      ℕ → Option Run → OpOutcome → ℕ → L → ℕ → Runtime G L B → Outcome (Runtime G L B)
  unfolding run_bufs release_run run_prog
  dispatch_shim shim run outcome callback local class rt = do
    let arena = rt.buf_arena
    bufs ← run_bufs run arena
    (_, rt') ←
        run_prog backend
          (code.shim shim (record {
            local = local;
            bufs = bufs;
            outcome = outcome;
            callback = callback;
            class = class;
          }))
          (record rt { buf_arena = Arena.new })
    arena' ← release_run run arena
    done (record rt' { buf_arena = arena' })

  -- The cancel's callback, with the op's local that it may change.
  unfoldable pub dispatch_cancel_of : ℕ → L → Runtime G L B → Outcome (L × Runtime G L B)
  unfolding run_prog find_cancel_of Cancels.callback_of Cancels.take_local free_cancel_slot
  dispatch_cancel_of index victim rt = elim (find_cancel_of index rt) [
    | none ↦ done (victim, rt)
    | some c ↦ do
      slot ← vec_get rt.cancel_slab c
      callback ← Cancels.callback_of slot
      (own, taken) ← Cancels.take_local slot
      rt' ← free_cancel_slot c (record rt { cancel_slab = set rt.cancel_slab c taken })
      run_prog backend (code.on_cancelled callback victim own) rt'
  ]

  -- What becomes of the cancellation of an op that completes: its callback runs if it won, its local
  -- is dropped if it lost, and the mark goes.
  unfoldable pub settle_cancel :
      ℕ → (pending won : Bool) → L → Runtime G L B → Outcome (L × Runtime G L B)
  unfolding dispatch_cancel_of drop_cancel_of unmark_pending
  settle_cancel index false won local rt = done (local, rt)
  settle_cancel index true true local rt = do
    (local', rt') ← dispatch_cancel_of index local rt
    rt'' ← unmark_pending index rt'
    done (local', rt'')
  settle_cancel index true false local rt = do
    rt' ← drop_cancel_of index rt
    rt'' ← unmark_pending index rt'
    done (local, rt'')

  unfoldable pub complete_live : ℕ → Completion → IoSlot L → Runtime G L B → Outcome (Runtime G L B)
  unfolding is_cancel_pending Slots.live_body Slots.take_buf_run Slots.take_local settle_cancel
      free_op_slot_taken dispatch_shim
  complete_live index c slot rt = do
    let pending = is_cancel_pending slot.id
    let won = pending && c.cancelled
    (shim, callback) ← Slots.live_body slot
    let (run, emptied) = Slots.take_buf_run slot
    (local, taken) ← Slots.take_local emptied
    (local', rt₁) ←
        settle_cancel index pending won local (record rt { io_slab = set rt.io_slab index taken })
    rt₂ ← free_op_slot_taken index rt₁
    dispatch_shim shim run (outcome_of won c) callback local' c.class rt₂

  unfoldable pub complete_op : ℕ → Completion → Runtime G L B → Outcome (Runtime G L B)
  unfolding complete_live
  complete_op index c rt = elim (get_elem? rt.io_slab index) [
    | none ↦ done rt
    | some slot ↦ if is_free slot.id then done rt else complete_live index c slot rt
  ]

  -- A completion is for the slab that it names; the slot of an op has to be live.
  unfoldable pub take_completion : Completion → Runtime G L B → Outcome (Runtime G L B)
  unfolding complete_cancel complete_op
  take_completion c rt =
      if c.cancel
      then (do assert (ltb c.slot (length rt.cancel_slab)); complete_cancel c.slot c.result rt)
      else (do
        slot ← vec_get rt.io_slab c.slot
        assert (not (is_free slot.id))
        complete_op c.slot c rt)
