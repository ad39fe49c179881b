-- ===== src/Ops/Table.antt =====
-- The runtime of libs/coio-core/src/runtime.rs: its slabs and their free stacks, and the dispatch of
-- an op. The backend of libs/coio-core/src/backend.rs is a record of functions on a state of its own.
-- The thread's id counter is a field; the `u32` counts stay below the number of slots.
pub mod Valid
pub mod Takes
pub mod Free
pub mod Register
pub mod Claims
pub mod Fresh
pub mod Returns
use mathlib.Core.Option
use conrt.Base.{
  ℕ, zero, suc, ◌+◌, ◌-◌, ◌%◌, ◌^◌, Bool, true, false, not, List, [], ◌∷◌, ◌++◌, Option, none, some,
  length, set, get_elem?, ltb, ◌==◌, if◌then◌else◌, Outcome, done, panicked, ◌>>=◌, ◌>>◌, assert,
  vec_get, expect, IoResult, ok, err,
}
use conrt.Base.Words.{ℤ}
use conrt.Ops.Arena
use conrt.Ops.Arena.{BufArena, IoBufErased, Run, alloc_buf_run, release_run, buf_none}
use conrt.Ops.Ids.{NonZero, get, after, cancel_bit, is_free, free_none}
use conrt.Ops.Slots
use conrt.Ops.Slots.{IoSlot}
use conrt.Ops.Cancels
use conrt.Ops.Cancels.{CancelSlot}

pub record Completion : Type 0 where
  pub slot : ℕ
  pub result : ℤ
  pub flags : ℕ
  pub class : ℕ
  pub cancel : Bool
  pub cancelled : Bool

-- `arm` and `wait` say whether they succeed, and `cancel` whether the request is submitted.
pub record Backend (B Req : Type 0) : Type 0 where
  pub arm : (slot class : ℕ) → Req → B → Bool × B
  pub cancel : (cancel_slot target_slot class : ℕ) → B → Bool × B
  pub wait : B → Bool × B
  pub next_completion : B → Option Completion × B
  pub begin_teardown : B → B

pub record Op : Type 0 where
  pub slot : ℕ
  pub class : ℕ
  pub id : NonZero

pub record Runtime (G L B : Type 0) : Type 0 where
  pub backend : B
  pub io_slab : List (IoSlot L)
  pub free_slots_head : ℕ
  pub cancel_slab : List (CancelSlot L)
  pub free_cancels_head : ℕ
  pub inflight_ops : ℕ
  pub inflight_cancels : ℕ
  pub buf_arena : BufArena
  pub global : Option G
  pub next_id : NonZero

module _ {G L B : Type 0} where
  unfoldable pub new : B → G → NonZero → Runtime G L B
  new backend global next_id = record {
    backend = backend;
    io_slab = [];
    free_slots_head = free_none;
    cancel_slab = [];
    free_cancels_head = free_none;
    inflight_ops = 0;
    inflight_cancels = 0;
    buf_arena = Arena.new;
    global = some global;
    next_id = next_id;
  }

  -- The thread's counter, which is never reset.
  unfoldable pub next_op_id : Runtime G L B → Outcome (NonZero × Runtime G L B)
  next_op_id rt = do
    assert (ltb (get rt.next_id) cancel_bit)
    done (rt.next_id, record rt { next_id = after rt.next_id })

  -- The slot at the head of the free stack.
  unfoldable pub pop_op_slot : Runtime G L B → Outcome (ℕ × Runtime G L B)
  unfolding Slots.free_next
  pop_op_slot rt = do
    slot ← vec_get rt.io_slab rt.free_slots_head
    next ← Slots.free_next slot
    done (
      rt.free_slots_head,
      record rt { inflight_ops = rt.inflight_ops + 1; free_slots_head = next },
    )

  unfoldable pub alloc_op_slot : Runtime G L B → Outcome (ℕ × Runtime G L B)
  unfolding pop_op_slot Slots.init_free
  alloc_op_slot rt =
      if not (rt.free_slots_head == free_none)
      then pop_op_slot rt
      else done (
        length rt.io_slab % 2 ^ 32,
        record rt {
          inflight_ops = rt.inflight_ops + 1;
          io_slab = rt.io_slab ++ Slots.init_free free_none ∷ [];
        },
      )

  -- `free_op_slot_taken`
  unfoldable pub free_op_slot_taken : ℕ → Runtime G L B → Outcome (Runtime G L B)
  unfolding Slots.push_free
  free_op_slot_taken index rt = do
    assert (ltb 0 rt.inflight_ops)
    slot ← vec_get rt.io_slab index
    freed ← Slots.push_free rt.free_slots_head slot
    done (record rt {
      inflight_ops = rt.inflight_ops - 1;
      io_slab = set rt.io_slab index freed;
      free_slots_head = index;
    })

  -- The local of the slot is dropped first.
  unfoldable pub free_op_slot : ℕ → Runtime G L B → Outcome (Runtime G L B)
  unfolding Slots.push_free
  free_op_slot index rt = do
    assert (ltb 0 rt.inflight_ops)
    slot ← vec_get rt.io_slab index
    dropped ← expect slot.local
    freed ← Slots.push_free rt.free_slots_head (record slot { local = none })
    done (record rt {
      inflight_ops = rt.inflight_ops - 1;
      io_slab = set rt.io_slab index freed;
      free_slots_head = index;
    })

  unfoldable pub pop_cancel_slot : Runtime G L B → Outcome (ℕ × Runtime G L B)
  unfolding Cancels.free_next
  pop_cancel_slot rt = do
    slot ← vec_get rt.cancel_slab rt.free_cancels_head
    next ← Cancels.free_next slot
    done (
      rt.free_cancels_head,
      record rt { inflight_cancels = rt.inflight_cancels + 1; free_cancels_head = next },
    )

  unfoldable pub alloc_cancel_slot : Runtime G L B → Outcome (ℕ × Runtime G L B)
  unfolding pop_cancel_slot Cancels.init_free
  alloc_cancel_slot rt =
      if not (rt.free_cancels_head == free_none)
      then pop_cancel_slot rt
      else done (
        length rt.cancel_slab % 2 ^ 32,
        record rt {
          inflight_cancels = rt.inflight_cancels + 1;
          cancel_slab = rt.cancel_slab ++ Cancels.init_free free_none ∷ [];
        },
      )

  unfoldable pub free_cancel_slot : ℕ → Runtime G L B → Outcome (Runtime G L B)
  unfolding Cancels.push_free
  free_cancel_slot index rt = do
    assert (ltb 0 rt.inflight_cancels)
    slot ← vec_get rt.cancel_slab index
    freed ← Cancels.push_free rt.free_cancels_head slot
    done (record rt {
      inflight_cancels = rt.inflight_cancels - 1;
      cancel_slab = set rt.cancel_slab index freed;
      free_cancels_head = index;
    })

  unfoldable pub free_cancel_slot_dropping_local : ℕ → Runtime G L B → Outcome (Runtime G L B)
  unfolding Cancels.push_free
  free_cancel_slot_dropping_local index rt = do
    assert (ltb 0 rt.inflight_cancels)
    slot ← vec_get rt.cancel_slab index
    dropped ← expect slot.local
    freed ← Cancels.push_free rt.free_cancels_head (record slot { local = none })
    done (record rt {
      inflight_cancels = rt.inflight_cancels - 1;
      cancel_slab = set rt.cancel_slab index freed;
      free_cancels_head = index;
    })

  -- The slot of an op that could not be armed is given back, its buffers first.
  unfoldable pub release_slot : ℕ → Runtime G L B → Outcome (Runtime G L B)
  unfolding Slots.take_buf_run free_op_slot
  release_slot index rt = do
    slot ← vec_get rt.io_slab index
    let (run, emptied) = Slots.take_buf_run slot
    arena ← release_run run rt.buf_arena
    free_op_slot index (record rt { io_slab = set rt.io_slab index emptied; buf_arena = arena })

module _ {G L B Req : Type 0} (backend : Backend B Req) where
  unfoldable pub register_op :
      (shim callback : ℕ)
      → L
      → (class : ℕ) → List IoBufErased
      → Req
      → Runtime G L B
      → Outcome (IoResult Op × Runtime G L B)
  unfolding alloc_op_slot next_op_id alloc_buf_run release_slot Slots.claim
  register_op shim callback local class bufs req rt = do
    (index, rt₁) ← alloc_op_slot rt
    (id, rt₂) ← next_op_id rt₁
    (run, arena) ← alloc_buf_run bufs rt₂.buf_arena
    slot ← vec_get rt₂.io_slab index
    claimed ← Slots.claim id shim callback local run slot
    let (armed, b) = backend.arm index class req rt₂.backend
    let rt₃ : Runtime G L B = record rt₂ {
      backend = b;
      io_slab = set rt₂.io_slab index claimed;
      buf_arena = arena;
    }
    if armed
        then done (ok (record { slot = index; class = class; id = id }), rt₃)
        else release_slot index rt₃ >>= λ rt₄. done (err, rt₄)
