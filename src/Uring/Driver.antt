-- ===== src/Uring/Driver.antt =====
-- The backend of libs/coio-uring/src/uring.rs. The ring of the io_uring crate is a parameter: what its
-- calls return, with the ring that they leave.
pub mod Runs
use conrt.Base.{
  ℕ, Bool, true, false, List, Option, none, some, Outcome, done, panicked, ◌>>=◌, expect,
}
use conrt.Buffers.Classes.{SizeClass, default_size_classes}
use conrt.Buffers.Provided.{ProvidedSlab}
use conrt.Buffers.Pools.{Pools}
use conrt.Buffers.Pools.Build.{build_pools}
use conrt.Ops.Table.{Completion}
use conrt.Uring.UserData.{Cqe, op_user_data, cancel_user_data, completion_of}

pub record UringConfig : Type 0 where
  pub ring_entries : ℕ
  pub provided_size_classes : List SizeClass
  pub size_classes : List SizeClass

abbrev pub default_config : UringConfig
default_config = record {
  ring_entries = 1024;
  provided_size_classes = default_size_classes;
  size_classes = default_size_classes;
}

-- The answer of `submit_and_wait(1)`; `busy` is the error EBUSY.
pub data Waited : Type 0 where
  woken busy failed : Waited

-- `build` is told whether the single-issuer options are set. `push` returns none when the submission
-- queue is full, and `next` when no completion is ready.
pub record IoUring (Ring Entry : Type 0) : Type 0 where
  pub build : Bool → ℕ → Option Ring
  pub user_data : ℕ → Entry → Entry
  pub async_cancel : ℕ → Entry
  pub push : Entry → Ring → Option Ring
  pub submit_and_wait : Ring → Waited × Ring
  pub next : Ring → Option (Cqe × Ring)

pub record Uring (Ring : Type 0) : Type 0 where
  pub ring : Option Ring
  pub pools : Pools

-- What the allocator and the kernel answer when the pools are built.
pub record Host : Type 0 where
  pub slab : Option ℕ
  pub accepts : ProvidedSlab → Bool
  pub registered : Bool

module _ {Ring Entry : Type 0} (io : IoUring Ring Entry) where
  -- `setup_single_issuer().setup_defer_taskrun()`, or else a plain ring.
  abbrev build_ring : ℕ → Option Ring
  build_ring entries = elim (io.build true entries) [
    | some ring ↦ some ring
    | none ↦ io.build false entries
  ]

  -- `none` is an error of the ring.
  unfoldable pub attach : Host → UringConfig → Outcome (Option (Uring Ring))
  unfolding build_pools
  attach host cfg = elim (build_ring cfg.ring_entries) [
    | none ↦ done none
    | some ring ↦ do
      pools ←
          build_pools host.accepts host.slab host.registered cfg.provided_size_classes
            cfg.size_classes
      done (some (record { ring = some ring; pools = pools }))
  ]

  -- What a push to the submission queue gives; a full queue is the error EAGAIN.
  abbrev pub pushed : Uring Ring → Option Ring → Outcome (Bool × Uring Ring)
  pushed u none = done (false, u)
  pushed u (some ring) = done (true, record u { ring = some ring })

  abbrev pub submit : Entry → Uring Ring → Outcome (Bool × Uring Ring)
  submit entry u = expect u.ring >>= λ ring. pushed u (io.push entry ring)

  unfoldable pub arm : (slot class : ℕ) → Entry → Uring Ring → Outcome (Bool × Uring Ring)
  unfolding op_user_data
  arm slot class req u = do ud ← op_user_data slot class; submit (io.user_data ud req) u

  unfoldable pub cancel :
      (cancel_slot target_slot class : ℕ) → Uring Ring → Outcome (Bool × Uring Ring)
  unfolding op_user_data cancel_user_data
  cancel cancel_slot target_slot class u = do
    target ← op_user_data target_slot class
    submit (io.user_data (cancel_user_data cancel_slot) (io.async_cancel target)) u

  abbrev succeeds : Waited → Bool
  succeeds woken = true
  succeeds busy = true
  succeeds failed = false

  unfoldable pub wait : Uring Ring → Outcome (Bool × Uring Ring)
  wait u = do
    ring ← expect u.ring
    let (waited, ring') = io.submit_and_wait ring
    done (succeeds waited, record u { ring = some ring' })

  -- What the completion queue gives.
  abbrev pub popped : Uring Ring → Option (Cqe × Ring) → Outcome (Option Completion × Uring Ring)
  popped u none = done (none, u)
  popped u (some (cqe, ring)) = done (some (completion_of cqe), record u { ring = some ring })

  unfoldable pub next_completion : Uring Ring → Outcome (Option Completion × Uring Ring)
  next_completion u = expect u.ring >>= λ ring. popped u (io.next ring)

-- The ring is closed; what was registered with it goes with it.
unfoldable pub begin_teardown : {Ring : Type 0} → Uring Ring → Uring Ring
begin_teardown u = record u { ring = none }
