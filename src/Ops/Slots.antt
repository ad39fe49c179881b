-- ===== src/Ops/Slots.antt =====
-- The op slots of libs/coio-core/src/runtime.rs. A union's body is a sum, an uninitialized local is
-- `none`, and reading what is not there is `panicked`. The shims and callbacks are function
-- pointers, which are numbers.
use conrt.Base.{
  ℕ, not, ◌||◌, Option, none, some, ◌==◌, if◌then◌else◌, Outcome, done, panicked, ◌>>=◌, ◌>>◌,
  assert, expect,
}
use conrt.Ops.Arena.{buf_none, Run}
use conrt.Ops.Ids.{NonZero, get, is_free}

pub data SlotBody : Type 0 where
  live : (shim callback : ℕ) → SlotBody
  free_link : (next : ℕ) → SlotBody

pub record IoSlot (L : Type 0) : Type 0 where
  pub id : ℕ
  pub local : Option L
  pub buf : ℕ
  pub buf_len : ℕ
  pub body : SlotBody

-- `buf` and `buf_len` of a run.
abbrev pub run_start : Option Run → ℕ
run_start none = buf_none
run_start (some (start, len)) = start

abbrev pub run_len : Option Run → ℕ
run_len none = 0
run_len (some (start, len)) = len

module _ {L : Type 0} where
  unfoldable pub init_free : ℕ → IoSlot L
  init_free next = record {
    id = 0;
    local = none;
    buf = buf_none;
    buf_len = 0;
    body = free_link next;
  }

  unfoldable pub claim : NonZero → ℕ → ℕ → L → Option Run → IoSlot L → Outcome (IoSlot L)
  claim id shim callback local run slot = do
    assert (is_free slot.id)
    assert (not (run_start run == buf_none) || run_len run == 0)
    done (record {
      id = get id;
      local = some local;
      buf = run_start run;
      buf_len = run_len run;
      body = live shim callback;
    })

  unfoldable pub take_local : IoSlot L → Outcome (L × IoSlot L)
  take_local slot = do
    assert (not (is_free slot.id))
    local ← expect slot.local
    done (local, record slot { local = none })

  unfoldable pub push_free : ℕ → IoSlot L → Outcome (IoSlot L)
  push_free head slot = do
    assert (not (is_free slot.id))
    assert (slot.buf == buf_none)
    done (record slot { id = 0; buf = buf_none; buf_len = 0; body = free_link head })

  unfoldable pub take_buf_run : IoSlot L → Option Run × IoSlot L
  take_buf_run slot = (
    if not (slot.buf == buf_none) then some (slot.buf, slot.buf_len) else none,
    record slot { buf = buf_none; buf_len = 0 },
  )

  unfoldable pub free_next : IoSlot L → Outcome ℕ
  free_next slot = do
    assert (is_free slot.id)
    elim slot.body [ live shim callback ↦ panicked | free_link next ↦ done next ]

  -- The two pointers of the live arm.
  unfoldable pub live_body : IoSlot L → Outcome (ℕ × ℕ)
  live_body slot = elim slot.body [
    | live shim callback ↦ done (shim, callback)
    | free_link next ↦ panicked
  ]
