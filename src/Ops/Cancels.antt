-- ===== src/Ops/Cancels.antt =====
-- The cancel slots of libs/coio-core/src/runtime.rs, in the terms of the op slots.
use conrt.Base.{ℕ, not, Option, none, some, Outcome, done, panicked, ◌>>=◌, ◌>>◌, assert, expect}
use conrt.Ops.Ids.{NonZero, get, is_free}

pub data CancelBody : Type 0 where
  cancel_done : (callback : ℕ) → CancelBody
  cancel_link : (next : ℕ) → CancelBody

pub record CancelSlot (L : Type 0) : Type 0 where
  pub id : ℕ
  pub target : ℕ
  pub target_id : ℕ
  pub local : Option L
  pub body : CancelBody

module _ {L : Type 0} where
  unfoldable pub init_free : ℕ → CancelSlot L
  init_free next = record {
    id = 0;
    target = 0;
    target_id = 1;
    local = none;
    body = cancel_link next;
  }

  unfoldable pub claim : NonZero → ℕ → NonZero → ℕ → L → CancelSlot L → Outcome (CancelSlot L)
  claim id target target_id callback local slot = do
    assert (is_free slot.id)
    done (record {
      id = get id;
      target = target;
      target_id = get target_id;
      local = some local;
      body = cancel_done callback;
    })

  unfoldable pub take_local : CancelSlot L → Outcome (L × CancelSlot L)
  take_local slot = do
    assert (not (is_free slot.id))
    local ← expect slot.local
    done (local, record slot { local = none })

  unfoldable pub push_free : ℕ → CancelSlot L → Outcome (CancelSlot L)
  push_free head slot = do
    assert (not (is_free slot.id))
    done (record slot { id = 0; body = cancel_link head })

  unfoldable pub free_next : CancelSlot L → Outcome ℕ
  free_next slot = do
    assert (is_free slot.id)
    elim slot.body [ cancel_done callback ↦ panicked | cancel_link next ↦ done next ]

  unfoldable pub callback_of : CancelSlot L → Outcome ℕ
  callback_of slot = elim slot.body [
    | cancel_done callback ↦ done callback
    | cancel_link next ↦ panicked
  ]
