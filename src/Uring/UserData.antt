-- ===== src/Uring/UserData.antt =====
-- The `user_data` of libs/coio-uring/src/uring.rs, which names a completion. The two halves do not
-- overlap, so `|` is a sum; a mask of the low bits is a remainder.
use conrt.Base.{
  ℕ, ◌+◌, ◌*◌, ◌%◌, ◌^◌, ◌<◌, Bool, true, false, not, ◌&&◌, ◌≡◌, refl, sym, ap, ◌∙◌, arith, leb,
  leb→le, ◌==◌, Outcome, done, ◌>>◌, assert, assert-elim, done-injective,
}
use conrt.Base.Words.{ℤ, pos, negsuc, shr, low_bits}
use conrt.Ops.Table.{Completion}

pub record UserData : Type 0 where
  pub index : ℕ
  pub tag : ℕ

-- CANCEL_TAG and CLASS_MASK
abbrev pub cancel_tag : ℕ
cancel_tag = 2 ^ 31

abbrev pub class_mask : ℕ
class_mask = 0x7f

-- `From<UserData> for u64`
unfoldable pub to_u64 : UserData → ℕ
to_u64 ud = ud.index + ud.tag * 2 ^ 32

-- `From<u64> for UserData`
unfoldable pub from_u64 : ℕ → UserData
from_u64 ud = record { index = low_bits ud 32; tag = low_bits (shr ud 32) 32 }

unfoldable pub op_user_data : (slot class : ℕ) → Outcome ℕ
unfolding to_u64
op_user_data slot class = do
  assert (leb class class_mask)
  done (to_u64 (record { index = slot; tag = class }))

unfoldable pub cancel_user_data : ℕ → ℕ
unfolding to_u64
cancel_user_data cancel_slot = to_u64 (record { index = cancel_slot; tag = cancel_tag })

-- A completion-queue entry of the io_uring crate.
pub record Cqe : Type 0 where
  pub user_data : ℕ
  pub result : ℤ
  pub flags : ℕ

-- `ud.tag & CANCEL_TAG != 0`
abbrev is_cancel : UserData → Bool
is_cancel ud = shr ud.tag 31 % 2 == 1

-- `result == -libc::ECANCELED`
abbrev pub is_ecanceled : ℤ → Bool
is_ecanceled (pos n) = false
is_ecanceled (negsuc n) = n + 1 == 125

abbrev read_as : UserData → Cqe → Completion
read_as ud cqe = record {
  slot = ud.index;
  result = cqe.result;
  flags = cqe.flags;
  class = low_bits ud.tag 7;
  cancel = is_cancel ud;
  cancelled = not (is_cancel ud) && is_ecanceled cqe.result;
}

-- What `next_completion` makes of an entry.
unfoldable pub completion_of : Cqe → Completion
unfolding from_u64
completion_of cqe = read_as (from_u64 cqe.user_data) cqe

-- What the runtime asks of the driver: to complete an op of a class, or a cancellation.
pub data Asked : Type 0 where
  an_op : (slot class : ℕ) → Asked
  a_cancel : (slot : ℕ) → Asked

abbrev pub slot_of : Asked → ℕ
slot_of (an_op slot class) = slot
slot_of (a_cancel slot) = slot

-- The `user_data` that the driver makes for it.
abbrev pub user_data_of : Asked → Outcome ℕ
user_data_of (an_op slot class) = op_user_data slot class
user_data_of (a_cancel slot) = done (cancel_user_data slot)

-- What the runtime is to be told of it.
abbrev pub answer : Asked → ℤ → ℕ → Completion
answer (an_op slot class) result flags = record {
  slot = slot;
  result = result;
  flags = flags;
  class = class;
  cancel = false;
  cancelled = is_ecanceled result;
}
answer (a_cancel slot) result flags = record {
  slot = slot;
  result = result;
  flags = flags;
  class = 0;
  cancel = true;
  cancelled = false;
}

op_user_data-done :
    (slot class ud : ℕ)
    → op_user_data slot class ≡ done ud
    → (class < 2 ^ 7) × (ud ≡ slot + class * 2 ^ 32)
unfolding op_user_data to_u64
op_user_data-done slot class ud h = assert-elim (leb class class_mask) _ h λ small h1.
    let fits = leb→le class class_mask small in (omega (arith, fits), sym (done-injective h1))

cancel_user_data-packed :
    (slot ud : ℕ) → cancel_user_data slot ≡ ud → ud ≡ slot + cancel_tag * 2 ^ 32
unfolding cancel_user_data to_u64
cancel_user_data-packed slot ud e = sym e

-- Unpacking a packed pair of words.
from_u64-packed :
    (ud index tag : ℕ)
    → index < 2 ^ 32
    → tag < 2 ^ 32
    → ud ≡ index + tag * 2 ^ 32
    → from_u64 ud ≡ record { index = index; tag = tag }
unfolding from_u64
from_u64-packed ud index tag i t e =
    let low : low_bits ud 32 ≡ index = omega arith in
    let high : low_bits (shr ud 32) 32 ≡ tag = omega arith in rw low (rw high refl)

-- Packing and unpacking are inverse for two 32-bit words, and every 64-bit word is a packed pair.
pub from_u64-to_u64 :
    (index tag ud : ℕ)
    → index < 2 ^ 32
    → tag < 2 ^ 32
    → ud < 2 ^ 64
    → (from_u64 (to_u64 (record { index = index; tag = tag }))
        ≡ record { index = index; tag = tag })
      × (to_u64 (from_u64 ud) ≡ ud)
unfolding to_u64 from_u64
from_u64-to_u64 index tag ud i t u =
    (from_u64-packed (index + tag * 2 ^ 32) index tag i t refl, omega arith)

-- An entry whose `user_data` was made for an op or a cancel in a 32-bit slot is decoded to just that:
-- the slot, the class of an op, which of the two it is, and, for an op only, whether the result is
-- -ECANCELED.
pub completion_of-answer :
    (a : Asked) (ud : ℕ) (result : ℤ) (flags : ℕ)
    → slot_of a < 2 ^ 32
    → user_data_of a ≡ done ud
    → completion_of (record { user_data = ud; result = result; flags = flags })
      ≡ answer a result flags
unfolding completion_of
completion_of-answer (an_op slot class) ud result flags b e =
    let (small, made) = op_user_data-done slot class ud e in
    let cqe : Cqe = record { user_data = ud; result = result; flags = flags } in
    let plain : is_cancel (record { index = slot; tag = class }) ≡ false = ground arith in
    let kept : low_bits class 7 ≡ class = omega arith in
    ap (λ u. read_as u cqe) (from_u64-packed ud slot class b (omega arith) made)
    ∙ rw plain (rw kept refl)
completion_of-answer (a_cancel slot) ud result flags b e =
    ap (λ u. read_as u (record { user_data = ud; result = result; flags = flags }))
      (from_u64-packed ud slot cancel_tag b (omega arith)
        (cancel_user_data-packed slot ud (done-injective e)))
