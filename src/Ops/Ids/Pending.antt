-- ===== src/Ops/Ids/Pending.antt =====
-- The cancel bit of a slot id, set and cleared.
use conrt.Base.{ℕ, ◌*◌, ◌<◌, ◌≡◌, refl, arith}
use conrt.Ops.Ids.{cancel_bit, id_bits, is_cancel_pending, set_pending, clear_pending}

pub set_pending-bits :
    (id : ℕ)
    → id < 2 * cancel_bit
    → (id_bits (set_pending id) ≡ id_bits id) × (set_pending id < 2 * cancel_bit)
unfolding set_pending is_cancel_pending id_bits
set_pending-bits id h = (ground (arith, h), ground (arith, h))

pub clear_pending-bits : (id : ℕ) → id < 2 * cancel_bit → clear_pending id ≡ id_bits id
unfolding clear_pending is_cancel_pending id_bits
clear_pending-bits id h = ground (arith, h)

pub id_bits_idem : (id : ℕ) → id_bits (id_bits id) ≡ id_bits id
unfolding id_bits
id_bits_idem id = omega arith

pub id_bits-small : (id : ℕ) → id_bits id < 2 * cancel_bit
unfolding id_bits
id_bits-small id = omega arith

pub clear_pending_zero : clear_pending 0 ≡ 0
unfolding clear_pending is_cancel_pending
clear_pending_zero = refl
