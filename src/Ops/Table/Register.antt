-- ===== src/Ops/Table/Register.antt =====
-- `register_op`: the state stays well formed, whether the backend arms the op or not.
use native.Mathlib.Nat.{mod-eq_of_lt}
use conrt.Base.{
  ℕ, ◌+◌, ◌%◌, ◌<◌, ◌≤◌, ◌≢◌, not, Option, some, ◌≡◌, refl, sym, ap, subst, ◌∙◌, arith, length, set,
  get_elem?, ◌==◌, length-set, inl, inr, done, ltb, >>=-eq-done, assert-eq-done, done-injective,
  vec_get, vec_get-eq-done, ◌||◌,
}
use conrt.Ops.Ids.{NonZero, get, after, free_none, id_bits, cancel_bit, is_free}
use conrt.Ops.Arena.{release_run, Run, BufArena, buf_none}
use conrt.Ops.Slots
use conrt.Ops.Slots.{run_start, run_len, IoSlot, SlotBody, live, free_link}
use conrt.Ops.Stack.Take.{Taken-Used, Taken-grows}
use conrt.Ops.Stack.Slab.{Slab-set, Slab-take, Slab-weaken}
use conrt.Ops.Table.{Runtime, next_op_id, release_slot}
use conrt.Ops.Table.Valid.{body_link, op_link, IdOk, OpOk, Gone-set, Step, Step-trans}
use conrt.Ops.Table.Takes.{TakesOp, with_op_slot}
use conrt.Ops.Table.Free.{free_op_slot-Step}

pub IdOk-weaken : (n n' id : ℕ) (b : SlotBody) → n ≤ n' → IdOk n b id → IdOk n' b id
IdOk-weaken n n' id (live shim callback) le (a, b, c) = (a, omega (arith, le, b), c)
IdOk-weaken n n' id (free_link next) le e = e

-- An id of the counter, as `next_op_id` hands it out.
fresh-IdOk :
    (id shim callback : ℕ) → 0 < id → id < cancel_bit → IdOk (id + 1) (live shim callback) id
unfolding id_bits
fresh-IdOk id shim callback pos small =
    let e : id % cancel_bit ≡ id = mod-eq_of_lt {n = id} {m = cancel_bit} small in
    (rw (e) pos, omega (arith, e), omega (arith, small))

low_bits : (id x : ℕ) → id < cancel_bit → x < id → id_bits id ≢ x
unfolding id_bits
low_bits id x small below = omega (arith, mod-eq_of_lt {n = id} {m = cancel_bit} small, below)

module _ {L : Type 0} where
  pub claim-eq-done :
      (id : NonZero) (shim callback : ℕ) (local : L) (run : Option Run) (s v : IoSlot L)
      → Slots.claim id shim callback local run s ≡ done v
      → (v.body ≡ live shim callback) × (v.id ≡ get id) × (v.local ≡ some local)
  unfolding Slots.claim
  claim-eq-done id shim callback local run s v h =
      let (free, h₁) = assert-eq-done (is_free s.id) _ h in
      let (whole, h₂) = assert-eq-done (not (run_start run == buf_none) || run_len run == 0) _ h₁ in
      let e = done-injective h₂ in
      (
        ap (λ (s : IoSlot L). s.body) (sym e),
        ap (λ (s : IoSlot L). s.id) (sym e),
        ap (λ (s : IoSlot L). s.local) (sym e),
      )

module _ {G L B : Type 0} where
  pub next_op_id-eq-done :
      (rt rt' : Runtime G L B) (id : NonZero)
      → next_op_id rt ≡ done (id, rt')
      → (get rt.next_id < cancel_bit)
        × (id ≡ rt.next_id)
        × (rt' ≡ record rt { next_id = after rt.next_id })
  unfolding next_op_id
  next_op_id-eq-done rt rt' id h =
      let (below, h₁) = assert-eq-done (ltb (get rt.next_id) cancel_bit) _ h in
      let p = done-injective h₁ in
      (
        ground (arith, below),
        sym (ap (λ (q : NonZero × Runtime G L B). q.0) p),
        sym (ap (λ (q : NonZero × Runtime G L B). q.1) p),
      )

  pub write-Step :
      (rt : Runtime G L B) (i : ℕ) (s v : IoSlot L) (arena : BufArena)
      → get_elem? rt.io_slab i ≡ some s
      → v.body ≡ s.body
      → v.id ≡ s.id
      → Step rt (record rt { io_slab = set rt.io_slab i v; buf_arena = arena })
  write-Step rt i s v arena g b e = record {
    grows = (omega (arith, length-set rt.io_slab i v), omega arith, omega arith);
    keeps = λ small valid. (
      Slab-set op_link (OpOk (get rt.next_id)) i v s valid.0 g (ap body_link b)
          (rw (b, e) (valid.0.each i s g)),
      valid.1,
      valid.2,
    );
    stays_gone = λ small valid op gone. (
      gone.0,
      Gone-set rt.io_slab i op.slot (get op.id) v s g
          (λ other. subst (λ n. id_bits n ≢ get op.id) (sym e) other) gone.1,
    );
  }

  pub release_slot-Step :
      (i : ℕ) (rt rt' : Runtime G L B) → release_slot i rt ≡ done rt' → Step rt rt'
  unfolding release_slot Slots.take_buf_run
  release_slot-Step i rt rt' h =
      let (s, e, h₁) = >>=-eq-done (vec_get rt.io_slab i) _ h in
      let (arena, a, h₂) = >>=-eq-done (release_run _ rt.buf_arena) _ h₁ in
      Step-trans (write-Step rt i s _ arena (vec_get-eq-done rt.io_slab i e) refl refl)
        (free_op_slot-Step i _ rt' h₂)

  -- The slot that `register_op` claims, before the backend is asked.
  pub claimed-Step :
      (rt : Runtime G L B) (index : ℕ) (t : TakesOp rt index) (v : IoSlot L) (b : B)
      (arena : BufArena) (shim callback : ℕ)
      → v.body ≡ live shim callback
      → v.id ≡ get rt.next_id
      → get rt.next_id < cancel_bit
      → Step rt (record (with_op_slot t.slab t.head rt) {
        backend = b;
        io_slab = set t.slab index v;
        buf_arena = arena;
        next_id = after rt.next_id;
      })
  claimed-Step rt index t v b arena shim callback vb vi below = record {
    grows = (
      omega (arith, Taken-grows op_link t.taken, length-set t.slab index v),
      omega arith,
      omega arith,
    );
    keeps = λ small valid. (
      Slab-take op_link (OpOk (get (after rt.next_id))) v
          (Slab-weaken
            (λ s. IdOk-weaken (get rt.next_id) (get (after rt.next_id)) s.id s.body (omega arith))
            valid.0)
          t.taken (ap body_link vb)
          (rw (vb, vi) (fresh-IdOk (get rt.next_id) shim callback (omega arith) below))
          (omega (arith, small.0, length-set t.slab index v)),
      valid.1,
      omega (arith, below),
    );
    stays_gone = λ small valid op gone.
        let room : length t.slab < free_none = omega (arith, small.0, length-set t.slab index v) in
        let used =
          Taken-Used op_link rt.io_slab t.slab rt.free_slots_head t.head index rt.inflight_ops v
            valid.0.stack valid.0.stacked t.taken (ap body_link vb) room in
        (
          omega (arith, gone.0),
          λ s g. elim (used.nothing_else op.slot s g) [
            | inl e ↦
                subst (λ n. id_bits n ≢ get op.id) (sym (ap (λ (q : IoSlot L). q.id) e ∙ vi))
                  (low_bits (get rt.next_id) (get op.id) below gone.0)
            | inr before ↦ gone.1 s before
          ],
        );
  }
