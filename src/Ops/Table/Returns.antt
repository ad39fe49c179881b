-- ===== src/Ops/Table/Returns.antt =====
-- `register_op` of an op with no buffer returns.
use conrt.Base.{
  ℕ, ◌%◌, ◌^◌, ◌<◌, Bool, true, false, not, List, [], ◌∷◌, ◌++◌, none, some, ◌≡◌, refl, arith,
  length, set, get_elem?, get_elem?-lt, get_elem?-set, get_elem?-push, ◌==◌, if◌then◌else◌, Outcome,
  done, panicked, ltb, assert, assert-done, >>=-done, vec_get, vec_get-done, IoResult, ok, err,
  ◌>>=◌, ◌>>◌, ℕ_discrete,
}
use native.Mathlib.Nat.{mod-eq_of_lt}
use conrt.Ops.Ids.{NonZero, get, after, free_none, cancel_bit, is_free}
use conrt.Ops.Arena.{release_run, alloc_buf_run, buf_none}
use conrt.Ops.Slots
use conrt.Ops.Slots.{IoSlot, SlotBody, live, free_link}
use conrt.Ops.Stack.{Stacked-head}
use conrt.Ops.Table.{
  Runtime, Backend, Op, pop_op_slot, alloc_op_slot, next_op_id, register_op, release_slot,
  free_op_slot,
}
use conrt.Ops.Table.Valid.{body_link, op_link, IdOk, OpOk, Valid}
use conrt.Ops.Table.Takes.{with_op_slot}

module _ {L : Type 0} where
  free_next-done :
      (n next : ℕ) (s : IoSlot L)
      → op_link s ≡ some next
      → OpOk n s
      → (Slots.free_next s ≡ done next) × (s.id ≡ 0)
  unfolding Slots.free_next
  free_next-done n next s l valid = by_body s.id s.body l valid
    where
      by_body :
          (id : ℕ) (b : SlotBody)
          → body_link b ≡ some next
          → IdOk n b id
          → ((assert (is_free id)
                >> elim b [ live shim callback ↦ panicked | free_link m ↦ done m ])
              ≡ done next)
            × (id ≡ 0)
      by_body id (live shim callback) l valid = cc
      by_body id (free_link m) l valid = ground (arith, valid, l)

module _ {G L B : Type 0} where
  -- A free slot is there, on the stack or at the end of the slab.
  pub record Gives (rt : Runtime G L B) : Type 0 where
    pub index : ℕ
    pub slab : List (IoSlot L)
    pub head : ℕ
    pub slot : IoSlot L
    pub gives : alloc_op_slot rt ≡ done (index, with_op_slot slab head rt)
    pub there : get_elem? slab index ≡ some slot
    pub free : slot.id ≡ 0

  alloc_op_slot-Gives : (rt : Runtime G L B) → Valid rt → length rt.io_slab < free_none → Gives rt
  unfolding alloc_op_slot pop_op_slot Slots.init_free
  alloc_op_slot-Gives rt valid room = elim (ℕ_discrete rt.free_slots_head free_none) [
    | yes e ↦
        let low : length rt.io_slab % 2 ^ 32 ≡ length rt.io_slab =
          mod-eq_of_lt {n = length rt.io_slab} {m = 2 ^ 32} (omega (arith, room)) in
        let head_is : (rt.free_slots_head == free_none) ≡ true = ground (arith, e) in
        record {
          index = length rt.io_slab % 2 ^ 32;
          slab = rt.io_slab ++ Slots.init_free free_none ∷ [];
          head = rt.free_slots_head;
          slot = Slots.init_free free_none;
          gives = rw (head_is) refl;
          there = ground (
            arith,
            get_elem?-push rt.io_slab (Slots.init_free free_none) (length rt.io_slab % 2 ^ 32),
            low,
          );
          free = refl;
        }
    | no ne ↦
        let (xs, s, next, e, g, l, rest) =
          Stacked-head op_link rt.io_slab rt.free_slots_head rt.inflight_ops valid.0.stack
            valid.0.stacked ne in
        let (f, z) =
          free_next-done (get rt.next_id) next s l (valid.0.each rt.free_slots_head s g) in
        let head_is : (rt.free_slots_head == free_none) ≡ false = ground (arith, ne) in
        record {
          index = rt.free_slots_head;
          slab = rt.io_slab;
          head = next;
          slot = s;
          gives = rw (head_is) (
              >>=-done (vec_get rt.io_slab rt.free_slots_head) _
                (vec_get-done rt.io_slab rt.free_slots_head g)
                (>>=-done (Slots.free_next s) _ f refl));
          there = g;
          free = z;
        }
  ]

  -- An op that was claimed with no buffer can be given back.
  release_slot-done :
      (rt : Runtime G L B) (index shim callback : ℕ) (id : NonZero) (local : L)
      → get_elem? rt.io_slab index
        ≡ some (record {
          id = get id;
          local = some local;
          buf = buf_none;
          buf_len = 0;
          body = live shim callback;
        })
      → 0 < rt.inflight_ops
      → (rt' : Runtime G L B) × (release_slot index rt ≡ done rt')
  unfolding release_slot free_op_slot Slots.take_buf_run Slots.push_free release_run
  release_slot-done rt index shim callback id local g used =
      let claimed : IoSlot L = record {
        id = get id;
        local = some local;
        buf = buf_none;
        buf_len = 0;
        body = live shim callback;
      } in
      let again : get_elem? (set rt.io_slab index claimed) index ≡ some claimed =
        ground
          (arith, get_elem?-set rt.io_slab index index claimed (get_elem?-lt rt.io_slab index g)) in
      (
        _,
        >>=-done (vec_get rt.io_slab index) _ (vec_get-done rt.io_slab index g) (
            assert-done (ltb 0 rt.inflight_ops) _ (ground (arith, used)) (
              >>=-done (vec_get (set rt.io_slab index claimed) index) _
                (vec_get-done (set rt.io_slab index claimed) index again)
                (>>=-done (Slots.push_free rt.free_slots_head (record claimed { local = none })) _
                  (assert-done (not (is_free (get id))) _ (ground arith) refl) refl))),
      )

module _ {G L B Req : Type 0} (backend : Backend B Req) where
  settled :
      (armed : Bool) (index : ℕ) (op : Op) (rt₃ : Runtime G L B)
      → ((rt' : Runtime G L B) × (release_slot index rt₃ ≡ done rt'))
      → (res : IoResult Op) × (rt' : Runtime G L B) × (if◌then◌else◌
            {A = Outcome (IoResult Op × Runtime G L B)} armed
            (done (ok op, rt₃))
            (release_slot index rt₃ >>= λ rt₄. done (err, rt₄))
          ≡ done (res, rt'))
  settled true index op rt₃ released = (ok op, rt₃, refl)
  settled false index op rt₃ (rt', e) = (err, rt', >>=-done (release_slot index rt₃) _ e refl)

  -- In a well-formed state with fewer than 2^32 - 1 op slots and with ids left, `register_op` of an
  -- op with no buffer returns, and does not panic, whether the backend takes the op or not.
  pub register_op-returns :
      (shim callback : ℕ) (local : L) (class : ℕ) (req : Req) (rt : Runtime G L B)
      → Valid rt
      → length rt.io_slab < free_none
      → get rt.next_id < cancel_bit
      → (res : IoResult Op) × (rt' : Runtime G L B) × (register_op backend shim callback local class
            [] req rt
          ≡ done (res, rt'))
  unfolding register_op next_op_id alloc_buf_run Slots.claim
  register_op-returns shim callback local class req rt valid room low =
      let a = alloc_op_slot-Gives rt valid room in
      let claimed : IoSlot L = record {
        id = get rt.next_id;
        local = some local;
        buf = buf_none;
        buf_len = 0;
        body = live shim callback;
      } in
      let free : is_free a.slot.id ≡ true = ground (arith, a.free) in
      let rt₃ : Runtime G L B = record (with_op_slot a.slab a.head rt) {
        backend = (backend.arm a.index class req rt.backend).1;
        io_slab = set a.slab a.index claimed;
        next_id = after rt.next_id;
      } in
      let here = get_elem?-lt a.slab a.index a.there in
      let (res, rt', e) =
        settled (backend.arm a.index class req rt.backend).0 a.index
          (record { slot = a.index; class = class; id = rt.next_id }) rt₃
          (release_slot-done rt₃ a.index shim callback rt.next_id local
            (ground (arith, get_elem?-set a.slab a.index a.index claimed here)) (omega arith)) in
      (
        res,
        rt',
        >>=-done (alloc_op_slot rt) _ a.gives (
            >>=-done (next_op_id (with_op_slot a.slab a.head rt)) _
              (assert-done (ltb (get rt.next_id) cancel_bit) _ (ground (arith, low)) refl)
              (>>=-done (vec_get a.slab a.index) _ (vec_get-done a.slab a.index a.there) (
                >>=-done (Slots.claim rt.next_id shim callback local none a.slot) _
                  (assert-done (is_free a.slot.id) _ free refl) e))),
      )
