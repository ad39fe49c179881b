-- ===== src/Ops/Table/Fresh.antt =====
-- What `register_op` leaves: a well-formed state, and an op that is told from every other.
use conrt.Base.{
  ℕ, ◌+◌, ◌<◌, ◌≢◌, false, List, none, some, ◌≡◌, refl, sym, ap, subst, arith, get_elem?,
  length-set, inl, inr, done, IoResult, ok,
}
use conrt.Ops.Ids.{get, id_bits, is_free}
use conrt.Ops.Arena.{IoBufErased}
use conrt.Ops.Slots.{IoSlot, SlotBody, live, free_link}
use conrt.Ops.Stack.Take.{Used, Taken-Used}
use conrt.Ops.Table.{Runtime, Backend, Op, register_op}
use conrt.Ops.Table.Valid.{body_link, op_link, IdOk, Valid, Small, Step, Step-trans}
use conrt.Ops.Table.Register.{claimed-Step, claim-eq-done, release_slot-Step}
use conrt.Ops.Table.Claims.{Claims, register_op-eq-done}

-- The id of a slot in use is below the counter.
pub IdOk-below :
    (n id : ℕ) (b : SlotBody)
    → IdOk n b id
    → is_free id ≡ false
    → (id_bits id < n) × (body_link b ≡ none)
IdOk-below n id (live shim callback) valid used = (valid.1, refl)
IdOk-below n id (free_link next) valid used = absurd (ground (arith, valid, used))

module _ {G L B : Type 0} where
  -- The op is in the slot that its handle names, with its local and its id, and every op in use before
  -- is still where it was, with another index and another id.
  pub record Registered (shim callback : ℕ) (local : L) (class : ℕ) (op : Op)
      (rt rt' : Runtime G L B) : Type 0 where
    pub slot : IoSlot L
    pub there : get_elem? rt'.io_slab op.slot ≡ some slot
    pub body : slot.body ≡ live shim callback
    pub own_local : slot.local ≡ some local
    pub own_id : slot.id ≡ get op.id
    pub same_class : op.class ≡ class
    pub counted : rt'.inflight_ops ≡ rt.inflight_ops + 1
    pub others :
        (j : ℕ) (s : IoSlot L)
        → get_elem? rt.io_slab j ≡ some s
        → is_free s.id ≡ false
        → (get_elem? rt'.io_slab j ≡ some s) × (j ≢ op.slot) × (id_bits s.id ≢ get op.id)

module _ {G L B Req : Type 0} (backend : Backend B Req) where
  Claims-Step :
      {shim callback : ℕ} {local : L} {class : ℕ} {req : Req} {rt rt₃ : Runtime G L B} {index : ℕ}
      → Claims backend shim callback local class req rt rt₃ index
      → Step rt rt₃
  Claims-Step {shim} {callback} {local} {class} {req} {rt} {rt₃} {index} c =
      let (body, id, own) =
        claim-eq-done rt.next_id shim callback local c.run c.before c.slot c.claimed in
      subst (Step rt) (sym c.state)
        (claimed-Step rt index c.takes c.slot _ c.arena shim callback body id c.below)

  pub register_op-Step :
      (shim callback : ℕ) (local : L) (class : ℕ) (bufs : List IoBufErased) (req : Req)
      (rt rt' : Runtime G L B) (res : IoResult Op)
      → register_op backend shim callback local class bufs req rt ≡ done (res, rt')
      → Step rt rt'
  register_op-Step shim callback local class bufs req rt rt' res h =
      let (index, rt₃, c, s) =
        register_op-eq-done backend shim callback local class bufs req rt rt' res h in
      elim s [
        | inl armed ↦ subst (Step rt) armed.2 (Claims-Step c)
        | inr failed ↦ Step-trans (Claims-Step c) (release_slot-Step index rt₃ rt' failed.1)
      ]

  Claims-Used :
      {shim callback : ℕ} {local : L} {class : ℕ} {req : Req} {rt rt₃ : Runtime G L B} {index : ℕ}
      (c : Claims backend shim callback local class req rt rt₃ index)
      → Valid rt
      → Small rt₃
      → c.slot.body ≡ live shim callback
      → Used op_link rt.io_slab index c.slot rt₃.io_slab rt₃.free_slots_head (rt.inflight_ops + 1)
  Claims-Used {rt = rt} {index = index} c valid small body =
      let room = subst Small c.state small in
      subst
        (λ (q : Runtime G L B).
          Used op_link rt.io_slab index c.slot q.io_slab q.free_slots_head (rt.inflight_ops + 1))
        (sym c.state)
        (Taken-Used op_link rt.io_slab c.takes.slab rt.free_slots_head c.takes.head index
          rt.inflight_ops c.slot valid.0.stack valid.0.stacked c.takes.taken (ap body_link body)
          (omega (arith, room.0, length-set c.takes.slab index c.slot)))

  pub Claims-Registered :
      (shim callback : ℕ) (local : L) (class : ℕ) (req : Req) (rt rt' : Runtime G L B) (index : ℕ)
      → Claims backend shim callback local class req rt rt' index
      → Valid rt
      → Small rt'
      → Registered shim callback local class
          (record { slot = index; class = class; id = rt.next_id })
          rt
          rt'
  Claims-Registered shim callback local class req rt rt' index c valid small =
      let (body, id, own) =
        claim-eq-done rt.next_id shim callback local c.run c.before c.slot c.claimed in
      let used = Claims-Used c valid small body in
      record {
        slot = c.slot;
        there = used.own;
        body = body;
        own_local = own;
        own_id = id;
        same_class = refl;
        counted = ap (λ (q : Runtime G L B). q.inflight_ops) c.state;
        others = λ j s g live_s.
            let (below, link) =
              IdOk-below (get rt.next_id) s.id s.body (valid.0.each j s g) live_s in
            let (still, other) = used.others j s g link in (still, other, omega (arith, below));
      }

  -- Where `register_op` takes an op in a well-formed state and leaves fewer than 2^32 - 1 slots in
  -- each slab, the state is again well formed and has one more op in flight; the handle's slot
  -- holds the op with its shim, callback, local and id, and every op in use before is still where
  -- it was, in another slot and with another id.
  pub register_op-Registered :
      (shim callback : ℕ) (local : L) (class : ℕ) (bufs : List IoBufErased) (req : Req)
      (rt rt' : Runtime G L B) (op : Op)
      → Valid rt
      → Small rt'
      → register_op backend shim callback local class bufs req rt ≡ done (ok op, rt')
      → Valid rt' × Registered shim callback local class op rt rt'
  register_op-Registered shim callback local class bufs req rt rt' op valid small h =
      let (index, rt₃, c, s) =
        register_op-eq-done backend shim callback local class bufs req rt rt' (ok op) h in
      (
        (register_op-Step shim callback local class bufs req rt rt' (ok op) h).keeps small valid,
        elim s [
          | inl armed ↦
              subst (λ q. Registered shim callback local class q rt rt')
                (ok-injective (sym armed.1))
                (Claims-Registered shim callback local class req rt rt' index
                  (subst (λ q. Claims backend shim callback local class req rt q index) armed.2 c)
                  valid small)
          | inr failed ↦ absurd (cc (failed.0))
        ],
      )
    where
      ok-injective : {a b : Op} → ok a ≡ ok b → a ≡ b
      ok-injective e = cc
