-- ===== src/Ops/Table/Valid.antt =====
-- The well-formed states of the runtime's slabs.
use conrt.Base.{
  get_elem?-set, ℕ, ◌<◌, ◌≤◌, ◌≢◌, List, Option, none, some, ◌≡◌, sym, ap, subst, ◌∙◌, arith,
  length, set, get_elem?, get_elem?-lt, ℕ_discrete, ◌*◌,
}
use conrt.Ops.Ids.{NonZero, get, free_none, id_bits, cancel_bit}
use conrt.Ops.Slots.{IoSlot, SlotBody, live, free_link}
use conrt.Ops.Cancels.{CancelSlot, CancelBody, cancel_done, cancel_link}
use conrt.Ops.Stack.Slab.{Slab, Slab-empty}
use conrt.Ops.Table.{new, Op, Runtime}

abbrev pub body_link : SlotBody → Option ℕ
body_link (live shim callback) = none
body_link (free_link next) = some next

abbrev pub cancel_body_link : CancelBody → Option ℕ
cancel_body_link (cancel_done callback) = none
cancel_body_link (cancel_link next) = some next

-- The id of a slot in use is that of an op below the counter, with or without the cancel bit.
abbrev pub IdOk : ℕ → SlotBody → ℕ → Type 0
IdOk next_id (live shim callback) id =
    (0 < id_bits id) × (id_bits id < next_id) × (id < 2 * cancel_bit)
IdOk next_id (free_link next) id = id ≡ 0

abbrev pub CancelIdOk : CancelBody → ℕ → Type 0
CancelIdOk (cancel_done callback) id = 0 < id
CancelIdOk (cancel_link next) id = id ≡ 0

module _ {L : Type 0} where
  abbrev pub op_link : IoSlot L → Option ℕ
  op_link s = body_link s.body

  abbrev pub cancel_slot_link : CancelSlot L → Option ℕ
  cancel_slot_link s = cancel_body_link s.body

  abbrev pub OpOk : ℕ → IoSlot L → Type 0
  OpOk next_id s = IdOk next_id s.body s.id

  abbrev pub CancelOk : CancelSlot L → Type 0
  CancelOk s = CancelIdOk s.body s.id

module _ {G L B : Type 0} where
  -- Both free stacks hold exactly the free slots of their slabs, the counts of what is in flight are
  -- right, and a slot's id says whether it is free.
  abbrev pub Valid : Runtime G L B → Type 0
  Valid rt =
      Slab op_link (OpOk (get rt.next_id)) rt.io_slab rt.free_slots_head rt.inflight_ops
      × Slab cancel_slot_link CancelOk rt.cancel_slab rt.free_cancels_head rt.inflight_cancels
      × (get rt.next_id ≤ cancel_bit)

  -- Fewer slots than a `u32` index can name.
  abbrev pub Small : Runtime G L B → Type 0
  Small rt = (length rt.io_slab < free_none) × (length rt.cancel_slab < free_none)

  abbrev pub Grows : Runtime G L B → Runtime G L B → Type 0
  Grows rt rt' =
      (length rt.io_slab ≤ length rt'.io_slab)
      × (length rt.cancel_slab ≤ length rt'.cancel_slab)
      × (get rt.next_id ≤ get rt'.next_id)

  -- The handle is of an earlier op, which is not in the slot that it names.
  abbrev pub Gone : Op → Runtime G L B → Type 0
  Gone op rt =
      (get op.id < get rt.next_id)
      × ((s : IoSlot L) → get_elem? rt.io_slab op.slot ≡ some s → id_bits s.id ≢ get op.id)

  -- No slot is lost, no id is used again, and if the slabs stay small then the state stays well formed, and a handle of
  -- an op that is gone stays so.
  pub record Step (rt rt' : Runtime G L B) : Type 0 where
    pub grows : Grows rt rt'
    pub keeps : Small rt' → Valid rt → Valid rt'
    pub stays_gone : Small rt' → Valid rt → (op : Op) → Gone op rt → Gone op rt'

  pub Step-refl : (rt : Runtime G L B) → Step rt rt
  Step-refl rt = record {
    grows = (omega arith, omega arith, omega arith);
    keeps = λ small v. v;
    stays_gone = λ small v op gone. gone;
  }

  pub Step-trans : {rt rt' rt'' : Runtime G L B} → Step rt rt' → Step rt' rt'' → Step rt rt''
  Step-trans {rt' = rt'} s s' = record {
    grows = (
      omega (arith, s.grows.0, s'.grows.0),
      omega (arith, s.grows.1, s'.grows.1),
      omega (arith, s.grows.2, s'.grows.2),
    );
    keeps = λ small v.
        s'.keeps small
          (s.keeps (omega (arith, small.0, s'.grows.0), omega (arith, small.1, s'.grows.1)) v);
    stays_gone = λ small v op gone.
        let mid : Small rt' =
          (omega (arith, small.0, s'.grows.0), omega (arith, small.1, s'.grows.1)) in
        s'.stays_gone small (s.keeps mid v) op (s.stays_gone mid v op gone);
  }

pub Small-before : {G L B : Type 0} {rt rt' : Runtime G L B} → Step rt rt' → Small rt' → Small rt
Small-before s small = (omega (arith, small.0, s.grows.0), omega (arith, small.1, s.grows.1))

-- A write over a slot that does not give it the handle's id.
pub Gone-set :
    {L : Type 0} (slab : List (IoSlot L)) (i j x : ℕ) (v s : IoSlot L)
    → get_elem? slab i ≡ some s
    → (id_bits s.id ≢ x → id_bits v.id ≢ x)
    → ((t : IoSlot L) → get_elem? slab j ≡ some t → id_bits t.id ≢ x)
    → (t : IoSlot L) → get_elem? (set slab i v) j ≡ some t
    → id_bits t.id ≢ x
Gone-set slab i j x v s g other gone t gt =
    let at = get_elem?-set slab i j v (get_elem?-lt slab i g) in
    elim (ℕ_discrete i j) [
      | yes e ↦
          let t_is : t ≡ v = ground (arith, at, e, gt) in
          subst (λ (q : IoSlot _). id_bits q.id ≢ x) (sym t_is)
            (other (gone s (ap (get_elem? slab) (sym e) ∙ g)))
      | no ne ↦ gone t (ground (arith, at, ne, gt))
    ]

pub new-Valid :
    {G L B : Type 0} (backend : B) (global : G) (next_id : NonZero)
    → get next_id ≤ cancel_bit
    → Valid {L = L} (new backend global next_id)
unfolding new
new-Valid backend global next_id small =
    (Slab-empty op_link (OpOk (get next_id)), Slab-empty cancel_slot_link CancelOk, small)
