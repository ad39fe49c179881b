-- ===== src/Ops/Table/Claims.antt =====
-- The run of `register_op`, call by call.
use conrt.Base.{
  ℕ, ◌<◌, Bool, true, false, List, Option, ◌≡◌, refl, sym, ap, subst, ◌∙◌, ◌⊎◌, set, if◌then◌else◌,
  inl, inr, Outcome, done, >>=-eq-done, done-injective, vec_get, IoResult, ok, err, ◌>>=◌,
}
use conrt.Ops.Ids.{NonZero, get, after, cancel_bit}
use conrt.Ops.Arena.{alloc_buf_run, IoBufErased, Run, BufArena}
use conrt.Ops.Slots
use conrt.Ops.Slots.{run_start, run_len, IoSlot, SlotBody, live, free_link}
use conrt.Ops.Table.{Runtime, Backend, Op, alloc_op_slot, next_op_id, register_op, release_slot}
use conrt.Ops.Table.Takes.{TakesOp, with_op_slot, alloc_op_slot-TakesOp}
use conrt.Ops.Table.Register.{next_op_id-eq-done}

-- The four calls of `register_op` that do not panic, and what they leave.
module _ {G L B Req : Type 0} (backend : Backend B Req) where
  pub record Claims (shim callback : ℕ) (local : L) (class : ℕ) (req : Req) (rt rt₃ : Runtime G L B)
      (index : ℕ) : Type 0 where
    pub takes : TakesOp rt index
    pub slot : IoSlot L
    pub arena : BufArena
    pub run : Option Run
    pub before : IoSlot L
    pub claimed : Slots.claim rt.next_id shim callback local run before ≡ done slot
    pub below : get rt.next_id < cancel_bit
    pub state : rt₃ ≡ record (with_op_slot takes.slab takes.head rt) {
      backend = (backend.arm index class req rt.backend).1;
      io_slab = set takes.slab index slot;
      buf_arena = arena;
      next_id = after rt.next_id;
    }

  -- Armed, or taken back.
  abbrev pub Settles :
      ℕ → ℕ → Req → Runtime G L B → Runtime G L B → IoResult Op → Runtime G L B → Type 0
  Settles index class req rt rt₃ res rt' =
      ((backend.arm index class req rt.backend).0 ≡ true)
        × (res ≡ ok (record { slot = index; class = class; id = rt.next_id }))
        × (rt₃ ≡ rt')
      ⊎ ((res ≡ err) × (release_slot index rt₃ ≡ done rt'))

  armed-or-released :
      (armed : Bool) (index : ℕ) (op : Op) (rt₃ rt' : Runtime G L B) (res : IoResult Op)
      → if◌then◌else◌ {A = Outcome (IoResult Op × Runtime G L B)} armed
          (done (ok op, rt₃))
          (release_slot index rt₃ >>= λ rt₄. done (err, rt₄))
        ≡ done (res, rt')
      → (armed ≡ true) × (res ≡ ok op) × (rt₃ ≡ rt')
        ⊎ ((res ≡ err) × (release_slot index rt₃ ≡ done rt'))
  armed-or-released true index op rt₃ rt' res h =
      let p = done-injective h in
      inl (
        refl,
        sym (ap (λ (q : IoResult Op × Runtime G L B). q.0) p),
        ap (λ (q : IoResult Op × Runtime G L B). q.1) p,
      )
  armed-or-released false index op rt₃ rt' res h =
      let (rt₄, r, h₁) = >>=-eq-done (release_slot index rt₃) _ h in
      let p = done-injective h₁ in
      inr (
        sym (ap (λ (q : IoResult Op × Runtime G L B). q.0) p),
        r ∙ ap (λ (q : IoResult Op × Runtime G L B). done q.1) p,
      )

  settles :
      (index class : ℕ) (req : Req) (rt rt₃ rt' : Runtime G L B) (res : IoResult Op) {b : B}
      {id : NonZero}
      → b ≡ rt.backend
      → id ≡ rt.next_id
      → if◌then◌else◌ {A = Outcome (IoResult Op × Runtime G L B)}
          (backend.arm index class req b).0
          (done (ok (record { slot = index; class = class; id = id }), rt₃))
          (release_slot index rt₃ >>= λ rt₄. done (err, rt₄))
        ≡ done (res, rt')
      → Settles index class req rt rt₃ res rt'
  settles index class req rt rt₃ rt' res same_backend same_id h =
      armed-or-released (backend.arm index class req rt.backend).0 index
        (record { slot = index; class = class; id = rt.next_id }) rt₃ rt' res
        (ap
            (λ (q : B × NonZero).
              if◌then◌else◌ {A = Outcome (IoResult Op × Runtime G L B)}
                (backend.arm index class req q.0).0
                (done (ok (record { slot = index; class = class; id = q.1 }), rt₃))
                (release_slot index rt₃ >>= λ rt₄. done (err, rt₄)))
            (λ i. (sym same_backend i, sym same_id i))
          ∙ h)

  pub register_op-eq-done :
      (shim callback : ℕ) (local : L) (class : ℕ) (bufs : List IoBufErased) (req : Req)
      (rt rt' : Runtime G L B) (res : IoResult Op)
      → register_op backend shim callback local class bufs req rt ≡ done (res, rt')
      → (index : ℕ) × (rt₃ : Runtime G L B) × Claims shim callback local class req rt rt₃ index
        × Settles index class req rt rt₃ res rt'
  unfolding register_op
  register_op-eq-done shim callback local class bufs req rt rt' res h =
      let ((index, rt₁), a, h₁) = >>=-eq-done (alloc_op_slot rt) _ h in
      let ((id, rt₂), n, h₂) = >>=-eq-done (next_op_id rt₁) _ h₁ in
      let ((run, arena), r, h₃) = >>=-eq-done (alloc_buf_run bufs rt₂.buf_arena) _ h₂ in
      let (before, g, h₄) = >>=-eq-done (vec_get rt₂.io_slab index) _ h₃ in
      let (slot, c, h₅) = >>=-eq-done (Slots.claim id shim callback local run before) _ h₄ in
      let (takes, e₁) = alloc_op_slot-TakesOp rt rt₁ index a in
      let (low, e_id, e_rt) = next_op_id-eq-done rt₁ rt₂ id n in
      let same_id : id ≡ rt.next_id = e_id ∙ ap (λ (q : Runtime G L B). q.next_id) e₁ in
      let e₂ : rt₂ ≡ record (with_op_slot takes.slab takes.head rt) { next_id = after rt.next_id } =
        e_rt ∙ ap (λ (q : Runtime G L B). record q { next_id = after q.next_id }) e₁ in
      let same_backend : rt₂.backend ≡ rt.backend = ap (λ (q : Runtime G L B). q.backend) e₂ in
      (
        index,
        record rt₂ {
          backend = (backend.arm index class req rt₂.backend).1;
          io_slab = set rt₂.io_slab index slot;
          buf_arena = arena;
        },
        record {
          takes = takes;
          slot = slot;
          arena = arena;
          run = run;
          before = before;
          claimed = ap (λ i. Slots.claim i shim callback local run before) (sym same_id) ∙ c;
          below = subst (λ n. get n < cancel_bit) (ap (λ (q : Runtime G L B). q.next_id) e₁) low;
          state =
              ap
                (λ (q : Runtime G L B). record q {
                  backend = (backend.arm index class req q.backend).1;
                  io_slab = set q.io_slab index slot;
                  buf_arena = arena;
                })
                e₂;
        },
        settles index class req rt _ rt' res same_backend same_id h₅,
      )
