-- ===== src/Buffers/Provided/Runs.antt =====
-- What happens to a provided slab: the kernel takes the buffer at its head and the runtime hands it
-- out, views change, and views are dropped. That the kernel takes the descriptor at its head, and
-- none at the tail, is the documented behaviour of a buffer ring.
use native.Mathlib.Nat.{mod-eq_of_lt}
use conrt.Base.{
  ℕ, zero, suc, ◌+◌, ◌%◌, ◌^◌, ◌<◌, ◌≢◌, Bool, true, false, not, List, [], ◌∷◌, ◌++◌, Option, some,
  ◌≡◌, refl, sym, ap, subst, ◌∙◌, arith, get_elem?, get_elem?-lt, leb, if◌then◌else◌, done,
  assert-eq-done, >>=-eq-done, done-injective, vec_get, vec_get-eq-done, expect,
}
use conrt.Base.Words.{ℤ, pos, negsuc, is_zero, is_positive, is_negative, incr_i32, decr_i32}
use conrt.Buffers.Tracker
use conrt.Buffers.Tracker.{BorrowTracker, write}
use conrt.Buffers.Tracker.Borrows.{Change, call, upgrade}
use conrt.Buffers.Views.{Slice}
use conrt.Buffers.Fixed.Runs.{held_change, moves}
use conrt.Buffers.Provided.{
  ProvidedSlab, IoUringBuf, select, select_mut, drop_view, recycle, recycle_buffer, descriptor,
}
use conrt.Buffers.Provided.Ring.{Ring, Ring-take, Ring-held, Ring-recycle}

pub data RingStep (s : ProvidedSlab) (head : ℕ) : ProvidedSlab → ℕ → Type 0 where
  taken :
      (active : Option ℕ) (len : ℕ) (d : IoUringBuf) (v : Slice) (s' : ProvidedSlab)
      → head % 2 ^ 16 ≢ s.ring_tail
      → get_elem? s.ring (head % s.buf_count) ≡ some d
      → select active d.bid len s ≡ done (v, s')
      → RingStep s head s' (head + 1)
  taken_mut :
      (active : Option ℕ) (len : ℕ) (d : IoUringBuf) (v : Slice) (s' : ProvidedSlab)
      → head % 2 ^ 16 ≢ s.ring_tail
      → get_elem? s.ring (head % s.buf_count) ≡ some d
      → select_mut active d.bid len s ≡ done (v, s')
      → RingStep s head s' (head + 1)
  changed :
      (c : Change) (local : ℕ) (t : BorrowTracker)
      → held_change c ≡ true
      → call c s.tracker local ≡ done t
      → RingStep s head (record s { tracker = t }) head
  dropped :
      (exclusive : Bool) (local : ℕ) (s' : ProvidedSlab)
      → drop_view s exclusive local ≡ done s'
      → RingStep s head s' head

pub data Reach (s : ProvidedSlab) (head : ℕ) : ProvidedSlab → ℕ → Type 0 where
  here : Reach s head s head
  later :
      (s₁ s₂ : ProvidedSlab) (head₁ head₂ : ℕ)
      → Reach s head s₁ head₁
      → RingStep s₁ head₁ s₂ head₂
      → Reach s head s₂ head₂

take_shared-eq-done :
    (t t' : BorrowTracker) (local : ℕ)
    → Tracker.take_shared t local ≡ done t'
    → t' ≡ write t local (pos 1)
unfolding Tracker.take_shared
take_shared-eq-done t t' local h =
    let (b, e, h₁) = >>=-eq-done (vec_get t.borrows local) _ h in
    let (free, h₂) = assert-eq-done (is_zero b) _ h₁ in sym (done-injective h₂)

drop_view-eq-done :
    (t t' : BorrowTracker) (exclusive gone : Bool) (local : ℕ)
    → Tracker.drop_view t exclusive local ≡ done (gone, t')
    → (b : ℤ) × (after : ℤ) × (get_elem? t.borrows local ≡ some b)
      × (is_zero b ≡ false)
      × (gone ≡ is_zero after)
      × (t' ≡ write t local after)
unfolding Tracker.drop_view
drop_view-eq-done t t' exclusive gone local h =
    let (b, e, h₁) = >>=-eq-done (vec_get t.borrows local) _ h in
    let (out, h₂) = assert-eq-done (not (is_zero b)) _ h₁ in
    let (kind, h₃) = assert-eq-done (if exclusive then is_negative b else is_positive b) _ h₂ in
    let p = done-injective h₃ in
    (
      b,
      if exclusive then incr_i32 b else decr_i32 b,
      vec_get-eq-done t.borrows local e,
      ground (arith, out),
      ap (λ (q : Bool × BorrowTracker). q.0) (sym p),
      ap (λ (q : Bool × BorrowTracker). q.1) (sym p),
    )

-- The queue is not empty, and its first buffer is the one that the kernel takes.
head_of :
    (s : ProvidedSlab) (head : ℕ) (queue : List ℕ) (d : IoUringBuf)
    → Ring s head queue
    → head % 2 ^ 16 ≢ s.ring_tail
    → get_elem? s.ring (head % s.buf_count) ≡ some d
    → (rest : List ℕ) × (queue ≡ d.bid ∷ rest) × (get_elem? s.tracker.borrows d.bid ≡ some (pos 0))
head_of s head [] d k ne g =
    absurd (ne (sym (k.published ∙ k.at_tail ∙ ap (λ n. n % 2 ^ 16) (omega arith))))
head_of s head (x ∷ xs) d k ne g =
    let at : get_elem? s.ring (head % s.buf_count) ≡ some (descriptor s.slab_base s.size x) =
      subst (λ n. get_elem? s.ring (n % s.buf_count) ≡ some (descriptor s.slab_base s.size x))
        (omega arith) (k.queued 0 x refl) in
    let same : d ≡ descriptor s.slab_base s.size x = some-injective (sym g ∙ at) in
    let bid : d.bid ≡ x = ap (λ (q : IoUringBuf). q.bid) same in
    (xs, ap (λ y. y ∷ xs) (sym bid), ground (arith, k.exact x, bid))
  where
    some-injective : {a b : IoUringBuf} → some a ≡ some b → a ≡ b
    some-injective e = cc

select-eq-done :
    (active : Option ℕ) (local len : ℕ) (s s' : ProvidedSlab) (v : Slice)
    → select active local len s ≡ done (v, s')
    → s' ≡ record s { tracker = write s.tracker local (pos 1) }
unfolding select
select-eq-done active local len s s' v h =
    let (generation, a, h₁) = >>=-eq-done (expect active) _ h in
    let (fits, h₂) = assert-eq-done (leb len s.size) _ h₁ in
    let (t, e, h₃) = >>=-eq-done (Tracker.take_shared s.tracker local) _ h₂ in
    sym (ap (λ (q : Slice × ProvidedSlab). q.1) (done-injective h₃))
    ∙ ap (λ t. record s { tracker = t }) (take_shared-eq-done s.tracker t local e)

select_mut-eq-done :
    (active : Option ℕ) (local len : ℕ) (s s' : ProvidedSlab) (v : Slice)
    → select_mut active local len s ≡ done (v, s')
    → (t : BorrowTracker) × (call upgrade (write s.tracker local (pos 1)) local ≡ done t)
      × (s' ≡ record s { tracker = t })
unfolding select_mut
select_mut-eq-done active local len s s' v h =
    let (generation, a, h₁) = >>=-eq-done (expect active) _ h in
    let (fits, h₂) = assert-eq-done (leb len s.size) _ h₁ in
    let (shared, e, h₃) = >>=-eq-done (Tracker.take_shared s.tracker local) _ h₂ in
    let (t, u, h₄) = >>=-eq-done (Tracker.upgrade shared local) _ h₃ in
    (
      t,
      ap (λ q. Tracker.upgrade q local) (sym (take_shared-eq-done s.tracker shared local e)) ∙ u,
      sym (ap (λ (q : Slice × ProvidedSlab). q.1) (done-injective h₄)),
    )

changed-Ring :
    (s : ProvidedSlab) (head : ℕ) (queue : List ℕ) (c : Change) (local : ℕ) (t : BorrowTracker)
    → Ring s head queue
    → held_change c ≡ true
    → call c s.tracker local ≡ done t
    → Ring (record s { tracker = t }) head queue
changed-Ring s head queue c local t k held h =
    let (b, v, g, nz, nz', e) = moves c s.tracker t local _ held refl h in
    subst (λ bs. Ring (record s { tracker = record { borrows = bs } }) head queue) (sym e)
      (Ring-held s head queue local b v k g nz nz')

dropped-Ring :
    (s s' : ProvidedSlab) (head : ℕ) (queue : List ℕ) (exclusive : Bool) (local : ℕ)
    → Ring s head queue
    → drop_view s exclusive local ≡ done s'
    → (queue' : List ℕ) × Ring s' head queue'
unfolding drop_view recycle
dropped-Ring s s' head queue exclusive local k h =
    let ((gone, t), e, h₁) = >>=-eq-done (Tracker.drop_view s.tracker exclusive local) _ h in
    let (b, after, g, nz, e_gone, e_t) = drop_view-eq-done s.tracker t exclusive gone local e in
    let in_range : local < 2 ^ 16 =
      omega (arith, get_elem?-lt s.tracker.borrows local g, k.borrow_slots, k.small) in
    let low : local % 2 ^ 16 ≡ local = mod-eq_of_lt {n = local} {m = 2 ^ 16} in_range in
    put_back b after g nz low (
      ap
        (λ x.
          if x
          then recycle (record s { tracker = write s.tracker local after }) local
          else record s { tracker = write s.tracker local after })
        (sym e_gone)
      ∙ ap
          (λ t. if gone then recycle (record s { tracker = t }) local else record s { tracker = t })
          (sym e_t)
      ∙ done-injective h₁)
  where
    put_back :
        (b after : ℤ)
        → get_elem? s.tracker.borrows local ≡ some b
        → is_zero b ≡ false
        → local % 2 ^ 16 ≡ local
        → (if is_zero after
            then recycle (record s { tracker = write s.tracker local after }) local
            else record s { tracker = write s.tracker local after })
          ≡ s'
        → (queue' : List ℕ) × Ring s' head queue'
    put_back b (pos zero) g nz low h = (
      queue ++ local ∷ [],
      subst (λ q. Ring q head (queue ++ local ∷ []))
          (ap (λ n. recycle_buffer n (record s { tracker = write s.tracker local (pos 0) }))
              (sym low)
            ∙ h)
          (Ring-recycle s head queue local b k g nz),
    )
    put_back b (pos (suc n)) g nz low h = (
      queue,
      subst (λ q. Ring q head queue) h (Ring-held s head queue local b (pos (suc n)) k g nz refl),
    )
    put_back b (negsuc n) g nz low h = (
      queue,
      subst (λ q. Ring q head queue) h (Ring-held s head queue local b (negsuc n) k g nz refl),
    )

pub step-Ring :
    (s s' : ProvidedSlab) (head head' : ℕ) (queue : List ℕ)
    → Ring s head queue
    → RingStep s head s' head'
    → (queue' : List ℕ) × Ring s' head' queue'
step-Ring s _ head _ queue k (taken active len d v s' ne g h) =
    let (rest, e, free) = head_of s head queue d k ne g in
    (
      rest,
      subst (λ q. Ring q (head + 1) rest) (sym (select-eq-done active d.bid len s s' v h))
          (Ring-take s head d.bid rest (pos 1) (subst (Ring s head) e k) free refl),
    )
step-Ring s _ head _ queue k (taken_mut active len d v s' ne g h) =
    let (rest, e, free) = head_of s head queue d k ne g in
    let (t, u, e') = select_mut-eq-done active d.bid len s s' v h in
    (
      rest,
      subst (λ q. Ring q (head + 1) rest) (sym e')
          (changed-Ring (record s { tracker = write s.tracker d.bid (pos 1) }) (head + 1) rest
            upgrade d.bid t
            (Ring-take s head d.bid rest (pos 1) (subst (Ring s head) e k) free refl) refl u),
    )
step-Ring s _ head _ queue k (changed c local t held h) =
    (queue, changed-Ring s head queue c local t k held h)
step-Ring s _ head _ queue k (dropped exclusive local s' h) =
    dropped-Ring s s' head queue exclusive local k h
