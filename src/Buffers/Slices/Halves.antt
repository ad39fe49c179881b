-- ===== src/Buffers/Slices/Halves.antt =====
-- The bytes of the views that `sub` and `split_at` make of a view.
use conrt.Base.{
  ℕ, zero, suc, ◌+◌, ◌-◌, ◌%◌, ◌^◌, ◌≤◌, ◌<◌, true, ◌||◌, List, ◌∷◌, some, ◌≡◌, refl, sym, ap,
  subst, ◌∙◌, inl, inr, arith, take, drop, length, length-drop, take-all, ltb, done, >>=-elim,
  >>=-done, assert-elim, done-injective, Bool-cases,
}
use conrt.Buffers.Tracker
use conrt.Buffers.Views.{Slice}
use conrt.Buffers.Routing
use conrt.Buffers.Routing.{Thread, active_gen_matches, resolve_ptr}
use conrt.Buffers.Refs
use conrt.Buffers.Slices.{part}
use conrt.Buffers.Slices.Address.{resolve_ptr-borrowing}
use conrt.Buffers.Slices.Bytes.{bytes_at, as_ref, sub}
use conrt.Buffers.Slices.BytesMut.{split_at}

some-injective : {A : Type 0} {a b : A} → some a ≡ some b → a ≡ b
some-injective e = cc

module _ (memory : ℕ → ℕ) where
  take-bytes_at : (n x len : ℕ) → n ≤ len → take n (bytes_at memory x len) ≡ bytes_at memory x n
  unfolding bytes_at
  take-bytes_at zero x len h = refl
  take-bytes_at (suc n) x zero h = absurd (omega arith)
  take-bytes_at (suc n) x (suc len) h =
      ap (◌∷◌ (memory x)) (take-bytes_at n (x + 1) len (omega arith))

  drop-bytes_at :
      (n x len : ℕ) → n ≤ len → drop n (bytes_at memory x len) ≡ bytes_at memory (x + n) (len - n)
  unfolding bytes_at
  drop-bytes_at zero x len h =
      ap (λ y. bytes_at memory y len) {x = x} {y = x + 0} (omega arith)
      ∙ ap (bytes_at memory (x + 0)) {x = len} {y = len - 0} (omega arith)
  drop-bytes_at (suc n) x zero h = absurd (omega arith)
  drop-bytes_at (suc n) x (suc len) h =
      drop-bytes_at n (x + 1) len (omega arith)
      ∙ ap (λ y. bytes_at memory y (len - n)) {x = x + 1 + n} {y = x + suc n} (omega arith)
      ∙ ap (bytes_at memory (x + suc n)) {x = len - n} {y = suc len - suc n} (omega arith)

  length-bytes_at : (x len : ℕ) → length (bytes_at memory x len) ≡ len
  unfolding bytes_at
  length-bytes_at x zero = refl
  length-bytes_at x (suc len) = ap suc (length-bytes_at (x + 1) len)

  take-rest :
      (n len addr : ℕ) (bs : List ℕ)
      → bytes_at memory addr len ≡ bs
      → take (len - n) (drop n bs) ≡ drop n bs
  take-rest n len addr bs read =
      take-all (len - n) (drop n bs)
        (omega (arith, length-drop n bs, ap (length {A = ℕ}) read, length-bytes_at addr len))

  -- What a readable view says of its slot.
  read-elim :
      {P : Type 0} (v : Slice) (t q : Thread) (bs : List ℕ)
      → as_ref memory v t ≡ done (bs, q)
      → ((addr : ℕ) (q' : Thread)
          → resolve_ptr v.ref.bid v.ref.generation v.ref.offset t ≡ done (addr, q')
          → bytes_at memory addr v.len ≡ bs
          → P)
      → P
  unfolding as_ref Refs.as_ptr
  read-elim v t q bs h k =
      >>=-elim (resolve_ptr v.ref.bid v.ref.generation v.ref.offset t) _ h
        λ x resolved h1. k x.0 x.1 resolved (ap (λ z. z.0) (done-injective h1))

  resolve_ptr-matches :
      (bid generation offset : ℕ) (t : Thread) {r : ℕ × Thread}
      → resolve_ptr bid generation offset t ≡ done r
      → active_gen_matches t generation ≡ true
  unfolding resolve_ptr
  resolve_ptr-matches bid generation offset t h =
      assert-elim (active_gen_matches t generation) _ h λ matches _. matches

  -- A view whose address is known is readable.
  as_ref-done :
      (v : Slice) (t : Thread) (addr : ℕ)
      → resolve_ptr v.ref.bid v.ref.generation v.ref.offset t ≡ done (addr, t)
      → as_ref memory v t ≡ done (bytes_at memory addr v.len, t)
  unfolding as_ref Refs.as_ptr
  as_ref-done v t addr h = >>=-done _ _ h refl

  -- A part of a view, after a change of the slot's borrow count.
  part-as_ref :
      (v : Slice) (n len base addr : ℕ) (t' : Thread) (bs : List ℕ)
      → ((offset' : ℕ)
          → resolve_ptr v.ref.bid v.ref.generation offset' t' ≡ done (base + offset', t'))
      → addr ≡ base + v.ref.offset
      → bytes_at memory addr v.len ≡ bs
      → v.ref.offset + v.len < 2 ^ 32
      → n + len ≤ v.len
      → as_ref memory (part v n len) t' ≡ done (take len (drop n bs), t')
  part-as_ref v n len base addr t' bs at e read bound inside =
      as_ref-done (part v n len) t' (base + (v.ref.offset + n) % 2 ^ 32)
        (at ((v.ref.offset + n) % 2 ^ 32))
      ∙ ap (λ xs. done (xs, t'))
          (ap (λ x. bytes_at memory x (len % 2 ^ 32)) {x = base + (v.ref.offset + n) % 2 ^ 32}
              {y = addr + n} (omega arith)
            ∙ ap (bytes_at memory (addr + n)) {x = len % 2 ^ 32} {y = len} (omega arith)
            ∙ sym (take-bytes_at len (addr + n) (v.len - n) (omega arith))
            ∙ ap (take len) (sym (drop-bytes_at n addr v.len (omega arith)))
            ∙ ap (λ xs. take len (drop n xs)) read)

  -- The bytes of a sub-slice `a..b` of a view that can be read, and whose slot ends below 4 GiB,
  -- are the bytes from `a` to `b` of what the view reads.
  pub as_ref-sub :
      (a b : ℕ) (v w : Slice) (t t' q : Thread) (bs : List ℕ)
      → v.ref.offset + v.len < 2 ^ 32
      → as_ref memory v t ≡ done (bs, q)
      → sub a b v t ≡ done (some w, t')
      → as_ref memory w t' ≡ done (take (b - a) (drop a bs), t')
  unfolding sub Routing.clone_view
  as_ref-sub a b v w t t' q bs bound read cut = elim (Bool-cases (ltb b a || ltb v.len b)) [
    | inl outside ↦ absurd (let e = rw outside at cut in cc)
    | inr inside ↦ read-elim v t q bs read λ addr q' resolved content.
        >>=-elim (Routing.clone_view v.ref.bid v.ref.generation t) _ (rw inside at cut)
          λ t1 cloned made.
            let matches = resolve_ptr-matches _ _ _ t resolved in
            let (base, at, moved) =
              resolve_ptr-borrowing Tracker.clone_shared v.ref.bid v.ref.generation v.ref.offset
                addr t t1 q' (rw matches at cloned) resolved in
            let view : part v a (b - a) ≡ w =
              some-injective (ap (λ z. z.0) (done-injective made)) in
            let left : t1 ≡ t' = ap (λ z. z.1) (done-injective made) in
            subst (λ z. as_ref memory w z ≡ done (take (b - a) (drop a bs), z)) left
              (subst (λ z. as_ref memory z t1 ≡ done (take (b - a) (drop a bs), t1)) view
                (part-as_ref v a (b - a) base addr t1 bs moved at content bound (ground arith)))
  ]

  -- The two halves that `split_at mid` makes of a view that can be read, and whose slot ends below
  -- 4 GiB, can both be read: they are the first `mid` bytes of what the view reads and the bytes
  -- after them, at addresses that follow one another.
  pub as_ref-split_at :
      (mid : ℕ) (v head tail : Slice) (t t' q : Thread) (bs : List ℕ)
      → v.ref.offset + v.len < 2 ^ 32
      → as_ref memory v t ≡ done (bs, q)
      → split_at mid v t ≡ done (some (head, tail), t')
      → (as_ref memory head t' ≡ done (take mid bs, t'))
        × (as_ref memory tail t' ≡ done (drop mid bs, t'))
        × (head.ref.offset + head.len ≡ tail.ref.offset)
  unfolding split_at Routing.split_exclusive
  as_ref-split_at mid v head tail t t' q bs bound read cut = elim (Bool-cases (ltb v.len mid)) [
    | inl outside ↦
        >>=-elim (Refs.drop_mut v.ref t) _ (rw outside at cut) λ t1 dropped made. absurd (cc)
    | inr inside ↦ read-elim v t q bs read λ addr q' resolved content.
        >>=-elim (Routing.split_exclusive v.ref.bid v.ref.generation t) _ (rw inside at cut)
          λ t1 split made.
            let matches = resolve_ptr-matches _ _ _ t resolved in
            let (base, at, moved) =
              resolve_ptr-borrowing Tracker.split_exclusive v.ref.bid v.ref.generation v.ref.offset
                addr t t1 q' (rw matches at split) resolved in
            let views = some-injective (ap (λ z. z.0) (done-injective made)) in
            let first : record { ref = v.ref; len = mid % 2 ^ 32 } ≡ head = ap (λ z. z.0) views in
            let second : part v mid (v.len - mid) ≡ tail = ap (λ z. z.1) views in
            let left : t1 ≡ t' = ap (λ z. z.1) (done-injective made) in
            let from_start : part v 0 mid ≡ head =
              ap (λ o. record { ref = record v.ref { offset = o }; len = mid % 2 ^ 32 })
                {x = (v.ref.offset + 0) % 2 ^ 32} {y = v.ref.offset} (omega arith)
              ∙ first in
            subst
              (λ z.
                (as_ref memory head z ≡ done (take mid bs, z))
                × (as_ref memory tail z ≡ done (drop mid bs, z))
                × (head.ref.offset + head.len ≡ tail.ref.offset))
              left
              (
                subst (λ z. as_ref memory z t1 ≡ done (take mid bs, t1)) from_start
                    (part-as_ref v 0 mid base addr t1 bs moved at content bound (ground arith)),
                subst (λ z. as_ref memory z t1 ≡ done (drop mid bs, t1)) second
                    (part-as_ref v mid (v.len - mid) base addr t1 bs moved at content bound
                        (ground arith)
                      ∙ ap (λ xs. done (xs, t1)) (take-rest mid v.len addr bs content)),
                subst (λ z. z.ref.offset + z.len ≡ tail.ref.offset) first
                    (subst (λ z. v.ref.offset + mid % 2 ^ 32 ≡ z.ref.offset) second (ground arith)),
              )
  ]
