-- ===== src/Buffers/Provided/Ring.antt =====
-- The ring between the kernel's head and the tail that is published: it holds each buffer that no
-- view holds, once.
use native.Mathlib.Nat.{
  mod-eq_of_lt, mod-add-mod, mod-eq-sub-mod, mod-lt, mod-mod_of_dvd, dvd_of_mod-eq-zero,
}
use conrt.Base.{
  ℕ, suc, ◌+◌, ◌-◌, ◌%◌, ◌^◌, ◌<◌, ◌≤◌, ◌≢◌, false, List, [], ◌∷◌, ◌++◌, some, ◌≡◌, refl, sym, ap,
  subst, ◌∙◌, arith, length, get_elem?, get_elem?-set, get_elem?-push, ℕ_discrete, get_elem?-lt,
  set, length-set, length-append, ◌⊎◌, inl, inr,
}
use conrt.Base.Words.{ℤ, pos, is_zero}
use conrt.Buffers.Fixed.Free.{occurrences, unborrowed}
use conrt.Buffers.Provided.Counts.{free_slots, free_slots-set, free_slots-lt, occurrences-append}
use conrt.Buffers.Provided.{ProvidedSlab, descriptor, recycle_buffer}

-- Two places less than a turn apart are different.
mod-distinct : (a d m : ℕ) → 0 < d → d < m → a % m ≢ (a + d) % m
mod-distinct a d m some_way small e =
    let r = mod-lt a {m = m} (omega (arith, small)) in
    let sum : (a % m + d) % m ≡ a % m = mod-add-mod a m d ∙ sym e in
    elim (lt_or_ge (a % m + d) m) [
      | inl lt ↦ omega (arith, sum, some_way, mod-eq_of_lt {n = a % m + d} {m = m} lt)
      | inr ge ↦ omega (
        arith,
        sum,
        small,
        ge,
        r,
        mod-eq-sub-mod ge,
        mod-eq_of_lt {n = a % m + d - m} {m = m} (omega (arith, ge, r, small)),
      )
    ]
  where
    lt_or_ge : (a b : ℕ) → (a < b) ⊎ (b ≤ a)
    lt_or_ge a b = ground arith

-- The kernel has taken `head` buffers so far, and `queue` has those that it may take, in order.
pub record Ring (s : ProvidedSlab) (head : ℕ) (queue : List ℕ) : Type 0 where
  pub positive : 0 < s.buf_count
  pub small : s.buf_count ≤ 32768
  pub divides : 2 ^ 16 % s.buf_count ≡ 0
  pub ring_slots : length s.ring ≡ s.buf_count
  pub borrow_slots : length s.tracker.borrows ≡ s.buf_count
  pub queued :
      (k i : ℕ)
      → get_elem? queue k ≡ some i
      → get_elem? s.ring ((head + k) % s.buf_count) ≡ some (descriptor s.slab_base s.size i)
  pub at_tail : s.tail ≡ (head + length queue) % 2 ^ 16
  pub published : s.ring_tail ≡ s.tail
  pub exact : (i : ℕ) → occurrences i queue ≡ unborrowed (get_elem? s.tracker.borrows i)
  pub counted : length queue ≡ free_slots s.tracker.borrows

-- The place that the tail names.
tail_place :
    {s : ProvidedSlab} {head : ℕ} {queue : List ℕ}
    → Ring s head queue
    → s.tail % s.buf_count ≡ (head + length queue) % s.buf_count
tail_place {s} {head} {queue} k =
    ap (λ n. n % s.buf_count) k.at_tail
    ∙ mod-mod_of_dvd s.buf_count {b = 2 ^ 16} (head + length queue)
        (dvd_of_mod-eq-zero s.buf_count {n = 2 ^ 16} k.divides)

-- The count of a slot that is out changes, and it stays out.
pub Ring-held :
    (s : ProvidedSlab) (head : ℕ) (queue : List ℕ) (local : ℕ) (b v : ℤ)
    → Ring s head queue
    → get_elem? s.tracker.borrows local ≡ some b
    → is_zero b ≡ false
    → is_zero v ≡ false
    → Ring (record s { tracker = record { borrows = set s.tracker.borrows local v } }) head queue
Ring-held s head queue local b v k g nz nz' =
    let here = get_elem?-lt s.tracker.borrows local g in
    record {
      positive = k.positive;
      small = k.small;
      divides = k.divides;
      ring_slots = k.ring_slots;
      borrow_slots = length-set s.tracker.borrows local v ∙ k.borrow_slots;
      queued = k.queued;
      at_tail = k.at_tail;
      published = k.published;
      exact = λ i.
          ground (arith, k.exact i, get_elem?-set s.tracker.borrows local i v here, g, nz, nz');
      counted = ground (arith, k.counted, free_slots-set s.tracker.borrows local b v g, nz, nz');
    }

-- The kernel takes the buffer at its head, and a view gets it.
pub Ring-take :
    (s : ProvidedSlab) (head local : ℕ) (queue : List ℕ) (v : ℤ)
    → Ring s head (local ∷ queue)
    → get_elem? s.tracker.borrows local ≡ some (pos 0)
    → is_zero v ≡ false
    → Ring
        (record s { tracker = record { borrows = set s.tracker.borrows local v } })
        (head + 1)
        queue
Ring-take s head local queue v k g nz =
    let here = get_elem?-lt s.tracker.borrows local g in
    record {
      positive = k.positive;
      small = k.small;
      divides = k.divides;
      ring_slots = k.ring_slots;
      borrow_slots = length-set s.tracker.borrows local v ∙ k.borrow_slots;
      queued = λ j i gi.
          let e : head + suc j ≡ head + 1 + j = omega arith in
          subst (λ n. get_elem? s.ring (n % s.buf_count) ≡ some (descriptor s.slab_base s.size i)) e
            (k.queued (suc j) i gi);
      at_tail = k.at_tail ∙ ap (λ n. n % 2 ^ 16) (omega arith);
      published = k.published;
      exact = λ i. ground (arith, k.exact i, get_elem?-set s.tracker.borrows local i v here, g, nz);
      counted = ground (arith, k.counted, free_slots-set s.tracker.borrows local (pos 0) v g, nz);
    }

-- What the ring holds once the place at the tail is written.
recycled_at :
    (s : ProvidedSlab) (head local : ℕ) (queue : List ℕ)
    → Ring s head queue
    → length queue < s.buf_count
    → (j i : ℕ) → get_elem? (queue ++ local ∷ []) j ≡ some i
    → get_elem?
        (set s.ring (s.tail % s.buf_count) (descriptor s.slab_base s.size local))
        ((head + j) % s.buf_count)
      ≡ some (descriptor s.slab_base s.size i)
recycled_at s head local queue k room j i gi =
    let new = descriptor s.slab_base s.size local in
    let place : s.tail % s.buf_count ≡ (head + length queue) % s.buf_count = tail_place k in
    let in_ring : s.tail % s.buf_count < length s.ring =
      omega (arith, mod-lt s.tail {m = s.buf_count} k.positive, k.ring_slots) in
    let written =
      get_elem?-set s.ring (s.tail % s.buf_count) ((head + j) % s.buf_count) new in_ring in
    let pushed = get_elem?-push queue local j in
    elim (ℕ_discrete (length queue) j) [
      | yes e ↦
          let same : s.tail % s.buf_count ≡ (head + j) % s.buf_count =
            place ∙ ap (λ n. (head + n) % s.buf_count) e in
          let is_local : local ≡ i = ground (arith, pushed, e, gi) in
          ground (arith, written, same) ∙ ap (λ n. some (descriptor s.slab_base s.size n)) is_local
      | no ne ↦
          let before : get_elem? queue j ≡ some i = ground (arith, pushed, ne, gi) in
          let below = get_elem?-lt queue j before in
          let e : head + j + (length queue - j) ≡ head + length queue = omega (arith, below) in
          let apart : (head + j) % s.buf_count ≢ (head + length queue) % s.buf_count =
            subst (λ n. (head + j) % s.buf_count ≢ n % s.buf_count) e
              (mod-distinct (head + j) (length queue - j) s.buf_count (omega (arith, below))
                (omega (arith, room, below))) in
          let other : (s.tail % s.buf_count) ≢ ((head + j) % s.buf_count) =
            λ h. apart (sym h ∙ place) in
          ground (arith, written, other) ∙ k.queued j i before
    ]

-- The last view of a buffer goes, and the buffer is put back behind the others.
pub Ring-recycle :
    (s : ProvidedSlab) (head : ℕ) (queue : List ℕ) (local : ℕ) (b : ℤ)
    → Ring s head queue
    → get_elem? s.tracker.borrows local ≡ some b
    → is_zero b ≡ false
    → Ring
        (recycle_buffer local
          (record s { tracker = record { borrows = set s.tracker.borrows local (pos 0) } }))
        head
        (queue ++ local ∷ [])
unfolding recycle_buffer
Ring-recycle s head queue local b k g nz =
    let here = get_elem?-lt s.tracker.borrows local g in
    let room : length queue < s.buf_count =
      omega (arith, k.counted, k.borrow_slots, free_slots-lt s.tracker.borrows local b g nz) in
    record {
      positive = k.positive;
      small = k.small;
      divides = k.divides;
      ring_slots = length-set s.ring (s.tail % s.buf_count) _ ∙ k.ring_slots;
      borrow_slots = length-set s.tracker.borrows local (pos 0) ∙ k.borrow_slots;
      queued = recycled_at s head local queue k room;
      at_tail = omega (arith, k.at_tail, length-append queue (local ∷ []));
      published = refl;
      exact = λ i. ground (
        arith,
        k.exact i,
        get_elem?-set s.tracker.borrows local i (pos 0) here,
        g,
        nz,
        occurrences-append i local queue,
      );
      counted = ground (
        arith,
        k.counted,
        free_slots-set s.tracker.borrows local b (pos 0) g,
        nz,
        length-append queue (local ∷ []),
      );
    }
