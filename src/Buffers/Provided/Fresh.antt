-- ===== src/Buffers/Provided/Fresh.antt =====
-- A fresh provided slab, and every state that it can come to.
use native.Mathlib.Nat.{mod-one, mul-mod_right, div-add-mod, mul_assoc, mod-eq_of_lt, pow-succ'}
use conrt.Base.{
  ℕ, zero, suc, ◌+◌, ◌*◌, ◌/◌, ◌%◌, ◌^◌, ◌<◌, ◌≤◌, true, List, some, ◌≡◌, refl, sym, ap, subst, ◌∙◌,
  arith, length, get_elem?, replicate, ltb, leb, done, assert-eq-done, done-injective, ◌⊎◌, inl,
  inr,
}
use conrt.Base.Words.{pos}
use conrt.Buffers.Classes.{is_power_of, is_power_of_two}
use conrt.Buffers.Tracker
use conrt.Buffers.Fixed.{slots}
use conrt.Buffers.Fixed.Free.{occurrences}
use conrt.Buffers.Fixed.Runs.{slots_from}
use conrt.Buffers.Provided.{ProvidedSlab, new, descriptor, descriptors}
use conrt.Buffers.Provided.Ring.{Ring}
use conrt.Buffers.Provided.Counts.{free_slots}
use conrt.Buffers.Provided.Runs.{Reach, here, later, step-Ring}

halved :
    (fuel n : ℕ)
    → is_power_of (suc fuel) n ≡ true
    → (n ≡ 1) ⊎ ((n ≡ 2 * (n / 2)) × (is_power_of fuel (n / 2) ≡ true))
unfolding is_power_of
halved fuel n h = ground (arith, h)

doubled : (n m x : ℕ) → n ≡ 2 * m → x % m ≡ 0 → 2 * x % n ≡ 0
doubled n m x e h =
    let q = x / m in
    let whole : x ≡ m * q = sym (div-add-mod x m) ∙ ap (λ r. m * q + r) h ∙ omega arith in
    let twice : 2 * x ≡ n * q =
      ap (λ y. 2 * y) whole ∙ sym (mul_assoc 2 m q) ∙ ap (λ y. y * q) (sym e) in
    ap (λ y. y % n) twice ∙ mul-mod_right n q

double_divides :
    (n k : ℕ)
    → 0 < n
    → n ≤ 2 ^ k
    → n ≡ 2 * (n / 2)
    → ((j : ℕ) → n / 2 ≤ 2 ^ j → 2 ^ j % (n / 2) ≡ 0)
    → 2 ^ k % n ≡ 0
double_divides n zero some_way le e half = absurd (omega (arith, le, e, some_way))
double_divides n (suc k) some_way le e half =
    ap (λ x. x % n) (pow-succ' 2 k)
    ∙ doubled n (n / 2) (2 ^ k) e (half k (omega (arith, le, e, pow-succ' 2 k)))

-- A power of two divides every greater one.
power-divides : (fuel n k : ℕ) → is_power_of fuel n ≡ true → 0 < n → n ≤ 2 ^ k → 2 ^ k % n ≡ 0
unfolding is_power_of
power-divides zero n k h some_way le = cc
power-divides (suc fuel) n k h some_way le = elim (halved fuel n h) [
  | inl e ↦ ap (λ m. 2 ^ k % m) e ∙ mod-one (2 ^ k)
  | inr (e, h') ↦
      double_divides n k some_way le e
        (λ j le'. power-divides fuel (n / 2) j h' (omega (arith, e, some_way)) le')
]

length-descriptors : (slab_base size n first : ℕ) → length (descriptors slab_base size n first) ≡ n
unfolding descriptors
length-descriptors slab_base size zero first = refl
length-descriptors slab_base size (suc n) first =
    omega (arith, length-descriptors slab_base size n (first + 1))

get_elem?-descriptors :
    (slab_base size n first k : ℕ)
    → k < n
    → get_elem? (descriptors slab_base size n first) k
      ≡ some (descriptor slab_base size (first + k))
unfolding descriptors
get_elem?-descriptors slab_base size zero first k h = absurd (omega (arith, h))
get_elem?-descriptors slab_base size (suc n) first zero h =
    ap (λ i. some (descriptor slab_base size i)) (omega arith)
get_elem?-descriptors slab_base size (suc n) first (suc k) h =
    get_elem?-descriptors slab_base size n (first + 1) k (omega (arith, h))
    ∙ ap (λ i. some (descriptor slab_base size i)) (omega arith)

get_elem?-slots :
    (n first k i : ℕ) → get_elem? (slots n first) k ≡ some i → (i ≡ first + k) × (k < n)
unfolding slots
get_elem?-slots zero first k i h = cc
get_elem?-slots (suc n) first zero i h = (ground (arith, h), omega arith)
get_elem?-slots (suc n) first (suc k) i h =
    let (e, lt) = get_elem?-slots n (first + 1) k i h in (omega (arith, e), omega (arith, lt))

length-slots : (n first : ℕ) → length (slots n first) ≡ n
unfolding slots
length-slots zero first = refl
length-slots (suc n) first = omega (arith, length-slots n (first + 1))

free_slots-replicate : (n : ℕ) → free_slots (replicate n (pos 0)) ≡ n
free_slots-replicate zero = refl
free_slots-replicate (suc n) = omega (arith, free_slots-replicate n)

length-replicate : (n : ℕ) → length (replicate n (pos 0)) ≡ n
length-replicate zero = refl
length-replicate (suc n) = omega (arith, length-replicate n)

new-Ring :
    (slab_base count size class : ℕ) (s : ProvidedSlab)
    → new slab_base count size class ≡ done s
    → Ring s 0 (slots count 0)
unfolding new is_power_of_two Tracker.new
new-Ring slab_base count size class s h =
    let (power, h₁) = assert-eq-done (is_power_of_two count) _ h in
    let (some_way, h₂) = assert-eq-done (ltb 0 count) _ h₁ in
    let (small, h₃) = assert-eq-done (leb count 32768) _ h₂ in
    let (sized, h₄) = assert-eq-done (ltb 0 size) _ h₃ in
    let (class_fits, h₅) = assert-eq-done (ltb class 128) _ h₄ in
    let positive : 0 < count = ground (arith, some_way) in
    let below : count ≤ 32768 = ground (arith, small) in
    subst (λ q. Ring q 0 (slots count 0)) (done-injective h₅)
      (record {
        positive = positive;
        small = below;
        divides = power-divides 32 count 16 power positive (omega (arith, below));
        ring_slots = length-descriptors slab_base size count 0;
        borrow_slots = length-replicate count;
        queued = λ k i g.
            let (e, lt) = get_elem?-slots count 0 k i g in
            let low = mod-eq_of_lt {n = 0 + k} {m = count} (omega (arith, lt)) in
            ap (get_elem? (descriptors slab_base size count 0)) (low ∙ omega arith)
            ∙ get_elem?-descriptors slab_base size count 0 k lt
            ∙ ap (λ j. some (descriptor slab_base size j)) (sym e);
        at_tail = omega (arith, below, length-slots count 0);
        published = refl;
        exact = λ i. ap (λ j. occurrences j (slots count 0)) (omega arith) ∙ slots_from count 0 i;
        counted = length-slots count 0 ∙ sym (free_slots-replicate count);
      })

Reach-Ring :
    (s : ProvidedSlab) (head : ℕ) (queue : List ℕ)
    → Ring s head queue
    → (s' : ProvidedSlab) (head' : ℕ) → Reach s head s' head'
    → (queue' : List ℕ) × Ring s' head' queue'
Reach-Ring s head queue k _ _ here = (queue, k)
Reach-Ring s head queue k _ _ (later s₁ s₂ head₁ head₂ before step) =
    let (queue₁, k₁) = Reach-Ring s head queue k s₁ head₁ before in
    step-Ring s₁ s₂ head₁ head₂ queue₁ k₁ step

-- From a fresh provided slab, whatever buffers the kernel takes at its head, short of the tail, and
-- the runtime hands out, and however their views change and drop, there is a queue of buffers such
-- that the ring holds their descriptors in order from the kernel's head to the published tail; it
-- has each buffer that no view holds exactly once, and no other.
pub Reach-new-Ring :
    (slab_base count size class : ℕ) (s s' : ProvidedSlab) (head : ℕ)
    → new slab_base count size class ≡ done s
    → Reach s 0 s' head
    → (queue : List ℕ) × Ring s' head queue
Reach-new-Ring slab_base count size class s s' head h reach =
    Reach-Ring s 0 (slots count 0) (new-Ring slab_base count size class s h) s' head reach
