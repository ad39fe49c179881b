-- ===== src/Buffers/Classes/Layout.antt =====
-- `layout_classes` of classes.rs: where the classes lie, and how their slots are aligned.
use Prim.Native.Nat.{◌∣◌}
use native.Mathlib.Nat.{
  one-dvd, pow-suc, one-le-pow, div-mul-le_self, lt-div-mul-add, mul-dvd-mul_right, dvd_refl,
  dvd-add, dvd-mul_left, dvd-mul_left_of_dvd, mod-eq-zero_of_dvd, min-eq_left, min-eq_right,
  mod-eq_of_lt,
}
use conrt.Base.{
  ℕ, zero, suc, ◌+◌, ◌-◌, ◌*◌, ◌/◌, ◌%◌, ◌^◌, ◌≤◌, ◌<◌, Bool, true, false, not, List, [], ◌∷◌, ◌≡◌,
  refl, sym, subst, arith, length, ltb, leb, ltb→lt, leb→le, Bool-cases, inl, inr, Outcome, done,
  panicked, ◌>>=◌, ◌>>◌, assert, assert-eq-done,
}
use conrt.Buffers.Classes.{
  SizeClass, SizeClassLayout, is_power_of, is_power_of_two, align_of_size, div_ceil, layout_at,
  check_class, layout_from, layout_classes, sort_by_size, strictly_increasing, is_empty,
}

double-dvd : (d n : ℕ) → n % 2 ≡ 0 → d ∣ n / 2 → d * 2 ∣ n
double-dvd d n even h = subst (λ m. d * 2 ∣ m) (omega arith) (mul-dvd-mul_right d h 2)

-- A power of two is a multiple of every smaller one.
power-dvd : (j fuel n : ℕ) → is_power_of fuel n ≡ true → 2 ^ j ≤ n → 2 ^ j ∣ n
unfolding is_power_of
power-dvd zero fuel n h le = one-dvd n
power-dvd (suc j) zero n h le = cc
power-dvd (suc j) (suc fuel) n h le = rw (pow-suc 2 j) (
    double-dvd (2 ^ j) n (ground (arith, pow-suc 2 j, one-le-pow j 2 (omega arith))) (
      power-dvd j fuel (n / 2) (ground (arith, pow-suc 2 j, one-le-pow j 2 (omega arith)))
        (omega (arith, pow-suc 2 j))))

align-dvd : (size : ℕ) → is_power_of_two size ≡ true → align_of_size size ∣ size
unfolding is_power_of_two
align-dvd size h = elim (Bool-cases (ltb size 4096)) [
  | inl small ↦
      subst (λ a. a ∣ size) (sym (min-eq_left {n = size} {m = 4096} (ground arith))) (dvd_refl size)
  | inr large ↦
      subst (λ a. a ∣ size) (sym (min-eq_right {n = 4096} {m = size} (ground arith)))
        (power-dvd 12 32 size h (ground arith))
]

pub div_ceil-bounds :
    (base a : ℕ) → 0 < a → (base ≤ div_ceil base a * a) × (div_ceil base a * a < base + a)
div_ceil-bounds base a h =
    omega (arith, div-mul-le_self (base + a - 1) a, lt-div-mul-add {a = base + a - 1} h)

-- One class after `base` bytes: it starts past them on its own alignment, and ends below 4 GiB.
pub record LaidOut (base : ℕ) (l : SizeClassLayout) : Type 0 where
  pub after : base ≤ l.base_offset
  pub near : l.base_offset < base + align_of_size l.size
  pub extent : l.total ≡ l.base_offset + l.size * l.count
  pub limit : l.total < 2 ^ 32
  pub slots : 0 < l.count
  pub aligned : (i : ℕ) → (l.base_offset + i * l.size) % align_of_size l.size ≡ 0

-- A chain of classes, each after the end of the one before.
abbrev pub Chain : ℕ → List SizeClassLayout → Type 0
Chain base [] = Unit {0}
Chain base (l ∷ ls) = LaidOut base l × Chain l.total ls

layout_at-LaidOut :
    (base : ℕ) (c : SizeClass)
    → 0 < c.size
    → 0 < c.count
    → is_power_of_two c.size ≡ true
    → (layout_at base c).total ≤ 2 ^ 32 - 1
    → LaidOut base (layout_at base c)
unfolding layout_at
layout_at-LaidOut base c pos cnt pow lim = record {
  after = omega (arith, bounds);
  near = omega (arith, bounds);
  extent = omega arith;
  limit = omega arith;
  slots = cnt;
  aligned = λ i. mod-eq-zero_of_dvd a (
      dvd-add a
        (subst (λ o. a ∣ o) (sym (mod-eq_of_lt (omega arith))) (dvd-mul_left a (div_ceil base a)))
        (dvd-mul_left_of_dvd a (align-dvd c.size pow) i));
}
  where
    a : ℕ
    a = align_of_size c.size

    bounds : (base ≤ div_ceil base a * a) × (div_ceil base a * a < base + a)
    bounds = div_ceil-bounds base a (omega arith)

check_class-done :
    (p : Bool) (c : SizeClass)
    → check_class p c ≡ done tt
    → (0 < c.size) × (is_power_of_two c.size ≡ true) × (0 < c.count)
unfolding check_class
check_class-done p c h =
    let (pos, h1) = assert-eq-done (ltb 0 c.size) _ h in
    let (pow, h2) = assert-eq-done (is_power_of_two c.size) _ h1 in
    let (cnt, h3) = assert-eq-done (ltb 0 c.count) _ h2 in
    (ltb→lt 0 c.size pos, pow, ltb→lt 0 c.count cnt)

-- The loop's step, over the result `r` of the rest of the loop.
step-done :
    (t : Outcome (Unit {0})) (b : Bool) (l : SizeClassLayout) (r : Outcome (List SizeClassLayout))
    (ls : List SizeClassLayout)
    → (t >> (assert b >> (r >>= λ rest. done (l ∷ rest)))) ≡ done ls
    → (rest : List SizeClassLayout) × (t ≡ done tt) × (b ≡ true) × (r ≡ done rest) × (ls ≡ l ∷ rest)
step-done (done tt) true l (done rest) ls h = (rest, refl, refl, refl, sym (cc))
step-done (done tt) true l panicked ls h = cc
step-done (done tt) false l r ls h = cc
step-done panicked b l r ls h = cc

layout_from-Chain :
    (p : Bool) (base : ℕ) (cs : List SizeClass) (ls : List SizeClassLayout)
    → layout_from p base cs ≡ done ls
    → Chain base ls
unfolding layout_from
layout_from-Chain p base [] [] h = tt
layout_from-Chain p base [] (l ∷ ls) h = cc
layout_from-Chain p base (c ∷ cs) ls h =
    let l = layout_at base c in
    let (rest, checked, lim, e, eq) =
      step-done (check_class p c) (leb l.total (2 ^ 32 - 1)) l (layout_from p l.total cs) ls h in
    let (pos, pow, cnt) = check_class-done p c checked in
    subst (Chain base) (sym eq)
      (layout_at-LaidOut base c pos cnt pow (leb→le _ _ lim), layout_from-Chain p l.total cs rest e)

-- A layout that `layout_classes` returns is a chain from offset 0: each class starts at or after
-- the end of the one before it, less than its own alignment later, every slot of it starts on a
-- multiple of the slot size capped at a page, and it ends below 4 GiB at its `total`.
pub layout_classes-Chain :
    (classes : List SizeClass) (p : Bool) (ls : List SizeClassLayout)
    → layout_classes classes p ≡ done ls
    → Chain 0 ls
unfolding layout_classes
layout_classes-Chain classes p ls h =
    let sorted = sort_by_size classes in
    let (_, h1) = assert-eq-done (not (is_empty classes)) _ h in
    let (_, h2) = assert-eq-done (leb (length classes) 128) _ h1 in
    let (_, h3) = assert-eq-done (strictly_increasing sorted) _ h2 in
    layout_from-Chain p 0 sorted ls h3
