-- ===== src/Logs/Cache/Span.antt =====
-- Stretches of the ring: reading, writing and joining them.
use native.Mathlib.Nat.{mod-add-mod, mod-eq_of_lt, mod-eq-sub-mod, mod-lt, mod_self, add-zero}
use conrt.Base.{
  ℕ, zero, suc, ◌+◌, ◌-◌, ◌%◌, ◌≤◌, ◌<◌, ◌≢◌, List, [], ◌∷◌, ◌++◌, ◌≡◌, refl, sym, ap, subst, ◌∙◌,
  arith, length, get_or, set, take, drop, dec_lt, get_or-set_self, get_or-set_ne, length-set,
  drop-cons, take-all, length-drop, ap₂,
}

-- The `n` bytes of the ring from index `i` on.
abbrev pub span : List ℕ → ℕ → ℕ → List ℕ
span buf i zero = []
span buf i (suc n) = get_or buf i 0 ∷ span buf ((i + 1) % length buf) n

pub length-span : (buf : List ℕ) (i n : ℕ) → length (span buf i n) ≡ n
length-span buf i zero = refl
length-span buf i (suc n) = ap suc (length-span buf ((i + 1) % length buf) n)

-- Going one step and then `n` is going `suc n` steps.
pub step_step : (size i n : ℕ) → ((i + 1) % size + n) % size ≡ (i + suc n) % size
step_step size i n = mod-add-mod (i + 1) size n ∙ ap (λ k. k % size) (omega arith)

pub mod-zero_steps : (size i : ℕ) → i < size → (i + 0) % size ≡ i
mod-zero_steps size i h = rw (add-zero, mod-eq_of_lt h)

pub span-add :
    (buf : List ℕ) (i m n : ℕ)
    → i < length buf
    → span buf i (m + n) ≡ span buf i m ++ span buf ((i + m) % length buf) n
span-add buf i zero n h = rw (mod-zero_steps (length buf) i h) (ap (span buf i) (omega arith))
span-add buf i (suc m) n h =
    ap (span buf i) {x = suc m + n} {y = suc (m + n)} (omega arith)
    ∙ ap (◌∷◌ (get_or buf i 0)) (
        span-add buf ((i + 1) % length buf) m n (mod-lt (i + 1) (omega arith))
        ∙ ap (λ k. span buf ((i + 1) % length buf) m ++ span buf k n) (step_step (length buf) i m))

-- Fewer than `size` steps round the ring do not come back to the start.
add-mod-ne_self : (size i k : ℕ) → i < size → 0 < k → k < size → (i + k) % size ≢ i
add-mod-ne_self size i k hi pos hk = elim (dec_lt (i + k) size) [
  | yes p ↦ omega (arith, mod-eq_of_lt p)
  | no p ↦ omega (
    arith,
    mod-eq-sub-mod {n = i + k} {m = size} (omega arith),
    mod-eq_of_lt {n = i + k - size} {m = size} (omega arith),
  )
]

-- A write at or past the end of a stretch leaves the stretch.
pub span-set :
    (buf : List ℕ) (i n k v : ℕ)
    → i < length buf
    → n ≤ k
    → k < length buf
    → span (set buf ((i + k) % length buf) v) i n ≡ span buf i n
span-set buf i zero k v h le lt = refl
span-set buf i (suc n) zero v h le lt = absurd (omega arith)
span-set buf i (suc n) (suc k) v h le lt =
    let e = step_step (length buf) i k in
    let away =
      get_or-set_ne buf ((i + suc k) % length buf) i v 0
        (add-mod-ne_self (length buf) i (suc k) h (omega arith) lt) in
    let rest =
      span-set buf ((i + 1) % length buf) n k v (mod-lt (i + 1) (omega arith)) (omega arith)
        (omega arith) in
    ap₂ ◌∷◌ away (
      ap (λ l. span (set buf ((i + suc k) % length buf) v) ((i + 1) % l) n)
        (length-set buf ((i + suc k) % length buf) v)
      ∙ subst (λ j. span (set buf j v) ((i + 1) % length buf) n ≡ span buf ((i + 1) % length buf) n)
          e rest)

-- A stretch that does not pass the end of the ring is a slice.
pub span-slice : (buf : List ℕ) (i n : ℕ) → i + n ≤ length buf → span buf i n ≡ take n (drop i buf)
span-slice buf i zero h = refl
span-slice buf i (suc zero) h = sym (ap (take 1) (drop-cons buf i 0 (omega arith)))
span-slice buf i (suc (suc n)) h =
    ap (◌∷◌ (get_or buf i 0)) (
      ap (λ j. span buf j (suc n)) (mod-eq_of_lt {n = i + 1} (omega arith))
      ∙ span-slice buf (i + 1) (suc n) (omega arith))
    ∙ sym (ap (take (suc (suc n))) (drop-cons buf i 0 (omega arith)))

-- One that does is the ring's end and its beginning.
pub span-wrap :
    (buf : List ℕ) (i n : ℕ)
    → i < length buf
    → n ≤ length buf
    → span buf i (length buf - i + n) ≡ drop i buf ++ take n buf
span-wrap buf i n h le =
    span-add buf i (length buf - i) n h
    ∙ ap₂ ◌++◌
        (span-slice buf i (length buf - i) (omega arith)
          ∙ take-all (length buf - i) (drop i buf) (omega (arith, length-drop i buf)))
        (ap (λ j. span buf j n) (ap (λ k. k % length buf) (omega arith) ∙ mod_self (length buf))
          ∙ span-slice buf 0 n (omega arith))

-- A write just past a stretch extends it by that byte.
pub span-write :
    (buf : List ℕ) (i n v : ℕ)
    → i < length buf
    → n < length buf
    → span (set buf ((i + n) % length buf) v) i (suc n) ≡ span buf i n ++ v ∷ []
span-write buf i n v h le =
    ap (span b' i) {x = suc n} {y = n + 1} (omega arith)
    ∙ span-add b' i n 1 (omega (arith, same))
    ∙ ap₂ (λ xs (j : ℕ). xs ++ get_or b' j 0 ∷ []) (span-set buf i n n v h (omega arith) le)
        (ap (λ m. (i + n) % m) same)
    ∙ ap (λ w. span buf i n ++ w ∷ []) (get_or-set_self buf e v 0 (mod-lt (i + n) (omega arith)))
  where
    e : ℕ
    e = (i + n) % length buf

    b' : List ℕ
    b' = set buf e v

    same : length b' ≡ length buf
    same = length-set buf e v
