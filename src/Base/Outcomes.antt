-- ===== src/Base/Outcomes.antt =====
-- Results of the source's calls: `io::Result` without the error's text, and code that may panic.
use mathlib.Core.Bool.{Bool, true, false}
use mathlib.Core.Path.{◌≡◌, refl, ap, ◌∙◌}
use mathlib.Core.List.{List}
use mathlib.Core.Option.{Option, none, some}
use Prim.Native.Nat.{ℕ}
use conrt.Base.Lists.{get_elem?}
use Prim.{Unit, tt}

-- What an `io::Result` callback argument says. Which error it is never decides a branch.
pub data IoResult {ℓ} (A : Type ℓ) : Type ℓ where
  ok : A → IoResult A
  err : IoResult A

-- `panicked` is a failed `assert!`, or an index out of bounds.
pub data Outcome {ℓ} (A : Type ℓ) : Type ℓ where
  done : A → Outcome A
  panicked : Outcome A

infixl 5 ◌>>=◌ ◌>>◌
abbrev pub ◌>>=◌ {ℓ κ} : {A : Type ℓ} {B : Type κ} → Outcome A → (A → Outcome B) → Outcome B
done a >>= f = f a
panicked >>= f = panicked

abbrev pub ◌>>◌ {ℓ} : {B : Type ℓ} → Outcome (Unit {0}) → Outcome B → Outcome B
m >> k = m >>= λ _. k

abbrev pub assert : Bool → Outcome (Unit {0})
assert true = done tt
assert false = panicked

abbrev pub outcome_map {ℓ κ} : {A : Type ℓ} {B : Type κ} → (A → B) → Outcome A → Outcome B
outcome_map f (done a) = done (f a)
outcome_map f panicked = panicked

-- `v[i]` of a `Vec` or a slice.
abbrev pub vec_get {ℓ} : {A : Type ℓ} → List A → ℕ → Outcome A
vec_get v i = elim (get_elem? v i) [ none ↦ panicked | some a ↦ done a ]

-- `o.expect(..)`
abbrev pub expect {ℓ} : {A : Type ℓ} → Option A → Outcome A
expect none = panicked
expect (some a) = done a

-- Inversion of a run that did not panic.
pub >>=-eq-done {ℓ κ} :
    {A : Type ℓ} {B : Type κ} (m : Outcome A) (f : A → Outcome B) {b : B}
    → (m >>= f) ≡ done b
    → (a : A) × (m ≡ done a) × (f a ≡ done b)
>>=-eq-done (done a) f h = (a, refl, h)
>>=-eq-done panicked f h = cc

pub assert-eq-done {ℓ} :
    {B : Type ℓ} (t : Bool) (k : Outcome B) {b : B}
    → (assert t >> k) ≡ done b
    → (t ≡ true) × (k ≡ done b)
assert-eq-done true k h = (refl, h)
assert-eq-done false k h = cc

-- The same for a goal, so that a long chain of steps is taken apart with variables.
pub >>=-elim {ℓ κ ι} :
    {A : Type ℓ} {B : Type κ} {P : Type ι} (m : Outcome A) (f : A → Outcome B) {b : B}
    → (m >>= f) ≡ done b
    → ((a : A) → m ≡ done a → f a ≡ done b → P)
    → P
>>=-elim (done a) f h k = k a refl h
>>=-elim panicked f h k = absurd (cc)

pub assert-elim {ℓ ι} :
    {B : Type ℓ} {P : Type ι} (t : Bool) (k : Outcome B) {b : B}
    → (assert t >> k) ≡ done b
    → (t ≡ true → k ≡ done b → P)
    → P
assert-elim true k h g = g refl h
assert-elim false k h g = absurd (cc)

pub done-injective {ℓ} : {A : Type ℓ} {a b : A} → done a ≡ done b → a ≡ b
done-injective h = cc

-- A run that does not panic, step by step.
pub >>=-done {ℓ κ} :
    {A : Type ℓ} {B : Type κ} (m : Outcome A) (f : A → Outcome B) {a : A} {r : Outcome B}
    → m ≡ done a
    → f a ≡ r
    → (m >>= f) ≡ r
>>=-done m f e h = ap (λ q. q >>= f) e ∙ h

pub assert-done {ℓ} :
    {B : Type ℓ} (t : Bool) (k : Outcome B) {r : Outcome B} → t ≡ true → k ≡ r → (assert t >> k) ≡ r
assert-done t k e h = ap (λ q. assert q >> k) e ∙ h

pub vec_get-done {ℓ} :
    {A : Type ℓ} (v : List A) (i : ℕ) {a : A} → get_elem? v i ≡ some a → vec_get v i ≡ done a
vec_get-done v i e = ap (λ o. elim o [ none ↦ panicked | some b ↦ done b ]) e

pub vec_get-eq-done {ℓ} :
    {A : Type ℓ} (v : List A) (i : ℕ) {a : A} → vec_get v i ≡ done a → get_elem? v i ≡ some a
vec_get-eq-done {A = A} v i {a = a} h = found (get_elem? v i) h
  where
    found : (o : Option A) → (elim o [ none ↦ panicked | some b ↦ done b ]) ≡ done a → o ≡ some a
    found none h = cc
    found (some b) h = cc

pub expect-eq-done {ℓ} : {A : Type ℓ} (o : Option A) {a : A} → expect o ≡ done a → o ≡ some a
expect-eq-done none h = cc
expect-eq-done (some b) h = cc
