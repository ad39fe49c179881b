-- ===== src/CStrings/Lifetime.antt =====
-- A C string from its making to its drop.
use conrt.Base.{
  ℕ, suc, ◌+◌, ◌<◌, Bool, true, false, List, [], ◌∷◌, ◌++◌, Option, none, some, ◌≡◌, refl, subst,
  ap, ◌∙◌, inl, inr, arith, length, length-append, length-take, take, set, get_elem?, get_elem?-lt,
  get_elem?-push, ◌==◌, ==_refl, done, panicked, ◌>>◌, assert, >>=-done, Bool-cases, All,
}
use conrt.CStrings.{
  Heap, CString, contains_null, Tried, failed, made, null_position, from, try_from_bytes, memory_of,
  c_str, to_bytes, drop_string,
}

abbrev pub NotNull : ℕ → Type 0
NotNull b = (b == 0) ≡ false

-- The first null of the bytes, if there is one.
abbrev pub Scanned : List ℕ → Option ℕ → Type 0
Scanned s none = All NotNull s
Scanned s (some p) = (get_elem? s p ≡ some 0) × All NotNull (take p s)

-- What lies before the first null of the bytes and their terminator.
abbrev before_null : List ℕ → Option ℕ → List ℕ
before_null s none = s
before_null s (some p) = take p s

abbrev next_position : Option ℕ → Option ℕ
next_position o = elim o [ none ↦ none | some i ↦ some (suc i) ]

Scanned-suc :
    (b : ℕ) (s : List ℕ) (o : Option ℕ)
    → NotNull b
    → Scanned s o
    → Scanned (b ∷ s) (next_position o)
Scanned-suc b s none h scanned = (h, scanned)
Scanned-suc b s (some p) h (at, before) = (at, (h, before))

null_position-Scanned : (s : List ℕ) → Scanned s (null_position s)
unfolding null_position
null_position-Scanned [] = tt
null_position-Scanned (b ∷ s) = elim (Bool-cases (b == 0)) [
  | inl null ↦ rw null (ap some {x = b} {y = 0} (ground (arith, null)), tt)
  | inr other ↦ rw other (Scanned-suc b s (null_position s) other (null_position-Scanned s))
]

before_null-suc :
    (b : ℕ) (s : List ℕ) (o : Option ℕ)
    → b ∷ before_null s o ≡ before_null (b ∷ s) (next_position o)
before_null-suc b s none = refl
before_null-suc b s (some p) = refl

c_str-before_null : (s : List ℕ) → c_str (s ++ 0 ∷ []) ≡ done (before_null s (null_position s))
unfolding c_str null_position
c_str-before_null [] = refl
c_str-before_null (b ∷ s) = elim (Bool-cases (b == 0)) [
  | inl null ↦ rw null refl
  | inr other ↦ rw (other, c_str-before_null s) (ap done (before_null-suc b s (null_position s)))
]

memory_of-some :
    (c : CString) (heap : Heap) {m : List ℕ}
    → get_elem? heap c.buf ≡ some (some m)
    → memory_of c heap ≡ done m
unfolding memory_of
memory_of-some c heap e =
    ap
      (λ found. elim found [
        | none ↦ panicked
        | some o ↦ elim o [ none ↦ panicked | some bytes ↦ done bytes ]
      ])
      e

set-append : {A : Type 0} (xs : List A) (x y : A) → set (xs ++ x ∷ []) (length xs) y ≡ xs ++ y ∷ []
set-append [] x y = refl
set-append (z ∷ xs) x y = ap (◌∷◌ z) (set-append xs x y)

-- What the drop of a string compares.
abbrev whole : List ℕ → List ℕ → Bool
whole bytes s = length bytes + 1 == length (s ++ 0 ∷ [])

whole_self : (s : List ℕ) → whole s s ≡ true
whole_self s = ground (arith, length-append s (0 ∷ []))

whole_cut : (s : List ℕ) (p : ℕ) → p < length s → whole (take p s) s ≡ false
whole_cut s p h = ground (arith, length-append s (0 ∷ []), length-take p s)

module _ (s : List ℕ) (heap : Heap) where
  memory_of-from : memory_of (from s heap).0 (from s heap).1 ≡ done (s ++ 0 ∷ [])
  memory_of-from =
      memory_of-some (from s heap).0 (from s heap).1
        (get_elem?-push heap (some (s ++ 0 ∷ [])) (length heap) ∙ rw (==_refl (length heap)) refl)

  to_bytes-from : to_bytes (from s heap).0 (from s heap).1 ≡ done (before_null s (null_position s))
  unfolding to_bytes
  to_bytes-from =
      >>=-done (memory_of (from s heap).0 (from s heap).1) c_str memory_of-from
        (c_str-before_null s)

  drop_string-from :
      drop_string (from s heap).0 (from s heap).1
      ≡ (assert (whole (before_null s (null_position s)) s) >> done (heap ++ none ∷ []))
  unfolding drop_string
  drop_string-from =
      rw (to_bytes-from, memory_of-from, set-append heap (some (s ++ 0 ∷ [])) none) refl

  -- A string that is new leaves the blocks before it.
  memory_of-old :
      (d : CString) → d.buf < length heap → memory_of d (from s heap).1 ≡ memory_of d heap
  unfolding memory_of
  memory_of-old d h =
      ap
        (λ found. elim found [
          | none ↦ panicked
          | some o ↦ elim o [ none ↦ panicked | some bytes ↦ done bytes ]
        ])
        (get_elem?-push heap (some (s ++ 0 ∷ [])) d.buf ∙ ground arith)

-- What is told of a `try_from_bytes`.
abbrev pub Lives : List ℕ → Heap → Tried → Type 0
Lives s heap (failed (contains_null p)) = (get_elem? s p ≡ some 0) × All NotNull (take p s)
Lives s heap (made c heap₁) =
    All NotNull s
    × (to_bytes c heap₁ ≡ done s)
    × (drop_string c heap₁ ≡ done (heap ++ none ∷ []))
    × ((d : CString) → d.buf < length heap → memory_of d heap₁ ≡ memory_of d heap)

first_null : (s : List ℕ) (o : Option ℕ) → null_position s ≡ o → Scanned s o
first_null s o e = subst (Scanned s) e (null_position-Scanned s)

null_position-Lives :
    (s : List ℕ) (heap : Heap) (o : Option ℕ)
    → null_position s ≡ o
    → Lives s heap (elim o [
      | some pos ↦ failed (contains_null pos)
      | none ↦ made (from s heap).0 (from s heap).1
    ])
null_position-Lives s heap (some p) e = first_null s (some p) e
null_position-Lives s heap none e = (
  first_null s none e,
  to_bytes-from s heap ∙ ap (λ o. done (before_null s o)) e,
  drop_string-from s heap
      ∙ ap (λ o. assert (whole (before_null s o) s) >> done (heap ++ none ∷ [])) e
      ∙ ap (λ t. assert t >> done (heap ++ none ∷ [])) (whole_self s),
  memory_of-old s heap,
)

-- `try_from_bytes` fails with the position of the first null, where there is one. Otherwise the
-- string reads back as the bytes, its drop frees the block with the size it was allocated with and
-- leaves every other block, and the blocks that were there are as they were.
pub try_from_bytes-Lives : (s : List ℕ) (heap : Heap) → Lives s heap (try_from_bytes s heap)
unfolding try_from_bytes
try_from_bytes-Lives s heap = null_position-Lives s heap (null_position s) refl

-- A string made from a text with a null character reads back as the part before the first one, and
-- its drop frees the block with another size than it was allocated with.
pub from-drop_string :
    (s : List ℕ) (heap : Heap) (p : ℕ)
    → null_position s ≡ some p
    → (to_bytes (from s heap).0 (from s heap).1 ≡ done (take p s))
      × (drop_string (from s heap).0 (from s heap).1 ≡ panicked)
from-drop_string s heap p e = (
  to_bytes-from s heap ∙ ap (λ o. done (before_null s o)) e,
  drop_string-from s heap
      ∙ ap (λ o. assert (whole (before_null s o) s) >> done (heap ++ none ∷ [])) e
      ∙ ap (λ t. assert t >> done (heap ++ none ∷ []))
          (whole_cut s p (get_elem?-lt s p (first_null s (some p) e).0)),
)
