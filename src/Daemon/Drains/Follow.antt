-- ===== src/Daemon/Drains/Follow.antt =====
-- The write of one line to one follow pipe, over any number of partial writes.
use conrt.Base.{
  ℕ, zero, suc, ◌≤◌, ◌<◌, true, List, [], ◌∷◌, ◌++◌, append_assoc, ◌≡◌, refl, sym, ap, ◌∙◌, arith,
  length, take, drop, take-append-drop, ltb, leb, take-all, length-drop, length-append, ◌-◌, leb→le,
  Bool-cases, inl, inr,
}
use conrt.Daemon.Drains.{advance}

abbrev pub flatten : List (List ℕ) → List ℕ
flatten [] = []
flatten (c ∷ cs) = c ++ flatten cs

-- The bytes that a write of the first chunk puts into the pipe, when the kernel takes `n` of them.
abbrev pub taken : ℕ → List (List ℕ) → List ℕ
taken n [] = []
taken n (chunk ∷ chunks) = take n chunk

-- What the pipe got, and the chunks left, after the completions with the given counts.
abbrev pub deliver : List ℕ → List (List ℕ) → List ℕ × List (List ℕ)
deliver [] chunks = ([], chunks)
deliver (n ∷ ns) chunks =
    let (sent, left) = deliver ns (advance n chunks) in (taken n chunks ++ sent, left)

ltb_zero-suc : (n : ℕ) → ltb 0 (suc n) ≡ true
ltb_zero-suc n = ground arith

advance-flatten :
    (n : ℕ) (chunks : List (List ℕ)) → taken n chunks ++ flatten (advance n chunks) ≡ flatten chunks
unfolding advance
advance-flatten n [] = refl
advance-flatten zero ([] ∷ chunks) = ground arith
advance-flatten zero ((b ∷ bs) ∷ chunks) = ground arith
advance-flatten (suc n) (chunk ∷ chunks) = elim (Bool-cases (leb (length chunk) (suc n))) [
  | inl e ↦
      rw e
        (ap (λ xs. xs ++ flatten chunks) (take-all (suc n) chunk (leb→le (length chunk) (suc n) e)))
  | inr e ↦
      rw (e, ltb_zero-suc n)
        (sym (append_assoc (take (suc n) chunk) (drop (suc n) chunk) (flatten chunks))
          ∙ ap (λ xs. xs ++ flatten chunks) (take-append-drop (suc n) chunk))
]

-- However the kernel splits the writes, what the pipe has got and what is left to write are
-- together the chunks in order: nothing is skipped, repeated or reordered.
pub deliver-flatten :
    (ns : List ℕ) (chunks : List (List ℕ))
    → (deliver ns chunks).0 ++ flatten (deliver ns chunks).1 ≡ flatten chunks
deliver-flatten [] chunks = refl
deliver-flatten (n ∷ ns) chunks =
    append_assoc (taken n chunks) (deliver ns (advance n chunks)).0 _
    ∙ ap (◌++◌ (taken n chunks)) (deliver-flatten ns (advance n chunks))
    ∙ advance-flatten n chunks

abbrev pub NonEmpty : List (List ℕ) → Type 0
NonEmpty [] = Unit {0}
NonEmpty (c ∷ cs) = (0 < length c) × NonEmpty cs

abbrev pub AllPositive : List ℕ → Type 0
AllPositive [] = Unit {0}
AllPositive (n ∷ ns) = (0 < n) × AllPositive ns

advance-NonEmpty : (n : ℕ) (chunks : List (List ℕ)) → NonEmpty chunks → NonEmpty (advance n chunks)
unfolding advance
advance-NonEmpty n [] h = tt
advance-NonEmpty n (c ∷ cs) h = ground (arith, length-drop n c)

advance-shorter :
    (n : ℕ) (chunks : List (List ℕ))
    → 0 < n
    → NonEmpty chunks
    → length (flatten (advance n chunks)) ≤ length (flatten chunks) - 1
unfolding advance
advance-shorter n [] pos h = omega arith
advance-shorter n (c ∷ cs) pos h =
    ground
      (arith, length-drop n c, length-append c (flatten cs), length-append (drop n c) (flatten cs))

NonEmpty-nil :
    (chunks : List (List ℕ)) → NonEmpty chunks → length (flatten chunks) ≤ 0 → chunks ≡ []
NonEmpty-nil [] h le = refl
NonEmpty-nil (c ∷ cs) h le = absurd (omega (arith, length-append c (flatten cs)))

-- If every write takes at least one byte and no chunk is empty, then after at least as many
-- completions as there are bytes no chunk is left, and the pipe has got all the bytes of the
-- chunks, in order.
pub deliver-all :
    (ns : List ℕ) (chunks : List (List ℕ))
    → AllPositive ns
    → NonEmpty chunks
    → length (flatten chunks) ≤ length ns
    → deliver ns chunks ≡ (flatten chunks, [])
deliver-all [] chunks p h le = rw (NonEmpty-nil chunks h le)
deliver-all (n ∷ ns) chunks p h le =
    let ih =
      deliver-all ns (advance n chunks) p.1 (advance-NonEmpty n chunks h)
        (omega (arith, advance-shorter n chunks p.0 h)) in
    rw ih (ap (λ xs. (xs, [])) (advance-flatten n chunks))
