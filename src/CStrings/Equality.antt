-- ===== src/CStrings/Equality.antt =====
-- The equality of C strings.
use conrt.Base.{
  ℕ, Bool, true, false, List, [], ◌∷◌, ◌≡◌, ◌⊎◌, refl, ◌∙◌, sym, subst, inl, inr, arith, ◌==◌,
  Outcome, done, panicked, >>=-elim, outcome_map, Bool-cases, done-injective, if◌then◌else◌,
}
use conrt.CStrings.{Heap, CString, memory_of, c_str, to_bytes, eq, eq_from}

-- The answer tells whether the bytes are the same.
abbrev pub Tells : List ℕ → List ℕ → Bool → Type 0
Tells xs ys true = xs ≡ ys
Tells xs ys false = ¬ xs ≡ ys

outcome_map-eq-done :
    (b : ℕ) (o : Outcome (List ℕ)) {xs : List ℕ}
    → outcome_map (◌∷◌ b) o ≡ done xs
    → (ys : List ℕ) × (o ≡ done ys) × (b ∷ ys ≡ xs)
outcome_map-eq-done b (done ys) h = (ys, refl, done-injective h)
outcome_map-eq-done b panicked h = absurd (cc)

-- The bytes that a memory holds end at its first one, or have it.
abbrev Head : ℕ → List ℕ → List ℕ → Type 0
Head a memory xs =
    ((a == 0) ≡ true × [] ≡ xs)
    ⊎ ((a == 0) ≡ false × ((ys : List ℕ) × (c_str memory ≡ done ys) × (a ∷ ys ≡ xs)))

some-Head :
    (a : ℕ) (memory : List ℕ) {xs : List ℕ} (null : Bool)
    → (a == 0) ≡ null
    → (if null then done [] else outcome_map (◌∷◌ a) (c_str memory)) ≡ done xs
    → Head a memory xs
some-Head a memory true e h = inl (e, done-injective h)
some-Head a memory false e h = inr (e, outcome_map-eq-done a (c_str memory) h)

c_str-cons :
    (a : ℕ) (memory : List ℕ) {xs : List ℕ} → c_str (a ∷ memory) ≡ done xs → Head a memory xs
unfolding c_str
c_str-cons a memory h = some-Head a memory (a == 0) refl h

module _ (a b : ℕ) (p q : List ℕ) where
  eq_from-other : (a == b) ≡ false → eq_from (a ∷ p) (b ∷ q) ≡ done false
  unfolding eq_from
  eq_from-other h = rw h refl

  eq_from-null : (a == b) ≡ true → (a == 0) ≡ true → eq_from (a ∷ p) (b ∷ q) ≡ done true
  unfolding eq_from
  eq_from-null h g = rw (h, g) refl

  eq_from-same : (a == b) ≡ true → (a == 0) ≡ false → eq_from (a ∷ p) (b ∷ q) ≡ eq_from p q
  unfolding eq_from
  eq_from-same h g = rw (h, g) refl

Tells-cons :
    (a b : ℕ) (xs ys : List ℕ) (t : Bool) → a ≡ b → Tells xs ys t → Tells (a ∷ xs) (b ∷ ys) t
Tells-cons a b xs ys true e h = cc
Tells-cons a b xs ys false e h = λ same. h (cc)

Tells-subst : {xs ys zs ws : List ℕ} (t : Bool) → xs ≡ zs → ys ≡ ws → Tells xs ys t → Tells zs ws t
Tells-subst {xs = xs} {ws = ws} t e g h =
    subst (λ zs. Tells zs ws t) e (subst (λ ws. Tells xs ws t) g h)

heads_same : (a b : ℕ) (zs ws : List ℕ) → a ∷ zs ≡ b ∷ ws → a ≡ b
heads_same a b zs ws h = cc

false_of : (a b : ℕ) → a ≡ b → (a == b) ≡ false → ⊥
false_of a b h g = ground (arith, h, g)

Compared : (p q xs ys : List ℕ) → Type 0
Compared p q xs ys = (t : Bool) × (eq_from p q ≡ done t) × Tells xs ys t

heads-Compared :
    (a b : ℕ) (p q : List ℕ) {xs ys : List ℕ}
    → ((zs ws : List ℕ) → c_str p ≡ done zs → c_str q ≡ done ws → Compared p q zs ws)
    → Head a p xs
    → Head b q ys
    → Compared (a ∷ p) (b ∷ q) xs ys
unfolding Compared
heads-Compared a b p q rest (inl (a_null, e)) (inl (b_null, f)) =
    (true, eq_from-null a b p q (ground (arith, a_null, b_null)) a_null, sym e ∙ f)
heads-Compared a b p q rest (inl (a_null, e)) (inr (b_other, (ws, found, f))) =
    (false, eq_from-other a b p q (ground (arith, a_null, b_other)), λ same. cc)
heads-Compared a b p q rest (inr (a_other, (zs, found, e))) (inl (b_null, f)) =
    (false, eq_from-other a b p q (ground (arith, a_other, b_null)), λ same. cc)
heads-Compared a b p q rest (inr (a_other, (zs, found, e))) (inr (b_other, (ws, found₁, f))) =
    elim (Bool-cases (a == b)) [
      | inl same ↦
          let (t, compared, told) = rest zs ws found found₁ in
          (
            t,
            eq_from-same a b p q same a_other ∙ compared,
            Tells-subst t e f (Tells-cons a b zs ws t (ground (arith, same)) told),
          )
      | inr differ ↦ (
        false,
        eq_from-other a b p q differ,
        λ same. false_of a b (heads_same a b zs ws (e ∙ same ∙ sym f)) differ,
      )
    ]

eq_from-Tells :
    (p q : List ℕ) {xs ys : List ℕ} → c_str p ≡ done xs → c_str q ≡ done ys → Compared p q xs ys
unfolding c_str
eq_from-Tells [] q h g = absurd (cc)
eq_from-Tells (a ∷ p) [] h g = absurd (cc)
eq_from-Tells (a ∷ p) (b ∷ q) h g =
    heads-Compared a b p q (λ zs ws. eq_from-Tells p q) (c_str-cons a p h) (c_str-cons b q g)

-- The comparison of two strings that can be read ends, and says whether their bytes are the same.
pub eq-Tells :
    (c d : CString) (heap : Heap) {xs ys : List ℕ}
    → to_bytes c heap ≡ done xs
    → to_bytes d heap ≡ done ys
    → (t : Bool) × (eq c d heap ≡ done t) × Tells xs ys t
unfolding to_bytes eq Compared
eq-Tells c d heap h g = >>=-elim (memory_of c heap) c_str h λ p at_c read_c.
    >>=-elim (memory_of d heap) c_str g λ q at_d read_d.
      let (t, e, told) = eq_from-Tells p q read_c read_d in (t, rw (at_c, at_d) e, told)
