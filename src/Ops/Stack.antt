-- ===== src/Ops/Stack.antt =====
-- A free stack threaded through a slab: each free slot holds the index of the next one. `link` reads
-- a slot: `some next` for a free one, `none` for one in use.
pub mod Slab
pub mod Take
use mathlib.Core.Option
use conrt.Base.{
  get_elem?-set, get_elem?-push, ℕ, zero, suc, ◌+◌, ◌-◌, ◌≤◌, ◌<◌, ◌≢◌, Bool, true, false, List, [],
  ◌∷◌, ◌++◌, Option, none, some, ◌≡◌, refl, sym, ap, subst, ◌∙◌, arith, length, set, get_elem?,
  ◌==◌, if◌then◌else◌, length-append, length-set, get_elem?-lt, inl, inr, ℕ_discrete,
}
use conrt.Ops.Ids.{free_none}

-- How often an index is on the stack.
abbrev pub occurrences : ℕ → List ℕ → ℕ
occurrences i [] = 0
occurrences i (x ∷ xs) = (if x == i then 1 else 0) + occurrences i xs

module _ {S : Type 0} (link : S → Option ℕ) where
  -- The links from `head` on go through the indices in order, to the end mark.
  abbrev pub Linked : List S → ℕ → List ℕ → Type 0
  Linked slab head [] = head ≡ free_none
  Linked slab head (x ∷ xs) =
      (head ≡ x)
      × (s : S) × (next : ℕ) × (get_elem? slab x ≡ some s)
      × (link s ≡ some next)
      × Linked slab next xs

  abbrev pub is_linked : Option S → ℕ
  is_linked none = 0
  is_linked (some s) = elim (link s) [ none ↦ 0 | some next ↦ 1 ]

  abbrev pub is_used : S → ℕ
  is_used s = elim (link s) [ none ↦ 1 | some next ↦ 0 ]

  abbrev pub in_use : List S → ℕ
  in_use [] = 0
  in_use (s ∷ ss) = is_used s + in_use ss

  pub in_use-set :
      (slab : List S) (i : ℕ) (v s : S)
      → get_elem? slab i ≡ some s
      → in_use (set slab i v) + is_used s ≡ in_use slab + is_used v
  in_use-set [] i v s g = cc
  in_use-set (x ∷ xs) zero v s g = ground (arith, g)
  in_use-set (x ∷ xs) (suc i) v s g = omega (arith, in_use-set xs i v s g)

  in_use-push : (slab : List S) (v : S) → in_use (slab ++ v ∷ []) ≡ in_use slab + is_used v
  in_use-push [] v = omega arith
  in_use-push (x ∷ xs) v = omega (arith, in_use-push xs v)

  -- The stack holds each free slot once and no other index; `used` is the number of slots in use.
  pub record Stacked (slab : List S) (head used : ℕ) (stack : List ℕ) : Type 0 where
    pub linked : Linked slab head stack
    pub exact : (i : ℕ) → occurrences i stack ≡ is_linked (get_elem? slab i)
    pub counted : used ≡ in_use slab
    pub small : length slab < free_none

  -- A write to an index that is not on the stack leaves the links.
  Linked-set :
      (slab : List S) (head i : ℕ) (v : S) (stack : List ℕ)
      → i < length slab
      → occurrences i stack ≡ 0
      → Linked slab head stack
      → Linked (set slab i v) head stack
  Linked-set slab head i v [] h o l = l
  Linked-set slab head i v (x ∷ xs) h o (e, s, next, g, k, l) = (
    e,
    s,
    next,
    ground (arith, get_elem?-set slab i x v h, o),
    k,
    Linked-set slab next i v xs h (omega (arith, o)) l,
  )

  Linked-push :
      (slab : List S) (head : ℕ) (v : S) (stack : List ℕ)
      → Linked slab head stack
      → Linked (slab ++ v ∷ []) head stack
  Linked-push slab head v [] l = l
  Linked-push slab head v (x ∷ xs) (e, s, next, g, k, l) = (
    e,
    s,
    next,
    ground (arith, get_elem?-push slab v x, get_elem?-lt slab x g),
    k,
    Linked-push slab next v xs l,
  )

  pub Stacked-head :
      (slab : List S) (head used : ℕ) (stack : List ℕ)
      → Stacked slab head used stack
      → head ≢ free_none
      → (xs : List ℕ) × (s : S) × (next : ℕ) × (stack ≡ head ∷ xs)
        × (get_elem? slab head ≡ some s)
        × (link s ≡ some next)
        × Linked slab next xs
  Stacked-head slab head used [] k ne = absurd (ne k.linked)
  Stacked-head slab head used (x ∷ xs) k ne =
      let (e, s, next, g, l, rest) = k.linked in
      (xs, s, next, ap (λ y. y ∷ xs) (sym e), ap (get_elem? slab) e ∙ g, l, rest)

  pub Stacked-empty :
      (slab : List S) (used : ℕ) (stack : List ℕ) → Stacked slab free_none used stack → stack ≡ []
  Stacked-empty slab used [] k = refl
  Stacked-empty slab used (x ∷ xs) k =
      let (e, s, next, g, l, rest) = k.linked in
      absurd (omega (arith, e, k.small, get_elem?-lt slab x g))

  -- The top of the stack is taken into use.
  pub Stacked-pop :
      (slab : List S) (used x next : ℕ) (v s : S) (xs : List ℕ)
      → Stacked slab x used (x ∷ xs)
      → get_elem? slab x ≡ some s
      → link s ≡ some next
      → Linked slab next xs
      → link v ≡ none
      → Stacked (set slab x v) next (used + 1) xs
  Stacked-pop slab used x next v s xs k g l rest lv =
      let here = get_elem?-lt slab x g in
      record {
        linked = Linked-set slab next x v xs here (ground (arith, k.exact x, g, l)) rest;
        exact = λ i. ground (arith, k.exact i, get_elem?-set slab x i v here, g, l, lv);
        counted = ground (arith, k.counted, in_use-set slab x v s g, l, lv);
        small = omega (arith, k.small, length-set slab x v);
      }

  pub Stacked-grow :
      (slab : List S) (used : ℕ) (v : S)
      → Stacked slab free_none used []
      → link v ≡ none
      → length slab + 1 < free_none
      → Stacked (slab ++ v ∷ []) free_none (used + 1) []
  Stacked-grow slab used v k lv room = record {
    linked = refl;
    exact = λ i. ground (arith, k.exact i, get_elem?-push slab v i, lv);
    counted = ground (arith, k.counted, in_use-push slab v, lv);
    small = omega (arith, room, length-append slab (v ∷ []));
  }

  -- A slot in use is put back on top.
  pub Stacked-push :
      (slab : List S) (head used i : ℕ) (v s : S) (stack : List ℕ)
      → Stacked slab head used stack
      → get_elem? slab i ≡ some s
      → link s ≡ none
      → link v ≡ some head
      → Stacked (set slab i v) i (used - 1) (i ∷ stack)
  Stacked-push slab head used i v s stack k g l lv =
      let here = get_elem?-lt slab i g in
      let off : occurrences i stack ≡ 0 = ground (arith, k.exact i, g, l) in
      record {
        linked = (
          refl,
          v,
          head,
          ground (arith, get_elem?-set slab i i v here),
          lv,
          Linked-set slab head i v stack here off k.linked,
        );
        exact = λ j. ground (arith, k.exact j, get_elem?-set slab i j v here, g, l, lv);
        counted = ground (arith, k.counted, in_use-set slab i v s g, l, lv);
        small = omega (arith, k.small, length-set slab i v);
      }

  Linked-same :
      (slab : List S) (head i : ℕ) (v s : S) (stack : List ℕ)
      → get_elem? slab i ≡ some s
      → link v ≡ link s
      → Linked slab head stack
      → Linked (set slab i v) head stack
  Linked-same slab head i v s [] g same l = l
  Linked-same slab head i v s (x ∷ xs) g same (e, t, next, gt, k, l) =
      let at = get_elem?-set slab i x v (get_elem?-lt slab i g) in
      let rest = Linked-same slab next i v s xs g same l in
      elim (ℕ_discrete i x) [
        | yes here ↦
            (e, v, next, ground (arith, at, here), ground (arith, same, g, gt, here, k), rest)
        | no off ↦ (e, t, next, ground (arith, at, off, gt), k, rest)
      ]

  -- A slot is changed, and stays free or in use as it was.
  pub Stacked-set :
      (slab : List S) (head used i : ℕ) (v s : S) (stack : List ℕ)
      → Stacked slab head used stack
      → get_elem? slab i ≡ some s
      → link v ≡ link s
      → Stacked (set slab i v) head used stack
  Stacked-set slab head used i v s stack k g same =
      let here = get_elem?-lt slab i g in
      let same_used : is_used v ≡ is_used s =
        ap (λ (o : Option ℕ). elim o [ none ↦ 1 | some next ↦ 0 ]) same in
      let same_linked : is_linked (some v) ≡ is_linked (some s) =
        ap (λ (o : Option ℕ). elim o [ none ↦ 0 | some next ↦ 1 ]) same in
      record {
        linked = Linked-same slab head i v s stack g same k.linked;
        exact = λ j. ground (arith, k.exact j, get_elem?-set slab i j v here, g, same_linked);
        counted = omega (arith, k.counted, in_use-set slab i v s g, same_used);
        small = omega (arith, k.small, length-set slab i v);
      }

  -- A slot in use is counted.
  pub Stacked-used :
      (slab : List S) (head used i : ℕ) (s : S) (stack : List ℕ)
      → Stacked slab head used stack
      → get_elem? slab i ≡ some s
      → link s ≡ none
      → 0 < used
  Stacked-used slab head used i s stack k g l =
      ground (arith, k.counted, in_use-set slab i s s g, in_use_some slab i g)
    where
      in_use_some : (slab : List S) (i : ℕ) → get_elem? slab i ≡ some s → 1 ≤ in_use slab
      in_use_some [] i g = cc
      in_use_some (x ∷ xs) zero g = ground (arith, g, l)
      in_use_some (x ∷ xs) (suc i) g = omega (arith, in_use_some xs i g)
