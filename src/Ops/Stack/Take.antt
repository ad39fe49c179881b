-- ===== src/Ops/Stack/Take.antt =====
-- Taking a slot into use, off the free stack or at the end of the slab, whichever the head says.
use native.Mathlib.Nat.{mod-eq_of_lt}
use conrt.Base.{
  get_elem?-set, get_elem?-push, ℕ, ◌+◌, ◌%◌, ◌^◌, ◌<◌, ◌≤◌, ◌≢◌, List, [], ◌∷◌, ◌++◌, Option, none,
  some, ◌≡◌, refl, ap, subst, ◌∙◌, ◌⊎◌, arith, length, set, get_elem?, length-append, get_elem?-lt,
  inl, inr,
}
use conrt.Ops.Ids.{free_none}
use conrt.Ops.Stack.{Stacked, Linked, Stacked-head, Stacked-empty, Stacked-pop, Stacked-grow}

module _ {S : Type 0} (link : S → Option ℕ) where
  -- The slot at the head, which is free.
  pub record Popped (slab : List S) (head index : ℕ) (slab' : List S) (head' : ℕ) : Type 0 where
    pub slot : S
    pub not_empty : head ≢ free_none
    pub at_head : index ≡ head
    pub there : get_elem? slab head ≡ some slot
    pub linked : link slot ≡ some head'
    pub same : slab' ≡ slab

  -- A new free slot at the end, since the stack is empty.
  pub record Grown (slab : List S) (head index : ℕ) (slab' : List S) (head' : ℕ) : Type 0 where
    pub slot : S
    pub empty : head ≡ free_none
    pub at_end : index ≡ length slab % 2 ^ 32
    pub more : slab' ≡ slab ++ slot ∷ []
    pub still_empty : head' ≡ free_none

  abbrev pub Taken : List S → ℕ → ℕ → List S → ℕ → Type 0
  Taken slab head index slab' head' =
      Popped slab head index slab' head' ⊎ Grown slab head index slab' head'

  -- The slab `now` has `v` at `index`, and what was in use stays where it was.
  pub record Used (slab : List S) (index : ℕ) (v : S) (now : List S) (head used : ℕ) : Type 0 where
    pub stack : List ℕ
    pub stacked : Stacked link now head used stack
    pub own : get_elem? now index ≡ some v
    pub others :
        (j : ℕ) (s : S)
        → get_elem? slab j ≡ some s
        → link s ≡ none
        → (get_elem? now j ≡ some s) × (j ≢ index)
    pub nothing_else :
        (j : ℕ) (s : S) → get_elem? now j ≡ some s → (s ≡ v) ⊎ (get_elem? slab j ≡ some s)

  pub Taken-grows :
      {slab slab' : List S} {head head' index : ℕ}
      → Taken slab head index slab' head'
      → length slab ≤ length slab'
  Taken-grows (inl p) = omega (arith, ap length p.same)
  Taken-grows {slab} (inr p) = omega (arith, ap length p.more, length-append slab (p.slot ∷ []))

  set-push : (xs : List S) (a v : S) → set (xs ++ a ∷ []) (length xs) v ≡ xs ++ v ∷ []
  set-push [] a v = refl
  set-push (x ∷ xs) a v = ap (◌∷◌ x) (set-push xs a v)

  take_popped :
      (slab : List S) (used x next : ℕ) (v s : S) (stack : List ℕ)
      → Stacked link slab x used stack
      → x ≢ free_none
      → get_elem? slab x ≡ some s
      → link s ≡ some next
      → link v ≡ none
      → Used slab x v (set slab x v) next (used + 1)
  take_popped slab used x next v s stack k ne g l lv =
      let (xs, t, next', e, g', l', rest) = Stacked-head link slab x used stack k ne in
      let top : Stacked link slab x used (x ∷ xs) = subst (Stacked link slab x used) e k in
      let same_next : next' ≡ next = ground (arith, g, g', l, l') in
      let here = get_elem?-lt slab x g in
      record {
        stack = xs;
        stacked =
            Stacked-pop link slab used x next v s xs top g l
              (subst (λ n. Linked link slab n xs) same_next rest) lv;
        own = ground (arith, get_elem?-set slab x x v here);
        others = λ j u gj lj. ground (arith, get_elem?-set slab x j v here, gj, lj, g, l);
        nothing_else = λ j u gj. ground (arith, get_elem?-set slab x j v here, gj);
      }

  take_grown :
      (slab : List S) (used : ℕ) (v : S) (stack : List ℕ)
      → Stacked link slab free_none used stack
      → link v ≡ none
      → length slab + 1 < free_none
      → Used slab (length slab) v (slab ++ v ∷ []) free_none (used + 1)
  take_grown slab used v stack k lv room =
      let bare =
        subst (Stacked link slab free_none used) (Stacked-empty link slab used stack k) k in
      record {
        stack = [];
        stacked = Stacked-grow link slab used v bare lv room;
        own = ground (arith, get_elem?-push slab v (length slab));
        others = λ j u gj lj. ground (arith, get_elem?-push slab v j, gj, get_elem?-lt slab j gj);
        nothing_else = λ j u gj. ground (arith, get_elem?-push slab v j, gj);
      }

  pub Taken-Used :
      (slab slab' : List S) (head head' index used : ℕ) (v : S) (stack : List ℕ)
      → Stacked link slab head used stack
      → Taken slab head index slab' head'
      → link v ≡ none
      → length slab' < free_none
      → Used slab index v (set slab' index v) head' (used + 1)
  Taken-Used slab slab' head head' index used v stack k (inl p) lv room =
      rw (p.same, p.at_head)
        (take_popped slab used head head' v p.slot stack k p.not_empty p.there p.linked lv)
  Taken-Used slab slab' head head' index used v stack k (inr p) lv room =
      let len : length slab' ≡ length slab + 1 =
        ap length p.more ∙ length-append slab (p.slot ∷ []) in
      let at : index ≡ length slab =
        p.at_end ∙ mod-eq_of_lt {n = length slab} {m = 2 ^ 32} (omega (arith, room, len)) in
      rw (p.more, at, p.still_empty, set-push slab p.slot v)
        (take_grown slab used v stack (subst (λ h. Stacked link slab h used stack) p.empty k) lv
          (omega (arith, room, len)))
