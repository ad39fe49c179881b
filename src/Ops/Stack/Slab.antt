-- ===== src/Ops/Stack/Slab.antt =====
-- A slab with its free stack whose slots satisfy a predicate, and what keeps it so: taking a slot,
-- writing one in use, giving one back.
use conrt.Base.{
  get_elem?-set, ℕ, ◌+◌, ◌-◌, ◌<◌, List, [], ◌∷◌, Option, none, some, ◌≡◌, refl, sym, subst, ◌⊎◌,
  arith, length, set, get_elem?, ◌==◌, if◌then◌else◌, get_elem?-lt, inl, inr,
}
use conrt.Ops.Ids.{free_none}
use conrt.Ops.Stack.{Stacked, Stacked-push, Stacked-set, Stacked-used}
use conrt.Ops.Stack.Take.{Taken, Taken-Used}

module _ {S : Type 0} (link : S → Option ℕ) (Ok : S → Type 0) where
  -- The stack holds exactly the free slots, `used` counts the others, and every slot is `Ok`.
  pub record Slab (slab : List S) (head used : ℕ) : Type 0 where
    pub stack : List ℕ
    pub stacked : Stacked link slab head used stack
    pub each : (i : ℕ) (s : S) → get_elem? slab i ≡ some s → Ok s

  set-each :
      (slab : List S) (i : ℕ) (v s : S)
      → get_elem? slab i ≡ some s
      → Ok v
      → ((j : ℕ) (t : S) → get_elem? slab j ≡ some t → Ok t)
      → (j : ℕ) (t : S) → get_elem? (set slab i v) j ≡ some t
      → Ok t
  set-each slab i v s g o each j t gt =
      elim (either (get_elem?-set slab i j v (get_elem?-lt slab i g)) gt) [
        | inl e ↦ subst Ok (sym e) o
        | inr e ↦ each j t e
      ]
    where
      either :
          get_elem? (set slab i v) j ≡ (if i == j then some v else get_elem? slab j)
          → get_elem? (set slab i v) j ≡ some t
          → (t ≡ v) ⊎ (get_elem? slab j ≡ some t)
      either e gt = ground (arith, e, gt)

  pub Slab-take :
      {slab slab' : List S} {head head' index used : ℕ} (v : S)
      → Slab slab head used
      → Taken link slab head index slab' head'
      → link v ≡ none
      → Ok v
      → length slab' < free_none
      → Slab (set slab' index v) head' (used + 1)
  Slab-take {slab} {slab'} {head} {head'} {index} {used} v k t lv o room =
      let u = Taken-Used link slab slab' head head' index used v k.stack k.stacked t lv room in
      record {
        stack = u.stack;
        stacked = u.stacked;
        each = λ j s g. elim (u.nothing_else j s g) [
          | inl e ↦ subst Ok (sym e) o
          | inr e ↦ k.each j s e
        ];
      }

  pub Slab-set :
      {slab : List S} {head used : ℕ} (i : ℕ) (v s : S)
      → Slab slab head used
      → get_elem? slab i ≡ some s
      → link v ≡ link s
      → Ok v
      → Slab (set slab i v) head used
  Slab-set {slab} {head} {used} i v s k g same o = record {
    stack = k.stack;
    stacked = Stacked-set link slab head used i v s k.stack k.stacked g same;
    each = set-each slab i v s g o k.each;
  }

  pub Slab-free :
      {slab : List S} {head used : ℕ} (i : ℕ) (v s : S)
      → Slab slab head used
      → get_elem? slab i ≡ some s
      → link s ≡ none
      → link v ≡ some head
      → Ok v
      → Slab (set slab i v) i (used - 1)
  Slab-free {slab} {head} {used} i v s k g l lv o = record {
    stack = i ∷ k.stack;
    stacked = Stacked-push link slab head used i v s k.stack k.stacked g l lv;
    each = set-each slab i v s g o k.each;
  }

  pub Slab-empty : Slab [] free_none 0
  Slab-empty = record {
    stack = [];
    stacked = record { linked = refl; exact = λ i. refl; counted = refl; small = omega arith };
    each = λ i s g. cc;
  }

  pub Slab-used :
      {slab : List S} {head used : ℕ} (i : ℕ) (s : S)
      → Slab slab head used
      → get_elem? slab i ≡ some s
      → link s ≡ none
      → 0 < used
  Slab-used {slab} {head} {used} i s k g l =
      Stacked-used link slab head used i s k.stack k.stacked g l

pub Slab-weaken :
    {S : Type 0} {link : S → Option ℕ} {Ok Ok' : S → Type 0} {slab : List S} {head used : ℕ}
    → ((s : S) → Ok s → Ok' s)
    → Slab link Ok slab head used
    → Slab link Ok' slab head used
Slab-weaken w k = record {
  stack = k.stack;
  stacked = k.stacked;
  each = λ i s g. w s (k.each i s g);
}
