-- ===== src/Ops/Arena/Recycle.antt =====
-- A run given back and asked for again.
use native.Mathlib.Nat.{mod-eq_of_lt}
use conrt.Base.{
  get_elem?-set, ℕ, zero, suc, ◌%◌, ◌^◌, ◌<◌, ◌≤◌, Bool, true, false, not, List, [], ◌∷◌, some, ◌≡◌,
  refl, sym, ap, ◌∙◌, arith, set, get_elem?, get_elem?-lt, ltb, leb, ◌==◌, if◌then◌else◌, Outcome,
  done, ◌>>=◌, >>=-eq-done, assert-done, >>=-done, vec_get-done, done-injective, vec_get,
  vec_get-eq-done,
}
use conrt.Ops.Arena.{BufArena, IoBufErased, class_for, next_link, alloc, release, buf_none, pop_run}

set-set : {S : Type 0} (xs : List S) (i : ℕ) (a b : S) → set (set xs i a) i b ≡ set xs i b
set-set [] i a b = refl
set-set (x ∷ xs) zero a b = refl
set-set (x ∷ xs) (suc i) a b = ap (λ ys. x ∷ ys) (set-set xs i a b)

set-same : {S : Type 0} (xs : List S) (i : ℕ) (a : S) → get_elem? xs i ≡ some a → set xs i a ≡ xs
set-same [] i a h = refl
set-same (x ∷ xs) zero a h = ground (arith, h)
set-same (x ∷ xs) (suc i) a h = ap (λ ys. x ∷ ys) (set-same xs i a h)

-- What a release that does not panic leaves.
release-eq-done :
    (start len : ℕ) (arena arena' : BufArena)
    → release start len arena ≡ done arena'
    → (class : ℕ) × (block : IoBufErased) × (head : ℕ) × (class_for len ≡ done class)
      × (get_elem? arena.blocks start ≡ some block)
      × (get_elem? arena.free class ≡ some head)
      × (arena' ≡ record {
        blocks = set arena.blocks start (record block { a = head });
        free = set arena.free class start;
      })
unfolding release
release-eq-done start len arena arena' h =
    let (class, c, h₁) = >>=-eq-done (class_for len) _ h in
    let (block, b, h₂) = >>=-eq-done (vec_get arena.blocks start) _ h₁ in
    let (head, f, h₃) = >>=-eq-done (vec_get arena.free class) _ h₂ in
    (
      class,
      block,
      head,
      c,
      vec_get-eq-done arena.blocks start b,
      vec_get-eq-done arena.free class f,
      sym (done-injective h₃),
    )

pop_run-done :
    (class head next : ℕ) (block : IoBufErased) (arena : BufArena)
    → get_elem? arena.blocks head ≡ some block
    → block.a % 2 ^ 32 ≡ next
    → pop_run class head arena ≡ done (head, record arena { free = set arena.free class next })
unfolding pop_run next_link
pop_run-done class head next block arena g link =
    ap (λ n. n >>= λ next. done (head, record arena { free = set arena.free class next }))
      (>>=-done (vec_get arena.blocks head) (λ block. done (block.a % 2 ^ 32))
        (vec_get-done arena.blocks head g) (ap done link))

some_run :
    (start : ℕ) (x y : Outcome (ℕ × BufArena))
    → start < buf_none
    → (if not (start == buf_none) then x else y) ≡ x
some_run start x y below = pick (start == buf_none) (ground (arith, below))
  where
    pick : (t : Bool) → t ≡ false → (if not t then x else y) ≡ x
    pick true e = cc
    pick false e = refl

-- The class's free list is as it was, and the run's first word holds its link.
module _ (start len : ℕ) (arena arena' : BufArena) where
  -- In an arena whose list heads fit in 32 bits, where a run of 1 to 1,024 buffers is given back,
  -- below the end mark, the next request of that length gets the same run, and the free lists are
  -- as they were.
  pub release-alloc :
      0 < len
      → len ≤ 1024
      → start < buf_none
      → ((class head : ℕ) → get_elem? arena.free class ≡ some head → head < 2 ^ 32)
      → release start len arena ≡ done arena'
      → alloc len arena' ≡ done (start, record arena' { free = arena.free })
  unfolding alloc
  release-alloc pos small below words h =
      let (class, block, head, c, b, f, e) = release-eq-done start len arena arena' h in
      let here = get_elem?-lt arena.blocks start b in
      let here' = get_elem?-lt arena.free class f in
      let at_head : get_elem? arena'.free class ≡ some start =
        ap (λ (q : BufArena). get_elem? q.free class) e
        ∙ ground (arith, get_elem?-set arena.free class class start here') in
      let at_start : get_elem? arena'.blocks start ≡ some (record block { a = head }) =
        ap (λ (q : BufArena). get_elem? q.blocks start) e
        ∙ ground (arith, get_elem?-set arena.blocks start start (record block { a = head }) here) in
      let link = mod-eq_of_lt {n = head} {m = 2 ^ 32} (words class head f) in
      let restored : set arena'.free class head ≡ arena.free =
        ap (λ (q : BufArena). set q.free class head) e
        ∙ set-set arena.free class start head
        ∙ set-same arena.free class head f in
      assert-done (ltb 0 len) _ (ground (arith, pos)) (
        assert-done (leb len 1024) _ (ground (arith, small)) (
          >>=-done (class_for len) _ c (
            >>=-done (vec_get arena'.free class) _ (vec_get-done arena'.free class at_head) (
              some_run start _ _ below
              ∙ pop_run-done class start head (record block { a = head }) arena' at_start link
              ∙ ap (λ q. done (start, record arena' { free = q })) restored))))
