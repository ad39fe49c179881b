-- ===== src/Uring/Driver/Runs.antt =====
-- What the driver reports over a run, for any ring that reports only what was pushed to it.
use conrt.Base.{
  ℕ, ◌^◌, ◌<◌, Bool, true, false, List, [], ◌∷◌, Option, none, some, ◌≡◌, refl, sym, ap, subst, ◌∙◌,
  ◌⊎◌, inl, inr, done, >>=-elim, expect, expect-eq-done, done-injective,
}
use conrt.Base.Words.{ℤ}
use conrt.Ops.Table.{Completion}
use conrt.Uring.UserData.{
  Cqe, Asked, an_op, a_cancel, answer, slot_of, user_data_of, op_user_data, cancel_user_data,
  completion_of, completion_of-answer,
}
use conrt.Uring.Driver
use conrt.Uring.Driver.{IoUring, Uring}

some-injective : {A : Type 0} {a b : A} → some a ≡ some b → a ≡ b
some-injective e = cc

-- The value is in the list.
abbrev pub Among : {A : Type 0} → A → List A → Type 0
Among a [] = ⊥
Among a (x ∷ xs) = (a ≡ x) ⊎ Among a xs

-- The documented behaviour of the ring: an entry that is pushed keeps its `user_data`, and a
-- completion carries that of an entry that was pushed.
pub record Reports {Ring Entry : Type 0} (io : IoUring Ring Entry) : Type 0 where
  pub pushed : Ring → List ℕ
  pub push-pushed :
      (ud : ℕ) (entry : Entry) (ring ring' : Ring)
      → io.push (io.user_data ud entry) ring ≡ some ring'
      → pushed ring' ≡ ud ∷ pushed ring
  pub wait-pushed : (ring : Ring) → pushed (io.submit_and_wait ring).1 ≡ pushed ring
  pub next-pushed :
      (ring ring' : Ring) (cqe : Cqe)
      → io.next ring ≡ some (cqe, ring')
      → Among cqe.user_data (pushed ring) × (pushed ring' ≡ pushed ring)

module _ {Ring Entry : Type 0} (io : IoUring Ring Entry) (reports : Reports io) where
  -- A run of the driver from a fresh ring, with what was asked in it, the last first.
  pub data Run : List Asked → Uring Ring → Type 0 where
    start :
        {u : Uring Ring} (ring : Ring) → u.ring ≡ some ring → reports.pushed ring ≡ [] → Run [] u
    armed :
        {asked : List Asked} {u u' : Uring Ring} (slot class : ℕ) (req : Entry)
        → slot < 2 ^ 32
        → Run asked u
        → Driver.arm io slot class req u ≡ done (true, u')
        → Run (an_op slot class ∷ asked) u'
    cancelling :
        {asked : List Asked} {u u' : Uring Ring} (slot target class : ℕ)
        → slot < 2 ^ 32
        → Run asked u
        → Driver.cancel io slot target class u ≡ done (true, u')
        → Run (a_cancel slot ∷ asked) u'
    waited :
        {asked : List Asked} {u u' : Uring Ring} {ready : Bool}
        → Run asked u
        → Driver.wait io u ≡ done (ready, u')
        → Run asked u'
    completed :
        {asked : List Asked} {u u' : Uring Ring} {c : Option Completion}
        → Run asked u
        → Driver.next_completion io u ≡ done (c, u')
        → Run asked u'

  -- Each pushed `user_data` answers something that was asked.
  abbrev Answers : List Asked → ℕ → Type 0
  Answers asked ud =
      (a : Asked) × Among a asked
      × ((result : ℤ) (flags : ℕ)
          → completion_of (record { user_data = ud; result = result; flags = flags })
            ≡ answer a result flags)

  abbrev Known : List Asked → Ring → Type 0
  Known asked ring = (ud : ℕ) → Among ud (reports.pushed ring) → Answers asked ud

  abbrev Live : List Asked → Uring Ring → Type 0
  Live asked u = (ring : Ring) → u.ring ≡ some ring → Known asked ring

  Known-later :
      (asked : List Asked) (a : Asked) (ring : Ring) → Known asked ring → Known (a ∷ asked) ring
  Known-later asked a ring known ud m = let (a', here, e) = known ud m in (a', inr here, e)

  Known-pushed :
      (asked : List Asked) (a : Asked) (ud : ℕ) (ring ring' : Ring)
      → slot_of a < 2 ^ 32
      → user_data_of a ≡ done ud
      → Known asked ring
      → reports.pushed ring' ≡ ud ∷ reports.pushed ring
      → Known (a ∷ asked) ring'
  Known-pushed asked a ud ring ring' b made known e ud' m = newest (subst (Among ud') e m)
    where
      newest : Among ud' (ud ∷ reports.pushed ring) → Answers (a ∷ asked) ud'
      newest (inl same) =
          subst (Answers (a ∷ asked)) (sym same)
            (a, inl refl, λ result flags. completion_of-answer a ud result flags b made)
      newest (inr older) = Known-later asked a ring known ud' older

  -- A push that succeeds, of a `user_data` that answers what is asked next.
  pushed-Live :
      (asked : List Asked) (a : Asked) (ud : ℕ) (entry : Entry) (u u' : Uring Ring) (ring : Ring)
      (o : Option Ring)
      → slot_of a < 2 ^ 32
      → user_data_of a ≡ done ud
      → Known asked ring
      → io.push (io.user_data ud entry) ring ≡ o
      → Driver.pushed io u o ≡ done (true, u')
      → Live (a ∷ asked) u'
  pushed-Live asked a ud entry u u' ring none b made known e h ring2 live =
      absurd (let l : false ≡ true = ap (λ z. z.0) (done-injective h) in cc)
  pushed-Live asked a ud entry u u' ring (some ring') b made known e h ring2 live =
      let same : ring' ≡ ring2 =
        let l : some ring' ≡ some ring2 = ap (λ z. z.1.ring) (done-injective h) ∙ live in cc in
      subst (Known (a ∷ asked)) same (
        Known-pushed asked a ud ring ring' b made known (reports.push-pushed ud entry ring ring' e))

  submit-Live :
      (asked : List Asked) (a : Asked) (ud : ℕ) (entry : Entry) (u u' : Uring Ring)
      → slot_of a < 2 ^ 32
      → user_data_of a ≡ done ud
      → Live asked u
      → Driver.submit io (io.user_data ud entry) u ≡ done (true, u')
      → Live (a ∷ asked) u'
  submit-Live asked a ud entry u u' b made live h = >>=-elim (expect u.ring) _ h λ ring found h1.
      pushed-Live asked a ud entry u u' ring (io.push (io.user_data ud entry) ring) b made
        (live ring (expect-eq-done u.ring found)) refl h1

  wait-Live :
      (asked : List Asked) (u u' : Uring Ring) (ready : Bool)
      → Live asked u
      → Driver.wait io u ≡ done (ready, u')
      → Live asked u'
  unfolding Driver.wait
  wait-Live asked u u' ready live h ring' at = >>=-elim (expect u.ring) _ h λ ring found h1.
      let same : (io.submit_and_wait ring).1 ≡ ring' =
        let l : some (io.submit_and_wait ring).1 ≡ some ring' =
          ap (λ z. z.1.ring) (done-injective h1) ∙ at in
        cc in
      subst (Known asked) same (λ ud m.
        live ring (expect-eq-done u.ring found) ud (subst (Among ud) (reports.wait-pushed ring) m))

  -- A completion, with what was asked and answers it.
  abbrev pub Told : List Asked → Completion → Type 0
  Told asked c =
      (a : Asked) × Among a asked × (result : ℤ) × (flags : ℕ) × (c ≡ answer a result flags)

  taken :
      (asked : List Asked) (u u' : Uring Ring) (ring : Ring) (o : Option (Cqe × Ring))
      (c : Option Completion)
      → u.ring ≡ some ring
      → Live asked u
      → io.next ring ≡ o
      → Driver.popped io u o ≡ done (c, u')
      → Live asked u' × ((x : Completion) → c ≡ some x → Told asked x)
  taken asked u u' ring none c found live e h = (
    subst (Live asked) (ap (λ z. z.1) (done-injective h)) live,
    λ x s. absurd (let n : none ≡ some x = ap (λ z. z.0) (done-injective h) ∙ s in cc),
  )
  taken asked u u' ring (some (cqe, ring')) c found live e h =
      let (among, kept) = reports.next-pushed ring ring' cqe e in
      (
        λ ring2 at.
            let same : ring' ≡ ring2 =
              some-injective (ap (λ z. z.1.ring) (done-injective h) ∙ at) in
            subst (Known asked) same (λ ud m. live ring found ud (subst (Among ud) kept m)),
        λ x s.
            let (a, here, f) = live ring found cqe.user_data among in
            let is : completion_of cqe ≡ x =
              some-injective (ap (λ z. z.0) (done-injective h) ∙ s) in
            (a, here, cqe.result, cqe.flags, sym is ∙ f cqe.result cqe.flags),
      )

  next-Live :
      (asked : List Asked) (u u' : Uring Ring) (c : Option Completion)
      → Live asked u
      → Driver.next_completion io u ≡ done (c, u')
      → Live asked u' × ((x : Completion) → c ≡ some x → Told asked x)
  unfolding Driver.next_completion
  next-Live asked u u' c live h = >>=-elim (expect u.ring) _ h λ ring found h1.
      taken asked u u' ring (io.next ring) c (expect-eq-done u.ring found) live refl h1

  fresh-Live :
      (u : Uring Ring) (ring : Ring) → u.ring ≡ some ring → reports.pushed ring ≡ [] → Live [] u
  fresh-Live u ring at empty ring' at' ud m =
      let same : ring ≡ ring' = some-injective (sym at ∙ at') in
      absurd (
        subst (Among ud) {x = reports.pushed ring'} {y = []} (ap reports.pushed (sym same) ∙ empty)
          m)

  Run-Live : {asked : List Asked} {u : Uring Ring} → Run asked u → Live asked u
  unfolding Driver.arm Driver.cancel
  Run-Live (start {u} ring at empty) = fresh-Live u ring at empty
  Run-Live (armed {asked} {u} {u'} slot class req b r h) =
      >>=-elim (op_user_data slot class) _ h
        λ ud made h1. submit-Live asked (an_op slot class) ud req u u' b made (Run-Live r) h1
  Run-Live (cancelling {asked} {u} {u'} slot target class b r h) =
      >>=-elim (op_user_data target class) _ h λ ud made h1.
        submit-Live asked (a_cancel slot) (cancel_user_data slot) (io.async_cancel ud) u u' b refl
          (Run-Live r) h1
  Run-Live (waited {asked} {u} {u'} {ready} r h) = wait-Live asked u u' ready (Run-Live r) h
  Run-Live (completed {asked} {u} {u'} {c} r h) = (next-Live asked u u' c (Run-Live r) h).0

  -- For a ring that reports only what was pushed to it, every completion that `next_completion`
  -- gives in a run from a fresh ring, whose slots are below 2^32, is the answer to an op that was
  -- armed, with its own slot and class, or to a cancel that was submitted, with its own slot: it
  -- never names anything else.
  pub next_completion-Told :
      (asked : List Asked) (u u' : Uring Ring) (c : Completion)
      → Run asked u
      → Driver.next_completion io u ≡ done (some c, u')
      → Told asked c
  next_completion-Told asked u u' c r h = (next-Live asked u u' (some c) (Run-Live r) h).1 c refl
