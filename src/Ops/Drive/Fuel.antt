-- ===== src/Ops/Drive/Fuel.antt =====
-- The fuel of the main loop decides only whether there is a result.
use conrt.Base.{
  ℕ, zero, suc, ◌+◌, Bool, true, false, Option, some, ◌≡◌, ap, subst, ◌∙◌, inl, inr, Option-cases,
  arith, Outcome, done, >>=-eq-done, >>=-done, done-injective, if◌then◌else◌,
}
use conrt.Ops.Table.{Runtime, Backend}
use conrt.Ops.Complete.{Code, take_completion}
use conrt.Ops.Drive.{drain_cqes, drive, has_inflight}
use conrt.Ops.Drive.Steps.{none-not-some}

suc-add : (a b : ℕ) → suc (a + b) ≡ suc a + b
suc-add a b = omega arith

module _ {G L B Req : Type 0} (backend : Backend B Req) (code : Code G L B Req) where
  drain_cqes-more :
      (fuel more : ℕ) (rt rt' : Runtime G L B)
      → drain_cqes backend code fuel rt ≡ done (some rt')
      → drain_cqes backend code (fuel + more) rt ≡ done (some rt')
  unfolding drain_cqes
  drain_cqes-more zero more rt rt' h = cc
  drain_cqes-more (suc fuel) more rt rt' h =
      let rt₀ : Runtime G L B = record rt { backend = (backend.next_completion rt.backend).1 } in
      let again : drain_cqes backend code (suc (fuel + more)) rt ≡ done (some rt') =
        elim (Option-cases (backend.next_completion rt.backend).0) [
          | inl e ↦ rw (e, drain_cqes) (rw (e, drain_cqes) at h)
          | inr (c, e) ↦
              let (rt₁, t, h₁) =
                >>=-eq-done (take_completion backend code c rt₀) _ (rw (e, drain_cqes) at h) in
              rw (e, drain_cqes)
                (>>=-done (take_completion backend code c rt₀) _ t
                  (drain_cqes-more fuel more rt₁ rt' h₁))
        ] in
      subst (λ n. drain_cqes backend code n rt ≡ done (some rt')) (suc-add fuel more) again

  again_or_not :
      (again again' : Runtime G L B → Outcome (Option (Runtime G L B))) (rt₁ rt' : Runtime G L B)
      (b : B) (busy woken : Bool)
      → ((q : Runtime G L B) → again q ≡ done (some rt') → again' q ≡ done (some rt'))
      → (if busy
          then (if woken
              then again (record rt₁ { backend = b })
              else done (some (record rt₁ { backend = b })))
          else done (some rt₁))
        ≡ done (some rt')
      → (if busy
          then (if woken
              then again' (record rt₁ { backend = b })
              else done (some (record rt₁ { backend = b })))
          else done (some rt₁))
        ≡ done (some rt')
  again_or_not again again' rt₁ rt' b true true k h = k (record rt₁ { backend = b }) h
  again_or_not again again' rt₁ rt' b true false k h = h
  again_or_not again again' rt₁ rt' b false woken k h = h

  -- Where the loop ends within its two fuels, it ends in the same state with any larger ones.
  pub drive-more :
      (rounds drains more_rounds more_drains : ℕ) (rt rt' : Runtime G L B)
      → drive backend code rounds drains rt ≡ done (some rt')
      → drive backend code (rounds + more_rounds) (drains + more_drains) rt ≡ done (some rt')
  unfolding drive
  drive-more zero drains more_rounds more_drains rt rt' h = cc
  drive-more (suc rounds) drains more_rounds more_drains rt rt' h =
      let (drained, d, h₁) = >>=-eq-done (drain_cqes backend code drains rt) _ h in
      let again : drive backend code (suc (rounds + more_rounds)) (drains + more_drains) rt
          ≡ done (some rt') =
        elim (Option-cases drained) [
          | inl e ↦ absurd (none-not-some (done-injective (rw (e) at h₁)))
          | inr (rt₁, e) ↦
              >>=-done (drain_cqes backend code (drains + more_drains) rt) _
                (drain_cqes-more drains more_drains rt rt₁ (d ∙ ap done e))
                (again_or_not (drive backend code rounds drains)
                  (drive backend code (rounds + more_rounds) (drains + more_drains)) rt₁ rt'
                  (backend.wait rt₁.backend).1 (has_inflight rt₁) (backend.wait rt₁.backend).0
                  (λ q. drive-more rounds drains more_rounds more_drains q rt') (rw (e) at h₁))
        ] in
      subst (λ n. drive backend code n (drains + more_drains) rt ≡ done (some rt'))
        (suc-add rounds more_rounds) again
