-- ===== src/Ops/Drive/Steps.antt =====
-- The main loop: the state stays well formed until it ends.
use conrt.Base.{
  ℕ, zero, suc, Bool, true, false, Option, none, some, ◌≡◌, ap, subst, inl, inr, Option-cases, ◌≢◌,
  ◌∙◌, Outcome, done, >>=-eq-done, done-injective, if◌then◌else◌,
}
use conrt.Ops.Table.{Runtime, Backend}
use conrt.Ops.Table.Valid.{Step, Step-refl, Step-trans, Valid, Small}
use conrt.Ops.Callback.Steps.{same-Step}
use conrt.Ops.Complete.{Code, take_completion}
use conrt.Ops.Complete.Steps.{take_completion-Step}
use conrt.Ops.Drive.{drain_cqes, drive, has_inflight}

module _ {G L B : Type 0} where
  some-injective : {a b : Runtime G L B} → some a ≡ some b → a ≡ b
  some-injective e = cc

  pub none-not-some : {a : Runtime G L B} → none ≢ some a
  none-not-some e = cc

module _ {G L B Req : Type 0} (backend : Backend B Req) (code : Code G L B Req) where
  drain_cqes-Step :
      (fuel : ℕ) (rt rt' : Runtime G L B)
      → drain_cqes backend code fuel rt ≡ done (some rt')
      → Step rt rt'
  unfolding drain_cqes
  drain_cqes-Step zero rt rt' h = cc
  drain_cqes-Step (suc fuel) rt rt' h =
      let b = (backend.next_completion rt.backend).1 in
      let rt₀ : Runtime G L B = record rt { backend = b } in
      elim (Option-cases (backend.next_completion rt.backend).0) [
        | inl e ↦
            subst (Step rt) (some-injective (done-injective (rw (e, drain_cqes) at h)))
              (same-Step rt rt₀)
        | inr (c, e) ↦
            let (rt₁, t, h₁) =
              >>=-eq-done (take_completion backend code c rt₀) _ (rw (e, drain_cqes) at h) in
            Step-trans (same-Step rt rt₀) (
              Step-trans (take_completion-Step backend code c rt₀ rt₁ t)
                (drain_cqes-Step fuel rt₁ rt' h₁))
      ]

  -- What follows a drain, with `again` for the next round.
  drained-Step :
      (again : Runtime G L B → Outcome (Option (Runtime G L B))) (rt₁ rt' : Runtime G L B) (b : B)
      (busy woken : Bool)
      → ((q : Runtime G L B) → again q ≡ done (some rt') → Step q rt')
      → (if busy
          then (if woken
              then again (record rt₁ { backend = b })
              else done (some (record rt₁ { backend = b })))
          else done (some rt₁))
        ≡ done (some rt')
      → Step rt₁ rt'
  drained-Step again rt₁ rt' b true true k h =
      Step-trans (same-Step rt₁ (record rt₁ { backend = b })) (k (record rt₁ { backend = b }) h)
  drained-Step again rt₁ rt' b true false k h =
      subst (Step rt₁) (some-injective (done-injective h))
        (same-Step rt₁ (record rt₁ { backend = b }))
  drained-Step again rt₁ rt' b false woken k h =
      subst (Step rt₁) (some-injective (done-injective h)) (Step-refl rt₁)

  pub drive-Step :
      (rounds drains : ℕ) (rt rt' : Runtime G L B)
      → drive backend code rounds drains rt ≡ done (some rt')
      → Step rt rt'
  unfolding drive
  drive-Step zero drains rt rt' h = cc
  drive-Step (suc rounds) drains rt rt' h =
      let (drained, d, h₁) = >>=-eq-done (drain_cqes backend code drains rt) _ h in
      elim (Option-cases drained) [
        | inl e ↦ absurd (none-not-some (done-injective (rw (e) at h₁)))
        | inr (rt₁, e) ↦ Step-trans (drain_cqes-Step drains rt rt₁ (d ∙ ap done e)) (
            drained-Step (drive backend code rounds drains) rt₁ rt' (backend.wait rt₁.backend).1
              (has_inflight rt₁) (backend.wait rt₁.backend).0 (λ q. drive-Step rounds drains q rt')
              (rw (e) at h₁))
      ]

  -- Where the loop starts in a well-formed state and comes to its end with fewer than 2^32 - 1
  -- slots in each slab, the state is well formed, whatever the callbacks did: each free stack holds
  -- exactly the free slots of its slab, each once, the counts of what is in flight are the numbers
  -- of slots in use, and the id of a slot says whether it is free.
  pub drive-Valid :
      (rounds drains : ℕ) (rt rt' : Runtime G L B)
      → Valid rt
      → Small rt'
      → drive backend code rounds drains rt ≡ done (some rt')
      → Valid rt'
  drive-Valid rounds drains rt rt' valid small h =
      (drive-Step rounds drains rt rt' h).keeps small valid
