-- ===== src/Daemon/Reap/Children.antt =====
-- A sweep over the results of wait4, and what it marks of one session.
use conrt.Base.{
  ==_refl, ℕ, Bool, true, false, ◌||◌, List, [], ◌∷◌, Option, none, some, ◌≡◌, ◌≢◌, refl, sym, ap,
  subst, ◌∙◌, arith, if◌then◌else◌, Bool-cases, inl, inr, update, All, ◌==◌,
}
use conrt.Daemon.State.{AttachSession, Effect}
use conrt.Daemon.Runtime.{Rt}
use conrt.Daemon.Sessions.{with_sessions}
use conrt.Daemon.Reap.{
  Wait, reaped, no_child, wait_failed, Status, exit_code_of, find_session, reap_child, reap_all,
  remove_reaped, mark_exited,
}
use conrt.Daemon.Reap.Tracks.{Tracks, update-Tracks, update_other-Tracks, remove_reaped-Tracks}
use conrt.Daemon.Reap.Checks.{mem, mem-append}

-- Whether a sweep over the results of wait4 reaps the child, and that it does with one status only.
abbrev pub reaps : ℕ → List Wait → Bool
reaps pid [] = false
reaps pid (reaped p status ∷ ws) = (p == pid) || reaps pid ws
reaps pid (no_child ∷ ws) = false
reaps pid (wait_failed ∷ ws) = false

abbrev pub ExitsWith : (pid code : ℕ) → Wait → Type 0
ExitsWith pid code (reaped p status) = (p == pid) ≡ true → exit_code_of status ≡ code
ExitsWith pid code no_child = Unit
ExitsWith pid code wait_failed = Unit

module _ (id pid code : ℕ) where
  abbrev pub marked : Bool → AttachSession → AttachSession
  marked found sess = if found then mark_exited code sess else sess

  -- One reaped child, by the session that is found for it.
  abbrev child_of : ℕ → Status → Rt → Option ℕ → List ℕ × Rt
  child_of p status rt o = elim o [
    | none ↦ ([], remove_reaped p rt)
    | some i ↦
        (i ∷ [], remove_reaped p (with_sessions (update i (mark_exited (exit_code_of status))) rt))
  ]

  other_id : (i : ℕ) → (i == id) ≡ false → some i ≡ some id → ⊥
  other_id i differ e = let same : i ≡ id = cc in ground (arith, differ, same)

  reap_child-Tracks :
      (p : ℕ) (status : Status) (sess : AttachSession) (frames : List Effect) (rt : Rt)
      → ExitsWith pid code (reaped p status)
      → Tracks id pid sess frames rt
      → Tracks id pid (marked (p == pid) sess) frames (reap_child p status rt).1
        × (mem id (reap_child p status rt).0 ≡ (p == pid))
  unfolding reap_child
  reap_child-Tracks p status sess frames rt exits w =
      child (find_session p rt.global.attach_sessions) refl
    where
      -- The pid is the child's where its session is found, and only there.
      pid_of : find_session p rt.global.attach_sessions ≡ some id → (p == pid) ≡ true
      pid_of at = ap (λ k. k == pid) (w.only p at) ∙ ==_refl pid

      found_of : (p == pid) ≡ true → find_session p rt.global.attach_sessions ≡ some id
      found_of same =
          ap (λ k. find_session k rt.global.attach_sessions) {x = p} {y = pid}
            (ground (arith, same))
          ∙ w.found

      not_own :
          (o : Option ℕ)
          → find_session p rt.global.attach_sessions ≡ o
          → o ≢ some id
          → (p == pid) ≡ false
      not_own o at differ = elim (Bool-cases (p == pid)) [
        | inl same ↦ absurd (differ (sym at ∙ found_of same))
        | inr other ↦ other
      ]

      code_is : (p == pid) ≡ true → exit_code_of status ≡ code
      code_is same = exits same

      child :
          (o : Option ℕ)
          → find_session p rt.global.attach_sessions ≡ o
          → Tracks id pid (marked (p == pid) sess) frames (child_of p status rt o).1
            × (mem id (child_of p status rt o).0 ≡ (p == pid))
      child none at =
          let other = not_own none at (λ e. cc) in
          rw (other) (remove_reaped-Tracks id pid sess frames rt w p, refl)
      child (some i) at = elim (Bool-cases (i == id)) [
        | inl here ↦
            let same : i ≡ id = ground (arith, here) in
            let own : (p == pid) ≡ true = pid_of (at ∙ ap some same) in
            subst
              (λ k.
                Tracks id pid (marked (p == pid) sess) frames (child_of p status rt (some k)).1
                × (mem id (child_of p status rt (some k)).0 ≡ (p == pid)))
              (sym same)
              (rw (own, code_is own, ==_refl id)
                (
                  remove_reaped-Tracks id pid (mark_exited code sess) frames
                      (with_sessions (update id (mark_exited code)) rt)
                      (update-Tracks id pid sess frames rt w (mark_exited code) (λ q. refl)) p,
                  refl,
                ))
        | inr differ ↦
            let other : (p == pid) ≡ false =
              not_own (some i) at (λ e. absurd (other_id i differ e)) in
            rw (other, differ)
              (
                remove_reaped-Tracks id pid sess frames
                    (with_sessions (update i (mark_exited (exit_code_of status))) rt)
                    (update_other-Tracks id pid sess frames rt w i
                      (mark_exited (exit_code_of status)) differ (λ q. refl))
                    p,
                refl,
              )
      ]

  marked_twice :
      (found rest : Bool) (sess : AttachSession)
      → marked rest (marked found sess) ≡ marked (found || rest) sess
  marked_twice true true sess = refl
  marked_twice true false sess = refl
  marked_twice false rest sess = refl

  pub reap_all-Tracks :
      (ws : List Wait) (sess : AttachSession) (frames : List Effect) (rt : Rt)
      → All (ExitsWith pid code) ws
      → Tracks id pid sess frames rt
      → Tracks id pid (marked (reaps pid ws) sess) frames (reap_all ws rt).1
        × (mem id (reap_all ws rt).0 ≡ reaps pid ws)
  unfolding reap_all
  reap_all-Tracks [] sess frames rt h w = (w, refl)
  reap_all-Tracks (no_child ∷ ws) sess frames rt h w = (w, refl)
  reap_all-Tracks (wait_failed ∷ ws) sess frames rt h w = (w, refl)
  reap_all-Tracks (reaped p status ∷ ws) sess frames rt (h, hs) w =
      let (first, ids) = reap_child-Tracks p status sess frames rt h w in
      let (rest, more) =
        reap_all-Tracks ws (marked (p == pid) sess) frames (reap_child p status rt).1 hs first in
      (
        subst (λ s. Tracks id pid s frames (reap_all (reaped p status ∷ ws) rt).1)
            (marked_twice (p == pid) (reaps pid ws) sess) rest,
        mem-append id (reap_child p status rt).0 (reap_all ws (reap_child p status rt).1).0
            ∙ rw (ids, more) refl,
      )
