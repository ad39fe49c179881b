-- ===== src/Daemon/Reap/Checks.antt =====
-- The checks at the end of a sweep, on the sessions that it found.
use mathlib.Core.Option
use conrt.Base.{
  ℕ, Bool, true, false, ◌||◌, List, [], ◌∷◌, ◌++◌, append-nil, Option, none, some, ◌≡◌, refl, sym,
  subst, arith, if◌then◌else◌, Bool-cases, inl, inr, insert, ◌==◌,
}
use conrt.Daemon.State.{AttachSession, Effect, exit_code}
use conrt.Daemon.Runtime.{Rt}
use conrt.Daemon.Sessions.{Json, session, with_sessions, arm_session_frame}
use conrt.Daemon.Output.{exit_ready, mark_exit_sent, maybe_finish_session}
use conrt.Daemon.Reap.{finish_sessions}
use conrt.Daemon.Reap.Events.{sent, checked, exit_ready-sent}
use conrt.Daemon.Reap.Tracks.{Tracks, sent-Tracks, sent_other-Tracks}

abbrev pub mem : ℕ → List ℕ → Bool
mem id [] = false
mem id (i ∷ ids) = (i == id) || mem id ids

pub mem-append : (id : ℕ) (is js : List ℕ) → mem id (is ++ js) ≡ (mem id is || mem id js)
mem-append id [] js = refl
mem-append id (i ∷ is) js = elim (Bool-cases (i == id)) [
  | inl here ↦ rw here refl
  | inr other ↦ rw other (mem-append id is js)
]

module _ {Line : Type 0} (json : Json Line) (id pid code : ℕ) where
  pub maybe_finish-Tracks :
      (sess : AttachSession) (frames : List Effect) (rt : Rt)
      → Tracks id pid sess frames rt
      → Tracks id pid
          (checked json id code sess)
          (frames ++ sent json id code sess)
          (maybe_finish_session json id rt)
  unfolding maybe_finish_session
  maybe_finish-Tracks sess frames rt w = elim (Bool-cases (exit_ready sess)) [
    | inl ready ↦
        rw (maybe_finish_session, w.stays, ready)
          (sent-Tracks id pid sess frames rt w
            (json.to_vec (exit_code (Option.get_or sess.exit_code 0))))
    | inr waits ↦
        rw (maybe_finish_session, w.stays, waits)
          (subst (λ es. Tracks id pid sess es rt) (sym (append-nil frames)) w)
  ]

  maybe_finish_other-Tracks :
      (other : ℕ) (sess : AttachSession) (frames : List Effect) (rt : Rt)
      → (other == id) ≡ false
      → Tracks id pid sess frames rt
      → Tracks id pid sess frames (maybe_finish_session json other rt)
  unfolding maybe_finish_session
  maybe_finish_other-Tracks other sess frames rt differ w = finishes (session other rt) refl
    where
      finishes :
          (o : Option AttachSession)
          → session other rt ≡ o
          → Tracks id pid sess frames (elim o as (λ x. Rt) [
            | none ↦ rt
            | some s ↦
                if exit_ready s
                then arm_session_frame other s.stream_fd 2
                    (json.to_vec (exit_code (Option.get_or s.exit_code 0)))
                    (with_sessions (insert other (mark_exit_sent s)) rt)
                else rt
          ])
      finishes none at = w
      finishes (some s) at = elim (Bool-cases (exit_ready s)) [
        | inl ready ↦ rw ready (
            sent_other-Tracks id pid sess frames rt w other s
              (json.to_vec (exit_code (Option.get_or s.exit_code 0))) differ at)
        | inr waits ↦ rw waits w
      ]

  -- After its check a session is not ready any more.
  checked-waits : (sess : AttachSession) → exit_ready (checked json id code sess) ≡ false
  checked-waits sess = elim (Bool-cases (exit_ready sess)) [
    | inl ready ↦ rw ready (exit_ready-sent json id code (mark_exit_sent sess) refl)
    | inr waits ↦ rw waits waits
  ]

  -- The checks at the end of a sweep.
  abbrev pub ended : Bool → AttachSession → AttachSession
  ended found sess = if found then checked json id code sess else sess

  abbrev pub told : Bool → AttachSession → List Effect
  told found sess = if found then sent json id code sess else []

  ended_twice :
      (found : Bool) (sess : AttachSession)
      → ended found (checked json id code sess) ≡ checked json id code sess
  ended_twice true sess = rw (checked-waits sess) refl
  ended_twice false sess = refl

  told_twice : (found : Bool) (sess : AttachSession) → told found (checked json id code sess) ≡ []
  told_twice true sess = rw (checked-waits sess) refl
  told_twice false sess = refl

  pub finish_sessions-Tracks :
      (ids : List ℕ) (sess : AttachSession) (frames : List Effect) (rt : Rt)
      → Tracks id pid sess frames rt
      → Tracks id pid
          (ended (mem id ids) sess)
          (frames ++ told (mem id ids) sess)
          (finish_sessions json ids rt)
  finish_sessions-Tracks [] sess frames rt w =
      subst (λ es. Tracks id pid sess es rt) (sym (append-nil frames)) w
  finish_sessions-Tracks (i ∷ ids) sess frames rt w = elim (Bool-cases (i == id)) [
    | inl here ↦
        let same : i ≡ id = ground (arith, here) in
        let first = maybe_finish-Tracks sess frames rt w in
        let rest =
          finish_sessions-Tracks ids (checked json id code sess) (frames ++ sent json id code sess)
            (maybe_finish_session json id rt) first in
        rw here (
          subst
            (λ k.
              Tracks id pid (checked json id code sess) (frames ++ sent json id code sess)
                (finish_sessions json ids (maybe_finish_session json k rt)))
            (sym same)
            (rw
              (
                ended_twice (mem id ids) sess,
                told_twice (mem id ids) sess,
                append-nil (frames ++ sent json id code sess),
              )
              at rest))
    | inr other ↦ rw other (
        finish_sessions-Tracks ids sess frames (maybe_finish_session json i rt)
          (maybe_finish_other-Tracks i sess frames rt other w))
  ]
