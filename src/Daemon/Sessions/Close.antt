-- ===== src/Daemon/Sessions/Close.antt =====
-- The end of an attach session: what `close_session` closes and what it leaves.
use conrt.Base.{
  ==_refl, ℕ, ◌++◌, none, some, ◌≡◌, refl, ◌∙◌, arith, if◌then◌else◌, ◌==◌, Option-cases, inl, inr,
  remove, lookup-remove,
}
use conrt.Daemon.State.{AttachSession}
use conrt.Daemon.Runtime.{Rt, close_if_open}
use conrt.Daemon.Sessions.{session, with_sessions, cancels, close_session}

closes-none : (id : ℕ) (rt : Rt) → session id rt ≡ none → close_session id rt ≡ rt
unfolding close_session
closes-none id rt at = rw (close_session, at) refl

closes-some :
    (id : ℕ) (rt : Rt) (sess : AttachSession)
    → session id rt ≡ some sess
    → close_session id rt ≡ record (with_sessions (remove id) rt) {
      trace =
          rt.trace
          ++ (cancels sess.read_op ++ cancels sess.output_op ++ close_if_open sess.stream_fd);
    }
unfolding close_session
closes-some id rt sess at = rw (close_session, at) refl

-- After a close the session is gone, and every other one is as it was.
session-close_session :
    (id other : ℕ) (rt : Rt)
    → session other (close_session id rt) ≡ (if id == other then none else session other rt)
session-close_session id other rt = elim (Option-cases (session id rt)) [
  | inl at ↦ rw (closes-none id rt at) (unchanged at)
  | inr (sess, at) ↦
      rw (closes-some id rt sess at) (lookup-remove id other rt.global.attach_sessions)
]
  where
    unchanged :
        session id rt ≡ none → session other rt ≡ (if id == other then none else session other rt)
    unchanged at = ground arith

-- A second close of the same session changes nothing and has no effect: no descriptor is closed
-- twice.
close_session-twice :
    (id : ℕ) (rt : Rt) → close_session id (close_session id rt) ≡ close_session id rt
close_session-twice id rt =
    closes-none id (close_session id rt) (session-close_session id id rt ∙ rw (==_refl id) refl)
