-- ===== src/Daemon/Reap/Tracks.antt =====
-- What the daemon's calls do to one session, to the search for its child's pid, and to the frames
-- that it is sent.
use conrt.Base.{
  ℕ, true, false, List, [], ◌∷◌, ◌++◌, append-nil, Option, none, some, ◌≡◌, refl, sym, ap, subst,
  ◌∙◌, if◌then◌else◌, Bool-cases, inl, inr, lookup, insert, update, lookup-insert, lookup-update,
  ==_refl, ◌==◌, ltb,
}
use conrt.Daemon.State.{AttachSession, ContainerInfo, Effect}
use conrt.Daemon.Runtime.{Rt, emit_all}
use conrt.Daemon.Sessions.{session, with_sessions, arm_session_frame}
use conrt.Daemon.Output.{mark_exit_sent}
use conrt.Daemon.Reap.{find_session, remove_reaped}
use conrt.Daemon.Reap.Sweeps.{
  frames_to, frames_to-append, frames_to-ending, ending, removed, find_session-update,
  find_session-insert, frame_write, arm_session_frame-sends,
}

-- A session with what it has been sent, and the one session of its child's pid.
module _ (id pid : ℕ) where
  pub record Tracks (sess : AttachSession) (frames : List Effect) (rt : Rt) : Type 0 where
    pub stays : session id rt ≡ some sess
    pub takes : (n : ℕ) → rt.accepts n ≡ true
    pub found : find_session pid rt.global.attach_sessions ≡ some id
    pub only : (p : ℕ) → find_session p rt.global.attach_sessions ≡ some id → p ≡ pid
    pub sends : frames_to id rt.trace ≡ frames

  -- Only effects that are no frames of the session are added.
  emit_all-Tracks :
      (sess : AttachSession) (frames : List Effect) (rt : Rt) (es : List Effect)
      → Tracks sess frames rt
      → frames_to id es ≡ []
      → Tracks sess frames (emit_all es rt)
  emit_all-Tracks sess frames rt es w quiet = record {
    stays = w.stays;
    takes = w.takes;
    found = w.found;
    only = w.only;
    sends =
        frames_to-append id rt.trace es
        ∙ ap (◌++◌ (frames_to id rt.trace)) quiet
        ∙ append-nil (frames_to id rt.trace)
        ∙ w.sends;
  }

  module _ (sess : AttachSession) (frames : List Effect) (rt : Rt) (w : Tracks sess frames rt) where
    pub update-Tracks :
        (f : AttachSession → AttachSession)
        → ((s : AttachSession) → (f s).container_pid ≡ s.container_pid)
        → Tracks (f sess) frames (with_sessions (update id f) rt)
    update-Tracks f same = record {
      stays = lookup-update id id f rt.global.attach_sessions ∙ rw (==_refl id, w.stays) refl;
      takes = w.takes;
      found = find_session-update id pid f rt.global.attach_sessions same ∙ w.found;
      only = λ p e. w.only p (sym (find_session-update id p f rt.global.attach_sessions same) ∙ e);
      sends = w.sends;
    }

    pub update_other-Tracks :
        (other : ℕ) (f : AttachSession → AttachSession)
        → (other == id) ≡ false
        → ((s : AttachSession) → (f s).container_pid ≡ s.container_pid)
        → Tracks sess frames (with_sessions (update other f) rt)
    update_other-Tracks other f differ same = record {
      stays = lookup-update other id f rt.global.attach_sessions ∙ rw differ w.stays;
      takes = w.takes;
      found = find_session-update other pid f rt.global.attach_sessions same ∙ w.found;
      only =
          λ p e. w.only p (sym (find_session-update other p f rt.global.attach_sessions same) ∙ e);
      sends = w.sends;
    }

    pub remove_reaped-Tracks : (p : ℕ) → Tracks sess frames (remove_reaped p rt)
    unfolding remove_reaped
    remove_reaped-Tracks p = leaves (lookup p rt.global.containers)
      where
        leaves :
            (o : Option ContainerInfo)
            → Tracks sess frames (elim o as (λ x. Rt) [
              | none ↦ rt
              | some info ↦
                  if ltb 0 info.drains_pending
                  then rt
                  else emit_all (ending info) (removed p info rt)
            ])
        leaves none = w
        leaves (some info) = elim (Bool-cases (ltb 0 info.drains_pending)) [
          | inl draining ↦ rw draining w
          | inr over ↦ rw over (
              emit_all-Tracks sess frames (removed p info rt) (ending info)
                (record {
                  stays = w.stays;
                  takes = w.takes;
                  found = w.found;
                  only = w.only;
                  sends = w.sends;
                })
                (frames_to-ending id info))
        ]

    -- A session that has sent its exit frame: this one, or another.
    pub sent-Tracks :
        (payload : List ℕ)
        → Tracks (mark_exit_sent sess) (frames ++ frame_write id sess.stream_fd payload ∷ []) (
            arm_session_frame id sess.stream_fd 2 payload
              (with_sessions (insert id (mark_exit_sent sess)) rt))
    sent-Tracks payload =
        let rt' = with_sessions (insert id (mark_exit_sent sess)) rt in
        subst (Tracks (mark_exit_sent sess) (frames ++ frame_write id sess.stream_fd payload ∷ []))
          (sym (arm_session_frame-sends id sess.stream_fd payload rt' (w.takes rt.next_op)))
          (record {
            stays =
                lookup-insert id id (mark_exit_sent sess) rt.global.attach_sessions
                ∙ rw (==_refl id) refl;
            takes = w.takes;
            found = find_session-insert id pid sess rt.global.attach_sessions w.stays ∙ w.found;
            only = λ p e.
                w.only p
                  (sym (find_session-insert id p sess rt.global.attach_sessions w.stays) ∙ e);
            sends =
                frames_to-append id rt.trace (frame_write id sess.stream_fd payload ∷ [])
                ∙ rw (==_refl id)
                    (ap (λ es. es ++ frame_write id sess.stream_fd payload ∷ []) w.sends);
          })

    pub sent_other-Tracks :
        (other : ℕ) (s : AttachSession) (payload : List ℕ)
        → (other == id) ≡ false
        → session other rt ≡ some s
        → Tracks sess frames (
            arm_session_frame other s.stream_fd 2 payload
              (with_sessions (insert other (mark_exit_sent s)) rt))
    sent_other-Tracks other s payload differ at =
        let rt' = with_sessions (insert other (mark_exit_sent s)) rt in
        subst (Tracks sess frames)
          (sym (arm_session_frame-sends other s.stream_fd payload rt' (w.takes rt.next_op)))
          (record {
            stays =
                lookup-insert other id (mark_exit_sent s) rt.global.attach_sessions
                ∙ rw differ w.stays;
            takes = w.takes;
            found = find_session-insert other pid s rt.global.attach_sessions at ∙ w.found;
            only = λ p e.
                w.only p (sym (find_session-insert other p s rt.global.attach_sessions at) ∙ e);
            sends =
                frames_to-append id rt.trace (frame_write other s.stream_fd payload ∷ [])
                ∙ rw differ (append-nil (frames_to id rt.trace) ∙ w.sends);
          })
