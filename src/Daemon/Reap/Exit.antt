-- ===== src/Daemon/Reap/Exit.antt =====
-- The exit handshake of an attach session: the end of its output drain and the sweep that reaps its
-- child can come in either order, each can come more than once, and the sweeps reap others too.
use conrt.Base.{
  ℕ, Bool, true, false, ◌&&◌, List, [], ◌∷◌, ◌++◌, append_assoc, append-nil, some, ◌≡◌, refl, sym,
  ap, subst, ◌∙◌, if◌then◌else◌, update, All,
}
use conrt.Daemon.State.{AttachSession, Effect}
use conrt.Daemon.Runtime.{Rt}
use conrt.Daemon.Sessions.{Json, session, with_sessions}
use conrt.Daemon.Output.{mark_drained, finish_session_output}
use conrt.Daemon.Reap.{Wait, find_session, reap_all, reap_children, mark_exited}
use conrt.Daemon.Reap.Events.{
  Event, drained, child_reaped, saw_drained, saw_reaped, sent, checked, exit_report, sent_all,
  sent_all-fresh,
}
use conrt.Daemon.Reap.Sweeps.{frames_to}
use conrt.Daemon.Reap.Tracks.{Tracks, update-Tracks}
use conrt.Daemon.Reap.Checks.{ended, told, maybe_finish-Tracks, finish_sessions-Tracks}
use conrt.Daemon.Reap.Children.{reaps, ExitsWith, marked, reap_all-Tracks}

pub data Happening : Type 0 where
  output_ends : Happening
  sweep : List Wait → Happening

abbrev pub Exits : (pid code : ℕ) → Happening → Type 0
Exits pid code output_ends = Unit
Exits pid code (sweep ws) = All (ExitsWith pid code) ws

-- What the happenings are for the session.
abbrev pub events : ℕ → List Happening → List Event
events pid [] = []
events pid (output_ends ∷ hs) = drained ∷ events pid hs
events pid (sweep ws ∷ hs) =
    let rest = events pid hs in if reaps pid ws then child_reaped ∷ rest else rest

module _ {Line : Type 0} (json : Json Line) (id pid code : ℕ) where
  -- What happens to the daemon: the output of the session ends, or a signal sweeps the children.
  abbrev pub handle : Happening → Rt → Rt
  handle output_ends rt = finish_session_output json id rt
  handle (sweep ws) rt = reap_children json ws rt

  abbrev pub handle_all : List Happening → Rt → Rt
  handle_all [] rt = rt
  handle_all (h ∷ hs) rt = handle_all hs (handle h rt)

  sweep-Tracks :
      (ws : List Wait) (sess : AttachSession) (frames : List Effect) (rt : Rt)
      → All (ExitsWith pid code) ws
      → Tracks id pid sess frames rt
      → Tracks id pid
          (ended json id pid code (reaps pid ws) (marked id pid code (reaps pid ws) sess))
          (frames ++ told json id pid code (reaps pid ws) (marked id pid code (reaps pid ws) sess))
          (reap_children json ws rt)
  unfolding reap_children
  sweep-Tracks ws sess frames rt h w =
      let (swept, found) = reap_all-Tracks id pid code ws sess frames rt h w in
      subst
        (λ b.
          Tracks id pid (ended json id pid code b (marked id pid code (reaps pid ws) sess))
            (frames ++ told json id pid code b (marked id pid code (reaps pid ws) sess))
            (reap_children json ws rt))
        found
        (finish_sessions-Tracks json id pid code (reap_all ws rt).0
          (marked id pid code (reaps pid ws) sess) frames (reap_all ws rt).1 swept)

  sent_events :
      (found : Bool) (evs : List Event) (frames : List Effect) (sess : AttachSession)
      → (frames ++ told json id pid code found (marked id pid code found sess))
          ++ sent_all json id code evs
              (ended json id pid code found (marked id pid code found sess))
        ≡ frames ++ sent_all json id code (if found then child_reaped ∷ evs else evs) sess
  sent_events true evs frames sess =
      append_assoc frames (sent json id code (mark_exited code sess)) _
  sent_events false evs frames sess =
      ap (λ es. es ++ sent_all json id code evs sess) (append-nil frames)

  handle_all-Tracks :
      (hs : List Happening) (sess : AttachSession) (frames : List Effect) (rt : Rt)
      → All (Exits pid code) hs
      → Tracks id pid sess frames rt
      → frames_to id (handle_all hs rt).trace ≡ frames ++ sent_all json id code (events pid hs) sess
  unfolding finish_session_output
  handle_all-Tracks [] sess frames rt h w = w.sends ∙ sym (append-nil frames)
  handle_all-Tracks (output_ends ∷ hs) sess frames rt (h, rest) w =
      let first =
        maybe_finish-Tracks json id pid code (mark_drained sess) frames
          (with_sessions (update id mark_drained) rt)
          (update-Tracks id pid sess frames rt w mark_drained (λ q. refl)) in
      handle_all-Tracks hs (checked json id code (mark_drained sess))
        (frames ++ sent json id code (mark_drained sess)) (finish_session_output json id rt) rest
        first
      ∙ append_assoc frames (sent json id code (mark_drained sess)) _
  handle_all-Tracks (sweep ws ∷ hs) sess frames rt (h, rest) w =
      let found = reaps pid ws in
      handle_all-Tracks hs (ended json id pid code found (marked id pid code found sess))
        (frames ++ told json id pid code found (marked id pid code found sess))
        (reap_children json ws rt) rest (sweep-Tracks ws sess frames rt h w)
      ∙ sent_events found (events pid hs) frames sess

  -- Where the runtime takes every op, and a session is open that has neither drained nor lost its
  -- child nor sent an exit frame, and is the one session of its child's pid: take any sequence of
  -- ends of its output and of sweeps over the results of wait4, in which that pid is reaped with
  -- one exit code only. The frames to the session that this adds to the effects are exactly one
  -- exit frame, with that code, if the output ends and the pid is reaped, and none otherwise.
  pub handle_all-exit_frame :
      (hs : List Happening) (rt : Rt) (sess : AttachSession)
      → session id rt ≡ some sess
      → ((n : ℕ) → rt.accepts n ≡ true)
      → find_session pid rt.global.attach_sessions ≡ some id
      → ((p : ℕ) → find_session p rt.global.attach_sessions ≡ some id → p ≡ pid)
      → All (Exits pid code) hs
      → sess.exit_sent ≡ false
      → sess.drain_done ≡ false
      → sess.child_exited ≡ false
      → frames_to id (handle_all hs rt).trace
        ≡ frames_to id rt.trace
          ++ (if saw_drained (events pid hs) && saw_reaped (events pid hs)
              then exit_report json id code sess.stream_fd ∷ []
              else [])
  handle_all-exit_frame hs rt sess at acc found only exits h d x =
      handle_all-Tracks hs sess (frames_to id rt.trace) rt exits
        (record { stays = at; takes = acc; found = found; only = only; sends = refl })
      ∙ ap (◌++◌ (frames_to id rt.trace)) (sent_all-fresh json id code (events pid hs) sess h d x)
