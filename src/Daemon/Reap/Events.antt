-- ===== src/Daemon/Reap/Events.antt =====
-- The events that end an attach session, and the frames that each leaves to send, on the session
-- alone.
use mathlib.Core.Option
use conrt.Base.{
  ℕ, Bool, true, false, ◌&&◌, List, [], ◌∷◌, ◌++◌, some, ◌≡◌, refl, sym, ap, ◌∙◌, arith,
  if◌then◌else◌, RawFd,
}
use conrt.Daemon.State.{AttachSession, Effect, exit_code, write, session_frame}
use conrt.Daemon.Sessions.{Json, frame}
use conrt.Daemon.Output.{exit_ready, mark_exit_sent, mark_drained}
use conrt.Daemon.Reap.{mark_exited}

-- What happens to a session: its drain ends, or its child is reaped.
pub data Event : Type 0 where
  drained : Event
  child_reaped : Event

abbrev pub saw_drained : List Event → Bool
saw_drained [] = false
saw_drained (drained ∷ evs) = true
saw_drained (child_reaped ∷ evs) = saw_drained evs

abbrev pub saw_reaped : List Event → Bool
saw_reaped [] = false
saw_reaped (drained ∷ evs) = saw_reaped evs
saw_reaped (child_reaped ∷ evs) = true

module _ {Line : Type 0} (json : Json Line) (id code : ℕ) where
  -- The exit frame of a session, and its write.
  abbrev pub exit_frame : ℕ → List ℕ
  exit_frame n = frame 2 (json.to_vec (exit_code n))

  abbrev pub exit_write : AttachSession → Effect
  exit_write sess =
      write sess.stream_fd (exit_frame (Option.get_or sess.exit_code 0))
        (session_frame id sess.stream_fd (exit_frame (Option.get_or sess.exit_code 0)) 0)

  abbrev pub mark : Event → AttachSession → AttachSession
  mark drained sess = mark_drained sess
  mark child_reaped sess = mark_exited code sess

  abbrev pub sent : AttachSession → List Effect
  sent sess = if exit_ready sess then exit_write sess ∷ [] else []

  abbrev pub checked : AttachSession → AttachSession
  checked sess = if exit_ready sess then mark_exit_sent sess else sess

  -- The write of the exit frame that reports the child's exit code.
  abbrev pub exit_report : RawFd → Effect
  exit_report fd = write fd (exit_frame code) (session_frame id fd (exit_frame code) 0)

  -- The effects that the events leave on a session, event by event.
  abbrev pub sent_all : List Event → AttachSession → List Effect
  sent_all [] sess = []
  sent_all (ev ∷ evs) sess = sent (mark ev sess) ++ sent_all evs (checked (mark ev sess))

  pub exit_ready-sent : (sess : AttachSession) → sess.exit_sent ≡ true → exit_ready sess ≡ false
  exit_ready-sent sess h = ground arith

  sent_all-done :
      (evs : List Event) (sess : AttachSession) → sess.exit_sent ≡ true → sent_all evs sess ≡ []
  sent_all-done [] sess h = refl
  sent_all-done (drained ∷ evs) sess h =
      rw (exit_ready-sent (mark_drained sess) h) (sent_all-done evs (mark_drained sess) h)
  sent_all-done (child_reaped ∷ evs) sess h =
      rw (exit_ready-sent (mark_exited code sess) h) (sent_all-done evs (mark_exited code sess) h)

  exit_ready-both :
      (sess : AttachSession)
      → sess.drain_done ≡ true
      → sess.child_exited ≡ true
      → sess.exit_sent ≡ false
      → exit_ready sess ≡ true
  exit_ready-both sess d x h = ground arith

  exit_ready-running : (sess : AttachSession) → sess.child_exited ≡ false → exit_ready sess ≡ false
  exit_ready-running sess x = ground arith

  exit_ready-undrained : (sess : AttachSession) → sess.drain_done ≡ false → exit_ready sess ≡ false
  exit_ready-undrained sess d = ground arith

  sent_all-drained :
      (evs : List Event) (sess : AttachSession)
      → sess.exit_sent ≡ false
      → sess.drain_done ≡ true
      → sess.child_exited ≡ false
      → sent_all evs sess ≡ (if saw_reaped evs then exit_report sess.stream_fd ∷ [] else [])
  sent_all-drained [] sess h d x = refl
  sent_all-drained (drained ∷ evs) sess h d x =
      rw (exit_ready-running (mark_drained sess) x)
        (sent_all-drained evs (mark_drained sess) h refl x)
  sent_all-drained (child_reaped ∷ evs) sess h d x =
      rw (exit_ready-both (mark_exited code sess) d refl h) (
        ap (◌∷◌ (exit_report sess.stream_fd))
          (sent_all-done evs (mark_exit_sent (mark_exited code sess)) refl))

  sent_all-reaped :
      (evs : List Event) (sess : AttachSession)
      → sess.exit_sent ≡ false
      → sess.drain_done ≡ false
      → sess.child_exited ≡ true
      → sess.exit_code ≡ some code
      → sent_all evs sess ≡ (if saw_drained evs then exit_report sess.stream_fd ∷ [] else [])
  sent_all-reaped [] sess h d x c = refl
  sent_all-reaped (drained ∷ evs) sess h d x c =
      rw (exit_ready-both (mark_drained sess) refl x h, c)
        (ap (◌∷◌ (exit_report sess.stream_fd)) (
          sent_all-done evs (record (mark_exit_sent (mark_drained sess)) { exit_code = some code })
            refl))
  sent_all-reaped (child_reaped ∷ evs) sess h d x c =
      rw (exit_ready-undrained (mark_exited code sess) d)
        (sent_all-reaped evs (mark_exited code sess) h d refl refl)

  pub sent_all-fresh :
      (evs : List Event) (sess : AttachSession)
      → sess.exit_sent ≡ false
      → sess.drain_done ≡ false
      → sess.child_exited ≡ false
      → sent_all evs sess
        ≡ (if saw_drained evs && saw_reaped evs then exit_report sess.stream_fd ∷ [] else [])
  sent_all-fresh [] sess h d x = refl
  sent_all-fresh (drained ∷ evs) sess h d x =
      rw (exit_ready-running (mark_drained sess) x)
        (sent_all-drained evs (mark_drained sess) h refl x)
  sent_all-fresh (child_reaped ∷ evs) sess h d x =
      rw (exit_ready-undrained (mark_exited code sess) d) (
        sent_all-reaped evs (mark_exited code sess) h d refl refl
        ∙ ap (λ b. if b then exit_report sess.stream_fd ∷ [] else [])
            (sym (and-true (saw_drained evs))))
    where
      and-true : (b : Bool) → (b && true) ≡ b
      and-true true = refl
      and-true false = refl
