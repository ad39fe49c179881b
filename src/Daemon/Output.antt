-- ===== src/Daemon/Output.antt =====
-- The output drain of an attach session in libs/core/src/daemon.rs: what the container writes goes
-- to the client in frames of type 0x10, and the exit frame of type 0x02 follows when the drain is
-- done and the child is reaped.
use mathlib.Core.Option
use conrt.Base.{
  ℕ, ◌+◌, Bool, true, not, ◌&&◌, List, [], ◌∷◌, none, some, length, drop, ltb, leb, if◌then◌else◌,
  insert, update, RawFd, is_open, IoResult, ok, err,
}
use conrt.Daemon.State.{
  AttachSession, exit_code, read, write, write_now, session_data_header, session_data_payload,
  session_output_read,
}
use conrt.Daemon.Runtime.{Rt, emit, submit, submit_}
use conrt.Daemon.Sessions.{
  Json, session, with_sessions, output_slot, store_session_op, submit_stored, le_bytes, frame,
  arm_session_frame,
}

-- Drained, the child reaped, and the exit frame not sent yet.
abbrev pub exit_ready : AttachSession → Bool
exit_ready sess = (sess.drain_done && sess.child_exited) && not sess.exit_sent

abbrev pub mark_exit_sent : AttachSession → AttachSession
mark_exit_sent sess = record sess { exit_sent = true }

abbrev pub mark_drained : AttachSession → AttachSession
mark_drained sess = record sess { drain_done = true }

unfoldable pub write_frame_now : RawFd → ℕ → List ℕ → Rt → Rt
unfolding frame
write_frame_now stream_fd frame_type payload rt =
    emit (write_now stream_fd (frame frame_type payload)) rt

-- The session's open stream.
unfoldable pub session_stream_fd : ℕ → Rt → RawFd
session_stream_fd id rt = elim (session id rt) [ none ↦ none | some sess ↦ sess.stream_fd ]

-- Where the session's output comes from.
abbrev pub output_of : AttachSession → RawFd
output_of sess = if is_open sess.ptm_fd then sess.ptm_fd else sess.log_read_fd

abbrev pub output_fd_of : ℕ → Rt → RawFd
output_fd_of id rt = elim (session id rt) [ none ↦ none | some sess ↦ output_of sess ]

module _ {Line : Type 0} (json : Json Line) where
  unfoldable pub maybe_finish_session : ℕ → Rt → Rt
  unfolding arm_session_frame
  maybe_finish_session id rt = elim (session id rt) [
    | none ↦ rt
    | some sess ↦
        if exit_ready sess
        then arm_session_frame id sess.stream_fd 2
            (json.to_vec (exit_code (Option.get_or sess.exit_code 0)))
            (with_sessions (insert id (mark_exit_sent sess)) rt)
        else rt
  ]

  unfoldable pub finish_session_output : ℕ → Rt → Rt
  unfolding maybe_finish_session
  finish_session_output id rt = maybe_finish_session id (with_sessions (update id mark_drained) rt)

  unfoldable pub arm_session_output : ℕ → Rt → Rt
  unfolding finish_session_output submit_stored
  arm_session_output id rt =
      if is_open (output_fd_of id rt)
      then submit_stored id output_slot (read (output_fd_of id rt) 4096 (session_output_read id)) rt
      else finish_session_output id rt

  unfoldable pub on_session_output : ℕ → IoResult (List ℕ) → Rt → Rt
  unfolding finish_session_output store_session_op session_stream_fd
  on_session_output id err rt = finish_session_output id (store_session_op id output_slot none rt)
  on_session_output id (ok []) rt =
      finish_session_output id (store_session_op id output_slot none rt)
  on_session_output id (ok (b ∷ bytes)) rt =
      let rt' = store_session_op id output_slot none rt in
      let stream_fd = session_stream_fd id rt' in
      let header = 16 ∷ le_bytes (length (b ∷ bytes)) in
      let (op, rt'') =
        submit (write stream_fd header (session_data_header id stream_fd header (b ∷ bytes) 0))
          rt' in
      if is_open stream_fd
      then elim op [ none ↦ finish_session_output id rt'' | some n ↦ rt'' ]
      else finish_session_output id rt'

  unfoldable pub on_session_data_header : ℕ → RawFd → List ℕ → List ℕ → ℕ → IoResult ℕ → Rt → Rt
  unfolding finish_session_output
  on_session_data_header id stream_fd header payload off (ok n) rt =
      if ltb (off + n) (length header)
      then submit_
          (write stream_fd (drop (off + n) header)
            (session_data_header id stream_fd header payload (off + n)))
          rt
      else submit_ (write stream_fd payload (session_data_payload id stream_fd payload 0)) rt
  on_session_data_header id stream_fd header payload off err rt = finish_session_output id rt

  unfoldable pub on_session_data_payload : ℕ → RawFd → List ℕ → ℕ → IoResult ℕ → Rt → Rt
  unfolding arm_session_output finish_session_output
  on_session_data_payload id stream_fd payload off (ok n) rt =
      if leb (length payload) (off + n)
      then arm_session_output id rt
      else submit_
          (write stream_fd (drop (off + n) payload)
            (session_data_payload id stream_fd payload (off + n)))
          rt
  on_session_data_payload id stream_fd payload off err rt = finish_session_output id rt
