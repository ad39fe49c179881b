-- ===== src/Daemon/Sessions.antt =====
-- The attach sessions of libs/core/src/daemon.rs: accepting a client, its frames, and its end.
-- `json` stands for serde_json: which request or window size some bytes parse to, and the bytes of
-- a response. Each buffer allocation of `pool_alloc` succeeds; the source aborts where it does not.
pub mod Close
pub mod Frames
use mathlib.Core.Option
use conrt.Base.{
  ℕ, zero, suc, ◌+◌, ◌-◌, ◌*◌, ◌/◌, ◌%◌, Bool, true, false, not, ◌&&◌, ◌||◌, List, [], ◌∷◌, ◌++◌,
  map, Option, none, some, length, take, drop, get_or, ltb, leb, ◌==◌, if◌then◌else◌, lookup,
  insert, remove, update, RawFd, is_open, IoResult, ok, err,
}
use conrt.Daemon.State.{
  DaemonState, AttachSession, OpLocal, Effect, Request, Response, Op, exit_code, close, read, write,
  accept, accept_on, cancel, resize, session_header, session_payload, session_frame, session_stdin,
}
use conrt.Daemon.Runtime.{Rt, with_global, emit, emit_all, submit, submit_, close_if_open}

-- What serde_json does.
pub record Json (Line : Type 0) : Type 0 where
  pub parse_request : List ℕ → Option Request
  pub parse_winsize : List ℕ → Option (ℕ × ℕ)
  pub to_vec : Response Line → List ℕ

abbrev pub session : ℕ → Rt → Option AttachSession
session id rt = lookup id rt.global.attach_sessions

abbrev pub with_sessions : (List (ℕ × AttachSession) → List (ℕ × AttachSession)) → Rt → Rt
with_sessions f rt =
    with_global (record rt.global { attach_sessions = f rt.global.attach_sessions }) rt

-- `attach_sessions.get(&id).map(|s| s.stream_fd).unwrap_or(-1)`
abbrev pub stream_of : ℕ → Rt → RawFd
stream_of id rt = elim (session id rt) [ none ↦ none | some sess ↦ sess.stream_fd ]

-- `SessionOp`
pub data SessionOp : Type 0 where
  read_slot output_slot : SessionOp

abbrev pub set_op : SessionOp → Option Op → AttachSession → AttachSession
set_op read_slot op sess = record sess { read_op = op }
set_op output_slot op sess = record sess { output_op = op }

unfoldable pub store_session_op : ℕ → SessionOp → Option Op → Rt → Rt
store_session_op id which op rt = with_sessions (update id (set_op which op)) rt

-- `let op = rt.read_provided(..); if let Ok(op) = op { store_session_op(.., Some(op)) }`
unfoldable pub submit_stored : ℕ → SessionOp → Effect → Rt → Rt
unfolding store_session_op
submit_stored id which e rt =
    let (op, rt') = submit e rt in
    elim op [ none ↦ rt' | some n ↦ store_session_op id which (some n) rt' ]

abbrev pub cancels : Option Op → List Effect
cancels none = []
cancels (some op) = cancel op ∷ []

unfoldable pub close_session : ℕ → Rt → Rt
close_session id rt = elim (session id rt) [
  | none ↦ rt
  | some sess ↦
      emit_all (cancels sess.read_op ++ cancels sess.output_op ++ close_if_open sess.stream_fd)
        (with_sessions (remove id) rt)
]

-- `u16::to_le_bytes`
abbrev pub le_bytes : ℕ → List ℕ
le_bytes n = n % 256 ∷ n / 256 % 256 ∷ []

-- A frame: its type, the length of the payload as a `u16`, and the payload.
unfoldable pub frame : ℕ → List ℕ → List ℕ
frame frame_type payload = frame_type ∷ (le_bytes (length payload) ++ payload)

unfoldable pub arm_session_frame : ℕ → RawFd → ℕ → List ℕ → Rt → Rt
unfolding frame
arm_session_frame id stream_fd frame_type payload rt =
    let buf = frame frame_type payload in
    submit_ (write stream_fd buf (session_frame id stream_fd buf 0)) rt

unfoldable pub session_is_exit : ℕ → Rt → Bool
session_is_exit id rt = elim (session id rt) [ none ↦ false | some sess ↦ sess.exit_sent ]

unfoldable pub on_session_frame : ℕ → RawFd → List ℕ → ℕ → IoResult ℕ → Rt → Rt
unfolding close_session session_is_exit
on_session_frame id stream_fd buf off (ok n) rt =
    if leb (length buf) (off + n)
    then (if session_is_exit id rt then close_session id rt else rt)
    else submit_ (write stream_fd (drop (off + n) buf) (session_frame id stream_fd buf (off + n)))
        rt
on_session_frame id stream_fd buf off err rt = close_session id rt

unfoldable pub arm_session_read : ℕ → Rt → Rt
unfolding submit_stored
arm_session_read id rt = elim (session id rt) [
  | none ↦ rt
  | some sess ↦ submit_stored id read_slot (read sess.stream_fd 3 (session_header id [])) rt
]

unfoldable pub arm_accept : Rt → Rt
arm_accept rt = submit_ (accept_on rt.global.attach_listener_fd accept) rt

abbrev pub fresh_session : RawFd → AttachSession
fresh_session stream_fd = record {
  stream_fd = stream_fd;
  ptm_fd = none;
  input_fd = none;
  log_read_fd = none;
  container_pid = 0;
  child_exited = false;
  exit_code = none;
  drain_done = false;
  exit_sent = false;
  read_op = none;
  output_op = none;
}

unfoldable pub on_accept : IoResult RawFd → Rt → Rt
unfolding arm_accept arm_session_read
on_accept err rt = arm_accept rt
on_accept (ok stream_fd) rt =
    let s = rt.global in
    let id = s.next_session_id in
    arm_accept (
      arm_session_read id (
        with_global
          (record s {
            attach_sessions = insert id (fresh_session stream_fd) s.attach_sessions;
            next_session_id = id + 1;
          })
          rt))

-- `n.max(1)`
abbrev pub at_least_one : ℕ → ℕ
at_least_one n = if n == 0 then 1 else n

unfoldable pub on_session_header : ℕ → List ℕ → IoResult (List ℕ) → Rt → Rt
unfolding close_session submit_stored store_session_op
on_session_header id acc err rt = close_session id rt
on_session_header id acc (ok []) rt = close_session id rt
on_session_header id acc (ok (b ∷ bs)) rt =
    let acc' = acc ++ b ∷ bs in
    let frame_len = get_or acc' 1 0 + 256 * get_or acc' 2 0 in
    let rt' = store_session_op id read_slot none rt in
    if ltb (length acc') 3
    then submit_stored id read_slot (read (stream_of id rt) 3 (session_header id acc')) rt
    else submit_stored id read_slot
        (read (stream_of id rt) (at_least_one frame_len)
          (session_payload id (get_or acc' 0 0) [] frame_len))
        rt'

-- The descriptor that client input goes to.
abbrev pub stdin_of : AttachSession → RawFd
stdin_of sess = if is_open sess.ptm_fd then sess.ptm_fd else sess.input_fd

abbrev pub stdin_fd_of : ℕ → Rt → RawFd
stdin_fd_of id rt = elim (session id rt) [ none ↦ none | some sess ↦ stdin_of sess ]

unfoldable pub arm_session_stdin : ℕ → RawFd → List ℕ → Rt → Rt
arm_session_stdin id fd buf rt = submit_ (write fd buf (session_stdin id buf 0)) rt

unfoldable pub on_session_stdin : ℕ → List ℕ → ℕ → IoResult ℕ → Rt → Rt
on_session_stdin id buf off err rt = rt
on_session_stdin id buf off (ok n) rt =
    if ltb (off + n) (length buf)
    then submit_ (write (stdin_fd_of id rt) (drop (off + n) buf) (session_stdin id buf (off + n)))
        rt
    else rt

-- Frame 0x11: the first open one of the session's input descriptors is closed.
abbrev pub without_input : AttachSession → AttachSession
without_input sess =
    if is_open sess.ptm_fd then record sess { ptm_fd = none } else record sess { input_fd = none }

unfoldable pub end_stdin : ℕ → Rt → Rt
end_stdin id rt =
    emit_all (close_if_open (stdin_fd_of id rt)) (with_sessions (update id without_input) rt)
