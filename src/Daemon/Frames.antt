-- ===== src/Daemon/Frames.antt =====
-- The client frames of an attach session in libs/core/src/daemon.rs: their payload, what each type
-- asks for, and the start of a session by an attach or a run. What the kernel answers is an argument.
use conrt.Base.{
  ℕ, ◌+◌, Bool, true, false, List, [], ◌∷◌, ◌++◌, Option, none, some, if◌then◌else◌, lookup, insert,
  update, RawFd, is_open,
}
use conrt.Logs.Gateway
use conrt.Daemon.State.{
  ContainerInfo, AttachSession, Effect, Text, RunArgs, Failure, log_capacity, close, run_ok, error,
  container_not_found,
}
use conrt.Daemon.Runtime.{Rt, with_global}
use conrt.Daemon.Sessions.{Json, close_session, arm_session_frame}
use conrt.Daemon.Output.{write_frame_now, session_stream_fd, arm_session_output}

-- A new pipe, by its read and write end; `none` says that pipe2 has failed.
abbrev pub Pipe : Type 0
Pipe = Option (ℕ × ℕ)

-- What `prepare_run` gives to the parent.
pub record Prepared : Type 0 where
  pub command : Text
  pub overlay_dir : Option Text
  pub death_pipe : Pipe

-- What the kernel and `prepare_run` answer a run: a pty is its master and its slave, and `set_up`
-- says whether `parent_setup_maps_and_signal` succeeds.
pub record Host : Type 0 where
  pub prepared : RunArgs → Option Prepared
  pub stdin_pipe : Pipe
  pub pty : Option (ℕ × ℕ)
  pub log_pipe : Pipe
  pub cloned : Option ℕ
  pub set_up : Bool
  pub now : ℕ

-- Both ends of the death pipe.
abbrev pub close_both : Pipe → List Effect
close_both none = []
close_both (some (r, w)) = close (some r) ∷ close (some w) ∷ []

-- `prep.death_pipe` in the parent: the read end is closed, the write end kept.
abbrev pub close_read : Pipe → List Effect
close_read none = []
close_read (some (r, w)) = close (some r) ∷ []

abbrev pub write_end : Pipe → RawFd
write_end none = none
write_end (some (r, w)) = some w

abbrev pub read_end : Pipe → RawFd
read_end none = none
read_end (some (r, w)) = some r

unfoldable pub new_container :
    ℕ → Prepared → (save : Bool) → (now : ℕ) → (stdin_fd ptm_fd : RawFd) → ContainerInfo
unfolding Gateway.new
new_container pid prep save now stdin_fd ptm_fd = record {
  pid = pid;
  command = prep.command;
  overlay_dir = prep.overlay_dir;
  save = save;
  start_time = now;
  gateway = Gateway.new log_capacity;
  stdin_fd = stdin_fd;
  ptm_fd = ptm_fd;
  death_pipe_write = write_end prep.death_pipe;
  drains_pending = 0;
}

-- `gateway.pipes.push(AsyncPipeWriter::new(pipe_id, fd))`
abbrev pub attach_pipe : ℕ → RawFd → ContainerInfo → ContainerInfo
unfolding Gateway.new_writer
attach_pipe pipe_id fd info = record info {
  gateway = record info.gateway {
    pipes = info.gateway.pipes ++ Gateway.new_writer pipe_id fd ∷ [];
  };
}

-- The descriptor that an attached client's input goes to.
abbrev pub input_of : ContainerInfo → RawFd
input_of info = if is_open info.ptm_fd then info.ptm_fd else info.stdin_fd

abbrev pub wire_attach : ℕ → RawFd → RawFd → AttachSession → AttachSession
wire_attach pid log_read_fd input_fd sess = record sess {
  log_read_fd = log_read_fd;
  input_fd = input_fd;
  container_pid = pid;
}

abbrev pub wire_run : ℕ → RawFd → RawFd → AttachSession → AttachSession
wire_run pid ptm_fd log_read_fd sess = record sess {
  ptm_fd = ptm_fd;
  log_read_fd = log_read_fd;
  container_pid = pid;
}

module _ {Line : Type 0} (json : Json Line) where
  -- `err` of a run inside a session: the response goes out before the close.
  unfoldable pub refuse : ℕ → RawFd → Failure → Rt → Rt
  unfolding write_frame_now close_session
  refuse id stream_fd failure rt =
      close_session id (write_frame_now stream_fd 1 (json.to_vec (error failure)) rt)

  -- A new pipe is registered with the container's gateway, and the session wired to its read end.
  unfoldable pub join_container : ℕ → ℕ → ContainerInfo → (r w : ℕ) → Rt → Rt
  join_container id pid info r w rt =
      let s = rt.global in
      with_global
        (record s {
          next_pipe_id = s.next_pipe_id + 1;
          containers = insert pid (attach_pipe s.next_pipe_id (some w) info) s.containers;
          attach_sessions = update id (wire_attach pid (some r) (input_of info)) s.attach_sessions;
        })
        rt

  -- `true` says that the session goes on.
  unfoldable pub handle_attach : Pipe → ℕ → ℕ → Rt → Bool × Rt
  unfolding refuse join_container close_session session_stream_fd arm_session_frame
      arm_session_output
  handle_attach pipe id pid rt = elim (lookup pid rt.global.containers) [
    | none ↦ (
      false,
      (if is_open (session_stream_fd id rt)
          then refuse id (session_stream_fd id rt) (container_not_found pid) rt
          else close_session id rt),
    )
    | some info ↦ elim pipe [
      | none ↦ (false, close_session id rt)
      | some (r, w) ↦
          let rt' = join_container id pid info r w rt in
          let stream_fd = session_stream_fd id rt' in
          if is_open stream_fd
          then (
            true,
            arm_session_output json id
                (arm_session_frame id stream_fd 1 (json.to_vec (run_ok pid)) rt'),
          )
          else (false, close_session id rt')
    ]
  ]
