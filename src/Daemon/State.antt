-- ===== src/Daemon/State.antt =====
-- The daemon's state, requests and responses, per-op locals and outside effects
-- (libs/core/src/daemon.rs). Process ids, sizes and descriptors are numbers, paths and commands are
-- byte lists; a `Bytes` buffer is its contents.
use conrt.Base.{ℕ, Bool, List, [], Option, none, Map, RawFd}
use conrt.Logs.Cache.{LogCache}
use conrt.Logs.Gateway.{LogGateway}

abbrev pub Text : Type 0
Text = List ℕ

-- LOG_CAPACITY
abbrev pub log_capacity : ℕ
log_capacity = 65536

pub data Request : Type 0 where
  run :
      (rootfs : Option Text) (net_pid : Option ℕ) (save : Bool) (command : List Text)
      (interactive tty : Option Bool) (no_init : Bool) (init_path : Option Text)
      → Request
  list : Request
  kill : (pid : ℕ) → Request
  logs : (pid : ℕ) (follow : Bool) → Request
  attach : (pid : ℕ) → Request

pub record RunArgs : Type 0 where
  pub rootfs : Option Text
  pub net_pid : Option ℕ
  pub save : Bool
  pub command : List Text
  pub tty : Bool
  pub interactive : Bool
  pub no_init : Bool
  pub init_path : Option Text

pub record ContainerSummary : Type 0 where
  pub pid : ℕ
  pub command : Text
  pub age : ℕ

-- The `error` text of a response, by the message it is formatted from.
pub data Failure : Type 0 where
  container_not_found : ℕ → Failure
  invalid_request prepare_failed stdin_pipe_failed pty_failed log_pipe_failed clone_failed : Failure
  container_aborted kill_failed pipe_failed attach_over_datagram : Failure

-- `RunResponse`, `ListResponse`, `KillResponse`, `LogsResponse`, `ErrorResponse`, and the object
-- `{ "exit_code": .. }`. `lines` are the strings that the lines' bytes are converted to.
pub data Response (Line : Type 0) : Type 0 where
  run_ok : ℕ → Response Line
  listed : List ContainerSummary → Response Line
  killed : Response Line
  kill_error : Failure → Response Line
  lines : List Line → Response Line
  error : Failure → Response Line
  exit_code : ℕ → Response Line

pub record ContainerInfo : Type 0 where
  pub pid : ℕ
  pub command : Text
  pub overlay_dir : Option Text
  pub save : Bool
  pub start_time : ℕ
  pub gateway : LogGateway
  pub stdin_fd : RawFd
  pub ptm_fd : RawFd
  pub death_pipe_write : RawFd
  pub drains_pending : ℕ

-- The handle of an op in flight, by its dispatch number.
abbrev pub Op : Type 0
Op = ℕ

pub record AttachSession : Type 0 where
  pub stream_fd : RawFd
  pub ptm_fd : RawFd
  pub input_fd : RawFd
  pub log_read_fd : RawFd
  pub container_pid : ℕ
  pub child_exited : Bool
  pub exit_code : Option ℕ
  pub drain_done : Bool
  pub exit_sent : Bool
  pub read_op : Option Op
  pub output_op : Option Op

-- `outputs` maps a container to the read end of its output pipe (`Output.fd`).
pub record DaemonState : Type 0 where
  pub datagram_fd : RawFd
  pub attach_listener_fd : RawFd
  pub sigchld_fd : RawFd
  pub containers : Map ContainerInfo
  pub outputs : Map RawFd
  pub log_graveyard : Map LogCache
  pub next_pipe_id : ℕ
  pub attach_sessions : Map AttachSession
  pub next_session_id : ℕ

unfoldable pub new : DaemonState
new = record {
  datagram_fd = none;
  attach_listener_fd = none;
  sigchld_fd = none;
  containers = [];
  outputs = [];
  log_graveyard = [];
  next_pipe_id = 0;
  attach_sessions = [];
  next_session_id = 0;
}

-- What an op keeps until its completion callback, which the constructor also names.
pub data OpLocal : Type 0 where
  datagram_peek : OpLocal
  datagram : OpLocal
  follow_send : (close_after : RawFd) → OpLocal
  accept : OpLocal
  sigchld : OpLocal
  container_output : (pid : ℕ) (line_buf : List ℕ) → OpLocal
  container_pty_output : (pid : ℕ) (line_buf : List ℕ) → OpLocal
  follow_write : (pid pipe_id : ℕ) (fd : RawFd) (chunks : List (List ℕ)) → OpLocal
  session_header : (session_id : ℕ) (acc : List ℕ) → OpLocal
  session_payload : (session_id frame_type : ℕ) (acc : List ℕ) (need : ℕ) → OpLocal
  session_frame : (session_id : ℕ) (stream_fd : RawFd) (buf : List ℕ) (off : ℕ) → OpLocal
  session_data_header :
      (session_id : ℕ) (stream_fd : RawFd) (header payload : List ℕ) (off : ℕ) → OpLocal
  session_data_payload : (session_id : ℕ) (stream_fd : RawFd) (payload : List ℕ) (off : ℕ) → OpLocal
  session_output_read : (session_id : ℕ) → OpLocal
  session_stdin : (session_id : ℕ) (buf : List ℕ) (off : ℕ) → OpLocal

-- What the daemon asks of the kernel. An op comes with the local that its callback gets.
pub data Effect : Type 0 where
  close : RawFd → Effect
  read : (fd : RawFd) (max_len : ℕ) → OpLocal → Effect
  write : (fd : RawFd) (bytes : List ℕ) → OpLocal → Effect
  accept_on : RawFd → OpLocal → Effect
  receive : (fd : RawFd) (peek : Bool) → OpLocal → Effect
  send_fd : (fd : RawFd) (passed : RawFd) → OpLocal → Effect
  cancel : Op → Effect
  write_now : (fd : RawFd) (bytes : List ℕ) → Effect
  send_to : (fd : RawFd) (sender : ℕ) (bytes : List ℕ) → Effect
  kill_process : ℕ → Effect
  resize : (fd : RawFd) (rows cols : ℕ) → Effect
  cleanup_overlay : Text → Effect
