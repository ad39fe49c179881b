-- ===== src/Daemon/Detached.antt =====
-- A detached container's start and the dispatch of datagram requests (libs/core/src/daemon.rs).
use mathlib.Core.Option
use conrt.Base.{
  ℕ, ◌+◌, Bool, true, false, not, ◌&&◌, List, [], ◌∷◌, ◌++◌, Option, none, some, if◌then◌else◌,
  insert, update, RawFd, is_open, IoResult, ok, err,
}
use conrt.Daemon.State.{
  ContainerInfo, ContainerSummary, Effect, RunArgs, Request, close, run_ok, listed, error, run,
  list, kill, logs, attach, invalid_request, stdin_pipe_failed, prepare_failed, pty_failed,
  log_pipe_failed, clone_failed, container_aborted, attach_over_datagram,
}
use conrt.Daemon.Runtime.{Rt, with_global, emit_all, close_if_open}
use conrt.Daemon.Drains.{with_containers, arm_container_output, arm_container_pty_output}
use conrt.Daemon.Sessions.{Json}
use conrt.Daemon.Frames.{Pipe, Prepared, Host, close_both, close_read, write_end, new_container}
use conrt.Daemon.Dispatch.{Pty, acquire, prepare_run, drop_slave, master_of, drop_pty, args_of}
use conrt.Daemon.Requests.{
  FollowHost, summary, arm_datagram, reply_datagram, handle_follow, handle_logs, handle_kill,
}

-- The descriptors that a detached run has made before its clone3.
pub record RunFds : Type 0 where
  pub stdin_pipe : Pipe
  pub pty : Pty
  pub log_pipe : ℕ × ℕ

-- A failed run's open descriptors, in the order in which the code drops them.
abbrev pub drop_pty_in_order : Pty → List Effect
drop_pty_in_order none = []
drop_pty_in_order (some (master, slave)) = close (some master) ∷ close (some slave) ∷ []

-- One more drain of the container.
abbrev pub add_drain : ContainerInfo → ContainerInfo
add_drain info = record info { drains_pending = info.drains_pending + 1 }

-- The container with its output registered, and its drains armed: each is counted first.
unfoldable pub start_drains : ℕ → ContainerInfo → RawFd → Rt → Rt
unfolding arm_container_output arm_container_pty_output
start_drains pid info log_fd rt =
    let s = rt.global in
    let first = arm_container_output pid (
      with_containers (update pid add_drain) (
        with_global
          (record s {
            outputs = insert pid log_fd s.outputs;
            containers = insert pid info s.containers;
          })
          rt)) in
    if is_open info.ptm_fd
    then arm_container_pty_output pid (with_containers (update pid add_drain) first)
    else first

module _ {Line : Type 0} (json : Json Line) where
  -- The parent's side after a clone3 that gives `pid`.
  unfoldable pub start_detached : Host → ℕ → RunArgs → Prepared → RunFds → ℕ → Rt → Rt
  unfolding new_container start_drains reply_datagram
  start_detached host sender args prep fds pid rt =
      let log_read = some fds.log_pipe.0 in
      let stdin_fd = write_end fds.stdin_pipe in
      let ptm_fd = master_of fds.pty in
      let rt' =
        emit_all
          (close (some fds.log_pipe.1) ∷ []
            ++ drop_slave fds.pty
            ++ close_read prep.death_pipe
            ++ close_read fds.stdin_pipe)
          rt in
      if host.set_up
      then reply_datagram json sender (run_ok pid) (
          start_drains pid (new_container pid prep args.save host.now stdin_fd ptm_fd) log_read rt')
      else reply_datagram json sender (error container_aborted) (
          emit_all
            (close log_read ∷ []
              ++ close_if_open stdin_fd
              ++ close_if_open ptm_fd
              ++ close_if_open (write_end prep.death_pipe))
            rt')

  unfoldable pub clone_detached : Host → ℕ → RunArgs → Prepared → RunFds → Rt → Rt
  unfolding start_detached reply_datagram
  clone_detached host sender args prep fds rt = elim host.cloned [
    | some pid ↦ start_detached host sender args prep fds pid rt
    | none ↦ reply_datagram json sender (error clone_failed) (
        emit_all
          (close_both (some fds.log_pipe)
            ++ close_both fds.stdin_pipe
            ++ drop_pty_in_order fds.pty
            ++ close_both prep.death_pipe)
          rt)
  ]

  -- The pty and then the log pipe; a failure answers first, and drops what Rust owns. The stdin
  -- pipe and the death pipe are plain descriptors, which a failure here leaves open.
  unfoldable pub open_detached : Host → ℕ → RunArgs → Prepared → Pipe → Rt → Rt
  unfolding clone_detached reply_datagram
  open_detached host sender args prep stdin_pipe rt = elim (acquire args.tty host.pty) [
    | none ↦ reply_datagram json sender (error pty_failed) rt
    | some pty ↦ elim host.log_pipe [
      | none ↦ emit_all (drop_pty pty) (reply_datagram json sender (error log_pipe_failed) rt)
      | some log_pipe ↦
          clone_detached host sender args prep
            (record { stdin_pipe = stdin_pipe; pty = pty; log_pipe = log_pipe }) rt
    ]
  ]

  unfoldable pub handle_run : Host → ℕ → RunArgs → Rt → Rt
  unfolding prepare_run open_detached reply_datagram
  handle_run host sender args rt = elim (prepare_run host args) [
    | none ↦ reply_datagram json sender (error prepare_failed) rt
    | some prep ↦ elim (acquire (args.interactive && not args.tty) host.stdin_pipe) [
      | none ↦ reply_datagram json sender (error stdin_pipe_failed) rt
      | some stdin_pipe ↦ open_detached host sender args prep stdin_pipe rt
    ]
  ]

abbrev pub summaries : ℕ → List (ℕ × ContainerInfo) → List ContainerSummary
summaries now [] = []
summaries now ((pid, info) ∷ m) = summary now info ∷ summaries now m

module _ {Line : Type 0} (json : Json Line) (from_utf8_lossy : List ℕ → Line) where
  -- `sent` says whether the kill call succeeds. `none` says that the fuel of a log read ran out.
  unfoldable pub handle_datagram : Host → FollowHost → Bool → ℕ → Request → Rt → Option Rt
  unfolding handle_run handle_follow handle_logs handle_kill reply_datagram
  handle_datagram host follow_host sent sender list rt =
      some (reply_datagram json sender (listed (summaries host.now rt.global.containers)) rt)
  handle_datagram host follow_host sent sender (kill pid) rt =
      some (handle_kill json sent sender pid rt)
  handle_datagram host follow_host sent sender (logs pid true) rt =
      handle_follow json follow_host sender pid rt
  handle_datagram host follow_host sent sender (logs pid false) rt =
      handle_logs json from_utf8_lossy sender pid rt
  handle_datagram host follow_host sent sender (attach pid) rt =
      some (reply_datagram json sender (error attach_over_datagram) rt)
  handle_datagram host follow_host sent sender (run a b c d e f g h) rt =
      elim (args_of (run a b c d e f g h)) [
        | none ↦ some rt
        | some args ↦ some (handle_run json host sender args rt)
      ]

  -- A datagram of `bytes` from `sender`; an empty one is not answered.
  unfoldable pub on_datagram : Host → FollowHost → Bool → IoResult (ℕ × List ℕ) → Rt → Option Rt
  unfolding handle_datagram reply_datagram arm_datagram
  on_datagram host follow_host sent err rt = some (arm_datagram rt)
  on_datagram host follow_host sent (ok (sender, [])) rt = some (arm_datagram rt)
  on_datagram host follow_host sent (ok (sender, b ∷ bytes)) rt =
      elim (json.parse_request (b ∷ bytes)) [
        | none ↦ some (arm_datagram (reply_datagram json sender (error invalid_request) rt))
        | some request ↦
            Option.map arm_datagram (handle_datagram host follow_host sent sender request rt)
      ]
