-- ===== src/Daemon/Reap.antt =====
-- The signal reaper of libs/core/src/daemon.rs: it takes the results that wait4 gives in a row.
pub mod Events
pub mod Exit
pub mod Drained
pub mod Sweeps
pub mod Tracks
pub mod Checks
pub mod Children
use mathlib.Core.Option
use conrt.Base.{
  ℕ, zero, suc, ◌+◌, Bool, true, false, not, ◌||◌, List, [], ◌∷◌, ◌++◌, map, Option, none, some,
  ltb, ◌==◌, if◌then◌else◌, Map, lookup, insert, remove, update, RawFd, is_open, IoResult, ok, err,
}
use conrt.Logs.Gateway
use conrt.Daemon.State.{
  DaemonState, ContainerInfo, AttachSession, OpLocal, Effect, close, read, sigchld,
}
use conrt.Daemon.Runtime.{Rt, with_global, emit, emit_all, submit_, close_if_open}
use conrt.Daemon.Drains.{cleanup_of}
use conrt.Daemon.Sessions.{Json, with_sessions}
use conrt.Daemon.Output.{maybe_finish_session}

-- A wait status, as the macros WIFEXITED, WIFSIGNALED and their kin take it apart.
pub data Status : Type 0 where
  exited : ℕ → Status
  signaled : ℕ → Status
  other : Status

unfoldable pub exit_code_of : Status → ℕ
exit_code_of (exited n) = n
exit_code_of (signaled n) = 128 + n
exit_code_of other = 1

-- One call of wait4 with WNOHANG: a child that is reaped, none that is ready, or an error.
pub data Wait : Type 0 where
  reaped : (pid : ℕ) → Status → Wait
  no_child : Wait
  wait_failed : Wait

-- `attach_sessions.iter().find_map(..)`, in the order of the list.
unfoldable pub find_session : ℕ → Map AttachSession → Option ℕ
find_session pid [] = none
find_session pid ((id, sess) ∷ m) =
    if sess.container_pid == pid then some id else find_session pid m

abbrev pub mark_exited : ℕ → AttachSession → AttachSession
mark_exited code sess = record sess { child_exited = true; exit_code = some code }

-- The container of a reaped child leaves, unless one of its drains still runs.
unfoldable pub remove_reaped : ℕ → Rt → Rt
remove_reaped pid rt = elim (lookup pid rt.global.containers) [
  | none ↦ rt
  | some info ↦
      let (_, closed) = Gateway.close_all_pipes info.gateway in
      let s = rt.global in
      if ltb 0 info.drains_pending
      then rt
      else emit_all
          (close_if_open info.ptm_fd
            ++ close_if_open info.stdin_fd
            ++ close_if_open info.death_pipe_write
            ++ map close closed
            ++ cleanup_of info)
          (with_global
            (record s {
              containers = remove pid s.containers;
              log_graveyard = insert pid info.gateway.cache s.log_graveyard;
            })
            rt)
]

-- One reaped child: the session to check after the sweep, and the runtime. A pid that is neither a
-- container's nor a session's changes nothing.
unfoldable pub reap_child : ℕ → Status → Rt → List ℕ × Rt
unfolding find_session exit_code_of remove_reaped
reap_child pid status rt = elim (find_session pid rt.global.attach_sessions) [
  | none ↦ ([], remove_reaped pid rt)
  | some id ↦ (
    id ∷ [],
    remove_reaped pid (with_sessions (update id (mark_exited (exit_code_of status))) rt),
  )
]

-- The loop over wait4, which ends at the first result that is not a child; so does an empty list.
unfoldable pub reap_all : List Wait → Rt → List ℕ × Rt
unfolding reap_child
reap_all [] rt = ([], rt)
reap_all (reaped pid status ∷ ws) rt =
    let (ids, rt') = reap_child pid status rt in
    let (rest, rt'') = reap_all ws rt' in (ids ++ rest, rt'')
reap_all (no_child ∷ ws) rt = ([], rt)
reap_all (wait_failed ∷ ws) rt = ([], rt)

unfoldable pub arm_sigchld : Rt → Rt
arm_sigchld rt = submit_ (read rt.global.sigchld_fd 128 sigchld) rt

module _ {Line : Type 0} (json : Json Line) where
  abbrev pub finish_sessions : List ℕ → Rt → Rt
  finish_sessions [] rt = rt
  finish_sessions (id ∷ ids) rt = finish_sessions ids (maybe_finish_session json id rt)

  unfoldable pub reap_children : List Wait → Rt → Rt
  unfolding reap_all
  reap_children ws rt = let (ids, rt') = reap_all ws rt in finish_sessions ids rt'

  -- `ws` are the results of wait4 that the sweep would see.
  unfoldable pub on_sigchld : IoResult (List ℕ) → List Wait → Rt → Rt
  unfolding reap_children arm_sigchld
  on_sigchld err ws rt = rt
  on_sigchld (ok []) ws rt = arm_sigchld rt
  on_sigchld (ok (b ∷ bytes)) ws rt = arm_sigchld (reap_children ws rt)
