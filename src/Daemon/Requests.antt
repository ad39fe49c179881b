-- ===== src/Daemon/Requests.antt =====
-- The datagram requests of libs/core/src/daemon.rs: receiving one, answering it, following a
-- container's log, and running a detached container. What the kernel answers is an argument.
pub mod Backlog
use mathlib.Core.Option
use conrt.Base.{
  ℕ, zero, suc, ◌+◌, ◌-◌, Bool, true, false, not, ◌&&◌, List, [], ◌∷◌, ◌++◌, map, Option, none,
  some, length, take, drop, ltb, leb, ◌==◌, if◌then◌else◌, lookup, insert, update, RawFd, is_open,
  IoResult, ok, err,
}
use conrt.Logs.Cache
use conrt.Logs.Gateway
use conrt.Daemon.State.{
  DaemonState, ContainerInfo, ContainerSummary, OpLocal, Effect, RunArgs, Request, Response,
  Failure, close, write_now, receive, send_fd, send_to, kill_process, run_ok, listed, killed,
  kill_error, lines, error, run, list, kill, logs, attach, datagram_peek, datagram, follow_send,
  container_not_found, invalid_request, stdin_pipe_failed, prepare_failed, pty_failed,
  log_pipe_failed, clone_failed, container_aborted, kill_failed, pipe_failed, attach_over_datagram,
}
use conrt.Daemon.Runtime.{Rt, with_global, emit, emit_all, submit, submit_, close_if_open}
use conrt.Daemon.Drains.{with_containers, log_fuel, arm_container_output, arm_container_pty_output}
use conrt.Daemon.Sessions.{Json}
use conrt.Daemon.Frames.{
  Pipe, Prepared, Host, close_both, close_read, write_end, read_end, new_container, attach_pipe,
}

-- What the kernel answers a follow request: its pipe, and each write of the backlog, by its number.
-- `slot_made` and `slot_fits` say whether the message for the descriptor is built.
pub record FollowHost : Type 0 where
  pub pipe : Pipe
  pub backlog_write : ℕ → IoResult ℕ
  pub slot_made : Bool
  pub slot_fits : Bool

-- `age` of a container; the clock may stand before the start.
abbrev pub summary : ℕ → ContainerInfo → ContainerSummary
summary now info = record { pid = info.pid; command = info.command; age = now - info.start_time }

unfoldable pub arm_datagram : Rt → Rt
arm_datagram rt = submit_ (receive rt.global.datagram_fd true datagram_peek) rt

unfoldable pub on_datagram_peek : IoResult ℕ → Rt → Rt
unfolding arm_datagram
on_datagram_peek err rt = arm_datagram rt
on_datagram_peek (ok n) rt =
    let (op, rt') = submit (receive rt.global.datagram_fd false datagram) rt in
    elim op [ none ↦ arm_datagram rt' | some id ↦ rt' ]

unfoldable pub on_follow_send : RawFd → IoResult ℕ → Rt → Rt
on_follow_send close_after res rt = emit (close close_after) rt

-- The writes of the backlog that is left, with the number of the first one: whether none failed,
-- and the calls made. A write of zero bytes ends the loop. `none` says that the fuel ran out.
unfoldable pub write_backlog :
    ℕ → (ℕ → IoResult ℕ) → ℕ → RawFd → List ℕ → Option (Bool × List Effect)
write_backlog fuel host i fd [] = some (true, [])
write_backlog zero host i fd (b ∷ bs) = none
write_backlog (suc fuel) host i fd (b ∷ bs) =
    let call = write_now fd (b ∷ bs) in
    elim (host i) [
      | err ↦ some (false, call ∷ [])
      | ok zero ↦ some (true, call ∷ [])
      | ok (suc n) ↦
          Option.map (λ r. (r.0, call ∷ r.1))
            (write_backlog fuel host (suc i) fd (drop (suc n) (b ∷ bs)))
    ]

abbrev pub close_ends : (r w : ℕ) → List Effect
close_ends r w = close (some w) ∷ close (some r) ∷ []

-- The read end goes to the client; it is closed here when the send completes.
unfoldable pub pass_fd : FollowHost → (r w : ℕ) → Rt → Rt
pass_fd host r w rt =
    if not host.slot_made
    then rt
    else (if not host.slot_fits
        then emit_all (close_ends r w) rt
        else submit_ (send_fd rt.global.datagram_fd (some r) (follow_send (some r))) rt)

-- No handler runs while the backlog is written, so the container is still there.
unfoldable pub follow_container : FollowHost → ℕ → ContainerInfo → (r w : ℕ) → Rt → Option Rt
unfolding write_backlog pass_fd Cache.snapshot
follow_container host pid info r w rt =
    let backlog = Cache.snapshot info.gateway.cache in
    Option.map
      (λ res.
        let rt' = emit_all res.1 rt in
        let s = rt'.global in
        if not res.0
        then emit_all (close_ends r w) rt'
        else pass_fd host r w (
            with_global
              (record s {
                next_pipe_id = s.next_pipe_id + 1;
                containers = insert pid (attach_pipe s.next_pipe_id (some w) info) s.containers;
              })
              rt'))
      (write_backlog (length backlog) host.backlog_write 0 (some w) backlog)

module _ {Line : Type 0} (json : Json Line) where
  unfoldable pub reply_datagram : ℕ → Response Line → Rt → Rt
  reply_datagram sender resp rt = emit (send_to rt.global.datagram_fd sender (json.to_vec resp)) rt

  unfoldable pub handle_follow : FollowHost → ℕ → ℕ → Rt → Option Rt
  unfolding reply_datagram follow_container
  handle_follow host sender pid rt = elim (lookup pid rt.global.containers) [
    | none ↦ some (reply_datagram sender (error (container_not_found pid)) rt)
    | some info ↦ elim host.pipe [
      | none ↦ some (reply_datagram sender (error pipe_failed) rt)
      | some (r, w) ↦ follow_container host pid info r w rt
    ]
  ]

  -- `sent` says whether the kill call succeeds.
  unfoldable pub handle_kill : Bool → ℕ → ℕ → Rt → Rt
  unfolding reply_datagram
  handle_kill sent sender pid rt = elim (lookup pid rt.global.containers) [
    | none ↦ reply_datagram sender (kill_error (container_not_found pid)) rt
    | some info ↦
        reply_datagram sender (if sent then killed else kill_error kill_failed)
          (emit (kill_process pid) rt)
  ]

module _ {Line : Type 0} (json : Json Line) (from_utf8_lossy : List ℕ → Line) where
  -- The container's log, from its gateway or from the graveyard.
  abbrev pub log_of : ℕ → Rt → Option Cache.LogCache
  log_of pid rt = elim (lookup pid rt.global.containers) [
    | some info ↦ some info.gateway.cache
    | none ↦ lookup pid rt.global.log_graveyard
  ]

  unfoldable pub handle_logs : ℕ → ℕ → Rt → Option Rt
  unfolding reply_datagram Cache.collect_lines
  handle_logs sender pid rt = elim (log_of pid rt) [
    | none ↦ some (reply_datagram json sender (error (container_not_found pid)) rt)
    | some cache ↦
        Option.map (λ ls. reply_datagram json sender (lines ls) rt)
          (Cache.collect_lines from_utf8_lossy log_fuel cache)
  ]
