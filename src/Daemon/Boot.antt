-- ===== src/Daemon/Boot.antt =====
-- `boot` of libs/core/src/daemon.rs, once its sockets and its signalfd are made: the three loops.
use conrt.Base.{ℕ, Option, none, some}
use conrt.Daemon.Runtime.{Rt, with_global}
use conrt.Daemon.Sessions.{arm_accept}
use conrt.Daemon.Reap.{arm_sigchld}
use conrt.Daemon.Requests.{arm_datagram}

pub record Listening : Type 0 where
  pub datagram_fd : ℕ
  pub attach_listener_fd : ℕ
  pub sigchld_fd : ℕ

-- `none` says that a socket or the signalfd could not be made.
unfoldable pub boot : Option Listening → Rt → Rt
unfolding arm_datagram arm_accept arm_sigchld
boot none rt = rt
boot (some l) rt = arm_sigchld (
    arm_accept (
      arm_datagram (
        with_global
          (record rt.global {
            datagram_fd = some l.datagram_fd;
            attach_listener_fd = some l.attach_listener_fd;
            sigchld_fd = some l.sigchld_fd;
          })
          rt)))
