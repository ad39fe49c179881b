-- ===== src/Daemon/Dispatch.antt =====
-- A run inside an attach session, and the dispatch of client frames (libs/core/src/daemon.rs). The
-- child's side of clone3 never returns to the daemon and is not modelled.
use mathlib.Core.Option
use conrt.Base.{
  ℕ, ◌-◌, Bool, true, false, ◌||◌, ◌&&◌, List, [], ◌∷◌, ◌++◌, Option, none, some, length, ltb, ◌==◌,
  if◌then◌else◌, insert, update, RawFd, is_open, IoResult, ok, err,
}
use conrt.Daemon.State.{
  Effect, RunArgs, Request, close, read, resize, run_ok, run, list, kill, logs, attach,
  prepare_failed, pty_failed, log_pipe_failed, clone_failed, container_aborted, session_payload,
}
use conrt.Daemon.Runtime.{Rt, with_global, emit, emit_all, close_if_open}
use conrt.Daemon.Sessions.{
  Json, session, stream_of, read_slot, store_session_op, submit_stored, close_session,
  arm_session_frame, arm_session_read, arm_session_stdin, stdin_fd_of, end_stdin, at_least_one,
}
use conrt.Daemon.Output.{arm_session_output}
use conrt.Daemon.Frames.{
  Pipe, Prepared, Host, close_both, close_read, write_end, read_end, new_container, wire_run,
  refuse, handle_attach,
}

abbrev pub Pty : Type 0
Pty = Option (ℕ × ℕ)

-- A pty or a pipe that is made only where it is needed: `none` says that it is needed and could not
-- be made.
abbrev pub acquire {ℓ} : {A : Type ℓ} → Bool → Option A → Option (Option A)
acquire needed o = if needed then Option.map some o else some none

abbrev pub has_value {ℓ} : {A : Type ℓ} → Option A → Bool
has_value none = false
has_value (some a) = true

-- `prepare_run`'s check of the init options; what follows it is the host's answer.
unfoldable pub prepare_run : Host → RunArgs → Option Prepared
prepare_run host args =
    if args.no_init && has_value args.init_path then none else host.prepared args

abbrev pub drop_pty : Pty → List Effect
drop_pty none = []
drop_pty (some (master, slave)) = close (some slave) ∷ close (some master) ∷ []

abbrev pub drop_slave : Pty → List Effect
drop_slave none = []
drop_slave (some (master, slave)) = close (some slave) ∷ []

abbrev pub master_of : Pty → RawFd
master_of none = none
master_of (some (master, slave)) = some master

-- `RunArgs` from the fields of a request.
abbrev pub args_of : Request → Option RunArgs
args_of (run rootfs net_pid save command interactive tty no_init init_path) = some (record {
  rootfs = rootfs;
  net_pid = net_pid;
  save = save;
  command = command;
  tty = Option.get_or tty false;
  interactive = Option.get_or interactive false;
  no_init = no_init;
  init_path = init_path;
})
args_of list = none
args_of (kill pid) = none
args_of (logs pid follow) = none
args_of (attach pid) = none

module _ {Line : Type 0} (json : Json Line) where
  -- The parent's side after a clone3 that gives `pid`.
  unfoldable pub start_attached :
      Host → ℕ → RawFd → Bool → Prepared → Pty → Pipe → ℕ → Rt → Bool × Rt
  unfolding new_container arm_session_frame arm_session_output refuse
  start_attached host id stream_fd save prep pty pipe pid rt =
      let rt' = emit_all (drop_slave pty ++ close_read prep.death_pipe) rt in
      if host.set_up
      then (let parent = emit_all (close_if_open (write_end pipe)) rt' in
          let s = parent.global in
          let started =
            with_global
              (record s {
                containers =
                    insert pid (new_container pid prep save host.now none none) s.containers;
                attach_sessions =
                    update id (wire_run pid (master_of pty) (read_end pipe)) s.attach_sessions;
              })
              parent in
          (
            true,
            arm_session_output json id
                (arm_session_frame id stream_fd 1 (json.to_vec (run_ok pid)) started),
          ))
      else (
        false,
        emit_all (close_if_open (master_of pty)) (
            refuse json id stream_fd container_aborted
              (emit_all (close_if_open (write_end prep.death_pipe)) rt')),
      )

  -- A run's parent with its pty (or none) and its log pipe (or none) made.
  unfoldable pub clone_attached : Host → ℕ → RawFd → Bool → Prepared → Pty → Pipe → Rt → Bool × Rt
  unfolding start_attached refuse
  clone_attached host id stream_fd save prep pty pipe rt = elim host.cloned [
    | some pid ↦ start_attached host id stream_fd save prep pty pipe pid rt
    | none ↦ (
      false,
      emit_all (drop_pty pty) (
          refuse json id stream_fd clone_failed
            (emit_all (close_both pipe ++ close_both prep.death_pipe) rt)),
    )
  ]

  unfoldable pub run_attached : Host → ℕ → RawFd → RunArgs → Rt → Bool × Rt
  unfolding prepare_run clone_attached refuse
  run_attached host id stream_fd args rt =
      let use_pty = args.tty || args.interactive in
      elim (prepare_run host args) [
        | none ↦ (false, refuse json id stream_fd prepare_failed rt)
        | some prep ↦
            if use_pty
            then (elim host.pty [
              | none ↦ (false, refuse json id stream_fd pty_failed rt)
              | some p ↦ clone_attached host id stream_fd args.save prep (some p) none rt
            ])
            else (elim host.log_pipe [
              | none ↦ (false, refuse json id stream_fd log_pipe_failed rt)
              | some p ↦ clone_attached host id stream_fd args.save prep none (some p) rt
            ])
      ]

  unfoldable pub handle_run_attach : Host → ℕ → Request → Rt → Bool × Rt
  unfolding run_attached
  handle_run_attach host id request rt = elim (args_of request) [
    | none ↦ (false, rt)
    | some args ↦ elim (session id rt) [
      | none ↦ (false, rt)
      | some sess ↦ run_attached host id sess.stream_fd args rt
    ]
  ]

  -- Frame type 0x00: a run or an attach.
  unfoldable pub start_request : Host → Pipe → ℕ → Request → Rt → Bool × Rt
  unfolding handle_run_attach handle_attach
  start_request host pipe id (run a b c d e f g h) rt =
      handle_run_attach host id (run a b c d e f g h) rt
  start_request host pipe id (attach pid) rt = handle_attach json pipe id pid rt
  start_request host pipe id list rt = (false, rt)
  start_request host pipe id (kill pid) rt = (false, rt)
  start_request host pipe id (logs pid follow) rt = (false, rt)

  -- Frame type 0x10: client input. The payload is never empty where it comes from a read.
  unfoldable pub forward_stdin : ℕ → List ℕ → Rt → Rt
  unfolding arm_session_stdin
  forward_stdin id [] rt = rt
  forward_stdin id (b ∷ bytes) rt =
      if is_open (stdin_fd_of id rt)
      then arm_session_stdin id (stdin_fd_of id rt) (b ∷ bytes) rt
      else rt

  abbrev pub ptm_fd_of : ℕ → Rt → RawFd
  ptm_fd_of id rt = elim (session id rt) [ none ↦ none | some sess ↦ sess.ptm_fd ]

  -- Frame type 0x20: the window size of the session's pty.
  unfoldable pub set_winsize : ℕ → List ℕ → Rt → Rt
  set_winsize id payload rt = elim (json.parse_winsize payload) [
    | none ↦ rt
    | some (rows, cols) ↦
        if is_open (ptm_fd_of id rt) then emit (resize (ptm_fd_of id rt) rows cols) rt else rt
  ]

  unfoldable pub open_frame : Host → Pipe → ℕ → List ℕ → Rt → Bool × Rt
  unfolding start_request
  open_frame host pipe id payload rt = elim (json.parse_request payload) [
    | none ↦ (false, rt)
    | some request ↦ start_request host pipe id request rt
  ]

  -- `false` says that the session must close.
  unfoldable pub dispatch_frame : Host → Pipe → ℕ → ℕ → List ℕ → Rt → Bool × Rt
  unfolding open_frame forward_stdin end_stdin set_winsize
  dispatch_frame host pipe id frame_type payload rt =
      if frame_type == 0
      then open_frame host pipe id payload rt
      else (if frame_type == 16
          then (true, forward_stdin id payload rt)
          else (if frame_type == 17
              then (true, end_stdin id rt)
              else (if frame_type == 32 then (true, set_winsize id payload rt) else (false, rt))))

  unfoldable pub on_session_payload : Host → Pipe → ℕ → ℕ → List ℕ → ℕ → IoResult (List ℕ) → Rt → Rt
  unfolding close_session submit_stored store_session_op dispatch_frame arm_session_read
  on_session_payload host pipe id frame_type acc need err rt = close_session id rt
  on_session_payload host pipe id frame_type acc need (ok []) rt = close_session id rt
  on_session_payload host pipe id frame_type acc need (ok (b ∷ bs)) rt =
      let acc' = acc ++ b ∷ bs in
      let (go_on, rt') =
        dispatch_frame host pipe id frame_type acc' (store_session_op id read_slot none rt) in
      if ltb (length acc') need
      then submit_stored id read_slot
          (read (stream_of id rt) (at_least_one (need - length acc'))
            (session_payload id frame_type acc' need))
          rt
      else (if go_on then arm_session_read id rt' else close_session id rt')
