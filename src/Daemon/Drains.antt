-- ===== src/Daemon/Drains.antt =====
-- The container output drains of libs/core/src/daemon.rs: reading a container's output, storing and
-- forwarding its lines, and the end of a drain. `none` says that a push to the log cache has not
-- returned within its fuel.
pub mod Follow
pub mod Finish
pub mod Store
use mathlib.Core.Option
use conrt.Base.{
  ℕ, zero, suc, ◌+◌, ◌-◌, Bool, true, false, not, List, [], ◌∷◌, ◌++◌, map, Option, none, some,
  length, take, drop, ltb, leb, ◌==◌, if◌then◌else◌, lookup, insert, remove, update, RawFd, is_open,
  IoResult, ok, err,
}
use conrt.Logs.Cache
use conrt.Logs.Gateway
use conrt.Logs.Lines.{drain_lines, split_line}
use conrt.Daemon.State.{
  DaemonState, ContainerInfo, OpLocal, Effect, Text, log_capacity, close, read, write,
  cleanup_overlay, container_output, container_pty_output, follow_write,
}
use conrt.Daemon.Runtime.{Rt, with_global, emit, emit_all, submit_, close_if_open}

-- More than the log cache's size, which `Cache.Push` shows to be enough.
abbrev pub log_fuel : ℕ
log_fuel = suc log_capacity

abbrev pub with_containers : (List (ℕ × ContainerInfo) → List (ℕ × ContainerInfo)) → Rt → Rt
with_containers f rt = with_global (record rt.global { containers = f rt.global.containers }) rt

-- The gateway's `complete_write` on a container that may be gone.
unfoldable pub complete_write : ℕ → ℕ → Bool → Rt → Rt
complete_write pid pipe_id success rt = elim (lookup pid rt.global.containers) [
  | none ↦ rt
  | some info ↦
      let (g, closed) = Gateway.complete_write pipe_id success info.gateway in
      emit_all (map close closed) (with_containers (insert pid (record info { gateway = g })) rt)
]

unfoldable pub arm_follow_write : ℕ → ℕ → RawFd → List (List ℕ) → Rt → Rt
unfolding complete_write
arm_follow_write pid pipe_id fd [] rt = complete_write pid pipe_id true rt
arm_follow_write pid pipe_id fd (chunk ∷ chunks) rt =
    submit_ (write fd chunk (follow_write pid pipe_id fd (chunk ∷ chunks))) rt

-- The chunks left to write after `n` bytes of the first one went out.
unfoldable pub advance : ℕ → List (List ℕ) → List (List ℕ)
advance n [] = []
advance n (chunk ∷ chunks) =
    if leb (length chunk) n
    then chunks
    else (if ltb 0 n then drop n chunk ∷ chunks else chunk ∷ chunks)

unfoldable pub on_follow_write : ℕ → ℕ → RawFd → List (List ℕ) → IoResult ℕ → Rt → Rt
unfolding advance arm_follow_write complete_write
on_follow_write pid pipe_id fd chunks (ok n) rt = elim (advance n chunks) [
  | [] ↦ complete_write pid pipe_id true rt
  | chunk ∷ rest ↦ arm_follow_write pid pipe_id fd (chunk ∷ rest) rt
]
on_follow_write pid pipe_id fd chunks err rt = complete_write pid pipe_id false rt

-- The pending pipes with their descriptors; a pipe that is gone is left out.
unfoldable pub pending_fds : Gateway.LogGateway → List ℕ → List (ℕ × RawFd)
pending_fds g [] = []
pending_fds g (id ∷ ids) = elim (Gateway.pipe_fd id g) [
  | none ↦ pending_fds g ids
  | some fd ↦ (id, fd) ∷ pending_fds g ids
]

-- `if let Some(overlay) = overlay_dir && !save { cleanup_overlay(overlay) }`
abbrev pub cleanup_of : ContainerInfo → List Effect
cleanup_of info = elim info.overlay_dir [
  | none ↦ []
  | some overlay ↦ if not info.save then cleanup_overlay overlay ∷ [] else []
]

abbrev pub is_none {ℓ} : {A : Type ℓ} → List A → Bool
is_none [] = true
is_none (x ∷ xs) = false

module _ (slot : ℕ → List ℕ) where
  unfoldable pub arm_pending : ℕ → List ℕ → List (ℕ × RawFd) → Rt → Rt
  arm_pending pid line [] rt = rt
  arm_pending pid line ((pipe_id, fd) ∷ ps) rt =
      arm_pending pid line ps (arm_follow_write pid pipe_id fd (split_line slot line) rt)

  -- One line: stored, and sent to the idle pipes.
  unfoldable pub write_line : ℕ → List ℕ → Rt → Option Rt
  unfolding arm_pending
  write_line pid line rt = elim (lookup pid rt.global.containers) [
    | some info ↦
        Option.map
          (λ r.
            let (ids, g) = r in
            arm_pending pid line (pending_fds g ids)
              (with_containers (insert pid (record info { gateway = g })) rt))
          (Gateway.push log_fuel line info.gateway)
    | none ↦ elim (lookup pid rt.global.log_graveyard) [
      | none ↦ some rt
      | some cache ↦
          Option.map
            (λ c.
              with_global
                (record rt.global { log_graveyard = insert pid c rt.global.log_graveyard }) rt)
            (Cache.push log_fuel line cache)
    ]
  ]

  unfoldable pub write_lines : ℕ → List (List ℕ) → Rt → Option Rt
  write_lines pid [] rt = some rt
  write_lines pid (line ∷ lines) rt = Option.bind (write_line pid line rt) (write_lines pid lines)

  -- A read of `bytes` from the container: the lines that it completes are written, and the new line
  -- buffer kept for the next read.
  unfoldable pub store_output : ℕ → List ℕ → List ℕ → Rt → Option (List ℕ × Rt)
  unfolding write_lines
  store_output pid line_buf bytes rt =
      let (lines, rest) = drain_lines line_buf bytes in
      Option.map (λ rt'. (rest, rt')) (if is_none lines then some rt else write_lines pid lines rt)

-- The container leaves: its log goes to the graveyard, its descriptors and follow pipes are closed
-- (not `death_pipe_write`), and its overlay is cleaned up unless it is to be saved.
unfoldable pub remove_drained : ℕ → ContainerInfo → Rt → Rt
remove_drained pid info rt =
    let (_, closed) = Gateway.close_all_pipes info.gateway in
    let s = rt.global in
    emit_all
      (close_if_open info.ptm_fd
        ++ close_if_open info.stdin_fd
        ++ map close closed
        ++ cleanup_of info)
      (with_global
        (record s {
          containers = remove pid s.containers;
          log_graveyard = insert pid info.gateway.cache s.log_graveyard;
        })
        rt)

unfoldable pub finish_drain : ℕ → Rt → Rt
unfolding remove_drained
finish_drain pid rt = elim (lookup pid rt.global.containers) [
  | none ↦ rt
  | some info ↦
      let pending = info.drains_pending - 1 in
      if ltb 0 pending
      then with_containers (insert pid (record info { drains_pending = pending })) rt
      else remove_drained pid info rt
]

unfoldable pub arm_container_output : ℕ → Rt → Rt
unfolding finish_drain
arm_container_output pid rt = elim (lookup pid rt.global.outputs) [
  | none ↦ finish_drain pid rt
  | some fd ↦ submit_ (read fd 4096 (container_output pid [])) rt
]

-- `outputs.get(&pid).map(|o| o.fd).unwrap_or(-1)`
abbrev pub fd_or_none : Option RawFd → RawFd
fd_or_none none = none
fd_or_none (some fd) = fd

unfoldable pub finish_container_output : ℕ → Rt → Rt
unfolding finish_drain
finish_container_output pid rt =
    let s = rt.global in
    let fd = fd_or_none (lookup pid s.outputs) in
    finish_drain pid
      (emit_all (close_if_open fd) (with_global (record s { outputs = remove pid s.outputs }) rt))

abbrev pub ptm_of : ℕ → Rt → RawFd
ptm_of pid rt = fd_or_none (Option.map (λ info. info.ptm_fd) (lookup pid rt.global.containers))

unfoldable pub arm_container_pty_output : ℕ → Rt → Rt
unfolding finish_drain
arm_container_pty_output pid rt =
    if is_open (ptm_of pid rt)
    then submit_ (read (ptm_of pid rt) 4096 (container_pty_output pid [])) rt
    else finish_drain pid rt

unfoldable pub finish_container_pty_output : ℕ → Rt → Rt
unfolding finish_drain
finish_container_pty_output pid rt = finish_drain pid (
    emit_all (close_if_open (ptm_of pid rt))
      (with_containers (update pid (λ info. record info { ptm_fd = none })) rt))

module _ (slot : ℕ → List ℕ) where
  unfoldable pub on_container_output : ℕ → List ℕ → IoResult (List ℕ) → Rt → Option Rt
  unfolding finish_container_output store_output
  on_container_output pid line_buf err rt = some (finish_container_output pid rt)
  on_container_output pid line_buf (ok []) rt = some (finish_container_output pid rt)
  on_container_output pid line_buf (ok (b ∷ bytes)) rt =
      Option.map
        (λ r.
          let (rest, rt') = r in
          submit_
            (read (fd_or_none (lookup pid rt'.global.outputs)) 4096 (container_output pid rest))
            rt')
        (store_output slot pid line_buf (b ∷ bytes) rt)

  unfoldable pub on_container_pty_output : ℕ → List ℕ → IoResult (List ℕ) → Rt → Option Rt
  unfolding finish_container_pty_output store_output
  on_container_pty_output pid line_buf err rt = some (finish_container_pty_output pid rt)
  on_container_pty_output pid line_buf (ok []) rt = some (finish_container_pty_output pid rt)
  on_container_pty_output pid line_buf (ok (b ∷ bytes)) rt =
      Option.map
        (λ r.
          let (rest, rt') = r in
          submit_ (read (ptm_of pid rt') 4096 (container_pty_output pid rest)) rt')
        (store_output slot pid line_buf (b ∷ bytes) rt)
