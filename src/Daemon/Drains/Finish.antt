-- ===== src/Daemon/Drains/Finish.antt =====
-- The drain count of a container: it leaves with the last of its drains.
use conrt.Base.{
  ==_refl, ℕ, zero, suc, ◌+◌, ◌-◌, List, ◌++◌, map, Option, none, some, ◌≡◌, refl, ap, ◌∙◌, arith,
  lookup, insert, lookup-insert, lookup-remove, ltb, Bool, true, false, not, [], ◌∷◌, append_assoc,
  RawFd, is_open, if◌then◌else◌,
}
use conrt.Logs.Gateway
use conrt.Logs.Gateway.{AsyncPipeWriter, close_pipes}
use conrt.Daemon.State.{ContainerInfo, Effect, close, cleanup_overlay, Text}
use conrt.Daemon.Runtime.{Rt, close_if_open}
use conrt.Daemon.Drains.{with_containers, cleanup_of, remove_drained, finish_drain}

abbrev pub finish_times : ℕ → ℕ → Rt → Rt
finish_times zero pid rt = rt
finish_times (suc n) pid rt = finish_times n pid (finish_drain pid rt)

abbrev pub container : ℕ → Rt → Option ContainerInfo
container pid rt = lookup pid rt.global.containers

-- The descriptors that a container's end closes, and the clean-up of its overlay.
abbrev pub fd_closes : List RawFd → List Effect
fd_closes [] = []
fd_closes (none ∷ fds) = fd_closes fds
fd_closes (some n ∷ fds) = close (some n) ∷ fd_closes fds

abbrev pub overlay_left : Option Text → (save : Bool) → List Effect
overlay_left none save = []
overlay_left (some overlay) true = []
overlay_left (some overlay) false = cleanup_overlay overlay ∷ []

abbrev pub closing : ContainerInfo → List Effect
closing info =
    fd_closes (info.ptm_fd ∷ info.stdin_fd ∷ map AsyncPipeWriter.fd info.gateway.pipes)
    ++ overlay_left info.overlay_dir info.save

close_one :
    (fd : RawFd) (fds rest : List RawFd)
    → map close fds ≡ fd_closes rest
    → map close (if is_open fd then fd ∷ fds else fds) ≡ fd_closes (fd ∷ rest)
close_one none fds rest h = h
close_one (some n) fds rest h = ap (◌∷◌ (close (some n))) h

close_pipes_closes :
    (ps : List AsyncPipeWriter) → map close (close_pipes ps) ≡ fd_closes (map AsyncPipeWriter.fd ps)
unfolding close_pipes
close_pipes_closes [] = refl
close_pipes_closes (p ∷ ps) =
    close_one p.fd (close_pipes ps) (map AsyncPipeWriter.fd ps) (close_pipes_closes ps)

fd_closes_cons :
    (fd : RawFd) (fds : List RawFd) → close_if_open fd ++ fd_closes fds ≡ fd_closes (fd ∷ fds)
fd_closes_cons none fds = refl
fd_closes_cons (some n) fds = refl

cleanup_left : (info : ContainerInfo) → cleanup_of info ≡ overlay_left info.overlay_dir info.save
cleanup_left info = same info.overlay_dir info.save
  where
    same :
        (dir : Option Text) (save : Bool)
        → (elim dir as (λ x. List Effect) [
          | none ↦ []
          | some overlay ↦ if not save then cleanup_overlay overlay ∷ [] else []
        ])
          ≡ overlay_left dir save
    same none save = refl
    same (some overlay) true = refl
    same (some overlay) false = refl

closes_closing :
    (info : ContainerInfo)
    → close_if_open info.ptm_fd
        ++ close_if_open info.stdin_fd
        ++ map close (Gateway.close_all_pipes info.gateway).1
        ++ cleanup_of info
      ≡ closing info
unfolding Gateway.close_all_pipes
closes_closing info =
    let pipes = map AsyncPipeWriter.fd info.gateway.pipes in
    rw (close_pipes_closes info.gateway.pipes, cleanup_left info)
      (ap (λ es. es ++ overlay_left info.overlay_dir info.save)
        (append_assoc (close_if_open info.ptm_fd) (close_if_open info.stdin_fd) (fd_closes pipes)
          ∙ ap (◌++◌ (close_if_open info.ptm_fd)) (fd_closes_cons info.stdin_fd pipes)
          ∙ fd_closes_cons info.ptm_fd (info.stdin_fd ∷ pipes)))

-- `rt` with the container's count at `n`.
abbrev pub counted : ℕ → ℕ → ContainerInfo → Rt → Rt
counted n pid info rt = with_containers (insert pid (record info { drains_pending = n })) rt

container-counted :
    (n pid : ℕ) (info : ContainerInfo) (rt : Rt)
    → container pid (counted n pid info rt) ≡ some (record info { drains_pending = n })
container-counted n pid info rt =
    lookup-insert pid pid (record info { drains_pending = n }) rt.global.containers
    ∙ rw (==_refl pid) refl

ltb_zero-suc : (n : ℕ) → ltb 0 (suc n) ≡ true
ltb_zero-suc n = ground arith

finish_drain-counts :
    (pid n : ℕ) (info : ContainerInfo) (rt : Rt)
    → container pid rt ≡ some info
    → info.drains_pending - 1 ≡ suc n
    → finish_drain pid rt ≡ counted (suc n) pid info rt
unfolding finish_drain
finish_drain-counts pid n info rt at p = rw (finish_drain, at, p, ltb_zero-suc n) refl

finish_drain-last :
    (pid : ℕ) (info : ContainerInfo) (rt : Rt)
    → container pid rt ≡ some info
    → info.drains_pending - 1 ≡ 0
    → finish_drain pid rt ≡ remove_drained pid info rt
unfolding finish_drain
finish_drain-last pid info rt at p = rw (finish_drain, at, p) refl

-- The end of the last drain: the container is gone, its log kept, its descriptors closed.
pub record Removed (pid : ℕ) (info : ContainerInfo) (rt rt' : Rt) : Type 0 where
  pub gone : container pid rt' ≡ none
  pub kept : lookup pid rt'.global.log_graveyard ≡ some info.gateway.cache
  pub closes : rt'.trace ≡ rt.trace ++ closing info

remove_drained-Removed :
    (pid : ℕ) (info : ContainerInfo) (rt : Rt) → Removed pid info rt (remove_drained pid info rt)
unfolding remove_drained
remove_drained-Removed pid info rt = record {
  gone = lookup-remove pid pid rt.global.containers ∙ rw (==_refl pid) refl;
  kept = lookup-insert pid pid info.gateway.cache rt.global.log_graveyard ∙ rw (==_refl pid) refl;
  closes = ap (◌++◌ rt.trace) (closes_closing info);
}

-- A container with more than `n` drains stays, and nothing is closed, when `n` of them end.
pub finish_times-early :
    (n k pid : ℕ) (info : ContainerInfo) (rt : Rt)
    → container pid rt ≡ some info
    → info.drains_pending ≡ suc (n + k)
    → (container pid (finish_times n pid rt) ≡ some (record info { drains_pending = suc k }))
      × ((finish_times n pid rt).trace ≡ rt.trace)
finish_times-early zero k pid info rt at p = (
  at
      ∙ ap (λ d. some (record info { drains_pending = d })) {x = info.drains_pending} {y = suc k}
          (omega (arith, p)),
  refl,
)
finish_times-early (suc n) k pid info rt at p =
    rw (finish_times, finish_drain-counts pid (n + k) info rt at (omega (arith, p)))
      (finish_times-early n k pid (record info { drains_pending = suc (n + k) })
        (counted (suc (n + k)) pid info rt) (container-counted (suc (n + k)) pid info rt) refl)

-- A container with `n + 1` drains is removed by the last of them and by no earlier one: while `n`
-- end it keeps its place and nothing is closed, and the next one moves its log to the graveyard and
-- closes its terminal, its input and its follow pipes, and cleans up its overlay unless it is to be
-- saved.
pub finish_drain-finish_times :
    (n pid : ℕ) (info : ContainerInfo) (rt : Rt)
    → container pid rt ≡ some info
    → info.drains_pending ≡ suc n
    → (container pid (finish_times n pid rt) ≡ some (record info { drains_pending = 1 }))
      × ((finish_times n pid rt).trace ≡ rt.trace)
      × Removed pid info rt (finish_drain pid (finish_times n pid rt))
finish_drain-finish_times n pid info rt at p =
    let early = finish_times-early n 0 pid info rt at (omega (arith, p)) in
    let left = record info { drains_pending = 1 } in
    let removed = remove_drained-Removed pid left (finish_times n pid rt) in
    let last = finish_drain-last pid left (finish_times n pid rt) early.0 refl in
    (
      early.0,
      early.1,
      rw last (record {
        gone = removed.gone;
        kept = removed.kept;
        closes = removed.closes ∙ ap (λ t. t ++ closing info) early.1;
      }),
    )
