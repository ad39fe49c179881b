-- ===== src/Daemon/Drains/Store.antt =====
-- A read of a container's output, from the bytes to the lines that its log holds.
use mathlib.Core.Option
use conrt.Base.{
  ==_refl, ℕ, ◌+◌, ◌≤◌, ◌<◌, Bool, true, false, List, [], ◌∷◌, ◌++◌, Option, none, some, ◌≡◌, refl,
  ap, subst, ◌∙◌, arith, length, All, if◌then◌else◌, lookup, insert, lookup-insert, RawFd,
}
use conrt.Logs.Cache
use conrt.Logs.Cache.{LogCache}
use conrt.Logs.Cache.Evict.{Holds, keep, NoNewline}
use conrt.Logs.Cache.Push.{push-Holds}
use conrt.Logs.Gateway
use conrt.Logs.Gateway.{LogGateway}
use conrt.Logs.Lines.{split_line, drain_lines}
use conrt.Logs.Lines.Split.{split_line-some}
use conrt.Logs.Lines.Drain.{drain_lines-joined}
use conrt.Daemon.State.{DaemonState, ContainerInfo, Op, Effect, log_capacity, write, follow_write}
use conrt.Daemon.Runtime.{Rt, submit_}
use conrt.Daemon.Drains.{
  log_fuel, with_containers, arm_follow_write, arm_pending, pending_fds, write_line, write_lines,
  store_output, is_none,
}

-- The lines that a ring of the given size holds after some are pushed.
abbrev pub stored : ℕ → List (List ℕ) → List (List ℕ) → List (List ℕ)
stored size old [] = old
stored size old (l ∷ ls) = stored size (keep size (length l + 1) old ++ l ∷ []) ls

abbrev pub Fits : List ℕ → Type 0
Fits line = length line + 1 ≤ log_capacity

-- The container is there, and its log has the daemon's capacity and holds the lines.
pub record Logged (pid : ℕ) (lines : List (List ℕ)) (rt : Rt) : Type 0 where
  pub info : ContainerInfo
  pub there : lookup pid rt.global.containers ≡ some info
  pub sized : length info.gateway.cache.buf ≡ log_capacity
  pub holds : Holds info.gateway.cache lines

submit_-global : (e : Effect) (rt : Rt) → (submit_ e rt).global ≡ rt.global
submit_-global e rt = either (rt.accepts rt.next_op)
  where
    either :
        (b : Bool)
        → (if◌then◌else◌ {A = Option Op × Rt} b
            (some rt.next_op, record rt { trace = rt.trace ++ e ∷ []; next_op = rt.next_op + 1 })
            (none, record rt { next_op = rt.next_op + 1 })).1.global
          ≡ rt.global
    either true = refl
    either false = refl

arm_follow_write-global :
    (pid pipe_id : ℕ) (fd : RawFd) (chunks : List (List ℕ)) (rt : Rt)
    → 0 < length chunks
    → (arm_follow_write pid pipe_id fd chunks rt).global ≡ rt.global
unfolding arm_follow_write
arm_follow_write-global pid pipe_id fd [] rt h = absurd (omega arith)
arm_follow_write-global pid pipe_id fd (chunk ∷ chunks) rt h =
    submit_-global (write fd chunk (follow_write pid pipe_id fd (chunk ∷ chunks))) rt

push-some :
    (fuel : ℕ) (line : List ℕ) (g : LogGateway) (c : LogCache)
    → Cache.push fuel line g.cache ≡ some c
    → Gateway.push fuel line g
      ≡ some (
        (Gateway.mark_idle g.pipes).0,
        record { cache = c; pipes = (Gateway.mark_idle g.pipes).1 },
      )
unfolding Gateway.push
push-some fuel line g c e = rw (Gateway.push, e) refl

module _ (slot : ℕ → List ℕ) where
  arm_pending-global :
      (pid : ℕ) (line : List ℕ) (ps : List (ℕ × RawFd)) (rt : Rt)
      → (arm_pending slot pid line ps rt).global ≡ rt.global
  unfolding arm_pending
  arm_pending-global pid line [] rt = refl
  arm_pending-global pid line ((pipe_id, fd) ∷ ps) rt =
      arm_pending-global pid line ps (arm_follow_write pid pipe_id fd (split_line slot line) rt)
      ∙ arm_follow_write-global pid pipe_id fd (split_line slot line) rt (split_line-some slot line)

  write_line-pushed :
      (pid : ℕ) (line ids : List ℕ) (info : ContainerInfo) (g : LogGateway) (rt : Rt)
      → lookup pid rt.global.containers ≡ some info
      → Gateway.push log_fuel line info.gateway ≡ some (ids, g)
      → write_line slot pid line rt
        ≡ some (
            arm_pending slot pid line
              (pending_fds g ids)
              (with_containers (insert pid (record info { gateway = g })) rt))
  unfolding write_line
  write_line-pushed pid line ids info g rt there e = rw (write_line, there, e) refl

  write_line-Logged :
      (pid : ℕ) (line : List ℕ) (old : List (List ℕ)) (rt : Rt)
      → Logged pid old rt
      → NoNewline line
      → Fits line
      → (rt' : Rt) × (write_line slot pid line rt ≡ some rt')
        × Logged pid (keep log_capacity (length line + 1) old ++ line ∷ []) rt'
  unfolding Gateway.push
  write_line-Logged pid line old rt l clean fits =
      let (c', e, same, holds) =
        push-Holds log_fuel l.info.gateway.cache old line (omega (arith, l.sized))
          (omega (arith, l.sized)) clean l.holds in
      let (ids, pipes) = Gateway.mark_idle l.info.gateway.pipes in
      let g : LogGateway = record { cache = c'; pipes = pipes } in
      let info' = record l.info { gateway = g } in
      let armed =
        arm_pending slot pid line (pending_fds g ids) (with_containers (insert pid info') rt) in
      (
        armed,
        write_line-pushed pid line ids l.info g rt l.there
            (push-some log_fuel line l.info.gateway c' e),
        record {
          info = info';
          there =
              ap (λ (s : DaemonState). lookup pid s.containers)
                (arm_pending-global pid line (pending_fds g ids)
                  (with_containers (insert pid info') rt))
              ∙ lookup-insert pid pid info' rt.global.containers
              ∙ rw (==_refl pid) refl;
          sized = same ∙ l.sized;
          holds = subst (λ n. Holds c' (keep n (length line + 1) old ++ line ∷ [])) l.sized holds;
        },
      )

  write_lines-Logged :
      (pid : ℕ) (lines old : List (List ℕ)) (rt : Rt)
      → Logged pid old rt
      → All NoNewline lines
      → All Fits lines
      → (rt' : Rt) × (write_lines slot pid lines rt ≡ some rt')
        × Logged pid (stored log_capacity old lines) rt'
  unfolding write_lines Option.bind
  write_lines-Logged pid [] old rt l clean fits = (rt, refl, l)
  write_lines-Logged pid (line ∷ lines) old rt l clean fits =
      let (first, e, l') = write_line-Logged pid line old rt l clean.0 fits.0 in
      let (last, e', l'') = write_lines-Logged pid lines _ first l' clean.1 fits.1 in
      (last, rw (write_lines, Option.bind, e) e', l'')

  whole_lines :
      (pid : ℕ) (lines : List (List ℕ)) (rt : Rt)
      → (if is_none lines then some rt else write_lines slot pid lines rt)
        ≡ write_lines slot pid lines rt
  unfolding write_lines
  whole_lines pid [] rt = refl
  whole_lines pid (line ∷ lines) rt = refl

  -- For a container whose log has the daemon's capacity and holds some lines, a read whose
  -- completed lines each fit the log with their `\n` is stored: the call returns, the unfinished
  -- line is the new line buffer, and the log of the container then holds the newest of the lines
  -- that the ring has room for, those of the read last.
  pub store_output-Logged :
      (pid : ℕ) (line_buf bytes : List ℕ) (old : List (List ℕ)) (rt : Rt)
      → Logged pid old rt
      → All Fits (drain_lines line_buf bytes).0
      → (rt' : Rt) × (store_output slot pid line_buf bytes rt
          ≡ some ((drain_lines line_buf bytes).1, rt'))
        × Logged pid (stored log_capacity old (drain_lines line_buf bytes).0) rt'
  unfolding store_output
  store_output-Logged pid line_buf bytes old rt l fits =
      let (lines, rest) = drain_lines line_buf bytes in
      let (rt', e, l') =
        write_lines-Logged pid lines old rt l (drain_lines-joined line_buf bytes).1 fits in
      (rt', ap (Option.map (λ r. (rest, r))) (whole_lines pid lines rt ∙ e), l')
