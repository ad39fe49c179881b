-- ===== src/Daemon/Runtime.antt =====
-- What the handlers use of the coio runtime (libs/coio-core/src/runtime.rs): the global state, ops
-- that are dispatched in order, and the effects so far. `accepts n` says whether the dispatch with
-- number `n` succeeds; one that fails reaches no kernel and its local is dropped.
use conrt.Base.{
  ℕ, ◌+◌, Bool, List, [], ◌∷◌, ◌++◌, Option, none, some, if◌then◌else◌, RawFd, is_open,
}
use conrt.Daemon.State.{DaemonState, Effect, Op, close}

pub record Rt : Type 0 where
  pub global : DaemonState
  pub trace : List Effect
  pub next_op : ℕ
  pub accepts : ℕ → Bool

-- `rt.global_mut()` put back with the given state.
abbrev pub with_global : DaemonState → Rt → Rt
with_global s rt = record rt { global = s }

-- A system call that does not go through the runtime.
abbrev pub emit : Effect → Rt → Rt
emit e rt = record rt { trace = rt.trace ++ e ∷ [] }

abbrev pub emit_all : List Effect → Rt → Rt
emit_all es rt = record rt { trace = rt.trace ++ es }

-- `rt.read_provided(..)`, `rt.write_fixed(..)` and the like.
abbrev pub submit : Effect → Rt → Option Op × Rt
submit e rt =
    if rt.accepts rt.next_op
    then (some rt.next_op, record rt { trace = rt.trace ++ e ∷ []; next_op = rt.next_op + 1 })
    else (none, record rt { next_op = rt.next_op + 1 })

-- `let _ = rt.op(..)`
abbrev pub submit_ : Effect → Rt → Rt
submit_ e rt = (submit e rt).1

-- `if fd >= 0 { close(fd) }`
abbrev pub close_if_open : RawFd → List Effect
close_if_open fd = if is_open fd then close fd ∷ [] else []
