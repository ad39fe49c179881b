-- ===== src/Ops/Callback.antt =====
-- What a callback of libs/coio-core/src/runtime.rs does with the `&mut Runtime` it is given: calls of
-- its public functions, each of which may depend on what the earlier ones returned. A nested `run`
-- is left out.
pub mod Steps
use mathlib.Core.Option
use conrt.Base.{ℕ, List, Option, none, some, Outcome, done, panicked, ◌>>=◌, IoResult, expect}
use conrt.Base.Words.{ℤ}
use conrt.Ops.Arena.{IoBufErased}
use conrt.Ops.Table.{Runtime, Backend, Op, register_op}
use conrt.Ops.Cancel

pub data Prog (G L B Req A : Type 0) : Type 0 where
  finish : A → Prog G L B Req A
  panic : Prog G L B Req A
  register :
      (shim callback : ℕ)
      → L
      → (class : ℕ) → List IoBufErased
      → Req
      → (IoResult Op → Prog G L B Req A)
      → Prog G L B Req A
  cancel_op : Op → (callback : ℕ) → L → Prog G L B Req A → Prog G L B Req A
  read_global : (G → Prog G L B Req A) → Prog G L B Req A
  write_global : (G → G) → Prog G L B Req A → Prog G L B Req A
  use_backend : (B → B) → Prog G L B Req A → Prog G L B Req A

module _ {G L B Req A : Type 0} (backend : Backend B Req) where
  unfoldable pub run_prog : Prog G L B Req A → Runtime G L B → Outcome (A × Runtime G L B)
  unfolding register_op Cancel.cancel
  run_prog (finish a) rt = done (a, rt)
  run_prog panic rt = panicked
  run_prog (register shim callback local class bufs req next) rt = do
    (op, rt') ← register_op backend shim callback local class bufs req rt
    run_prog (next op) rt'
  run_prog (cancel_op op callback local next) rt =
      Cancel.cancel backend op callback local rt >>= run_prog next
  run_prog (read_global next) rt = do global ← expect rt.global; run_prog (next global) rt
  run_prog (write_global f next) rt = do
    global ← expect rt.global
    run_prog next (record rt { global = some (f global) })
  run_prog (use_backend f next) rt = run_prog next (record rt { backend = f rt.backend })
