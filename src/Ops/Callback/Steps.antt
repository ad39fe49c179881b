-- ===== src/Ops/Callback/Steps.antt =====
-- Whatever a callback does with the runtime, the state stays well formed.
use conrt.Base.{some, ◌≡◌, ap, subst, arith, done, >>=-eq-done, done-injective, expect}
use conrt.Ops.Table.{Runtime, Backend, register_op}
use conrt.Ops.Table.Valid.{Step, Step-refl, Step-trans}
use conrt.Ops.Table.Fresh.{register_op-Step}
use conrt.Ops.Cancel
use conrt.Ops.Cancel.Steps.{cancel-Step}
use conrt.Ops.Callback.{
  Prog, finish, panic, register, cancel_op, read_global, write_global, use_backend, run_prog,
}

module _ {G L B : Type 0} where
  -- A change of what `Valid` does not read.
  pub same-Step :
      (rt rt' : Runtime G L B)
      → Step (record rt' { backend = rt.backend; buf_arena = rt.buf_arena; global = rt.global }) rt'
  same-Step rt rt' = record {
    grows = (omega arith, omega arith, omega arith);
    keeps = λ small valid. valid;
    stays_gone = λ small valid op gone. gone;
  }

module _ {G L B Req A : Type 0} (backend : Backend B Req) where
  pub run_prog-Step :
      (p : Prog G L B Req A) (a : A) (rt rt' : Runtime G L B)
      → run_prog backend p rt ≡ done (a, rt')
      → Step rt rt'
  unfolding run_prog
  run_prog-Step (finish b) a rt rt' h =
      subst (Step rt) (ap (λ (q : A × Runtime G L B). q.1) (done-injective h)) (Step-refl rt)
  run_prog-Step panic a rt rt' h = cc
  run_prog-Step (register shim callback local class bufs req next) a rt rt' h =
      let ((op, rt₁), e, h₁) =
        >>=-eq-done (register_op backend shim callback local class bufs req rt) _ h in
      Step-trans (register_op-Step backend shim callback local class bufs req rt rt₁ op e)
        (run_prog-Step (next op) a rt₁ rt' h₁)
  run_prog-Step (cancel_op op callback local next) a rt rt' h =
      let (rt₁, e, h₁) = >>=-eq-done (Cancel.cancel backend op callback local rt) _ h in
      Step-trans (cancel-Step backend op callback local rt rt₁ e) (run_prog-Step next a rt₁ rt' h₁)
  run_prog-Step (read_global next) a rt rt' h =
      let (global, e, h₁) = >>=-eq-done (expect rt.global) _ h in
      run_prog-Step (next global) a rt rt' h₁
  run_prog-Step (write_global f next) a rt rt' h =
      let (global, e, h₁) = >>=-eq-done (expect rt.global) _ h in
      let rt₁ : Runtime G L B = record rt { global = some (f global) } in
      Step-trans (same-Step rt rt₁) (run_prog-Step next a rt₁ rt' h₁)
  run_prog-Step (use_backend f next) a rt rt' h =
      let rt₁ : Runtime G L B = record rt { backend = f rt.backend } in
      Step-trans (same-Step rt rt₁) (run_prog-Step next a rt₁ rt' h)
