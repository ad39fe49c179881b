-- ===== src/Examples/Uring.antt =====
-- The ring and its driver at concrete inputs.
use conrt.Base.{
  ℕ, ◌+◌, ◌*◌, ◌^◌, true, false, List, [], ◌∷◌, Option, none, some, ◌≡◌, refl, sym, ap, inl, arith,
  done,
}
use conrt.Base.Words.{pos}
use conrt.Buffers.Pools.{Pools}
use conrt.Ops.Table.{Completion}
use conrt.Uring.UserData.{Cqe, an_op, op_user_data, to_u64, from_u64, completion_of}
use conrt.Uring.Driver
use conrt.Uring.Driver.{IoUring, Uring, woken}
use conrt.Uring.Driver.Runs.{Reports, Run, start, armed, Told, next_completion-Told}

abbrev answered : ℕ → Cqe
answered ud = record { user_data = ud; result = pos 7; flags = 0 }

abbrev newest : List ℕ → Option (Cqe × List ℕ)
newest [] = none
newest (ud ∷ uds) = some (answered ud, ud ∷ uds)

-- A ring that keeps what is pushed and always reports the newest.
abbrev io : IoUring (List ℕ) ℕ
io = record {
  build = λ single_issuer entries. some [];
  user_data = λ ud entry. ud;
  async_cancel = λ target. target;
  push = λ entry ring. some (entry ∷ ring);
  submit_and_wait = λ ring. (woken, ring);
  next = newest;
}

newest-pushed :
    (ring ring' : List ℕ) (cqe : Cqe)
    → newest ring ≡ some (cqe, ring')
    → Driver.Runs.Among cqe.user_data ring × (ring' ≡ ring)
newest-pushed [] ring' cqe e = absurd (cc)
newest-pushed (ud ∷ uds) ring' cqe e =
    let same : answered ud ≡ cqe = cc in
    let kept : ud ∷ uds ≡ ring' = cc in (inl (sym (ap Cqe.user_data same)), sym kept)

push-kept : (ud entry : ℕ) (ring ring' : List ℕ) → some (ud ∷ ring) ≡ some ring' → ring' ≡ ud ∷ ring
push-kept ud entry ring ring' e = cc

abbrev reports : Reports io
reports = record {
  pushed = λ ring. ring;
  push-pushed = push-kept;
  wait-pushed = λ ring. refl;
  next-pushed = newest-pushed;
}

abbrev no_pools : Pools
no_pools = record {
  slab = 4096;
  slab_layout = 0;
  provided_pool = record { classes = []; slabs = [] };
  fixed_pool = record { classes = []; slabs = [] };
}

abbrev with_ring : List ℕ → Uring (List ℕ)
with_ring ring = record { ring = some ring; pools = no_pools }

arms : Driver.arm io 5 3 0 (with_ring []) ≡ done (true, with_ring ((5 + 3 * 2 ^ 32) ∷ []))
unfolding Driver.arm op_user_data to_u64
arms = refl

abbrev completion : Completion
completion = record {
  slot = 5;
  result = pos 7;
  flags = 0;
  class = 3;
  cancel = false;
  cancelled = false;
}

next_completion-Told_example : Told io reports (an_op 5 3 ∷ []) completion
unfolding Driver.next_completion completion_of from_u64
next_completion-Told_example =
    next_completion-Told io reports (an_op 5 3 ∷ []) (with_ring ((5 + 3 * 2 ^ 32) ∷ []))
      (with_ring ((5 + 3 * 2 ^ 32) ∷ [])) completion
      (armed 5 3 0 (omega arith) (start [] refl refl) arms) refl
