-- ===== src/Daemon/Requests/Backlog.antt =====
-- The backlog that a follow request writes: the loop ends, and writes the whole of it.
use mathlib.Core.Option
use conrt.Base.{
  ℕ, zero, suc, ◌≤◌, Bool, true, false, List, [], ◌∷◌, ◌++◌, Option, some, ◌≡◌, refl, sym, ap, ◌∙◌,
  arith, length, take, drop, length-drop, take-append-drop, RawFd, IoResult, ok, err,
}
use conrt.Daemon.State.{Effect, write_now}
use conrt.Daemon.Requests.{write_backlog}

-- The bytes that one answer takes of a call's buffer.
abbrev taken_of : IoResult ℕ → List ℕ → List ℕ
taken_of err bytes = []
taken_of (ok n) bytes = take n bytes

-- The calls are writes to the pipe alone, and what the kernel takes of them, where it answers them
-- one after the other as `host` says, is `bs` in order.
abbrev pub Delivers : (ℕ → IoResult ℕ) → ℕ → RawFd → List Effect → List ℕ → Type 0
Delivers host i fd [] bs = bs ≡ []
Delivers host i fd (call ∷ calls) bs =
    (bytes : List ℕ) × (rest : List ℕ) × (call ≡ write_now fd bytes)
    × (bs ≡ taken_of (host i) bytes ++ rest)
    × Delivers host (suc i) fd calls rest

-- What the loop does with the answer of one call.
abbrev step : IoResult ℕ → Effect → (ℕ → Option (Bool × List Effect)) → Option (Bool × List Effect)
step err call rest = some (false, call ∷ [])
step (ok zero) call rest = some (true, call ∷ [])
step (ok (suc n)) call rest = Option.map (λ r. (r.0, call ∷ r.1)) (rest (suc n))

write_backlog-step :
    (fuel : ℕ) (host : ℕ → IoResult ℕ) (i : ℕ) (fd : RawFd) (b : ℕ) (bs : List ℕ)
    → write_backlog (suc fuel) host i fd (b ∷ bs)
      ≡ step
          (host i)
          (write_now fd (b ∷ bs))
          (λ n. write_backlog fuel host (suc i) fd (drop n (b ∷ bs)))
unfolding write_backlog
write_backlog-step fuel host i fd b bs = step_same (host i)
  where
    step_same :
        (res : IoResult ℕ)
        → (elim res as (λ x. Option (Bool × List Effect)) [
          | err ↦ some (false, write_now fd (b ∷ bs) ∷ [])
          | ok zero ↦ some (true, write_now fd (b ∷ bs) ∷ [])
          | ok (suc n) ↦
              Option.map
                (λ r. (r.0, write_now fd (b ∷ bs) ∷ r.1))
                (write_backlog fuel host (suc i) fd (drop (suc n) (b ∷ bs)))
        ])
          ≡ step res
              (write_now fd (b ∷ bs))
              (λ n. write_backlog fuel host (suc i) fd (drop n (b ∷ bs)))
    step_same err = refl
    step_same (ok zero) = refl
    step_same (ok (suc n)) = refl

abbrev Ends : Option (Bool × List Effect) → Type 0
Ends o = (r : Bool × List Effect) × (o ≡ some r)

step-Ends :
    (res : IoResult ℕ) (call : Effect) (rest : ℕ → Option (Bool × List Effect))
    → ((n : ℕ) → Ends (rest (suc n)))
    → Ends (step res call rest)
step-Ends err call rest h = ((false, call ∷ []), refl)
step-Ends (ok zero) call rest h = ((true, call ∷ []), refl)
step-Ends (ok (suc n)) call rest h =
    ((((h n).0).0, call ∷ ((h n).0).1), ap (Option.map (λ r. (r.0, call ∷ r.1))) (h n).1)

drop-shorter :
    (n b fuel : ℕ) (bs : List ℕ)
    → length (b ∷ bs) ≤ suc fuel
    → length (drop (suc n) (b ∷ bs)) ≤ fuel
drop-shorter n b fuel bs h = omega (arith, length-drop (suc n) (b ∷ bs))

-- The backlog loop ends within as much fuel as the backlog has bytes, whatever the kernel answers.
pub write_backlog-total :
    (fuel : ℕ) (host : ℕ → IoResult ℕ) (i : ℕ) (fd : RawFd) (bs : List ℕ)
    → length bs ≤ fuel
    → (r : Bool × List Effect) × (write_backlog fuel host i fd bs ≡ some r)
unfolding write_backlog
write_backlog-total fuel host i fd [] h = ((true, []), refl)
write_backlog-total zero host i fd (b ∷ bs) h = absurd (omega arith)
write_backlog-total (suc fuel) host i fd (b ∷ bs) h = rw (write_backlog-step fuel host i fd b bs) (
    step-Ends (host i) (write_now fd (b ∷ bs)) _ (λ n.
      write_backlog-total fuel host (suc i) fd (drop (suc n) (b ∷ bs))
        (drop-shorter n b fuel bs h)))

-- A successful loop, with what its calls deliver.
abbrev pub Succeeds : (ℕ → IoResult ℕ) → ℕ → RawFd → List ℕ → Option (Bool × List Effect) → Type 0
Succeeds host i fd bs o =
    (calls : List Effect) × (o ≡ some (true, calls)) × Delivers host i fd calls bs

step-Succeeds :
    (host : ℕ → IoResult ℕ) (i n : ℕ) (fd : RawFd) (bs : List ℕ)
    (rest : ℕ → Option (Bool × List Effect))
    → host i ≡ ok (suc n)
    → Succeeds host (suc i) fd (drop (suc n) bs) (rest (suc n))
    → Succeeds host i fd bs (step (host i) (write_now fd bs) rest)
step-Succeeds host i n fd bs rest e (calls, ran, delivers) = (
  write_now fd bs ∷ calls,
  ap (λ answer. step answer (write_now fd bs) rest) e
      ∙ ap (Option.map (λ r. (r.0, write_now fd bs ∷ r.1))) ran,
  (
    bs,
    drop (suc n) bs,
    refl,
    sym (ap (λ answer. taken_of answer bs ++ drop (suc n) bs) e ∙ take-append-drop (suc n) bs),
    delivers,
  ),
)

-- Where every call takes at least one byte, the backlog loop succeeds within as much fuel as the
-- backlog has bytes: each of its calls is a write to the pipe, and the bytes that the kernel takes
-- of their buffers are the whole backlog in order.
pub write_backlog-delivered :
    (fuel : ℕ) (host : ℕ → IoResult ℕ) (i : ℕ) (fd : RawFd) (bs : List ℕ)
    → length bs ≤ fuel
    → ((j : ℕ) → (n : ℕ) × (host j ≡ ok (suc n)))
    → Succeeds host i fd bs (write_backlog fuel host i fd bs)
unfolding write_backlog
write_backlog-delivered fuel host i fd [] h takes = ([], refl, refl)
write_backlog-delivered zero host i fd (b ∷ bs) h takes = absurd (omega arith)
write_backlog-delivered (suc fuel) host i fd (b ∷ bs) h takes =
    let (n, e) = takes i in
    rw (write_backlog-step fuel host i fd b bs) (
      step-Succeeds host i n fd (b ∷ bs) (λ k. write_backlog fuel host (suc i) fd (drop k (b ∷ bs)))
        e
        (write_backlog-delivered fuel host (suc i) fd (drop (suc n) (b ∷ bs))
          (drop-shorter n b fuel bs h) takes))
