-- ===== src/Uring/Message/Edits/Runs.antt =====
-- A message from its making through any edits.
use conrt.Base.{
  ℕ, ◌%◌, ◌≤◌, true, List, [], ◌∷◌, none, some, ◌≡◌, refl, arith, length, take, map, leb, done,
  ◌>>=◌, ◌>>◌, assert, assert-done, >>=-done, All, replicate, length-replicate,
}
use conrt.Uring.Message.{Msg, max_iov_cap, max_ctrl_cap, with_memory, cmsg_align, take_iov}
use conrt.Uring.Message.Walk.{walk}
use conrt.Uring.Message.Carried.{walk-Carries}
use conrt.Uring.Message.Edits.{Edit, Sent, nothing, edit, edits, tell, tell_all, Ranged}
use conrt.Uring.Message.Edits.Agree.{Agrees, edit-Agrees, take_iov-told}

edits-Agrees :
    (iovs ctrl : ℕ) (es : List Edit) (m : Msg) (s : Sent)
    → Agrees iovs ctrl m s
    → All Ranged es
    → (q : Msg) × (edits es m ≡ done q) × Agrees iovs ctrl q (tell_all iovs ctrl es s)
unfolding edits tell_all
edits-Agrees iovs ctrl [] m s a h = (m, refl, a)
edits-Agrees iovs ctrl (e ∷ es) m s a (h, hs) =
    let (q, ran, b) = edit-Agrees iovs ctrl e m s a h in
    let (z, rest, c) = edits-Agrees iovs ctrl es q (tell iovs ctrl e s) b hs in
    (z, >>=-done (edit e m) (edits es) ran rest, c)

abbrev made : (iovs base : ℕ) → List ℕ → Msg
made iovs base stale = record {
  iovs = replicate iovs none;
  ctrl_base = base;
  ctrl = stale;
  msg_iovlen = 0;
  msg_controllen = 0;
}

made-Agrees :
    (iovs base : ℕ) (stale : List ℕ)
    → base % cmsg_align ≡ 0
    → Agrees iovs (length stale) (made iovs base stale) nothing
made-Agrees iovs base stale h = record {
  carried = record { based = h; within = omega arith; aligned = refl; sized = refl; held = refl };
  listed = refl;
  counted = refl;
  within = omega arith;
  iov_cap = length-replicate iovs none;
  ctrl_cap = refl;
}

leb-≤ : (m n : ℕ) → m ≤ n → leb m n ≡ true
leb-≤ m n h = ground arith

with_memory-made :
    (iovs base : ℕ) (stale : List ℕ)
    → iovs ≤ max_iov_cap
    → length stale ≤ max_ctrl_cap
    → with_memory iovs base stale ≡ done (made iovs base stale)
unfolding with_memory
with_memory-made iovs base stale h g =
    assert-done (leb iovs max_iov_cap)
      (assert (leb (length stale) max_ctrl_cap) >> done (made iovs base stale))
      (leb-≤ iovs max_iov_cap h)
      (assert-done (leb (length stale) max_ctrl_cap) (done (made iovs base stale))
        (leb-≤ (length stale) max_ctrl_cap g) refl)

-- The run ends, and the message hands over what the edits tell. A kernel may walk as far as it
-- likes.
abbrev pub Sends : List Edit → (iovs base : ℕ) → List ℕ → Type 0
Sends es iovs base stale =
    let s = tell_all iovs (length stale) es nothing in
    (m : Msg) × ((with_memory iovs base stale >>= edits es) ≡ done m)
    × ((take_iov m).0 ≡ map some s.entries)
    × ((fuel : ℕ)
        → length s.messages ≤ fuel
        → walk fuel (take m.msg_controllen m.ctrl) ≡ s.messages)
    × (m.msg_iovlen ≤ iovs)
    × (m.msg_controllen ≤ length stale)

-- In memory that starts on a multiple of 8, and has at most the capacities that the source allows,
-- a message is made, and entries, control messages and descriptors are pushed, cleared and taken in
-- any order without a panic, where the numbers are in the ranges of their types. An entry is kept
-- where fewer than the capacity are there, and a control message where those there and it take no
-- more bytes than the capacity, each a header of 16 bytes and the payload up to a multiple of 8.
-- However far a kernel walks the control bytes, it finds exactly the control messages kept since
-- the last clear, in their order, with the level, kind and payload they were pushed with; the
-- entries are exactly those kept since the last clear or take; and both lengths are within the
-- capacities.
pub edits-with_memory :
    (es : List Edit) (iovs base : ℕ) (stale : List ℕ)
    → base % cmsg_align ≡ 0
    → iovs ≤ max_iov_cap
    → length stale ≤ max_ctrl_cap
    → All Ranged es
    → Sends es iovs base stale
edits-with_memory es iovs base stale aligned iov_room ctrl_room h =
    let (q, ran, a) =
      edits-Agrees iovs (length stale) es (made iovs base stale) nothing
        (made-Agrees iovs base stale aligned) h in
    let s = tell_all iovs (length stale) es nothing in
    (
      q,
      >>=-done (with_memory iovs base stale) (edits es)
          (with_memory-made iovs base stale iov_room ctrl_room) ran,
      take_iov-told iovs (length stale) q s a,
      λ fuel enough. walk-Carries q s.messages fuel a.carried enough,
      a.within,
      omega (arith, a.carried.within, a.ctrl_cap),
    )
