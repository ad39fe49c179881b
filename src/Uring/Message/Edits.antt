-- ===== src/Uring/Message/Edits.antt =====
-- A message between its making and its operation: entries and control messages are pushed, it is
-- cleared, and its entries are taken.
pub mod Agree
pub mod Runs
use conrt.Base.{
  ℕ, zero, suc, ◌+◌, ◌*◌, ◌%◌, ◌^◌, ◌≤◌, ◌<◌, Bool, true, false, List, [], ◌∷◌, ◌++◌, Option, some,
  ◌≡◌, refl, sym, ap, subst, ◌∙◌, inl, inr, arith, length, length-append, length-set, take, set,
  map, ltb, leb, if◌then◌else◌, Outcome, done, ◌>>=◌, assert-done, >>=-done, Bool-cases, All, ◌==◌,
  replicate,
}
use conrt.Uring.Message.{
  Msg, IoVec, max_iov_cap, max_ctrl_cap, with_memory, cmsg_align, push_cmsg, push_iov,
  push_scm_rights, fd_bytes, ctrl_capacity, iov_capacity, clear, take_iov,
}
use conrt.Uring.Message.Bytes.{le_bytes, length-le_bytes}
use conrt.Uring.Message.Walk.{Cmsg, walk, Fits}
use conrt.Uring.Message.Carried.{room, rooms}

pub data Edit : Type 0 where
  entry : IoVec → Edit
  message : Cmsg → Edit
  rights : List ℕ → Edit
  cleared : Edit
  taken : Edit

unfoldable pub edit : Edit → Msg → Outcome Msg
unfolding push_iov push_cmsg push_scm_rights take_iov
edit (entry v) m = done (push_iov v m).1
edit (message c) m = do r ← push_cmsg c.level c.kind c.payload m; done r.1
edit (rights fds) m = do r ← push_scm_rights fds m; done r.1
edit cleared m = done (clear m)
edit taken m = done (take_iov m).1

unfoldable pub edits : List Edit → Msg → Outcome Msg
edits [] m = done m
edits (e ∷ es) m = do m₁ ← edit e m; edits es m₁

-- What a message of two capacities holds after its edits, told from the edits alone: an entry is
-- kept where the entries are fewer than the capacity, and a control message where the control
-- messages and it take no more than the capacity.
pub record Sent : Type 0 where
  pub entries : List IoVec
  pub messages : List Cmsg

abbrev pub nothing : Sent
nothing = record { entries = []; messages = [] }

unfoldable pub scm_rights : List ℕ → Cmsg
unfolding fd_bytes
scm_rights fds = record { level = 1; kind = 1; payload = fd_bytes fds }

module _ (iovs ctrl : ℕ) where
  abbrev tell_message : Cmsg → Sent → Sent
  tell_message c s =
      if leb (rooms s.messages + room (length c.payload)) ctrl
      then record s { messages = s.messages ++ c ∷ [] }
      else s

  unfoldable pub tell : Edit → Sent → Sent
  unfolding scm_rights
  tell (entry v) s =
      if ltb (length s.entries) iovs then record s { entries = s.entries ++ v ∷ [] } else s
  tell (message c) s = tell_message c s
  tell (rights fds) s = tell_message (scm_rights fds) s
  tell cleared s = nothing
  tell taken s = record s { entries = [] }

  unfoldable pub tell_all : List Edit → Sent → Sent
  unfolding tell
  tell_all [] s = s
  tell_all (e ∷ es) s = tell_all es (tell e s)

-- The numbers of an edit are those of the source's types.
abbrev pub Ranged : Edit → Type 0
Ranged (message c) = Fits c
Ranged (rights fds) = 4 * length fds < 2 ^ 32
Ranged (entry v) = Unit
Ranged cleared = Unit
Ranged taken = Unit
