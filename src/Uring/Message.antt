-- ===== src/Uring/Message.antt =====
-- The arguments of a message operation in libs/coio-uring/src/io.rs: `Msg`, and `MsgMut` for a receive.
-- The three pooled views are held exclusively, so what they hold is part of the message: `iovs` has
-- the entries that were written, and `ctrl` the control bytes at the address `ctrl_base`. A `c_int`
-- is its 32-bit pattern.
pub mod Bytes
pub mod Carried
pub mod Edits
pub mod Walk
use conrt.Base.{
  ℕ, zero, suc, ◌+◌, ◌-◌, ◌*◌, ◌/◌, ◌%◌, ◌^◌, min, Bool, true, false, List, [], ◌∷◌, ◌++◌, Option,
  none, some, length, take, drop, set, get_elem?, replicate, ltb, leb, ◌==◌, if◌then◌else◌, Outcome,
  done, panicked, ◌>>=◌, ◌>>◌, assert,
}
use conrt.Uring.Message.Bytes.{le_bytes, write_at}

pub record IoVec : Type 0 where
  pub iov_base : ℕ
  pub iov_len : ℕ

-- An entry of `iovs` is none while it is uninitialized.
pub record Msg : Type 0 where
  pub iovs : List (Option IoVec)
  pub ctrl_base : ℕ
  pub ctrl : List ℕ
  pub msg_iovlen : ℕ
  pub msg_controllen : ℕ

-- `size_of` and `align_of` of a `cmsghdr`, and its layout: a 64-bit length, the level, the type.
abbrev pub cmsg_header : ℕ
cmsg_header = 16

abbrev pub cmsg_align : ℕ
cmsg_align = 8

-- `(len + align - 1) & !(align - 1)`
unfoldable pub cmsg_space : ℕ → ℕ
cmsg_space payload =
    let len = cmsg_header + payload in (len + cmsg_align - 1) - (len + cmsg_align - 1) % cmsg_align

-- MAX_IOV_CAP, SCM_MAX_FD and MAX_CTRL_CAP
abbrev pub max_iov_cap : ℕ
max_iov_cap = 1024

unfoldable pub max_ctrl_cap : ℕ
unfolding cmsg_space
max_ctrl_cap = cmsg_space (253 * 4)

-- `with_capacity` once its memory is there: `stale` is what the control memory holds.
unfoldable pub with_memory : (iovs ctrl_base : ℕ) → (stale : List ℕ) → Outcome Msg
with_memory iovs ctrl_base stale = do
  assert (leb iovs max_iov_cap)
  assert (leb (length stale) max_ctrl_cap)
  done (record {
    iovs = replicate iovs none;
    ctrl_base = ctrl_base;
    ctrl = stale;
    msg_iovlen = 0;
    msg_controllen = 0;
  })

abbrev pub iov_capacity : Msg → ℕ
iov_capacity m = length m.iovs

abbrev pub ctrl_capacity : Msg → ℕ
ctrl_capacity m = length m.ctrl

-- The result says whether the entry was pushed.
unfoldable pub push_iov : IoVec → Msg → Bool × Msg
push_iov iov m = if leb (iov_capacity m) m.msg_iovlen then (false, m) else (
  true,
  record m { iovs = set m.iovs m.msg_iovlen (some iov); msg_iovlen = m.msg_iovlen + 1 },
)

-- The header and the payload, as they lie in memory.
abbrev pub cmsg_bytes : (level kind : ℕ) → (payload : List ℕ) → List ℕ
cmsg_bytes level kind payload =
    le_bytes 8 (cmsg_header + length payload) ++ le_bytes 4 level ++ le_bytes 4 kind ++ payload

-- The write, once the message is known to fit.
unfoldable pub append_cmsg : (level kind : ℕ) → (payload : List ℕ) → Msg → Outcome (Bool × Msg)
unfolding cmsg_space write_at
append_cmsg level kind payload m = do
  assert (m.ctrl_base % cmsg_align == 0)
  assert (m.msg_controllen % cmsg_align == 0)
  done (
    true,
    record m {
      ctrl = write_at m.msg_controllen (cmsg_bytes level kind payload) m.ctrl;
      msg_controllen = m.msg_controllen + cmsg_space (length payload);
    },
  )

unfoldable pub push_cmsg : (level kind : ℕ) → (payload : List ℕ) → Msg → Outcome (Bool × Msg)
unfolding cmsg_space append_cmsg
push_cmsg level kind payload m =
    if ltb (ctrl_capacity m) (m.msg_controllen + cmsg_space (length payload))
    then done (false, m)
    else append_cmsg level kind payload m

-- SOL_SOCKET and SCM_RIGHTS are 1. Each descriptor is four bytes.
unfoldable pub fd_bytes : List ℕ → List ℕ
unfolding le_bytes
fd_bytes [] = []
fd_bytes (fd ∷ fds) = le_bytes 4 fd ++ fd_bytes fds

unfoldable pub push_scm_rights : List ℕ → Msg → Outcome (Bool × Msg)
unfolding push_cmsg fd_bytes
push_scm_rights fds = push_cmsg 1 1 (fd_bytes fds)

abbrev pub clear : Msg → Msg
clear m = record m { msg_iovlen = 0; msg_controllen = 0 }

-- `none` is also an entry that was never written, which the code would read all the same.
unfoldable pub iov : ℕ → Msg → Option IoVec
iov i m =
    if leb m.msg_iovlen i then none else elim (get_elem? m.iovs i) [ none ↦ none | some v ↦ v ]

-- The control bytes in use.
unfoldable pub ctrl_of : Msg → Option (List ℕ)
ctrl_of m =
    if ctrl_capacity m == 0
    then none
    else some (take (min m.msg_controllen (ctrl_capacity m)) m.ctrl)

-- `MsgMut::take_iov`. An array of capacity 0 was not allocated.
unfoldable pub take_iov : Msg → List (Option IoVec) × Msg
take_iov m =
    if iov_capacity m == 0 then ([], m) else (take m.msg_iovlen m.iovs, record m { msg_iovlen = 0 })
