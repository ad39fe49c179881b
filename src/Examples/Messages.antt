-- ===== src/Examples/Messages.antt =====
-- A message at concrete inputs.
use conrt.Base.{ℕ, ◌≤◌, List, [], ◌∷◌, ◌≡◌, refl, arith, replicate, length}
use conrt.Uring.Message.{max_ctrl_cap, cmsg_space, fd_bytes}
use conrt.Uring.Message.Bytes.{le_bytes}
use conrt.Uring.Message.Walk.{Cmsg, Fits}
use conrt.Uring.Message.Edits.{
  Edit, entry, message, rights, cleared, nothing, tell, tell_all, scm_rights,
}
use conrt.Uring.Message.Edits.Runs.{Sends, edits-with_memory}

-- The second entry and the last descriptor have no room.
abbrev a_cmsg : Cmsg
a_cmsg = record { level = 1; kind = 2; payload = 7 ∷ 8 ∷ 9 ∷ [] }

abbrev some_edits : List Edit
some_edits =
    rights (3 ∷ [])
    ∷ cleared
    ∷ entry (record { iov_base = 64; iov_len = 16 })
    ∷ entry (record { iov_base = 80; iov_len = 16 })
    ∷ message a_cmsg
    ∷ rights (5 ∷ [])
    ∷ rights (6 ∷ [])
    ∷ []

abbrev stale_bytes : List ℕ
stale_bytes = replicate 48 255

some_edits-sent : tell_all 1 48 some_edits nothing ≡ record {
  entries = record { iov_base = 64; iov_len = 16 } ∷ [];
  messages = a_cmsg ∷ scm_rights (5 ∷ []) ∷ [];
}
unfolding tell_all tell scm_rights fd_bytes le_bytes
some_edits-sent = refl

a_cmsg-Fits : Fits a_cmsg
a_cmsg-Fits = record { level = omega arith; kind = omega arith; payload = omega arith }

stale_bytes-short : length stale_bytes ≤ max_ctrl_cap
unfolding max_ctrl_cap cmsg_space
stale_bytes-short = omega arith

edits-with_memory_example : Sends some_edits 1 4096 stale_bytes
edits-with_memory_example =
    edits-with_memory some_edits 1 4096 stale_bytes refl (omega arith) stale_bytes-short
      (omega arith, (tt, (tt, (tt, (a_cmsg-Fits, (omega arith, (omega arith, tt)))))))
