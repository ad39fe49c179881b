-- ===== src/Daemon/Reap/Sweeps.antt =====
-- The frames among the effects, and the search for a child's session.
use conrt.Base.{
  ℕ, ◌+◌, Bool, true, false, not, List, [], ◌∷◌, ◌++◌, Option, none, some, ◌≡◌, refl, sym, ap, ◌∙◌,
  arith, if◌then◌else◌, Bool-cases, inl, inr, Map, lookup, insert, update, ◌==◌, map, RawFd, remove,
}
use conrt.Logs.Gateway
use conrt.Daemon.State.{
  Op, AttachSession, ContainerInfo, Effect, close, cleanup_overlay, Text, write, session_frame,
}
use conrt.Daemon.Runtime.{Rt, close_if_open, with_global}
use conrt.Daemon.Drains.{cleanup_of}
use conrt.Daemon.Sessions.{frame, arm_session_frame}
use conrt.Daemon.Output.{mark_exit_sent}
use conrt.Daemon.Reap.{find_session}

-- The frames that a session is sent, of all the effects.
abbrev pub is_frame : ℕ → Effect → Bool
is_frame id (write fd bytes (session_frame other stream buf off)) = other == id
is_frame id _ = false

abbrev pub frames_to : ℕ → List Effect → List Effect
frames_to id [] = []
frames_to id (e ∷ es) = let rest = frames_to id es in if is_frame id e then e ∷ rest else rest

pub frames_to-append :
    (id : ℕ) (es fs : List Effect) → frames_to id (es ++ fs) ≡ frames_to id es ++ frames_to id fs
frames_to-append id [] fs = refl
frames_to-append id (e ∷ es) fs = elim (Bool-cases (is_frame id e)) [
  | inl frame ↦ rw frame (ap (◌∷◌ e) (frames_to-append id es fs))
  | inr other ↦ rw other (frames_to-append id es fs)
]

-- No frame is among the effects of a container's end.
frames_to-fd : (id : ℕ) (fd : RawFd) → frames_to id (close_if_open fd) ≡ []
frames_to-fd id none = refl
frames_to-fd id (some n) = refl

frames_to-fds : (id : ℕ) (fds : List RawFd) → frames_to id (map close fds) ≡ []
frames_to-fds id [] = refl
frames_to-fds id (fd ∷ fds) = frames_to-fds id fds

frames_to-cleanup : (id : ℕ) (info : ContainerInfo) → frames_to id (cleanup_of info) ≡ []
frames_to-cleanup id info = no_frame info.overlay_dir info.save
  where
    no_frame :
        (dir : Option Text) (save : Bool)
        → frames_to id (elim dir as (λ x. List Effect) [
          | none ↦ []
          | some overlay ↦ if not save then cleanup_overlay overlay ∷ [] else []
        ])
          ≡ []
    no_frame none save = refl
    no_frame (some overlay) true = refl
    no_frame (some overlay) false = refl

-- The effects of a container's end, and the state they start from.
abbrev pub ending : ContainerInfo → List Effect
ending info =
    close_if_open info.ptm_fd
    ++ close_if_open info.stdin_fd
    ++ close_if_open info.death_pipe_write
    ++ map close (Gateway.close_all_pipes info.gateway).1
    ++ cleanup_of info

abbrev pub removed : ℕ → ContainerInfo → Rt → Rt
removed p info rt =
    with_global
      (record rt.global {
        containers = remove p rt.global.containers;
        log_graveyard = insert p info.gateway.cache rt.global.log_graveyard;
      })
      rt

pub frames_to-ending : (id : ℕ) (info : ContainerInfo) → frames_to id (ending info) ≡ []
frames_to-ending id info =
    rw
      (
        frames_to-append,
        frames_to-append,
        frames_to-append,
        frames_to-append,
        frames_to-fd id info.ptm_fd,
        frames_to-fd id info.stdin_fd,
        frames_to-fd id info.death_pipe_write,
        frames_to-fds id (Gateway.close_all_pipes info.gateway).1,
        frames_to-cleanup id info,
      )
      refl

pub find_session-update :
    (key pid : ℕ) (f : AttachSession → AttachSession) (m : Map AttachSession)
    → ((sess : AttachSession) → (f sess).container_pid ≡ sess.container_pid)
    → find_session pid (update key f m) ≡ find_session pid m
unfolding find_session update
find_session-update key pid f [] same = refl
find_session-update key pid f ((id, sess) ∷ m) same = elim (Bool-cases (id == key)) [
  | inl here ↦ rw (here, same sess) refl
  | inr other ↦ rw other (
      ap (λ rest. if sess.container_pid == pid then some id else rest)
        (find_session-update key pid f m same))
]

pub find_session-insert :
    (key pid : ℕ) (sess : AttachSession) (m : Map AttachSession)
    → lookup key m ≡ some sess
    → find_session pid (insert key (mark_exit_sent sess) m) ≡ find_session pid m
unfolding find_session insert lookup
find_session-insert key pid sess [] at = absurd (cc)
find_session-insert key pid sess ((id, first) ∷ m) at = elim (Bool-cases (id == key)) [
  | inl here ↦
      let found : some first ≡ some sess = rw here at at in
      let same : first ≡ sess = cc in
      let key_id : key ≡ id = ground (arith, here) in
      rw here (
        ap (λ k. if sess.container_pid == pid then some k else find_session pid m) key_id
        ∙ ap (λ (s : AttachSession). if s.container_pid == pid then some id else find_session pid m)
            (sym same))
  | inr other ↦ rw other (
      ap (λ rest. if first.container_pid == pid then some id else rest)
        (find_session-insert key pid sess m (rw other at at)))
]

abbrev pub frame_write : ℕ → RawFd → List ℕ → Effect
frame_write id fd payload = write fd (frame 2 payload) (session_frame id fd (frame 2 payload) 0)

pub arm_session_frame-sends :
    (id : ℕ) (fd : RawFd) (payload : List ℕ) (rt : Rt)
    → rt.accepts rt.next_op ≡ true
    → arm_session_frame id fd 2 payload rt ≡ record rt {
      trace = rt.trace ++ write fd (frame 2 payload) (session_frame id fd (frame 2 payload) 0) ∷ [];
      next_op = rt.next_op + 1;
    }
unfolding arm_session_frame
arm_session_frame-sends id fd payload rt e = accepted (rt.accepts rt.next_op) e
  where
    accepted :
        (b : Bool)
        → b ≡ true
        → (if◌then◌else◌ {A = Option Op × Rt} b
            (
              some rt.next_op,
              record rt {
                trace =
                    rt.trace
                    ++ write fd (frame 2 payload) (session_frame id fd (frame 2 payload) 0) ∷ [];
                next_op = rt.next_op + 1;
              },
            )
            (none, record rt { next_op = rt.next_op + 1 })).1
          ≡ record rt {
            trace =
                rt.trace
                ++ write fd (frame 2 payload) (session_frame id fd (frame 2 payload) 0) ∷ [];
            next_op = rt.next_op + 1;
          }
    accepted true h = refl
    accepted false h = absurd (ground arith)
