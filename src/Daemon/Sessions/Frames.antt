-- ===== src/Daemon/Sessions/Frames.antt =====
-- The header of a client frame, read in any pieces. A completion is handed to the handler with the
-- local data of the op that was submitted last.
use conrt.Base.{
  ℕ, ◌+◌, ◌*◌, ◌<◌, true, false, List, [], ◌∷◌, ◌++◌, append_assoc, append-nil, Option, none, some,
  ◌≡◌, refl, sym, ap, subst, ◌∙◌, arith, length, length-append, ltb, ok, RawFd, if◌then◌else◌,
  lookup, lookup-update, ==_refl, All,
}
use mathlib.Core.Option
use conrt.Daemon.State.{AttachSession, Effect, read, session_header, session_payload}
use conrt.Daemon.Runtime.{Rt, submit}
use conrt.Daemon.Sessions.{
  SessionOp, read_slot, output_slot, session, stream_of, store_session_op, submit_stored, set_op,
  on_session_header, at_least_one, arm_session_read,
}

abbrev pub last_effect : List Effect → Option Effect
last_effect [] = none
last_effect (e ∷ []) = some e
last_effect (e ∷ f ∷ es) = last_effect (f ∷ es)

-- The session and the bytes of the header that are there, while an op waits for the rest.
abbrev pub waiting : Option Effect → Option (ℕ × List ℕ)
waiting (some (read fd len (session_header id acc))) = some (id, acc)
waiting _ = none

-- The completions of the reads, with the pieces that they return.
unfoldable pub feed : List (List ℕ) → Rt → Rt
unfolding on_session_header
feed [] rt = rt
feed (bytes ∷ pieces) rt = elim (waiting (last_effect rt.trace)) [
  | none ↦ rt
  | some (id, acc) ↦ feed pieces (on_session_header id acc (ok bytes) rt)
]

abbrev pub flatten : List (List ℕ) → List ℕ
flatten [] = []
flatten (bytes ∷ pieces) = bytes ++ flatten pieces

abbrev pub NonEmpty : List ℕ → Type 0
NonEmpty [] = ⊥
NonEmpty (b ∷ bs) = Unit

-- The last op is `e`, and the runtime takes every op.
record Asks (id : ℕ) (fd : RawFd) (e : Effect) (rt : Rt) : Type 0 where
  takes : (n : ℕ) → rt.accepts n ≡ true
  stream : stream_of id rt ≡ fd
  last : last_effect rt.trace ≡ some e

last_effect-append : (es : List Effect) (e : Effect) → last_effect (es ++ e ∷ []) ≡ some e
last_effect-append [] e = refl
last_effect-append (f ∷ []) e = refl
last_effect-append (f ∷ g ∷ es) e = last_effect-append (g ∷ es) e

abbrev stream_in : Option AttachSession → RawFd
stream_in o = elim o [ none ↦ none | some sess ↦ sess.stream_fd ]

stream_in_set :
    (which : SessionOp) (op : Option ℕ) (o : Option AttachSession)
    → stream_in (Option.map (set_op which op) o) ≡ stream_in o
stream_in_set which op none = refl
stream_in_set read_slot op (some sess) = refl
stream_in_set output_slot op (some sess) = refl

store_takes :
    (id : ℕ) (rt : Rt)
    → ((n : ℕ) → rt.accepts n ≡ true)
    → (n : ℕ) → (store_session_op id read_slot none rt).accepts n ≡ true
unfolding store_session_op
store_takes id rt takes = takes

-- The read of a payload.
abbrev pub asks_payload : (id frame_type low high : ℕ) → RawFd → Effect
asks_payload id frame_type low high fd =
    read fd (at_least_one (low + 256 * high)) (session_payload id frame_type [] (low + 256 * high))

stream_of-store :
    (id : ℕ) (which : SessionOp) (op : Option ℕ) (rt : Rt)
    → stream_of id (store_session_op id which op rt) ≡ stream_of id rt
unfolding store_session_op
stream_of-store id which op rt =
    ap stream_in {y = Option.map (set_op which op) (lookup id rt.global.attach_sessions)}
      (lookup-update id id (set_op which op) rt.global.attach_sessions ∙ rw (==_refl id) refl)
    ∙ stream_in_set which op (lookup id rt.global.attach_sessions)

abbrev submitted : Effect → Rt → Rt
submitted e rt = record rt { trace = rt.trace ++ e ∷ []; next_op = rt.next_op + 1 }

submit-submitted :
    (e : Effect) (rt : Rt)
    → rt.accepts rt.next_op ≡ true
    → submit e rt ≡ (some rt.next_op, submitted e rt)
submit-submitted e rt h =
    ap
      (λ b.
        if b
        then (some rt.next_op, submitted e rt)
        else (none, record rt { next_op = rt.next_op + 1 }))
      h

submit_stored-submitted :
    (id : ℕ) (which : SessionOp) (e : Effect) (rt : Rt)
    → rt.accepts rt.next_op ≡ true
    → submit_stored id which e rt ≡ store_session_op id which (some rt.next_op) (submitted e rt)
unfolding submit_stored
submit_stored-submitted id which e rt h =
    ap
      (λ (r : Option ℕ × Rt). elim r.0 as (λ x. Rt) [
        | none ↦ r.1
        | some n ↦ store_session_op id which (some n) r.1
      ])
      (submit-submitted e rt h)

submit_stored-Asks :
    (id : ℕ) (which : SessionOp) (fd : RawFd) (e : Effect) (rt : Rt)
    → ((n : ℕ) → rt.accepts n ≡ true)
    → stream_of id rt ≡ fd
    → Asks id fd e (submit_stored id which e rt)
unfolding store_session_op
submit_stored-Asks id which fd e rt takes at =
    subst (Asks id fd e) (sym (submit_stored-submitted id which e rt (takes rt.next_op))) (record {
      takes = takes;
      stream = stream_of-store id which (some rt.next_op) (submitted e rt) ∙ at;
      last = last_effect-append rt.trace e;
    })

module _ (id b : ℕ) (acc bs : List ℕ) (fd : RawFd) (rt : Rt) (takes : (n : ℕ) → rt.accepts n ≡ true)
    (at : stream_of id rt ≡ fd) where
  on_session_header-short :
      length (acc ++ b ∷ bs) < 3
      → Asks id fd
          (read fd 3 (session_header id (acc ++ b ∷ bs)))
          (on_session_header id acc (ok (b ∷ bs)) rt)
  unfolding on_session_header
  on_session_header-short h =
      let short : ltb (length (acc ++ b ∷ bs)) 3 ≡ true = ground (arith, h) in
      rw (on_session_header, short, at)
        (submit_stored-Asks id read_slot fd (read fd 3 (session_header id (acc ++ b ∷ bs))) rt takes
          at)

  on_session_header-full :
      (frame_type low high : ℕ) (over : List ℕ)
      → acc ++ b ∷ bs ≡ frame_type ∷ low ∷ high ∷ over
      → Asks id fd
          (asks_payload id frame_type low high fd)
          (on_session_header id acc (ok (b ∷ bs)) rt)
  unfolding on_session_header
  on_session_header-full frame_type low high over e =
      let long : ltb (length (frame_type ∷ low ∷ high ∷ over)) 3 ≡ false = ground arith in
      rw (on_session_header, e, long, at)
        (submit_stored-Asks id read_slot fd (asks_payload id frame_type low high fd)
          (store_session_op id read_slot none rt) (store_takes id rt takes)
          (stream_of-store id read_slot none rt ∙ at))

feed-Asks :
    (id : ℕ) (fd : RawFd) (shorts : List (List ℕ)) (b frame_type low high : ℕ)
    (acc bs over : List ℕ) (rt : Rt)
    → Asks id fd (read fd 3 (session_header id acc)) rt
    → All NonEmpty shorts
    → length (acc ++ flatten shorts) < 3
    → (acc ++ flatten shorts) ++ b ∷ bs ≡ frame_type ∷ low ∷ high ∷ over
    → Asks id fd (asks_payload id frame_type low high fd) (feed (shorts ++ (b ∷ bs) ∷ []) rt)
unfolding feed
feed-Asks id fd [] b frame_type low high acc bs over rt a h small e =
    rw (feed, a.last)
      (on_session_header-full id b acc bs fd rt a.takes a.stream frame_type low high over
        (ap (λ xs. xs ++ b ∷ bs) (sym (append-nil acc)) ∙ e))
feed-Asks id fd ([] ∷ shorts) b frame_type low high acc bs over rt a (h, hs) small e = absurd h
feed-Asks id fd ((c ∷ cs) ∷ shorts) b frame_type low high acc bs over rt a (h, hs) small e =
    let joined = append_assoc acc (c ∷ cs) (flatten shorts) in
    rw (feed, a.last)
      (feed-Asks id fd shorts b frame_type low high (acc ++ c ∷ cs) bs over
        (on_session_header id acc (ok (c ∷ cs)) rt)
        (on_session_header-short id c acc cs fd rt a.takes a.stream (
          omega (
            arith,
            small,
            ap (length {A = ℕ}) joined,
            length-append (acc ++ c ∷ cs) (flatten shorts),
          )))
        hs (omega (arith, small, ap (length {A = ℕ}) joined)) (ap (λ xs. xs ++ b ∷ bs) joined ∙ e))

-- However the first bytes of a frame are split between the reads, none of which is empty, where the
-- last one completes the header, the daemon that armed the session's read then asks for a payload
-- of the type and the little-endian length that the first three bytes give, but for one byte where
-- the length is 0. The reads may return more than the header: it starts that payload empty, so what
-- they read past the header is lost.
pub feed-arm_session_read :
    (id : ℕ) (sess : AttachSession) (shorts : List (List ℕ)) (b frame_type low high : ℕ)
    (bs over : List ℕ) (rt : Rt)
    → session id rt ≡ some sess
    → ((n : ℕ) → rt.accepts n ≡ true)
    → All NonEmpty shorts
    → length (flatten shorts) < 3
    → flatten shorts ++ b ∷ bs ≡ frame_type ∷ low ∷ high ∷ over
    → last_effect (feed (shorts ++ (b ∷ bs) ∷ []) (arm_session_read id rt)).trace
      ≡ some (asks_payload id frame_type low high sess.stream_fd)
unfolding arm_session_read
feed-arm_session_read id sess shorts b frame_type low high bs over rt at takes h small e =
    let asked = read sess.stream_fd 3 (session_header id []) in
    let armed : Asks id sess.stream_fd asked (arm_session_read id rt) =
      rw (arm_session_read, at)
        (submit_stored-Asks id read_slot sess.stream_fd asked rt takes (ap stream_in at)) in
    (feed-Asks id sess.stream_fd shorts b frame_type low high [] bs over (arm_session_read id rt)
      armed h small e).last
