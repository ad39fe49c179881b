-- ===== src/Examples/Sessions.antt =====
-- The attach sessions of libs/core/src/daemon.rs at concrete inputs.
use conrt.Base.{
  ℕ, true, List, [], ◌∷◌, none, some, ◌≡◌, refl, arith, lookup, Bool-cases, All, ◌==◌, inl, inr,
}
use conrt.Daemon.State
use conrt.Daemon.State.{
  DaemonState, AttachSession, Response, Effect, exit_code, read, session_payload,
}
use conrt.Daemon.Runtime.{Rt}
use conrt.Daemon.Sessions.{arm_session_read, Json, fresh_session}
use conrt.Daemon.Sessions.Frames.{last_effect, feed, asks_payload, feed-arm_session_read}
use conrt.Daemon.Reap.{find_session, reaped, no_child, exited, signaled, exit_code_of}
use conrt.Daemon.Reap.Events.{exit_report}
use conrt.Daemon.Reap.Sweeps.{frames_to}
use conrt.Daemon.Reap.Exit.{Happening, sweep, output_ends, Exits, handle_all, handle_all-exit_frame}

-- A codec that knows the exit code's response and no request.
abbrev encode : Response ℕ → List ℕ
encode (exit_code n) = n ∷ []
encode _ = []

abbrev codec : Json ℕ
codec = record { parse_request = λ bs. none; parse_winsize = λ bs. none; to_vec = encode }

-- A daemon with one session, of id 4, on descriptor 9.
abbrev one_session : Rt
unfolding State.new
one_session = record {
  global = record State.new { attach_sessions = (4, fresh_session (some 9)) ∷ [] };
  trace = [];
  next_op = 0;
  accepts = λ n. true;
}

-- The session's child has the pid 12; a stranger is reaped with it.
abbrev running : Rt
unfolding State.new
running = record one_session {
  global = record State.new {
    attach_sessions = (4, record (fresh_session (some 9)) { container_pid = 12 }) ∷ [];
  };
}

abbrev ends : List Happening
ends =
    sweep (reaped 7 (exited 0) ∷ reaped 12 (signaled 9) ∷ no_child ∷ [])
    ∷ output_ends
    ∷ output_ends
    ∷ []

running-only : (p : ℕ) → find_session p running.global.attach_sessions ≡ some 4 → p ≡ 12
unfolding find_session State.new
running-only p e = elim (Bool-cases (12 == p)) [
  | inl same ↦ ground (arith, same)
  | inr other ↦ absurd (let none_found : none ≡ some 4 = rw other at e in cc)
]

ends-Exits : All (Exits 12 137) ends
unfolding exit_code_of
ends-Exits = ((λ e. absurd (ground (arith, e)), ((λ e. refl), (tt, tt))), (tt, (tt, tt)))

handle_all-exit_frame_example :
    frames_to 4 (handle_all codec 4 12 137 ends running).trace
    ≡ exit_report codec 4 137 (some 9) ∷ []
unfolding lookup State.new find_session
handle_all-exit_frame_example =
    handle_all-exit_frame codec 4 12 137 ends running
      (record (fresh_session (some 9)) { container_pid = 12 }) refl (λ n. refl) refl running-only
      ends-Exits refl refl refl

-- The header arrives in two pieces, with a byte of the payload behind it.
feed-arm_session_read_example :
    last_effect (feed ((16 ∷ 2 ∷ []) ∷ (0 ∷ 97 ∷ []) ∷ []) (arm_session_read 4 one_session)).trace
    ≡ some (asks_payload 4 16 2 0 (some 9))
unfolding lookup State.new
feed-arm_session_read_example =
    feed-arm_session_read 4 (fresh_session (some 9)) ((16 ∷ 2 ∷ []) ∷ []) 0 16 2 0 (97 ∷ [])
      (97 ∷ []) one_session refl (λ n. refl) (tt, tt) (omega arith) refl
