-- ===== src/Base/Fds.antt =====
-- `RawFd`. The code makes no negative descriptor but -1, which is `none`.
use mathlib.Core.Option.{Option, none, some}
use mathlib.Core.Bool.{Bool, true, false}
use Prim.Native.Nat.{ℕ}

abbrev pub RawFd : Type 0
RawFd = Option ℕ

-- `fd >= 0`
abbrev pub is_open : RawFd → Bool
is_open none = false
is_open (some n) = true
