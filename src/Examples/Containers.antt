-- ===== src/Examples/Containers.antt =====
-- The end of a container, and a follow request's backlog, at concrete inputs.
use conrt.Base.{
  ℕ, length-replicate, replicate, Bool, true, false, List, [], ◌∷◌, none, some, ◌≡◌, refl, arith,
  lookup, ok, err, IoResult,
}
use conrt.Logs.Cache
use conrt.Logs.Cache.Push.{new-Holds}
use conrt.Logs.Gateway
use conrt.Logs.Lines.{drain_lines, scan_lines}
use conrt.Daemon.State
use conrt.Daemon.State.{DaemonState, ContainerInfo, Effect, log_capacity}
use conrt.Daemon.Drains.Store.{Logged, stored, store_output-Logged}
use conrt.Daemon.Runtime.{Rt}
use conrt.Daemon.Drains.{finish_drain, store_output}
use conrt.Daemon.Drains.Finish.{finish_times, container, Removed, finish_drain-finish_times}
use conrt.Daemon.Requests.{write_backlog}
use conrt.Daemon.Requests.Backlog.{Succeeds, write_backlog-total, write_backlog-delivered}

-- A container with a terminal and two drains.
abbrev terminal : ContainerInfo
terminal = record {
  pid = 12;
  command = [];
  overlay_dir = none;
  save = false;
  start_time = 0;
  gateway = Gateway.new 8;
  stdin_fd = none;
  ptm_fd = some 6;
  death_pipe_write = some 7;
  drains_pending = 2;
}

abbrev one_container : Rt
unfolding State.new
one_container = record {
  global = record State.new { containers = (12, terminal) ∷ [] };
  trace = [];
  next_op = 0;
  accepts = λ n. true;
}

finish_drain-finish_times_example :
    (container 12 (finish_times 1 12 one_container) ≡ some (record terminal { drains_pending = 1 }))
    × ((finish_times 1 12 one_container).trace ≡ [])
    × Removed 12 terminal one_container (finish_drain 12 (finish_times 1 12 one_container))
unfolding lookup State.new
finish_drain-finish_times_example = finish_drain-finish_times 1 12 terminal one_container refl refl

abbrev failing : ℕ → IoResult ℕ
failing n = err

write_backlog-total_example :
    (r : Bool × List Effect) × (write_backlog 2 failing 0 (some 5) (97 ∷ 98 ∷ []) ≡ some r)
write_backlog-total_example = write_backlog-total 2 failing 0 (some 5) (97 ∷ 98 ∷ []) (omega arith)

abbrev bytewise : ℕ → IoResult ℕ
bytewise n = ok 1

write_backlog-delivered_example :
    Succeeds bytewise 0 (some 5) (97 ∷ 98 ∷ []) (write_backlog 2 bytewise 0 (some 5) (97 ∷ 98 ∷ []))
write_backlog-delivered_example =
    write_backlog-delivered 2 bytewise 0 (some 5) (97 ∷ 98 ∷ []) (omega arith) (λ j. (0, refl))

-- The container with a log of the daemon's capacity.
abbrev logging : ContainerInfo
logging = record terminal { gateway = Gateway.new log_capacity }

abbrev one_logging : Rt
unfolding State.new
one_logging = record one_container { global = record State.new { containers = (12, logging) ∷ [] } }

one_logging-Logged : Logged 12 [] one_logging
unfolding lookup State.new Gateway.new Cache.new
one_logging-Logged = record {
  info = logging;
  there = refl;
  sized = length-replicate {A = ℕ} 65536 0;
  holds = new-Holds 65536 (omega arith) (omega arith);
}

-- A buffer pool whose memory is all zero.
abbrev zeroed : ℕ → List ℕ
zeroed n = replicate n 0

store_output-Logged_example :
    (rt' : Rt) × (store_output zeroed 12 (97 ∷ []) (10 ∷ 98 ∷ []) one_logging ≡ some (98 ∷ [], rt'))
    × Logged 12 (stored log_capacity [] ((97 ∷ []) ∷ [])) rt'
unfolding drain_lines scan_lines
store_output-Logged_example =
    store_output-Logged zeroed 12 (97 ∷ []) (10 ∷ 98 ∷ []) [] one_logging one_logging-Logged
      (omega arith, tt)
