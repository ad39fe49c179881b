-- ===== src/Logs/Gateway.antt =====
-- `AsyncPipeWriter` and `LogGateway` of libs/core/src/daemon.rs: the cache and the follow pipes.
-- A function that closes descriptors returns them, in order.
pub mod Pipes
use mathlib.Core.Option
use conrt.Base.{
  ℕ, zero, suc, ◌+◌, Bool, true, false, not, List, [], ◌∷◌, ◌++◌, Option, none, some, set,
  get_elem?, ◌==◌, if◌then◌else◌, RawFd, is_open,
}
use conrt.Logs.Cache
use conrt.Logs.Cache.{LogCache}

pub record AsyncPipeWriter : Type 0 where
  pub id : ℕ
  pub fd : RawFd
  pub in_flight : Bool

unfoldable pub new_writer : ℕ → RawFd → AsyncPipeWriter
new_writer id fd = record { id = id; fd = fd; in_flight = false }

-- Whether the pipe is still alive, the writer, and the descriptors closed.
unfoldable pub complete : AsyncPipeWriter → Bool → Bool × AsyncPipeWriter × List RawFd
complete p ok =
    if not ok
    then (false, record p { in_flight = false; fd = none }, p.fd ∷ [])
    else (true, record p { in_flight = false }, [])

pub record LogGateway : Type 0 where
  pub cache : LogCache
  pub pipes : List AsyncPipeWriter

unfoldable pub new : ℕ → LogGateway
unfolding Cache.new
new size = record { cache = Cache.new size; pipes = [] }

-- The idle pipes are marked, and their ids collected.
unfoldable pub mark_idle : List AsyncPipeWriter → List ℕ × List AsyncPipeWriter
mark_idle [] = ([], [])
mark_idle (p ∷ ps) =
    let (ids, marked) = mark_idle ps in
    if not p.in_flight
    then (p.id ∷ ids, record p { in_flight = true } ∷ marked)
    else (ids, p ∷ marked)

-- `none` says that the cache's push has not ended within the fuel.
unfoldable pub push : ℕ → List ℕ → LogGateway → Option (List ℕ × LogGateway)
unfolding mark_idle
push fuel line g = Option.map marked (Cache.push fuel line g.cache)
  where
    marked : LogCache → List ℕ × LogGateway
    marked cache =
        let (ids, pipes) = mark_idle g.pipes in (ids, record { cache = cache; pipes = pipes })

-- `iter().position(|p| p.id == pipe_id)`
unfoldable pub position : ℕ → List AsyncPipeWriter → Option ℕ
position id [] = none
position id (p ∷ ps) = if p.id == id then some 0 else Option.map suc (position id ps)

-- `Vec::swap_remove`: the last entry takes the place of the one at the index.
abbrev pub drop_last : List AsyncPipeWriter → List AsyncPipeWriter
drop_last [] = []
drop_last (p ∷ []) = []
drop_last (p ∷ q ∷ ps) = p ∷ drop_last (q ∷ ps)

abbrev pub last_or : AsyncPipeWriter → List AsyncPipeWriter → AsyncPipeWriter
last_or d [] = d
last_or d (p ∷ ps) = last_or p ps

abbrev pub swap_remove : List AsyncPipeWriter → ℕ → List AsyncPipeWriter
swap_remove [] i = []
swap_remove (p ∷ ps) i = set (drop_last (p ∷ ps)) i (last_or p ps)

complete_at : ℕ → AsyncPipeWriter → Bool → LogGateway → LogGateway × List RawFd
unfolding complete
complete_at idx p ok g =
    let (alive, p', closed) = complete p ok in
    (record g { pipes = if not alive then swap_remove g.pipes idx else set g.pipes idx p' }, closed)

unfoldable pub complete_write : ℕ → Bool → LogGateway → LogGateway × List RawFd
unfolding position complete_at
complete_write id ok g = elim (position id g.pipes) [
  | none ↦ (g, [])
  | some idx ↦ elim (get_elem? g.pipes idx) [ none ↦ (g, []) | some p ↦ complete_at idx p ok g ]
]

-- `iter().find(|p| p.id == pipe_id)`
unfoldable pub find : ℕ → List AsyncPipeWriter → Option AsyncPipeWriter
find id [] = none
find id (p ∷ ps) = if p.id == id then some p else find id ps

unfoldable pub pipe_fd : ℕ → LogGateway → Option RawFd
unfolding find
pipe_fd id g = Option.map (λ p. p.fd) (find id g.pipes)

unfoldable pub close_pipes : List AsyncPipeWriter → List RawFd
close_pipes [] = []
close_pipes (p ∷ ps) = if is_open p.fd then p.fd ∷ close_pipes ps else close_pipes ps

unfoldable pub close_all_pipes : LogGateway → LogGateway × List RawFd
unfolding close_pipes
close_all_pipes g = (record g { pipes = [] }, close_pipes g.pipes)
