-- ===== src/Examples/Caches.antt =====
-- The log ring and the gateway of libs/core/src/daemon.rs at concrete inputs.
use conrt.Base.{
  ℕ, Bool, true, false, List, [], ◌∷◌, ◌++◌, map, none, some, ◌≡◌, refl, arith, length,
}
use conrt.Logs.Cache
use conrt.Logs.Cache.{LogCache, snapshot, collect_lines, collect_from}
use conrt.Logs.Cache.Evict.{Holds, keep}
use conrt.Logs.Cache.Push.{push-Holds, push-new-too_long}
use conrt.Logs.Cache.Read.{snapshot-joined, collect_lines-map}
use conrt.Logs.Gateway
use conrt.Logs.Gateway.{AsyncPipeWriter, LogGateway}
use conrt.Logs.Gateway.Pipes.{
  Distinct, idle_ids, busy, Completed, push-idle_ids, complete_write-find,
}

-- A ring of four bytes whose one line, `a`, goes over the end.
abbrev wrapped : LogCache
wrapped = record { buf = 10 ∷ 0 ∷ 0 ∷ 97 ∷ []; start = 3; end = 1; bytes = 2 }

abbrev one_line : List (List ℕ)
one_line = (97 ∷ []) ∷ []

wrapped-Holds : Holds wrapped one_line
wrapped-Holds = record {
  small = omega arith;
  start_in = omega arith;
  fits = omega arith;
  counted = refl;
  content = refl;
  end_at = refl;
  clean = ((refl, tt), tt);
}

push-Holds_example :
    (c' : LogCache) × (Cache.push 5 (98 ∷ 99 ∷ []) wrapped ≡ some c')
    × (length c'.buf ≡ 4)
    × Holds c' (keep 4 3 one_line ++ (98 ∷ 99 ∷ []) ∷ [])
push-Holds_example =
    push-Holds 5 wrapped one_line (98 ∷ 99 ∷ []) (omega arith) (omega arith) (refl, (refl, tt))
      wrapped-Holds

push-new-too_long_example : Cache.push 9 (97 ∷ 98 ∷ []) (Cache.new 2) ≡ none
push-new-too_long_example =
    push-new-too_long 9 2 (97 ∷ 98 ∷ []) (omega arith) (omega arith) (omega arith)

snapshot-joined_example : snapshot wrapped ≡ 97 ∷ 10 ∷ []
snapshot-joined_example = snapshot-joined wrapped one_line wrapped-Holds

collect_lines-map_example : collect_lines length 3 wrapped ≡ some (1 ∷ [])
collect_lines-map_example = collect_lines-map length 3 wrapped one_line (omega arith) wrapped-Holds

abbrev writer : ℕ → ℕ → Bool → AsyncPipeWriter
writer id fd in_flight = record { id = id; fd = some fd; in_flight = in_flight }

abbrev two_pipes : LogGateway
two_pipes = record { cache = wrapped; pipes = writer 0 7 true ∷ writer 1 8 false ∷ [] }

two_pipes-Distinct : Distinct two_pipes.pipes
two_pipes-Distinct j = ground arith

abbrev pushed : LogGateway
pushed = record {
  cache = record { buf = 10 ∷ 98 ∷ 10 ∷ 97 ∷ []; start = 3; end = 3; bytes = 4 };
  pipes = writer 0 7 true ∷ writer 1 8 true ∷ [];
}

push-idle_ids_example :
    (1 ∷ [] ≡ idle_ids two_pipes.pipes)
    × (pushed.pipes ≡ map busy two_pipes.pipes)
    × (Cache.push 5 (98 ∷ []) wrapped ≡ some pushed.cache)
unfolding Gateway.push Gateway.mark_idle Cache.push Cache.make_room Cache.write_bytes
push-idle_ids_example = push-idle_ids 5 (98 ∷ []) (1 ∷ []) two_pipes pushed refl

complete_write-find_example :
    Completed 0 1 false two_pipes (Gateway.complete_write 0 false two_pipes)
complete_write-find_example = complete_write-find 0 1 false two_pipes two_pipes-Distinct
