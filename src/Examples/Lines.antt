-- ===== src/Examples/Lines.antt =====
-- Cutting a stream into lines and a line into chunks, at concrete inputs.
use conrt.Base.{
  ℕ, ◌+◌, ◌<◌, List, [], ◌∷◌, ◌++◌, ◌≡◌, arith, length, replicate, length-replicate, All,
}
use conrt.Logs.Cache.Evict.{joined, NoNewline}
use conrt.Logs.Lines.{drain_lines, split_line}
use conrt.Logs.Lines.Drain.{drain_lines-joined}
use conrt.Logs.Lines.Split.{total, split_line-long}
use conrt.Daemon.Drains.Follow.{deliver, deliver-all}

-- A pool whose memory is all zero.
abbrev zeroed : ℕ → List ℕ
zeroed n = replicate n 0

zeroed-length : (n : ℕ) → length (zeroed n) ≡ n
zeroed-length n = length-replicate n 0

drain_lines-joined_example :
    let (lines, rest) = drain_lines (97 ∷ []) (10 ∷ 98 ∷ []) in
    (joined lines ++ rest ≡ 97 ∷ 10 ∷ 98 ∷ []) × All NoNewline lines × NoNewline rest
drain_lines-joined_example = drain_lines-joined (97 ∷ []) (10 ∷ 98 ∷ [])

abbrev long_line : List ℕ
long_line = replicate 65536 97

split_line-long_example : length long_line + 1 < total (split_line zeroed long_line)
split_line-long_example =
    split_line-long zeroed zeroed-length long_line
      (omega (arith, length-replicate {A = ℕ} 65536 97))

deliver-all_example :
    deliver (1 ∷ 1 ∷ 1 ∷ []) ((97 ∷ 98 ∷ []) ∷ (10 ∷ []) ∷ []) ≡ (97 ∷ 98 ∷ 10 ∷ [], [])
deliver-all_example =
    deliver-all (1 ∷ 1 ∷ 1 ∷ []) ((97 ∷ 98 ∷ []) ∷ (10 ∷ []) ∷ [])
      (omega arith, (omega arith, (omega arith, tt))) (omega arith, (omega arith, tt)) (omega arith)
