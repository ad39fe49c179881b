-- ===== src/Logs/Lines.antt =====
-- `drain_lines` and `split_line` of libs/core/src/daemon.rs: a byte stream is cut into lines, and a
-- line into write chunks.
pub mod Drain
pub mod Split
use conrt.Base.{
  ℕ, zero, suc, ◌+◌, ◌-◌, min, Bool, true, false, List, [], ◌∷◌, ◌++◌, length, get_or, set, take,
  drop, ltb, ◌==◌, if◌then◌else◌,
}
use conrt.Logs.Cache.{newline}

-- `for i in i..total`, over the `rounds` left: the lines found, and the final `start`.
unfoldable pub scan_lines : ℕ → List ℕ → ℕ → ℕ → List (List ℕ) × ℕ
scan_lines zero buf i start = ([], start)
scan_lines (suc rounds) buf i start =
    let found = get_or buf i 0 == newline in
    let (lines, end) = scan_lines rounds buf (i + 1) (if found then i + 1 else start) in
    if found then (take (i - start) (drop start buf) ∷ lines, end) else (lines, end)

-- The lines found, and the line buffer afterwards.
unfoldable pub drain_lines : List ℕ → List ℕ → List (List ℕ) × List ℕ
unfolding scan_lines
drain_lines line_buf bytes =
    let buf = line_buf ++ bytes in
    let (lines, start) = scan_lines (length buf) buf 0 0 in
    (lines, if ltb start (length buf) then drop start buf else [])

abbrev pub write_chunk_payload : ℕ
write_chunk_payload = 65535

-- `slot size` is what the memory of a buffer of `size` bytes, fresh from the pool, holds.
module _ (slot : ℕ → List ℕ) where
  -- `buf[..take].copy_from_slice(..)`, then the newline if it is the last chunk.
  unfoldable pub fill_chunk : List ℕ → Bool → List ℕ
  fill_chunk bytes last =
      let buf = bytes ++ drop (length bytes) (slot (length bytes + 1)) in
      if last then set buf (length bytes) newline else buf

  -- Each round takes at least one byte, or is the last: `suc (length line)` rounds are enough.
  unfoldable pub split_from : ℕ → List ℕ → List (List ℕ)
  unfolding fill_chunk
  split_from zero rest = []
  split_from (suc fuel) rest =
      let n = min (length rest) write_chunk_payload in
      let last = n == length rest in
      let more = split_from fuel (drop n rest) in
      if last then fill_chunk (take n rest) true ∷ [] else fill_chunk (take n rest) false ∷ more

  unfoldable pub split_line : List ℕ → List (List ℕ)
  unfolding split_from
  split_line line = split_from (suc (length line)) line
