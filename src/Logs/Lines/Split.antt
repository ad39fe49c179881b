-- ===== src/Logs/Lines/Split.antt =====
-- The chunks of `split_line`.
use conrt.Base.{
  ==_refl, ℕ, zero, suc, ◌+◌, ◌≤◌, ◌<◌, min, Bool, true, false, List, [], ◌∷◌, ◌++◌, ◌≡◌, refl, ap,
  arith, length, length-append, length-take, length-drop, length-set, take, drop, set, take-all,
}
use conrt.Logs.Cache.{newline}
use conrt.Logs.Lines.{fill_chunk, split_from, split_line, write_chunk_payload}

abbrev pub total : List (List ℕ) → ℕ
total [] = 0
total (c ∷ cs) = length c + total cs

set-last {ℓ} :
    {A : Type ℓ} (xs ys : List A) (v : A)
    → length ys ≡ 1
    → set (xs ++ ys) (length xs) v ≡ xs ++ v ∷ []
set-last [] [] v h = absurd (omega arith)
set-last [] (y ∷ []) v h = refl
set-last [] (y ∷ z ∷ ys) v h = absurd (omega arith)
set-last (x ∷ xs) ys v h = ap (◌∷◌ x) (set-last xs ys v h)

module _ (slot : ℕ → List ℕ) where
  split_from-some : (fuel : ℕ) (rest : List ℕ) → 0 < fuel → 0 < length (split_from slot fuel rest)
  unfolding split_from
  split_from-some zero rest h = absurd (omega arith)
  split_from-some (suc fuel) rest h = ground arith

  -- There is always a chunk to write.
  pub split_line-some : (line : List ℕ) → 0 < length (split_line slot line)
  unfolding split_line
  split_line-some line = split_from-some (suc (length line)) line (omega arith)

module _ (slot : ℕ → List ℕ) (slot-length : (n : ℕ) → length (slot n) ≡ n) where
  length-fill_chunk :
      (bytes : List ℕ) (last : Bool) → length (fill_chunk slot bytes last) ≡ length bytes + 1
  unfolding fill_chunk
  length-fill_chunk bytes last =
      let tail = drop (length bytes) (slot (length bytes + 1)) in
      ground (
        arith,
        length-append bytes tail,
        length-drop (length bytes) (slot (length bytes + 1)),
        slot-length (length bytes + 1),
        length-set (bytes ++ tail) (length bytes) newline,
      )

  total-split_from :
      (fuel : ℕ) (rest : List ℕ)
      → length rest < fuel
      → total (split_from slot fuel rest) ≡ length rest + length (split_from slot fuel rest)
  unfolding split_from
  total-split_from zero rest h = absurd (omega arith)
  total-split_from (suc fuel) rest h =
      let n = min (length rest) write_chunk_payload in
      ground (
        arith,
        length-fill_chunk (take n rest) true,
        length-fill_chunk (take n rest) false,
        length-take n rest,
        length-drop n rest,
        total-split_from fuel (drop n rest),
      )

  -- Where a fresh buffer has the size asked for, the chunks of a line hold together one byte more
  -- than the line for each chunk.
  pub total-split_line :
      (line : List ℕ) → total (split_line slot line) ≡ length line + length (split_line slot line)
  unfolding split_line
  total-split_line line = total-split_from (suc (length line)) line (omega arith)

  fill_chunk_last : (bytes : List ℕ) → fill_chunk slot bytes true ≡ bytes ++ newline ∷ []
  unfolding fill_chunk
  fill_chunk_last bytes = set-last bytes (drop (length bytes) (slot (length bytes + 1))) newline (
      omega (
        arith,
        length-drop (length bytes) (slot (length bytes + 1)),
        slot-length (length bytes + 1),
      ))

  -- Where a fresh buffer has the size asked for, a line of at most 65,535 bytes is one chunk: the
  -- line and its `\n`.
  pub split_line-short :
      (line : List ℕ)
      → length line ≤ write_chunk_payload
      → split_line slot line ≡ (line ++ newline ∷ []) ∷ []
  unfolding split_line split_from
  split_line-short line h =
      let whole : min (length line) write_chunk_payload ≡ length line = omega arith in
      rw (whole, ==_refl, take-all (length line) line (omega arith), fill_chunk_last)

  two_chunks :
      (fuel : ℕ) (rest : List ℕ)
      → 0 < fuel
      → write_chunk_payload < length rest
      → 1 < length (split_from slot (suc fuel) rest)
  unfolding split_from
  two_chunks fuel rest pos h =
      ground (arith, split_from-some slot fuel (drop (min (length rest) write_chunk_payload) rest))

  -- Where a fresh buffer has the size asked for, the chunks of a line of more than 65,535 bytes
  -- have more bytes than the line and its `\n`.
  pub split_line-long :
      (line : List ℕ)
      → write_chunk_payload < length line
      → length line + 1 < total (split_line slot line)
  unfolding split_line
  split_line-long line h = omega (
    arith,
    total-split_from (suc (length line)) line (omega arith),
    two_chunks (length line) line (omega arith) h,
  )
