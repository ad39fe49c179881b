-- ===== src/Logs/Cache/Read.antt =====
-- `snapshot` and `collect_lines` of the log cache read back what the ring holds.
use native.Mathlib.Nat.{mod-add-mod, mod-eq_of_lt, mod-eq-sub-mod, mod-lt}
use mathlib.Core.List.{head-eq_of_cons-eq, tail-eq_of_cons-eq}
use conrt.Base.{
  ℕ, zero, suc, ◌+◌, ◌-◌, ◌%◌, ◌^◌, ◌≤◌, ◌<◌, false, List, [], ◌∷◌, ◌++◌, map, some, ◌≡◌, refl, sym,
  ap, ap₂, subst, ◌∙◌, arith, length, length-append, append_assoc, append-nil, get_or, take, drop,
  All, ◌==◌, dec_lt,
}
use conrt.Base.Words.{sub_size}
use conrt.Logs.Cache.{LogCache, newline, snapshot, line_at, line_bytes, collect_from, collect_lines}
use conrt.Logs.Cache.Span.{span, mod-zero_steps, span-add, span-slice, span-wrap}
use conrt.Logs.Cache.Evict.{NoNewline, joined, Holds, line_bytes_lem}

-- The code's slices from `i` to the index `n` bytes further are the stretch of `n` bytes.
slice_lem :
    (c : LogCache) (i n : ℕ)
    → i < length c.buf
    → n < length c.buf
    → line_at c i ((i + n) % length c.buf) ≡ span c.buf i n
slice_lem c i n hi hn = elim (dec_lt (i + n) (length c.buf)) [
  | yes p ↦ ground (
    arith,
    mod-eq_of_lt p,
    span-slice c.buf i n,
    ap (λ k. take k (drop i c.buf)) {x = i + n - i} {y = n} (omega arith),
  )
  | no p ↦ ground (
    arith,
    mod-eq-sub-mod {n = i + n} {m = length c.buf} (omega arith),
    mod-eq_of_lt {n = i + n - length c.buf} {m = length c.buf} (omega arith),
    span-wrap c.buf i (i + n - length c.buf) hi (omega arith),
    ap (span c.buf i) {x = length c.buf - i + (i + n - length c.buf)} {y = n} (omega arith),
  )
]

snapshot-span :
    (c : LogCache)
    → c.start < length c.buf
    → c.bytes ≤ length c.buf
    → c.end ≡ (c.start + c.bytes) % length c.buf
    → snapshot c ≡ span c.buf c.start c.bytes
unfolding snapshot
snapshot-span c hs hb he = elim (dec_lt (c.start + c.bytes) (length c.buf)) [
  | yes p ↦ ground (
    arith,
    mod-eq_of_lt p,
    span-slice c.buf c.start c.bytes,
    ap (λ k. take k (drop c.start c.buf)) {x = c.start + c.bytes - c.start} {y = c.bytes}
        (omega arith),
    ap (span c.buf c.start) {x = c.bytes} {y = 0},
  )
  | no p ↦ ground (
    arith,
    mod-eq-sub-mod {n = c.start + c.bytes} {m = length c.buf} (omega arith),
    mod-eq_of_lt {n = c.start + c.bytes - length c.buf} {m = length c.buf} (omega arith),
    span-wrap c.buf c.start (c.start + c.bytes - length c.buf) hs (omega arith),
    ap (span c.buf c.start) {x = length c.buf - c.start + (c.start + c.bytes - length c.buf)}
        {y = c.bytes} (omega arith),
  )
]

-- The snapshot of a ring that holds some lines is those lines, oldest first, each with its `\n`.
pub snapshot-joined :
    (c : LogCache) (lines : List (List ℕ)) → Holds c lines → snapshot c ≡ joined lines
snapshot-joined c lines h = snapshot-span c h.start_in h.fits h.end_at ∙ h.content

module _ {S : Type 0} (f : List ℕ → S) where
  collect_end :
      (fuel : ℕ) (c : LogCache) (pos i : ℕ) → 0 < fuel → collect_from f fuel c pos 0 i ≡ some []
  unfolding collect_from
  collect_end zero c pos i h = absurd (omega arith)
  collect_end (suc fuel) c pos i h = refl

  collect_skip :
      (fuel : ℕ) (c : LogCache) (pos remaining i : ℕ)
      → 0 < remaining
      → (get_or c.buf i 0 == newline) ≡ false
      → collect_from f (suc fuel) c pos remaining i
        ≡ collect_from f fuel c pos remaining ((i + 1) % length c.buf)
  unfolding collect_from
  collect_skip fuel c pos remaining i h e = ground arith

  -- At the newline behind `pre`, when the rest of the ring yields `rest`.
  collect_line :
      (fuel : ℕ) (c : LogCache) (pos m : ℕ) (pre : List ℕ) (rest : List S)
      → let i = (pos + length pre) % length c.buf in
        let next = (i + 1) % length c.buf in
        pos < length c.buf
        → length c.buf < 2 ^ 63
        → length pre + suc m ≤ length c.buf
        → get_or c.buf i 0 ≡ newline
        → span c.buf pos (length pre) ≡ pre
        → collect_from f fuel c next m next ≡ some rest
        → collect_from f (suc fuel) c pos (length pre + suc m) i ≡ some (f pre ∷ rest)
  unfolding collect_from
  collect_line fuel c pos m pre rest hp hs hn e1 e2 e3 =
      let i = (pos + length pre) % length c.buf in
      let line : line_at c pos i ≡ pre = slice_lem c pos (length pre) hp (omega arith) ∙ e2 in
      let size : sub_size (length pre + suc m) (line_bytes c pos i) ≡ m =
        ap (sub_size (length pre + suc m)) (line_bytes_lem c pos (length pre) hp (omega arith))
        ∙ omega arith in
      let positive : (length pre + suc m == 0) ≡ false = ground arith in
      rw (positive, e1, size, e3, line)

  -- The loop within a line: `pre` has been passed since `pos`, `post` is to come.
  collect_from_lem :
      (fuel : ℕ) (c : LogCache) (pos : ℕ) (pre post : List ℕ) (ls : List (List ℕ))
      → let n = length (post ++ newline ∷ joined ls) in
        let i = (pos + length pre) % length c.buf in
        pos < length c.buf
        → length c.buf < 2 ^ 63
        → length pre + n ≤ length c.buf
        → n < fuel
        → span c.buf pos (length pre) ≡ pre
        → span c.buf i n ≡ post ++ newline ∷ joined ls
        → NoNewline post
        → All NoNewline ls
        → collect_from f fuel c pos (length pre + n) i ≡ some (f (pre ++ post) ∷ map f ls)
  collect_from_lem zero c pos pre post ls hp hs hn hf e1 e2 cp cl = absurd (omega arith)
  collect_from_lem (suc fuel) c pos pre [] [] hp hs hn hf e1 e2 cp cl =
      collect_line fuel c pos 0 pre [] hp hs hn (head-eq_of_cons-eq e2) e1
        (collect_end fuel c _ _ (omega arith))
      ∙ ap (λ l. some (f l ∷ [])) (sym (append-nil pre))
  collect_from_lem (suc fuel) c pos pre [] (l ∷ ls) hp hs hn hf e1 e2 cp cl =
      let next = ((pos + length pre) % length c.buf + 1) % length c.buf in
      let here = mod-zero_steps (length c.buf) next (mod-lt _ (omega arith)) in
      let ih =
        collect_from_lem fuel c next [] l ls (mod-lt _ (omega arith)) hs (omega arith) (omega arith)
          refl (rw here (tail-eq_of_cons-eq e2)) cl.0 cl.1 in
      collect_line fuel c pos (length (joined (l ∷ ls))) pre (f l ∷ map f ls) hp hs hn
        (head-eq_of_cons-eq e2) e1
        (ap₂ (collect_from f fuel c next) {x = length (joined (l ∷ ls))} (omega arith) (sym here)
          ∙ ih)
      ∙ ap (λ k. some (f k ∷ f l ∷ map f ls)) (sym (append-nil pre))
  collect_from_lem (suc fuel) c pos pre (b ∷ post) ls hp hs hn hf e1 e2 cp cl =
      let size = length c.buf in
      let n = length (post ++ newline ∷ joined ls) in
      let len : length (pre ++ b ∷ []) ≡ length pre + 1 = length-append pre (b ∷ []) in
      let moved : ((pos + length pre) % size + 1) % size ≡ (pos + length (pre ++ b ∷ [])) % size =
        mod-add-mod (pos + length pre) size 1
        ∙ ap (λ k. k % size) {x = pos + length pre + 1} (omega (arith, len)) in
      let passed : span c.buf pos (length (pre ++ b ∷ [])) ≡ pre ++ b ∷ [] =
        ap (span c.buf pos) len
        ∙ span-add c.buf pos (length pre) 1 hp
        ∙ ap₂ (λ xs x. xs ++ x ∷ []) e1 (head-eq_of_cons-eq e2) in
      let left =
        subst (λ j. span c.buf j n ≡ post ++ newline ∷ joined ls) moved (tail-eq_of_cons-eq e2) in
      let ih =
        collect_from_lem fuel c pos (pre ++ b ∷ []) post ls hp hs (omega (arith, len)) (omega arith)
          passed left cp.1 cl in
      collect_skip fuel c pos _ _ (omega arith) (rw (head-eq_of_cons-eq e2) cp.0)
      ∙ ap₂ (collect_from f fuel c pos) {x = length pre + suc n} (omega (arith, len)) moved
      ∙ ih
      ∙ ap (λ k. some (f k ∷ map f ls)) (append_assoc pre (b ∷ []) post)

  -- For a ring that holds some lines, `collect_lines` returns those lines, oldest first, each
  -- converted; it ends within any fuel beyond the number of stored bytes.
  pub collect_lines-map :
      (fuel : ℕ) (c : LogCache) (lines : List (List ℕ))
      → c.bytes < fuel
      → Holds c lines
      → collect_lines f fuel c ≡ some (map f lines)
  unfolding collect_lines
  collect_lines-map fuel c [] hf h = ground (arith, h.counted)
  collect_lines-map fuel c (l ∷ ls) hf h =
      let here = mod-zero_steps (length c.buf) c.start h.start_in in
      let counted = length-append l (newline ∷ joined ls) in
      let some_bytes : (c.bytes == 0) ≡ false = ground (arith, counted, h.counted) in
      let all =
        collect_from_lem fuel c c.start [] l ls h.start_in h.small
          (omega (arith, h.counted, h.fits)) (omega (arith, h.counted)) refl
          (ap₂ (span c.buf) here (sym h.counted) ∙ h.content) h.clean.0 h.clean.1 in
      rw some_bytes (
        ap₂ (collect_from f fuel c c.start) {x = c.bytes} (omega (arith, h.counted)) (sym here)
        ∙ all)
