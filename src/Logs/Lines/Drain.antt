-- ===== src/Logs/Lines/Drain.antt =====
-- `drain_lines` cuts a stream exactly at its newlines.
use conrt.Base.{
  ℕ, zero, suc, ◌+◌, ◌-◌, ◌≤◌, true, false, List, [], ◌∷◌, ◌++◌, ◌≡◌, refl, sym, ap, ap₂, subst,
  ◌∙◌, arith, length, length-append, append_assoc, append-nil, get_or, take, drop, ltb, ◌==◌,
  if◌then◌else◌, All, Bool-cases, inl, inr,
}
use conrt.Logs.Cache.{newline}
use conrt.Logs.Cache.Evict.{NoNewline, joined}
use conrt.Logs.Lines.{scan_lines, drain_lines}

module _ {ℓ} {A : Type ℓ} where
  get_or-append : (xs ys : List A) (y d : A) → get_or (xs ++ y ∷ ys) (length xs) d ≡ y
  get_or-append [] ys y d = refl
  get_or-append (x ∷ xs) ys y d = get_or-append xs ys y d

  drop-append : (xs ys : List A) → drop (length xs) (xs ++ ys) ≡ ys
  drop-append [] ys = refl
  drop-append (x ∷ xs) ys = drop-append xs ys

  take-append : (xs ys : List A) → take (length xs) (xs ++ ys) ≡ xs
  take-append [] ys = refl
  take-append (x ∷ xs) ys = ap (◌∷◌ x) (take-append xs ys)

NoNewline-append :
    (xs : List ℕ) (b : ℕ) → NoNewline xs → (b == newline) ≡ false → NoNewline (xs ++ b ∷ [])
NoNewline-append [] b h e = (e, tt)
NoNewline-append (x ∷ xs) b h e = (h.0, NoNewline-append xs b h.1 e)

-- What the loop yields from the bytes `cur` of an unfinished line and the bytes `todo` to come.
record Cut (buf cur todo : List ℕ) (r : List (List ℕ) × ℕ) : Type 0 where
  whole : joined r.0 ++ drop r.1 buf ≡ cur ++ todo
  clean : All NoNewline r.0
  partial : NoNewline (drop r.1 buf)

scan_hit :
    (rounds i start : ℕ) (buf : List ℕ)
    → (get_or buf i 0 == newline) ≡ true
    → scan_lines (suc rounds) buf i start ≡ (
      take (i - start) (drop start buf) ∷ (scan_lines rounds buf (i + 1) (i + 1)).0,
      (scan_lines rounds buf (i + 1) (i + 1)).1,
    )
unfolding scan_lines
scan_hit rounds i start buf h = rw h

scan_miss :
    (rounds i start : ℕ) (buf : List ℕ)
    → (get_or buf i 0 == newline) ≡ false
    → scan_lines (suc rounds) buf i start ≡ scan_lines rounds buf (i + 1) start
unfolding scan_lines
scan_miss rounds i start buf h = rw h

hit-Cut :
    (buf cur todo : List ℕ) (b : ℕ) (r : List (List ℕ) × ℕ) (line : List ℕ)
    → (b == newline) ≡ true
    → line ≡ cur
    → NoNewline cur
    → Cut buf [] todo r
    → Cut buf cur (b ∷ todo) (line ∷ r.0, r.1)
hit-Cut buf cur todo b r line hit e clean c = record {
  whole =
      ap (λ l. (l ++ newline ∷ joined r.0) ++ drop r.1 buf) e
      ∙ append_assoc cur (newline ∷ joined r.0) (drop r.1 buf)
      ∙ ap₂ (λ x xs. cur ++ x ∷ xs) (ground arith) c.whole;
  clean = rw e (clean, c.clean);
  partial = c.partial;
}

miss-Cut :
    (buf cur todo : List ℕ) (b : ℕ) (r : List (List ℕ) × ℕ)
    → Cut buf (cur ++ b ∷ []) todo r
    → Cut buf cur (b ∷ todo) r
miss-Cut buf cur todo b r c = record {
  whole = c.whole ∙ append_assoc cur (b ∷ []) todo;
  clean = c.clean;
  partial = c.partial;
}

-- The parts of the buffer around the index that the loop is at.
module _ (buf past cur todo : List ℕ) (b : ℕ) (e : buf ≡ past ++ (cur ++ b ∷ todo)) where
  byte_here : get_or buf (length past + length cur) 0 ≡ b
  byte_here =
      ap₂ (λ xs i. get_or xs i 0) (e ∙ sym (append_assoc past cur (b ∷ todo)))
        (sym (length-append past cur))
      ∙ get_or-append (past ++ cur) todo b 0

  line_here : take (length past + length cur - length past) (drop (length past) buf) ≡ cur
  line_here =
      ap₂ take {x = length past + length cur - length past} {y = length cur} (omega arith)
        (ap (drop (length past)) e ∙ drop-append past (cur ++ b ∷ todo))
      ∙ take-append cur (b ∷ todo)

  past_line : length (past ++ (cur ++ b ∷ [])) ≡ length past + length cur + 1
  past_line = omega (arith, length-append past (cur ++ b ∷ []), length-append cur (b ∷ []))

  buf_next : buf ≡ past ++ ((cur ++ b ∷ []) ++ todo)
  buf_next = e ∙ ap (◌++◌ past) (sym (append_assoc cur (b ∷ []) todo))

  buf_past : buf ≡ (past ++ (cur ++ b ∷ [])) ++ todo
  buf_past = buf_next ∙ sym (append_assoc past (cur ++ b ∷ []) todo)

scan_lines-Cut :
    (buf past cur todo : List ℕ)
    → buf ≡ past ++ (cur ++ todo)
    → NoNewline cur
    → Cut buf cur todo (scan_lines (length todo) buf (length past + length cur) (length past))
unfolding scan_lines
scan_lines-Cut buf past cur [] e clean = record {
  whole = rw e (drop-append past (cur ++ []));
  clean = tt;
  partial = rw (e, drop-append, append-nil) clean;
}
scan_lines-Cut buf past cur (b ∷ todo) e clean = elim (Bool-cases (b == newline)) [
  | inl hit ↦
      let n = length past + length cur + 1 in
      let ih =
        scan_lines-Cut buf (past ++ (cur ++ b ∷ [])) [] todo (buf_past buf past cur todo b e) tt in
      let moved = past_line buf past cur todo b e in
      subst (Cut buf cur (b ∷ todo))
        (sym (
          scan_hit (length todo) (length past + length cur) (length past) buf
            (rw (byte_here buf past cur todo b e) hit)))
        (hit-Cut buf cur todo b (scan_lines (length todo) buf n n) _ hit
          (line_here buf past cur todo b e) clean
          (subst (Cut buf [] todo)
            (ap₂ (scan_lines (length todo) buf) {x = length (past ++ (cur ++ b ∷ [])) + 0}
              (omega (arith, moved)) moved)
            ih))
  | inr miss ↦
      let ih =
        scan_lines-Cut buf past (cur ++ b ∷ []) todo (buf_next buf past cur todo b e)
          (NoNewline-append cur b clean miss) in
      subst (Cut buf cur (b ∷ todo))
        (sym (
          scan_miss (length todo) (length past + length cur) (length past) buf
            (rw (byte_here buf past cur todo b e) miss)))
        (miss-Cut buf cur todo b _ (
          subst (Cut buf (cur ++ b ∷ []) todo)
            (ap (λ i. scan_lines (length todo) buf i (length past))
              {x = length past + length (cur ++ b ∷ [])}
              (omega (arith, length-append cur (b ∷ []))))
            ih))
]

drop-all {ℓ} : {A : Type ℓ} (n : ℕ) (xs : List A) → length xs ≤ n → drop n xs ≡ []
drop-all zero [] h = refl
drop-all zero (x ∷ xs) h = absurd (omega arith)
drop-all (suc n) [] h = refl
drop-all (suc n) (x ∷ xs) h = drop-all n xs (omega arith)

-- What was buffered and read is exactly the lines found, each with its `\n`, and then the new line
-- buffer; neither a line nor the new buffer contains a `\n`.
pub drain_lines-joined :
    (line_buf bytes : List ℕ)
    → let (lines, rest) = drain_lines line_buf bytes in
      (joined lines ++ rest ≡ line_buf ++ bytes) × All NoNewline lines × NoNewline rest
unfolding drain_lines
drain_lines-joined line_buf bytes =
    let buf = line_buf ++ bytes in
    let c = scan_lines-Cut buf [] [] buf refl tt in
    let (lines, start) = scan_lines (length buf) buf 0 0 in
    let kept : (if ltb start (length buf) then drop start buf else []) ≡ drop start buf =
      elim (Bool-cases (ltb start (length buf))) [
        | inl e ↦ rw e
        | inr e ↦ rw e (sym (drop-all start buf (ground arith)))
      ] in
    (ap (◌++◌ (joined lines)) kept ∙ c.whole, c.clean, rw kept c.partial)
