-- ===== src/Logs/Cache/Push.antt =====
-- `push` of the log cache: with fuel it ends, and then the ring holds the newest lines that fit.
use native.Mathlib.Nat.{mod-add-mod, mod-eq_of_lt}
use mathlib.Core.Option
use conrt.Base.{
  ℕ, zero, suc, ◌+◌, ◌%◌, ◌^◌, ◌≤◌, ◌<◌, List, [], ◌∷◌, ◌++◌, none, some, ◌≡◌, refl, sym, ap, ap₂,
  subst, ◌∙◌, arith, length, length-append, append_assoc, append-nil, get_or, set, All, length-set,
  replicate, length-replicate,
}
use conrt.Logs.Cache.{
  LogCache, newline, new, write_bytes, make_room, push, find_newline, drop_oldest,
}
use conrt.Logs.Cache.Span.{span, span-write}
use conrt.Logs.Cache.Evict.{NoNewline, joined, Holds, keep, make_room-Roomy, length-joined-cons}

-- After the `n` bytes from `s` on have been written and the rest of `line` is still to come.
pub record Wrote (c : LogCache) (n : ℕ) (bs : List ℕ) (w : LogCache) : Type 0 where
  pub same_size : length w.buf ≡ length c.buf
  pub same_start : w.start ≡ c.start
  pub same_bytes : w.bytes ≡ c.bytes
  pub end_at : w.end ≡ (c.start + (n + length bs)) % length c.buf
  pub content : span w.buf c.start (n + length bs) ≡ span c.buf c.start n ++ bs

write_bytes-Wrote :
    (bs : List ℕ) (c : LogCache) (n : ℕ)
    → c.start < length c.buf
    → n + length bs ≤ length c.buf
    → c.end ≡ (c.start + n) % length c.buf
    → Wrote c n bs (write_bytes bs c)
unfolding write_bytes
write_bytes-Wrote [] c n hs hn he = record {
  same_size = refl;
  same_start = refl;
  same_bytes = refl;
  end_at = he ∙ ap (λ k. (c.start + k) % length c.buf) {x = n} {y = n + 0} (omega arith);
  content = ap (span c.buf c.start) {x = n + 0} {y = n} (omega arith) ∙ sym (append-nil _);
}
write_bytes-Wrote (b ∷ bs) c n hs hn he =
    let w =
      write_bytes-Wrote bs next (suc n) (omega (arith, same)) (omega (arith, same)) next_end in
    record {
      same_size = w.same_size ∙ same;
      same_start = w.same_start;
      same_bytes = w.same_bytes;
      end_at =
          w.end_at
          ∙ ap₂ (λ k m. (c.start + k) % m) {x = suc n + length bs} {y = n + suc (length bs)}
              (omega arith) same;
      content =
          ap (span (write_bytes bs next).buf c.start) {x = n + suc (length bs)}
            {y = suc n + length bs} (omega arith)
          ∙ w.content
          ∙ ap (λ xs. xs ++ bs) written
          ∙ append_assoc (span c.buf c.start n) (b ∷ []) bs;
    }
  where
    next : LogCache
    next = record c { buf = set c.buf c.end b; end = (c.end + 1) % length c.buf }

    same : length (set c.buf c.end b) ≡ length c.buf
    same = length-set c.buf c.end b

    next_end : (c.end + 1) % length c.buf ≡ (c.start + suc n) % length (set c.buf c.end b)
    next_end =
        ap (λ e. (e + 1) % length c.buf) he
        ∙ mod-add-mod (c.start + n) (length c.buf) 1
        ∙ ap₂ (λ k m. k % m) {x = c.start + n + 1} {y = c.start + suc n} (omega arith) (sym same)

    written : span (set c.buf c.end b) c.start (suc n) ≡ span c.buf c.start n ++ b ∷ []
    written =
        subst (λ e. span (set c.buf e b) c.start (suc n) ≡ span c.buf c.start n ++ b ∷ []) (sym he)
          (span-write c.buf c.start n b hs (omega arith))

joined-append :
    (ls : List (List ℕ)) (line : List ℕ)
    → joined (ls ++ line ∷ []) ≡ joined ls ++ (line ++ newline ∷ [])
joined-append [] line = refl
joined-append (l ∷ ls) line =
    ap (λ xs. l ++ newline ∷ xs) (joined-append ls line)
    ∙ sym (append_assoc l (newline ∷ joined ls) (line ++ newline ∷ []))

All-append {ℓ κ} :
    {A : Type ℓ} (P : A → Type κ) (xs : List A) (y : A) → All P xs → P y → All P (xs ++ y ∷ [])
All-append P [] y h p = (p, tt)
All-append P (x ∷ xs) y h p = (h.0, All-append P xs y h.1 p)

count-le-joined : (ls : List (List ℕ)) → length ls ≤ length (joined ls)
count-le-joined [] = omega arith
count-le-joined (l ∷ ls) = omega (arith, count-le-joined ls, length-joined-cons l ls)

-- The ring after the line has been written behind the `kept` ones.
appended-Holds :
    (r : LogCache) (kept : List (List ℕ)) (line : List ℕ)
    → Holds r kept
    → r.bytes + (length line + 1) ≤ length r.buf
    → NoNewline line
    → let w = write_bytes (line ++ newline ∷ []) r in
      Holds (record w { bytes = w.bytes + (length line + 1) }) (kept ++ line ∷ [])
appended-Holds r kept line h room clean =
    let len = length-append line (newline ∷ []) in
    let w =
      write_bytes-Wrote (line ++ newline ∷ []) r r.bytes h.start_in (omega (arith, len)) h.end_at in
    let total =
      ap length (joined-append kept line) ∙ length-append (joined kept) (line ++ newline ∷ []) in
    let count : (write_bytes (line ++ newline ∷ []) r).bytes + (length line + 1)
        ≡ r.bytes + length (line ++ newline ∷ []) =
      omega (arith, w.same_bytes, len) in
    record {
      small = omega (arith, w.same_size, h.small);
      start_in = omega (arith, w.same_size, w.same_start, h.start_in);
      fits = omega (arith, w.same_size, w.same_bytes);
      counted = omega (arith, w.same_bytes, h.counted, len, total);
      content =
          ap₂ (span (write_bytes (line ++ newline ∷ []) r).buf) w.same_start count
          ∙ w.content
          ∙ ap (λ xs. xs ++ (line ++ newline ∷ [])) h.content
          ∙ sym (joined-append kept line);
      end_at = w.end_at ∙ sym (ap₂ ◌%◌ (ap₂ ◌+◌ w.same_start count) w.same_size);
      clean = All-append NoNewline kept line h.clean clean;
    }

-- Pushing a line that has no `\n` and fits the ring together with one, into a ring that holds some
-- lines, ends within any fuel beyond the ring's size; the ring then holds the newest of the old
-- lines that leave room for it, and the line behind them.
pub push-Holds :
    (fuel : ℕ) (c : LogCache) (lines : List (List ℕ)) (line : List ℕ)
    → length c.buf < fuel
    → length line + 1 ≤ length c.buf
    → NoNewline line
    → Holds c lines
    → (c' : LogCache) × (push fuel line c ≡ some c')
      × (length c'.buf ≡ length c.buf)
      × Holds c' (keep (length c.buf) (length line + 1) lines ++ line ∷ [])
unfolding push
push-Holds fuel c lines line hf hl clean h =
    let (r, e, roomy) =
      make_room-Roomy fuel fuel (length line + 1) c lines hf
        (omega (arith, count-le-joined lines, h.counted, h.fits)) hl h in
    let w = write_bytes (line ++ newline ∷ []) r in
    let kept_size = ap length roomy.same_buf in
    let len = length-append line (newline ∷ []) in
    (
      record w { bytes = w.bytes + (length line + 1) },
      rw e,
      (write_bytes-Wrote (line ++ newline ∷ []) r r.bytes roomy.holds.start_in
            (omega (arith, len, kept_size, roomy.room)) roomy.holds.end_at).same_size
          ∙ kept_size,
      appended-Holds r (keep (length c.buf) (length line + 1) lines) line roomy.holds
          (omega (arith, kept_size, roomy.room)) clean,
    )

-- A fresh ring of 1 to 2^63 - 1 bytes holds no line.
pub new-Holds : (size : ℕ) → 0 < size → size < 2 ^ 63 → Holds (new size) []
unfolding new
new-Holds size pos h = record {
  small = omega (arith, length-replicate size zero);
  start_in = omega (arith, length-replicate size zero);
  fits = omega arith;
  counted = refl;
  content = refl;
  end_at = sym (mod-eq_of_lt (omega (arith, length-replicate size zero)));
  clean = tt;
}

get_or-replicate : (n i : ℕ) → get_or (replicate n zero) i zero ≡ zero
get_or-replicate zero i = refl
get_or-replicate (suc n) zero = refl
get_or-replicate (suc n) (suc i) = get_or-replicate n i

no_newline_found : (fuel size i : ℕ) → find_newline fuel (replicate size zero) i ≡ none
unfolding find_newline
no_newline_found zero size i = refl
no_newline_found (suc fuel) size i = ground (
  arith,
  get_or-replicate size i,
  no_newline_found fuel size ((i + 1) % length (replicate size zero)),
)

-- In a fresh ring of 1 to 2^63 - 1 bytes, the push of a line that does not fit the ring with its
-- `\n` does not end within any fuel.
pub push-new-too_long :
    (fuel size : ℕ) (line : List ℕ)
    → 0 < size
    → size < 2 ^ 63
    → size ≤ length line
    → push fuel line (new size) ≡ none
unfolding push new make_room drop_oldest Option.bind
push-new-too_long zero size line pos h long = refl
push-new-too_long (suc fuel) size line pos h long =
    ground (arith, length-replicate size zero, no_newline_found (suc fuel) size 0)
