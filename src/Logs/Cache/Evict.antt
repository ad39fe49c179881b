-- ===== src/Logs/Cache/Evict.antt =====
-- What the ring holds, and the eviction of its oldest lines.
use native.Mathlib.Nat.{mod-add-mod, mod-eq_of_lt, mod-eq-sub-mod, mod-lt}
use mathlib.Core.Option
use conrt.Base.{
  ℕ, zero, suc, ◌+◌, ◌-◌, ◌%◌, ◌^◌, ◌≤◌, ◌<◌, false, List, [], ◌∷◌, ◌++◌, some, ◌≡◌, refl, sym, ap,
  ◌∙◌, arith, length, length-append, append_cancel, append_assoc, dec_lt, All, ◌==◌, leb,
  if◌then◌else◌, Bool-cases, inl, inr,
}
use conrt.Base.Words.{sub_size}
use conrt.Logs.Cache.{LogCache, newline, find_newline, line_bytes, drop_oldest, make_room}
use conrt.Logs.Cache.Span.{span, length-span, step_step, mod-zero_steps, span-add}

abbrev pub NoNewline : List ℕ → Type 0
NoNewline = All (λ b. (b == newline) ≡ false)

-- The lines as they lie in the ring, each with its `\n`.
abbrev pub joined : List (List ℕ) → List ℕ
joined [] = []
joined (l ∷ ls) = l ++ newline ∷ joined ls

-- The ring holds the lines, oldest first, and its counters say where.
pub record Holds (c : LogCache) (lines : List (List ℕ)) : Type 0 where
  pub small : length c.buf < 2 ^ 63
  pub start_in : c.start < length c.buf
  pub fits : c.bytes ≤ length c.buf
  pub counted : c.bytes ≡ length (joined lines)
  pub content : span c.buf c.start c.bytes ≡ joined lines
  pub end_at : c.end ≡ (c.start + c.bytes) % length c.buf
  pub clean : All NoNewline lines

find_newline_in :
    (fuel : ℕ) (buf : List ℕ) (i n : ℕ) (line rest : List ℕ)
    → i < length buf
    → length line < fuel
    → NoNewline line
    → span buf i n ≡ line ++ newline ∷ rest
    → find_newline fuel buf i ≡ some ((i + length line) % length buf)
unfolding find_newline
find_newline_in zero buf i n line rest hi hf clean e = absurd (omega arith)
find_newline_in (suc fuel) buf i zero line rest hi hf clean e =
    absurd (omega (arith, ap length e, length-append line (newline ∷ rest)))
find_newline_in (suc fuel) buf i (suc n) [] rest hi hf clean e =
    ground (arith, mod-zero_steps (length buf) i hi)
find_newline_in (suc fuel) buf i (suc n) (b ∷ line) rest hi hf clean e = ground (
  arith,
  step_step (length buf) i (length line),
  find_newline_in fuel buf ((i + 1) % length buf) n line rest (mod-lt (i + 1) (omega arith))
      (omega arith) clean.1,
)

pub line_bytes_lem :
    (c : LogCache) (i n : ℕ)
    → i < length c.buf
    → n < length c.buf
    → line_bytes c i ((i + n) % length c.buf) ≡ n + 1
line_bytes_lem c i n hi hn = elim (dec_lt (i + n) (length c.buf)) [
  | yes p ↦ ground (arith, mod-eq_of_lt p)
  | no p ↦ ground (
    arith,
    mod-eq-sub-mod {n = i + n} {m = length c.buf} (omega arith),
    mod-eq_of_lt {n = i + n - length c.buf} {m = length c.buf} (omega arith),
  )
]

-- The ring without its oldest line.
abbrev pub without : LogCache → List ℕ → LogCache
without c l = record c {
  start = (c.start + (length l + 1)) % length c.buf;
  bytes = c.bytes - (length l + 1);
}

pub length-joined-cons :
    (l : List ℕ) (ls : List (List ℕ)) → length (joined (l ∷ ls)) ≡ length l + 1 + length (joined ls)
length-joined-cons l ls = omega (arith, length-append l (newline ∷ joined ls))

rest_content :
    (c : LogCache) (l : List ℕ) (ls : List (List ℕ))
    → Holds c (l ∷ ls)
    → span c.buf ((c.start + (length l + 1)) % length c.buf) (c.bytes - (length l + 1)) ≡ joined ls
rest_content c l ls h =
    append_cancel (span c.buf c.start k) (l ++ newline ∷ []) _ (joined ls)
      (length-span c.buf c.start k ∙ sym (length-append l (newline ∷ [])))
      (sym (span-add c.buf c.start k (c.bytes - k) h.start_in)
        ∙ ap (span c.buf c.start) {x = k + (c.bytes - k)} {y = c.bytes}
            (omega (arith, h.counted, length-joined-cons l ls))
        ∙ h.content
        ∙ sym (append_assoc l (newline ∷ []) (joined ls)))
  where
    k : ℕ
    k = length l + 1

without-Holds :
    (c : LogCache) (l : List ℕ) (ls : List (List ℕ)) → Holds c (l ∷ ls) → Holds (without c l) ls
without-Holds c l ls h = record {
  small = h.small;
  start_in = mod-lt (c.start + (length l + 1)) (omega (arith, h.start_in));
  fits = omega (arith, h.fits);
  counted = omega (arith, h.counted, length-joined-cons l ls);
  content = rest_content c l ls h;
  end_at =
      h.end_at
      ∙ ap (λ k. k % length c.buf) {x = c.start + c.bytes}
          {y = c.start + (length l + 1) + (c.bytes - (length l + 1))}
          (omega (arith, h.counted, length-joined-cons l ls))
      ∙ sym (mod-add-mod (c.start + (length l + 1)) (length c.buf) (c.bytes - (length l + 1)));
  clean = h.clean.1;
}

drop_oldest-without :
    (fuel : ℕ) (c : LogCache) (l : List ℕ) (ls : List (List ℕ))
    → length c.buf < fuel
    → Holds c (l ∷ ls)
    → drop_oldest fuel c ≡ some (without c l)
unfolding drop_oldest
drop_oldest-without fuel c l ls hf h =
    let bound = length-joined-cons l ls in
    ground (
      arith,
      h.counted,
      h.fits,
      h.small,
      find_newline_in fuel c.buf c.start c.bytes l (joined ls) h.start_in
          (omega (arith, bound, h.counted, h.fits)) h.clean.0 h.content,
      line_bytes_lem c c.start (length l) h.start_in (omega (arith, bound, h.counted, h.fits)),
    )

-- The lines that stay when `need` more bytes have to fit into `size`: the oldest go first, and no
-- more than it takes.
abbrev pub keep : ℕ → ℕ → List (List ℕ) → List (List ℕ)
keep size need [] = []
keep size need (l ∷ ls) =
    if leb (length (joined (l ∷ ls)) + need) size then l ∷ ls else keep size need ls

avail_lem : (size bytes : ℕ) → size < 2 ^ 63 → bytes ≤ size → sub_size size bytes ≡ size - bytes
avail_lem size bytes h le = omega arith

-- What is left of the ring after the eviction.
pub record Roomy (c : LogCache) (need : ℕ) (lines : List (List ℕ)) (r : LogCache) : Type 0 where
  pub same_buf : r.buf ≡ c.buf
  pub holds : Holds r (keep (length c.buf) need lines)
  pub room : r.bytes + need ≤ length c.buf

make_room_full :
    (fuel rounds need : ℕ) (c d : LogCache)
    → leb need (sub_size (length c.buf) c.bytes) ≡ false
    → drop_oldest fuel c ≡ some d
    → make_room fuel (suc rounds) need c ≡ make_room fuel rounds need d
unfolding make_room Option.bind
make_room_full fuel rounds need c d full e = rw (full, e)

pub make_room-Roomy :
    (fuel rounds need : ℕ) (c : LogCache) (lines : List (List ℕ))
    → length c.buf < fuel
    → length lines < rounds
    → need ≤ length c.buf
    → Holds c lines
    → (r : LogCache) × (make_room fuel rounds need c ≡ some r) × Roomy c need lines r
unfolding make_room
make_room-Roomy fuel zero need c lines hf hr hn h = absurd (omega arith)
make_room-Roomy fuel (suc rounds) need c [] hf hr hn h = (
  c,
  ground (arith, h.counted, avail_lem (length c.buf) c.bytes h.small h.fits),
  record { same_buf = refl; holds = h; room = omega (arith, h.counted) },
)
make_room-Roomy fuel (suc rounds) need c (l ∷ ls) hf hr hn h =
    elim (Bool-cases (leb (length (joined (l ∷ ls)) + need) (length c.buf))) [
      | inl fit ↦ (
        c,
        ground (arith, h.counted, avail_lem (length c.buf) c.bytes h.small h.fits),
        record { same_buf = refl; holds = rw fit h; room = ground (arith, h.counted) },
      )
      | inr full ↦
          let (r, e, roomy) =
            make_room-Roomy fuel rounds need (without c l) ls hf (omega arith) hn
              (without-Holds c l ls h) in
          (
            r,
            make_room_full fuel rounds need c (without c l)
                  (ground (arith, h.counted, avail_lem (length c.buf) c.bytes h.small h.fits))
                  (drop_oldest-without fuel c l ls hf h)
                ∙ e,
            record { same_buf = roomy.same_buf; holds = rw full roomy.holds; room = roomy.room },
          )
    ]
