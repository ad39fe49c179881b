-- ===== src/Logs/Cache.antt =====
-- `LogCache` of libs/core/src/daemon.rs: a byte ring of `\n`-terminated lines.
-- Each loop takes fuel, and `none` says that it has not ended within it; `Cache.Push` shows that
-- more fuel than the ring has bytes is enough. Sums stay below twice the ring's size and do not
-- wrap; subtractions wrap at 2^64.
pub mod Span
pub mod Evict
pub mod Push
pub mod Read
use mathlib.Core.Option
use conrt.Base.{
  ℕ, zero, suc, ◌+◌, ◌-◌, ◌%◌, Bool, List, [], ◌∷◌, ◌++◌, Option, none, some, length, get_or, set,
  take, drop, replicate, ltb, leb, ◌==◌, if◌then◌else◌,
}
use conrt.Base.Words.{sub_size}

abbrev pub newline : ℕ
newline = b'\n'

pub record LogCache : Type 0 where
  pub buf : List ℕ
  pub start : ℕ
  pub end : ℕ
  pub bytes : ℕ

unfoldable pub new : ℕ → LogCache
new size = record { buf = replicate size 0; start = 0; end = 0; bytes = 0 }

unfoldable pub is_empty : LogCache → Bool
is_empty c = c.bytes == 0

-- `let mut i = self.start; loop { if self.buf[i] == b'\n' { .. break } i = (i + 1) % len }`
unfoldable pub find_newline : ℕ → List ℕ → ℕ → Option ℕ
find_newline zero buf i = none
find_newline (suc fuel) buf i =
    let rest = find_newline fuel buf ((i + 1) % length buf) in
    if get_or buf i 0 == newline then some i else rest

-- The bytes from `pos` to the newline at `i`, which may lie before it in the ring.
abbrev pub line_bytes : LogCache → ℕ → ℕ → ℕ
line_bytes c pos i = if leb pos i then i - pos + 1 else length c.buf - pos + i + 1

-- The oldest line goes.
unfoldable pub drop_oldest : ℕ → LogCache → Option LogCache
unfolding find_newline
drop_oldest fuel c = Option.map drop_to (find_newline fuel c.buf c.start)
  where
    drop_to : ℕ → LogCache
    drop_to i = record c {
      start = (c.start + line_bytes c c.start i) % length c.buf;
      bytes = sub_size c.bytes (line_bytes c c.start i);
    }

-- The outer loop of `push`: lines go until `need` bytes are free.
unfoldable pub make_room : ℕ → ℕ → ℕ → LogCache → Option LogCache
make_room fuel zero need c = none
make_room fuel (suc rounds) need c =
    let more = Option.bind (drop_oldest fuel c) (make_room fuel rounds need) in
    if leb need (sub_size (length c.buf) c.bytes) then some c else more

-- The copying loop of `push`.
unfoldable pub write_bytes : List ℕ → LogCache → LogCache
write_bytes [] c = c
write_bytes (b ∷ bs) c =
    write_bytes bs (record c { buf = set c.buf c.end b; end = (c.end + 1) % length c.buf })

unfoldable pub push : ℕ → List ℕ → LogCache → Option LogCache
push fuel line c = Option.map append (make_room fuel fuel (length line + 1) c)
  where
    append : LogCache → LogCache
    append r =
        let w = write_bytes (line ++ newline ∷ []) r in
        record w { bytes = w.bytes + (length line + 1) }

unfoldable pub snapshot : LogCache → List ℕ
snapshot c =
    if c.bytes == 0
    then []
    else (if ltb c.start c.end
        then take (c.end - c.start) (drop c.start c.buf)
        else drop c.start c.buf ++ take c.end c.buf)

-- The bytes of the line from `pos` to the newline at `i`, without the newline.
abbrev pub line_at : LogCache → ℕ → ℕ → List ℕ
line_at c pos i =
    if leb pos i then take (i - pos) (drop pos c.buf) else drop pos c.buf ++ take i c.buf

-- `from_utf8_lossy` is the standard library's conversion of a line.
module _ {S : Type 0} (from_utf8_lossy : List ℕ → S) where
  unfoldable pub collect_from : ℕ → LogCache → ℕ → ℕ → ℕ → Option (List S)
  collect_from zero c pos remaining i = none
  collect_from (suc fuel) c pos remaining i =
      let next = (i + 1) % length c.buf in
      let skip = collect_from fuel c pos remaining next in
      let rest = collect_from fuel c next (sub_size remaining (line_bytes c pos i)) next in
      if remaining == 0
      then some []
      else (if get_or c.buf i 0 == newline
          then Option.map (λ lines. from_utf8_lossy (line_at c pos i) ∷ lines) rest
          else skip)

  unfoldable pub collect_lines : ℕ → LogCache → Option (List S)
  unfolding collect_from
  collect_lines fuel c =
      if c.bytes == 0 then some [] else collect_from fuel c c.start c.bytes c.start
