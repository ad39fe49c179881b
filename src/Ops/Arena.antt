-- ===== src/Ops/Arena.antt =====
-- The buffer arena of libs/coio-core/src/runtime.rs: runs of erased caller buffers, carved out of one
-- vector and recycled through a free list per size class. A link is kept in a free block's first
-- word. Indices are `u32` and words `u64`.
pub mod Recycle
use mathlib.Core.Option
use conrt.Base.{
  ℕ, zero, suc, ◌+◌, ◌-◌, ◌%◌, ◌^◌, Bool, true, false, not, List, [], ◌∷◌, ◌++◌, Option, none, some,
  length, get_or, set, take, drop, replicate, ltb, leb, ◌==◌, if◌then◌else◌, Outcome, done,
  panicked, ◌>>=◌, ◌>>◌, assert, vec_get, expect,
}

pub record IoBufErased : Type 0 where
  pub a : ℕ
  pub b : ℕ

-- `IoBufErased::NONE`
abbrev pub no_buf : IoBufErased
no_buf = record { a = 0; b = 0 }

-- BUF_NONE
abbrev pub buf_none : ℕ
buf_none = 2 ^ 32 - 1

-- BUF_CLASSES
abbrev pub buf_classes : List ℕ
buf_classes = 1 ∷ 2 ∷ 4 ∷ 8 ∷ 16 ∷ 64 ∷ 256 ∷ 1024 ∷ []

pub record BufArena : Type 0 where
  pub blocks : List IoBufErased
  pub free : List ℕ

abbrev pub new : BufArena
new = record { blocks = []; free = replicate 8 buf_none }

-- `BUF_CLASSES.iter().position(|&n| n >= len)`
unfoldable pub position_ge : ℕ → List ℕ → Option ℕ
position_ge len [] = none
position_ge len (n ∷ ns) = if leb len n then some 0 else Option.map suc (position_ge len ns)

unfoldable pub class_for : ℕ → Outcome ℕ
unfolding position_ge
class_for len = expect (position_ge len buf_classes)

-- The link in a block's first word, cut down to a `u32`.
unfoldable pub next_link : List IoBufErased → ℕ → Outcome ℕ
next_link blocks index = vec_get blocks index >>= λ block. done (block.a % 2 ^ 32)

-- A run off the class's free list.
unfoldable pub pop_run : ℕ → ℕ → BufArena → Outcome (ℕ × BufArena)
unfolding next_link
pop_run class head arena = do
  next ← next_link arena.blocks head
  done (head, record arena { free = set arena.free class next })

-- A run at the end of the vector.
unfoldable pub extend_run : ℕ → BufArena → Outcome (ℕ × BufArena)
extend_run size arena = do
  assert (ltb (length arena.blocks + size) buf_none)
  done (length arena.blocks, record arena { blocks = arena.blocks ++ replicate size no_buf })

unfoldable pub alloc : ℕ → BufArena → Outcome (ℕ × BufArena)
unfolding class_for pop_run extend_run
alloc len arena = do
  assert (ltb 0 len)
  assert (leb len 1024)
  class ← class_for len
  head ← vec_get arena.free class
  if not (head == buf_none)
      then pop_run class head arena
      else extend_run (get_or buf_classes class 0) arena

unfoldable pub release : ℕ → ℕ → BufArena → Outcome BufArena
unfolding class_for
release start len arena = do
  class ← class_for len
  block ← vec_get arena.blocks start
  head ← vec_get arena.free class
  done (record {
    blocks = set arena.blocks start (record block { a = head });
    free = set arena.free class start;
  })

-- A run in use, by its start and its length.
abbrev pub Run : Type 0
Run = ℕ × ℕ

-- `blocks[start..start + len]`
unfoldable pub run_bufs : Option Run → BufArena → Outcome (List IoBufErased)
run_bufs none arena = done []
run_bufs (some (start, len)) arena = do
  assert (leb (start + len) (length arena.blocks))
  done (take len (drop start arena.blocks))

-- `blocks[start..start + bufs.len()].copy_from_slice(bufs)`, for a run in bounds.
abbrev pub copy_at : ℕ → List IoBufErased → List IoBufErased → List IoBufErased
copy_at start bufs blocks = take start blocks ++ bufs ++ drop (start + length bufs) blocks

-- A run for the buffers of an op, if it has any, with the buffers in it.
unfoldable pub alloc_buf_run : List IoBufErased → BufArena → Outcome (Option Run × BufArena)
unfolding alloc
alloc_buf_run [] arena = done (none, arena)
alloc_buf_run (buf ∷ bufs) arena = do
  (start, arena') ← alloc (length (buf ∷ bufs)) arena
  assert (leb (start + length (buf ∷ bufs)) (length arena'.blocks))
  done (
    some (start, length (buf ∷ bufs)),
    record arena' { blocks = copy_at start (buf ∷ bufs) arena'.blocks },
  )

unfoldable pub release_run : Option Run → BufArena → Outcome BufArena
unfolding release
release_run none arena = done arena
release_run (some (start, len)) arena = release start len arena
