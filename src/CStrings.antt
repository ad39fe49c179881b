-- ===== src/CStrings.antt =====
-- The C strings of libs/cstring/src/lib.rs. The heap is a list of blocks, each with the bytes that it
-- was allocated with; a block that is freed is none. Freeing a block with another size than it has, and
-- reading outside one, are undefined in the code and `panicked` here. An allocation succeeds.
pub mod Equality
pub mod Lifetime
use conrt.Base.{
  ℕ, zero, suc, ◌+◌, Bool, true, false, List, [], ◌∷◌, ◌++◌, Option, none, some, length, set,
  get_elem?, ◌==◌, if◌then◌else◌, Outcome, done, panicked, ◌>>=◌, ◌>>◌, assert, outcome_map,
}

abbrev pub Heap : Type 0
Heap = List (Option (List ℕ))

pub record CString : Type 0 where
  pub buf : ℕ

pub data CStringError : Type 0 where
  contains_null : ℕ → CStringError

-- The `Result` of `try_from_bytes`, with the heap that is left.
pub data Tried : Type 0 where
  failed : CStringError → Tried
  made : CString → Heap → Tried

-- `position(|&b| b == 0)`
unfoldable pub null_position : List ℕ → Option ℕ
null_position [] = none
null_position (b ∷ bs) =
    let rest = null_position bs in
    if b == 0 then some 0 else elim rest [ none ↦ none | some i ↦ some (suc i) ]

abbrev pub from_bytes_unchecked : List ℕ → Heap → CString × Heap
from_bytes_unchecked s heap = (record { buf = length heap }, heap ++ some (s ++ 0 ∷ []) ∷ [])

-- `from` and `from_str`, which take a text by its bytes.
abbrev pub from : List ℕ → Heap → CString × Heap
from s heap = from_bytes_unchecked s heap

abbrev try_made : CString × Heap → Tried
try_made (c, heap) = made c heap

unfoldable pub try_from_bytes : List ℕ → Heap → Tried
unfolding null_position
try_from_bytes s heap = elim (null_position s) [
  | some pos ↦ failed (contains_null pos)
  | none ↦ try_made (from_bytes_unchecked s heap)
]

-- The memory at the pointer.
unfoldable pub memory_of : CString → Heap → Outcome (List ℕ)
memory_of c heap = elim (get_elem? heap c.buf) [
  | none ↦ panicked
  | some o ↦ elim o [ none ↦ panicked | some bytes ↦ done bytes ]
]

-- The bytes before the terminator.
unfoldable pub c_str : List ℕ → Outcome (List ℕ)
c_str [] = panicked
c_str (b ∷ bs) = let rest = c_str bs in if b == 0 then done [] else outcome_map (◌∷◌ b) rest

unfoldable pub to_bytes : CString → Heap → Outcome (List ℕ)
unfolding memory_of c_str
to_bytes c heap = memory_of c heap >>= c_str

-- `Drop`: the size is computed from the terminator.
unfoldable pub drop_string : CString → Heap → Outcome Heap
unfolding memory_of to_bytes
drop_string c heap = do
  bytes ← to_bytes c heap
  memory ← memory_of c heap
  assert (length bytes + 1 == length memory)
  done (set heap c.buf none)

-- `eq`, byte by byte.
unfoldable pub eq_from : List ℕ → List ℕ → Outcome Bool
eq_from [] bs = panicked
eq_from (a ∷ rest_a) [] = panicked
eq_from (a ∷ rest_a) (b ∷ bs) =
    let rest = eq_from rest_a bs in
    if a == b then (if a == 0 then done true else rest) else done false

unfoldable pub eq : CString → CString → Heap → Outcome Bool
unfolding memory_of eq_from
eq c d heap = do a ← memory_of c heap; b ← memory_of d heap; eq_from a b

unfoldable pub clone : CString → Heap → Outcome (CString × Heap)
unfolding to_bytes
clone c heap = do s ← to_bytes c heap; done (from s heap)
