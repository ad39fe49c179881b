-- ===== src/Buffers/Slices.antt =====
-- The slice views of libs/coio-uring/src/buf.rs: `Slice` and `SliceMut`, with `Bytes` and `BytesMut`
-- over `u8` in the children. Sums and differences of `u32` wrap. In the children `memory` is the
-- content of an address.
pub mod Bytes
pub mod BytesMut
pub mod Address
pub mod Halves
use conrt.Base.{
  ℕ, zero, suc, ◌+◌, ◌-◌, ◌*◌, ◌/◌, ◌%◌, ◌^◌, Bool, true, false, ◌||◌, List, [], ◌∷◌, Option, none,
  some, ltb, leb, ◌==◌, if◌then◌else◌, Outcome, done, panicked, ◌>>=◌, ◌>>◌, assert,
}
use conrt.Buffers.Views.{Ref, Slice, Layout}
use conrt.Buffers.Routing
use conrt.Buffers.Routing.{Thread}
use conrt.Buffers.Refs

-- `offset` more bytes into the slot, over `len` elements.
abbrev pub part : Slice → (offset len : ℕ) → Slice
part s offset len = record {
  ref = record s.ref { offset = (s.ref.offset + offset) % 2 ^ 32 };
  len = len % 2 ^ 32;
}

-- `Slice::into_ref`: the borrow goes with the base.
abbrev pub base_of : Slice → Ref
base_of s = s.ref

-- `Slice::cast` and `SliceMut::cast`. A multiple of 0 is only 0, which the division then refuses.
unfoldable pub cast : Layout → Layout → Slice → Outcome Slice
cast T U s = do
  assert (leb U.align_of T.align_of)
  let bytes = s.len * T.size_of
  assert (if U.size_of == 0 then bytes == 0 else bytes % U.size_of == 0)
  assert (ltb 0 U.size_of)
  done (record { ref = s.ref; len = bytes / U.size_of % 2 ^ 32 })
