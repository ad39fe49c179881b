-- ===== src/Buffers/Slices/BytesMut.antt =====
-- `BytesMut` of libs/coio-uring/src/buf.rs, the exclusive views of bytes.
use conrt.Base.{
  ℕ, ◌+◌, ◌-◌, ◌%◌, ◌^◌, Option, none, some, ltb, leb, if◌then◌else◌, Outcome, done, ◌>>=◌, ◌>>◌,
  assert,
}
use conrt.Buffers.Views.{Slice}
use conrt.Buffers.Routing
use conrt.Buffers.Routing.{Thread}
use conrt.Buffers.Refs
use conrt.Buffers.Slices.{part}

unfoldable pub capacity : Slice → Thread → Outcome (ℕ × Thread)
unfolding Routing.with_runtime_capacity
capacity s t = do
  (slot_size, t') ← Routing.with_runtime_capacity s.ref.bid s.ref.generation t
  done ((slot_size + 2 ^ 32 - s.ref.offset) % 2 ^ 32, t')

unfoldable pub set_len : ℕ → Slice → Thread → Outcome (Slice × Thread)
unfolding capacity
set_len new_len s t = do
  (room, t') ← capacity s t
  assert (leb new_len room)
  done (record s { len = new_len }, t')

abbrev pub clear : Slice → Slice
clear s = record s { len = 0 }

-- It takes the view by value: where it gives none, the view is dropped.
unfoldable pub split_at : ℕ → Slice → Thread → Outcome (Option (Slice × Slice) × Thread)
unfolding Routing.split_exclusive Refs.drop_mut
split_at mid s t =
    let halves = do
      t' ← Routing.split_exclusive s.ref.bid s.ref.generation t
      done (some (record { ref = s.ref; len = mid % 2 ^ 32 }, part s mid (s.len - mid)), t')
    in let dropped = do t' ← Refs.drop_mut s.ref t; done (none, t')
      in if ltb s.len mid then dropped else halves

unfoldable pub into_bytes : Slice → Thread → Outcome (Slice × Thread)
unfolding Refs.into_ref
into_bytes s t = do
  (base, t') ← Refs.into_ref s.ref t
  done (record { ref = base; len = s.len }, t')
