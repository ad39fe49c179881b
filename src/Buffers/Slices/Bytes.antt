-- ===== src/Buffers/Slices/Bytes.antt =====
-- `Bytes` of libs/coio-uring/src/buf.rs, the shared views of bytes.
use conrt.Base.{
  ℕ, zero, suc, ◌+◌, ◌-◌, false, ◌||◌, List, [], ◌∷◌, Option, none, some, ltb, if◌then◌else◌,
  Outcome, done, ◌>>=◌,
}
use conrt.Buffers.Views.{Slice}
use conrt.Buffers.Routing
use conrt.Buffers.Routing.{Thread}
use conrt.Buffers.Refs
use conrt.Buffers.Slices.{part, base_of}

unfoldable pub sub : (a b : ℕ) → Slice → Thread → Outcome (Option Slice × Thread)
unfolding Routing.clone_view
sub a b s t =
    let taken = do
      t' ← Routing.clone_view s.ref.bid s.ref.generation t
      done (some (part s a (b - a)), t')
    in if ltb b a || ltb s.len b then done (none, t) else taken

-- `len` bytes of the memory from an address on.
unfoldable pub bytes_at : (ℕ → ℕ) → ℕ → ℕ → List ℕ
bytes_at memory addr zero = []
bytes_at memory addr (suc n) = memory addr ∷ bytes_at memory (addr + 1) n

-- `Bytes::as_ref` and `BytesMut::as_ref`
unfoldable pub as_ref : (ℕ → ℕ) → Slice → Thread → Outcome (List ℕ × Thread)
unfolding bytes_at Refs.as_ptr
as_ref memory s t = do (addr, t') ← Refs.as_ptr s.ref t; done (bytes_at memory addr s.len, t')

unfoldable pub into_vec : (ℕ → ℕ) → Slice → Thread → Outcome (List ℕ × Thread)
unfolding as_ref Routing.drop_view
into_vec memory s t = do
  (bytes, t') ← as_ref memory s t
  t'' ← Routing.drop_view s.ref.bid s.ref.generation false t'
  done (bytes, t'')

unfoldable pub into_mut : Slice → Thread → Outcome (Slice × Thread)
unfolding Refs.into_mut
into_mut s t = do
  (base, t') ← Refs.into_mut (base_of s) t
  done (record { ref = base; len = s.len }, t')
