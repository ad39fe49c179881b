-- ===== src/Buffers/Views.antt =====
-- What a view of a slot is (libs/coio-uring/src/buf.rs), and the type parameters of the slabs'
-- generic functions. A view names its slot by the packed id and the generation of the runtime.
use conrt.Base.{ℕ}

-- `Ref<T>` and `RefMut<T>`.
pub record Ref : Type 0 where
  pub bid : ℕ
  pub generation : ℕ
  pub offset : ℕ

-- `Slice<T>` and `SliceMut<T>`, with `Bytes` and `BytesMut` for `T = u8`.
pub record Slice : Type 0 where
  pub ref : Ref
  pub len : ℕ

-- `size_of::<T>()` and `align_of::<T>()`.
pub record Layout : Type 0 where
  pub size_of : ℕ
  pub align_of : ℕ

abbrev pub u8 : Layout
u8 = record { size_of = 1; align_of = 1 }
