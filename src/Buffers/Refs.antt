-- ===== src/Buffers/Refs.antt =====
-- The typed views `Ref` and `RefMut` of libs/coio-uring/src/buf.rs: an operation that consumes a view
-- returns what it becomes. Both have the fields of `Ref`; which of the two a view is, is the
-- operation's.
pub mod Stale
use conrt.Base.{ℕ, true, false, leb, ◌==◌, Outcome, done, ◌>>=◌, ◌>>◌, assert}
use conrt.Buffers.Views.{Ref, Layout}
use conrt.Buffers.Routing
use conrt.Buffers.Routing.{Thread}

unfoldable pub as_ptr : Ref → Thread → Outcome (ℕ × Thread)
unfolding Routing.resolve_ptr
as_ptr v t = Routing.resolve_ptr v.bid v.generation v.offset t

-- The two assertions are checked when the program is built.
unfoldable pub cast : Layout → Layout → Ref → Outcome Ref
cast T U v = do assert (T.size_of == U.size_of); assert (leb U.align_of T.align_of); done v

-- `Ref::into_mut`
unfoldable pub into_mut : Ref → Thread → Outcome (Ref × Thread)
unfolding Routing.upgrade_view
into_mut v t = do t' ← Routing.upgrade_view v.bid v.generation t; done (v, t')

unfoldable pub clone : Ref → Thread → Outcome (Ref × Thread)
unfolding Routing.clone_view
clone v t = do t' ← Routing.clone_view v.bid v.generation t; done (v, t')

-- `Ref::drop`
unfoldable pub drop_ref : Ref → Thread → Outcome Thread
unfolding Routing.drop_view
drop_ref v t = Routing.drop_view v.bid v.generation false t

-- `RefMut::into_ref`
unfoldable pub into_ref : Ref → Thread → Outcome (Ref × Thread)
unfolding Routing.downgrade_view
into_ref v t = do t' ← Routing.downgrade_view v.bid v.generation t; done (v, t')

-- `RefMut::drop`
unfoldable pub drop_mut : Ref → Thread → Outcome Thread
unfolding Routing.drop_view
drop_mut v t = Routing.drop_view v.bid v.generation true t
