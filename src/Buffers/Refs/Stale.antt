-- ===== src/Buffers/Refs/Stale.antt =====
-- Views that outlive the run they were made in.
use conrt.Base.{
  ℕ, ◌+◌, ◌^◌, ◌≤◌, false, not, ◌≡◌, refl, subst, arith, ltb, done, panicked, assert-elim,
  done-injective,
}
use conrt.Buffers.Views.{Slice}
use conrt.Buffers.Pools.{Pools}
use conrt.Buffers.Routing.{
  Thread, set_current_pools, active_gen, active_gen_matches, enter_active_gen, exit_active_gen,
  resolve_ptr, clone_view, drop_view, upgrade_view, downgrade_view, with_runtime_capacity,
}
use conrt.Buffers.Refs.{as_ptr, clone, drop_ref, drop_mut, into_mut, into_ref}
use conrt.Buffers.Slices.BytesMut.{set_len}
use conrt.Buffers.Slices.BytesMut

-- A view that can no longer reach its slot: it cannot be read, converted or resized, and copying
-- and dropping it touch nothing.
pub record Harmless (v : Slice) (t : Thread) : Type 0 where
  pub unreadable : as_ptr v.ref t ≡ panicked
  pub not_upgraded : into_mut v.ref t ≡ panicked
  pub not_downgraded : into_ref v.ref t ≡ panicked
  pub not_resized : (len : ℕ) → set_len len v t ≡ panicked
  pub copied : clone v.ref t ≡ done (v.ref, t)
  pub dropped : drop_ref v.ref t ≡ done t
  pub dropped_mut : drop_mut v.ref t ≡ done t

stale-Harmless :
    (v : Slice) (t : Thread) → active_gen_matches t v.ref.generation ≡ false → Harmless v t
unfolding as_ptr into_mut into_ref set_len clone drop_ref drop_mut resolve_ptr clone_view drop_view
    upgrade_view downgrade_view with_runtime_capacity BytesMut.capacity
stale-Harmless v t e = record {
  unreadable = rw e refl;
  not_upgraded = rw e refl;
  not_downgraded = rw e refl;
  not_resized = λ len. rw e refl;
  copied = rw e refl;
  dropped = rw e refl;
  dropped_mut = rw e refl;
}

later_gen :
    (t t' : Thread) (g : ℕ)
    → g ≤ t.generation
    → enter_active_gen t ≡ done t'
    → active_gen_matches t' g ≡ false
unfolding enter_active_gen active_gen_matches active_gen
later_gen t t' g le h = assert-elim (not t.running) _ h λ idle h1.
    assert-elim (ltb (t.generation + 1) (2 ^ 32)) _ h1
      λ small h2. subst (λ z. active_gen_matches z g ≡ false) (done-injective h2) (ground arith)

-- Once a run has ended, and also when the next one has been entered, every view made in it or in an
-- earlier one is harmless: resolving, upgrading, downgrading or resizing it panics, and cloning or
-- dropping it changes nothing, whatever pools the thread has then.
pub enter_active_gen-Harmless :
    (v : Slice) (t t' : Thread)
    → v.ref.generation ≤ t.generation
    → enter_active_gen (exit_active_gen t) ≡ done t'
    → Harmless v (exit_active_gen t) × ((p : Pools) → Harmless v (set_current_pools p t'))
unfolding exit_active_gen active_gen_matches active_gen
enter_active_gen-Harmless v t t' le h = (
  stale-Harmless v (exit_active_gen t) refl,
  λ p.
      stale-Harmless v (set_current_pools p t')
        (later_gen (exit_active_gen t) t' v.ref.generation le h),
)
