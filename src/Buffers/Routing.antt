-- ===== src/Buffers/Routing.antt =====
-- The thread locals of libs/coio-core/src/runtime.rs that say whether a runtime is running, and the
-- calls of libs/coio-uring/src/pools.rs and buf.rs that a view makes on its slot. `CURRENT_POOLS`
-- is the pools it points to.
pub mod Steps
use conrt.Base.{
  ℕ, ◌+◌, ◌^◌, Bool, true, false, not, Option, none, some, ltb, ◌==◌, if◌then◌else◌, Outcome, done,
  ◌>>=◌, ◌>>◌, assert, expect,
}
use conrt.Buffers.Tracker
use conrt.Buffers.Tracker.{BorrowTracker}
use conrt.Buffers.Pools
use conrt.Buffers.Pools.{Pools, Slab, SlabCall, slot_ptr, with_slab}

pub record Thread : Type 0 where
  pub running : Bool
  pub generation : ℕ
  pub current_pools : Option Pools

unfoldable pub active_gen : Thread → Option ℕ
active_gen t = if t.running then some t.generation else none

-- `active_gen() == Some(generation)`
abbrev pub same : Option ℕ → ℕ → Bool
same none generation = false
same (some active) generation = active == generation

unfoldable pub active_gen_matches : Thread → ℕ → Bool
unfolding active_gen
active_gen_matches t generation = same (active_gen t) generation

-- A generation is a `NonZeroU32`.
unfoldable pub enter_active_gen : Thread → Outcome Thread
enter_active_gen t = do
  assert (not t.running)
  assert (ltb (t.generation + 1) (2 ^ 32))
  done (record t { running = true; generation = t.generation + 1 })

unfoldable pub exit_active_gen : Thread → Thread
exit_active_gen t = record t { running = false }

abbrev pub set_current_pools : Pools → Thread → Thread
set_current_pools p t = record t { current_pools = some p }

abbrev pub clear_current_pools : Thread → Thread
clear_current_pools t = record t { current_pools = none }

module _ {R : Type 0} where
  unfoldable pub with_pools : (Pools → Outcome (R × Pools)) → Thread → Outcome (R × Thread)
  with_pools call t = do
    assert t.running
    p ← expect t.current_pools
    (r, p') ← call p
    done (r, record t { current_pools = some p' })

-- `p.with_slab(bid, |slab, _| ..)` inside `with_pools`.
abbrev on_slot : {R : Type 0} → ℕ → SlabCall R → Thread → Outcome (R × Thread)
unfolding with_pools with_slab
on_slot bid call = with_pools (with_slab bid call)

-- A call of the slot's tracker.
abbrev pub borrowing : (BorrowTracker → ℕ → Outcome BorrowTracker) → SlabCall (Unit {0})
borrowing change S i local s = do
  tracker ← change (i.tracker s) local
  done (tt, i.set_tracker tracker s)

-- The new state of a call that returns nothing.
abbrev pub state : Outcome (Unit {0} × Thread) → Outcome Thread
state r = r >>= λ p. done p.1

unfoldable pub resolve_ptr : (bid generation offset : ℕ) → Thread → Outcome (ℕ × Thread)
unfolding active_gen_matches with_pools with_slab
resolve_ptr bid generation offset t = do
  assert (active_gen_matches t generation)
  (base, t') ← on_slot bid (λ S i local s. done (slot_ptr i s local, s)) t
  done (base + offset, t')

unfoldable pub clone_view : (bid generation : ℕ) → Thread → Outcome Thread
unfolding active_gen_matches with_pools with_slab Tracker.clone_shared
clone_view bid generation t =
    if active_gen_matches t generation
    then state (on_slot bid (borrowing Tracker.clone_shared) t)
    else done t

-- The slab's own release of a view.
abbrev pub dropping : Bool → SlabCall (Unit {0})
dropping exclusive S i local s = Pools.drop_view i exclusive local s >>= λ s'. done (tt, s')

unfoldable pub drop_view : (bid generation : ℕ) → (exclusive : Bool) → Thread → Outcome Thread
unfolding active_gen_matches with_pools with_slab Pools.drop_view
drop_view bid generation exclusive t =
    if active_gen_matches t generation then state (on_slot bid (dropping exclusive) t) else done t

unfoldable pub upgrade_view : (bid generation : ℕ) → Thread → Outcome Thread
unfolding active_gen_matches with_pools with_slab Tracker.upgrade
upgrade_view bid generation t = do
  assert (active_gen_matches t generation)
  state (on_slot bid (borrowing Tracker.upgrade) t)

unfoldable pub downgrade_view : (bid generation : ℕ) → Thread → Outcome Thread
unfolding active_gen_matches with_pools with_slab Tracker.downgrade
downgrade_view bid generation t = do
  assert (active_gen_matches t generation)
  state (on_slot bid (borrowing Tracker.downgrade) t)

unfoldable pub split_exclusive : (bid generation : ℕ) → Thread → Outcome Thread
unfolding active_gen_matches with_pools with_slab Tracker.split_exclusive
split_exclusive bid generation t =
    if active_gen_matches t generation
    then state (on_slot bid (borrowing Tracker.split_exclusive) t)
    else done t

unfoldable pub with_runtime_capacity : (bid generation : ℕ) → Thread → Outcome (ℕ × Thread)
unfolding active_gen_matches with_pools with_slab
with_runtime_capacity bid generation t = do
  assert (active_gen_matches t generation)
  on_slot bid (λ S i local s. done (i.slot_size s, s)) t
