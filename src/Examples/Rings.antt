-- ===== src/Examples/Rings.antt =====
-- A provided slab at concrete inputs: of two buffers the kernel takes the first, and its view drops.
use conrt.Base.{ℕ, true, false, List, [], ◌∷◌, some, ◌≡◌, refl, arith, done}
use conrt.Base.Words.{pos}
use conrt.Buffers.Classes.{pack_bid}
use conrt.Buffers.Provided.{ProvidedSlab, new, select, drop_view, descriptor}
use conrt.Buffers.Provided.Ring.{Ring}
use conrt.Buffers.Provided.Runs.{here, later, taken, dropped}
use conrt.Buffers.Provided.Fresh.{Reach-new-Ring}

abbrev fresh : ProvidedSlab
fresh = record {
  buf_count = 2;
  size = 16;
  slab_base = 4096;
  class = 3;
  ring = descriptor 4096 16 0 ∷ descriptor 4096 16 1 ∷ [];
  ring_tail = 2;
  ring_size = 4096;
  tail = 2;
  tracker = record { borrows = pos 0 ∷ pos 0 ∷ [] };
}

abbrev one_out : ProvidedSlab
one_out = record fresh { tracker = record { borrows = pos 1 ∷ pos 0 ∷ [] } }

abbrev put_back : ProvidedSlab
put_back = record fresh { ring_tail = 3; tail = 3 }

made : new 4096 2 16 3 ≡ done fresh
unfolding new
made = refl

first_taken :
    select (some 7) 0 5 fresh
    ≡ done (
      record { ref = record { bid = pack_bid true 3 0; generation = 7; offset = 0 }; len = 5 },
      one_out,
    )
unfolding select
first_taken = refl

last_dropped : drop_view one_out false 0 ≡ done put_back
unfolding drop_view
last_dropped = refl

Reach-new-Ring_example : (queue : List ℕ) × Ring put_back 1 queue
Reach-new-Ring_example = Reach-new-Ring 4096 2 16 3 fresh put_back 1 made (
    later one_out put_back 1 1
      (later fresh one_out 0 1 here
        (taken (some 7) 5 (descriptor 4096 16 0) _ one_out (omega arith) refl first_taken))
      (dropped false 0 put_back last_dropped))
