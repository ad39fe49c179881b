-- ===== src/Examples/Ops.antt =====
-- The runtime at concrete inputs: a backend that hands out the completions it is given, one op, its
-- completion, and a late cancellation.
use conrt.Base.{
  IoResult, ℕ, zero, suc, ◌^◌, ◌<◌, true, false, List, [], ◌∷◌, Option, none, some, ◌≡◌, refl,
  arith, done, ok, replicate, get_elem?,
}
use conrt.Base.Words.{pos}
use conrt.Ops.Ids.{id_bits, free_none}
use conrt.Ops.Arena
use conrt.Ops.Arena.{BufArena, IoBufErased, buf_none, release, alloc}
use conrt.Ops.Slots.{IoSlot, live, free_link}
use conrt.Ops.Table
use conrt.Ops.Table.{Runtime, Backend, Op, Completion, register_op}
use conrt.Ops.Table.Valid.{Valid, new-Valid}
use conrt.Ops.Table.Returns.{register_op-returns}
use conrt.Ops.Table.Fresh.{Registered, register_op-Registered}
use conrt.Ops.Cancel
use conrt.Ops.Callback.{finish, register}
use conrt.Ops.Complete.{Code, completed, take_completion, dispatch_shim}
use conrt.Ops.Drive.{drive}
use conrt.Ops.Drive.Steps.{drive-Valid}
use conrt.Ops.Drive.Stale.{drive-stale}
use conrt.Ops.Arena.Recycle.{release-alloc}

abbrev pop : List Completion → Option Completion × List Completion
pop [] = (none, [])
pop (c ∷ cs) = (some c, cs)

abbrev queue : Backend (List Completion) ℕ
queue = record {
  arm = λ slot class req b. (true, b);
  cancel = λ index target class b. (true, b);
  wait = λ b. (true, b);
  next_completion = pop;
  begin_teardown = λ b. b;
}

abbrev quiet : Code ℕ ℕ (List Completion) ℕ
quiet = record {
  shim = λ shim args. finish tt;
  on_cancelled = λ callback victim own. finish victim;
}

abbrev completion : Completion
completion = record {
  slot = 0;
  result = pos 5;
  flags = 0;
  class = 0;
  cancel = false;
  cancelled = false;
}

abbrev fresh : Runtime ℕ ℕ (List Completion)
fresh = Table.new (completion ∷ []) 7 (record { before = 0 })

abbrev op : Op
op = record { slot = 0; class = 3; id = record { before = 0 } }

abbrev slot : IoSlot ℕ
slot = record { id = 1; local = some 40; buf = buf_none; buf_len = 0; body = live 1 2 }

abbrev one_op : Runtime ℕ ℕ (List Completion)
one_op = record {
  backend = completion ∷ [];
  io_slab = slot ∷ [];
  free_slots_head = free_none;
  cancel_slab = [];
  free_cancels_head = free_none;
  inflight_ops = 1;
  inflight_cancels = 0;
  buf_arena = Arena.new;
  global = some 7;
  next_id = record { before = 1 };
}

abbrev no_op : Runtime ℕ ℕ (List Completion)
no_op = record one_op {
  backend = [];
  io_slab =
      record { id = 0; local = none; buf = buf_none; buf_len = 0; body = free_link free_none } ∷ [];
  free_slots_head = 0;
  inflight_ops = 0;
}

registers : register_op queue 1 2 40 3 [] 9 fresh ≡ done (ok op, one_op)
unfolding register_op Table.new
registers = refl

completes : drive queue quiet 2 2 one_op ≡ done (some no_op)
unfolding drive
completes = refl

fresh-Valid : Valid fresh
unfolding Table.new
fresh-Valid = new-Valid {G = ℕ} {L = ℕ} (completion ∷ []) 7 (record { before = 0 }) (omega arith)

one_op-Valid : Valid one_op
unfolding Table.new
one_op-Valid =
    (register_op-Registered queue 1 2 40 3 [] 9 fresh one_op op fresh-Valid
      (omega arith, omega arith) registers).0

register_op-returns_example :
    (res : IoResult Op) × (rt : Runtime ℕ ℕ (List Completion)) × (register_op queue 1 2 40 3 [] 9
        fresh
      ≡ done (res, rt))
unfolding Table.new
register_op-returns_example =
    register_op-returns queue 1 2 40 3 9 fresh fresh-Valid (omega arith) (omega arith)

register_op-Registered_example : Valid one_op × Registered 1 2 40 3 op fresh one_op
unfolding Table.new
register_op-Registered_example =
    register_op-Registered queue 1 2 40 3 [] 9 fresh one_op op fresh-Valid
      (omega arith, omega arith) registers

drive-Valid_example : Valid no_op
drive-Valid_example =
    drive-Valid queue quiet 2 2 one_op no_op one_op-Valid (omega arith, omega arith) completes

abbrev waiting : Runtime ℕ ℕ (List Completion)
waiting = record one_op { backend = [] }

in_slot : (s : IoSlot ℕ) × (get_elem? waiting.io_slab 0 ≡ some s) × (id_bits s.id ≡ 1)
unfolding id_bits
in_slot = (slot, refl, refl)

idle : drive queue quiet 1 1 no_op ≡ done (some no_op)
unfolding drive
idle = refl

completed_first : take_completion queue quiet completion waiting ≡ done no_op
unfolding take_completion
completed_first = refl

-- The op's completion, a round of the loop, and then its handle.
drive-stale_example : Cancel.cancel queue op 8 50 no_op ≡ done no_op
drive-stale_example =
    drive-stale queue quiet op completion 1 1 waiting no_op no_op 8 50 one_op-Valid in_slot refl
      refl completed_first idle (omega arith, omega arith)

-- A callback that dispatches an op with a buffer.
abbrev chain : Code ℕ ℕ (List Completion) ℕ
chain = record {
  shim = λ shim args. register 1 2 41 0 (record { a = 4096; b = 10 } ∷ []) 9 (λ result. finish tt);
  on_cancelled = λ callback victim own. finish victim;
}

-- The op's run is block 0 of the arena that is dropped.
abbrev chained : Runtime ℕ ℕ (List Completion)
chained = record one_op {
  io_slab = record { id = 2; local = some 41; buf = 0; buf_len = 1; body = live 1 2 } ∷ [];
  backend = [];
  next_id = record { before = 2 };
}

dispatched : dispatch_shim queue chain 1 none (completed (pos 5) 0) 2 40 3 no_op ≡ done chained
unfolding dispatch_shim
dispatched = refl

abbrev used : BufArena
used = record { blocks = record { a = 4096; b = 10 } ∷ []; free = replicate 8 buf_none }

abbrev freed : BufArena
freed = record { blocks = record { a = buf_none; b = 10 } ∷ []; free = 0 ∷ replicate 7 buf_none }

released : release 0 1 used ≡ done freed
unfolding release
released = refl

all_words : (n class head : ℕ) → get_elem? (replicate n buf_none) class ≡ some head → head < 2 ^ 32
all_words zero class head h = cc
all_words (suc n) zero head h = ground (arith, h)
all_words (suc n) (suc class) head h = all_words n class head h

release-alloc_example : alloc 1 freed ≡ done (0, record freed { free = used.free })
release-alloc_example =
    release-alloc 0 1 used freed (omega arith) (omega arith) (omega arith) (all_words 8) released
