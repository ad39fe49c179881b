-- ===== src/Lib.antt =====
-- conrt is a container runtime: a daemon (libs/core/src/daemon.rs) on a callback runtime
-- (libs/coio-core, libs/coio-uring, libs/coio-mio) whose I/O goes through pooled buffers.
--
-- The buffer pools, libs/coio-uring/src. `Buffers.Classes` is classes.rs: the packed buffer ids and
-- the layout of a slab. `Buffers.Tracker` is buf/tracker.rs: how many views hold each slot.
-- `Buffers.Fixed` is buf/fixed.rs: the stack of free slots. `Buffers.Provided` is buf/provided.rs:
-- the ring of buffers that the kernel takes from, with what it takes as the steps of a relation.
-- `Buffers.Pools` is buf/pool.rs over the two slabs and the pools of pools.rs with the dispatch on
-- a buffer id; `Buffers.Pools.Build` is build_pools. `Buffers.Routing` is the thread's running run
-- and pools (the thread locals of coio-core's runtime.rs and of pools.rs) and the calls that a view
-- makes through them. `Buffers.Refs` and `Buffers.Slices` are the views of buf.rs, and
-- `Buffers.Alloc` its allocation functions; what a view reads is a function of an address and a
-- memory that is an argument. A failed assertion and an index out of bounds are the outcome
-- `panicked`; addresses are numbers.
--
-- The io_uring driver. `Uring.UserData` is the packing of an operation into the `user_data` of an
-- entry, and `Uring.Driver` the functions of the backend in uring.rs, over a ring that is the
-- parameter `IoUring`. `Uring.Message` is the message arguments of io.rs: the entries and the
-- control bytes of an operation on a socket. `Uring.Message.Walk` is how a kernel reads them.
--
-- The callback runtime, libs/coio-core/src/runtime.rs. `Ops.Ids`, `Ops.Slots` and `Ops.Cancels`
-- are the slot ids and the two kinds of slot, `Ops.Arena` the arena of caller buffers, `Ops.Table`
-- the runtime's state with the allocation of slots and register_op, `Ops.Cancel` the request of a
-- cancellation, `Ops.Complete` what a completion does, and `Ops.Drive` the loop and the teardown.
-- A backend (backend.rs) is a record of functions on a state of its own. A callback is a `Prog` of
-- `Ops.Callback`: the calls of the runtime's public functions that it makes, each free to depend
-- on what the ones before returned; `Code` says which program a function pointer stands for. A
-- union's body is a sum and an uninitialized local is `none`, and the outcome `panicked` is also a
-- read of what is not there, or a count in flight that goes below 0. `Ops.Stack` is the theory of
-- a free stack threaded through a slab, shared by both slabs; the modules below `Ops.Table`,
-- `Ops.Cancel`, `Ops.Callback`, `Ops.Complete` and `Ops.Drive` are about what each function leaves
-- well formed.
--
-- The C strings, libs/cstring/src/lib.rs: `CStrings`, over a heap of blocks.
--
-- The logs of a container, all in daemon.rs. `Logs.Cache` is LogCache, the byte ring of lines;
-- `Logs.Gateway` is AsyncPipeWriter and LogGateway, the ring with its follow pipes; `Logs.Lines`
-- is drain_lines and split_line, which cut a stream into lines and a line into chunks.
--
-- The daemon's handlers, all in daemon.rs. `Daemon.State` has the state, the requests, the local
-- data of each op in flight and the outside effects; `Daemon.Runtime` what the handlers use of the
-- runtime: the global state, the ops dispatched in order, and the effects so far. Each handler is
-- a function from one runtime state to the next, with the completion's result as an argument.
-- `Daemon.Drains` reads a container's output, stores its lines through the gateway and writes them
-- to the followers; `Daemon.Sessions` and `Daemon.Output` are the two directions of an attach
-- session; `Daemon.Frames` and `Daemon.Dispatch` are what its frames ask for, with the start of a
-- container inside it; `Daemon.Reap` is the sweep over exited children, which together with the
-- output drain ends a session and a container; `Daemon.Requests` and `Daemon.Detached` answer
-- datagrams; `Daemon.Boot` arms the three loops. `Base` has the shared names, and `Examples`
-- applies the theorems at concrete inputs.
--
-- Bounds and fuel. Integers are the native ℕ; wrap-around is written out in `Base.Words` where the
-- code can reach it (the `i32` counts of the tracker, and the subtractions of the ring). The
-- ring's loops take fuel, of which the ring's size and one more is enough (`Logs.Cache.Push` and
-- `Logs.Cache.Read`), and the daemon gives that much for its capacity of 65,536 bytes; a result of
-- `none` says that a loop has not ended. The backlog loop takes as much as the backlog's length,
-- and the loop of split_line one more than the line's. The runtime's loop goes on for as long as
-- the backend has completions and something is in flight, which nothing in it bounds: `Ops.Drive`
-- takes fuel for its rounds and for the completions of one round, and its theorems are about runs
-- that end. Its slabs stay below the 2^32 - 1 slots that an index can name (`Small`), which the
-- source does not check. The other loops are structural.
--
-- What is a parameter: the JSON codec (`Json`), the conversion of bytes to text, the memory of a
-- fresh buffer, what the allocator and the registration calls answer when the pools are built, the
-- ring of the driver with the documented behaviour `Reports` (it reports only what was pushed), and
-- what the kernel answers (results of pipes, ptys, clone3, wait4 and writes, and whether an op is
-- accepted). Allocating a buffer succeeds in the daemon's model; the daemon aborts where it does
-- not. Hash maps are association lists.
--
-- Not modelled: the submission entries of the single operations in io.rs and their typed shims, the
-- readiness driver of libs/coio-mio, whose functions are system calls, the typed buffers around the
-- runtime's erased ones, a nested run inside a callback, the child's side of a clone, the container
-- set-up and the command line client.
pub mod Base
pub mod Buffers
pub mod Ops
pub mod Uring
pub mod Logs
pub mod CStrings
pub mod Daemon
pub mod Examples
