-- ===== src/Lib.antt =====
-- wmfs runs operations of plugins on tensors in shared memory: a runtime process allocates buffers,
-- describes views of them to a worker process over a ring of fixed-size records, and the worker maps
-- the buffers and checks each view before it makes a tensor of it.
--
-- Parts, and the files that model them:
--   Buffers/Access: packages/wmfs/wmfs/memory/buffers.py, the reservations that keep two calls from
--   writing one allocation at once. Model has the state (`AccessState`, `AccessWaiter`, the deque)
--   and `reserve_access`, `_grant_access_waiters`, `_can_grant_access`, `_release_access_locked`, the
--   interrupt of a wait and `close`; Counts, Exclusion and Steps have the invariant over every order
--   of the calls that the lock allows; Requests and Fairness have what is asked for and the queue,
--   Passes and Settled that no entry is left in it without a reason.
--   Buffers/Arena: the arena mode of the same class. FreeList has `_allocate_arena`'s search and
--   `_release_arena`'s merge, Model the operations; Cover, Gaps and Search count which block holds a
--   byte, Invariant, Steps and Safety follow the free list through the operations.
--   Buffers/Pool: the pooled mode. Model has the free lists by size, Limits what they never exceed.
--   Views: `_contiguous_strides`, `empty` and `managed` of buffers.py, and `_validate_view` of
--   packages/wmfs-plugin/wmfs_plugin/fd_transport.py, over one notion of a view's extent.
--   Ring: packages/wmfs/wmfs/transport/ring.py. Model has the endpoint's operations, Window and Queue
--   the queue that they implement, Interleaving the single accesses of a producer and a consumer.
--   Record and its children have `encode` and `decode` of a record, item by item and area by area, and
--   Transport puts them into the endpoint.
--   Control: packages/wmfs/wmfs/protocol/control.py. Frame has `encode_frame` and `decode_frame`,
--   Enums the numbers of the enumerations, Startup, FdBatch and Replies the payloads, Transfer
--   `sendmsg_strict` and `recvmsg_strict`; Canonical and the modules RoundTrip have the round trips.
--   Mapping: fd_transport.py again. Cache has `MappedBufferCache`, Checked and Bounds its invariant,
--   Receiver one round of `FdReceiver._serve` on a batch that Control decodes, Disposal what that
--   round closes.
--   Registry: packages/wmfs/wmfs/registry.py. Model has `OperationRegistry`, Names what a name means.
--   Metadata: packages/wmfs/wmfs/protocol/metadata.py. Words has the limits and the exceptions,
--   Validate `validate_operation_metadata` and the checks of expressions, Plugin
--   `validate_plugin_metadata` and `_validate_vjp`, Reader `_dimension_from_reader`; Validated and
--   Differentiable say what an accepted document is.
--   Outputs: packages/wmfs/wmfs/output_metadata.py. Model has `evaluate_outputs` and
--   `complete_outputs`, Reuse `bind_reusable_outputs`; Safety and Evaluation follow metadata that
--   Metadata accepts through its evaluation, Completion and Aliasing what comes of it.
--   Invocation: packages/wmfs/wmfs/invocation.py. Arguments has `bind_scalars`, Dtypes
--   `_validate_tensor_dtypes`, Model `bind_invocation` and `plan_outputs`; Binding, Planning and
--   Outputs join them with Metadata and Outputs; Access has `reserve_invocation_access` and joins it
--   with the reservations of Buffers/Access.
--   Log: packages/wmfs-plugin/wmfs_plugin/log_codec.py. Encode has `_text` and `encode_log_record`,
--   Decode `decode_log_record`; Fronts and Bounds follow what is cut, Fields, Packets and RoundTrip
--   what is not.
--   Log/Queue: packages/wmfs-plugin/wmfs_plugin/logging.py, the bounded queue of `AsyncLogger`. Lowest has
--   the record that a full queue loses, Steps the calls of any threads and the sender in any order,
--   Sound and Accounting what becomes of each record.
--   Backend: packages/wmfs/wmfs/backends/isolated.py, the table of worker sessions. Backend.antt has the
--   parts of `_acquire_session`, `_evict_session`, `discover`, `construct_tensor` and `close` that hold
--   the lock, Steps the threads between them; Counts, Sound, Results, Moves, Calls, Starts,
--   Closing and Waits have the invariant over every order, Shutdown what follows of it; Work and Progress
--   measure what is left to do once `close` has begun, Termination puts them together.
--   Common: byte fields of `struct`, UTF-8, results with exceptions, lists measured by native
--   numbers, dictionaries, signed integers.
--
-- A Python integer that cannot be negative is a natural number, one that can is an integer; the
-- numbers that Control packs are natural, so that of `0 <= value` nothing is left to check. A lock
-- makes the code under it one step. Loops are recursions on a list: the queue of waiters, the free
-- list, the wake-ups of a wait, so they need no fuel. The ring's counters are 64 bits wide and wrap
-- in the model; what is stated of them is for fewer than 2 ^ 64 records. Arena sizes and offsets are
-- multiples of 64. Only the reading of an expression from a message takes fuel, since
-- nothing bounds a message but the code's own limit on the nesting: 17 levels are enough.
--
-- Not modelled: mappings, descriptors, eventfds and polls as such, weak references and finalizers
-- (an allocation that is released is an entry of the list that `_collect` drains), metrics other than
-- hits and misses of the arena, loggers that `bind` makes, the check that a tensor is still live. The codec of
-- the ring is a parameter with its round trip as law, which Ring/Record fills in; the header of the
-- mapping and the clocks of `push_profiled` are left out. Of metadata, the JSON document that is hashed
-- and the readers that copy fields; of calls, what torch decides (the dtype of a promotion, gradient
-- and inference modes, which tensors are managed) is a parameter.
-- Of the threads that wait on the condition of the backend only the one in the first call of `close` is
-- modelled, with its `notify_all` and its interrupt.
-- Of the other files: transport/worker_process.py and wmfs_plugin/worker.py run processes, sockets and
-- polls around the parts above, runtime.py and autograd.py call torch and the backends, configuration.py
-- and plugins.py read files and entry points, and wmfs-tool prints text for other languages. The
-- plugin's ring.py and control.py are copies of the codecs in the other direction. The native library
-- is in C++.
pub mod Common
pub mod Buffers
pub mod Views
pub mod Ring
pub mod Control
pub mod Mapping
pub mod Registry
pub mod Metadata
pub mod Outputs
pub mod Invocation
pub mod Log
pub mod Backend
