-- ===== src/Lib.antt =====
-- Verification of Astra Shell, a remote terminal server over QUIC (`astrad`) with its client
-- (`astra`). The server admits each connection, stream, attachment and terminal through the resource
-- accounting, and agrees with each client on a protocol version and a set of capabilities; a worker
-- checks the gateway's selection again. The state of a terminal is sent to
-- each attachment as snapshots and differences that the client acknowledges.
--
-- Files:
-- - Prelude: numbers, texts, lists, Rust's `Result` (with a case for a panic) and checked `u64`
--   arithmetic.
-- - Map: `BTreeMap<String, V>` as a list of entries in the order of their keys. A `HashMap` whose
--   order of iteration does not show is this map too.
-- - Resources: src/resources.rs. Claim, Limits, Policy and Pool have the types and functions of those
--   names; Account has `PoolReservation`, `ResourceAccount` and `ResourceGovernor`. A pool is shared by
--   `Arc`: the pools live in a list and a handle is a position in it. `reserve_at` and `drop_at` are
--   one critical section of a pool's mutex each, and Interleave has the steps of all threads. The
--   proofs are in ClaimLaws, Reserve, Ledger, Atomic, Balance, Steps, Validate and Users.
-- - Negotiation: src/negotiation.rs, the messages of src/protocol.rs that it uses and the version
--   constants of src/lib.rs. Support has the tables, Checks the validation, Negotiate the selection and
--   its checks by the client and the worker; the proofs are in Dependencies, Entries, Outcome,
--   Agreement and Greatest.
-- - Session: the workspaces and attachments of src/session.rs. Catalog has the catalog and its
--   validation, Store the catalog in memory and on disk, Workspaces the operations of
--   `SessionManager` on it, Attachments and Register the registry of attachments, which reserve
--   through the pools of Resources; the proofs are in Returns, Updates, Deletes, States and
--   Registered. The encoding of messages (prost) and the parser of UUIDs are the
--   parameter `Codec`: that a decoded encoding is the message is its one hypothesis. A write of the
--   file succeeds, fails before its rename or fails behind it; which one, the clock, a new UUID and
--   whether a workspace has terminals are arguments of the operations.
-- - Terminal: src/terminal_state_v2.rs and src/terminal_sync.rs. Enums and State have the messages,
--   Checks the bounds and error messages, Tables, Rows, Screens and Pages the validation, Diff the
--   difference of two states and its application, Window `StateSyncWindow`. Protocol joins the window
--   with a receiver and a reliable stream, as a relation of steps. Proofs: Returns and Total (no
--   panic), Sound and Valid (what is established), Equality, RoundTrip, Agreement and Converges. The
--   encoded lengths of messages (prost) and the count of grapheme clusters are parameters.
-- - Payload: src/compression.rs. Encoded has `EncodedPayload`, Files the payloads of uploads and
--   downloads, RoundTrip the proofs. zstd and SHA-256 are the parameter `Codecs`, whose laws are its
--   hypotheses; RunLength is an instance of it for the tests.
-- - Transfer: `TransferAssembler` of src/terminal_streaming.rs, in Assembler; `push` returns its result
--   with the assembler that it leaves. Sender has a transfer as its sender cuts it; the proofs are in
--   Progress and Complete.
-- - Datagram: src/terminal_datagram_v3.rs. Message has the messages and the parameter `Formats` (prost,
--   zstd and SHA-256), whose laws say how the encoding of a packet is composed; Prepare has
--   `ViewportTransfer`. The loop of `varint_len` has as much fuel as its value, which Varint shows to be
--   enough; the proofs are in Ranges, Varint, Attempts, Packets and Prepared.
-- - Stream: src/stream_channels.rs. Request has the commands of src/protocol.rs, Channel the channel of a
--   command and the hello of a stream, Identity the proofs. `read_hello`, which is `validate_hello` behind
--   an asynchronous read with a timeout, is not modelled.
-- - Writer: `QueuedWriter` of src/queued_writer.rs and its drain. Queue has their steps on the counter, the
--   channel and the bytes at the writer, Drained the invariant. `poll_write` is two steps; the compare and
--   exchange of its reservation, which has one writer and a drain that only subtracts, is one. The
--   wake-ups of `Notify` are not modelled.
-- - Lease: the input lease of src/terminal.rs. State has the lease, the recovery record and what they
--   guard, Acquire `acquire_resumable_lease_at`, Commands the commands that carry a lease and a
--   sequence, History the histories of both. The clock, new UUIDs and what the PTY and its writer do are
--   arguments. The proofs are in Effects, Fencing, Once and Authority.
-- - Streaming: the datagrams of src/terminal_streaming.rs. Patches has the patches of rows, Delta the
--   difference of two viewport states and its application, Window and Updates `StreamingStateWindow`,
--   Replica `StreamingReplica`, Generations the maps that both keep, Fields the derived equalities that a
--   difference uses. Network joins a window and a replica by a network that loses, repeats and reorders.
--   Proofs: Splice and RowPatches (rows), FieldLaws and Inherit (fields), RoundTrip, Kept, Sent and
--   Prepares (what is sent), Stale, Received, Carried and Delivered (what arrives), Limits and
--   Forward. The loops that evict have as much fuel as there are entries.
--
-- Numbers are unbounded naturals; where the source checks a `u64` operation, the model checks it
-- against 2^64. Error messages are constructors. Loops are recursions on lists or on the counts that
-- are left; only `varint_len` and
-- the evictions of Streaming have fuel. A
-- poisoned mutex, the text of messages and logging are not modelled, and neither are the parts of the
-- program that are I/O or belong to other projects (the vendored terminal emulator).
pub mod Prelude
pub mod Map
pub mod Resources
pub mod Negotiation
pub mod Session
pub mod Terminal
pub mod Payload
pub mod Transfer
pub mod Datagram
pub mod Stream
pub mod Writer
pub mod Lease
pub mod Streaming
