-- ===== src/Lib.antt =====
-- A verification library for TinyKV, a key-value server in C++ with a write-ahead log, snapshots, a
-- cluster of nodes on a ring of hashes, leader election, and a replicated log.
--
-- The program's parts and the files that model them:
-- * storage/memory_store.{h,cpp}, storage/kv_store.h (`MemoryStore`, `StoreEntry`): Storage/Memory.
--   The unordered map is an association list in which no key stands twice; the `std::list` of recent
--   use is a list of nodes, each a number that stands for an iterator and a key, and the next free
--   number is part of the state. Every method is a function of the state that returns the new state
--   and the result; a reading of the clock is an argument, two where the method reads it twice.
--   Storage/Memory/Linked says what keeps the two in step, View reads them as one list, and Recency
--   states what the store promises.
-- * storage/wal.{h,cpp} (`WriteAheadLog`): Storage/Wal, with the escaping in Storage/Escape. The file
--   is its bytes; `append_line` is the common end of the `append_…` methods, and a write is whole or
--   breaks off after some bytes. `replay` works on any store that has the methods of `KVStore`, and
--   ends with true, with false or with an exception of `std::stoll`.
-- * storage/snapshot.{h,cpp} (`SnapshotFile`): Storage/Snapshot. What the file system answers during
--   a `save` is an argument.
-- * storage/persistent_memory_store.{h,cpp} (`PersistentMemoryStore`): Storage/Persistent. A method
--   appends to the log, changes the memory store and may take a snapshot, in the order of the code.
--   `effect` and `effects` of Storage/Persistent/Calm and Effects say what a log does to the contents;
--   Durable says what the two files hold while a store runs; Recovery starts a store on them.
-- * config/server_config.h and `validate` of config/yaml_parser.cpp: Config.
-- * cluster/consistent_hash.{h,cpp}, cluster/node.h: Cluster/ConsistentHash. The `std::map` is a list
--   in the order of its keys; `std::hash` is a parameter.
-- * cluster/router.{h,cpp} (`ClusterRouter`): Cluster/Router (state, file of terms and votes, `init`),
--   Cluster/Router/Placement (owners and replicas) and Cluster/Router/Election (votes, heartbeats,
--   elections). A definition that changes the state is one critical section of the code, so a
--   sequence of them is an interleaving of its threads; what a peer responds is an argument.
-- * protocol/kv_protocol.{h,cpp}, protocol/request.h, and `extract_request_frame`, `resp_frame_size` and
--   `hex_encode` of app/kv_server.cpp: Protocol, with Hex, Arguments (`parse_args`), Resp (frames of
--   RESP) and Requests (lines of text, and the lines that an owner sends its replicas). A position in
--   a buffer is the text that follows it; the counts that `std::vector::reserve` accepts are a
--   parameter.
-- * app/kv_server.{h,cpp} (the replicated log of `KVServer`): Server (entries, indices and the state),
--   Server/Codec (the lines of the log and the messages of the leader), Files (the two files and the
--   start on them), Apply (committed entries and compaction), Append (what a follower does with the
--   leader's entries and snapshots), Replicate (`replicate_raft_write`) and Responses. The store is any
--   record of the methods of `KVStore` (Server/Store). A `Turn` is what the environment answers to a
--   call: the clock, whether the files open, and a quotient of floating-point numbers; what is written
--   to an open file is written whole. What a follower responds is a function of the number of the
--   message. A snapshot is installed in `admit_snapshot`, `install_snapshot_payload` and
--   `set_base`, with the mutex free in between; `handle_install_snapshot` is the three with nothing
--   between them. Contiguity says which indices the entries of the log carry. Server/Dispatch is
--   `process_request_line` and the loop of `process_client_lines`, where a `Call` is what the
--   environment does during a line; the messages whose responses are not read are part of the
--   answer. Server/Execute is its last `switch`, Server/Metrics is `metrics_response`, and
--   Server/Start is `init_raft_persistence`.
-- * log/block_queue.h (`block_queue`): Log/BlockQueue, one definition for each method; Bounded is the
--   queue that it promises to be, and Stands says when the ring is such a queue.
-- * net/thread_pool.{h,cpp} (`ThreadPool`): Net/ThreadPool, with Steps for what its users and workers do
--   one after another; Workers, Taking and Completion follow the tasks.
-- Text models what is used of the standard library: lines, fields, words, and decimal numbers, which
-- are 64 bits wide for `std::stoll` and 32 bits for `operator>>` into an int.
--
-- Bounds: all loops are structural but three. `replicate_to` takes a number of turns and is `none` if
-- they are too few; Server/Replicate/Ends bounds the turns that a follower can cause. `apply_entries`
-- takes the length of the log, since each of its turns takes an entry of a log with consecutive
-- indices, and `shrink` that of the list of recent use, since each turn takes a node off. The digits of a
-- number are printed by recursion on the accessibility of the order of the natural numbers. Sums of
-- times, terms and indices are taken as exact integers, since their overflow is undefined in the code;
-- what is read from a text is checked against the range of its type.
--
-- Not modelled: sockets, the event loop and threads as such, the writer of diagnostics, and the reader
-- of the configuration file.
pub mod Prelude
pub mod Text
pub mod Storage
pub mod Config
pub mod Cluster
pub mod Protocol
pub mod Server
pub mod Log
pub mod Net
pub mod Examples
