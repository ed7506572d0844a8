-- ===== src/Lib.antt =====
-- Vaylix, a key/value database in Rust: the command language, the transport, the storage engine
-- and the consensus state machine.
--
-- A client parses a line (crates/command/src) and sends the command in a frame
-- (crates/transport/src); the server reads the frame and runs the command on the engine. The
-- engine (crates/engine/src) keeps values with versions and expirations in memory. Each change is
-- an entry of a write-ahead log, written before it is answered; recovery replays the log on the
-- last snapshot, and followers apply the entries of their leader. The server (crates/server/src)
-- elects that leader and decides how far the log is committed. The modules, by the code that they
-- model:
--
-- - Prelude, Table: Boolean tests, saturating `u64` sums, `Result`, lists over the native numbers;
--   a `DashMap` or `BTreeMap` as an association list, with its laws.
-- - Engine.Store: engine/store.rs. Engine.State: engine/state.rs with `WalOperation` and
--   `WalEntry` of store/wal.rs. Engine.Integer: the `i64` arithmetic and texts of the counters.
-- - Engine.Command, Engine.Transaction: crates/command/src/command.rs and
--   `evaluate_transaction_command` of engine/core.rs, one function for each arm.
-- - Engine.Wildcard, Engine.Scan: `wildcard_matches`, the sorted keys and the pages of SCAN.
-- - Engine.Log, Engine.Batch: the log entries and their identities, `execute_command_batch` and
--   `execute_transaction`; Batch.Durable joins them to the segments. Engine.Direct: the operations
--   outside a batch. Engine.Follower: `wal_entries_since_capped`, `apply_replication_entries` and
--   `replace_replication_suffix`. Engine.Recovery: manifest checks, `snapshot` and
--   `from_paths_with_options`; Recovery.Install: `apply_replication_snapshot`. Recovery.Point:
--   `restore_to_point`.
-- - Engine.Wal: store/wal.rs, the bytes of an entry and the reading of a file. Wal.Segments: the
--   files of the directory and their replay. Wal.Writer: `WalWriter`, the sealing and pruning of
--   segments. Wal.Worker: the thread that runs the writer. Wal.Fresh: logs that are written anew,
--   the report, and what `replace_replication_suffix` does to the files. Wal.Renew: what
--   `snapshot` does to them. Wal.Frames, Files and Log say which bytes and directories hold a log;
--   the other modules are proofs.
-- - Replication.State, Quorum, Progress, Vote, Leadership: crates/server/src/replication, a record
--   for the state under the lock and a function for each handler; Replication.Run: the handlers as
--   events and the runs of a node.
-- - Text: the UTF-8 of texts, which the transport has from Rust's standard library.
-- - Language.Lexer, Language.Words, Language.Parser: lexer.rs and parser.rs of crates/command/src,
--   with the parsers of keys and values in Parser.Options and those of users, storage and the
--   cluster in Parser.Users. Language.Sent joins the parser to the transport.
-- - Transport.Buf, Transport.Primitives: reading and writing of integers, texts and bytes, as in
--   crates/transport/src/request/primitives.rs. Transport.Opcode, Transport.Frame: opcode.rs,
--   frame.rs and constants.rs. Transport.Request, with Encode and Decode: request/mod.rs.
--   Transport.Codec: options.rs and codec. Transport.Response: response/mod.rs.
-- - Auth.Pattern: crates/server/src/auth/pattern.rs, the patterns of grants. Auth.Grants,
--   Auth.Store, Auth.Operations, Auth.Bootstrap: crates/server/src/auth/mod.rs and password.rs,
--   the users and roles, what changes them, and the administrator of the configuration.
--   Auth.Authorize: crates/server/src/server/authorization.rs.
-- - Examples: small engines and a cluster of three, to which the theorems are applied.
--
-- A handler is a function from the state to an answer and a state. An error comes back beside the
-- state, since the source changes the state in memory before it fails. A `u64` is a natural number
-- whose sums saturate where the source says so; values are lists of bytes. Every loop of the
-- source runs over a list and is structural recursion, with two exceptions. The walk through the
-- pages of SCAN has as many pages as there are keys, since a page but the last takes a key at
-- least; the lexer has as many rounds as the line has characters, since each takes a character at
-- least. Decimal printing recurs on a well-founded order.
--
-- The reader of a payload is a function from the bytes that are left to a value and the rest, or
-- to a failure: an error of the transport, or the panic of the bytes crate where the source reads
-- past the end without a check. A stream is the list of the bytes that will come.
--
-- Parameters stand for what is not in these files: the checksum of an entry and the outcome of a
-- durable append (StorageEnv), the clock, the election timeout that is drawn and the outcome of
-- writing the consensus state (Moment). For the log on disk they are rmp_serde and crc32fast
-- (Codec), the encryption of entries (Keyring), and for each entry whether its write fails and
-- after how many bytes; the other calls on files succeed. A directory is the list of its files
-- with their bytes, and a reader takes an entry of at most 4 MiB. `Buf` stands for the integers of
-- the bytes crate, with the laws that it documents: n bytes are read and written, what was written
-- is read again, and a read past the end panics. `Library` stands for zstd and crc32fast, with
-- decompression as the inverse of compression. `Secrets` stands for Argon2 and for the file of
-- users and roles. One reading of the clock stands for those of one handler.
--
-- Not modelled: the files of snapshots and manifests, the encryption itself, the encoding of the
-- state and of entries, names of files that are not those of segments, failed renames, logical
-- backups, the negotiation at the start of a connection, sockets and asynchronous calls, the
-- listings of users and grants, sessions and the process around them.
pub mod Prelude
pub mod Table
pub mod Text
pub mod Engine
pub mod Language
pub mod Transport
pub mod Replication
pub mod Auth
pub mod Examples
