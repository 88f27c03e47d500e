-- ===== src/Lib.antt =====
-- A verification library of the token revoker: the filters that hold the revoked tokens, the
-- coordinator's log and its broadcasts, and the replication engine of a node.
--
-- The program. packages/core keeps the revoked tokens in two Bloom filters, the current and the
-- previous one, which rotate. packages/server is the coordinator: it writes every revocation and every
-- rotation to a canonical log under a log sequence number (LSN), applies it to its own revoker, and
-- broadcasts it to the nodes. packages/node is a node: it subscribes to the coordinator, polls while it
-- has no stream, and applies what it receives to its own revoker.
--
-- The files.
--   Prelude: shared tests on numbers, lists, texts and results; Utf8 has what a file makes of a text.
--   Core/BloomFilter: packages/core/src/bloomfilter.ts. Hash has the range of the locations, Membership
--     the bits that are set, Tokens the tokens that are recognised, Union the merges.
--   Core/FilterManager: packages/core/src/Bloom-filter-manager.ts. Run has the calls that reach a
--     manager, Window what each call keeps, Recall how long a token is recognised, Health healthCheck,
--     Lifecycle the resets, the rotation interval and the shutdown.
--   Core/Backup: packages/core/src/BloomFilterBackupManager.ts. Local has backupLocal, backup and
--     backupRotate in steps, Restore restore, Process the filter manager's constructor over it, with
--     crashes; Lines, Covers, Held, Rotations, Restart, Storing, Recoverable and Recovery have what
--     survives a crash, Lost and Buffer what does not.
--   Core/Middleware: packages/core/src/createMiddlewares.ts. Reject has what the handlers reject.
--   Core/RevokerStore: packages/core/src/revokerStore.ts.
--   Core/Revoker: packages/core/src/index.ts, the revokers of a process and their gRPC server. Start
--     has the start of the server, Methods what is passed on to the manager; Starts and InStep have
--     the store against the server, Namesakes two revokers of one id; Service has the handlers of
--     packages/core/src/grpc/std-server.ts, Found what they find.
--   Server/CanonicalWal: packages/server/src/canonicalWal.ts. Line has the line format (appendEntry,
--     parseLine), Files the directory (listGenerationFiles, parseFile), Wal the state and the appends,
--     Read readSince and scan, Truncate truncateOldGenerations; RoundTrip, WholeFile,
--     Torn, Delivery, Climb,
--     Backlog, Removal, Retention, Cursors, Floor and Numbering have the proofs.
--   Server/Delivery: the connections, Subscribe and PollDeltas of packages/server/src/distributedServer.ts.
--     Stream has the drain of the backlog, Order and Schedule the order of a stream, Paging the pages.
--   Server/DistributedServer: the set of connections, the handlers and the life of the service, of
--     packages/server/src/distributedServer.ts. Serve has the handlers, Admission the check of the
--     secret, Broadcasts what Add enqueues; Streams, Changes, Agreement, Kept and OneStream have the
--     agreement of the connections with the registry.
--   Server/Coordinator: packages/server/src/coordinator.ts. GetSnapshot has its reads, Broadcast the
--     order of the events, Snapshot the cursor that a snapshot carries.
--   Server/Meta: packages/server/src/meta.ts. Register has the files as a single cell.
--   Server/NodeRegistry: packages/server/src/nodeRegistry.ts. Exclusive has the life of a stream.
--   Node/SyncEngine: packages/node/src/syncEngine.ts. Apply has the apply chain (applyEvent), Connect
--     streams, reconnects and the watchdog, Poll pollOnce, Run the schedule of inputs. Log has the
--     specification, a replay of the coordinator's log; Frames, QueueFrames, Queue, Replica, Chain,
--     Refinement, Halt, Counted, Once and CatchUp have the proofs.
--   Node/StateFile: packages/node/src/stateFile.ts.
--   Node/RevokerNode: packages/node/src/revokerNode.ts. Steps has the bootstrap between its awaits, Run
--     the events; OrderlyInstall, Orderly, ClosedInstall, Closed, CaughtUp and Gate have the proofs.
--   Tests files hold the theorems at concrete inputs.
--
-- The conventions. A method that throws returns a Result; only the class of the error is kept. A text
-- is the list of its UTF-16 code units. The function `Number` on texts is modelled on strings of digits
-- up to the largest safe integer; on all other texts it is a parameter `other`, of which nothing is
-- assumed. A method that awaits is several steps: what runs up to the await, and what runs after it;
-- between them any other step may run, and a list of inputs or calls is the schedule. What the file
-- system refuses during a call is a parameter of the call, so every theorem that does not fix it holds
-- for every refusal. The objects behind an interface (the revoker and the state store of the engine,
-- the revoker of the coordinator, the backups of the filter manager, a node's connection) are type
-- parameters with the functions that are called. No model has fuel: every loop is a structural
-- recursion on the list that it walks, or a step that is repeated; for the drain of the backlog a
-- number of steps that is enough is proved.
--
-- The bounds. The theorems on filters ask for 1 to 2 ^ 31 bits (union and intersection for fewer): from
-- 2 ^ 31 on the signed shift of the bucket's index is negative, which set_bit, get_bit and merge model.
-- Those on printed numbers ask for safe integers. Files are in UTF-8: what is appended to the token
-- file and to the canonical log is read back with U+FFFD for a surrogate without its partner, and an
-- append that throws may have written a part.
--
-- Not modelled: logging, the jitter of the reconnect delay, metrics, the floating point of
-- withTargetError, size and error (its results are parameters), the schemas of the inputs, gRPC with
-- its clients and credentials, and JSON.
pub mod Prelude
pub mod Core
pub mod Node
pub mod Server
