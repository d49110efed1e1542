-- ===== src/Lib.antt =====
-- Verification of the Raft core of the repository, packages/raft-core/src: the consensus that
-- replicates a log of commands over a cluster of nodes.
--
-- The program. A node (core/StateMachine.ts) is follower, candidate or leader. It keeps its term and
-- vote (state/PersistentState.ts) in a meta storage, its commit and applied index
-- (state/VolatileState.ts) in memory, its log (log/LogManager.ts, of the entries of
-- log/LogEntry.ts) in a log storage, the cluster's membership (config/ConfigManager.ts and
-- config/ClusterConfig.ts) in a config storage, and its snapshots (snapshot/SnapshotManager.ts) in a
-- snapshot storage. A leader keeps what each peer has (state/LeaderState.ts). Nodes exchange the
-- messages of rpc/RPCTypes.ts.
--
-- The files.
--   Prelude: Boolean tests on ℕ, lists over ℕ, and the monad `Exec S A` of code that reads and
--     writes a state and may throw; the state stays changed when an error is thrown.
--   Storage/Meta, Config, Log, Snapshot: InMemoryMetaStorage, InMemoryConfigStorage,
--     InMemoryLogStorage and InMemorySnapshotStorage of storage/inMemory. Storage/Log/Invariant says
--     what a well-formed log storage is, Storage/Log/Journal which abstract log it implements.
--   State/Persistent, State/Volatile, State/Leader: the three state classes. Below them stand
--     Durability (restart and updates), Order (commit and applied index), Sorting and Commit
--     (`calculateCommitIndex`) and Tracking (next and matched indices).
--   Config: ClusterConfig.ts; Config/Quorum: quorums; Config/Sorting and Config/Equality:
--     `clusterConfigsEqual`; Config/Manager: ConfigManager.ts.
--     Config/Node: the configuration of a node and its validation, of core/Config.ts.
--   Lock: AsyncLock.ts; Lock/Fairness: what it promises its callers.
--   Log: LogEntry.ts; Log/Validation: its validation and comparison.
--   Log/Manager: the methods of LogManager.ts that write; Queries: those that read; Reconcile:
--     `appendEntriesFrom`. Below them stand Invariant, Effects, Runs, Answers, Search, Matching and
--     Keeping.
--   Snapshot: SnapshotManager.ts; Snapshot/Saving: saving and loading.
--   Machine: the types and the collaborators of StateMachine.ts. Roles has `becomeFollowerUnlocked`,
--     `becomeCandidateUnlocked`, `becomeLeaderUnlocked` and `sendHeartbeatsUnlocked`; Elections has
--     `handleRequestVote`, both vote answers and the election timeout; Replication has
--     `handleAppendEntries`; Leading has `handleAppendEntriesResponse`, `tryAdvanceCommitIndex` and
--     the locked part of `sendAppendEntries`; Installing has `handleInstallSnapshot`. Below them
--     stand Elections/Answers (which requests get a vote), Elections/Alone (the only voter of a
--     cluster) and Leading/Batches (what is sent at a time).
--     Sending has `sendSnapshot` and, below it, Rounds (how long the loop runs), Exchange (the loop as
--     a list of requests), Received, Installed and Transfer (what the requests make of the receiver);
--     Messages has the tasks that send a request and handle its answer, and Messages/Tasks what they
--     keep.
--   Machine/Runs: the events of a node, and runs of them. Machine/Steps: the relations that every
--     handler is tried against, with one module for each group of handlers; Machine/Voting (term and vote),
--     Leadership, Ready (usable collaborators) and Campaigns (collected votes) are such relations.
--     Replication/Commit, Takeover and Follower: what a follower does with a request.
--   Cluster: nodes by their ids, the votes that were cast, and the steps of one node at a time. Below
--     it stand Standing (what candidates and leaders have), Casting (which votes an event casts),
--     Sound (the invariant), Moves, Invariant (that it is kept) and Safety.
--   Examples: runs on small inputs.
--
-- How the code is read. A method is a function of the same name in snake_case, an `Unlocked` suffix
-- dropped; a handler runs from its first line to its last under the state lock, so a run of a node
-- is a list of events, one handler each. `start` and `stop` are events of this kind too, although
-- the source takes the lock only behind the first line of `start` and never in `stop`. Numbers are
-- natural numbers, so a test for an integer that is not negative leaves no branch. A node id is a
-- string, a buffer a list of numbers, a payload the text of its JSON. A `Map` that the code never
-- iterates over is a function. Timers, messages and callbacks are effects in a list of the node;
-- answers come back as events of their own. What is not under packages/raft-core/src is a
-- parameter: the clock's reading and the application's `installSnapshot`; so is the encoded size of
-- an entry, which `serializeLogEntry` of storage/StorageUtil.ts and `JSON.stringify` give; so is,
-- for a sending task, what its peer answers and what the node handles until then and between two
-- locked sections, and the order in which `sort` puts identifiers. Error classes are constructors
-- without their messages. The loops are recursion on a list or on the number of rounds left; the
-- loop of `sendSnapshot` gets one round more than there are bytes, which is enough for a positive
-- chunk size.
--
-- A cluster delivers any event to any node at any time, so messages may be lost, repeated and
-- reordered. What it takes of the network is that a granted vote was cast: by the handler that
-- answered the candidate named in the request, or by a candidate for itself. The active configuration
-- is the same after every step; changes of membership are outside that theorem.
--
-- Not modelled: log lines, observer events and debug dumps; RaftNode, the RPC handler, transports,
-- timers, clocks and disk storages of packages/raft-core; the other packages and the applications.
pub mod Cluster
pub mod Config
pub mod Examples
pub mod Lock
pub mod Log
pub mod Machine
pub mod Prelude
pub mod Snapshot
pub mod State
pub mod Storage
