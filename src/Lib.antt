-- ===== src/Lib.antt =====
-- The consensus core of a Raft library: what one node decides, and in which order it writes,
-- answers and sends.
--
-- A node is an event loop (node.go, node_loop.go) that owns all of its state. A turn of the loop
-- takes one message, changes the state, queues writes with the storage writer (storage_writer.go)
-- and answers only once the writes that an answer rests on have landed. The log (raft_log.go) is
-- kept as its ends, an index of where terms begin and the entries that are not written yet.
--
-- The files, and the code that each is about (paths from the repository's root):
--   Types           types.go and the peer of config.go
--   Quorum          quorum.go and hasQuorumAck of node_replication.go: the sizes of quorums
--                   (Quorum/Sizes), the count of acknowledgements (Quorum/Ack), and which voters
--                   two quorums share (Quorum/Overlap)
--   StorageWriter   storage_writer.go: operations, queue and the runs taken from it
--                   (StorageWriter/Queue, Batches), the goroutine that performs them
--                   (StorageWriter/Execute), and what it leaves in the storage (InOrder, Drain)
--   RaftLog         raft_log.go: RaftLog/Runs (termRun and its scans), RaftLog/Segments (the
--                   unwritten segments), RaftLog/Defs (raftLog and its methods). RaftLog/History
--                   is the log as a list of entries, RaftLog/Models says when a state stands for
--                   such a list, and Terms, LastOfTerm, Stable, Append, Truncate, Prefix and
--                   Install follow each operation. Merge is the log with a leader's entries put
--                   over it, and Agree what two logs then have in common
--   ConfigEntry     config_change.go: the entries that carry memberships and policies
--   ClientTable     client_dedup.go: the table's operations (Defs), the bound and the order
--                   (Lru), the other clients (Others), and a new bound (SetCap); the codecs of
--                   commands, tables and snapshot frames (Codec, RoundTrip, Frames)
--   MemStore        storage/memstore/memstore.go: its operations (Defs) and its log (Log)
--   Recovery        recovery.go: the membership that a log leaves, and the check of the new one
--                   (Members), InspectStorage and RecoverCluster over the storage contract
--                   (Defs), and over a memstore (Store): how a log is replayed (Replay), what is
--                   written (Rewrite), and what the node finds when it starts again (Restart)
--   Balance         balance.go: the planner (Defs), its progress (Load), and the transfers that
--                   it plans (Handovers, Plans)
--   Node            node.go and node_*.go: Node/State (Node, the RPCs, effects), Node/Writes
--                   (saveTerm, sendGate, setCommitIndex), Node/Reads (node_readindex.go),
--                   Node/Commit and Node/Replicate (node_replication.go), Node/Follower and
--                   Node/Transitions (node_transitions.go and afterWrite of node.go),
--                   Node/Completions (handleWriteCompletions of node.go), Node/Election
--                   (node_election.go, handleTimeoutNow of node_transfer.go), Node/Transfer
--                   (handleLeadershipTransfer), Node/Membership, Node/ConfigApply and
--                   Node/Departures (node_membership.go and quorum.go), Node/Append
--                   (handleAppendEntries), Node/AppendResults (handleAppendResult and the
--                   reachability of observer.go), Node/Snapshots (node_snapshot.go as far as the
--                   loop decides), Node/Propose and Node/ApplyResults (handleProposals and
--                   handleApplyResult of node_loop.go), Node/Tick (tick).
--                   Frame, StepDown, HeardLeader, RebuildCore, HardState, HardTurns, HardWrites,
--                   AppendHard, AnswerHard, TickHard and CommitFrame follow what parts of a turn
--                   leave alone, and RebuildReads when computing a membership again succeeds.
--                   Votes, Turns and VoteAnswers are about what a vote promises; Zones,
--                   Agreed, CommitRule and CommitQuorum about what a commit rests on; Batches about what
--                   is sent; AppendStore, AppendLog and LogMatching about the log of a follower;
--                   Progress and Counted about what a leader knows of its peers; Timeout about
--                   elections that begin; MembershipView about the membership in a snapshot;
--                   ProposalOrder and ProposalGate about what is proposed; and Lapses about
--                   entries that a node forgets
--
-- How the state corresponds: a struct is a record with the source's fields, a map from peers is a
-- function from names, a name is a list of bytes, an index or term is a number with its 64-bit
-- wrap-around written out in each addition. A handler is a function from node to node. What it
-- does outside the node is appended to `effects`; a closure that it gives to afterWrite is a
-- value of `Deferred`. A goroutine that sends an RPC is the effect of sending it, and its result
-- is a later turn. The random generator is a field of the configuration. What a storage returns
-- is a parameter: `Disk` where the loop reads it, `Store` where the writer writes to it.
--
-- The recursions are on lists, but for the downward scan of maybeAdvanceCommit, which counts its
-- rounds: there are as many as indices from the bottom of the scan to the end of the log; and for
-- the writer's loop, where as many rounds as operations are queued are enough. setCap
-- gives its loop one round for each client. rebuildMembership reads the log in batches of 1024
-- and has as many rounds as the log has entries; so has replayConfigEntries of recovery.go. Plan
-- of balance.go has a round for each unit of the sum of the squares of what the hosts lead, which
-- each transfer lowers. `sort.Slice` is a parameter of it, as the order of hosts that lead equally
-- many groups is not fixed, and each loop over the view has an order of its own.
-- startReadBatch and confirmReadBatch call one another at most twice in a turn, since the second
-- call finds nobody waiting; they are two functions in a row.
--
-- Not modelled: leases and clocks, metrics, logs and tracing, observers; New, Start and Stop, the
-- goroutines of the apply loop and of snapshot transfer, and receiving a snapshot
-- (handleInstallSnapshot); the callers that wait outside the loop (Propose, AddServer,
-- ReconfigureCluster); the storages on disk, the transports, easyraft, discovery and the
-- examples. They are further components of the repository, input and output, or glue.
pub mod Prelude
pub mod Types
pub mod Quorum
pub mod StorageWriter
pub mod RaftLog
pub mod ConfigEntry
pub mod ClientTable
pub mod MemStore
pub mod Node
pub mod Balance
pub mod Recovery
