-- ===== src/Node.antt =====
-- The event loop of a node: node.go and the node_*.go files.
mod State
mod Writes
mod Reads
mod Commit
mod Replicate
mod Follower
mod Departures
mod Membership
mod MembershipView
mod Transitions
mod ConfigApply
mod Append
mod RebuildCore
mod RebuildReads
mod Lapses
mod AppendHard
mod AnswerHard
mod TickHard
mod AppendStore
mod HeardLeader
mod AppendLog
mod LogMatching
mod Transfer
mod Snapshots
mod Propose
mod ApplyResults
mod ProposalOrder
mod ProposalGate
mod AppendResults
mod Completions
mod Election
mod Frame
mod Progress
mod Counted
mod StepDown
mod Tick
mod Timeout
mod HardState
mod HardTurns
mod HardWrites
mod Votes
mod Turns
mod VoteAnswers
mod Batches
mod Zones
mod Agreed
mod CommitFrame
mod CommitRule
mod CommitQuorum
mod Tests
mod AppendTests
mod ProposalTests
mod MembershipTests
mod BatchTests
mod CommitTests
