-- ===== src/Quorum.antt =====
-- quorum.go, and `hasQuorumAck` of node_replication.go: how many voters a decision needs, and
-- whether a set of acknowledgements reaches that number. A count of peers is an `int` that is
-- never negative, so it is a number here; a policy is an `int` that may be.
mod Sizes
mod Ack
pub mod Overlap
mod Tests
unfoldable pub use Sizes.*
unfoldable pub use Ack.*
