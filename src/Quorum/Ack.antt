-- ===== src/Quorum/Ack.antt =====
-- `hasQuorumAck` of node_replication.go: whether the peers that answered, with the node itself
-- where it counts, form a quorum of the group that `members` describes.
use raft.Prelude.{ℕ, ◌+◌, leb, if◌then◌else◌, Bool, ◌&&◌, List, NodeId, count}
use raft.Types.{PeerConfig}
use raft.Quorum.Sizes.{QuorumKind, Policy, quorum_needed}

-- The voters of a peer list that pass a test, and all of them.
abbrev pub voters_with : (NodeId → Bool) → List PeerConfig → ℕ
voters_with acks = count (λ m. m.voter && acks m.id)

abbrev pub voters : List PeerConfig → ℕ
voters = count (λ m. m.voter)

unfoldable pub has_quorum_ack :
    Policy
    → QuorumKind
    → (NodeId → Bool)
    → List PeerConfig
    → (include_self self_voter : Bool) → Bool
has_quorum_ack policy kind acks members include_self self_voter =
    let self : ℕ = if include_self && self_voter then 1 else 0 in
    leb (quorum_needed policy kind (voters members + self)) (self + voters_with acks members)
