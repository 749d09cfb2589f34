-- ===== src/Node/CommitQuorum.antt =====
-- The commit rule of node_replication.go counts a quorum of acknowledgements: `replicatedOnMajority`
-- against `hasQuorumAck`, and so against an election.
use raft.Prelude.{
  ℕ, ◌+◌, ◌≤◌, leb, ◌&&◌, if◌then◌else◌, Bool, true, List, [], ◌∷◌, NodeId, ◌≡◌, arith, ℤ, Mem,
  Perm, count, none,
}
use raft.Types.{PeerConfig}
use raft.Quorum.{QuorumKind, Counts, has_quorum_ack, voters_with}
use raft.Quorum.Overlap.{electorate, supports, election-commit_share}
use raft.Node.State.{Node}
use raft.Node.Commit.{
  full_holder, witness_holder, self_holds, holders, replicated_on_majority, committed_at,
}
use raft.Node.Election.{election_won}

-- The peers that acknowledged an index.
abbrev pub holds : Node → ℕ → NodeId → Bool
holds n idx id = leb idx (n.match_index id)

counted_peers :
    (n : Node) (idx : ℕ) (ms : List PeerConfig)
    → count (full_holder n idx) ms + count (witness_holder n idx) ms ≡ voters_with (holds n idx) ms
counted_peers n idx [] = omega arith
counted_peers n idx (m ∷ ms) = ground (arith, counted_peers n idx ms)

holders-le :
    (n : Node) (idx : ℕ) (ms : List PeerConfig) (include_self self_voter : Bool)
    → holders n idx ms include_self self_voter
      ≤ (if include_self && self_voter then 1 else 0) + voters_with (holds n idx) ms
unfolding holders self_holds
holders-le n idx ms include_self self_voter = ground (arith, counted_peers n idx ms)

-- An index that counts as replicated was acknowledged by a commit quorum, whatever witnesses and
-- zones add to the rule.
pub replicated-has_quorum_ack :
    (n : Node) (idx : ℕ) (ms : List PeerConfig) (include_self self_voter : Bool)
    → replicated_on_majority n idx ms include_self self_voter ≡ true
    → has_quorum_ack n.policy QuorumKind.commit_quorum (holds n idx) ms include_self self_voter
      ≡ true
unfolding replicated_on_majority has_quorum_ack
replicated-has_quorum_ack n idx ms include_self self_voter h =
    ground (arith, holders-le n idx ms include_self self_voter)

-- If node `b` counts an index as committed and node `a` won an election, both outside a change of
-- membership, voters themselves, with the same voters in their configurations and one policy in
-- common, then a voter that voted for `a` (or is `a`) acknowledged the index to `b` (or is `b`).
pub committed-elected_share :
    (a b : Node) (idx : ℕ) (common : ℤ)
    → a.joint_old ≡ none
    → b.joint_old ≡ none
    → a.cfg.voter ≡ true
    → b.cfg.voter ≡ true
    → Perm (electorate a.cfg.id a.cfg.peers) (electorate b.cfg.id b.cfg.peers)
    → Counts a.policy common
    → Counts b.policy common
    → election_won a ≡ true
    → committed_at b idx ≡ true
    → (x : NodeId) × Mem x (electorate a.cfg.id a.cfg.peers)
      × (supports a.cfg.id a.received_vote_set x ≡ true)
      × (supports b.cfg.id (holds b idx) x ≡ true)
unfolding election_won committed_at
committed-elected_share a b idx common no_a no_b voter_a voter_b same count_a count_b won
      committed =
    election-commit_share a.cfg.id b.cfg.id a.cfg.peers b.cfg.peers same a.received_vote_set
      (holds b idx) a.policy b.policy common count_a count_b (won_alone a no_a voter_a won)
      (replicated-has_quorum_ack b idx b.cfg.peers true true
        (committed_alone b no_b voter_b committed))
  where
    won_alone :
        (n : Node)
        → n.joint_old ≡ none
        → n.cfg.voter ≡ true
        → election_won n ≡ true
        → has_quorum_ack n.policy QuorumKind.election_quorum n.received_vote_set n.cfg.peers true
            true
          ≡ true
    won_alone n none_old votes h = ground (arith, none_old, votes, h)

    committed_alone :
        (n : Node)
        → n.joint_old ≡ none
        → n.cfg.voter ≡ true
        → committed_at n idx ≡ true
        → replicated_on_majority n idx n.cfg.peers true true ≡ true
    committed_alone n none_old votes h = ground (arith, none_old, votes, h)
