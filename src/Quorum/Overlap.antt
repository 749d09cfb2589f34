-- ===== src/Quorum/Overlap.antt =====
-- Why quorums are enough: quorums of two nodes that agree on who votes share a voter
-- (`hasQuorumAck` of node_replication.go over the sizes of quorum.go).
use raft.Prelude.{
  ℕ, ◌+◌, ◌≤◌, ◌<◌, ℤ, if◌then◌else◌, Bool, true, ◌||◌, ◌≡◌, List, [], ◌∷◌, Mem, Perm, NodeId,
  id_eq, id_eq_refl, length, count, count-perm, overlap, leb→le, arith, length-perm,
}
use raft.Types.{PeerConfig}
use raft.Quorum.Sizes.{
  QuorumKind, Policy, Counts, quorum_needed, elections_exceed, election-commit-needed_exceeds,
}
use raft.Quorum.Ack.{voters_with, voters, has_quorum_ack}

abbrev pub voter_ids : List PeerConfig → List NodeId
voter_ids [] = []
voter_ids (m ∷ ms) = let rest = voter_ids ms in if m.voter then m.id ∷ rest else rest

-- The voters of the group as a voting node sees them: itself and its voting peers.
abbrev pub electorate : NodeId → List PeerConfig → List NodeId
electorate self peers = self ∷ voter_ids peers

-- The node itself, and the peers that acknowledged.
abbrev pub supports : NodeId → (NodeId → Bool) → NodeId → Bool
supports self acks x = id_eq self x || acks x

length-voter_ids : (ms : List PeerConfig) → length (voter_ids ms) ≡ voters ms
length-voter_ids [] = omega arith
length-voter_ids (m ∷ ms) = ground (arith, length-voter_ids ms)

voters_with-le-count :
    (self : NodeId) (acks : NodeId → Bool) (ms : List PeerConfig)
    → voters_with acks ms ≤ count (supports self acks) (voter_ids ms)
voters_with-le-count self acks [] = omega arith
voters_with-le-count self acks (m ∷ ms) = ground (arith, voters_with-le-count self acks ms)

module _ (policy : Policy) (kind : QuorumKind) (self : NodeId) where
  -- A quorum's supporters are as many voters as the policy needs.
  needed-le-count :
      (acks : NodeId → Bool) (peers : List PeerConfig)
      → has_quorum_ack policy kind acks peers true true ≡ true
      → quorum_needed policy kind (length (electorate self peers))
        ≤ count (supports self acks) (electorate self peers)
  unfolding has_quorum_ack
  needed-le-count acks peers h = ground (
    arith,
    leb→le (quorum_needed policy kind (voters peers + 1)) (1 + voters_with acks peers),
    length-voter_ids peers,
    voters_with-le-count self acks peers,
    id_eq_refl self,
  )

-- Two nodes that see the same voters, each with its own peer list.
module _ (a b : NodeId) (peers_a peers_b : List PeerConfig)
    (same : Perm (electorate a peers_a) (electorate b peers_b)) (acks_a acks_b : NodeId → Bool)
    (p q : Policy) where
  abbrev Shared : Type 0
  Shared =
      (x : NodeId) × Mem x (electorate a peers_a)
      × (supports a acks_a x ≡ true)
      × (supports b acks_b x ≡ true)

  shared :
      {n : ℕ} {m : ℕ}
      → n ≤ count (supports a acks_a) (electorate a peers_a)
      → m ≤ count (supports b acks_b) (electorate b peers_b)
      → length (electorate a peers_a) < n + m
      → Shared
  shared h k l =
      overlap (supports a acks_a) (supports b acks_b) (electorate a peers_a)
        (omega (arith, h, k, l, count-perm (supports b acks_b) same))

  -- If two nodes that see the same voters both won an election, one voter voted for both of them,
  -- whatever commit quorum policies either node counts by. So no term has two leaders.
  pub election-election_share :
      has_quorum_ack p QuorumKind.election_quorum acks_a peers_a true true ≡ true
      → has_quorum_ack q QuorumKind.election_quorum acks_b peers_b true true ≡ true
      → Shared
  election-election_share won_a won_b =
      shared (needed-le-count p QuorumKind.election_quorum a acks_a peers_a won_a)
        (needed-le-count q QuorumKind.election_quorum b acks_b peers_b won_b)
        (rw (← length-perm same)
          (elections_exceed p q (length (electorate a peers_a)) (omega arith)))

  -- If node `a` won an election and node `b` has a commit quorum's acknowledgements, and there is
  -- one policy that both count by (applied, or only in the log), then a voter for `a` acknowledged
  -- to `b`. So the new leader was elected by a voter that holds the committed entry.
  pub election-commit_share :
      (common : ℤ)
      → Counts p common
      → Counts q common
      → has_quorum_ack p QuorumKind.election_quorum acks_a peers_a true true ≡ true
      → has_quorum_ack q QuorumKind.commit_quorum acks_b peers_b true true ≡ true
      → Shared
  election-commit_share common cp cq won_a acked_b =
      shared (needed-le-count p QuorumKind.election_quorum a acks_a peers_a won_a)
        (needed-le-count q QuorumKind.commit_quorum b acks_b peers_b acked_b)
        (rw (← length-perm same) (
          election-commit-needed_exceeds p q common (length (electorate a peers_a)) cp cq
            (omega arith)))
