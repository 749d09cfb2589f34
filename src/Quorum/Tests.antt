-- ===== src/Quorum/Tests.antt =====
-- Concrete groups for the theorems on quorums: three voters, as two of them see the group.
use raft.Prelude.{
  ◌≡◌, refl, true, false, inl, inr, pos, List, [], ◌∷◌, Bool, Mem, NodeId, id_eq, Perm,
}
use mathlib.Core.List.{Permᴰ}
use raft.Types.{PeerConfig}
use raft.Quorum.Sizes.{Policy, QuorumKind, quorum_needed, commit_quorum_for, election_quorum_for}
use raft.Quorum.Ack.{has_quorum_ack}
use raft.Quorum.Overlap.{electorate, supports, election-election_share, election-commit_share}

abbrev node_a : NodeId
node_a = 97 ∷ []

abbrev node_b : NodeId
node_b = 98 ∷ []

abbrev node_c : NodeId
node_c = 99 ∷ []

abbrev a_voter : NodeId → PeerConfig
a_voter id = record { id = id; voter = true; witness = false }

abbrev peers_a : List PeerConfig
peers_a = a_voter node_b ∷ a_voter node_c ∷ []

abbrev peers_b : List PeerConfig
peers_b = a_voter node_a ∷ a_voter node_c ∷ []

same : Perm (electorate node_a peers_a) (electorate node_b peers_b)
same = ∣ Permᴰ.swap refl refl ∣₁

abbrev from_c : NodeId → Bool
from_c = id_eq node_c

-- One node has applied the policy that the other has only in its log.
abbrev policy_a : Policy
policy_a = record { applied = pos 0; latest = pos 2 }

abbrev policy_b : Policy
policy_b = record { applied = pos 2; latest = pos 2 }

won_a : has_quorum_ack policy_a QuorumKind.election_quorum from_c peers_a true true ≡ true
unfolding has_quorum_ack quorum_needed commit_quorum_for election_quorum_for id_eq
won_a = refl

won_b : has_quorum_ack policy_b QuorumKind.election_quorum from_c peers_b true true ≡ true
unfolding has_quorum_ack quorum_needed commit_quorum_for election_quorum_for id_eq
won_b = refl

acked_b : has_quorum_ack policy_b QuorumKind.commit_quorum from_c peers_b true true ≡ true
unfolding has_quorum_ack quorum_needed commit_quorum_for election_quorum_for id_eq
acked_b = refl

election-election_share_example :
    (x : NodeId) × Mem x (electorate node_a peers_a)
    × (supports node_a from_c x ≡ true)
    × (supports node_b from_c x ≡ true)
election-election_share_example =
    election-election_share node_a node_b peers_a peers_b same from_c from_c policy_a policy_b won_a
      won_b

election-commit_share_example :
    (x : NodeId) × Mem x (electorate node_a peers_a)
    × (supports node_a from_c x ≡ true)
    × (supports node_b from_c x ≡ true)
election-commit_share_example =
    election-commit_share node_a node_b peers_a peers_b same from_c from_c policy_a policy_b (pos 2)
      (inr refl) (inl refl) won_a acked_b
