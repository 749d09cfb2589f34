-- ===== src/Node/MembershipTests.antt =====
-- A group that changes its members, and a node that waits in vain.
use raft.Prelude.{ℕ, ◌<◌, ◌≡◌, refl, true, false, some, [], ◌∷◌, arith, NodeId, id_eq}
use raft.Node.State.{Node}
use raft.Node.Reads.{is_single_voter, no_voter}
use raft.Node.Follower.{is_peer}
use raft.Node.Writes.{reset_election_timeout}
use raft.Node.Membership.{peer_union, union_into, current_membership, restore_membership}
use raft.Node.MembershipView.{view, Settled, restore-current_membership}
use raft.Node.Tick.{ticks}
use raft.Node.Timeout.{Standing, ticks-pre_candidate}
use raft.Node.Tests.{follower, disk, config, voter, node_a, node_b}

abbrev node_c : NodeId
node_c = 99 ∷ []

abbrev node_d : NodeId
node_d = 100 ∷ []

-- During a change from a, b and c to a, b and d.
abbrev changing : Node
changing = record follower {
  cfg = record config { peers = voter node_b ∷ voter node_c ∷ voter node_d ∷ [] };
  joint_old = some (voter node_b ∷ voter node_c ∷ []);
  joint_new = voter node_b ∷ voter node_d ∷ [];
  joint_include_self = true;
  joint_self_voter_old = true;
  joint_self_voter = true;
}

changing-Settled : Settled (view changing) node_a changing.joint_old
unfolding is_peer peer_union union_into id_eq
changing-Settled = (refl, refl, refl, refl, refl, λ e. cc)

restore-current_membership_example :
    view (restore_membership (current_membership changing) follower) ≡ view changing
restore-current_membership_example =
    restore-current_membership changing follower changing-Settled refl

a_group : is_single_voter follower ≡ false
unfolding is_single_voter no_voter
a_group = refl

-- Three is below any span of ten, and the generator is asked for no other.
abbrev steady : Node
steady = record follower { cfg = record config { int_n = λ k span. 0 } }

steady_group : is_single_voter steady ≡ false
unfolding is_single_voter no_voter
steady_group = refl

ticks-pre_candidate_example :
    (k : ℕ) × (k < 20) × Standing steady (ticks disk k (reset_election_timeout steady))
ticks-pre_candidate_example =
    ticks-pre_candidate disk steady (refl, refl, refl) refl steady_group (omega arith) (omega arith)
      (λ k span h. h)
