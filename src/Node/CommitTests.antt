-- ===== src/Node/CommitTests.antt =====
-- A candidate and the leader before it, for the theorems on commits.
use raft.Prelude.{◌≤◌, ◌≡◌, refl, true, inl, pos, [], ◌∷◌, NodeId, Mem, id_eq, arith, if◌then◌else◌}
use mathlib.Core.List.{Permᴰ}
use raft.Types.{State}
use raft.Quorum.{has_quorum_ack, quorum_needed, commit_quorum_for, election_quorum_for}
use raft.Quorum.Overlap.{electorate, supports}
use raft.RaftLog.Defs.{stable_index, last_log_index, cap_unstable, append, queue_op, stabilize}
use raft.RaftLog.Segments.{unstable_first}
use raft.Node.State.{Node}
use raft.Node.Commit.{
  committed_at, replicated_on_majority, holders, self_holds, spans_enough_zones, enough_zones,
  maybe_advance_commit,
}
use raft.Node.Election.{election_won}
use raft.Node.CommitRule.{StartsTerm, Advanced, maybe_advance_commit-Advanced}
use raft.Node.CommitQuorum.{holds, committed-elected_share}
use raft.Node.AppendTests.{two, settled, settled-Models}
use raft.Node.Tests.{follower, config, log, voter, node_a, node_b}

abbrev node_c : NodeId
node_c = 99 ∷ []

-- The candidate has the vote of the third node, which acknowledged index 6 to the leader.
abbrev candidate : Node
candidate = record follower {
  state = State.candidate;
  current_term = 3;
  received_vote_set = id_eq node_c;
}

abbrev leader : Node
leader = record follower {
  cfg = record config { id = node_b; peers = voter node_a ∷ voter node_c ∷ [] };
  state = State.leader;
  log = record log { first = 5; last = 6; durable = 6 };
  term_start_index = 5;
  match_index = λ id. if id_eq node_c id then 6 else 0;
}

committed : committed_at leader 6 ≡ true
unfolding committed_at replicated_on_majority holders self_holds spans_enough_zones enough_zones
    stable_index cap_unstable unstable_first last_log_index quorum_needed commit_quorum_for id_eq
committed = refl

won : election_won candidate ≡ true
unfolding election_won has_quorum_ack quorum_needed commit_quorum_for election_quorum_for id_eq
won = refl

committed-elected_share_example :
    (x : NodeId) × Mem x (electorate node_a config.peers)
    × (supports node_a candidate.received_vote_set x ≡ true)
    × (supports node_b (holds leader 6) x ≡ true)
committed-elected_share_example =
    committed-elected_share candidate leader 6 (pos 0) refl refl refl refl ∣ Permᴰ.swap refl refl ∣₁
      (inl refl) (inl refl) won committed

-- A leader that has the entries 5 and 6 on its disk; they are of its term.
abbrev elected : Node
elected = record settled {
  cfg = leader.cfg;
  state = State.leader;
  current_term = 2;
  commit_index = 4;
  term_start_index = 5;
  match_index = leader.match_index;
}

behind_commit : elected.log.snap_meta.last_included_index ≤ 4
unfolding append queue_op stabilize
behind_commit = omega arith

from_commit : elected.log.first ≤ 5
unfolding append queue_op stabilize
from_commit = omega arith

of_its_term : StartsTerm elected two
of_its_term j t above found = ground (arith, above, found)

maybe_advance_commit-Advanced_example :
    Advanced elected two (maybe_advance_commit elected).commit_index
maybe_advance_commit-Advanced_example =
    maybe_advance_commit-Advanced elected two two refl settled-Models from_commit behind_commit
      (omega arith) of_its_term (omega arith)
