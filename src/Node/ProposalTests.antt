-- ===== src/Node/ProposalTests.antt =====
-- Proposals that come to a follower, to a leader, and to a leader that owes its group two entries.
use raft.Prelude.{
  ◌+◌, ◌≤◌, ◌<◌, ◌==◌, if◌then◌else◌, ◌≡◌, refl, true, false, pos, inl, inr, List, [], ◌∷◌, ◌++◌,
  length, u64_mod, arith,
}
use raft.Types.{State, LogEntry, not_leader}
use raft.RaftLog.Defs.{last_log_index}
use raft.RaftLog.History.{Chained}
use raft.ClientTable.Codec.{is_dedup_cmd, dedup_body, dedup_magic}
use raft.Node.State.{Node}
use raft.Node.Propose.{Proposal, cap_due, quorum_due, has_dedup, put_together, handle_proposals}
use raft.Node.ProposalOrder.{put_together-Chained}
use raft.Node.ProposalGate.{
  rejections, changes, handle_proposals-TurnedAway, put_together-changes, put_together-same_index,
}
use raft.Node.Tests.{follower, disk, config, node_a, node_b}

-- A command proposed once, and a plain one.
abbrev once : Proposal
once = record { cmd = dedup_magic (0 ∷ []); promise = 1 }

abbrev plain : Proposal
plain = record { cmd = 7 ∷ []; promise = 2 }

abbrev proposals : List Proposal
proposals = once ∷ plain ∷ []

abbrev informed : Node
informed = record follower { leader_id = node_b }

handle_proposals-TurnedAway_example :
    handle_proposals disk proposals informed
    ≡ record informed { effects = informed.effects ++ rejections proposals (not_leader node_b) }
handle_proposals-TurnedAway_example =
    handle_proposals-TurnedAway disk proposals informed (not_leader node_b) (inl (refl, refl))

abbrev leading : Node
leading = record follower { state = State.leader; leader_id = node_a }

no_quorum_due : quorum_due leading ≡ false
unfolding quorum_due
no_quorum_due = refl

room : last_log_index leading.log + length proposals + 3 < u64_mod
unfolding last_log_index
room = omega arith

put_together-Chained_example :
    Chained (last_log_index leading.log + 1) (put_together proposals leading).entries
put_together-Chained_example = put_together-Chained proposals leading (inr no_quorum_due) room

put_together-changes_example :
    changes (put_together proposals leading).entries
    ≤ (if cap_due proposals leading then 1 else 0)
      + (if leading.pending_config_index == 0 then 1 else 0)
put_together-changes_example = put_together-changes proposals leading room

-- The first command of a group whose settings ask for a commit quorum is one proposed once.
abbrev owing : Node
owing = record leading { cfg = record config { commit_quorum = pos 2 } }

owes_cap : cap_due proposals owing ≡ true
unfolding cap_due has_dedup is_dedup_cmd dedup_body
owes_cap = refl

owes_quorum : quorum_due owing ≡ true
unfolding quorum_due
owes_quorum = refl

owing_room : last_log_index owing.log + 1 < u64_mod
unfolding last_log_index
owing_room = omega arith

put_together-same_index_example :
    (cap quorum : LogEntry) × (more : List LogEntry) × ((put_together proposals owing).entries
      ≡ cap ∷ quorum ∷ more)
    × (cap.index ≡ last_log_index owing.log + 1)
    × (quorum.index ≡ last_log_index owing.log + 1)
put_together-same_index_example =
    put_together-same_index proposals owing owes_cap owes_quorum owing_room
