-- ===== src/Node/Transfer.antt =====
-- `handleLeadershipTransfer` and `sendTimeoutNow` of node_transfer.go. A call from the loop itself
-- has no channel: it drops the answer.
use raft.Prelude.{leb, not, if◌then◌else◌, Option, none, some, NodeId, id_eq}
use raft.Types.{
  Error, is_leader, not_leader, leadership_transfer_in_progress, unknown_transfer_target,
  transfer_to_witness, transfer_to_non_voter,
}
use raft.RaftLog.Defs.{last_log_index}
use raft.Node.State.{Node, Effect, Channel, emit, emit_on}
use raft.Node.Replicate.{Disk, replicate_to_peer}
use raft.Node.Follower.{nobody}
use raft.Node.Membership.{find_peer}

-- `sendTimeoutNow`
unfoldable pub send_timeout_now : NodeId → Node → Node
unfolding emit
send_timeout_now target n = emit (Effect.send_timeout_now target n.current_term) n

-- Why a peer cannot be the target of a transfer.
unfoldable pub transfer_refused : NodeId → Node → Option Error
unfolding find_peer
transfer_refused target n =
    if not (is_leader n.state)
    then some (not_leader n.leader_id)
    else if not (id_eq n.transfer_target nobody)
    then some leadership_transfer_in_progress
    else elim (find_peer target n.cfg.peers) [
      | none ↦ some (unknown_transfer_target target)
      | some p ↦
          if p.witness
          then some (transfer_to_witness target)
          else if p.voter
          then none
          else some (transfer_to_non_voter target)
    ]

module _ (disk : Disk) where
  -- A transfer that is accepted.
  unfoldable pub begin_transfer : NodeId → Node → Node
  unfolding send_timeout_now replicate_to_peer
  begin_transfer target n =
      if leb (last_log_index n.log) (n.match_index target)
      then record (send_timeout_now target n) { transfer_target = nobody }
      else replicate_to_peer disk target n

  -- `handleLeadershipTransfer`
  unfoldable pub handle_leadership_transfer : NodeId → Channel → Node → Node
  unfolding transfer_refused begin_transfer emit_on
  handle_leadership_transfer target ch n = elim (transfer_refused target n) [
    | some e ↦ emit_on ch (λ c. Effect.answer_transfer c (some e)) n
    | none ↦ begin_transfer target (
        emit_on ch (λ c. Effect.answer_transfer c none)
          (record n { transfer_target = target; transfer_elapsed = 0 }))
  ]
