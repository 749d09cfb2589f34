-- ===== src/Node/AppendResults.antt =====
-- `handleAppendResult` of node_replication.go, and what observer.go tracks of a peer's reachability:
-- a leader learns from the answers how far each peer has come.
use raft.Prelude.{
  ℕ, ◌+◌, ◌-◌, ltb, leb, ◌==◌, not, ◌&&◌, if◌then◌else◌, true, false, add64, none, some, List, [],
  ◌∷◌, NodeId, id_eq, update,
}
use raft.Types.{LogEntry, is_leader}
use raft.RaftLog.Defs.{last_log_index, last_index_of_term}
use raft.RaftLog.Segments.{last_entry}
use raft.Node.State.{Node}
use raft.Node.Reads.{no_acks, confirm_read_batch}
use raft.Node.Commit.{maybe_advance_commit, commit_quorum_acked}
use raft.Node.Replicate.{Disk, departing_index, replicate_to_peer}
use raft.Node.Follower.{nobody, become_follower}
use raft.Node.Departures.{AppendResult, tell_departing}
use raft.Node.Transfer.{send_timeout_now}

-- `peerUnresponsiveFailures`
abbrev pub peer_unresponsive_failures : ℕ
peer_unresponsive_failures = 3

-- `markPeerDown` and `markPeerUp`
unfoldable pub mark_peer_down : NodeId → Node → Node
mark_peer_down peer n = record n { peer_down = update n.peer_down peer true }

unfoldable pub mark_peer_up : NodeId → Node → Node
mark_peer_up peer n = record n {
  peer_down = update n.peer_down peer false;
  peer_failures = update n.peer_failures peer 0;
}

-- `notePeerUnreachable`
unfoldable pub note_peer_unreachable : NodeId → Node → Node
unfolding mark_peer_down
note_peer_unreachable peer n =
    let failed = record n {
      peer_failures = update n.peer_failures peer (n.peer_failures peer + 1);
    } in
    if leb peer_unresponsive_failures (failed.peer_failures peer)
    then mark_peer_down peer failed
    else failed

-- The request is no longer in flight.
unfoldable pub landed : NodeId → Node → Node
landed peer n = record n { inflight = update n.inflight peer (n.inflight peer - 1) }

-- Where a rejection sends the leader back to: the follower's hint, or just past the leader's own last
-- entry of the term that they disagree in; never below 1, nor below what the peer has.
unfoldable pub hinted : AppendResult → Node → ℕ
unfolding last_index_of_term
hinted r n =
    if r.conflict_term == 0
    then r.conflict_index
    else elim (last_index_of_term n.log r.conflict_term) [
      | none ↦ r.conflict_index
      | some idx ↦ add64 idx 1
    ]

unfoldable pub resume_at : AppendResult → Node → ℕ
unfolding hinted
resume_at r n =
    let hint = hinted r n in
    let at_least_one = if ltb hint 1 then 1 else hint in
    if leb at_least_one (n.match_index r.peer) then add64 (n.match_index r.peer) 1 else at_least_one

-- The progress of a peer that accepted entries.
unfoldable pub note_progress : NodeId → List LogEntry → Node → Node
note_progress peer [] n = n
note_progress peer (e ∷ es) n =
    let last = (last_entry e es).index in
    let matched =
      if ltb (n.match_index peer) last
      then record n { match_index = update n.match_index peer last }
      else n in
    if ltb (matched.next_index peer) (add64 last 1)
    then record matched { next_index = update matched.next_index peer (add64 last 1) }
    else matched

-- Check-quorum: the peer was heard from.
unfoldable pub note_heard : NodeId → Node → Node
note_heard peer n = elim n.quorum_acks [
  | none ↦ n
  | some acks ↦ record n { quorum_acks = some (update acks peer true) }
]

-- The target of a leadership transfer that has caught up is told to stand.
unfoldable pub finish_transfer : NodeId → Node → Node
unfolding send_timeout_now
finish_transfer peer n =
    if id_eq n.transfer_target peer && leb (last_log_index n.log) (n.match_index peer)
    then record (send_timeout_now n.transfer_target n) {
      transfer_target = nobody;
      transfer_elapsed = 0;
    }
    else n

-- The answer counts for the round of reads that it was asked in.
unfoldable pub count_barrier : NodeId → Node → Node
unfolding confirm_read_batch commit_quorum_acked
count_barrier peer n =
    let acks = update (elim n.read_batch_acks [ none ↦ no_acks | some a ↦ a ]) peer true in
    let counted = record n { read_batch_acks = some acks } in
    if commit_quorum_acked counted acks then confirm_read_batch counted else counted

unfoldable pub note_barrier : AppendResult → Node → Node
unfolding count_barrier
note_barrier r n =
    if not (r.req.read_barrier == 0)
      && r.req.read_barrier == n.read_batch_gen
      && (r.success && r.term == n.current_term)
    then count_barrier r.peer n
    else n

module _ (disk : Disk) where
  -- A rejection.
  unfoldable pub append_rejected : AppendResult → Node → Node
  unfolding resume_at replicate_to_peer
  append_rejected r n =
      if r.conflict_index == 0 && r.conflict_term == 0
      then n
      else if ltb r.req.prev_log_index (n.match_index r.peer)
      then n
      else replicate_to_peer disk r.peer
          (record n { next_index = update n.next_index r.peer (resume_at r n) })

  -- An acknowledgement up to the next batch, and with it.
  unfoldable pub note_accepted : AppendResult → Node → Node
  unfolding note_heard note_progress finish_transfer note_barrier
  note_accepted r n = note_barrier r (
      finish_transfer r.peer
        (maybe_advance_commit (note_progress r.peer r.req.entries (note_heard r.peer n))))

  unfoldable pub append_accepted : AppendResult → Node → Node
  unfolding note_accepted replicate_to_peer
  append_accepted r n =
      let noted = note_accepted r n in
      if leb (noted.next_index r.peer) (last_log_index noted.log)
      then replicate_to_peer disk r.peer noted
      else noted

  -- What follows in the term of a leader.
  unfoldable pub append_answered : AppendResult → Node → Node
  unfolding append_rejected append_accepted departing_index tell_departing
  append_answered r n =
      if not r.success then append_rejected r n else elim (departing_index r.peer n.departing) [
        | some index ↦ tell_departing disk r index n
        | none ↦ append_accepted r n
      ]

  -- `handleAppendResult`
  unfoldable pub handle_append_result : AppendResult → Node → Node
  unfolding landed note_peer_unreachable mark_peer_up become_follower append_answered
  handle_append_result r n =
      let heard = mark_peer_up r.peer (landed r.peer n) in
      if r.dropped
      then note_peer_unreachable r.peer (landed r.peer n)
      else if ltb heard.current_term r.term
      then become_follower r.term nobody heard
      else if not (is_leader heard.state)
      then heard
      else append_answered r heard
