-- ===== src/Node/Election.antt =====
-- node_election.go and `handleTimeoutNow` of node_transfer.go: votes asked for, granted and counted.
use raft.Prelude.{
  ℕ, ltb, ◌==◌, not, ◌&&◌, ◌||◌, if◌then◌else◌, Bool, true, false, add64, none, some, NodeId, id_eq,
  update,
}
use raft.Types.{is_follower, is_candidate, is_leader, is_pre_candidate}
use raft.Quorum.{QuorumKind, has_quorum_ack}
use raft.RaftLog.Defs.{is_up_to_date}
use raft.Node.State.{Node, VoteRequest, Effect, Channel, Deferred, emit_on}
use raft.Node.Writes.{save_term, send_gate, reset_election_timeout}
use raft.Node.Replicate.{Disk}
use raft.Node.Follower.{nobody, apply_follower_transition, become_follower}
use raft.Node.Transitions.{become_leader, after_write, become_candidate, become_pre_candidate}

-- `electionWon`
unfoldable pub election_won : Node → Bool
election_won n =
    let won = has_quorum_ack n.policy QuorumKind.election_quorum n.received_vote_set in
    elim n.joint_old [
      | none ↦ won n.cfg.peers true n.cfg.voter
      | some old ↦
          won old true n.joint_self_voter_old
          && won n.joint_new n.joint_include_self n.joint_self_voter
    ]

-- `heardFromLeader` of `handleRequestVote`
unfoldable pub heard_from_leader : Node → Bool
heard_from_leader n =
    is_leader n.state || (is_follower n.state && ltb n.election_elapsed n.election_timeout)

-- The answer to a pre-vote.
unfoldable pub pre_vote_granted : VoteRequest → Node → Bool
unfolding heard_from_leader
pre_vote_granted req n =
    n.cfg.voter
    && (ltb n.current_term req.term
        && is_up_to_date n.log req.last_log_index req.last_log_term
        && not (heard_from_leader n))

-- The node behind a request in a higher term, and whether it votes for the sender.
unfoldable pub vote_in_new_term : VoteRequest → Node → Bool × Node
unfolding save_term apply_follower_transition
vote_in_new_term req n =
    let granted = n.cfg.voter && is_up_to_date n.log req.last_log_index req.last_log_term in
    (
      granted,
      apply_follower_transition nobody
          (save_term req.term (if granted then req.candidate_id else nobody) n).1,
    )

-- The same in the node's own term.
unfoldable pub vote_in_own_term : VoteRequest → Node → Bool × Node
unfolding save_term reset_election_timeout
vote_in_own_term req n =
    let already_voted =
      not (id_eq n.voted_for nobody) && not (id_eq n.voted_for req.candidate_id) in
    let granted =
      n.cfg.voter
      && (not already_voted && is_up_to_date n.log req.last_log_index req.last_log_term) in
    (
      granted,
      (if granted then reset_election_timeout (save_term req.term req.candidate_id n).1 else n),
    )

-- The decision of a request that is no pre-vote.
unfoldable pub decide_vote : VoteRequest → Node → Bool × Node
unfolding vote_in_new_term vote_in_own_term
decide_vote req n =
    if ltb n.current_term req.term
    then vote_in_new_term req n
    else if ltb req.term n.current_term
    then (false, n)
    else vote_in_own_term req n

-- `voteResult`
pub record VoteResult : Type 0 where
  pub peer_id : NodeId
  pub term : ℕ
  pub vote_granted : Bool
  pub election_term : ℕ
  pub pre_vote : Bool

-- A vote, counted.
unfoldable pub count_vote : NodeId → Node → Node
count_vote peer n = record n { received_vote_set = update n.received_vote_set peer true }

module _ (disk : Disk) where
  -- `handleRequestVote`
  unfoldable pub handle_request_vote : VoteRequest → Channel → Node → Node
  unfolding pre_vote_granted decide_vote send_gate after_write emit_on
  handle_request_vote req ch n =
      if req.pre_vote
      then emit_on ch
          (λ c.
            Effect.answer_vote c
              (record { term = n.current_term; vote_granted = pre_vote_granted req n }))
          n
      else let (granted, decided) = decide_vote req n in
        after_write disk (send_gate 0 decided)
          (Deferred.vote_answer ch (record { term = decided.current_term; vote_granted = granted }))
          decided

  -- `triggerElection`
  unfoldable pub trigger_election : Node → Node
  trigger_election n =
      if is_candidate n.state then become_candidate disk n else become_pre_candidate disk n

  -- `handleVoteResult`
  unfoldable pub handle_vote_result : VoteResult → Node → Node
  unfolding count_vote become_follower
  handle_vote_result r n =
      let counted = count_vote r.peer_id n in
      if r.pre_vote
      then (if not (is_pre_candidate n.state) || not (r.election_term == add64 n.current_term 1)
          then n
          else if ltb n.current_term r.term
          then become_follower r.term nobody n
          else if not r.vote_granted
          then n
          else if election_won counted
          then become_candidate disk counted
          else counted)
      else if ltb n.current_term r.term
      then become_follower r.term nobody n
      else if not (is_candidate n.state) || ltb r.term n.current_term
      then n
      else if not r.vote_granted
      then n
      else if election_won counted
      then become_leader disk counted
      else counted

  -- The state in which `handleTimeoutNow` answers.
  unfoldable pub stand_at_once : ℕ → Node → Node
  unfolding become_follower become_candidate
  stand_at_once term n =
      if ltb term n.current_term
      then n
      else let stepped = if ltb n.current_term term then become_follower term nobody n else n in
        if n.cfg.witness then stepped else become_candidate disk stepped

  -- `handleTimeoutNow`, for a request of the term.
  unfoldable pub handle_timeout_now : ℕ → Channel → Node → Node
  unfolding stand_at_once send_gate after_write
  handle_timeout_now term ch n =
      let standing = stand_at_once term n in
      after_write disk (send_gate 0 standing) (Deferred.timeout_now_answer ch standing.current_term)
        standing
