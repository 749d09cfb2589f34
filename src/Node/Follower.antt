-- ===== src/Node/Follower.antt =====
-- node_transitions.go and node_election.go, without what the writes release: stepping down, and what
-- a node resets when it stands or begins to lead.
use raft.Prelude.{
  ℕ, ltb, not, ◌||◌, if◌then◌else◌, Bool, true, false, add64, none, some, List, [], ◌∷◌, NodeId,
  id_eq,
}
use raft.Types.{State, LogEntry, PeerConfig, Error, not_leader, is_follower}
use raft.RaftLog.Defs.{last_log_index}
use raft.Node.State.{Node, VoteRequest, Effect, emit}
use raft.Node.Writes.{save_term, reset_election_timeout}
use raft.Node.Reads.{drain_pending_reads, no_acks}

-- `withSelf` of node_membership.go
unfoldable pub with_self :
    List PeerConfig → NodeId → (present voter witness : Bool) → List PeerConfig
with_self peers self present voter witness =
    if present then record { id = self; voter = voter; witness = witness } ∷ peers else peers

abbrev pub nobody : NodeId
nobody = []

-- The pending proposals, each rejected.
unfoldable pub reject_pending : List (ℕ × ℕ) → Error → Node → Node
unfolding emit
reject_pending [] e n = n
reject_pending ((index, promise) ∷ ps) e n =
    reject_pending ps e (emit (Effect.reject_proposal promise e) n)

-- What `applyFollowerTransition` does when the role or the leader changes.
unfoldable pub cancel_snapshot : Node → Node
unfolding emit
cancel_snapshot n =
    if n.pending_snapshot
    then emit Effect.cancel_snapshot_install (record n { pending_snapshot = false })
    else n

unfoldable pub stop_pumps : Node → Node
unfolding emit
stop_pumps n =
    if n.pumps_running
    then emit Effect.stop_heartbeat_pumps (record n { pumps_running = false })
    else n

-- The fields that `applyFollowerTransition` resets.
unfoldable pub forget_leadership : NodeId → Node → Node
forget_leadership leader n = record n {
  state = State.follower;
  leader_id = leader;
  next_index = λ id. 0;
  match_index = λ id. 0;
  inflight = λ id. 0;
  snapshot_inflight = λ id. false;
  transfer_target = nobody;
  transfer_elapsed = 0;
  pending_config_index = 0;
  cap_entry_pending = 0;
  quorum_entry_pending = 0;
  term_start_index = 0;
  leader_nop_committed = false;
}

-- `applyFollowerTransition`
unfoldable pub apply_follower_transition : NodeId → Node → Node
unfolding forget_leadership reject_pending drain_pending_reads stop_pumps cancel_snapshot
    reset_election_timeout
apply_follower_transition leader n =
    let changed = not (is_follower n.state) || not (id_eq n.leader_id leader) in
    let forgot = forget_leadership leader n in
    let rejected = record (reject_pending n.pending (not_leader leader) forgot) { pending = [] } in
    let drained = record (drain_pending_reads (not_leader leader) rejected) {
      quorum_acks = none;
      leader_quorum_elapsed = 0;
      departing = [];
    } in
    let stopped = stop_pumps drained in
    reset_election_timeout (if changed then cancel_snapshot stopped else stopped)

-- `becomeFollower`
unfoldable pub become_follower : ℕ → NodeId → Node → Node
unfolding save_term apply_follower_transition
become_follower term leader n =
    apply_follower_transition leader
      (if ltb n.current_term term then (save_term term nobody n).1 else n)

-- `broadcastRequestVote` of node_election.go, over the peers that are left.
unfoldable pub ask_votes : List PeerConfig → VoteRequest → Node → Node
unfolding emit
ask_votes [] req n = n
ask_votes (p ∷ ps) req n =
    ask_votes ps req (if p.voter then emit (Effect.send_vote_request p.id req) n else n)

unfoldable pub broadcast_request_vote : Bool → Node → Node
unfolding ask_votes
broadcast_request_vote pre_vote n =
    let term = if pre_vote then add64 n.current_term 1 else n.current_term in
    ask_votes n.cfg.peers
      (record {
        term = term;
        candidate_id = n.cfg.id;
        last_log_index = last_log_index n.log;
        last_log_term = n.log.last_term;
        pre_vote = pre_vote;
      })
      n

unfoldable pub is_peer : NodeId → List PeerConfig → Bool
is_peer id [] = false
is_peer id (p ∷ ps) = id_eq p.id id || is_peer id ps

-- The fields that `becomeLeader` sets.
unfoldable pub take_leadership : Node → Node
unfolding is_peer
take_leadership n =
    let next = add64 (last_log_index n.log) 1 in
    record n {
      state = State.leader;
      leader_id = n.cfg.id;
      heartbeat_elapsed = 0;
      leader_nop_committed = false;
      quorum_acks = some no_acks;
      leader_quorum_elapsed = 0;
      departing = [];
      next_index = λ id. if is_peer id n.cfg.peers then next else 0;
      match_index = λ id. 0;
      inflight = λ id. 0;
      snapshot_inflight = λ id. false;
      peer_down = λ id. false;
      peer_failures = λ id. 0;
      pumps_running = true;
    }

-- The first entry of a leader's term.
unfoldable pub noop_entry : Node → LogEntry
noop_entry n = record {
  index = add64 (last_log_index n.log) 1;
  term = n.current_term;
  command = [];
}

-- What both kinds of candidate reset.
unfoldable pub forget_votes : State → Node → Node
forget_votes role n = record n {
  state = role;
  leader_id = nobody;
  next_index = λ id. 0;
  match_index = λ id. 0;
  received_vote_set = no_acks;
}

-- `becomeCandidate` up to the write that its campaign waits for.
unfoldable pub stand : Node → Node
unfolding forget_votes save_term reset_election_timeout
stand n =
    let saved = save_term (add64 n.current_term 1) n.cfg.id n in
    reset_election_timeout (forget_votes State.candidate saved.1)

-- `becomePreCandidate` up to its requests.
unfoldable pub stand_for_pre_vote : Node → Node
unfolding forget_votes reset_election_timeout
stand_for_pre_vote n = reset_election_timeout (forget_votes State.pre_candidate n)
