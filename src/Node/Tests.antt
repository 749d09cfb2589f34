-- ===== src/Node/Tests.antt =====
-- A follower of a group of three, and the turns in which it votes.
use raft.Prelude.{
  ◌≡◌, ◌≢◌, refl, true, false, pos, none, some, List, [], ◌∷◌, ◌++◌, NodeId, id_eq, arith,
}
use raft.Types.{State, PeerConfig, ok}
use raft.StorageWriter.Queue.{StorageWriter}
use raft.RaftLog.Defs.{RaftLog, is_up_to_date, last_log_index, queue_op}
use raft.Node.State.{Node, Config, Deferred, VoteRequest}
use raft.Node.Replicate.{Disk}
use raft.Node.Reads.{no_acks, drain_pending_reads, reject_reads}
use raft.Node.State.{emit, emit_on}
use raft.Node.Writes.{save_term, reset_election_timeout}
use raft.Node.Follower.{
  apply_follower_transition, forget_leadership, reject_pending, stop_pumps, cancel_snapshot,
}
use raft.Node.Election.{
  decide_vote, vote_in_new_term, vote_in_own_term, handle_request_vote, pre_vote_granted,
  heard_from_leader,
}
use raft.Node.HardState.{hard}
use raft.Node.Votes.{Kept}
use raft.Node.Turns.{Turn, turn, turns, Rooms, turns-Kept, turns-one_vote}
use raft.Node.StepDown.{votes_answered}
use raft.Node.VoteAnswers.{vote_write, handle_request_vote-waits}

abbrev pub node_a : NodeId
node_a = 97 ∷ []

abbrev pub node_b : NodeId
node_b = 98 ∷ []

abbrev pub voter : NodeId → PeerConfig
voter id = record { id = id; voter = true; witness = false }

abbrev pub config : Config
config = record {
  id = node_a;
  voter = true;
  witness = false;
  peers = voter node_b ∷ voter (99 ∷ []) ∷ [];
  election_min_ticks = 10;
  election_max_ticks = 20;
  max_inflight_rpcs = 4;
  max_log_entries_per_rpc = 64;
  max_bytes_per_rpc = 1000;
  max_unstable_log_bytes = pos 1000;
  zones = λ id. none;
  min_commit_zones = pos 0;
  int_n = λ k span. 3;
  heartbeat_ticks = 2;
  preferred_leader = [];
  check_quorum = true;
  max_client_table_size = pos 100;
  commit_quorum = pos 0;
  has_on_removed = true;
  snapshot_threshold = 100;
  trailing_logs = 10;
  snapshot_semaphore = none;
}

abbrev pub writer : StorageWriter
writer = record {
  batches = true;
  records_commits = true;
  max_batch_entries = 64;
  queue = [];
  done = [];
  failed = none;
  closed = false;
}

abbrev pub log : RaftLog
log = record {
  w = writer;
  snap_meta = record { last_included_index = 4; last_included_term = 2 };
  first = 0;
  last = 0;
  last_term = 2;
  segs = [];
  unstable_bytes = 0;
  runs = [];
  durable = 4;
  queued_durable = 4;
  next_seq = 9;
}

abbrev pub follower : Node
follower = record {
  cfg = config;
  state = State.follower;
  current_term = 2;
  voted_for = [];
  leader_id = [];
  log = log;
  commit_index = 4;
  recorded_commit = 4;
  last_applied = 4;
  term_start_index = 0;
  leader_nop_committed = false;
  received_vote_set = no_acks;
  next_index = λ id. 0;
  match_index = λ id. 0;
  inflight = λ id. 0;
  snapshot_inflight = λ id. false;
  quorum_acks = none;
  peer_down = λ id. false;
  peer_failures = λ id. 0;
  departing = [];
  policy = record { applied = pos 0; latest = pos 0 };
  commit_quorum_agreed = false;
  client_table = record { items = []; cap = 100 };
  client_table_cap = pos 100;
  client_table_cap_agreed = false;
  client_table_cap_replicated = false;
  base_membership = record {
    joint = false;
    members = voter node_a ∷ voter node_b ∷ voter (99 ∷ []) ∷ [];
    old = [];
    new = [];
    commit_quorum = pos 0;
  };
  base_client_table_cap = pos 0;
  has_base_client_table_cap = false;
  membership_witness = false;
  removed_notified = false;
  joint_old = none;
  joint_new = [];
  joint_include_self = false;
  joint_self_voter_old = false;
  joint_self_voter = false;
  config_index = 0;
  pending_config_index = 0;
  cap_entry_pending = 0;
  quorum_entry_pending = 0;
  pending = [];
  pending_reads = [];
  waiting_reads = [];
  read_batch_gen = 0;
  read_batch_acks = none;
  read_batch_index = 0;
  transfer_target = [];
  transfer_elapsed = 0;
  election_elapsed = 0;
  election_timeout = 15;
  heartbeat_elapsed = 0;
  leader_quorum_elapsed = 0;
  draws = 0;
  pending_snapshot = false;
  snapshotting = false;
  pumps_running = false;
  unsafe_term_seq = 0;
  completed_write_seq = 9;
  deferred_writes = [];
  fatal_error = none;
  effects = [];
}

abbrev pub disk : Disk
disk = record { get_log_entries = λ lo hi. ok []; snapshot_loads = λ id. false }

-- A candidate asks for a vote in term 3, and later asks again.
abbrev asked : VoteRequest
asked = record {
  term = 3;
  candidate_id = node_b;
  last_log_index = 5;
  last_log_term = 2;
  pre_vote = false;
}

abbrev again : List Turn
again = Turn.vote_asked (record asked { pre_vote = true }) none ∷ []

named : node_b ≢ []
named e = ground (arith, e)

granted : (decide_vote asked follower).0 ≡ true
unfolding decide_vote vote_in_new_term is_up_to_date last_log_index
granted = refl

voted_term : (decide_vote asked follower).1.current_term ≡ 3
unfolding decide_vote vote_in_new_term is_up_to_date last_log_index save_term queue_op
    apply_follower_transition forget_leadership reject_pending drain_pending_reads reject_reads
    stop_pumps cancel_snapshot reset_election_timeout id_eq
voted_term = refl

again-Rooms : Rooms disk again (decide_vote asked follower).1
again-Rooms = (omega (arith, voted_term), tt)

abbrev asked_again : VoteRequest
asked_again = record asked { last_log_index = 6 }

granted_again : (decide_vote asked_again (turns disk again (decide_vote asked follower).1)).0 ≡ true
unfolding decide_vote vote_in_new_term vote_in_own_term is_up_to_date last_log_index save_term
    queue_op apply_follower_transition forget_leadership reject_pending drain_pending_reads
    reject_reads stop_pumps cancel_snapshot reset_election_timeout id_eq turns turn
    handle_request_vote pre_vote_granted emit_on heard_from_leader emit
granted_again = refl

turns-Kept_example :
    Kept
      (hard (decide_vote asked follower).1)
      (hard (turns disk again (decide_vote asked follower).1))
turns-Kept_example = turns-Kept disk again (decide_vote asked follower).1 again-Rooms

turns-one_vote_example : asked_again.candidate_id ≡ asked.candidate_id
turns-one_vote_example =
    turns-one_vote disk asked asked_again again follower again-Rooms named granted granted_again
      refl

handle_request_vote-waits_example :
    ((handle_request_vote disk asked (some 1) follower).log.w.queue
      ≡ [] ++ vote_write asked follower ∷ [])
    × ((handle_request_vote disk asked (some 1) follower).deferred_writes
        ≡ follower.deferred_writes
          ++ record {
            seq = 10;
            action = Deferred.vote_answer (some 1) (record { term = 3; vote_granted = true });
          }
            ∷ [])
    × (votes_answered (handle_request_vote disk asked (some 1) follower) ≡ votes_answered follower)
handle_request_vote-waits_example =
    handle_request_vote-waits disk asked (some 1) follower refl granted refl (omega arith)
      (omega arith)
