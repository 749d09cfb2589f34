-- ===== src/Node/State.antt =====
-- node.go and transport.go: the state that the event loop owns, the requests and answers, and the
-- effects of a turn of the loop, in the order in which the code produces them. An RPC that the code
-- sends from a goroutine is the effect of sending it; its result comes back as a later turn.
-- Metrics, logs, tracing, observers and the atomic mirrors of fields are not modelled.
use raft.Prelude.{ℕ, Bool, ℤ, Option, none, some, List, [], ◌∷◌, ◌++◌, NodeId}
use raft.Types.{State, SnapshotMeta, LogEntry, PeerConfig, Error}
use raft.Quorum.{Policy}
use raft.ConfigEntry.Defs.{MembershipState}
use raft.ClientTable.Defs.{ClientTable, ClientRecord}
use raft.RaftLog.Defs.{RaftLog}

-- `RequestVoteRequest` and `RequestVoteResponse`, less the group's number
pub record VoteRequest : Type 0 where
  pub term : ℕ
  pub candidate_id : NodeId
  pub last_log_index : ℕ
  pub last_log_term : ℕ
  pub pre_vote : Bool

pub record VoteResponse : Type 0 where
  pub term : ℕ
  pub vote_granted : Bool

-- `AppendEntriesRequest` and `AppendEntriesResponse`
pub record AppendRequest : Type 0 where
  pub term : ℕ
  pub leader_id : NodeId
  pub prev_log_index : ℕ
  pub prev_log_term : ℕ
  pub entries : List LogEntry
  pub leader_commit : ℕ
  pub read_barrier : ℕ

pub record AppendResponse : Type 0 where
  pub term : ℕ
  pub success : Bool
  pub conflict_index : ℕ
  pub conflict_term : ℕ

-- A response channel or a promise is a number; `none` is a nil channel.
abbrev pub Channel : Type 0
Channel = Option ℕ

-- What a turn of the loop does outside the node.
pub data Effect : Type 0 where
  answer_vote : ℕ → VoteResponse → Effect
  answer_append : ℕ → AppendResponse → Effect
  answer_timeout_now : ℕ → ℕ → Effect
  answer_error : ℕ → Error → Effect
  send_vote_request : NodeId → VoteRequest → Effect
  send_append : NodeId → AppendRequest → Effect
  queue_heartbeat : NodeId → AppendRequest → Effect
  send_snapshot : NodeId → Effect
  send_timeout_now : NodeId → ℕ → Effect
  resolve_read : ℕ → ℕ → Effect
  reject_read : ℕ → Error → Effect
  reject_proposal : ℕ → Error → Effect
  notify_apply : ℕ → Effect
  cancel_snapshot_install : Effect
  stop_heartbeat_pumps : Effect
  stop_heartbeat_pump : NodeId → Effect
  start_heartbeat_pumps : Effect
  start_heartbeat_pump : NodeId → Effect  -- nothing happens when it runs already
  answer_transfer : ℕ → Option Error → Effect
  resolve_proposal : ℕ → List ℕ → Effect
  on_removed : Effect
  trigger_snapshot :
      (meta : SnapshotMeta) (table : List ClientRecord) (membership : MembershipState) (cap : ℤ)
      (has_cap : Bool)
      → Effect
  release_snapshot_permit : Effect

-- The closures that `afterWrite` is given: what runs when the write lands, and when it fails.
pub data Deferred : Type 0 where
  vote_answer : Channel → VoteResponse → Deferred
  append_answer : Channel → AppendResponse → Deferred
  timeout_now_answer : Channel → ℕ → Deferred
  campaign : (new_term : ℕ) → Deferred  -- the end of `becomeCandidate`
  finalise_failed : (index : ℕ) → Deferred  -- of `appendFinaliseEntry`, for a failure only
  proposals_failed : (indices : List ℕ) → Deferred  -- of `handleProposals`, for a failure only

-- `departure`
pub record Departure : Type 0 where
  pub index : ℕ
  pub elapsed : ℕ

-- `deferredWrite`
pub record DeferredWrite : Type 0 where
  pub seq : ℕ
  pub action : Deferred

-- The settings of `Config` that the modelled code reads. `int_n` is the random generator: the
-- number that the `k`-th call of `IntN(span)` returns.
pub record Config : Type 0 where
  pub id : NodeId
  pub voter : Bool
  pub witness : Bool
  pub peers : List PeerConfig
  pub election_min_ticks : ℕ
  pub election_max_ticks : ℕ
  pub max_inflight_rpcs : ℕ
  pub max_log_entries_per_rpc : ℕ
  pub max_bytes_per_rpc : ℕ
  pub max_unstable_log_bytes : ℤ
  pub zones : NodeId → Option NodeId
  pub min_commit_zones : ℤ
  pub int_n : ℕ → ℕ → ℕ
  pub heartbeat_ticks : ℕ
  pub preferred_leader : NodeId
  pub check_quorum : Bool
  pub max_client_table_size : ℤ
  pub commit_quorum : ℤ
  pub has_on_removed : Bool
  pub snapshot_threshold : ℕ
  pub trailing_logs : ℕ
  pub snapshot_semaphore : Option (ℕ → Bool)  -- whether a permit is free at an applied index

-- `Node`. A nil map reads like an empty one, so only the maps that the code compares with nil are
-- optional. A promise of `pending` stands under the index of its entry.
pub record Node : Type 0 where
  pub cfg : Config
  pub state : State
  pub current_term : ℕ
  pub voted_for : NodeId
  pub leader_id : NodeId
  pub log : RaftLog
  pub commit_index : ℕ
  pub recorded_commit : ℕ
  pub last_applied : ℕ
  pub term_start_index : ℕ
  pub leader_nop_committed : Bool
  pub received_vote_set : NodeId → Bool
  pub next_index : NodeId → ℕ
  pub match_index : NodeId → ℕ
  pub inflight : NodeId → ℕ
  pub snapshot_inflight : NodeId → Bool
  pub quorum_acks : Option (NodeId → Bool)
  pub peer_down : NodeId → Bool
  pub peer_failures : NodeId → ℕ
  pub departing : List (NodeId × Departure)
  pub policy : Policy
  pub commit_quorum_agreed : Bool
  pub client_table : ClientTable
  pub client_table_cap : ℤ
  pub client_table_cap_agreed : Bool
  pub client_table_cap_replicated : Bool
  pub base_membership : MembershipState
  pub base_client_table_cap : ℤ
  pub has_base_client_table_cap : Bool
  pub membership_witness : Bool
  pub removed_notified : Bool
  pub joint_old : Option (List PeerConfig)
  pub joint_new : List PeerConfig
  pub joint_include_self : Bool
  pub joint_self_voter_old : Bool
  pub joint_self_voter : Bool
  pub config_index : ℕ
  pub pending_config_index : ℕ
  pub cap_entry_pending : ℕ
  pub quorum_entry_pending : ℕ
  pub pending : List (ℕ × ℕ)
  pub pending_reads : List ℕ
  pub waiting_reads : List ℕ
  pub read_batch_gen : ℕ
  pub read_batch_acks : Option (NodeId → Bool)
  pub read_batch_index : ℕ
  pub transfer_target : NodeId
  pub transfer_elapsed : ℕ
  pub election_elapsed : ℕ
  pub election_timeout : ℕ
  pub heartbeat_elapsed : ℕ
  pub leader_quorum_elapsed : ℕ
  pub draws : ℕ
  pub pending_snapshot : Bool
  pub snapshotting : Bool
  pub pumps_running : Bool
  pub unsafe_term_seq : ℕ
  pub completed_write_seq : ℕ
  pub deferred_writes : List DeferredWrite
  pub fatal_error : Option Error
  pub effects : List Effect

-- An effect of this turn, behind those before it.
unfoldable pub emit : Effect → Node → Node
emit e n = record n { effects = n.effects ++ e ∷ [] }

-- A reply on a channel; on a nil channel there is none.
unfoldable pub emit_on : Channel → (ℕ → Effect) → Node → Node
unfolding emit
emit_on none e n = n
emit_on (some ch) e n = emit (e ch) n
