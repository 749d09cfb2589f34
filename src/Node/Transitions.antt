-- ===== src/Node/Transitions.antt =====
-- node_transitions.go: candidates and leaders, and the actions of node.go that wait for a write.
use raft.Prelude.{
  ℕ, leb, ◌==◌, not, ◌||◌, if◌then◌else◌, Bool, true, false, add64, Option, none, some, List, [],
  ◌∷◌, ◌++◌,
}
use raft.Types.{PeerConfig, Error, append_failed, is_candidate}
use raft.ConfigEntry.Defs.{encode_finalise_config_entry}
use raft.RaftLog.Defs.{last_log_index, append_one}
use raft.Node.State.{Node, Effect, Deferred, emit, emit_on}
use raft.Node.Writes.{save_term, with_log}
use raft.Node.Reads.{is_single_voter}
use raft.Node.Commit.{maybe_advance_commit}
use raft.Node.Replicate.{Disk, replicate_to_followers, broadcast_heartbeat}
use raft.Node.Follower.{
  broadcast_request_vote, noop_entry, stand, stand_for_pre_vote, take_leadership, with_self,
}

-- A promise that stands under an index, and the promises without those of the index.
unfoldable pub pending_at : ℕ → List (ℕ × ℕ) → Option ℕ
pending_at idx [] = none
pending_at idx ((i, promise) ∷ ps) = if i == idx then some promise else pending_at idx ps

unfoldable pub without_pending : ℕ → List (ℕ × ℕ) → List (ℕ × ℕ)
without_pending idx [] = []
without_pending idx ((i, promise) ∷ ps) =
    let rest = without_pending idx ps in if i == idx then rest else (i, promise) ∷ rest

-- The index of a pending entry, reset where it is the one given.
abbrev cleared : ℕ → ℕ → ℕ
cleared idx i = if i == idx then 0 else i

-- The proposals of a write that failed: the body of the loop of `handleProposals`' closure.
unfoldable pub fail_proposal : ℕ → Error → Node → Node
unfolding pending_at without_pending emit
fail_proposal idx e n =
    let rejected : Node = elim (pending_at idx n.pending) [
      | none ↦ n
      | some promise ↦ record (emit (Effect.reject_proposal promise (append_failed e)) n) {
        pending = without_pending idx n.pending;
      }
    ] in
    record rejected {
      pending_config_index = cleared idx rejected.pending_config_index;
      cap_entry_pending = cleared idx rejected.cap_entry_pending;
      quorum_entry_pending = cleared idx rejected.quorum_entry_pending;
    }

unfoldable pub fail_proposals : List ℕ → Error → Node → Node
unfolding fail_proposal
fail_proposals [] e n = n
fail_proposals (idx ∷ rest) e n = fail_proposals rest e (fail_proposal idx e n)

module _ (disk : Disk) where
  -- `afterWrite` for an action that has nothing to do when the write lands.
  unfoldable pub after_write_failing : ℕ → Deferred → Node → Node
  after_write_failing seq action n =
      if seq == 0 || leb seq n.completed_write_seq then n else record n {
        deferred_writes = n.deferred_writes ++ record { seq = seq; action = action } ∷ [];
      }

  -- `appendFinaliseEntry` up to the replication of the entry.
  unfoldable pub queue_finalise : List PeerConfig → (include_self self_voter : Bool) → Node → Node
  unfolding with_self after_write_failing append_one
  queue_finalise new_peers include_self self_voter n =
      let all_new = with_self new_peers n.cfg.id include_self self_voter n.cfg.witness in
      let idx = add64 (last_log_index n.log) 1 in
      let appended = append_one n.log (record {
        index = idx;
        term = n.current_term;
        command = encode_finalise_config_entry all_new;
      }) in
      after_write_failing appended.0 (Deferred.finalise_failed idx)
        (record (with_log appended n) { pending_config_index = idx })

  -- `appendFinaliseEntry`
  unfoldable pub append_finalise_entry :
      List PeerConfig → (include_self self_voter : Bool) → Node → Node
  unfolding queue_finalise replicate_to_followers
  append_finalise_entry new_peers include_self self_voter n =
      maybe_advance_commit
        (replicate_to_followers disk (queue_finalise new_peers include_self self_voter n))

  -- `becomeLeader` up to its first heartbeat.
  unfoldable pub start_term : Node → Node
  unfolding take_leadership noop_entry append_one emit
  start_term n =
      let leading = emit Effect.start_heartbeat_pumps (take_leadership n) in
      let noop = noop_entry leading in
      record (with_log (append_one leading.log noop) leading) { term_start_index = noop.index }

  -- `becomeLeader`
  unfoldable pub become_leader : Node → Node
  unfolding start_term append_finalise_entry
  become_leader n =
      let advanced = maybe_advance_commit (broadcast_heartbeat (start_term n)) in
      elim advanced.joint_old [
        | none ↦ advanced
        | some old ↦
            if leb advanced.config_index advanced.commit_index
            then append_finalise_entry advanced.joint_new advanced.joint_include_self
                advanced.joint_self_voter advanced
            else advanced
      ]

  -- What a deferred action does when its write has landed.
  unfoldable pub run_deferred : Deferred → Node → Node
  unfolding emit_on become_leader
  run_deferred (Deferred.vote_answer ch resp) n = emit_on ch (λ c. Effect.answer_vote c resp) n
  run_deferred (Deferred.append_answer ch resp) n = emit_on ch (λ c. Effect.answer_append c resp) n
  run_deferred (Deferred.timeout_now_answer ch term) n =
      emit_on ch (λ c. Effect.answer_timeout_now c term) n
  run_deferred (Deferred.campaign new_term) n =
      if not (is_candidate n.state) || not (n.current_term == new_term)
      then n
      else if is_single_voter n
      then become_leader n
      else broadcast_request_vote false n
  run_deferred (Deferred.finalise_failed index) n = n
  run_deferred (Deferred.proposals_failed indices) n = n

  -- And what it does when the write failed.
  unfoldable pub fail_deferred : Deferred → Error → Node → Node
  unfolding emit_on fail_proposals
  fail_deferred (Deferred.vote_answer ch resp) e n = emit_on ch (λ c. Effect.answer_error c e) n
  fail_deferred (Deferred.append_answer ch resp) e n = emit_on ch (λ c. Effect.answer_error c e) n
  fail_deferred (Deferred.timeout_now_answer ch term) e n =
      emit_on ch (λ c. Effect.answer_error c e) n
  fail_deferred (Deferred.campaign new_term) e n = n
  fail_deferred (Deferred.finalise_failed index) e n =
      if n.pending_config_index == index then record n { pending_config_index = 0 } else n
  fail_deferred (Deferred.proposals_failed indices) e n = fail_proposals indices e n

  -- `afterWrite`
  unfoldable pub after_write : ℕ → Deferred → Node → Node
  unfolding run_deferred
  after_write seq action n =
      if seq == 0 || leb seq n.completed_write_seq then run_deferred action n else record n {
        deferred_writes = n.deferred_writes ++ record { seq = seq; action = action } ∷ [];
      }

  -- `becomeCandidate`
  unfoldable pub become_candidate : Node → Node
  unfolding stand after_write
  become_candidate n =
      let new_term = add64 n.current_term 1 in
      after_write (save_term new_term n.cfg.id n).0 (Deferred.campaign new_term) (stand n)

  -- `becomePreCandidate`
  unfoldable pub become_pre_candidate : Node → Node
  unfolding stand_for_pre_vote become_candidate broadcast_request_vote
  become_pre_candidate n =
      if is_single_voter n
      then become_candidate (stand_for_pre_vote n)
      else broadcast_request_vote true (stand_for_pre_vote n)
