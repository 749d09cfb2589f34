-- ===== src/Node/HardTurns.antt =====
-- The changes of role and the deferred actions: they keep the term and the vote, too. The term is raised
-- by `becomeFollower` and `becomeCandidate` alone, and a vote is given there and in `handleRequestVote`.
use raft.Prelude.{
  ℕ, leb, not, ◌||◌, if◌then◌else◌, if-cases, Bool, false, Option, none, some, List, [], ◌∷◌,
  NodeId, ◌≡◌, refl, ◌∙◌, arith, id_eq,
}
use raft.Types.{Error, PeerConfig, is_follower, not_leader}
use raft.Node.State.{Node, Effect, Deferred, VoteRequest, emit}
use raft.Node.Reads.{drain_pending_reads}
use raft.Node.Commit.{maybe_advance_commit}
use raft.Node.Replicate.{Disk, replicate_to_followers, broadcast_heartbeat}
use raft.Node.Follower.{
  reject_pending, cancel_snapshot, stop_pumps, forget_leadership, apply_follower_transition,
  ask_votes, broadcast_request_vote, take_leadership,
}
use raft.Node.Transitions.{
  fail_proposal, fail_proposals, after_write_failing, queue_finalise, append_finalise_entry,
  start_term, become_leader, run_deferred, fail_deferred, after_write,
}
use raft.Node.HardState.{
  hard, emit_on-hard, reset_election_timeout-hard, drain_pending_reads-hard,
  maybe_advance_commit-hard, replicate_to_followers-hard, broadcast_heartbeat-hard,
}

reject_pending-hard :
    (ps : List (ℕ × ℕ)) (e : Error) (n : Node) → hard (reject_pending ps e n) ≡ hard n
unfolding reject_pending emit
reject_pending-hard [] e n = refl
reject_pending-hard ((index, promise) ∷ ps) e n =
    reject_pending-hard ps e (emit (Effect.reject_proposal promise e) n)

cancel_snapshot-hard : (n : Node) → hard (cancel_snapshot n) ≡ hard n
unfolding cancel_snapshot emit
cancel_snapshot-hard n = ground arith

stop_pumps-hard : (n : Node) → hard (stop_pumps n) ≡ hard n
unfolding stop_pumps emit
stop_pumps-hard n = ground arith

-- Stepping down in the same term keeps the vote.
pub apply_follower_transition-hard :
    (leader : NodeId) (n : Node) → hard (apply_follower_transition leader n) ≡ hard n
unfolding apply_follower_transition forget_leadership
apply_follower_transition-hard leader n =
    let forgot = forget_leadership leader n in
    let rejected = record (reject_pending n.pending (not_leader leader) forgot) { pending = [] } in
    let drained = record (drain_pending_reads (not_leader leader) rejected) {
      quorum_acks = none;
      leader_quorum_elapsed = 0;
      departing = [];
    } in
    let changed = not (is_follower n.state) || not (id_eq n.leader_id leader) in
    let stopped = stop_pumps drained in
    reset_election_timeout-hard (if changed then cancel_snapshot stopped else stopped)
    ∙ if-cases (λ m. hard m ≡ hard stopped) changed (cancel_snapshot stopped) stopped
        (λ h. cancel_snapshot-hard stopped) (λ h. refl)
    ∙ stop_pumps-hard drained
    ∙ drain_pending_reads-hard (not_leader leader) rejected
    ∙ reject_pending-hard n.pending (not_leader leader) forgot

ask_votes-hard :
    (ps : List PeerConfig) (req : VoteRequest) (n : Node) → hard (ask_votes ps req n) ≡ hard n
unfolding ask_votes emit
ask_votes-hard [] req n = refl
ask_votes-hard (p ∷ ps) req n =
    ask_votes-hard ps req (if p.voter then emit (Effect.send_vote_request p.id req) n else n)
    ∙ if-cases (λ m. hard m ≡ hard n) p.voter (emit (Effect.send_vote_request p.id req) n) n
        (λ h. refl) (λ h. refl)

pub broadcast_request_vote-hard :
    (pre : Bool) (n : Node) → hard (broadcast_request_vote pre n) ≡ hard n
unfolding broadcast_request_vote
broadcast_request_vote-hard pre n = ask_votes-hard n.cfg.peers _ n

fail_proposals-hard :
    (indices : List ℕ) (e : Error) (n : Node) → hard (fail_proposals indices e n) ≡ hard n
unfolding fail_proposals fail_proposal emit
fail_proposals-hard [] e n = refl
fail_proposals-hard (idx ∷ rest) e n =
    fail_proposals-hard rest e (fail_proposal idx e n) ∙ ground arith

module _ (disk : Disk) where
  after_write_failing-hard :
      (seq : ℕ) (action : Deferred) (n : Node)
      → hard (after_write_failing disk seq action n) ≡ hard n
  unfolding after_write_failing
  after_write_failing-hard seq action n = ground arith

  queue_finalise-hard :
      (ps : List PeerConfig) (include_self self_voter : Bool) (n : Node)
      → hard (queue_finalise disk ps include_self self_voter n) ≡ hard n
  unfolding queue_finalise after_write_failing
  queue_finalise-hard ps include_self self_voter n = ground arith

  append_finalise_entry-hard :
      (ps : List PeerConfig) (include_self self_voter : Bool) (n : Node)
      → hard (append_finalise_entry disk ps include_self self_voter n) ≡ hard n
  unfolding append_finalise_entry
  append_finalise_entry-hard ps include_self self_voter n =
      let queued = queue_finalise disk ps include_self self_voter n in
      maybe_advance_commit-hard (replicate_to_followers disk queued)
      ∙ replicate_to_followers-hard disk queued
      ∙ queue_finalise-hard ps include_self self_voter n

  start_term-hard : (n : Node) → hard (start_term disk n) ≡ hard n
  unfolding start_term take_leadership emit
  start_term-hard n = refl

  -- Winning changes neither the term nor the vote.
  pub become_leader-hard : (n : Node) → hard (become_leader disk n) ≡ hard n
  unfolding become_leader
  become_leader-hard n = go advanced.joint_old ∙ before
    where
      advanced : Node
      advanced = maybe_advance_commit (broadcast_heartbeat (start_term disk n))

      before : hard advanced ≡ hard n
      before =
          maybe_advance_commit-hard (broadcast_heartbeat (start_term disk n))
          ∙ broadcast_heartbeat-hard (start_term disk n)
          ∙ start_term-hard n

      go :
          (o : Option (List PeerConfig))
          → hard (elim o [
            | none ↦ advanced
            | some old ↦
                if leb advanced.config_index advanced.commit_index
                then append_finalise_entry disk advanced.joint_new advanced.joint_include_self
                    advanced.joint_self_voter advanced
                else advanced
          ])
            ≡ hard advanced
      go none = refl
      go (some old) =
          if-cases (λ m. hard m ≡ hard advanced) (leb advanced.config_index advanced.commit_index) _
            _
            (λ h.
              append_finalise_entry-hard advanced.joint_new advanced.joint_include_self
                advanced.joint_self_voter advanced)
            (λ h. refl)

  -- What a landed write releases, and what a failed one does, keep both.
  pub run_deferred-hard : (d : Deferred) (n : Node) → hard (run_deferred disk d n) ≡ hard n
  unfolding run_deferred
  run_deferred-hard (Deferred.vote_answer ch resp) n =
      emit_on-hard ch (λ c. Effect.answer_vote c resp) n
  run_deferred-hard (Deferred.append_answer ch resp) n =
      emit_on-hard ch (λ c. Effect.answer_append c resp) n
  run_deferred-hard (Deferred.timeout_now_answer ch term) n =
      emit_on-hard ch (λ c. Effect.answer_timeout_now c term) n
  run_deferred-hard (Deferred.campaign new_term) n =
      ground (arith, become_leader-hard n, broadcast_request_vote-hard false n)
  run_deferred-hard (Deferred.finalise_failed index) n = refl
  run_deferred-hard (Deferred.proposals_failed indices) n = refl

  pub fail_deferred-hard :
      (d : Deferred) (e : Error) (n : Node) → hard (fail_deferred disk d e n) ≡ hard n
  unfolding fail_deferred
  fail_deferred-hard (Deferred.vote_answer ch resp) e n =
      emit_on-hard ch (λ c. Effect.answer_error c e) n
  fail_deferred-hard (Deferred.append_answer ch resp) e n =
      emit_on-hard ch (λ c. Effect.answer_error c e) n
  fail_deferred-hard (Deferred.timeout_now_answer ch term) e n =
      emit_on-hard ch (λ c. Effect.answer_error c e) n
  fail_deferred-hard (Deferred.campaign new_term) e n = refl
  fail_deferred-hard (Deferred.finalise_failed index) e n = ground arith
  fail_deferred-hard (Deferred.proposals_failed indices) e n = fail_proposals-hard indices e n

  pub after_write-hard :
      (seq : ℕ) (d : Deferred) (n : Node) → hard (after_write disk seq d n) ≡ hard n
  unfolding after_write
  after_write-hard seq d n = ground (arith, run_deferred-hard d n)
