-- ===== src/Node/StepDown.antt =====
-- What stepping down leaves alone: the helpers of node_transitions.go that reject, cancel and stop.
use raft.Prelude.{
  ℕ, not, ◌||◌, if-cases, Bool, true, false, none, List, [], ◌∷◌, ◌++◌, NodeId, ◌≡◌, refl, ◌∙◌,
  arith, id_eq, count,
}
use raft.Types.{State, Error, is_follower, not_leader}
use raft.RaftLog.Defs.{RaftLog}
use raft.Node.State.{Node, Config, Effect, DeferredWrite, emit}
use raft.Node.Writes.{reset_election_timeout}
use raft.Node.Reads.{reject_reads, drain_pending_reads}
use raft.Node.Follower.{
  reject_pending, cancel_snapshot, stop_pumps, forget_leadership, apply_follower_transition,
}

abbrev pub is_vote_answer : Effect → Bool
is_vote_answer (Effect.answer_vote ch resp) = true
is_vote_answer _ = false

abbrev pub is_append_answer : Effect → Bool
is_append_answer (Effect.answer_append ch resp) = true
is_append_answer _ = false

abbrev pub votes_answered : Node → ℕ
votes_answered n = count is_vote_answer n.effects

abbrev pub appends_answered : Node → ℕ
appends_answered n = count is_append_answer n.effects

-- What stepping down leaves alone, once the leader's bookkeeping is reset: the log and its queue,
-- what waits for writes, how far the writes have come, the votes and appends answered, and more.
abbrev pub held : Node → RaftLog × List DeferredWrite × ℕ × ℕ × ℕ × ℕ × ℕ × Config × State
held n = (
  n.log,
  n.deferred_writes,
  n.completed_write_seq,
  n.unsafe_term_seq,
  votes_answered n,
  appends_answered n,
  n.commit_index,
  n.cfg,
  n.state,
)

count-snoc :
    (p : Effect → Bool) (es : List Effect) (e : Effect)
    → p e ≡ false
    → count p (es ++ e ∷ []) ≡ count p es
count-snoc p [] e h = rw h refl
count-snoc p (x ∷ es) e h = ground (arith, count-snoc p es e h)

emit-held :
    (e : Effect) (n : Node)
    → is_vote_answer e ≡ false
    → is_append_answer e ≡ false
    → held (emit e n) ≡ held n
unfolding emit
emit-held e n h k =
    rw (count-snoc is_vote_answer n.effects e h, count-snoc is_append_answer n.effects e k) refl

reject_pending-held :
    (ps : List (ℕ × ℕ)) (e : Error) (n : Node) → held (reject_pending ps e n) ≡ held n
unfolding reject_pending
reject_pending-held [] e n = refl
reject_pending-held ((index, promise) ∷ ps) e n =
    reject_pending-held ps e (emit (Effect.reject_proposal promise e) n)
    ∙ emit-held (Effect.reject_proposal promise e) n refl refl

reject_reads-held : (rs : List ℕ) (e : Error) (n : Node) → held (reject_reads rs e n) ≡ held n
unfolding reject_reads
reject_reads-held [] e n = refl
reject_reads-held (r ∷ rs) e n =
    reject_reads-held rs e (emit (Effect.reject_read r e) n)
    ∙ emit-held (Effect.reject_read r e) n refl refl

drain_pending_reads-held : (e : Error) (n : Node) → held (drain_pending_reads e n) ≡ held n
unfolding drain_pending_reads
drain_pending_reads-held e n =
    reject_reads-held n.waiting_reads e (reject_reads n.pending_reads e n)
    ∙ reject_reads-held n.pending_reads e n

cancel_snapshot-held : (n : Node) → held (cancel_snapshot n) ≡ held n
unfolding cancel_snapshot
cancel_snapshot-held n =
    if-cases (λ m. held m ≡ held n) n.pending_snapshot _ n
      (λ h.
        emit-held Effect.cancel_snapshot_install (record n { pending_snapshot = false }) refl refl)
      (λ h. refl)

stop_pumps-held : (n : Node) → held (stop_pumps n) ≡ held n
unfolding stop_pumps
stop_pumps-held n =
    if-cases (λ m. held m ≡ held n) n.pumps_running _ n
      (λ h. emit-held Effect.stop_heartbeat_pumps (record n { pumps_running = false }) refl refl)
      (λ h. refl)

pub apply_follower_transition-held :
    (leader : NodeId) (n : Node)
    → held (apply_follower_transition leader n) ≡ held (forget_leadership leader n)
unfolding apply_follower_transition forget_leadership reset_election_timeout
apply_follower_transition-held leader n =
    let forgot = forget_leadership leader n in
    let rejected = record (reject_pending n.pending (not_leader leader) forgot) { pending = [] } in
    let drained = record (drain_pending_reads (not_leader leader) rejected) {
      quorum_acks = none;
      leader_quorum_elapsed = 0;
      departing = [];
    } in
    let stopped = stop_pumps drained in
    if-cases (λ m. held m ≡ held stopped)
      (not (is_follower n.state) || not (id_eq n.leader_id leader)) (cancel_snapshot stopped)
      stopped (λ h. cancel_snapshot-held stopped) (λ h. refl)
    ∙ stop_pumps-held drained
    ∙ drain_pending_reads-held (not_leader leader) rejected
    ∙ reject_pending-held n.pending (not_leader leader) forgot
