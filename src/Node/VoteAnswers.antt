-- ===== src/Node/VoteAnswers.antt =====
-- When `handleRequestVote` answers: a granted vote is answered behind the write that records it.
use raft.Prelude.{
  ℕ, ◌+◌, ◌<◌, ◌≤◌, ltb, not, ◌&&◌, if◌then◌else◌, if-cases, Bool, true, false, [], ◌∷◌, ◌++◌, ◌≡◌,
  refl, ◌∙◌, ap, arith, add64, u64_mod, id_eq,
}
use raft.StorageWriter.Queue.{WriteKind, WriteOp, enqueue}
use raft.RaftLog.Defs.{queue_op, is_up_to_date}
use raft.Node.State.{Node, Channel, Deferred, VoteRequest}
use raft.Node.Writes.{save_term, send_gate, reset_election_timeout}
use raft.Node.Replicate.{Disk}
use raft.Node.Follower.{nobody, forget_leadership, apply_follower_transition}
use raft.Node.Transitions.{after_write}
use raft.Node.StepDown.{held, votes_answered, apply_follower_transition-held}
use raft.Node.HardState.{hard}
use raft.Node.HardTurns.{apply_follower_transition-hard}
use raft.Node.Election.{decide_vote, vote_in_new_term, vote_in_own_term, handle_request_vote}

-- The operation that records a vote.
abbrev pub vote_write : VoteRequest → Node → WriteOp
vote_write req n = record {
  seq = n.log.next_seq + 1;
  kind = WriteKind.hard_state;
  entries = [];
  index = 0;
  hs = record { current_term = req.term; voted_for = req.candidate_id };
  durable_after = n.log.queued_durable;
}

-- What a granted vote leaves behind, before it is answered.
abbrev Recorded : VoteRequest → Node → Node → Type 0
Recorded req n m =
    (m.current_term ≡ req.term)
    × (m.log.w.queue ≡ n.log.w.queue ++ vote_write req n ∷ [])
    × (m.deferred_writes ≡ n.deferred_writes)
    × (m.completed_write_seq ≡ n.completed_write_seq)
    × (m.unsafe_term_seq ≡ n.log.next_seq + 1)
    × (votes_answered m ≡ votes_answered n)

save_term-Recorded :
    (req : VoteRequest) (n : Node)
    → n.log.w.closed ≡ false
    → n.log.next_seq + 1 < u64_mod
    → Recorded req n (save_term req.term req.candidate_id n).1
unfolding save_term queue_op enqueue
save_term-Recorded req n open' h =
    let exact : add64 n.log.next_seq 1 ≡ n.log.next_seq + 1 = omega arith in
    (refl, rw (open', exact) refl, refl, refl, exact, refl)

Recorded-held :
    (req : VoteRequest) (n m m' : Node)
    → hard m' ≡ hard m
    → held m' ≡ held m
    → Recorded req n m
    → Recorded req n m'
Recorded-held req n m m' e f (term, queue, waiting, completed, unsafe, answered) = (
  ap (λ p. p.0) e ∙ term,
  ap (λ p. p.0.w.queue) f ∙ queue,
  ap (λ p. p.1) f ∙ waiting,
  ap (λ p. p.2) f ∙ completed,
  ap (λ p. p.3) f ∙ unsafe,
  ap (λ p. p.4) f ∙ answered,
)

granted-Recorded :
    (req : VoteRequest) (n : Node)
    → n.log.w.closed ≡ false
    → n.log.next_seq + 1 < u64_mod
    → (decide_vote req n).0 ≡ true
    → Recorded req n (decide_vote req n).1
unfolding decide_vote vote_in_new_term vote_in_own_term reset_election_timeout forget_leadership
granted-Recorded req n open' h =
    let up_to_date = is_up_to_date n.log req.last_log_index req.last_log_term in
    let already = not (id_eq n.voted_for nobody) && not (id_eq n.voted_for req.candidate_id) in
    let own = n.cfg.voter && (not already && up_to_date) in
    if-cases Then (ltb n.current_term req.term) _ _
      (λ c g.
        let voted =
          (save_term req.term (if n.cfg.voter && up_to_date then req.candidate_id else nobody)
            n).1 in
        Recorded-held req n (forget_leadership nobody voted)
          (apply_follower_transition nobody voted) (apply_follower_transition-hard nobody voted)
          (apply_follower_transition-held nobody voted) (rw g (save_term-Recorded req n open' h)))
      (λ c.
        if-cases Then (ltb req.term n.current_term) (false, n)
          (
            own,
            (if own then reset_election_timeout (save_term req.term req.candidate_id n).1 else n),
          )
          (λ k g. cc) (λ k g. rw g (save_term-Recorded req n open' h)))
  where
    Then : Bool × Node → Type 0
    Then d = d.0 ≡ true → Recorded req n d.1

-- An action whose write has not landed waits.
after_write-waits :
    (disk : Disk) (seq : ℕ) (action : Deferred) (n : Node)
    → 0 < seq
    → n.completed_write_seq < seq
    → after_write disk seq action n ≡ record n {
      deferred_writes = n.deferred_writes ++ record { seq = seq; action = action } ∷ [];
    }
unfolding after_write
after_write-waits disk seq action n h k = ground arith

send_gate-unsafe : (n : Node) → 0 < n.unsafe_term_seq → send_gate 0 n ≡ n.unsafe_term_seq
unfolding send_gate
send_gate-unsafe n h = ground arith

-- A granted vote is not answered at once: the hard-state write of the term and the vote is queued,
-- and the answer waits for that write, when the writer is open, no write is completed that was not
-- queued, and write numbers fit in 64 bits.
pub handle_request_vote-waits :
    (disk : Disk) (req : VoteRequest) (ch : Channel) (n : Node)
    → req.pre_vote ≡ false
    → (decide_vote req n).0 ≡ true
    → n.log.w.closed ≡ false
    → n.log.next_seq + 1 < u64_mod
    → n.completed_write_seq ≤ n.log.next_seq
    → ((handle_request_vote disk req ch n).log.w.queue ≡ n.log.w.queue ++ vote_write req n ∷ [])
      × ((handle_request_vote disk req ch n).deferred_writes
          ≡ n.deferred_writes
            ++ record {
              seq = n.log.next_seq + 1;
              action = Deferred.vote_answer ch (record { term = req.term; vote_granted = true });
            }
              ∷ [])
      × (votes_answered (handle_request_vote disk req ch n) ≡ votes_answered n)
unfolding handle_request_vote
handle_request_vote-waits disk req ch n real granted open' fits behind =
    let (term, queue, waiting, completed, unsafe, answered) =
      granted-Recorded req n open' fits granted in
    let decided = (decide_vote req n).1 in
    let gate : send_gate 0 decided ≡ n.log.next_seq + 1 =
      send_gate-unsafe decided (omega (arith, unsafe)) ∙ unsafe in
    let answer =
      Deferred.vote_answer ch (record { term = decided.current_term; vote_granted = true }) in
    rw
      (
        real,
        granted,
        gate,
        after_write-waits disk (n.log.next_seq + 1) answer decided (omega arith)
            (omega (arith, completed)),
        waiting,
        term,
      )
      (queue, refl, answered)
