-- ===== src/Node/Votes.antt =====
-- The promise behind a vote: what each handler of node_election.go and node_transfer.go does to the
-- term and the vote.
use raft.Prelude.{
  ℕ, ◌+◌, ◌<◌, ◌≤◌, ltb, ◌==◌, not, ◌&&◌, ◌||◌, if◌then◌else◌, if-cases, ltb→lt, Bool, true, false,
  NodeId, ◌≡◌, refl, ◌∙◌, sym, ap, subst, ◌⊎◌, inl, inr, arith, add64, u64_mod, id_eq_iff,
}
use raft.Types.{is_candidate, is_pre_candidate}
use raft.RaftLog.Defs.{is_up_to_date}
use raft.Node.State.{Node, Channel, Deferred, VoteRequest}
use raft.Node.Writes.{save_term, send_gate, reset_election_timeout}
use raft.Node.Reads.{is_single_voter}
use raft.Node.Replicate.{Disk}
use raft.Node.Follower.{
  nobody, apply_follower_transition, forget_votes, stand, stand_for_pre_vote, become_follower,
}
use raft.Node.Transitions.{become_leader, become_candidate, become_pre_candidate}
use raft.Node.Election.{
  decide_vote, vote_in_new_term, vote_in_own_term, handle_request_vote, VoteResult, count_vote,
  handle_vote_result, stand_at_once, handle_timeout_now, election_won,
}
use raft.Node.HardState.{hard, emit_on-hard}
use raft.Node.HardTurns.{
  apply_follower_transition-hard, broadcast_request_vote-hard, become_leader-hard, after_write-hard,
}

-- From one hard state to a later one, the term does not fall, and while it stays the vote stays,
-- unless none was given before.
abbrev pub Kept : ℕ × NodeId → ℕ × NodeId → Type 0
Kept (t, v) (t', v') = (t < t') ⊎ ((t ≡ t') × ((v' ≡ v) ⊎ (v ≡ nobody)))

pub Kept-refl : (a : ℕ × NodeId) → Kept a a
Kept-refl (t, v) = inr (refl, inl refl)

pub Kept-trans : (a b c : ℕ × NodeId) → Kept a b → Kept b c → Kept a c
Kept-trans (t, v) (t', v') (t'', v'') h k = ground (arith, h, k)

pub Kept-same : (a b : ℕ × NodeId) → b ≡ a → Kept a b
Kept-same a b e = subst (Kept a) (sym e) (Kept-refl a)

pub become_follower-Kept :
    (term : ℕ) (leader : NodeId) (n : Node) → Kept (hard n) (hard (become_follower term leader n))
unfolding become_follower save_term
become_follower-Kept term leader n =
    if-cases (λ m. Kept (hard n) (hard (apply_follower_transition leader m)))
      (ltb n.current_term term) _ _
      (λ h.
        subst (Kept (hard n))
          (sym (apply_follower_transition-hard leader (save_term term nobody n).1))
          (inl (ltb→lt n.current_term term h)))
      (λ h. Kept-same (hard n) _ (apply_follower_transition-hard leader n))

-- The term of a follower that stepped down is no less than the one that it was told.
become_follower-term :
    (term : ℕ) (leader : NodeId) (n : Node)
    → (become_follower term leader n).current_term ≤ n.current_term
      ⊎ ((become_follower term leader n).current_term ≡ term)
unfolding become_follower save_term
become_follower-term term leader n =
    if-cases
      (λ m.
        ((apply_follower_transition leader m).current_term ≤ n.current_term)
        ⊎ ((apply_follower_transition leader m).current_term ≡ term))
      (ltb n.current_term term) _ _
      (λ h. inr (ap (λ p. p.0) (apply_follower_transition-hard leader (save_term term nobody n).1)))
      (λ h. inl (omega (arith, ap (λ p. p.0) (apply_follower_transition-hard leader n))))

vote_in_new_term-hard :
    (req : VoteRequest) (n : Node)
    → hard (vote_in_new_term req n).1
      ≡ (req.term, (if (vote_in_new_term req n).0 then req.candidate_id else nobody))
unfolding vote_in_new_term save_term
vote_in_new_term-hard req n =
    let granted = n.cfg.voter && is_up_to_date n.log req.last_log_index req.last_log_term in
    apply_follower_transition-hard nobody
      (save_term req.term (if granted then req.candidate_id else nobody) n).1

-- Where the request is in the node's own term, the vote that it decides on is kept, and it is given
-- only where none was, or again to the same candidate.
vote_in_own_term-hard :
    (req : VoteRequest) (n : Node)
    → n.current_term ≡ req.term
    → Kept (hard n) (hard (vote_in_own_term req n).1)
      × ((vote_in_own_term req n).0 ≡ true
          → hard (vote_in_own_term req n).1 ≡ (req.term, req.candidate_id))
unfolding vote_in_own_term save_term reset_election_timeout
vote_in_own_term-hard req n e = (
  ground (arith, e, id_eq_iff n.voted_for nobody, id_eq_iff n.voted_for req.candidate_id),
  λ h. ground (arith, h),
)

-- The decision keeps the vote that was given, and a granted vote is the node's vote in that term.
pub decide_vote-hard :
    (req : VoteRequest) (n : Node)
    → Kept (hard n) (hard (decide_vote req n).1)
      × ((decide_vote req n).0 ≡ true → hard (decide_vote req n).1 ≡ (req.term, req.candidate_id))
unfolding decide_vote
decide_vote-hard req n =
    if-cases Decided (ltb n.current_term req.term) _ _
      (λ h. (
        subst (Kept (hard n)) (sym (vote_in_new_term-hard req n))
            (inl (ltb→lt n.current_term req.term h)),
        λ g. vote_in_new_term-hard req n ∙ granted g,
      ))
      (λ h.
        if-cases Decided (ltb req.term n.current_term) (false, n) (vote_in_own_term req n)
          (λ k. (Kept-refl (hard n), λ g. cc)) (λ k. vote_in_own_term-hard req n (ground arith)))
  where
    Decided : Bool × Node → Type 0
    Decided d = Kept (hard n) (hard d.1) × (d.0 ≡ true → hard d.1 ≡ (req.term, req.candidate_id))

    granted :
        (vote_in_new_term req n).0 ≡ true
        → ◌≡◌ {A = ℕ × NodeId}
            (req.term, (if (vote_in_new_term req n).0 then req.candidate_id else nobody))
            (req.term, req.candidate_id)
    granted g = rw g refl

stand-hard : (n : Node) → hard (stand n) ≡ (add64 n.current_term 1, n.cfg.id)
unfolding stand forget_votes save_term reset_election_timeout
stand-hard n = refl

module _ (disk : Disk) where
  pub become_candidate-Kept :
      (n : Node) → n.current_term + 1 < u64_mod → Kept (hard n) (hard (become_candidate disk n))
  unfolding become_candidate
  become_candidate-Kept n h =
      let new_term = add64 n.current_term 1 in
      subst (Kept (hard n))
        (sym (
          after_write-hard disk (save_term new_term n.cfg.id n).0 (Deferred.campaign new_term)
            (stand n)
          ∙ stand-hard n))
        (inl (omega arith))

  pub become_pre_candidate-Kept :
      (n : Node) → n.current_term + 1 < u64_mod → Kept (hard n) (hard (become_pre_candidate disk n))
  unfolding become_pre_candidate stand_for_pre_vote forget_votes reset_election_timeout
  become_pre_candidate-Kept n h =
      if-cases (λ m. Kept (hard n) (hard m)) (is_single_voter n) _ _
        (λ s. become_candidate-Kept (stand_for_pre_vote n) h)
        (λ s. Kept-same (hard n) _ (broadcast_request_vote-hard true (stand_for_pre_vote n)))

  pub handle_request_vote-Kept :
      (req : VoteRequest) (ch : Channel) (n : Node)
      → Kept (hard n) (hard (handle_request_vote disk req ch n))
  unfolding handle_request_vote
  handle_request_vote-Kept req ch n =
      if-cases (λ m. Kept (hard n) (hard m)) req.pre_vote _ _
        (λ h. Kept-same (hard n) _ (emit_on-hard ch _ n))
        (λ h.
          subst (Kept (hard n))
            (sym (
              after_write-hard disk (send_gate 0 (decide_vote req n).1)
                (Deferred.vote_answer ch (record {
                  term = (decide_vote req n).1.current_term;
                  vote_granted = (decide_vote req n).0;
                }))
                (decide_vote req n).1))
            (decide_vote-hard req n).0)

  pub handle_vote_result-Kept :
      (r : VoteResult) (n : Node)
      → n.current_term + 1 < u64_mod
      → Kept (hard n) (hard (handle_vote_result disk r n))
  unfolding handle_vote_result count_vote
  handle_vote_result-Kept r n h =
      if-cases P r.pre_vote _ _
        (λ pre.
          if-cases P
            (not (is_pre_candidate n.state) || not (r.election_term == add64 n.current_term 1)) _ _
            (λ c. Kept-refl (hard n))
            (λ c.
              if-cases P (ltb n.current_term r.term) _ _ (λ c. follow)
                (λ c.
                  if-cases P (not r.vote_granted) _ _ (λ c. Kept-refl (hard n))
                    (λ c.
                      if-cases P (election_won counted) _ counted
                        (λ c. become_candidate-Kept counted h) (λ c. Kept-refl (hard n))))))
        (λ real.
          if-cases P (ltb n.current_term r.term) _ _ (λ c. follow)
            (λ c.
              if-cases P (not (is_candidate n.state) || ltb r.term n.current_term) _ _
                (λ c. Kept-refl (hard n))
                (λ c.
                  if-cases P (not r.vote_granted) _ _ (λ c. Kept-refl (hard n))
                    (λ c.
                      if-cases P (election_won counted) _ counted
                        (λ c.
                          Kept-same (hard n) (hard (become_leader disk counted))
                            (become_leader-hard disk counted))
                        (λ c. Kept-refl (hard n))))))
    where
      counted : Node
      counted = count_vote r.peer_id n

      P : Node → Type 0
      P m = Kept (hard n) (hard m)

      follow : Kept (hard n) (hard (become_follower r.term nobody n))
      follow = become_follower-Kept r.term nobody n

  stand_at_once-Kept :
      (term : ℕ) (n : Node)
      → n.current_term + 1 < u64_mod
      → term + 1 < u64_mod
      → Kept (hard n) (hard (stand_at_once disk term n))
  unfolding stand_at_once
  stand_at_once-Kept term n h k =
      if-cases P (ltb term n.current_term) n _ (λ c. Kept-refl (hard n))
        (λ c.
          if-cases P n.cfg.witness stepped _ (λ w. followed.0)
            (λ w.
              Kept-trans (hard n) (hard stepped) (hard (become_candidate disk stepped)) followed.0
                (become_candidate-Kept stepped followed.1)))
    where
      P : Node → Type 0
      P m = Kept (hard n) (hard m)

      stepped : Node
      stepped = if ltb n.current_term term then become_follower term nobody n else n

      followed : Kept (hard n) (hard stepped) × (stepped.current_term + 1 < u64_mod)
      followed =
          if-cases (λ m. Kept (hard n) (hard m) × (m.current_term + 1 < u64_mod))
            (ltb n.current_term term) _ n
            (λ c. (
              become_follower-Kept term nobody n,
              elim (become_follower-term term nobody n) [
                | inl below ↦ omega (arith, below)
                | inr there ↦ omega (arith, there)
              ],
            ))
            (λ c. (Kept-refl (hard n), h))

  pub handle_timeout_now-Kept :
      (term : ℕ) (ch : Channel) (n : Node)
      → n.current_term + 1 < u64_mod
      → term + 1 < u64_mod
      → Kept (hard n) (hard (handle_timeout_now disk term ch n))
  unfolding handle_timeout_now
  handle_timeout_now-Kept term ch n h k =
      subst (Kept (hard n))
        (sym (
          after_write-hard disk (send_gate 0 (stand_at_once disk term n))
            (Deferred.timeout_now_answer ch (stand_at_once disk term n).current_term)
            (stand_at_once disk term n)))
        (stand_at_once-Kept term n h k)
