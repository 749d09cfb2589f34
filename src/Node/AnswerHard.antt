-- ===== src/Node/AnswerHard.antt =====
-- What the answers to append requests leave of the term and the vote.
use raft.Prelude.{
  ℕ, ltb, leb, not, if-cases, if◌then◌else◌, Option-cases, inl, inr, List, [], ◌∷◌, NodeId, update,
  ◌≡◌, refl, ap, ◌∙◌, arith,
}
use raft.Types.{LogEntry, is_leader}
use raft.RaftLog.Defs.{last_log_index}
use raft.Node.State.{Node}
use raft.Node.Follower.{nobody, become_follower}
use raft.Node.Commit.{maybe_advance_commit}
use raft.Node.Replicate.{Disk, departing_index, replicate_to_peer, end_departure}
use raft.Node.Departures.{AppendResult, tell_departing, departing_progress}
use raft.Node.AppendResults.{
  landed, note_peer_unreachable, mark_peer_up, append_rejected, note_progress, note_heard,
  finish_transfer, note_accepted, append_accepted, append_answered, handle_append_result, resume_at,
}
use raft.Node.HardState.{hard, maybe_advance_commit-hard, replicate_to_peer-hard}
use raft.Node.Progress.{
  note_peer_unreachable-frame, note_heard-frame, finish_transfer-frame, note_barrier-frame,
}
use raft.Node.Votes.{Kept, Kept-refl, Kept-same, become_follower-Kept}

note_progress-hard :
    (peer : NodeId) (es : List LogEntry) (n : Node) → hard (note_progress peer es n) ≡ hard n
unfolding note_progress
note_progress-hard peer [] n = refl
note_progress-hard peer (e ∷ es) n = ground arith

departing_progress-hard :
    (peer : NodeId) (es : List LogEntry) (n : Node) → hard (departing_progress peer es n) ≡ hard n
unfolding departing_progress
departing_progress-hard peer [] n = refl
departing_progress-hard peer (e ∷ es) n = ground arith

module _ (disk : Disk) where
  note_accepted-hard : (r : AppendResult) (n : Node) → hard (note_accepted disk r n) ≡ hard n
  unfolding note_accepted
  note_accepted-hard r n =
      let moved = note_progress r.peer r.req.entries (note_heard r.peer n) in
      let advanced = maybe_advance_commit moved in
      ap (λ k. (k.0, k.1)) (note_barrier-frame r (finish_transfer r.peer advanced))
      ∙ ap (λ k. (k.0, k.1)) (finish_transfer-frame r.peer advanced)
      ∙ maybe_advance_commit-hard moved
      ∙ note_progress-hard r.peer r.req.entries (note_heard r.peer n)
      ∙ ap (λ k. (k.0, k.1)) (note_heard-frame r.peer n)

  append_rejected-hard : (r : AppendResult) (n : Node) → hard (append_rejected disk r n) ≡ hard n
  unfolding append_rejected
  append_rejected-hard r n = ground (
    arith,
    λ (m : Node). replicate_to_peer-hard disk r.peer m,
    replicate_to_peer-hard disk r.peer
        (record n { next_index = update n.next_index r.peer (resume_at r n) }),
  )

  tell_departing-hard :
      (r : AppendResult) (index : ℕ) (n : Node) → hard (tell_departing disk r index n) ≡ hard n
  unfolding tell_departing end_departure
  tell_departing-hard r index n =
      let moved : Node = if r.success then departing_progress r.peer r.req.entries n else n in
      ground (
        arith,
        replicate_to_peer-hard disk r.peer moved,
        departing_progress-hard r.peer r.req.entries n,
      )

  append_accepted-hard : (r : AppendResult) (n : Node) → hard (append_accepted disk r n) ≡ hard n
  unfolding append_accepted
  append_accepted-hard r n =
      let noted = note_accepted disk r n in
      if-cases (λ (m : Node). hard m ≡ hard n)
        (leb (noted.next_index r.peer) (last_log_index noted.log))
        (replicate_to_peer disk r.peer noted) noted
        (λ more. replicate_to_peer-hard disk r.peer noted ∙ note_accepted-hard r n)
        (λ all. note_accepted-hard r n)

  append_answered-hard : (r : AppendResult) (n : Node) → hard (append_answered disk r n) ≡ hard n
  unfolding append_answered
  append_answered-hard r n = elim (Option-cases (departing_index r.peer n.departing)) [
    | inl stays ↦ rw stays (ground (arith, append_rejected-hard r n, append_accepted-hard r n))
    | inr (index, leaves) ↦
        rw leaves (ground (arith, append_rejected-hard r n, tell_departing-hard r index n))
  ]

  pub handle_append_result-Kept :
      (r : AppendResult) (n : Node) → Kept (hard n) (hard (handle_append_result disk r n))
  unfolding handle_append_result landed note_peer_unreachable mark_peer_up
  handle_append_result-Kept r n =
      let arrived = landed r.peer n in
      let heard = mark_peer_up r.peer arrived in
      if-cases (λ (m : Node). Kept (hard n) (hard m)) r.dropped
        (note_peer_unreachable r.peer arrived) _
        (λ lost.
          Kept-same (hard n) (hard (note_peer_unreachable r.peer arrived))
            (ap (λ k. (k.0, k.1)) (note_peer_unreachable-frame r.peer arrived)))
        (λ answered.
          if-cases (λ (m : Node). Kept (hard n) (hard m)) (ltb heard.current_term r.term)
            (become_follower r.term nobody heard) _
            (λ newer. become_follower-Kept r.term nobody heard)
            (λ same.
              if-cases (λ (m : Node). Kept (hard n) (hard m)) (not (is_leader heard.state)) heard
                (append_answered disk r heard) (λ idle. Kept-refl (hard n))
                (λ leads.
                  Kept-same (hard n) (hard (append_answered disk r heard))
                    (append_answered-hard r heard))))
