-- ===== src/Node/Progress.antt =====
-- What `handleAppendResult` does to the progress of the peers.
use raft.Prelude.{
  ℕ, ◌+◌, ◌≤◌, ◌<◌, ltb, leb, ◌==◌, not, ◌&&◌, if-cases, true, ◌≡◌, refl, ap, ◌∙◌, ◌⊎◌, none, some,
  List, [], ◌∷◌, NodeId, id_eq_iff, update, u64_mod, arith,
}
use raft.Types.{LogEntry, is_leader}
use raft.RaftLog.Segments.{last_entry}
use raft.RaftLog.Defs.{last_log_index}
use raft.Node.State.{Node, emit}
use raft.Node.Reads.{no_acks}
use raft.Node.Commit.{maybe_advance_commit, commit_quorum_acked}
use raft.Node.Replicate.{
  Disk, departing_index, replicate_to_peer, send_batch, send_snapshot_to_peer,
}
use raft.Node.Departures.{AppendResult}
use raft.Node.Transfer.{send_timeout_now}
use raft.Node.AppendResults.{
  mark_peer_down, mark_peer_up, note_peer_unreachable, landed, resume_at, note_progress, note_heard,
  finish_transfer, count_barrier, note_barrier, append_rejected, note_accepted, append_accepted,
  append_answered, handle_append_result,
}
use raft.Node.Frame.{frame, maybe_advance_commit-frame, confirm_read_batch-frame}

-- What is to be sent to a peer next lies past what it has, or the peer is not tracked.
abbrev pub AheadAt : Node → NodeId → Type 0
AheadAt n id =
    (n.match_index id < n.next_index id) ⊎ ((n.next_index id ≡ 0) × (n.match_index id ≡ 0))

-- No peer is taken back behind what it has acknowledged, and every one stays ahead of it.
abbrev pub Moved : Node → Node → Type 0
Moved n m = (id : NodeId) → (n.match_index id ≤ m.match_index id) × (AheadAt n id → AheadAt m id)

Moved-trans : (a b c : Node) → Moved a b → Moved b c → Moved a c
Moved-trans a b c h k id = (omega (arith, (h id).0, (k id).0), λ ahead. (k id).1 ((h id).1 ahead))

Moved-frame : (n m : Node) → frame m ≡ frame n → Moved n m
Moved-frame n m e id =
    let next : m.next_index id ≡ n.next_index id = ap (λ k. k.4 id) e in
    let match : m.match_index id ≡ n.match_index id = ap (λ k. k.5 id) e in
    (omega (arith, match), λ ahead. ground (arith, next, match, ahead))

pub note_heard-frame : (peer : NodeId) (n : Node) → frame (note_heard peer n) ≡ frame n
unfolding note_heard
note_heard-frame peer n = ground arith

pub finish_transfer-frame : (peer : NodeId) (n : Node) → frame (finish_transfer peer n) ≡ frame n
unfolding finish_transfer send_timeout_now emit
finish_transfer-frame peer n = ground arith

count_barrier-frame : (peer : NodeId) (n : Node) → frame (count_barrier peer n) ≡ frame n
unfolding count_barrier
count_barrier-frame peer n =
    let acks = update (elim n.read_batch_acks [ none ↦ no_acks | some a ↦ a ]) peer true in
    let counted = record n { read_batch_acks = some acks } in
    if-cases (λ m. frame m ≡ frame n) (commit_quorum_acked counted acks) _ counted
      (λ h. confirm_read_batch-frame counted) (λ h. refl)

pub note_barrier-frame : (r : AppendResult) (n : Node) → frame (note_barrier r n) ≡ frame n
unfolding note_barrier
note_barrier-frame r n = ground (arith, count_barrier-frame r.peer n)

pub note_peer_unreachable-frame :
    (peer : NodeId) (n : Node) → frame (note_peer_unreachable peer n) ≡ frame n
unfolding note_peer_unreachable mark_peer_down
note_peer_unreachable-frame peer n = ground arith

-- The last index of the entries that a request carried.
abbrev pub sent_to : List LogEntry → ℕ
sent_to [] = 0
sent_to (e ∷ es) = (last_entry e es).index

note_progress-Moved :
    (peer : NodeId) (es : List LogEntry) (n : Node)
    → sent_to es + 1 < u64_mod
    → Moved n (note_progress peer es n) × ((note_progress peer es n).departing ≡ n.departing)
unfolding note_progress
note_progress-Moved peer [] n h = (λ id. (omega arith, λ ahead. ahead), refl)
note_progress-Moved peer (e ∷ es) n h = (
  λ id. (ground (arith, id_eq_iff peer id), λ ahead. ground (arith, ahead, id_eq_iff peer id)),
  ground arith,
)

resume_at-ahead :
    (r : AppendResult) (n : Node)
    → n.match_index r.peer + 1 < u64_mod
    → n.match_index r.peer < resume_at r n
unfolding resume_at
resume_at-ahead r n h = ground arith

resumed-Moved :
    (r : AppendResult) (n : Node)
    → n.match_index r.peer + 1 < u64_mod
    → Moved n (record n { next_index = update n.next_index r.peer (resume_at r n) })
resumed-Moved r n h id =
    (omega arith, λ ahead. ground (arith, ahead, id_eq_iff r.peer id, resume_at-ahead r n h))

module _ (disk : Disk) where
  -- A peer that is not on its way out is replicated to without a change of its progress.
  pub replicate_to_peer-frame :
      (peer : NodeId) (n : Node)
      → departing_index peer n.departing ≡ none
      → frame (replicate_to_peer disk peer n) ≡ frame n
  unfolding replicate_to_peer send_batch send_snapshot_to_peer emit
  replicate_to_peer-frame peer n h = grind (arith, h)

  replicated-Moved :
      (peer : NodeId) (n : Node)
      → departing_index peer n.departing ≡ none
      → Moved n (replicate_to_peer disk peer n)
  replicated-Moved peer n h =
      Moved-frame n (replicate_to_peer disk peer n) (replicate_to_peer-frame peer n h)

  append_rejected-Moved :
      (r : AppendResult) (n : Node)
      → departing_index r.peer n.departing ≡ none
      → n.match_index r.peer + 1 < u64_mod
      → Moved n (append_rejected disk r n)
  unfolding append_rejected
  append_rejected-Moved r n stays fits =
      let resumed = record n { next_index = update n.next_index r.peer (resume_at r n) } in
      if-cases (Moved n) (r.conflict_index == 0 && r.conflict_term == 0) n _
        (λ h. Moved-frame n n refl)
        (λ h.
          if-cases (Moved n) (ltb r.req.prev_log_index (n.match_index r.peer)) n _
            (λ k. Moved-frame n n refl)
            (λ k.
              Moved-trans n resumed (replicate_to_peer disk r.peer resumed) (resumed-Moved r n fits)
                (replicated-Moved r.peer resumed stays)))

  pub note_accepted-Moved :
      (r : AppendResult) (n : Node)
      → sent_to r.req.entries + 1 < u64_mod
      → Moved n (note_accepted disk r n) × ((note_accepted disk r n).departing ≡ n.departing)
  unfolding note_accepted
  note_accepted-Moved r n fits =
      let heard = note_heard r.peer n in
      let noted = note_progress r.peer r.req.entries heard in
      let advanced = maybe_advance_commit noted in
      let finished = finish_transfer r.peer advanced in
      let rest : frame (note_barrier r finished) ≡ frame noted =
        note_barrier-frame r finished
        ∙ finish_transfer-frame r.peer advanced
        ∙ maybe_advance_commit-frame noted in
      let moved = note_progress-Moved r.peer r.req.entries heard fits in
      (
        Moved-trans n heard (note_barrier r finished)
            (Moved-frame n heard (note_heard-frame r.peer n))
            (Moved-trans heard noted (note_barrier r finished) moved.0
              (Moved-frame noted (note_barrier r finished) rest)),
        ap (λ k. k.6) rest ∙ moved.1 ∙ ap (λ k. k.6) (note_heard-frame r.peer n),
      )

  append_accepted-Moved :
      (r : AppendResult) (n : Node)
      → departing_index r.peer n.departing ≡ none
      → sent_to r.req.entries + 1 < u64_mod
      → Moved n (append_accepted disk r n)
  unfolding append_accepted
  append_accepted-Moved r n stays fits =
      let noted = note_accepted disk r n in
      let (moved, same) = note_accepted-Moved r n fits in
      if-cases (Moved n) (leb (noted.next_index r.peer) (last_log_index noted.log)) _ noted
        (λ h.
          Moved-trans n noted (replicate_to_peer disk r.peer noted) moved
            (replicated-Moved r.peer noted (ap (departing_index r.peer) same ∙ stays)))
        (λ h. moved)

  append_answered-Moved :
      (r : AppendResult) (n : Node)
      → departing_index r.peer n.departing ≡ none
      → n.match_index r.peer + 1 < u64_mod
      → sent_to r.req.entries + 1 < u64_mod
      → Moved n (append_answered disk r n)
  unfolding append_answered
  append_answered-Moved r n stays fits sent =
      if-cases (Moved n) (not r.success) (append_rejected disk r n) _
        (λ h. append_rejected-Moved r n stays fits)
        (λ h. rw (stays, append_answered) (append_accepted-Moved r n stays sent))

  -- An answer to an append, or none, takes no peer back.
  pub handle_append_result-Moved :
      (r : AppendResult) (n : Node)
      → r.term ≤ n.current_term
      → departing_index r.peer n.departing ≡ none
      → n.match_index r.peer + 1 < u64_mod
      → sent_to r.req.entries + 1 < u64_mod
      → Moved n (handle_append_result disk r n)
  unfolding handle_append_result landed mark_peer_up
  handle_append_result-Moved r n current stays fits sent =
      let heard = mark_peer_up r.peer (landed r.peer n) in
      let gone = note_peer_unreachable r.peer (landed r.peer n) in
      if-cases (Moved n) r.dropped gone _
        (λ h. Moved-frame n gone (note_peer_unreachable-frame r.peer (landed r.peer n)))
        (λ h.
          if-cases (Moved n) (ltb n.current_term r.term) _ _ (λ k. absurd (ground arith))
            (λ k.
              if-cases (Moved n) (not (is_leader n.state)) heard (append_answered disk r heard)
                (λ l. Moved-frame n heard refl)
                (λ l. append_answered-Moved r heard stays fits sent)))
