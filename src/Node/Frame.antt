-- ===== src/Node/Frame.antt =====
-- What every part of a turn leaves alone that does not change the role, the term or the peers: the
-- effects, the reads, the commit index.
use raft.Prelude.{
  ℕ, ◌+◌, ◌-◌, ◌==◌, not, ◌||◌, if-cases, true, Option, none, some, List, [], ◌∷◌, NodeId, ◌≡◌,
  refl, ◌∙◌, arith,
}
use raft.Types.{State, Error, PeerConfig, is_leader}
use raft.Node.State.{Node, Config, Effect, Channel, Departure, emit, emit_on}
use raft.Node.Writes.{reset_election_timeout, maybe_record_commit, set_commit_index, notify_apply}
use raft.Node.Reads.{
  barrier_to, broadcast_read_barrier, resolve_reads, reject_reads, open_batch, close_batch,
  last_round, confirm_read_batch, start_read_batch, drain_pending_reads, is_single_voter,
}
use raft.Node.Commit.{note_nop_committed, maybe_advance_commit, scan_down, scan_bottom}
use raft.RaftLog.Defs.{last_log_index}

-- The term, the vote, the role, the settings, the progress of the peers and the departures.
abbrev pub frame :
    Node → ℕ × NodeId × State × Config × (NodeId → ℕ) × (NodeId → ℕ) × List (NodeId × Departure)
frame n = (n.current_term, n.voted_for, n.state, n.cfg, n.next_index, n.match_index, n.departing)

pub emit-frame : (e : Effect) (n : Node) → frame (emit e n) ≡ frame n
unfolding emit
emit-frame e n = refl

pub emit_on-frame : (ch : Channel) (e : ℕ → Effect) (n : Node) → frame (emit_on ch e n) ≡ frame n
unfolding emit_on emit
emit_on-frame none e n = refl
emit_on-frame (some ch) e n = refl

pub reset_election_timeout-frame : (n : Node) → frame (reset_election_timeout n) ≡ frame n
unfolding reset_election_timeout
reset_election_timeout-frame n = refl

pub maybe_record_commit-frame : (n : Node) → frame (maybe_record_commit n) ≡ frame n
unfolding maybe_record_commit
maybe_record_commit-frame n = ground arith

pub set_commit_index-frame : (idx : ℕ) (n : Node) → frame (set_commit_index idx n) ≡ frame n
unfolding set_commit_index
set_commit_index-frame idx n =
    ground (arith, maybe_record_commit-frame (record n { commit_index = idx }))

pub notify_apply-frame : (n : Node) → frame (notify_apply n) ≡ frame n
unfolding notify_apply emit
notify_apply-frame n = ground arith

pub barrier_to-frame : (ps : List PeerConfig) (n : Node) → frame (barrier_to ps n) ≡ frame n
unfolding barrier_to emit
barrier_to-frame [] n = refl
barrier_to-frame (p ∷ ps) n = barrier_to-frame ps _

pub broadcast_read_barrier-frame : (n : Node) → frame (broadcast_read_barrier n) ≡ frame n
unfolding broadcast_read_barrier
broadcast_read_barrier-frame n = barrier_to-frame n.cfg.peers n

pub resolve_reads-frame :
    (rs : List ℕ) (idx : ℕ) (n : Node) → frame (resolve_reads rs idx n) ≡ frame n
unfolding resolve_reads emit
resolve_reads-frame [] idx n = refl
resolve_reads-frame (r ∷ rs) idx n = resolve_reads-frame rs idx _

pub reject_reads-frame :
    (rs : List ℕ) (e : Error) (n : Node) → frame (reject_reads rs e n) ≡ frame n
unfolding reject_reads emit
reject_reads-frame [] e n = refl
reject_reads-frame (r ∷ rs) e n = reject_reads-frame rs e _

pub close_batch-frame : (n : Node) → frame (close_batch n) ≡ frame n
unfolding close_batch
close_batch-frame n = resolve_reads-frame n.pending_reads n.read_batch_index n

pub last_round-frame : (n : Node) → frame (last_round n) ≡ frame n
unfolding last_round open_batch
last_round-frame n =
    if-cases (λ m. frame m ≡ frame n) (is_single_voter n) _ _
      (λ h. close_batch-frame (open_batch n)) (λ h. broadcast_read_barrier-frame (open_batch n))

pub confirm_read_batch-frame : (n : Node) → frame (confirm_read_batch n) ≡ frame n
unfolding confirm_read_batch
confirm_read_batch-frame n = go n.waiting_reads
  where
    go :
        (rs : List ℕ)
        → frame (elim rs [
          | [] ↦ close_batch n
          | r ∷ rest ↦
              last_round (record (close_batch n) { pending_reads = r ∷ rest; waiting_reads = [] })
        ])
          ≡ frame n
    go [] = close_batch-frame n
    go (r ∷ rest) =
        last_round-frame (record (close_batch n) { pending_reads = r ∷ rest; waiting_reads = [] })
        ∙ close_batch-frame n

pub start_read_batch-frame : (n : Node) → frame (start_read_batch n) ≡ frame n
unfolding start_read_batch open_batch
start_read_batch-frame n =
    if-cases (λ m. frame m ≡ frame n) (is_single_voter n) _ _
      (λ h. confirm_read_batch-frame (open_batch n))
      (λ h. broadcast_read_barrier-frame (open_batch n))

pub drain_pending_reads-frame : (e : Error) (n : Node) → frame (drain_pending_reads e n) ≡ frame n
unfolding drain_pending_reads
drain_pending_reads-frame e n =
    reject_reads-frame n.waiting_reads e (reject_reads n.pending_reads e n)
    ∙ reject_reads-frame n.pending_reads e n

pub note_nop_committed-frame : (n : Node) → frame (note_nop_committed n) ≡ frame n
unfolding note_nop_committed
note_nop_committed-frame n =
    ground (arith, start_read_batch-frame (record n { leader_nop_committed = true }))

pub maybe_advance_commit-frame : (n : Node) → frame (maybe_advance_commit n) ≡ frame n
unfolding maybe_advance_commit
maybe_advance_commit-frame n =
    if-cases (λ m. frame m ≡ frame n) (not (is_leader n.state) || n.term_start_index == 0) _ _
      (λ h. refl) (λ h. go (scan_down n (scan_bottom n) (last_log_index n.log + 1 - scan_bottom n)))
  where
    go :
        (o : Option ℕ)
        → frame (elim o [
          | none ↦ n
          | some idx ↦ note_nop_committed (notify_apply (set_commit_index idx n))
        ])
          ≡ frame n
    go none = refl
    go (some idx) =
        note_nop_committed-frame (notify_apply (set_commit_index idx n))
        ∙ notify_apply-frame (set_commit_index idx n)
        ∙ set_commit_index-frame idx n
