-- ===== src/Node/CommitFrame.antt =====
-- What tells the readers and the apply loop of a commit, and does not move the commit index itself.
use raft.Prelude.{ℕ, ◌<◌, if-cases, true, List, [], ◌∷◌, ◌≡◌, refl, ◌∙◌, arith}
use raft.Types.{PeerConfig}
use raft.Node.State.{Node, emit}
use raft.Node.Writes.{maybe_record_commit, set_commit_index, notify_apply}
use raft.Node.Reads.{
  barrier_to, broadcast_read_barrier, resolve_reads, open_batch, close_batch, last_round,
  confirm_read_batch, start_read_batch, is_single_voter,
}
use raft.Node.Commit.{note_nop_committed}

abbrev pub commit : Node → ℕ
commit n = n.commit_index

-- Reads and the apply loop are told of a commit, and neither moves it.
barrier_to-commit : (ps : List PeerConfig) (n : Node) → commit (barrier_to ps n) ≡ commit n
unfolding barrier_to emit
barrier_to-commit [] n = refl
barrier_to-commit (p ∷ ps) n = barrier_to-commit ps _

resolve_reads-commit :
    (rs : List ℕ) (idx : ℕ) (n : Node) → commit (resolve_reads rs idx n) ≡ commit n
unfolding resolve_reads emit
resolve_reads-commit [] idx n = refl
resolve_reads-commit (r ∷ rs) idx n = resolve_reads-commit rs idx _

close_batch-commit : (n : Node) → commit (close_batch n) ≡ commit n
unfolding close_batch
close_batch-commit n = resolve_reads-commit n.pending_reads n.read_batch_index n

last_round-commit : (n : Node) → commit (last_round n) ≡ commit n
unfolding last_round open_batch broadcast_read_barrier
last_round-commit n =
    if-cases (λ m. commit m ≡ commit n) (is_single_voter n) _ _
      (λ h. close_batch-commit (open_batch n)) (λ h. barrier_to-commit n.cfg.peers (open_batch n))

confirm_read_batch-commit : (n : Node) → commit (confirm_read_batch n) ≡ commit n
unfolding confirm_read_batch
confirm_read_batch-commit n = go n.waiting_reads
  where
    go :
        (rs : List ℕ)
        → commit (elim rs [
          | [] ↦ close_batch n
          | r ∷ rest ↦
              last_round (record (close_batch n) { pending_reads = r ∷ rest; waiting_reads = [] })
        ])
          ≡ commit n
    go [] = close_batch-commit n
    go (r ∷ rest) =
        last_round-commit (record (close_batch n) { pending_reads = r ∷ rest; waiting_reads = [] })
        ∙ close_batch-commit n

start_read_batch-commit : (n : Node) → commit (start_read_batch n) ≡ commit n
unfolding start_read_batch open_batch broadcast_read_barrier
start_read_batch-commit n =
    if-cases (λ m. commit m ≡ commit n) (is_single_voter n) _ _
      (λ h. confirm_read_batch-commit (open_batch n))
      (λ h. barrier_to-commit n.cfg.peers (open_batch n))

pub note_nop_committed-commit : (n : Node) → commit (note_nop_committed n) ≡ commit n
unfolding note_nop_committed
note_nop_committed-commit n =
    ground (arith, start_read_batch-commit (record n { leader_nop_committed = true }))

maybe_record_commit-commit : (n : Node) → commit (maybe_record_commit n) ≡ commit n
unfolding maybe_record_commit
maybe_record_commit-commit n = ground arith

pub set_commit_index-commit :
    (idx : ℕ) (n : Node) → n.commit_index < idx → (set_commit_index idx n).commit_index ≡ idx
unfolding set_commit_index
set_commit_index-commit idx n h =
    ground (arith, maybe_record_commit-commit (record n { commit_index = idx }))

pub notify_apply-commit : (n : Node) → commit (notify_apply n) ≡ commit n
unfolding notify_apply emit
notify_apply-commit n = ground arith
