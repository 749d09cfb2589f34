-- ===== src/Node/Reads.antt =====
-- node_readindex.go: linearizable reads. Leases are not modelled: a read that asks for one is
-- answered by the caller's clock.
use raft.Prelude.{
  ℕ, not, ◌&&◌, if◌then◌else◌, Bool, true, false, add64, sub64, none, some, List, [], ◌∷◌, ◌++◌,
  NodeId,
}
use raft.Types.{PeerConfig, Error, not_leader, is_leader}
use raft.RaftLog.Defs.{term_at, term_or_zero}
use raft.Node.State.{Node, AppendRequest, Effect, emit}

-- `isSingleVoter`
unfoldable pub no_voter : List PeerConfig → Bool
no_voter [] = true
no_voter (p ∷ ps) = not p.voter && no_voter ps

unfoldable pub is_single_voter : Node → Bool
unfolding no_voter
is_single_voter n = n.cfg.voter && no_voter n.cfg.peers

-- The empty append that asserts leadership to a peer: a heartbeat, or a read barrier.
unfoldable pub empty_append : Node → NodeId → (read_barrier : ℕ) → AppendRequest
empty_append n peer read_barrier =
    let prev = sub64 (n.next_index peer) 1 in
    record {
      term = n.current_term;
      leader_id = n.cfg.id;
      prev_log_index = prev;
      prev_log_term = term_or_zero (term_at n.log prev);
      entries = [];
      leader_commit = n.commit_index;
      read_barrier = read_barrier;
    }

-- `broadcastReadBarrier`, over the peers that are left.
unfoldable pub barrier_to : List PeerConfig → Node → Node
unfolding empty_append emit
barrier_to [] n = n
barrier_to (p ∷ ps) n =
    barrier_to ps (emit (Effect.send_append p.id (empty_append n p.id n.read_batch_gen)) n)

unfoldable pub broadcast_read_barrier : Node → Node
unfolding barrier_to
broadcast_read_barrier n = barrier_to n.cfg.peers n

-- The reads of a list, each resolved to an index, or each rejected.
unfoldable pub resolve_reads : List ℕ → ℕ → Node → Node
unfolding emit
resolve_reads [] idx n = n
resolve_reads (r ∷ rs) idx n = resolve_reads rs idx (emit (Effect.resolve_read r idx) n)

unfoldable pub reject_reads : List ℕ → Error → Node → Node
unfolding emit
reject_reads [] e n = n
reject_reads (r ∷ rs) e n = reject_reads rs e (emit (Effect.reject_read r e) n)

abbrev pub no_acks : NodeId → Bool
no_acks id = false

-- The start of `startReadBatch`, before it asks anybody.
unfoldable pub open_batch : Node → Node
open_batch n = record n {
  read_batch_gen = add64 n.read_batch_gen 1;
  read_batch_acks = some no_acks;
  read_batch_index = n.commit_index;
}

-- `confirmReadBatch` up to the reads that waited: those of the round are answered.
unfoldable pub close_batch : Node → Node
unfolding resolve_reads
close_batch n = record (resolve_reads n.pending_reads n.read_batch_index n) {
  pending_reads = [];
  read_batch_acks = none;
}

-- `startReadBatch` and `confirmReadBatch` call one another. A single voter confirms a round at once,
-- and after a round that left nobody waiting nothing more is called: the waiting list is taken
-- whole, so two rounds are the most there are.
unfoldable pub last_round : Node → Node
unfolding open_batch close_batch broadcast_read_barrier is_single_voter
last_round n =
    let opened = open_batch n in
    if is_single_voter n then close_batch opened else broadcast_read_barrier opened

-- `confirmReadBatch`
unfoldable pub confirm_read_batch : Node → Node
unfolding close_batch last_round
confirm_read_batch n =
    let closed = close_batch n in
    elim n.waiting_reads [
      | [] ↦ closed
      | r ∷ rs ↦ last_round (record closed { pending_reads = r ∷ rs; waiting_reads = [] })
    ]

-- `startReadBatch`
unfoldable pub start_read_batch : Node → Node
unfolding open_batch confirm_read_batch broadcast_read_barrier is_single_voter
start_read_batch n =
    let opened = open_batch n in
    if is_single_voter n then confirm_read_batch opened else broadcast_read_barrier opened

-- `drainPendingReads`
unfoldable pub drain_pending_reads : Error → Node → Node
unfolding reject_reads
drain_pending_reads e n =
    record (reject_reads n.waiting_reads e (reject_reads n.pending_reads e n)) {
      pending_reads = [];
      waiting_reads = [];
      read_batch_acks = none;
    }

-- `handleReadIndex` for a read that asks for no lease.
unfoldable pub handle_read_index : ℕ → Node → Node
unfolding emit start_read_batch is_single_voter
handle_read_index resolver n =
    let queued = record n { pending_reads = n.pending_reads ++ resolver ∷ [] } in
    if not (is_leader n.state)
    then emit (Effect.reject_read resolver (not_leader n.leader_id)) n
    else if not n.leader_nop_committed
    then queued
    else if is_single_voter n
    then emit (Effect.resolve_read resolver n.commit_index) n
    else elim n.read_batch_acks [
      | some acks ↦ record n { waiting_reads = n.waiting_reads ++ resolver ∷ [] }
      | none ↦ start_read_batch queued
    ]
