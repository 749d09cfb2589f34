-- ===== src/Node/Writes.antt =====
-- Hard-state and log writes as the loop queues them: `saveTerm`, `sendGate`, `maybeRecordCommit`,
-- `setCommitIndex`, `notifyApply`, `resetElectionTimeout` and `fail` of node.go and node_loop.go.
use raft.Prelude.{
  ℕ, ◌+◌, ◌-◌, ltb, leb, ◌==◌, not, if◌then◌else◌, min, add64, none, some, [], NodeId,
}
use raft.Types.{HardState, Error}
use raft.StorageWriter.Queue.{WriteKind}
use raft.RaftLog.Defs.{RaftLog, queue_op, stable_index, no_hard_state}
use raft.Node.State.{Node, Effect, emit}

-- `saveTerm`: the number of the write, and the node in the new term.
unfoldable pub save_term : ℕ → NodeId → Node → ℕ × Node
unfolding queue_op
save_term term voted_for n =
    let hs : HardState = record { current_term = term; voted_for = voted_for } in
    let seq = add64 n.log.next_seq 1 in
    (
      seq,
      record n {
        log = queue_op n.log WriteKind.hard_state [] 0 hs n.log.queued_durable;
        unsafe_term_seq = seq;
        current_term = term;
        voted_for = voted_for;
      },
    )

-- `sendGate`
unfoldable pub send_gate : ℕ → Node → ℕ
send_gate write_seq n = if ltb write_seq n.unsafe_term_seq then n.unsafe_term_seq else write_seq

-- `resetElectionTimeout`; `electionMaxTicks` below `electionMinTicks` gives a span of 1, too.
unfoldable pub reset_election_timeout : Node → Node
reset_election_timeout n =
    let span = n.cfg.election_max_ticks - n.cfg.election_min_ticks in
    let drawn = n.cfg.int_n n.draws (if span == 0 then 1 else span) in
    record n {
      election_timeout = n.cfg.election_min_ticks + drawn;
      election_elapsed = 0;
      draws = n.draws + 1;
    }

-- `fail`: the first failure is kept.
unfoldable pub fail : Error → Node → Node
fail e n = elim n.fatal_error [ some first ↦ n | none ↦ record n { fatal_error = some e } ]

-- `commitRecordInterval`
abbrev pub commit_record_interval : ℕ
commit_record_interval = 256

-- `maybeRecordCommit`
unfoldable pub maybe_record_commit : Node → Node
unfolding queue_op
maybe_record_commit n =
    let idx = min n.commit_index (stable_index n.log) in
    if not n.log.w.records_commits
    then n
    else if ltb idx (add64 n.recorded_commit commit_record_interval)
    then n
    else record n {
      recorded_commit = idx;
      log = queue_op n.log WriteKind.commit_index [] idx no_hard_state n.log.queued_durable;
    }

-- `setCommitIndex`
unfoldable pub set_commit_index : ℕ → Node → Node
unfolding maybe_record_commit
set_commit_index idx n =
    if leb idx n.commit_index then n else maybe_record_commit (record n { commit_index = idx })

-- `notifyApply`: the apply loop is told no further than what is stable.
unfoldable pub applicable : Node → ℕ
applicable n =
    if ltb (stable_index n.log) n.commit_index then stable_index n.log else n.commit_index

unfoldable pub notify_apply : Node → Node
unfolding applicable emit
notify_apply n = if applicable n == 0 then n else emit (Effect.notify_apply (applicable n)) n

-- A change of the log alone.
abbrev pub with_log : ℕ × RaftLog → Node → Node
with_log appended n = record n { log = appended.1 }
