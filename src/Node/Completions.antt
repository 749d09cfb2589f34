-- ===== src/Node/Completions.antt =====
-- `handleWriteCompletions` of node.go and what it calls: the writes that have landed or failed.
use raft.Prelude.{ℕ, ltb, leb, ◌==◌, not, ◌&&◌, if◌then◌else◌, none, some, List, [], ◌∷◌, ◌++◌}
use raft.Types.{Error, is_leader}
use raft.StorageWriter.Queue.{WriteDone, take_done}
use raft.RaftLog.Defs.{stabilize}
use raft.Node.State.{Node, DeferredWrite}
use raft.Node.Writes.{fail, maybe_record_commit, notify_apply}
use raft.Node.Commit.{maybe_advance_commit}
use raft.Node.Replicate.{Disk}
use raft.Node.Transitions.{fail_deferred, run_deferred}

module _ (disk : Disk) where
  -- The two halves of `runDeferredWrites`: what stays, and what runs.
  unfoldable pub still_waiting : ℕ → List DeferredWrite → List DeferredWrite
  still_waiting seq [] = []
  still_waiting seq (d ∷ ds) =
      let rest = still_waiting seq ds in if ltb seq d.seq then d ∷ rest else rest

  unfoldable pub run_landed : ℕ → List DeferredWrite → Node → Node
  run_landed seq [] n = n
  run_landed seq (d ∷ ds) n =
      run_landed seq ds (if ltb seq d.seq then n else run_deferred disk d.action n)

  -- `runDeferredWrites`: what the actions defer in their turn goes behind what stayed.
  unfoldable pub run_deferred_writes : ℕ → Node → Node
  unfolding still_waiting run_landed
  run_deferred_writes seq n =
      let ran = run_landed seq n.deferred_writes (record n { deferred_writes = [] }) in
      record ran { deferred_writes = still_waiting seq n.deferred_writes ++ ran.deferred_writes }

  -- `failDeferredWrites`
  unfoldable pub fail_all : List DeferredWrite → Error → Node → Node
  unfolding fail_deferred
  fail_all [] e n = n
  fail_all (d ∷ ds) e n = fail_all ds e (fail_deferred disk d.action e n)

  unfoldable pub fail_deferred_writes : Error → Node → Node
  unfolding fail_all
  fail_deferred_writes e n = fail_all n.deferred_writes e (record n { deferred_writes = [] })

  -- The body of the loop of `handleWriteCompletions`.
  unfoldable pub complete_write : WriteDone → Node → Node
  unfolding run_deferred_writes fail_deferred_writes fail
  complete_write d n =
      let seen = if ltb n.completed_write_seq d.seq then d.seq else n.completed_write_seq in
      elim d.error [
        | some e ↦ fail_deferred_writes e (fail e (record n { completed_write_seq = seen }))
        | none ↦
            let landed = record n { log = stabilize n.log d; completed_write_seq = seen } in
            run_deferred_writes d.seq (
              if not (n.unsafe_term_seq == 0) && leb n.unsafe_term_seq d.seq
              then record landed { unsafe_term_seq = 0 }
              else landed)
      ]

  unfoldable pub complete_writes : List WriteDone → Node → Node
  unfolding complete_write
  complete_writes [] n = n
  complete_writes (d ∷ ds) n = complete_writes ds (complete_write d n)

  -- `onDurableAdvanced`
  unfoldable pub on_durable_advanced : Node → Node
  unfolding notify_apply maybe_record_commit
  on_durable_advanced n =
      let notified = notify_apply n in
      maybe_record_commit
        (if is_leader notified.state then maybe_advance_commit notified else notified)

  -- `handleWriteCompletions`
  unfoldable pub handle_write_completions : Node → Node
  unfolding complete_writes on_durable_advanced take_done
  handle_write_completions n =
      let (done, w) = take_done n.log.w in
      let taken = record n { log = record n.log { w = w } } in
      elim done [ [] ↦ taken | d ∷ ds ↦ on_durable_advanced (complete_writes (d ∷ ds) taken) ]
