-- ===== src/StorageWriter/Execute.antt =====
-- `run`, `execute` and `loop` of storage_writer.go: runs of operations performed against a storage.
-- A storage call returns its error, if any, and the storage behind it; what a failed call leaves is
-- the storage's own affair.
use raft.Prelude.{ℕ, zero, suc, Bool, Option, none, some, List, [], ◌∷◌, ◌++◌, map, if◌then◌else◌}
use raft.Types.{LogEntry, HardState, Error}
use raft.StorageWriter.Queue.{WriteKind, WriteOp, WriteDone, StorageWriter, take_run, is_hard_state}

-- The calls of `Storage`, `BatchWriter` and `CommitRecorder` that the writer makes.
pub record Store (S : Type 0) : Type 0 where
  pub save_hard_state : HardState → S → Option Error × S
  pub append_log_entries : List LogEntry → S → Option Error × S
  pub truncate_suffix : ℕ → S → Option Error × S
  pub truncate_prefix : ℕ → S → Option Error × S
  pub save_state : HardState → List LogEntry → S → Option Error × S
  pub save_commit_index : ℕ → S → Option Error × S

-- A completion, with the error of its batch, and the failure that a writer keeps.
abbrev pub completion : Option Error → WriteOp → WriteDone
completion error op = record {
  seq = op.seq;
  kind = op.kind;
  durable_after = op.durable_after;
  error = error;
}

abbrev pub first_failure : Option Error → Option Error → Option Error
first_failure (some e) error = some e
first_failure none error = error

-- A call, and behind it another one, unless the first failed.
abbrev pub then_run : {S : Type 0} → Option Error × S → (S → Option Error × S) → Option Error × S
then_run (some e, s) f = (some e, s)
then_run (none, s) f = f s

module _ {S : Type 0} (store : Store S) where
  -- The call for a run of appends, which is none where there are no entries.
  unfoldable pub append_run : List LogEntry → S → Option Error × S
  append_run [] s = (none, s)
  append_run (e ∷ es) s = store.append_log_entries (e ∷ es) s

  unfoldable pub joined : List WriteOp → List LogEntry
  joined [] = []
  joined (op ∷ ops) = op.entries ++ joined ops

  -- The switch of `run`, for an operation by itself.
  unfoldable pub run_one : (records_commits : Bool) → WriteOp → S → Option Error × S
  unfolding append_run
  run_one records_commits op s = elim op.kind [
    | WriteKind.append ↦ append_run op.entries s
    | WriteKind.truncate_suffix ↦ store.truncate_suffix op.index s
    | WriteKind.truncate_prefix ↦ store.truncate_prefix op.index s
    | WriteKind.hard_state ↦ store.save_hard_state op.hs s
    | WriteKind.commit_index ↦
        if records_commits then store.save_commit_index op.index s else (none, s)
  ]

  -- `run` on a batch that `take` gave, while nothing has failed.
  unfoldable pub run_batch : (records_commits : Bool) → List WriteOp → S → Option Error × S
  unfolding run_one joined append_run
  run_batch records_commits [] s = (none, s)
  run_batch records_commits (op ∷ []) s = run_one records_commits op s
  run_batch records_commits (op ∷ next ∷ ops) s =
      if is_hard_state op
      then store.save_state op.hs (joined (next ∷ ops)) s
      else append_run (joined (op ∷ next ∷ ops)) s

  -- `run`: after a failure nothing is written.
  unfoldable pub run : StorageWriter → List WriteOp → S → Option Error × S
  unfolding run_batch
  run w batch s = elim w.failed [
    | some e ↦ (some e, s)
    | none ↦ run_batch w.records_commits batch s
  ]

  -- `execute`
  unfoldable pub execute : List WriteOp → StorageWriter → S → StorageWriter × S
  unfolding run
  execute batch w s =
      let ran = run w batch s in
      (
        record w {
          failed = first_failure w.failed ran.0;
          done = w.done ++ map (completion ran.0) batch;
        },
        ran.1,
      )

  -- One turn of `loop`, and `rounds` of them.
  unfoldable pub work_off : StorageWriter → S → StorageWriter × S
  unfolding execute take_run
  work_off w s =
      let taken = take_run w w.queue in
      elim taken.0 [ [] ↦ (w, s) | op ∷ ops ↦ execute (op ∷ ops) (record w { queue = taken.1 }) s ]

  unfoldable pub loop : ℕ → StorageWriter → S → StorageWriter × S
  unfolding work_off
  loop zero w s = (w, s)
  loop (suc rounds) w s = let after = work_off w s in loop rounds after.0 after.1

  -- The operations one after another, as they were queued, up to the first that fails.
  unfoldable pub run_each : (records_commits : Bool) → List WriteOp → S → Option Error × S
  unfolding run_one
  run_each records_commits [] s = (none, s)
  run_each records_commits (op ∷ ops) s =
      then_run (run_one records_commits op s) (λ t. run_each records_commits ops t)
