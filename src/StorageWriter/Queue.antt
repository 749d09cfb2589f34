-- ===== src/StorageWriter/Queue.antt =====
-- storage_writer.go: the operations that the event loop hands to the writer, its queue, and the
-- runs that it takes from the queue. The goroutine's wake-ups and timings are not modelled.
use raft.Prelude.{
  ℕ, ◌+◌, ltb, Bool, true, false, not, ◌&&◌, ◌||◌, if◌then◌else◌, Option, List, [], ◌∷◌, ◌++◌,
  length,
}
use raft.Types.{LogEntry, HardState, Error}

-- `writeKind`
pub data WriteKind : Type 0 where
  append truncate_suffix truncate_prefix hard_state commit_index : WriteKind

-- `writeOp`: a kind uses only some of the fields.
pub record WriteOp : Type 0 where
  pub seq : ℕ
  pub kind : WriteKind
  pub entries : List LogEntry
  pub index : ℕ
  pub hs : HardState
  pub durable_after : ℕ

-- `writeDone`
pub record WriteDone : Type 0 where
  pub seq : ℕ
  pub kind : WriteKind
  pub durable_after : ℕ
  pub error : Option Error

-- `storageWriter`: the queue and the completions, oldest first. `batches` says that the store is
-- a `BatchWriter` and `records_commits` that it is a `CommitRecorder`.
pub record StorageWriter : Type 0 where
  pub batches : Bool
  pub records_commits : Bool
  pub max_batch_entries : ℕ
  pub queue : List WriteOp
  pub done : List WriteDone
  pub failed : Option Error
  pub closed : Bool

-- `enqueue`: a closed writer drops the operation.
unfoldable pub enqueue : StorageWriter → WriteOp → StorageWriter
enqueue w op = if w.closed then w else record w { queue = w.queue ++ op ∷ [] }

-- `takeDone`
unfoldable pub take_done : StorageWriter → List WriteDone × StorageWriter
take_done w = (w.done, record w { done = [] })

abbrev pub is_append : WriteOp → Bool
is_append op = elim op.kind [ WriteKind.append ↦ true | _ ↦ false ]

abbrev pub is_hard_state : WriteOp → Bool
is_hard_state op = elim op.kind [ WriteKind.hard_state ↦ true | _ ↦ false ]

-- The loop of `take` over the appends at the head of the queue: the run, and what stays queued.
-- `fresh` holds before the first append of the run, which is taken whatever its size.
unfoldable pub take_appends :
    ℕ → (fresh : Bool) → (entries : ℕ) → List WriteOp → List WriteOp × List WriteOp
take_appends cap fresh entries [] = ([], [])
take_appends cap fresh entries (op ∷ ops) =
    let next = entries + length op.entries in
    let rest = take_appends cap false next ops in
    if is_append op && (fresh || not (ltb cap next)) then (op ∷ rest.0, rest.1) else ([], op ∷ ops)

-- `take` on a queue: the next run and the queue behind it. A run is a single operation, a run of
-- appends, or, for a store that can write both at once, a hard state and the appends behind it.
unfoldable pub take_run : StorageWriter → List WriteOp → List WriteOp × List WriteOp
unfolding take_appends
take_run w [] = ([], [])
take_run w (op ∷ []) = (op ∷ [], [])
take_run w (op ∷ next ∷ ops) =
    if w.batches && is_hard_state op && is_append next
    then (let run = take_appends w.max_batch_entries true 0 (next ∷ ops) in (op ∷ run.0, run.1))
    else if is_append op
    then take_appends w.max_batch_entries true 0 (op ∷ next ∷ ops)
    else (op ∷ [], next ∷ ops)
