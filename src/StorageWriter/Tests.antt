-- ===== src/StorageWriter/Tests.antt =====
-- A storage in memory, and a queue that is coalesced into one call for a hard state and two appends.
use raft.Prelude.{ℕ, ◌≡◌, refl, sym, ap, true, false, none, List, [], ◌∷◌, ◌++◌, arith, Option}
use mathlib.Core.List.{append_assoc, append-nil}
use raft.Types.{LogEntry, HardState, Error}
use raft.StorageWriter.Queue.{WriteKind, WriteOp, StorageWriter}
use raft.StorageWriter.Execute.{Store, append_run, loop}
use raft.StorageWriter.InOrder.{InOrder}
use raft.StorageWriter.Drain.{Drained, loop-Drained}

record Memory : Type 0 where
  hs : HardState
  entries : List LogEntry
  commit : ℕ

abbrev memory : Store Memory
memory = record {
  save_hard_state = λ hs s. (none, record s { hs = hs });
  append_log_entries = λ es s. (none, record s { entries = s.entries ++ es });
  truncate_suffix = λ from s. (none, record s { entries = [] });
  truncate_prefix = λ to s. (none, record s { entries = [] });
  save_state = λ hs es s. (none, record s { hs = hs; entries = s.entries ++ es });
  save_commit_index = λ index s. (none, record s { commit = index });
}

memory-both :
    (hs : HardState) (es : List LogEntry) (s : Memory)
    → ◌≡◌ {A = Option Error × Memory}
        (none, record s { hs = hs; entries = s.entries ++ es })
        (append_run memory es (record s { hs = hs }))
unfolding append_run
memory-both hs [] s = ap (λ l. (none, record s { hs = hs; entries = l })) (append-nil s.entries)
memory-both hs (e ∷ es) s = refl

memory-InOrder : InOrder memory
memory-InOrder = record {
  appends = λ xs ys s p q h.
      ap (λ l. (none, record s { entries = l })) (sym (append_assoc s.entries xs ys));
  both = λ hs es s h. memory-both hs es s;
}

abbrev entry : ℕ → LogEntry
entry index = record { index = index; term = 3; command = [] }

abbrev op : ℕ → WriteKind → List LogEntry → WriteOp
op seq kind entries = record {
  seq = seq;
  kind = kind;
  entries = entries;
  index = 0;
  hs = record { current_term = 3; voted_for = [] };
  durable_after = 5;
}

abbrev writer : StorageWriter
writer = record {
  batches = true;
  records_commits = false;
  max_batch_entries = 64;
  queue =
      op 1 WriteKind.hard_state []
      ∷ op 2 WriteKind.append (entry 5 ∷ [])
      ∷ op 3 WriteKind.append (entry 6 ∷ [])
      ∷ op 4 WriteKind.commit_index []
      ∷ [];
  done = [];
  failed = none;
  closed = false;
}

abbrev blank : Memory
blank = record { hs = record { current_term = 0; voted_for = [] }; entries = []; commit = 0 }

loop-Drained_example : Drained memory memory-InOrder writer blank (loop memory 4 writer blank)
loop-Drained_example = loop-Drained memory memory-InOrder 4 writer blank (omega arith)
