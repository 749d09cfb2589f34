-- ===== src/RaftLog/Tests.antt =====
-- Concrete logs for the theorems on raft_log.go.
use raft.Prelude.{
  All, ◌≤◌, ℕ, ◌+◌, ◌<◌, ◌≡◌, refl, true, false, inr, none, List, [], ◌∷◌, ◌++◌, ◌==◌,
  if◌then◌else◌, u64_mod, arith, length,
}
use raft.Types.{LogEntry, SnapshotMeta, ok}
use raft.StorageWriter.Queue.{StorageWriter, WriteDone, WriteKind}
use raft.RaftLog.Defs.{
  RaftLog, last_log_index, last_index_of_term, stable_index, append, term_at, truncate_suffix,
  truncate_prefix, install_snapshot, stabilize,
}
use raft.RaftLog.Runs.{extend_runs}
use raft.RaftLog.Segments.{command_bytes}
use raft.RaftLog.History.{Chained, term_in, answer, below, from_on}
use raft.RaftLog.Release.{released}
use raft.RaftLog.Models.{Models}
use raft.RaftLog.Unstable.{flat}
use raft.RaftLog.Stable.{stable_index-held}
use raft.RaftLog.LastOfTerm.{LastIn, last_index_of_term-LastIn}
use raft.RaftLog.Terms.{term_at-answer}
use raft.RaftLog.Append.{append-Models}
use raft.RaftLog.Truncate.{Cuttable, truncate_suffix-Models}
use raft.RaftLog.Prefix.{truncate_prefix-Models}
use raft.RaftLog.Install.{surviving, install_snapshot-Models, stabilize-Models}

abbrev idle_writer : StorageWriter
idle_writer = record {
  batches = true;
  records_commits = true;
  max_batch_entries = 64;
  queue = [];
  done = [];
  failed = none;
  closed = false;
}

-- A log that begins behind a snapshot of index 4 in term 2.
abbrev fresh : RaftLog
fresh = record {
  w = idle_writer;
  snap_meta = record { last_included_index = 4; last_included_term = 2 };
  first = 0;
  last = 0;
  last_term = 2;
  segs = [];
  unstable_bytes = 0;
  runs = [];
  durable = 4;
  queued_durable = 4;
  next_seq = 9;
}

abbrev entry : ℕ → ℕ → LogEntry
entry index term = record { index = index; term = term; command = 7 ∷ [] }

abbrev later : List LogEntry
later = entry 6 3 ∷ entry 7 4 ∷ []

abbrev three : List LogEntry
three = entry 5 2 ∷ later

fresh-Models : Models fresh [] []
unfolding extend_runs command_bytes
fresh-Models = record {
  ends = (refl, refl, refl);
  chained = tt;
  run_index = refl;
  held = refl;
  boundary = λ t q. cc;
  filled = tt;
  bytes = refl;
  fits = omega arith;
  snap_fits = omega arith;
}

three-Chained : Chained (last_log_index fresh + 1) three
unfolding last_log_index
three-Chained = (refl, (refl, (refl, tt)))

three-fit : last_log_index fresh + length three + 1 < u64_mod
unfolding last_log_index
three-fit = omega arith

abbrev grown : RaftLog
grown = (append fresh three).1

grown-Models : Models grown three []
grown-Models = append-Models fresh [] [] (entry 5 2) later fresh-Models three-Chained three-fit

append-Models_example : Models (append fresh three).1 ([] ++ three) []
append-Models_example =
    append-Models fresh [] [] (entry 5 2) later fresh-Models three-Chained three-fit

term_at-answer_example : term_at grown 6 ≡ (
    if 6 == 0
    then ok 0
    else if 6 == grown.snap_meta.last_included_index
    then ok grown.snap_meta.last_included_term
    else answer 6 (term_in three 6))
term_at-answer_example = term_at-answer grown three [] 6 grown-Models

grown-Cuttable : Cuttable grown 6
unfolding append last_log_index
grown-Cuttable = inr (omega arith, omega arith, omega arith)

truncate_suffix-Models_example :
    (r : RaftLog) × (truncate_suffix grown 6 ≡ ok r) × Models r (below 6 three) (below 6 [])
truncate_suffix-Models_example = truncate_suffix-Models grown three [] 6 grown-Models grown-Cuttable

truncate_prefix-Models_example : Models (truncate_prefix grown 6) (from_on 6 three) (from_on 6 [])
truncate_prefix-Models_example = truncate_prefix-Models grown three [] 6 grown-Models (omega arith)

abbrev newer : SnapshotMeta
newer = record { last_included_index = 6; last_included_term = 3 }

install_snapshot-Models_example :
    (r : RaftLog) × (install_snapshot grown newer ≡ ok r)
    × (r.snap_meta ≡ newer)
    × ((w : List LogEntry) × Models r (surviving grown.snap_meta newer three) w)
install_snapshot-Models_example =
    install_snapshot-Models grown newer three [] grown-Models (omega arith)

abbrev landed : WriteDone
landed = record { seq = 10; kind = WriteKind.append; durable_after = 7; error = none }

stabilize-Models_example : Models (stabilize grown landed) three ([] ++ released 10 grown.segs)
stabilize-Models_example = stabilize-Models grown landed three [] grown-Models refl

stable_index-held_example :
    (stable_index grown ≤ last_log_index grown)
    × All (λ e. stable_index grown < e.index) (flat grown.segs)
stable_index-held_example = stable_index-held grown three [] grown-Models

last_index_of_term-LastIn_example : LastIn three 3 (last_index_of_term grown 3)
last_index_of_term-LastIn_example =
    last_index_of_term-LastIn grown (entry 5 2) later [] 3 grown-Models
