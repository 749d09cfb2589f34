-- ===== src/RaftLog/Models.antt =====
-- What it means that the state of raft_log.go stands for a log, and what the operations do to it.
use raft.Prelude.{ℕ, ◌+◌, ◌≤◌, ◌<◌, ◌≡◌, u64_mod, some, List, [], ◌∷◌, ◌++◌, length}
use raft.Types.{LogEntry}
use raft.RaftLog.History.{Chained, term_in}
use raft.RaftLog.Runs.{extend_runs}
use raft.RaftLog.Segments.{command_bytes, last_entry}
use raft.RaftLog.Unstable.{flat, Filled}
use raft.RaftLog.Defs.{RaftLog}

-- `first` and `last` are the ends of the log, 0 and 0 where it is empty, and `last_term` is the term
-- it ends in, that of the snapshot where it is empty. The snapshot reaches no further than the log.
abbrev pub Ends : RaftLog → List LogEntry → Type 0
Ends rl [] = (rl.first ≡ 0) × (rl.last ≡ 0) × (rl.last_term ≡ rl.snap_meta.last_included_term)
Ends rl (e ∷ es) =
    (0 < rl.first)
    × (rl.first + length es ≡ rl.last)
    × (rl.last_term ≡ (last_entry e es).term)
    × (rl.snap_meta.last_included_index ≤ rl.last)

-- The log agrees with the snapshot at its boundary, and the indices leave room for one more.
-- The state stands for the log `log`, of which `written` are no longer held in memory.
pub record Models (rl : RaftLog) (log written : List LogEntry) : Type 0 where
  pub ends : Ends rl log
  pub chained : Chained rl.first log
  pub run_index : rl.runs ≡ extend_runs [] log
  pub held : written ++ flat rl.segs ≡ log
  pub boundary :
      (t : ℕ)
      → term_in log rl.snap_meta.last_included_index ≡ some t
      → t ≡ rl.snap_meta.last_included_term
  pub filled : Filled rl.segs
  pub bytes : rl.unstable_bytes ≡ command_bytes (flat rl.segs)
  pub fits : rl.last + 1 < u64_mod
  pub snap_fits : rl.snap_meta.last_included_index + 1 < u64_mod
