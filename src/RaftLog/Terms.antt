-- ===== src/RaftLog/Terms.antt =====
-- `termAt`, `termRunStart` and `isUpToDate` of raft_log.go: they read the log and no storage.
use raft.Prelude.{ℕ, ltb, ◌==◌, ◌||◌, if◌then◌else◌, ◌≡◌, List, [], ◌∷◌, arith}
use raft.Types.{LogEntry, not_in_log, ok, err}
use raft.RaftLog.History.{Chained, term_in, answer, term_in_outside, term_in_beyond}
use raft.RaftLog.Runs.{extend_runs, run_for}
use raft.RaftLog.RunIndex.{run_for-extend_runs}
use raft.RaftLog.Defs.{RaftLog, run_term, term_at}
use raft.RaftLog.Models.{Models, Ends}

-- The lookup of `termAt` away from the two fixed positions.
scan-answer :
    (rl : RaftLog) (log : List LogEntry) (i : ℕ)
    → Ends rl log
    → Chained rl.first log
    → rl.runs ≡ extend_runs [] log
    → (if rl.first == 0 || ltb i rl.first || ltb rl.last i
        then err (not_in_log i)
        else run_term i (run_for rl.runs i))
      ≡ answer i (term_in log i)
scan-answer rl [] i h c r = rw h.0
scan-answer rl (e ∷ es) i h c r = ground (
  arith,
  h.0,
  h.1,
  term_in_outside rl.first i (e ∷ es) c,
  term_in_beyond rl.first i (e ∷ es) c,
  r,
  run_for-extend_runs [] rl.first i (e ∷ es) c tt,
)

-- `termAt` answers for every index: 0 before the first entry, the snapshot's term at its boundary,
-- the entry's term where the log has the index, and an error everywhere else.
pub term_at-answer :
    (rl : RaftLog) (log written : List LogEntry) (i : ℕ)
    → Models rl log written
    → term_at rl i ≡ (
        if i == 0
        then ok 0
        else if i == rl.snap_meta.last_included_index
        then ok rl.snap_meta.last_included_term
        else answer i (term_in log i))
unfolding term_at
term_at-answer rl log written i m = rw (scan-answer rl log i m.ends m.chained m.run_index)
