-- ===== src/RaftLog/Runs.antt =====
-- The run index of raft_log.go: where each term begins. The list holds the newest run first, so
-- that the source's scans from the end are recursions from the head.
use raft.Prelude.{ℕ, leb, ◌==◌, if◌then◌else◌, sub64, Option, none, some, List, [], ◌∷◌}
use raft.Types.{LogEntry}

-- `termRun`
pub record TermRun : Type 0 where
  pub start : ℕ
  pub term : ℕ

-- The body of the loop of `extendRuns`.
unfoldable pub note_term : List TermRun → LogEntry → List TermRun
note_term [] e = record { start = e.index; term = e.term } ∷ []
note_term (r ∷ rs) e =
    if r.term == e.term then r ∷ rs else record { start = e.index; term = e.term } ∷ r ∷ rs

-- `extendRuns`
unfoldable pub extend_runs : List TermRun → List LogEntry → List TermRun
extend_runs rs [] = rs
extend_runs rs (e ∷ es) = extend_runs (note_term rs e) es

-- `runIndexFor`: the run that covers an index, in place of its position.
unfoldable pub run_for : List TermRun → ℕ → Option TermRun
run_for [] index = none
run_for (r ∷ rs) index = if leb r.start index then some r else run_for rs index

-- The scan of `lastIndexOfTerm`; `last` is where the newest run of the list ends.
unfoldable pub last_of_term : List TermRun → (last : ℕ) → (term : ℕ) → Option ℕ
last_of_term [] last term = none
last_of_term (r ∷ rs) last term =
    if r.term == term then some last else last_of_term rs (sub64 r.start 1) term

-- `truncateRunsFrom`
unfoldable pub truncate_runs_from : ℕ → List TermRun → List TermRun
truncate_runs_from from [] = []
truncate_runs_from from (r ∷ rs) = if leb from r.start then truncate_runs_from from rs else r ∷ rs

-- `truncateRunsBelow`: the newer runs stay, and the one that spans `to` starts there now. Where no
-- run covers `to`, none is kept.
abbrev pub keep_newer : TermRun → List TermRun → List TermRun
keep_newer r [] = []
keep_newer r (s ∷ ss) = r ∷ s ∷ ss

unfoldable pub truncate_runs_below : ℕ → List TermRun → List TermRun
truncate_runs_below to [] = []
truncate_runs_below to (r ∷ rs) =
    if leb r.start to
    then record { start = to; term = r.term } ∷ []
    else keep_newer r (truncate_runs_below to rs)
