-- ===== src/MemStore/Tests.antt =====
-- A store of three entries behind a snapshot.
use raft.Prelude.{ℕ, ◌≡◌, refl, none, some, [], ◌∷◌, arith, ltb, leb, if◌then◌else◌, ◌&&◌}
use raft.Types.{LogEntry, ok, err, range_not_found, compacted}
use raft.RaftLog.History.{Chained, below, from_on}
use raft.MemStore.Defs.{MemStore, get_log_entries, truncate_suffix}
use raft.MemStore.Log.{get_log_entries-range, truncate_suffix-below}

abbrev entry : ℕ → LogEntry
entry index = record { index = index; term = 2; command = 7 ∷ [] }

abbrev store : MemStore
store = record {
  hs = record { current_term = 2; voted_for = [] };
  entries = entry 5 ∷ entry 6 ∷ entry 7 ∷ [];
  snap = none;
  commit_index = 6;
}

store-Chained : Chained 5 store.entries
store-Chained = (refl, (refl, (refl, tt)))

get_log_entries-range_example : get_log_entries 6 8 store ≡ (
    if leb 8 6
    then ok []
    else if leb 5 6 && leb 8 8
    then ok (below 8 (from_on 6 store.entries))
    else err (range_not_found 6 8))
get_log_entries-range_example = get_log_entries-range store 5 6 8 store-Chained (omega arith)

truncate_suffix-below_example : truncate_suffix 6 store ≡ (
    if ltb 0 3 && ltb 6 5
    then (some (compacted 6), store)
    else (none, record store { entries = below 6 store.entries }))
truncate_suffix-below_example = truncate_suffix-below store 5 6 store-Chained
