-- ===== src/MemStore/Defs.antt =====
-- The operations of `MemStore`. The copies that are made on the way in and out are the values
-- themselves, and the lock makes each operation one step. Reading the data of a snapshot from its
-- reader, which may fail, is the caller's.
use raft.Prelude.{
  ℕ, ◌-◌, ltb, leb, ◌==◌, ◌||◌, if◌then◌else◌, Option, none, some, List, [], ◌∷◌, ◌++◌, take, drop,
  get_elem?, add64,
}
use raft.Types.{
  LogEntry, HardState, SnapshotMeta, Error, Result, ok, err, not_found, range_not_found, compacted,
  no_snapshot,
}
use raft.RaftLog.Segments.{last_entry}

-- `MemStore`; `hasSnap` says whether there is a snapshot.
pub record MemStore : Type 0 where
  pub hs : HardState
  pub entries : List LogEntry
  pub snap : Option (SnapshotMeta × List ℕ)
  pub commit_index : ℕ

-- `New`
unfoldable pub new_store : MemStore
new_store = record {
  hs = record { current_term = 0; voted_for = [] };
  entries = [];
  snap = none;
  commit_index = 0;
}

-- `SaveHardState` and `LoadHardState`
unfoldable pub save_hard_state : HardState → MemStore → MemStore
save_hard_state hs m = record m { hs = hs }

unfoldable pub load_hard_state : MemStore → HardState
load_hard_state m = m.hs

-- `SaveCommitIndex` and `LoadCommitIndex`
unfoldable pub save_commit_index : ℕ → MemStore → MemStore
save_commit_index index m =
    if ltb m.commit_index index then record m { commit_index = index } else m

unfoldable pub load_commit_index : MemStore → ℕ
load_commit_index m = m.commit_index

-- `AppendLogEntries`
unfoldable pub append_log_entries : List LogEntry → MemStore → MemStore
append_log_entries es m = record m { entries = m.entries ++ es }

-- `GetLogEntry`; an index inside the bounds that the list lacks would be a panic.
unfoldable pub get_log_entry : ℕ → MemStore → Result LogEntry
get_log_entry index m = elim m.entries [
  | [] ↦ err (not_found index)
  | e ∷ es ↦
      if ltb index e.index || ltb (last_entry e es).index index
      then err (not_found index)
      else elim (get_elem? (e ∷ es) (index - e.index)) [
        | none ↦ err (not_found index)
        | some found ↦ ok found
      ]
]

-- `GetLogEntries`
unfoldable pub get_log_entries : ℕ → ℕ → MemStore → Result (List LogEntry)
get_log_entries lo hi m = if leb hi lo then ok [] else elim m.entries [
  | [] ↦ err (range_not_found lo hi)
  | e ∷ es ↦
      if ltb lo e.index || ltb (add64 (last_entry e es).index 1) hi
      then err (range_not_found lo hi)
      else ok (take (hi - lo) (drop (lo - e.index) (e ∷ es)))
]

-- `FirstIndex` and `LastIndex`
unfoldable pub first_index : MemStore → ℕ
first_index m = elim m.entries [ [] ↦ 0 | e ∷ es ↦ e.index ]

unfoldable pub last_index : MemStore → ℕ
last_index m = elim m.entries [ [] ↦ 0 | e ∷ es ↦ (last_entry e es).index ]

-- `TruncateSuffix`
unfoldable pub truncate_suffix : ℕ → MemStore → Option Error × MemStore
truncate_suffix from m = elim m.entries [
  | [] ↦ (none, m)
  | e ∷ es ↦
      if ltb from e.index
      then (some (compacted from), m)
      else if from == e.index
      then (none, record m { entries = [] })
      else if ltb (last_entry e es).index from
      then (none, m)
      else (none, record m { entries = take (from - e.index) (e ∷ es) })
]

-- `TruncatePrefix`
unfoldable pub truncate_prefix : ℕ → MemStore → MemStore
truncate_prefix to m = elim m.entries [
  | [] ↦ m
  | e ∷ es ↦
      if leb to e.index
      then m
      else if ltb (last_entry e es).index to
      then record m { entries = [] }
      else record m { entries = drop (to - e.index) (e ∷ es) }
]

-- `SaveSnapshot` and `LoadSnapshot`
unfoldable pub save_snapshot : SnapshotMeta → List ℕ → MemStore → MemStore
save_snapshot meta bytes m = record m { snap = some (meta, bytes) }

unfoldable pub load_snapshot : MemStore → Result (SnapshotMeta × List ℕ)
load_snapshot m = elim m.snap [ none ↦ err no_snapshot | some snap ↦ ok snap ]
