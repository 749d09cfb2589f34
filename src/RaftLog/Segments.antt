-- ===== src/RaftLog/Segments.antt =====
-- The in-memory region of raft_log.go: entries that are in the log and not yet known to be on
-- stable storage, one segment for each queued append, oldest first.
use raft.Prelude.{
  ℕ, ◌+◌, ◌-◌, leb, ltb, min, max, ◌&&◌, if◌then◌else◌, add64, List, [], ◌∷◌, ◌++◌, length, take,
  drop,
}
use raft.Types.{LogEntry}

-- `unstableSeg`
pub record UnstableSeg : Type 0 where
  pub seq : ℕ
  pub entries : List LogEntry

-- `commandBytes`
unfoldable pub command_bytes : List LogEntry → ℕ
command_bytes [] = 0
command_bytes (e ∷ es) = length e.command + command_bytes es

-- `es[len(es)-1]` of a slice with the head `e`
abbrev pub last_entry : LogEntry → List LogEntry → LogEntry
last_entry e [] = e
last_entry e (x ∷ xs) = last_entry x xs

-- `unstableFirst`
unfoldable pub unstable_first : List UnstableSeg → ℕ
unstable_first [] = 0
unstable_first (s ∷ ss) = elim s.entries [ [] ↦ unstable_first ss | e ∷ es ↦ e.index ]

-- The loop of `unstableSlice`. The bounds that it slices by lie in the segment, so the
-- differences are exact.
unfoldable pub unstable_slice : List UnstableSeg → ℕ → ℕ → List LogEntry
unstable_slice [] lo hi = []
unstable_slice (s ∷ ss) lo hi = elim s.entries [
  | [] ↦ unstable_slice ss lo hi
  | e ∷ es ↦
      let last = (last_entry e es).index in
      let rest = unstable_slice ss lo hi in
      let from = max lo e.index in
      let to = min hi (add64 last 1) in
      if ltb last lo
      then rest
      else if leb hi e.index
      then []
      else take (to - from) (drop (from - e.index) (e ∷ es)) ++ rest
]

-- The last segment in `dropUnstableFrom`: dropped, trimmed or left, with the bytes that remain.
unfoldable pub trim_last : ℕ → UnstableSeg → ℕ → List UnstableSeg × ℕ
trim_last from s bytes = elim s.entries [
  | [] ↦ ([], bytes - command_bytes s.entries)
  | e ∷ es ↦
      let keep = from - e.index in
      if leb from e.index
      then ([], bytes - command_bytes (e ∷ es))
      else if leb from (last_entry e es).index
      then (
        record { seq = s.seq; entries = take keep (e ∷ es) } ∷ [],
        bytes - command_bytes (drop keep (e ∷ es)),
      )
      else (s ∷ [], bytes)
]

abbrev pub keep_older : ℕ → UnstableSeg → List UnstableSeg × ℕ → List UnstableSeg × ℕ
keep_older from s ([], bytes) = trim_last from s bytes
keep_older from s (t ∷ ts, bytes) = (s ∷ t ∷ ts, bytes)

-- `dropUnstableFrom`: the loop runs from the end while it drops whole segments.
unfoldable pub drop_unstable_from : ℕ → List UnstableSeg → ℕ → List UnstableSeg × ℕ
unfolding trim_last
drop_unstable_from from [] bytes = ([], bytes)
drop_unstable_from from (s ∷ ss) bytes = keep_older from s (drop_unstable_from from ss bytes)

-- `dropUnstableBelow`
unfoldable pub drop_unstable_below : ℕ → List UnstableSeg → ℕ → List UnstableSeg × ℕ
drop_unstable_below upto [] bytes = ([], bytes)
drop_unstable_below upto (s ∷ ss) bytes = elim s.entries [
  | [] ↦ drop_unstable_below upto ss bytes
  | e ∷ es ↦
      let gone = upto - e.index in
      let rest = drop_unstable_below upto ss (bytes - command_bytes (e ∷ es)) in
      if ltb (last_entry e es).index upto
      then rest
      else if ltb e.index upto
      then (
        record { seq = s.seq; entries = drop gone (e ∷ es) } ∷ ss,
        bytes - command_bytes (take gone (e ∷ es)),
      )
      else (s ∷ ss, bytes)
]

-- The loop of `stabilize`: segments whose write has landed are released.
unfoldable pub release_written : ℕ → List UnstableSeg → ℕ → List UnstableSeg × ℕ
release_written seq [] bytes = ([], bytes)
release_written seq (s ∷ ss) bytes =
    let rest = release_written seq ss (bytes - command_bytes s.entries) in
    if leb s.seq seq then rest else (s ∷ ss, bytes)

-- The loop of `writeSeqCovering`; `otherwise` is returned where no segment holds the index.
unfoldable pub covering_seq : ℕ → List UnstableSeg → ℕ → ℕ
covering_seq index [] otherwise = otherwise
covering_seq index (s ∷ ss) otherwise = elim s.entries [
  | [] ↦ covering_seq index ss otherwise
  | e ∷ es ↦
      if leb e.index index && leb index (last_entry e es).index
      then s.seq
      else covering_seq index ss otherwise
]
