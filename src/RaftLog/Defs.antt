-- ===== src/RaftLog/Defs.antt =====
-- raft_log.go: the log overlay and its operations. Storage calls are operations handed to the
-- writer; contexts and logging are not modelled.
use raft.Prelude.{
  ℕ, ◌+◌, leb, ltb, ◌==◌, not, ◌&&◌, ◌||◌, if◌then◌else◌, Bool, true, false, add64, sub64, Option,
  none, some, List, [], ◌∷◌, ◌++◌,
}
use raft.Types.{
  LogEntry, HardState, SnapshotMeta, not_in_log, range_not_in_log, Result, ok, err, ◌>>=◌,
}
use raft.StorageWriter.Queue.{WriteKind, WriteDone, StorageWriter, enqueue}
use raft.RaftLog.Runs.{
  TermRun, extend_runs, run_for, last_of_term, truncate_runs_from, truncate_runs_below,
}
use raft.RaftLog.Segments.{
  UnstableSeg, command_bytes, last_entry, unstable_first, unstable_slice, drop_unstable_from,
  drop_unstable_below, release_written, covering_seq,
}

-- `raftLog`, less what the snapshot recorded for `Node.New`.
pub record RaftLog : Type 0 where
  pub w : StorageWriter
  pub snap_meta : SnapshotMeta
  pub first : ℕ
  pub last : ℕ
  pub last_term : ℕ
  pub segs : List UnstableSeg
  pub unstable_bytes : ℕ
  pub runs : List TermRun
  pub durable : ℕ
  pub queued_durable : ℕ
  pub next_seq : ℕ

-- `lastLogIndex`
unfoldable pub last_log_index : RaftLog → ℕ
last_log_index rl = if ltb 0 rl.last then rl.last else rl.snap_meta.last_included_index

-- `stableIndex`, with the three limits as they are applied.
unfoldable pub cap_unstable : ℕ → ℕ → ℕ
cap_unstable us d = if not (us == 0) && leb us d then sub64 us 1 else d

unfoldable pub stable_index : RaftLog → ℕ
unfolding last_log_index cap_unstable
stable_index rl =
    let snap = rl.snap_meta.last_included_index in
    let raised = if ltb rl.durable snap then snap else rl.durable in
    let capped = cap_unstable (unstable_first rl.segs) raised in
    if ltb (last_log_index rl) capped then last_log_index rl else capped

-- `writeSeqCovering`
unfoldable pub write_seq_covering : RaftLog → ℕ → ℕ
write_seq_covering rl index =
    if index == 0 || leb index (stable_index rl) then 0 else covering_seq index rl.segs rl.next_seq

-- `stabilize`
unfoldable pub stabilize : RaftLog → WriteDone → RaftLog
stabilize rl d = elim d.error [
  | some e ↦ rl
  | none ↦
      let kept = release_written d.seq rl.segs rl.unstable_bytes in
      record rl { durable = d.durable_after; segs = kept.0; unstable_bytes = kept.1 }
]

abbrev pub no_hard_state : HardState
no_hard_state = record { current_term = 0; voted_for = [] }

-- `nextWriteSeq`, and the hand-over of an operation under the number that it gives.
unfoldable pub queue_op : RaftLog → WriteKind → List LogEntry → ℕ → HardState → ℕ → RaftLog
unfolding enqueue
queue_op rl kind entries index hs durable_after =
    let seq = add64 rl.next_seq 1 in
    record rl {
      next_seq = seq;
      w = enqueue rl.w (record {
        seq = seq;
        kind = kind;
        entries = entries;
        index = index;
        hs = hs;
        durable_after = durable_after;
      });
    }

-- `append`; the copy of the entries is the list itself.
unfoldable pub append : RaftLog → List LogEntry → ℕ × RaftLog
unfolding queue_op
append rl [] = (0, rl)
append rl (e ∷ es) =
    let last = last_entry e es in
    let seq = add64 rl.next_seq 1 in
    let grown = record rl {
      segs = rl.segs ++ record { seq = seq; entries = e ∷ es } ∷ [];
      unstable_bytes = rl.unstable_bytes + command_bytes (e ∷ es);
      first = if rl.first == 0 then e.index else rl.first;
      runs = extend_runs rl.runs (e ∷ es);
      last = last.index;
      last_term = last.term;
      queued_durable = last.index;
    } in
    (seq, queue_op grown WriteKind.append (e ∷ es) 0 no_hard_state last.index)

-- `appendOne`
unfoldable pub append_one : RaftLog → LogEntry → ℕ × RaftLog
unfolding append
append_one rl e = append rl (e ∷ [])

-- `termAt`
abbrev pub run_term : ℕ → Option TermRun → Result ℕ
run_term index none = err (not_in_log index)
run_term index (some r) = ok r.term

unfoldable pub term_at : RaftLog → ℕ → Result ℕ
term_at rl index =
    if index == 0
    then ok 0
    else if index == rl.snap_meta.last_included_index
    then ok rl.snap_meta.last_included_term
    else if rl.first == 0 || ltb index rl.first || ltb rl.last index
    then err (not_in_log index)
    else run_term index (run_for rl.runs index)

-- `t, _ := termAt(index)`: an error leaves the zero value.
abbrev pub term_or_zero : Result ℕ → ℕ
term_or_zero (ok t) = t
term_or_zero (err e) = 0

-- `termRunStart`
abbrev pub run_start : Option TermRun → ℕ
run_start none = 0
run_start (some r) = r.start

unfoldable pub term_run_start : RaftLog → ℕ → ℕ
term_run_start rl index = if ltb rl.last index then 0 else run_start (run_for rl.runs index)

-- `lastIndexOfTerm`; `none` is the answer `0, false`.
unfoldable pub last_index_of_term : RaftLog → ℕ → Option ℕ
last_index_of_term rl term = elim (last_of_term rl.runs rl.last term) [
  | some index ↦ some index
  | none ↦
      let snap = rl.snap_meta in
      if rl.first == 0 && not (snap.last_included_index == 0) && snap.last_included_term == term
      then some snap.last_included_index
      else none
]

-- `canDescribe`
unfoldable pub can_describe : RaftLog → ℕ → Bool
can_describe rl index =
    if index == rl.snap_meta.last_included_index
    then true
    else if index == 0
    then rl.first == 1 || rl.first == 0 && rl.snap_meta.last_included_index == 0
    else not (rl.first == 0) && leb rl.first index && leb index rl.last

-- `isUpToDate`
unfoldable pub is_up_to_date : RaftLog → ℕ → ℕ → Bool
unfolding last_log_index
is_up_to_date rl candidate_last_index candidate_last_term =
    if candidate_last_term == rl.last_term
    then leb (last_log_index rl) candidate_last_index
    else ltb rl.last_term candidate_last_term

-- `entries`; what `GetLogEntries` returns for a range is a parameter.
unfoldable pub entries : (ℕ → ℕ → Result (List LogEntry)) → RaftLog → ℕ → ℕ → Result (List LogEntry)
entries get_log_entries rl lo hi' =
    let hi = if ltb (add64 rl.last 1) hi' then add64 rl.last 1 else hi' in
    let us = unstable_first rl.segs in
    let storage_hi = if not (us == 0) && ltb us hi then us else hi in
    if leb hi lo
    then ok []
    else if rl.first == 0 || ltb lo rl.first
    then err (range_not_in_log lo hi)
    else if not (us == 0) && leb us lo
    then ok (unstable_slice rl.segs lo hi)
    else elim (get_log_entries lo storage_hi) [
      | err e ↦ err e
      | ok out ↦
          if ltb storage_hi hi then ok (out ++ unstable_slice rl.segs storage_hi hi) else ok out
    ]

-- The term that the log ends in once `truncateSuffix` has removed everything from `from` on.
unfoldable pub new_last_term : RaftLog → ℕ → Result ℕ
new_last_term rl from =
    if ltb rl.first from && ltb 0 (sub64 from 1)
    then term_at rl (sub64 from 1)
    else ok rl.snap_meta.last_included_term

abbrev pub lower_queued : ℕ → ℕ → ℕ
lower_queued from queued = if ltb 0 from && ltb (sub64 from 1) queued then sub64 from 1 else queued

-- The log of `truncateSuffix` once the operation has been handed over.
unfoldable pub cut_suffix : RaftLog → ℕ → RaftLog
unfolding queue_op
cut_suffix rl from =
    let kept = drop_unstable_from from rl.segs rl.unstable_bytes in
    let queued = lower_queued from rl.queued_durable in
    let cut = record rl {
      runs = truncate_runs_from from rl.runs;
      segs = kept.0;
      unstable_bytes = kept.1;
      queued_durable = queued;
    } in
    queue_op cut WriteKind.truncate_suffix [] from no_hard_state queued

-- `truncateSuffix`
unfoldable pub truncate_suffix : RaftLog → ℕ → Result RaftLog
unfolding new_last_term cut_suffix
truncate_suffix rl from = do
  term ← new_last_term rl from
  let cut = cut_suffix rl from
  let emptied = record cut {
    first = 0;
    last = 0;
    last_term = rl.snap_meta.last_included_term;
    runs = [];
  }
  let shortened = record cut { last = sub64 from 1; last_term = term }
  ok (if leb from rl.first then emptied else shortened)

-- The log of `truncatePrefix` once the operation has been handed over.
unfoldable pub cut_prefix : RaftLog → ℕ → RaftLog
unfolding queue_op
cut_prefix rl to =
    let kept = drop_unstable_below to rl.segs rl.unstable_bytes in
    let queued =
      if ltb rl.last to && ltb 0 to && ltb (sub64 to 1) rl.queued_durable
      then sub64 to 1
      else rl.queued_durable in
    let cut = record rl { segs = kept.0; unstable_bytes = kept.1; queued_durable = queued } in
    queue_op cut WriteKind.truncate_prefix [] to no_hard_state queued

-- `truncatePrefix`
unfoldable pub truncate_prefix : RaftLog → ℕ → RaftLog
unfolding cut_prefix
truncate_prefix rl to =
    if not (rl.first == 0) && leb to rl.first
    then rl
    else if ltb rl.last to
    then record (cut_prefix rl to) {
      first = 0;
      last = 0;
      last_term = rl.snap_meta.last_included_term;
      runs = [];
    }
    else record (cut_prefix rl to) { runs = truncate_runs_below to rl.runs; first = to }

-- The end of `installSnapshot`: the boundary, and the end of a log of which nothing survived.
unfoldable pub set_base : SnapshotMeta → RaftLog → RaftLog
set_base snap rl =
    let based = record rl { snap_meta = snap } in
    if rl.last == 0
    then record based { first = 0; last_term = snap.last_included_term; runs = [] }
    else based

-- Whether the log agrees with a snapshot at its boundary.
unfoldable pub agrees_with : RaftLog → SnapshotMeta → Bool
agrees_with rl snap = elim (term_at rl snap.last_included_index) [
  | err e ↦ false
  | ok t ↦ t == snap.last_included_term
]

-- `installSnapshot`
unfoldable pub install_snapshot : RaftLog → SnapshotMeta → Result RaftLog
unfolding set_base agrees_with
install_snapshot rl snap =
    if agrees_with rl snap
    then ok (set_base snap (truncate_prefix rl (add64 snap.last_included_index 1)))
    else if rl.first == 0
    then ok (set_base snap rl)
    else (do cut ← truncate_suffix rl rl.first; ok (set_base snap cut))
