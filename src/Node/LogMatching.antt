-- ===== src/Node/LogMatching.antt =====
-- Log matching for `handleAppendEntries`: what a leader and a follower that accepts agree on.
use raft.Prelude.{◌+◌, ◌≤◌, ◌<◌, true, false, ◌≡◌, List, length, u64_mod, subst, arith}
use raft.Types.{LogEntry}
use raft.RaftLog.History.{Chained}
use raft.RaftLog.Models.{Models}
use raft.RaftLog.Merge.{merge}
use raft.RaftLog.Agree.{Sent, AgreeBelow, merge-AgreeBelow}
use raft.Node.State.{Node, AppendRequest, Channel}
use raft.Node.Replicate.{Disk}
use raft.Node.ConfigApply.{rebuild_batch}
use raft.Node.Append.{prev_matches, backlog_is_full, kept_entries, handle_append_entries}
use raft.Node.RebuildReads.{Reads}
use raft.Node.AppendLog.{NamesPrev, kept_entries-Chained, handle_append_entries-Merged}

-- A follower that has the leader's log up to what precedes the entries, and accepts the entries, has
-- the leader's log as far as the entries go, whatever it held there before: the terms agree at every
-- index. The entries lie above the snapshot, the storage returns the ranges of what the log knows to
-- be written (of others it may return an error), and the indices fit in 64 bits.
pub handle_append_entries-AgreeBelow :
    (disk : Disk) (req : AppendRequest) (ch : Channel) (n : Node)
    (log written leader : List LogEntry)
    → Models n.log log written
    → Reads disk written
    → n.log.first ≤ n.log.snap_meta.last_included_index + 1
    → n.current_term ≤ req.term
    → NamesPrev req
    → prev_matches req n ≡ true
    → backlog_is_full req n ≡ false
    → n.log.snap_meta.last_included_index ≤ req.prev_log_index
    → Sent leader (req.prev_log_index + 1) (kept_entries req n)
    → Chained (req.prev_log_index + 1) req.entries
    → req.prev_log_index + 1 + length req.entries + rebuild_batch < u64_mod
    → AgreeBelow (req.prev_log_index + 1) log leader
    → (after written' : List LogEntry) × Models
        (handle_append_entries disk req ch n).log
        after
        written'
      × AgreeBelow (req.prev_log_index + 1 + length req.entries) after leader
handle_append_entries-AgreeBelow disk req ch n log written leader m reads base current names matches
      free above sent c room agree =
    let merged =
      handle_append_entries-Merged disk req ch n log written m reads base current names matches free
        above c room in
    let same = (kept_entries-Chained (req.prev_log_index + 1) req n c).1 in
    (
      merge (kept_entries req n) log,
      merged.0.0,
      merged.0.1,
      subst (λ k. AgreeBelow (req.prev_log_index + 1 + k) (merge (kept_entries req n) log) leader)
          same
          (merge-AgreeBelow leader log n.log.first (req.prev_log_index + 1) (kept_entries req n)
            m.chained (omega (arith, base, above)) sent agree),
    )
