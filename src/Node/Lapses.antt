-- ===== src/Node/Lapses.antt =====
-- A turn in which a node forgets what it should keep: entries from below the log
-- (`handleAppendEntries`).
use raft.Prelude.{ℕ, ◌<◌, ◌≡◌, ◌≢◌, refl, ap, ◌∙◌, sym, none, some, List, [], ◌∷◌, ◌++◌, arith}
use mathlib.Core.List.{append_assoc, append-nil}
use raft.Types.{LogEntry, not_in_log, ok, err}
use raft.RaftLog.History.{term_in}
use raft.RaftLog.Segments.{UnstableSeg, last_entry}
use raft.RaftLog.Unstable.{flat}
use raft.RaftLog.Defs.{RaftLog, term_at, append, queue_op}
use raft.RaftLog.Models.{Models}
use raft.RaftLog.Terms.{term_at-answer}
use raft.RaftLog.Merge.{held_place}
use raft.Node.State.{Node}
use raft.Node.Replicate.{Disk}
use raft.Node.Append.{store_all, store_entries}

term_at-below :
    (rl : RaftLog) (i : ℕ)
    → 0 < i
    → i < rl.first
    → i ≢ rl.snap_meta.last_included_index
    → term_at rl i ≡ err (not_in_log i)
unfolding term_at
term_at-below rl i positive below off = ground (arith, off)

term_at-above :
    (rl : RaftLog) (i : ℕ)
    → 0 < i
    → rl.last < i
    → i ≢ rl.snap_meta.last_included_index
    → term_at rl i ≡ err (not_in_log i)
unfolding term_at
term_at-above rl i positive above off = ground (arith, off)

flat-grown :
    (segs : List UnstableSeg) (s : UnstableSeg) → flat (segs ++ s ∷ []) ≡ flat segs ++ s.entries
flat-grown [] s = append-nil s.entries
flat-grown (x ∷ xs) s =
    ap (λ es. x.entries ++ es) (flat-grown xs s) ∙ sym (append_assoc x.entries (flat xs) s.entries)

-- Entries that begin below the log, off its snapshot's boundary, are appended all the same: what is
-- written and what is held in memory is then the log, and behind it these entries, although their
-- indices are lower. An entry of the log past their end, whose term termAt knew before, is reported as
-- not in the log then, unless the snapshot's boundary answers for it.
pub store_entries-compacted :
    (disk : Disk) (e : LogEntry) (es : List LogEntry) (n : Node) (log written : List LogEntry)
    (j t : ℕ)
    → Models n.log log written
    → 0 < e.index
    → e.index < n.log.first
    → e.index ≢ n.log.snap_meta.last_included_index
    → term_in log j ≡ some t
    → (last_entry e es).index < j
    → j ≢ n.log.snap_meta.last_included_index
    → ((store_entries disk (e ∷ es) n).error ≡ none)
      × (written ++ flat (store_entries disk (e ∷ es) n).node.log.segs ≡ log ++ e ∷ es)
      × (term_at n.log j ≡ ok t)
      × (term_at (store_entries disk (e ∷ es) n).node.log j ≡ err (not_in_log j))
unfolding store_entries store_all append queue_op
store_entries-compacted disk e es n log written j t m positive below off found past off_boundary =
    let place = held_place n.log log j t m.ends m.chained found in
    let known = term_at-answer n.log log written j m in
    let above : 0 < j = omega (arith, positive, below, place.0) in
    let grown = (append n.log (e ∷ es)).1 in
    rw (term_at-below n.log e.index positive below off, store_entries)
      (
        refl,
        ap (λ h. written ++ h) (flat-grown n.log.segs _)
            ∙ sym (append_assoc written (flat n.log.segs) (e ∷ es))
            ∙ ap (λ h. h ++ e ∷ es) m.held,
        ground (arith, known, found, above, off_boundary),
        term_at-above grown j above past off_boundary,
      )
