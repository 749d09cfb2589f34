-- ===== src/Node/AppendTests.antt =====
-- A follower with two entries takes a request that agrees with the first and replaces the second; a
-- leader gets the answer.
use raft.Prelude.{
  ◌+◌, ◌≤◌, ◌<◌, ◌≡◌, ◌≢◌, refl, true, false, none, some, inr, List, [], ◌∷◌, ◌++◌, length, u64_mod,
  arith, ℕ, id_eq, if◌then◌else◌,
}
use raft.Types.{State, LogEntry, ok, err, not_in_log}
use raft.RaftLog.Unstable.{flat}
use raft.RaftLog.Runs.{extend_runs, run_for, note_term}
use raft.RaftLog.Segments.{command_bytes, release_written}
use raft.RaftLog.Defs.{last_log_index, append, term_at, queue_op, stabilize}
use raft.RaftLog.History.{Chained, below, from_on}
use raft.RaftLog.Models.{Models}
use raft.RaftLog.Append.{append-Models}
use raft.RaftLog.Agree.{Sent, AgreeBelow}
use raft.Node.State.{Node, AppendRequest}
use raft.Node.Append.{
  prev_matches, backlog_is_full, unstable_limit, kept_entries, handle_append_entries, store_entries,
}
use raft.Node.RebuildReads.{Reads}
use raft.Node.Replicate.{Disk}
use raft.StorageWriter.Queue.{WriteDone, WriteKind}
use raft.RaftLog.Install.{stabilize-Models}
use raft.MemStore.Defs.{MemStore, get_log_entries}
use raft.MemStore.Log.{get_log_entries-range}
use raft.Node.AppendLog.{Merged, handle_append_entries-Merged}
use raft.Node.LogMatching.{handle_append_entries-AgreeBelow}
use raft.Node.Lapses.{store_entries-compacted}
use raft.Node.Departures.{AppendResult}
use raft.Node.Counted.{Counted}
use raft.Node.Tests.{follower, disk, log, node_b}

abbrev entry : ℕ → ℕ → LogEntry
entry index term = record { index = index; term = term; command = 7 ∷ [] }

abbrev pub two : List LogEntry
two = entry 5 2 ∷ entry 6 2 ∷ []

log-Models : Models log [] []
unfolding extend_runs command_bytes
log-Models = record {
  ends = (refl, refl, refl);
  chained = tt;
  run_index = refl;
  held = refl;
  boundary = λ t q. cc;
  filled = tt;
  bytes = refl;
  fits = omega arith;
  snap_fits = omega arith;
}

two-Chained : Chained (last_log_index log + 1) two
unfolding last_log_index
two-Chained = (refl, (refl, tt))

two-fit : last_log_index log + length two + 1 < u64_mod
unfolding last_log_index
two-fit = omega arith

abbrev behind : Node
behind = record follower { log = (append log two).1 }

behind-Models : Models behind.log two []
behind-Models = append-Models log [] [] (entry 5 2) (entry 6 2 ∷ []) log-Models two-Chained two-fit

-- The leader of term 3 has another entry at index 6.
abbrev sent : AppendRequest
sent = record {
  term = 3;
  leader_id = node_b;
  prev_log_index = 5;
  prev_log_term = 2;
  entries = entry 6 3 ∷ entry 7 3 ∷ [];
  leader_commit = 6;
  read_barrier = 0;
}

abbrev leader_log : List LogEntry
leader_log = entry 5 2 ∷ entry 6 3 ∷ entry 7 3 ∷ []

-- Both entries are written, and the second one is a config entry; the storage is a memstore.
abbrev landed : WriteDone
landed = record { seq = 99; kind = WriteKind.append; durable_after = 6; error = none }

abbrev pub settled : Node
settled = record behind { log = stabilize behind.log landed; config_index = 6 }

pub settled-Models : Models settled.log two two
unfolding append queue_op
settled-Models = stabilize-Models behind.log landed two [] behind-Models refl

abbrev store : MemStore
store = record {
  hs = record { current_term = 2; voted_for = [] };
  entries = two;
  snap = none;
  commit_index = 5;
}

abbrev mem_disk : Disk
mem_disk = record {
  get_log_entries = λ lo hi. get_log_entries lo hi store;
  snapshot_loads = λ id. false;
}

reads : Reads mem_disk two
reads a lo hi c from some_left to =
    let read = get_log_entries-range store a lo hi c (omega (arith, c.0)) in
    (below hi (from_on lo two), ground (arith, read, from, some_left, to))

pub based : settled.log.first ≤ settled.log.snap_meta.last_included_index + 1
unfolding append queue_op stabilize
based = omega arith

matches : prev_matches sent settled ≡ true
unfolding prev_matches term_at append queue_op extend_runs run_for note_term stabilize
matches = refl

has_room : backlog_is_full sent settled ≡ false
unfolding backlog_is_full unstable_limit append queue_op command_bytes stabilize release_written
has_room = refl

above : settled.log.snap_meta.last_included_index ≤ sent.prev_log_index
unfolding append queue_op stabilize
above = omega arith

sent-Chained : Chained 6 sent.entries
sent-Chained = (refl, (refl, tt))

handle_append_entries-Merged_example :
    Merged sent
      (kept_entries sent settled)
      two
      settled.commit_index
      (handle_append_entries mem_disk sent (some 1) settled)
handle_append_entries-Merged_example =
    handle_append_entries-Merged mem_disk sent (some 1) settled two two settled-Models reads based
      (omega arith) (inr (λ e. omega (arith, e))) matches has_room above sent-Chained (omega arith)

from_leader : Sent leader_log 6 (kept_entries sent settled)
unfolding kept_entries
from_leader = (sent-Chained, (refl, (refl, tt)))

agreed : AgreeBelow 6 two leader_log
agreed j h = ground arith

handle_append_entries-AgreeBelow_example :
    (after written : List LogEntry) × Models
      (handle_append_entries mem_disk sent (some 1) settled).log
      after
      written
    × AgreeBelow (5 + 1 + length sent.entries) after leader_log
handle_append_entries-AgreeBelow_example =
    handle_append_entries-AgreeBelow mem_disk sent (some 1) settled two two leader_log
      settled-Models reads based (omega arith) (inr (λ e. omega (arith, e))) matches has_room above
      from_leader sent-Chained (omega arith) agreed

below_log : 1 < behind.log.first
unfolding append queue_op
below_log = omega arith

off_snapshot : 1 ≢ behind.log.snap_meta.last_included_index
unfolding append queue_op
off_snapshot e = omega (arith, e)

six_off_snapshot : 6 ≢ behind.log.snap_meta.last_included_index
unfolding append queue_op
six_off_snapshot e = omega (arith, e)

store_entries-compacted_example :
    ((store_entries disk (entry 1 1 ∷ []) behind).error ≡ none)
    × ([] ++ flat (store_entries disk (entry 1 1 ∷ []) behind).node.log.segs
        ≡ two ++ entry 1 1 ∷ [])
    × (term_at behind.log 6 ≡ ok 2)
    × (term_at (store_entries disk (entry 1 1 ∷ []) behind).node.log 6 ≡ err (not_in_log 6))
store_entries-compacted_example =
    store_entries-compacted disk (entry 1 1) [] behind two [] 6 2 behind-Models (omega arith)
      below_log off_snapshot refl (omega arith) six_off_snapshot

-- A leader whose peer rejects a batch with a hint far behind.
abbrev leading : Node
leading = record behind {
  state = State.leader;
  current_term = 3;
  next_index = λ id. if id_eq id node_b then 7 else 0;
  match_index = λ id. if id_eq id node_b then 5 else 0;
}

abbrev rejection : AppendResult
rejection = record {
  peer = node_b;
  term = 3;
  success = false;
  req = sent;
  conflict_index = 1;
  conflict_term = 0;
  dropped = false;
}

abbrev acknowledgement : AppendResult
acknowledgement = record rejection { success = true }
