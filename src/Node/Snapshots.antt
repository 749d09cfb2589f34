-- ===== src/Node/Snapshots.antt =====
-- node_snapshot.go, as far as the loop decides: when a snapshot is taken, what follows when one was
-- taken, and what a leader learns from one that it sent. Writing and sending the data runs in
-- goroutines, whose results are the arguments here.
use raft.Prelude.{
  ℕ, ◌-◌, ltb, leb, ◌==◌, not, ◌&&◌, ◌||◌, if◌then◌else◌, Bool, true, false, ℤ, add64, sub64,
  Option, none, some, NodeId, update,
}
use raft.Types.{SnapshotMeta, Error, is_leader, ok, err}
use raft.ConfigEntry.Defs.{MembershipState}
use raft.ClientTable.Defs.{records}
use raft.RaftLog.Defs.{term_at, truncate_prefix, last_log_index}
use raft.Node.State.{Node, Effect, emit}
use raft.Node.Commit.{maybe_advance_commit}
use raft.Node.Replicate.{Disk, replicate_to_peer}
use raft.Node.Follower.{nobody, become_follower}
use raft.Node.Membership.{current_membership}

-- Whether a permit is held, or none is needed.
unfoldable pub permit_free : Node → Bool
permit_free n = elim n.cfg.snapshot_semaphore [ none ↦ true | some free ↦ free n.last_applied ]

unfoldable pub release_permit : Node → Node
unfolding emit
release_permit n = elim n.cfg.snapshot_semaphore [
  | none ↦ n
  | some free ↦ emit Effect.release_snapshot_permit n
]

-- Whether enough has been applied since the last snapshot, and none is being taken.
unfoldable pub snapshot_due : Node → Bool
snapshot_due n =
    not (n.snapshotting || n.cfg.snapshot_threshold == 0)
    && leb (add64 n.log.snap_meta.last_included_index n.cfg.snapshot_threshold) n.last_applied

-- `maybeSnapshot`
unfoldable pub maybe_snapshot : Node → Node
unfolding snapshot_due permit_free release_permit records current_membership emit
maybe_snapshot n =
    if not (snapshot_due n) || not (permit_free n) then n else elim (term_at n.log n.last_applied) [
      | err e ↦ release_permit n
      | ok term ↦
          let meta : SnapshotMeta = record {
            last_included_index = n.last_applied;
            last_included_term = term;
          } in
          emit
            (Effect.trigger_snapshot meta (records n.client_table) (current_membership n)
              n.client_table_cap n.client_table_cap_agreed)
            (record n { snapshotting = true })
    ]

-- `snapshotResult`
pub record SnapshotResult : Type 0 where
  pub meta : SnapshotMeta
  pub membership : MembershipState
  pub client_table_cap : ℤ
  pub has_client_table_cap : Bool
  pub error : Option Error

-- `trailingLogs`: always fewer than the threshold, so that something is dropped.
unfoldable pub trailing_logs : Node → ℕ
trailing_logs n =
    if ltb 0 n.cfg.snapshot_threshold && leb n.cfg.snapshot_threshold n.cfg.trailing_logs
    then n.cfg.snapshot_threshold - 1
    else n.cfg.trailing_logs

-- The first index that the log keeps behind a snapshot.
unfoldable pub keep_from : ℕ → Node → ℕ
unfolding trailing_logs
keep_from last_included n =
    let next = add64 last_included 1 in
    let trailing = trailing_logs n in
    if trailing == 0 then next else if leb next trailing then 1 else sub64 next trailing

-- `handleSnapshotResult`
unfoldable pub handle_snapshot_result : SnapshotResult → Node → Node
unfolding keep_from release_permit truncate_prefix
handle_snapshot_result r n =
    let kept = truncate_prefix n.log (keep_from r.meta.last_included_index n) in
    let based = record n {
      log = record kept { snap_meta = r.meta };
      base_membership = r.membership;
      base_client_table_cap = r.client_table_cap;
      has_base_client_table_cap = r.has_client_table_cap;
    } in
    release_permit (record (elim r.error [ none ↦ based | some e ↦ n ]) { snapshotting = false })

-- `installSnapshotResult`
pub record InstallSnapshotResult : Type 0 where
  pub peer : NodeId
  pub term : ℕ
  pub meta : SnapshotMeta
  pub dropped : Bool

-- What a peer that has installed a snapshot is known to have.
unfoldable pub note_installed : NodeId → ℕ → Node → Node
note_installed peer index n =
    let raised =
      if leb (n.match_index peer) index
      then record n {
        next_index = update n.next_index peer (add64 index 1);
        match_index = update n.match_index peer index;
      }
      else n in
    if leb (raised.next_index peer) (raised.match_index peer)
    then record raised {
      next_index = update raised.next_index peer (add64 (raised.match_index peer) 1);
    }
    else raised

module _ (disk : Disk) where
  unfoldable pub snapshot_installed : InstallSnapshotResult → Node → Node
  unfolding note_installed replicate_to_peer
  snapshot_installed r n =
      let noted = maybe_advance_commit (note_installed r.peer r.meta.last_included_index n) in
      if leb (noted.next_index r.peer) (last_log_index noted.log)
      then replicate_to_peer disk r.peer noted
      else noted

  -- `handleInstallSnapshotResult`; the map of transfers in flight is nil where the node does not lead.
  unfoldable pub handle_install_snapshot_result : InstallSnapshotResult → Node → Node
  unfolding snapshot_installed become_follower replicate_to_peer
  handle_install_snapshot_result r n =
      let cleared = record n { snapshot_inflight = update n.snapshot_inflight r.peer false } in
      if r.dropped
      then (if is_leader n.state then replicate_to_peer disk r.peer cleared else cleared)
      else if ltb n.current_term r.term
      then become_follower r.term nobody cleared
      else if not (is_leader n.state)
      then cleared
      else snapshot_installed r cleared
