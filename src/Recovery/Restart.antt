-- ===== src/Recovery/Restart.antt =====
-- What `RecoverCluster` of recovery.go promises: the node comes back in the given membership.
use raft.Prelude.{
  ℕ, ◌+◌, ◌≤◌, ◌<◌, ltb, ◌==◌, ◌&&◌, if◌then◌else◌, true, false, max, none, List, [], ◌∷◌, ◌++◌,
  length, add64, u64_mod, NodeId, ◌≡◌, refl, arith,
}
use raft.Types.{LogEntry, PeerConfig, ok}
use raft.ConfigEntry.RoundTrip.{Fits}
use raft.RaftLog.History.{Chained, below, below-all, below-Chained, length-below, Chained-append}
use raft.MemStore.Defs.{MemStore}
use raft.Recovery.Members.{validate_recovery_members}
use raft.Recovery.Defs.{
  RecoveryInfo, RecoverOptions, recovery_floor, recovery_tail, recovery_report, recover_cluster,
  inspect_storage, more_recent_than, replay_size, snapshot_membership,
}
use raft.Recovery.Store.{mem_storage}
use raft.Recovery.Replay.{Finalised}
use raft.Recovery.Rewrite.{
  Read, inspect_storage-Read, final_entry, rewritten, rewrite_storage-rewritten, bounds-chain,
  inspect_storage-Finalised,
}

-- A store and a recovery of it that the code accepts. The log starts at `a`, behind the snapshot at
-- the latest, and what is written fits.
pub record Recoverable (m : MemStore) (info : RecoveryInfo) (self : NodeId)
    (members : List PeerConfig) (o : RecoverOptions) (a : ℕ) : Type 0 where
  pub chained : Chained a m.entries
  pub starts : 1 ≤ a
  pub joined : a ≤ info.snapshot_index + 1
  pub inspected : inspect_storage mem_storage m ≡ ok info
  pub valid : validate_recovery_members self members ≡ none
  pub inside : recovery_floor info o ≤ info.last
  pub proven : (o.discard_uncommitted && (recovery_floor info o == 0 && ltb 0 info.last)) ≡ false
  pub fits : Fits members
  pub index_room : info.last + 2 + replay_size < u64_mod
  pub term_room : max info.term info.last_term + 1 < u64_mod

-- Where the log ends, whatever is left of it.
log_end :
    (m : MemStore) (info : RecoveryInfo) (a : ℕ)
    → Chained a m.entries
    → 1 ≤ a
    → Read m info
    → 0 < length m.entries
    → info.last + 1 ≡ a + length m.entries
log_end m info a c h r some_left =
    let bounds = bounds-chain m a c some_left in
    let last_read = r.last_read in ground (arith, bounds.1, last_read, h, some_left)

-- What stays of the log reaches up to the entry that is appended.
kept_below :
    (m : MemStore) (a tail : ℕ)
    → Chained a m.entries
    → 1 ≤ a
    → (0 < length m.entries → a ≤ tail + 1)
    → (0 < length m.entries → tail + 1 ≤ a + length m.entries)
    → (b : ℕ) × (1 ≤ b)
      × Chained b (below (tail + 1) m.entries)
      × (b + length (below (tail + 1) m.entries) ≡ tail + 1)
kept_below m a tail c h from to = go m.entries c from to
  where
    go :
        (l : List LogEntry)
        → Chained a l
        → (0 < length l → a ≤ tail + 1)
        → (0 < length l → tail + 1 ≤ a + length l)
        → (b : ℕ) × (1 ≤ b)
          × Chained b (below (tail + 1) l)
          × (b + length (below (tail + 1) l) ≡ tail + 1)
    go [] c' from' to' = (tail + 1, omega arith, tt, omega arith)
    go (e ∷ es) c' from' to' = (
      a,
      h,
      below-Chained a (tail + 1) (e ∷ es) c',
      length-below a (tail + 1) (e ∷ es) c' (from' (omega arith)) (to' (omega arith)),
    )

all_below :
    (m : MemStore) (a last : ℕ)
    → Chained a m.entries
    → (0 < length m.entries → last + 1 ≡ a + length m.entries)
    → below (last + 1) m.entries ≡ m.entries
all_below m a last c h = go m.entries c h
  where
    go :
        (l : List LogEntry)
        → Chained a l
        → (0 < length l → last + 1 ≡ a + length l)
        → below (last + 1) l ≡ l
    go [] c' h' = refl
    go (e ∷ es) c' h' = below-all a (last + 1) (e ∷ es) c' (omega (arith, h' (omega arith)))

tail_bounds :
    (m : MemStore) (info : RecoveryInfo) (self : NodeId) (members : List PeerConfig)
    (o : RecoverOptions) (a : ℕ)
    → (h : Recoverable m info self members o a)
    → (recovery_tail info o ≤ info.last)
      × (0 < length m.entries → a ≤ recovery_tail info o + 1)
      × (0 < length m.entries → info.last + 1 ≡ a + length m.entries)
unfolding recovery_tail recovery_floor
tail_bounds m info self members o a h =
    let r = inspect_storage-Read m info h.inspected in
    let index_read = r.index_read in
    let known_read = r.known_read in
    let inside = h.inside in
    let joined = h.joined in
    let end = log_end m info a h.chained h.starts r in
    (
      ground (arith, inside),
      λ some_left. ground (arith, inside, joined, index_read, known_read, end some_left),
      end,
    )

kept_log :
    (m : MemStore) (info : RecoveryInfo) (self : NodeId) (members : List PeerConfig)
    (o : RecoverOptions) (a : ℕ)
    → (h : Recoverable m info self members o a)
    → (if o.discard_uncommitted && ltb (recovery_floor info o) info.last
        then below (add64 (recovery_floor info o) 1) m.entries
        else m.entries)
      ≡ below (recovery_tail info o + 1) m.entries
unfolding recovery_tail
kept_log m info self members o a h =
    let bounds = tail_bounds m info self members o a h in
    let inside = h.inside in
    let index_room = h.index_room in
    let whole_log : below (info.last + 1) m.entries ≡ m.entries =
      all_below m a info.last h.chained bounds.2 in
    ground (arith, inside, index_room, whole_log)

recover_cluster-rewritten :
    (m : MemStore) (info : RecoveryInfo) (self : NodeId) (members : List PeerConfig)
    (o : RecoverOptions) (a : ℕ)
    → (h : Recoverable m info self members o a)
    → recover_cluster mem_storage self members o m ≡ (
      ok (recovery_report info members o),
      rewritten (recovery_report info members o) (below (recovery_tail info o + 1) m.entries) m,
    )
unfolding recover_cluster recovery_report recovery_floor
recover_cluster-rewritten m info self members o a h =
    let r = inspect_storage-Read m info h.inspected in
    let index_read = r.index_read in
    let known_read = r.known_read in
    let valid = h.valid in
    let inspected = h.inspected in
    let inside = h.inside in
    let proven = h.proven in
    let joined = h.joined in
    let index_room = h.index_room in
    let floor = recovery_floor info o in
    let discards = o.discard_uncommitted && ltb floor info.last in
    let from_kept : discards ≡ true → a ≤ add64 floor 1 =
      λ (d : discards ≡ true). ground (arith, d, index_read, known_read, joined, index_room) in
    let written =
      rewrite_storage-rewritten (recovery_report info members o) discards m a h.chained from_kept in
    ground (arith, valid, inspected, inside, proven, written, kept_log m info self members o a h)

-- What a node finds when it starts again: the given members and no others, all of them known, in a term
-- and a log newer than any that it had.
pub record Restarts (info after : RecoveryInfo) (members : List PeerConfig) (tail : ℕ)
    : Type 0 where
  pub membership : after.members ≡ members
  pub no_joint : after.joint_members ≡ []
  pub complete : after.members_complete ≡ true
  pub ends_at : after.last ≡ tail + 1
  pub newer_term : info.term < after.term
  pub newer_log : more_recent_than after info ≡ true

-- A recovery that is asked of a stopped node whose storage can be read, with members that the code
-- accepts, a floor inside the log, and indices and terms that fit, succeeds. The log is then what
-- there was up to the tail, and the entry that states the members. Read again, the storage gives just
-- these members, as complete and not joint, in a term above what the node knew and with a log that
-- wins elections against what the node had.
pub recover_cluster-Restarts :
    (m : MemStore) (info : RecoveryInfo) (self : NodeId) (members : List PeerConfig)
    (o : RecoverOptions) (a : ℕ)
    → Recoverable m info self members o a
    → (recovered : MemStore) × (after : RecoveryInfo) × (recover_cluster mem_storage self members o
          m
        ≡ (ok (recovery_report info members o), recovered))
      × (recovered.entries
          ≡ below (recovery_tail info o + 1) m.entries
            ++ final_entry (recovery_report info members o) ∷ [])
      × (inspect_storage mem_storage recovered ≡ ok after)
      × Restarts info after members (recovery_tail info o)
unfolding recovery_report more_recent_than snapshot_membership mem_storage
recover_cluster-Restarts m info self members o a h =
    let report = recovery_report info members o in
    let tail = recovery_tail info o in
    let kept = below (tail + 1) m.entries in
    let recovered = rewritten report kept m in
    let bounds = tail_bounds m info self members o a h in
    let r = inspect_storage-Read m info h.inspected in
    let index_room = h.index_room in
    let term_room = h.term_room in
    let (b, starts, linked, reaches) =
      kept_below m a tail h.chained h.starts bounds.1
        (λ some_left. omega (arith, bounds.0, bounds.2 some_left)) in
    let at_end : report.index ≡ b + length kept = omega (arith, reaches, bounds.0, index_room) in
    let final : Finalised recovered b (tail + 1) (final_entry report) members = record {
      pre = kept;
      held = refl;
      chained = Chained-append b kept (final_entry report ∷ []) linked (at_end, tt);
      ends_at = reaches;
      final = refl;
      fits = h.fits;
      room = omega (arith, bounds.0, index_room);
    } in
    (
      recovered,
      _,
      recover_cluster-rewritten m info self members o a h,
      refl,
      inspect_storage-Finalised recovered b (tail + 1) (final_entry report) members r.snap
          r.snap_read starts final,
      record {
        membership = refl;
        no_joint = refl;
        complete = refl;
        ends_at = refl;
        newer_term = omega (arith, term_room);
        newer_log = ground (arith, term_room);
      },
    )
