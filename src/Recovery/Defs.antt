-- ===== src/Recovery/Defs.antt =====
-- `InspectStorage` and `RecoverCluster` of recovery.go, over the storage contract of storage.go. The
-- messages around an error of the storage are dropped, and the context too: no call is cut short.
use raft.Prelude.{
  ℕ, zero, suc, ◌+◌, ltb, leb, ◌==◌, not, ◌&&◌, if◌then◌else◌, Bool, true, false, min, max, Option,
  none, some, List, [], ◌∷◌, NodeId, add64,
}
use raft.Types.{
  LogEntry, HardState, SnapshotMeta, PeerConfig, Error, malformed, no_snapshot, invalid, past_log,
  discards_all, Result, ok, err, ◌>>=◌,
}
use raft.ConfigEntry.Defs.{MembershipState, encode_finalise_config_entry}
use raft.ClientTable.Codec.{read_snapshot_frame}
use raft.RaftLog.Segments.{last_entry}
use raft.Recovery.Members.{no_membership, replay_batch, validate_recovery_members}

-- The operations of `Storage` that recovery uses, and `LoadCommitIndex` where the storage is a
-- `CommitRecorder`.
pub record Storage (S : Type 0) : Type 0 where
  pub load_hard_state : S → Result HardState
  pub load_snapshot : S → Result (SnapshotMeta × List ℕ)
  pub first_index : S → Result ℕ
  pub last_index : S → Result ℕ
  pub get_log_entries : ℕ → ℕ → S → Result (List LogEntry)
  pub load_commit_index : Option (S → Result ℕ)
  pub save_hard_state : HardState → S → Option Error × S
  pub truncate_suffix : ℕ → S → Option Error × S
  pub append_log_entries : List LogEntry → S → Option Error × S

pub record RecoveryInfo : Type 0 where
  pub term : ℕ
  pub voted_for : NodeId
  pub first : ℕ
  pub last : ℕ
  pub last_term : ℕ
  pub snapshot_index : ℕ
  pub snapshot_term : ℕ
  pub known_committed_index : ℕ
  pub members : List PeerConfig
  pub joint_members : List PeerConfig
  pub members_complete : Bool

-- `MoreRecentThan`
unfoldable pub more_recent_than : RecoveryInfo → RecoveryInfo → Bool
more_recent_than r other =
    if r.last_term == other.last_term
    then ltb other.last r.last
    else ltb other.last_term r.last_term

-- `UncommittedBand`
unfoldable pub uncommitted_band : RecoveryInfo → ℕ × ℕ × Bool
uncommitted_band r =
    if leb r.last r.known_committed_index
    then (0, 0, false)
    else (add64 r.known_committed_index 1, r.last, true)

-- What `snapshotMembership` returns, with the fields of `info` that it fills in.
pub record SnapshotView : Type 0 where
  pub index : ℕ
  pub term : ℕ
  pub membership : MembershipState
  pub complete : Bool

abbrev pub replay_size : ℕ
replay_size = 1024

unfoldable pub is_no_snapshot : Error → Bool
is_no_snapshot no_snapshot = true
is_no_snapshot _ = false

unfoldable pub view_snapshot : SnapshotMeta → List ℕ → Result SnapshotView
unfolding read_snapshot_frame
view_snapshot meta bytes = elim (read_snapshot_frame bytes) [
  | none ↦ err malformed
  | some framed ↦ ok (record {
    index = meta.last_included_index;
    term = meta.last_included_term;
    membership = elim framed.0.membership [ none ↦ no_membership | some ms ↦ ms ];
    complete = elim framed.0.membership [ none ↦ false | some ms ↦ true ];
  })
]

module _ {S : Type 0} (store : Storage S) where
  -- `snapshotMembership`
  unfoldable pub snapshot_membership : S → Result SnapshotView
  unfolding view_snapshot is_no_snapshot
  snapshot_membership s = elim (store.load_snapshot s) [
    | ok snap ↦ view_snapshot snap.0 snap.1
    | err e ↦
        if is_no_snapshot e
        then ok (record { index = 0; term = 0; membership = no_membership; complete = false })
        else err e
  ]

  -- `replayConfigEntries`, with a number of batches to go.
  unfoldable pub replay_config_entries :
      (rounds lo last last_term : ℕ)
      → Bool × MembershipState
      → S
      → Result (ℕ × Bool × MembershipState)
  unfolding replay_batch
  replay_config_entries zero lo last last_term st s = ok (last_term, st.0, st.1)
  replay_config_entries (suc rounds) lo last last_term st s =
      if ltb last lo
      then ok (last_term, st.0, st.1)
      else elim (store.get_log_entries lo (min (add64 lo replay_size) (add64 last 1)) s) [
        | err e ↦ err e
        | ok [] ↦ err (invalid "raft.InspectStorage: read entries: no entries returned")
        | ok (e ∷ es) ↦
            replay_config_entries rounds (add64 lo replay_size) last (last_entry e es).term
              (replay_batch (e ∷ es) st) s
      ]

  -- The term of the last entry, and the membership after the log.
  unfoldable pub inspect_log :
      SnapshotView → (first last : ℕ) → S → Result (ℕ × Bool × MembershipState)
  unfolding replay_config_entries
  inspect_log snap first last s =
      if last == 0
      then ok (snap.term, snap.complete, snap.membership)
      else replay_config_entries (last + 1) first last 0 (snap.complete, snap.membership) s

  -- What the storage proves to be committed.
  unfoldable pub known_committed : SnapshotView → (last_index : ℕ) → S → Result ℕ
  known_committed snap last_index s = elim store.load_commit_index [
    | none ↦ ok snap.index
    | some load ↦ elim (load s) [
      | err e ↦ err e
      | ok recorded ↦ ok (min (max snap.index recorded) last_index)
    ]
  ]

  -- `InspectStorage`
  unfoldable pub inspect_storage : S → Result RecoveryInfo
  unfolding snapshot_membership inspect_log known_committed
  inspect_storage s = do
    hs ← store.load_hard_state s
    snap ← snapshot_membership s
    first ← store.first_index s
    last ← store.last_index s
    (last_term, complete, ms) ← inspect_log snap first last s
    let last_index = if last == 0 then snap.index else last
    known ← known_committed snap last_index s
    ok (record {
      term = hs.current_term;
      voted_for = hs.voted_for;
      first = first;
      last = last_index;
      last_term = last_term;
      snapshot_index = snap.index;
      snapshot_term = snap.term;
      known_committed_index = known;
      members = if ms.joint then ms.old else ms.members;
      joint_members = if ms.joint then ms.new else [];
      members_complete = complete;
    })

-- `recoverOptions`, as `WithKnownCommitted` and `DiscardUncommitted` set them.
pub record RecoverOptions : Type 0 where
  pub known_committed : ℕ
  pub discard_uncommitted : Bool

pub record RecoveryReport : Type 0 where
  pub term : ℕ
  pub index : ℕ
  pub known_committed_index : ℕ
  pub promoted_from : ℕ
  pub promoted_to : ℕ
  pub discarded_from : ℕ
  pub discarded_to : ℕ
  pub members_before : List PeerConfig
  pub members_after : List PeerConfig

-- What the storage or the caller proves.
unfoldable pub recovery_floor : RecoveryInfo → RecoverOptions → ℕ
recovery_floor info o = max info.known_committed_index o.known_committed

unfoldable pub recovery_tail : RecoveryInfo → RecoverOptions → ℕ
unfolding recovery_floor
recovery_tail info o = if o.discard_uncommitted then recovery_floor info o else info.last

unfoldable pub recovery_report : RecoveryInfo → List PeerConfig → RecoverOptions → RecoveryReport
unfolding recovery_floor recovery_tail
recovery_report info members o =
    let floor = recovery_floor info o in
    let beyond = ltb floor info.last in
    record {
      term = add64 (max info.term info.last_term) 1;
      index = add64 (recovery_tail info o) 1;
      known_committed_index = floor;
      promoted_from = if beyond && not o.discard_uncommitted then add64 floor 1 else 0;
      promoted_to = if beyond && not o.discard_uncommitted then info.last else 0;
      discarded_from = if beyond && o.discard_uncommitted then add64 floor 1 else 0;
      discarded_to = if beyond && o.discard_uncommitted then info.last else 0;
      members_before = info.members;
      members_after = members;
    }

module _ {S : Type 0} (store : Storage S) where
  -- The append that ends the recovery.
  unfoldable pub append_membership : RecoveryReport → S → Result RecoveryReport × S
  unfolding encode_finalise_config_entry
  append_membership report s =
      let entry : LogEntry = record {
        index = report.index;
        term = report.term;
        command = encode_finalise_config_entry report.members_after;
      } in
      let appended = store.append_log_entries (entry ∷ []) s in
      elim appended.0 [ some e ↦ (err e, appended.1) | none ↦ (ok report, appended.1) ]

  -- The writes, once the membership and the floor are accepted.
  unfoldable pub rewrite_storage : RecoveryReport → Bool → S → Result RecoveryReport × S
  unfolding append_membership
  rewrite_storage report discards s =
      let saved = store.save_hard_state (record { current_term = report.term; voted_for = [] }) s in
      elim saved.0 [
        | some e ↦ (err e, saved.1)
        | none ↦
            if discards
            then (let cut = store.truncate_suffix (add64 report.known_committed_index 1) saved.1 in
                elim cut.0 [ some e ↦ (err e, cut.1) | none ↦ append_membership report cut.1 ])
            else append_membership report saved.1
      ]

  -- `RecoverCluster`
  unfoldable pub recover_cluster :
      NodeId → List PeerConfig → RecoverOptions → S → Result RecoveryReport × S
  unfolding validate_recovery_members inspect_storage recovery_floor recovery_report rewrite_storage
  recover_cluster self members o s = elim (validate_recovery_members self members) [
    | some e ↦ (err e, s)
    | none ↦ elim (inspect_storage store s) [
      | err e ↦ (err e, s)
      | ok info ↦
          let floor = recovery_floor info o in
          if ltb info.last floor
          then (err (past_log o.known_committed info.last), s)
          else if o.discard_uncommitted && (floor == 0 && ltb 0 info.last)
          then (err (discards_all info.last), s)
          else rewrite_storage (recovery_report info members o)
              (o.discard_uncommitted && ltb floor info.last) s
    ]
  ]
