-- ===== src/Recovery/Rewrite.antt =====
-- What a recovery reads of a memstore, and what it writes there.
use raft.Prelude.{
  ℕ, ◌+◌, ◌≤◌, ◌<◌, ◌==◌, if◌then◌else◌, Bool, true, false, inl, inr, min, max, List, [], ◌∷◌, ◌++◌,
  length, add64, ◌≡◌, refl, ◌∙◌, subst, if_false, arith,
}
use raft.Types.{LogEntry, PeerConfig, ok, Result-cases}
use raft.ConfigEntry.Defs.{encode_finalise_config_entry}
use raft.RaftLog.History.{Chained, below}
use raft.MemStore.Defs.{MemStore, first_index, last_index}
use raft.MemStore.Log.{last_entry-chain, truncate_suffix-below}
use raft.Recovery.Defs.{
  RecoveryInfo, RecoveryReport, SnapshotView, snapshot_membership, inspect_log, known_committed,
  inspect_storage, append_membership, rewrite_storage,
}
use raft.Recovery.Store.{mem_storage}
use raft.Recovery.Replay.{Finalised, replay-Finalised, length-Finalised, not_empty, whole}

-- What the fields of an inspection are that recovery goes by.
pub record Read (m : MemStore) (info : RecoveryInfo) : Type 0 where
  pub snap : SnapshotView
  pub snap_read : snapshot_membership mem_storage m ≡ ok snap
  pub index_read : info.snapshot_index ≡ snap.index
  pub last_read : info.last ≡ (if last_index m == 0 then snap.index else last_index m)
  pub known_read : info.known_committed_index ≡ min (max snap.index m.commit_index) info.last

pub inspect_storage-Read :
    (m : MemStore) (info : RecoveryInfo) → inspect_storage mem_storage m ≡ ok info → Read m info
unfolding inspect_storage known_committed mem_storage
inspect_storage-Read m info e = elim (Result-cases (snapshot_membership mem_storage m)) [
  | inl (x, failed) ↦ absurd (ground (arith, e, failed))
  | inr (snap, read) ↦
      elim (Result-cases (inspect_log mem_storage snap (first_index m) (last_index m) m)) [
        | inl (x, failed) ↦ absurd (ground (arith, e, read, failed))
        | inr (logged, replayed) ↦ record {
          snap = snap;
          snap_read = read;
          index_read = ground (arith, e, read, replayed);
          last_read = ground (arith, e, read, replayed);
          known_read = ground (arith, e, read, replayed);
        }
      ]
]

-- The entry that a recovery appends.
abbrev pub final_entry : RecoveryReport → LogEntry
final_entry report = record {
  index = report.index;
  term = report.term;
  command = encode_finalise_config_entry report.members_after;
}

-- The store after a recovery that keeps these entries.
abbrev pub rewritten : RecoveryReport → List LogEntry → MemStore → MemStore
rewritten report kept m = record m {
  hs = record { current_term = report.term; voted_for = [] };
  entries = kept ++ final_entry report ∷ [];
}

pub rewrite_storage-rewritten :
    (report : RecoveryReport) (discards : Bool) (m : MemStore) (a : ℕ)
    → Chained a m.entries
    → (discards ≡ true → a ≤ add64 report.known_committed_index 1)
    → rewrite_storage mem_storage report discards m ≡ (
      ok report,
      rewritten report
          (if discards then below (add64 report.known_committed_index 1) m.entries else m.entries)
          m,
    )
unfolding rewrite_storage append_membership mem_storage
rewrite_storage-rewritten report true m a c h =
    let saved : MemStore = record m {
      hs = record { current_term = report.term; voted_for = [] };
    } in
    ground (arith, h refl, truncate_suffix-below saved a (add64 report.known_committed_index 1) c)
rewrite_storage-rewritten report false m a c h = refl

-- The bounds of a log that is not empty.
pub bounds-chain :
    (m : MemStore) (a : ℕ)
    → Chained a m.entries
    → 0 < length m.entries
    → (first_index m ≡ a) × (last_index m + 1 ≡ a + length m.entries)
unfolding first_index last_index
bounds-chain m a c h =
    let (x, xs, split) = not_empty m.entries h in
    let linked = subst (Chained a) split c in
    let last = last_entry-chain a x xs linked in
    (ground (arith, split, linked.0), ground (arith, split, last))

inspect_log-Finalised :
    (m : MemStore) (a last : ℕ) (e : LogEntry) (ps : List PeerConfig) (snap : SnapshotView)
    → 1 ≤ a
    → (f : Finalised m a last e ps)
    → inspect_log mem_storage snap a last m ≡ ok (e.term, true, whole ps)
unfolding inspect_log
inspect_log-Finalised m a last e ps snap h f =
    let reaches = f.ends_at in
    if_false (last == 0) (ok (snap.term, snap.complete, snap.membership)) _
      (ground (arith, h, reaches))
    ∙ replay-Finalised (last + 1) a 0 m a last e ps (snap.complete, snap.membership) f (omega arith)
        (omega (arith, reaches)) (omega (arith, h))

-- The inspection of a log that ends in a finalise entry.
pub inspect_storage-Finalised :
    (m : MemStore) (a last : ℕ) (e : LogEntry) (ps : List PeerConfig) (snap : SnapshotView)
    → snapshot_membership mem_storage m ≡ ok snap
    → 1 ≤ a
    → (f : Finalised m a last e ps)
    → inspect_storage mem_storage m
      ≡ ok (record {
        term = m.hs.current_term;
        voted_for = m.hs.voted_for;
        first = a;
        last = last;
        last_term = e.term;
        snapshot_index = snap.index;
        snapshot_term = snap.term;
        known_committed_index = min (max snap.index m.commit_index) last;
        members = ps;
        joint_members = [];
        members_complete = true;
      })
unfolding inspect_storage inspect_log known_committed mem_storage
inspect_storage-Finalised m a last e ps snap read h f =
    let long = length-Finalised m a last e ps f in
    let reaches = f.ends_at in
    let bounds = bounds-chain m a f.chained (omega (arith, long, reaches)) in
    let ends_there : last_index m ≡ last = omega (arith, bounds.1, long) in
    ground
      (arith, h, read, reaches, bounds.0, ends_there, inspect_log-Finalised m a last e ps snap h f)
