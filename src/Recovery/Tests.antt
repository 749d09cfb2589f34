-- ===== src/Recovery/Tests.antt =====
-- A node of three whose two peers are gone.
use raft.Prelude.{ℕ, ◌+◌, ◌≡◌, refl, none, true, false, [], ◌∷◌, ◌++◌, NodeId, id_eq, arith}
use raft.Types.{LogEntry, PeerConfig, ok}
use raft.ConfigEntry.Defs.{encode_finalise_config_entry}
use raft.RaftLog.History.{below}
use raft.MemStore.Defs.{MemStore}
use raft.Recovery.Members.{validate_recovery_members}
use raft.Recovery.Defs.{
  RecoverOptions, RecoveryInfo, recover_cluster, inspect_storage, recovery_report, recovery_tail,
  recovery_floor,
}
use raft.Recovery.Store.{mem_storage}
use raft.Recovery.Rewrite.{final_entry}
use raft.Recovery.Restart.{Recoverable, Restarts, recover_cluster-Restarts}

abbrev self : NodeId
self = 1 ∷ []

abbrev alone : PeerConfig
alone = record { id = self; voter = true; witness = false }

abbrev entry : ℕ → LogEntry
entry index = record { index = index; term = 2; command = 7 ∷ [] }

abbrev store : MemStore
store = record {
  hs = record { current_term = 4; voted_for = 2 ∷ [] };
  entries = entry 1 ∷ entry 2 ∷ entry 3 ∷ [];
  snap = none;
  commit_index = 2;
}

abbrev discard : RecoverOptions
discard = record { known_committed = 0; discard_uncommitted = true }

-- What the store holds beyond its commit index is the third entry.
abbrev info : RecoveryInfo
info = record {
  term = 4;
  voted_for = 2 ∷ [];
  first = 1;
  last = 3;
  last_term = 2;
  snapshot_index = 0;
  snapshot_term = 0;
  known_committed_index = 2;
  members = [];
  joint_members = [];
  members_complete = false;
}

inspected : inspect_storage mem_storage store ≡ ok info
unfolding inspect_storage mem_storage
inspected = refl

discarding-Recoverable : Recoverable store info self (alone ∷ []) discard 1
unfolding recovery_floor validate_recovery_members id_eq
discarding-Recoverable = record {
  chained = (refl, (refl, (refl, tt)));
  starts = omega arith;
  joined = omega arith;
  inspected = inspected;
  valid = refl;
  inside = omega arith;
  proven = refl;
  fits = ((omega arith, tt), omega arith);
  index_room = omega arith;
  term_room = omega arith;
}

recover_cluster-Restarts_example :
    (recovered : MemStore) × (after : RecoveryInfo) × (recover_cluster mem_storage self
        (alone ∷ [])
        discard
        store
      ≡ (ok (recovery_report info (alone ∷ []) discard), recovered))
    × (recovered.entries
        ≡ below (recovery_tail info discard + 1) store.entries
          ++ final_entry (recovery_report info (alone ∷ []) discard) ∷ [])
    × (inspect_storage mem_storage recovered ≡ ok after)
    × Restarts info after (alone ∷ []) (recovery_tail info discard)
recover_cluster-Restarts_example =
    recover_cluster-Restarts store info self (alone ∷ []) discard 1 discarding-Recoverable

-- The uncommitted entry is gone, and the entry of the recovery stands in its place.
discarded : recover_cluster mem_storage self (alone ∷ []) discard store ≡ (
  ok (record {
    term = 5;
    index = 3;
    known_committed_index = 2;
    promoted_from = 0;
    promoted_to = 0;
    discarded_from = 3;
    discarded_to = 3;
    members_before = [];
    members_after = alone ∷ [];
  }),
  record store {
    hs = record { current_term = 5; voted_for = [] };
    entries =
        entry 1
        ∷ entry 2
        ∷ record { index = 3; term = 5; command = encode_finalise_config_entry (alone ∷ []) }
        ∷ [];
  },
)
unfolding recover_cluster mem_storage id_eq
discarded = refl
