-- ===== src/Node/ConfigApply.antt =====
-- `rebuildMembership` and `applyConfigChange` of node_membership.go, `adoptCommitQuorum` of quorum.go
-- and `adoptClientTableCap` of node.go: the membership computed again, and a config entry that is
-- committed. The events for observers and the report of a forgotten client are not modelled.
use raft.Prelude.{
  ℕ, zero, suc, ◌+◌, ◌-◌, ltb, ◌==◌, not, ◌&&◌, ◌||◌, if◌then◌else◌, Bool, true, ℤ, pos, negsuc,
  add64, Option, none, some, List, [], ◌∷◌, min, id_eq,
}
use raft.Types.{LogEntry, PeerConfig, Error, ok, err, witness_mismatch, is_leader}
use raft.ConfigEntry.Defs.{
  op_remove, op_joint, op_finalise, op_client_table_cap, op_commit_quorum, is_config_entry,
  decode_config_entry, decode_finalise_config_entry, decode_commit_quorum_entry,
  decode_client_table_cap_entry,
}
use raft.ClientTable.Defs.{set_cap}
use raft.RaftLog.Defs.{entries}
use raft.Node.State.{Node, Effect, emit}
use raft.Node.Writes.{fail}
use raft.Node.Commit.{maybe_advance_commit}
use raft.Node.Replicate.{Disk}
use raft.Node.Follower.{nobody, is_peer, become_follower}
use raft.Node.Transitions.{append_finalise_entry}
use raft.Node.Membership.{restore_membership, adopt_config_entry}

-- `adoptCommitQuorum`
unfoldable pub adopt_commit_quorum : ℤ → Node → Node
adopt_commit_quorum quorum n = record n {
  policy = record n.policy { applied = quorum };
  commit_quorum_agreed = true;
}

-- A capacity as the table keeps it: below 0 there is no bound, as with 0.
abbrev pub cap_of : ℤ → ℕ
cap_of (pos k) = k
cap_of (negsuc k) = 0

-- `adoptClientTableCap`
unfoldable pub adopt_client_table_cap : ℤ → Node → Node
unfolding set_cap
adopt_client_table_cap capacity n = record n {
  client_table_cap = capacity;
  client_table_cap_agreed = true;
  client_table_cap_replicated = true;
  client_table = (set_cap (cap_of capacity) n.client_table).1;
}

-- `witnessMismatch`, whose other direction is only logged.
unfoldable pub witness_mismatch_found : Bool → Node → Node
unfolding fail
witness_mismatch_found says_witness n =
    if says_witness && not n.cfg.witness then fail (witness_mismatch n.cfg.id) n else n

-- `notifyRemoved`
unfoldable pub notify_removed : Node → Node
unfolding emit
notify_removed n =
    let notified = record n { removed_notified = true } in
    if n.removed_notified
    then n
    else if n.cfg.has_on_removed
    then emit Effect.on_removed notified
    else notified

-- A node that finds itself removed.
unfoldable pub leave_cluster : Node → Node
unfolding become_follower notify_removed
leave_cluster n = notify_removed (become_follower n.current_term nobody n)

abbrev pub rebuild_batch : ℕ
rebuild_batch = 1024

-- The node that `rebuildMembership` starts from.
unfoldable pub rebuild_base : Node → Node
unfolding restore_membership
rebuild_base n =
    let restored = restore_membership n.base_membership n in
    record restored {
      config_index = n.log.snap_meta.last_included_index;
      client_table_cap_replicated = n.has_base_client_table_cap;
      policy = record restored.policy { latest = n.base_membership.commit_quorum };
    }

module _ (disk : Disk) where
  -- The loop of `rebuildMembership` over one batch.
  unfoldable pub adopt_entries : List LogEntry → Node → Node
  unfolding adopt_config_entry
  adopt_entries [] n = n
  adopt_entries (e ∷ es) n =
      adopt_entries es
        (if is_config_entry e.command then adopt_config_entry disk e.command e.index n else n)

  -- The loop over the batches from `lo`: at most `rounds`. An error keeps what was adopted.
  unfoldable pub adopt_batches : (rounds lo last : ℕ) → Node → Option Error × Node
  unfolding adopt_entries
  adopt_batches zero lo last n = (none, n)
  adopt_batches (suc rounds) lo last n =
      if ltb last lo
      then (none, n)
      else elim (entries disk.get_log_entries n.log lo
          (min (add64 lo rebuild_batch) (add64 last 1))) [
            | err e ↦ (some e, n)
            | ok es ↦ adopt_batches rounds (add64 lo rebuild_batch) last (adopt_entries es n)
          ]

  -- `rebuildMembership`; as many rounds as the log has entries are enough.
  unfoldable pub rebuild_membership : Node → Option Error × Node
  unfolding rebuild_base adopt_batches
  rebuild_membership n =
      let base = rebuild_base n in
      if base.log.first == 0 || ltb base.log.last base.log.first
      then (none, base)
      else adopt_batches (base.log.last + 1 - base.log.first) base.log.first base.log.last base

  -- The cases of `applyConfigChange`, once the entry is adopted.
  unfoldable pub apply_op : ℕ → PeerConfig → List ℕ → ℕ → Node → Node
  unfolding adopt_client_table_cap adopt_commit_quorum leave_cluster append_finalise_entry is_peer
  apply_op op peer cmd index n =
      if op == op_client_table_cap
      then (let adopted : Node = elim (decode_client_table_cap_entry cmd) [
        | none ↦ n
        | some capacity ↦ adopt_client_table_cap capacity n
      ] in
          if adopted.cap_entry_pending == index
          then record adopted { cap_entry_pending = 0 }
          else adopted)
      else if op == op_commit_quorum
      then (let adopted : Node = elim (decode_commit_quorum_entry cmd) [
        | none ↦ n
        | some quorum ↦
            let agreed = adopt_commit_quorum quorum n in
            if is_leader agreed.state then maybe_advance_commit agreed else agreed
      ] in
          if adopted.quorum_entry_pending == index
          then record adopted { quorum_entry_pending = 0 }
          else adopted)
      else if op == op_remove
      then (if id_eq peer.id n.cfg.id then leave_cluster n else n)
      else if op == op_joint
      then elim n.joint_old [
        | none ↦ n
        | some old ↦
            if is_leader n.state
            then append_finalise_entry disk n.joint_new n.joint_include_self n.joint_self_voter n
            else n
      ]
      else if op == op_finalise
      then elim (decode_finalise_config_entry cmd) [
        | none ↦ n
        | some members ↦ if is_peer n.cfg.id members then n else leave_cluster n
      ]
      else n

  -- `applyConfigChange`
  unfoldable pub apply_config_change : List ℕ → ℕ → Node → Node
  unfolding adopt_config_entry witness_mismatch_found apply_op
  apply_config_change cmd index n = elim (decode_config_entry cmd) [
    | none ↦ n
    | some (op, peer) ↦
        let adopted = adopt_config_entry disk cmd index n in
        let says = adopted.membership_witness in
        let says_other = if says then not adopted.cfg.witness else adopted.cfg.witness in
        apply_op op peer cmd index
          (if says_other then witness_mismatch_found says adopted else adopted)
  ]
