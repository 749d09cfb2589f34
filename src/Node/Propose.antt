-- ===== src/Node/Propose.antt =====
-- `handleProposals` of node_loop.go: the commands that come in, put together and appended.
use raft.Prelude.{
  ℕ, ◌+◌, ltb, ◌==◌, not, ◌&&◌, ◌||◌, if◌then◌else◌, Bool, true, false, ℤ, pos, negsuc, add64, none,
  some, List, [], ◌∷◌, ◌++◌, length, id_eq,
}
use raft.Types.{
  LogEntry, Error, is_leader, not_leader, leadership_transfer_in_progress,
  config_change_in_progress, obsolete_seq_num, write_backlog_full,
}
use raft.ConfigEntry.Defs.{
  is_config_entry, encode_client_table_cap_entry, encode_commit_quorum_entry,
}
use raft.ClientTable.Defs.{get}
use raft.ClientTable.Codec.{is_dedup_cmd, decode_dedup_cmd}
use raft.RaftLog.Defs.{last_log_index, append}
use raft.Node.State.{Node, Effect, Deferred, emit}
use raft.Node.Writes.{with_log}
use raft.Node.Commit.{maybe_advance_commit}
use raft.Node.Replicate.{Disk, replicate_to_followers}
use raft.Node.Follower.{nobody}
use raft.Node.Transitions.{without_pending, after_write_failing}
use raft.Node.Membership.{note_appended_config}
use raft.Node.Append.{unstable_limit}

-- `proposeMsg`
pub record Proposal : Type 0 where
  pub cmd : List ℕ
  pub promise : ℕ

unfoldable pub reject_all : List Proposal → Error → Node → Node
unfolding emit
reject_all [] e n = n
reject_all (p ∷ ps) e n = reject_all ps e (emit (Effect.reject_proposal p.promise e) n)

-- A batch as it is put together: the entries so far, how many bytes wait to be written, and the node.
pub record Batch : Type 0 where
  pub entries : List LogEntry
  pub backlog : ℕ
  pub node : Node

-- The entry that a batch takes next.
unfoldable pub next_entry : List ℕ → Batch → LogEntry
unfolding last_log_index
next_entry cmd b = record {
  index = add64 (add64 (last_log_index b.node.log) (length b.entries)) 1;
  term = b.node.current_term;
  command = cmd;
}

-- The bound on the client table goes first, where a batch has a command that the table records.
unfoldable pub has_dedup : List Proposal → Bool
unfolding is_dedup_cmd
has_dedup [] = false
has_dedup (p ∷ ps) = is_dedup_cmd p.cmd || has_dedup ps

unfoldable pub cap_due : List Proposal → Node → Bool
unfolding has_dedup
cap_due ps n = not n.client_table_cap_replicated && (n.cap_entry_pending == 0 && has_dedup ps)

unfoldable pub add_cap_entry : List Proposal → Batch → Batch
unfolding cap_due next_entry encode_client_table_cap_entry
add_cap_entry ps b =
    let e = next_entry (encode_client_table_cap_entry b.node.cfg.max_client_table_size) b in
    if cap_due ps b.node
    then record b {
      entries = b.entries ++ e ∷ [];
      node = record b.node { cap_entry_pending = e.index; client_table_cap_replicated = true };
    }
    else b

abbrev pub is_zero : ℤ → Bool
is_zero (pos k) = k == 0
is_zero (negsuc k) = false

-- The commit quorum of the settings, where the group has agreed on none. The code takes the next index
-- of the log for it, also where the bound on the client table has just taken that index.
unfoldable pub quorum_due : Node → Bool
quorum_due n =
    not (is_zero n.cfg.commit_quorum)
    && (not n.commit_quorum_agreed
        && (is_zero n.policy.latest
            && (n.quorum_entry_pending == 0 && n.pending_config_index == 0)))

unfoldable pub add_quorum_entry : Batch → Batch
unfolding quorum_due last_log_index encode_commit_quorum_entry
add_quorum_entry b =
    let n = b.node in
    let idx = add64 (last_log_index n.log) 1 in
    if quorum_due n
    then record b {
      entries =
          b.entries
          ++ record {
            index = idx;
            term = n.current_term;
            command = encode_commit_quorum_entry n.cfg.commit_quorum;
          }
            ∷ [];
      node = record n {
        quorum_entry_pending = idx;
        pending_config_index = idx;
        policy = record n.policy { latest = n.cfg.commit_quorum };
      };
    }
    else b

-- What the client table says of a command: nothing, that it is out of date, or what it was answered.
pub data Repeat : Type 0 where
  new_command : Repeat
  obsolete : Repeat
  answered : List ℕ → Repeat

unfoldable pub repeats : List ℕ → Node → Repeat
unfolding is_dedup_cmd decode_dedup_cmd get
repeats cmd n = if not (is_dedup_cmd cmd) then new_command else elim (decode_dedup_cmd cmd) [
  | none ↦ new_command
  | some (client_id, seq_num, payload) ↦ elim (get client_id n.client_table) [
    | none ↦ new_command
    | some cached ↦
        if ltb seq_num cached.seq_num
        then obsolete
        else if seq_num == cached.seq_num
        then answered cached.result
        else new_command
  ]
]

-- A command that is taken: its entry, and its promise under the entry's index.
unfoldable pub take_proposal : Proposal → Batch → Batch
unfolding next_entry without_pending
take_proposal p b =
    let e = next_entry p.cmd b in
    let n = b.node in
    record {
      entries = b.entries ++ e ∷ [];
      backlog = b.backlog + length p.cmd;
      node = record n {
        pending = (e.index, p.promise) ∷ without_pending e.index n.pending;
        pending_config_index = if is_config_entry p.cmd then e.index else n.pending_config_index;
      };
    }

unfoldable pub answer_now : Effect → Batch → Batch
unfolding emit
answer_now e b = record b { node = emit e b.node }

-- The body of the loop over the proposals.
unfoldable pub offer : Proposal → Batch → Batch
unfolding repeats take_proposal answer_now unstable_limit
offer p b =
    let limit = unstable_limit b.node.cfg.max_unstable_log_bytes in
    if is_config_entry p.cmd && not (b.node.pending_config_index == 0)
    then answer_now (Effect.reject_proposal p.promise config_change_in_progress) b
    else elim (repeats p.cmd b.node) [
      | obsolete ↦ answer_now (Effect.reject_proposal p.promise obsolete_seq_num) b
      | answered result ↦ answer_now (Effect.resolve_proposal p.promise result) b
      | new_command ↦
          if ltb 0 limit && (ltb 0 b.backlog && ltb limit (b.backlog + length p.cmd))
          then answer_now (Effect.reject_proposal p.promise write_backlog_full) b
          else take_proposal p b
    ]

unfoldable pub offer_all : List Proposal → Batch → Batch
unfolding offer
offer_all [] b = b
offer_all (p ∷ ps) b = offer_all ps (offer p b)

-- The batch of a leader that takes proposals.
unfoldable pub put_together : List Proposal → Node → Batch
unfolding add_cap_entry add_quorum_entry offer_all
put_together ps n = offer_all ps (
    add_quorum_entry
      (add_cap_entry ps (record { entries = []; backlog = n.log.unstable_bytes; node = n })))

abbrev pub entry_indices : List LogEntry → List ℕ
entry_indices [] = []
entry_indices (e ∷ es) = e.index ∷ entry_indices es

module _ (disk : Disk) where
  -- The batch in the log: what it says of the group is noted, and a write that fails takes it back.
  unfoldable pub queue_batch : List LogEntry → Node → Node
  unfolding note_appended_config append after_write_failing
  queue_batch es n =
      let noted = note_appended_config es n in
      let appended = append noted.log es in
      after_write_failing disk appended.0 (Deferred.proposals_failed (entry_indices es))
        (with_log appended noted)

  unfoldable pub append_batch : Batch → Node
  unfolding queue_batch replicate_to_followers
  append_batch b = elim b.entries [
    | [] ↦ b.node
    | e ∷ es ↦ maybe_advance_commit (replicate_to_followers disk (queue_batch (e ∷ es) b.node))
  ]

  -- `handleProposals`
  unfoldable pub handle_proposals : List Proposal → Node → Node
  unfolding reject_all put_together append_batch
  handle_proposals ps n =
      if not (is_leader n.state)
      then reject_all ps (not_leader n.leader_id) n
      else if not (id_eq n.transfer_target nobody)
      then reject_all ps leadership_transfer_in_progress n
      else append_batch (put_together ps n)
