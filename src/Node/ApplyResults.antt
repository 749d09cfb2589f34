-- ===== src/Node/ApplyResults.antt =====
-- `handleApplyResult` of node_loop.go: an entry has been applied.
use raft.Prelude.{ℕ, ltb, leb, ◌==◌, not, if◌then◌else◌, Option, none, some, List}
use raft.Types.{Result, ok, err}
use raft.ClientTable.Defs.{ClientEntry, get, put}
use raft.ClientTable.Codec.{is_dedup_cmd, decode_dedup_cmd}
use raft.Node.State.{Node, Effect, emit}
use raft.Node.Replicate.{Disk}
use raft.Node.Transitions.{pending_at, without_pending}
use raft.Node.ConfigApply.{apply_config_change}
use raft.Node.Snapshots.{maybe_snapshot}

-- `applyResult`: the value or the error of the state machine, and the config entry if it is one.
pub record ApplyResult : Type 0 where
  pub index : ℕ
  pub outcome : Result (List ℕ)
  pub config_cmd : Option (List ℕ)
  pub cmd : List ℕ

-- The outcome that a client is answered again with: only a success is recorded.
unfoldable pub record_outcome : List ℕ → List ℕ → Node → Node
unfolding is_dedup_cmd decode_dedup_cmd get put
record_outcome cmd result n = if not (is_dedup_cmd cmd) then n else elim (decode_dedup_cmd cmd) [
  | none ↦ n
  | some (client_id, seq_num, payload) ↦
      let entry : ClientEntry = record { seq_num = seq_num; result = result } in
      let stored = record n { client_table = (put client_id entry n.client_table).1 } in
      elim (get client_id n.client_table) [
        | none ↦ stored
        | some cached ↦ if leb cached.seq_num seq_num then stored else n
      ]
]

abbrev pub outcome_effect : ℕ → Result (List ℕ) → Effect
outcome_effect promise (ok val) = Effect.resolve_proposal promise val
outcome_effect promise (err e) = Effect.reject_proposal promise e

-- The promise that waits for the entry, answered.
unfoldable pub answer_pending : ApplyResult → Node → Node
unfolding pending_at without_pending emit
answer_pending r n = elim (pending_at r.index n.pending) [
  | none ↦ n
  | some promise ↦ record (emit (outcome_effect promise r.outcome) n) {
    pending = without_pending r.index n.pending;
  }
]

module _ (disk : Disk) where
  unfoldable pub apply_config : ApplyResult → Node → Node
  unfolding apply_config_change
  apply_config r n = elim r.config_cmd [
    | none ↦ n
    | some cmd ↦
        let changed = apply_config_change disk cmd r.index n in
        if changed.pending_config_index == r.index
        then record changed { pending_config_index = 0 }
        else changed
  ]

  -- `handleApplyResult`
  unfoldable pub handle_apply_result : ApplyResult → Node → Node
  unfolding apply_config record_outcome answer_pending maybe_snapshot
  handle_apply_result r n =
      let advanced =
        if ltb n.last_applied r.index then record n { last_applied = r.index } else n in
      let configured = apply_config r advanced in
      let recorded : Node = elim r.outcome [
        | err e ↦ configured
        | ok val ↦ record_outcome r.cmd val configured
      ] in
      maybe_snapshot (answer_pending r recorded)
