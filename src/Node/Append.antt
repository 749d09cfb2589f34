-- ===== src/Node/Append.antt =====
-- `handleAppendEntries` of node_replication.go and `unstableLimit` of node.go: a follower checks what
-- precedes the entries of a request, stores them, moves its commit index, and answers once all of it
-- is on disk.
use raft.Prelude.{
  ℕ, ltb, leb, ◌==◌, not, ◌&&◌, ◌||◌, ◌*◌, if◌then◌else◌, Bool, true, false, ℤ, pos, negsuc, zero,
  suc, add64, min, Option, none, some, List, [], ◌∷◌, length,
}
use raft.Types.{LogEntry, Error, ok, err, write_backlog_full}
use raft.RaftLog.Defs.{
  term_at, term_or_zero, term_run_start, last_log_index, append, truncate_suffix,
  write_seq_covering,
}
use raft.Node.State.{Node, AppendRequest, AppendResponse, Effect, Channel, Deferred, emit_on}
use raft.Node.Writes.{send_gate, fail, set_commit_index, notify_apply, with_log}
use raft.Node.Replicate.{Disk, strip_for_witness}
use raft.Node.Follower.{become_follower}
use raft.Node.Transitions.{after_write}
use raft.Node.Membership.{note_appended_config}
use raft.Node.ConfigApply.{rebuild_membership}

-- `defaultMaxUnstableLogBytes`
abbrev pub default_max_unstable_log_bytes : ℕ
default_max_unstable_log_bytes = 64 * 1024 * 1024

-- `unstableLimit`; 0 is no limit.
unfoldable pub unstable_limit : ℤ → ℕ
unstable_limit (negsuc k) = 0
unstable_limit (pos zero) = default_max_unstable_log_bytes
unstable_limit (pos (suc k)) = suc k

-- The answers in a term: a rejection with its hint, and the acknowledgement.
abbrev pub reject_at : (term conflict_index conflict_term : ℕ) → AppendResponse
reject_at term conflict_index conflict_term = record {
  term = term;
  success = false;
  conflict_index = conflict_index;
  conflict_term = conflict_term;
}

abbrev pub accept_in : ℕ → AppendResponse
accept_in term = record { term = term; success = true; conflict_index = 0; conflict_term = 0 }

-- What the log has at the index before the entries, and whether it is what the request says.
abbrev pub prev_term : AppendRequest → Node → ℕ
prev_term req n = term_or_zero (term_at n.log req.prev_log_index)

unfoldable pub prev_matches : AppendRequest → Node → Bool
prev_matches req n = req.prev_log_index == 0 || prev_term req n == req.prev_log_term

-- The hint for a leader whose entries do not follow on.
unfoldable pub conflict_hint : AppendRequest → Node → AppendResponse
unfolding last_log_index term_run_start
conflict_hint req n =
    let start = term_run_start n.log req.prev_log_index in
    if prev_term req n == 0
    then reject_at n.current_term (add64 (last_log_index n.log) 1) 0
    else reject_at n.current_term (if start == 0 then req.prev_log_index else start)
        (prev_term req n)

-- A log that keeps as many bytes in memory as it may takes no more entries.
unfoldable pub backlog_is_full : AppendRequest → Node → Bool
unfolding unstable_limit
backlog_is_full req n =
    let limit = unstable_limit n.cfg.max_unstable_log_bytes in
    ltb 0 limit && (ltb 0 (length req.entries) && leb limit n.log.unstable_bytes)

-- The entries as the node keeps them: a witness keeps no commands.
unfoldable pub kept_entries : AppendRequest → Node → List LogEntry
unfolding strip_for_witness
kept_entries req n = if n.cfg.witness then strip_for_witness req.entries else req.entries

-- The number of the write that a request queues, or why it fails, and the node behind it.
pub record Stored : Type 0 where
  pub error : Option Error
  pub write_seq : ℕ
  pub node : Node

unfoldable pub store_all : List LogEntry → Node → Stored
unfolding append
store_all es n =
    let appended = append n.log es in
    record { error = none; write_seq = appended.0; node = with_log appended n }

-- The commit index that a request vouches for.
unfoldable pub adopt_commit : AppendRequest → Node → Node
unfolding set_commit_index notify_apply
adopt_commit req n =
    let new_commit = min req.leader_commit (add64 req.prev_log_index (length req.entries)) in
    if ltb n.commit_index new_commit then notify_apply (set_commit_index new_commit n) else n

-- The write that puts the entries of a request on disk, whoever queued it.
unfoldable pub entries_gate : ℕ → AppendRequest → Node → ℕ
unfolding write_seq_covering
entries_gate write_seq req n =
    let covering = write_seq_covering n.log (add64 req.prev_log_index (length req.entries)) in
    if ltb 0 (length req.entries) && ltb write_seq covering then covering else write_seq

module _ (disk : Disk) where
  -- A conflict at the first of the entries: the log is cut there, and the membership computed again
  -- where it may have come from an entry that is gone.
  unfoldable pub after_cut : ℕ → Node → Option Error × Node
  unfolding rebuild_membership
  after_cut index n = if leb index n.config_index then rebuild_membership disk n else (none, n)

  unfoldable pub replace_from : LogEntry → List LogEntry → Node → Stored
  unfolding truncate_suffix after_cut store_all fail
  replace_from e es n = elim (truncate_suffix n.log e.index) [
    | err x ↦ record { error = some x; write_seq = 0; node = fail x n }
    | ok cut ↦
        let ready = after_cut e.index (record n { log = cut }) in
        elim ready.0 [
          | some x ↦ record { error = some x; write_seq = 0; node = ready.1 }
          | none ↦ store_all (e ∷ es) ready.1
        ]
  ]

  -- The loop over the entries of a request.
  unfoldable pub store_entries : List LogEntry → Node → Stored
  unfolding store_all replace_from
  store_entries [] n = record { error = none; write_seq = 0; node = n }
  store_entries (e ∷ es) n =
      let rest = store_entries es n in
      elim (term_at n.log e.index) [
        | err missing ↦ store_all (e ∷ es) n
        | ok term ↦ if term == e.term then rest else replace_from e es n
      ]

  -- `replyWhenDurable`
  unfoldable pub reply_when_durable : ℕ → AppendResponse → Channel → Node → Node
  unfolding send_gate after_write
  reply_when_durable write_seq resp ch n =
      after_write disk (send_gate write_seq n) (Deferred.append_answer ch resp) n

  -- The end of `handleAppendEntries`, once the entries are stored.
  unfoldable pub accept_entries : AppendRequest → (term write_seq : ℕ) → Channel → Node → Node
  unfolding note_appended_config adopt_commit entries_gate reply_when_durable
  accept_entries req term write_seq ch n =
      let committed = adopt_commit req (note_appended_config req.entries n) in
      reply_when_durable (entries_gate write_seq req committed) (accept_in term) ch committed

  -- What follows the check of the previous entry.
  unfoldable pub take_entries : AppendRequest → Channel → Node → Node
  unfolding backlog_is_full kept_entries store_entries accept_entries emit_on
  take_entries req ch n =
      let kept = record req { entries = kept_entries req n } in
      let stored = store_entries kept.entries n in
      if backlog_is_full req n
      then emit_on ch (λ c. Effect.answer_error c write_backlog_full) n
      else elim stored.error [
        | some e ↦ emit_on ch (λ c. Effect.answer_error c e) stored.node
        | none ↦ accept_entries kept n.current_term stored.write_seq ch stored.node
      ]

  -- `handleAppendEntries`
  unfoldable pub handle_append_entries : AppendRequest → Channel → Node → Node
  unfolding reply_when_durable become_follower prev_matches conflict_hint take_entries
  handle_append_entries req ch n =
      let heard = become_follower req.term req.leader_id n in
      if ltb req.term n.current_term
      then reply_when_durable 0 (reject_at n.current_term 0 0) ch n
      else if not (prev_matches req heard)
      then reply_when_durable 0 (conflict_hint req heard) ch heard
      else take_entries req ch heard
