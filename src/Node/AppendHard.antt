-- ===== src/Node/AppendHard.antt =====
-- What an append request leaves of the term and the vote: `handleAppendEntries` changes them where it
-- follows the leader, and nowhere else.
use raft.Prelude.{
  Option, NodeId, if◌then◌else◌, ℕ, ltb, leb, not, ◌==◌, if-cases, Bool-cases, false, none, inl,
  inr, Option-cases, List, [], ◌∷◌, ◌≡◌, refl, sym, ap, ◌∙◌, subst, add64, length, min, arith,
}
use raft.Types.{LogEntry, Error, write_backlog_full, Result-cases, is_leader}
use raft.RaftLog.Defs.{truncate_suffix, term_at}
use raft.Node.State.{Deferred, Node, Effect, Channel, AppendRequest, AppendResponse}
use raft.Node.Writes.{fail, save_term, set_commit_index, notify_apply}
use raft.Node.Follower.{nobody, forget_leadership, become_follower}
use raft.Node.StepDown.{apply_follower_transition-held}
use raft.Node.Replicate.{Disk}
use raft.Node.HardState.{hard, emit_on-hard, notify_apply-hard, maybe_record_commit-hard}
use raft.Node.HardTurns.{after_write-hard}
use raft.Node.RebuildCore.{rebuild_membership-core, note_appended_config-core}
use raft.Node.Append.{
  store_all, adopt_commit, after_cut, replace_from, store_entries, reply_when_durable,
  accept_entries, take_entries, handle_append_entries, kept_entries, backlog_is_full, reject_at,
  conflict_hint, prev_matches,
}
use raft.Node.Membership.{note_appended_config}
use raft.Node.Votes.{Kept, Kept-same, become_follower-Kept}

set_commit_index-hard : (index : ℕ) (n : Node) → hard (set_commit_index index n) ≡ hard n
unfolding set_commit_index
set_commit_index-hard index n =
    ground (arith, maybe_record_commit-hard (record n { commit_index = index }))

adopt_commit-hard : (req : AppendRequest) (n : Node) → hard (adopt_commit req n) ≡ hard n
unfolding adopt_commit
adopt_commit-hard req n =
    let new_commit = min req.leader_commit (add64 req.prev_log_index (length req.entries)) in
    if-cases (λ (m : Node). hard m ≡ hard n) (ltb n.commit_index new_commit)
      (notify_apply (set_commit_index new_commit n)) n
      (λ h. notify_apply-hard (set_commit_index new_commit n) ∙ set_commit_index-hard new_commit n)
      (λ h. refl)

become_follower-follows :
    (term : ℕ) (leader : NodeId) (n : Node)
    → is_leader (become_follower term leader n).state ≡ false
unfolding become_follower forget_leadership
become_follower-follows term leader n =
    let stepped : Node = if ltb n.current_term term then (save_term term nobody n).1 else n in
    ap (λ k. is_leader k.8) (apply_follower_transition-held leader stepped)

module _ (disk : Disk) where
  after_cut-hard :
      (index : ℕ) (n : Node) → is_leader n.state ≡ false → hard (after_cut disk index n).1 ≡ hard n
  unfolding after_cut
  after_cut-hard index n h =
      if-cases (λ (p : Option Error × Node). hard p.1 ≡ hard n) (leb index n.config_index) _
        (none, n) (λ k. ap (λ c. (c.3, c.4)) (rebuild_membership-core disk n h)) (λ k. refl)

  replace_from-hard :
      (e : LogEntry) (es : List LogEntry) (n : Node)
      → is_leader n.state ≡ false
      → hard (replace_from disk e es n).node ≡ hard n
  unfolding replace_from store_all fail
  replace_from-hard e es n h = elim (Result-cases (truncate_suffix n.log e.index)) [
    | inl (x, failed) ↦ ground (arith, failed)
    | inr (cut, shorter) ↦
        ground (arith, shorter, after_cut-hard e.index (record n { log = cut }) h)
  ]

  store_entries-hard :
      (es : List LogEntry) (n : Node)
      → is_leader n.state ≡ false
      → hard (store_entries disk es n).node ≡ hard n
  unfolding store_entries store_all
  store_entries-hard [] n h = refl
  store_entries-hard (e ∷ es) n h = elim (Result-cases (term_at n.log e.index)) [
    | inl (x, missing) ↦ rw (missing, store_entries) refl
    | inr (term, found) ↦ elim (Bool-cases (term == e.term)) [
      | inl same ↦ rw (found, store_entries) (rw same (store_entries-hard es n h))
      | inr other ↦ rw (found, store_entries) (rw other (replace_from-hard e es n h))
    ]
  ]

  reply_when_durable-hard :
      (seq : ℕ) (resp : AppendResponse) (ch : Channel) (n : Node)
      → hard (reply_when_durable disk seq resp ch n) ≡ hard n
  unfolding reply_when_durable
  reply_when_durable-hard seq resp ch n = after_write-hard disk _ (Deferred.append_answer ch resp) n

  accept_entries-hard :
      (req : AppendRequest) (term write_seq : ℕ) (ch : Channel) (n : Node)
      → hard (accept_entries disk req term write_seq ch n) ≡ hard n
  unfolding accept_entries
  accept_entries-hard req term write_seq ch n =
      let noted = note_appended_config req.entries n in
      reply_when_durable-hard _ _ ch (adopt_commit req noted)
      ∙ adopt_commit-hard req noted
      ∙ ap (λ c. (c.3, c.4)) (note_appended_config-core req.entries n)

  take_entries-hard :
      (req : AppendRequest) (ch : Channel) (n : Node)
      → is_leader n.state ≡ false
      → hard (take_entries disk req ch n) ≡ hard n
  unfolding take_entries
  take_entries-hard req ch n h =
      let stored = store_entries disk (kept_entries req n) n in
      let same = store_entries-hard (kept_entries req n) n h in
      if-cases (λ (m : Node). hard m ≡ hard n) (backlog_is_full req n) _ _
        (λ full. emit_on-hard ch (λ c. Effect.answer_error c write_backlog_full) n)
        (λ room. elim (Option-cases stored.error) [
          | inr (e, failed) ↦
              rw failed (emit_on-hard ch (λ c. Effect.answer_error c e) stored.node ∙ same)
          | inl stored_all ↦ rw stored_all (
              accept_entries-hard (record req { entries = kept_entries req n }) n.current_term
                stored.write_seq ch stored.node
              ∙ same)
        ])

  pub handle_append_entries-Kept :
      (req : AppendRequest) (ch : Channel) (n : Node)
      → Kept (hard n) (hard (handle_append_entries disk req ch n))
  unfolding handle_append_entries
  handle_append_entries-Kept req ch n =
      let heard = become_follower req.term req.leader_id n in
      let heard-Kept = become_follower-Kept req.term req.leader_id n in
      let kept_by : (m : Node) → hard m ≡ hard heard → Kept (hard n) (hard m) =
        λ (m : Node) (e : hard m ≡ hard heard). subst (Kept (hard n)) (sym e) heard-Kept in
      if-cases (λ (m : Node). Kept (hard n) (hard m)) (ltb req.term n.current_term) _ _
        (λ old.
          Kept-same (hard n) (hard (reply_when_durable disk 0 (reject_at n.current_term 0 0) ch n))
            (reply_when_durable-hard 0 (reject_at n.current_term 0 0) ch n))
        (λ current.
          if-cases (λ (m : Node). Kept (hard n) (hard m)) (not (prev_matches req heard)) _ _
            (λ apart.
              kept_by (reply_when_durable disk 0 (conflict_hint req heard) ch heard)
                (reply_when_durable-hard 0 (conflict_hint req heard) ch heard))
            (λ joined.
              kept_by (take_entries disk req ch heard) (
                take_entries-hard req ch heard (become_follower-follows req.term req.leader_id n))))
