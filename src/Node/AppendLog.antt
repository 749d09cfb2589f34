-- ===== src/Node/AppendLog.antt =====
-- What `handleAppendEntries` leaves of a follower's log and commit index when it accepts a request.
use raft.Prelude.{
  ℕ, ◌+◌, ◌≤◌, ◌<◌, ltb, leb, ◌==◌, not, ◌||◌, max, min, if◌then◌else◌, if-cases, true, false, ◌≡◌,
  ◌≢◌, ◌⊎◌, refl, ap, ◌∙◌, sym, subst, Option-cases, List, [], ◌∷◌, length, u64_mod, add64, inl,
  inr, arith,
}
use raft.Types.{LogEntry}
use raft.StorageWriter.Queue.{WriteKind}
use raft.RaftLog.Defs.{RaftLog, last_log_index, stable_index, no_hard_state, term_or_zero}
use raft.RaftLog.History.{Chained, term_in}
use raft.RaftLog.Models.{Models}
use raft.RaftLog.Terms.{term_at-answer}
use raft.RaftLog.Merge.{merge, held_place}
use raft.Node.State.{Node, AppendRequest, AppendResponse, Channel, emit, emit_on}
use raft.Node.Writes.{
  set_commit_index, maybe_record_commit, notify_apply, applicable, commit_record_interval,
}
use raft.Node.HeardLeader.{queue_op-Models, become_follower-Heard}
use raft.Node.Replicate.{Disk, strip_for_witness, strip_entry}
use raft.Node.Follower.{become_follower}
use raft.Node.Transitions.{after_write, run_deferred}
use raft.Node.ConfigApply.{rebuild_batch}
use raft.Node.Membership.{note_appended_config}
use raft.Node.Append.{
  prev_matches, backlog_is_full, kept_entries, store_entries, adopt_commit, entries_gate, accept_in,
  reply_when_durable, accept_entries, take_entries, handle_append_entries,
}
use raft.Node.RebuildCore.{note_appended_config-core}
use raft.Node.RebuildReads.{Reads}
use raft.Node.AppendStore.{Ready, store_entries-Stores}

-- Recording the commit index queues an operation at most.
maybe_record_commit-Models :
    (n : Node) (log written : List LogEntry)
    → Models n.log log written
    → Models (maybe_record_commit n).log log written
      × ((maybe_record_commit n).commit_index ≡ n.commit_index)
unfolding maybe_record_commit
maybe_record_commit-Models n log written m =
    let idx = min n.commit_index (stable_index n.log) in
    if-cases P (not n.log.w.records_commits) n _ (λ h. (m, refl))
      (λ h.
        if-cases P (ltb idx (add64 n.recorded_commit commit_record_interval)) n _ (λ k. (m, refl))
          (λ k. (
            queue_op-Models n.log WriteKind.commit_index [] idx no_hard_state n.log.queued_durable
                log written m,
            refl,
          )))
  where
    P : Node → Type 0
    P k = Models k.log log written × (k.commit_index ≡ n.commit_index)

-- The commit index that a request vouches for is adopted where it is higher.
adopt_commit-Models :
    (req : AppendRequest) (n : Node) (log written : List LogEntry)
    → Models n.log log written
    → Models (adopt_commit req n).log log written
      × ((adopt_commit req n).commit_index
          ≡ max n.commit_index
              (min req.leader_commit (add64 req.prev_log_index (length req.entries))))
unfolding adopt_commit set_commit_index notify_apply emit
adopt_commit-Models req n log written m =
    let new_commit = min req.leader_commit (add64 req.prev_log_index (length req.entries)) in
    let raised = record n { commit_index = new_commit } in
    let (kept, same) = maybe_record_commit-Models raised log written m in
    if-cases P (ltb n.commit_index new_commit) _ n
      (λ h.
        if-cases Q (leb new_commit n.commit_index) n (maybe_record_commit raised)
          (λ k. ground arith)
          (λ k.
            if-cases P (applicable (maybe_record_commit raised) == 0) _ _
              (λ z. (kept, ground (arith, same, h))) (λ z. (kept, ground (arith, same, h)))))
      (λ h. (m, ground (arith, h)))
  where
    P : Node → Type 0
    P k =
        Models k.log log written
        × (k.commit_index
            ≡ max n.commit_index
                (min req.leader_commit (add64 req.prev_log_index (length req.entries))))

    Q : Node → Type 0
    Q k = P (notify_apply k)

-- An answer that is held back, or sent, changes neither.
reply_when_durable-log :
    (disk : Disk) (seq : ℕ) (resp : AppendResponse) (ch : Channel) (n : Node)
    → ◌≡◌ {A = RaftLog × ℕ}
        (
          (reply_when_durable disk seq resp ch n).log,
          (reply_when_durable disk seq resp ch n).commit_index,
        )
        (n.log, n.commit_index)
unfolding reply_when_durable after_write run_deferred emit_on emit
reply_when_durable-log disk seq resp ch n = ground arith

-- A witness keeps the indices of the entries.
strip_for_witness-Chained :
    (a : ℕ) (es : List LogEntry)
    → Chained a es
    → Chained a (strip_for_witness es) × (length (strip_for_witness es) ≡ length es)
unfolding strip_for_witness strip_entry
strip_for_witness-Chained a [] c = (tt, refl)
strip_for_witness-Chained a (e ∷ es) c =
    let rest = strip_for_witness-Chained (a + 1) es c.1 in
    ((ground (arith, c.0), rest.0), omega (arith, rest.1))

pub kept_entries-Chained :
    (a : ℕ) (req : AppendRequest) (n : Node)
    → Chained a req.entries
    → Chained a (kept_entries req n) × (length (kept_entries req n) ≡ length req.entries)
unfolding kept_entries
kept_entries-Chained a req n c =
    if-cases (λ es. Chained a es × (length es ≡ length req.entries)) n.cfg.witness
      (strip_for_witness req.entries) req.entries (λ h. strip_for_witness-Chained a req.entries c)
      (λ h. (c, refl))

-- A request names its previous entry: index 0, or a term, which is never 0.
abbrev pub NamesPrev : AppendRequest → Type 0
NamesPrev req = (req.prev_log_index ≡ 0) ⊎ (req.prev_log_term ≢ 0)

-- A log that has what precedes the entries reaches that far.
prev_matches-near :
    (req : AppendRequest) (n : Node) (log written : List LogEntry)
    → Models n.log log written
    → NamesPrev req
    → prev_matches req n ≡ true
    → req.prev_log_index ≤ last_log_index n.log
unfolding prev_matches last_log_index
prev_matches-near req n log written m names h =
    let answered = term_at-answer n.log log written req.prev_log_index m in
    elim (Option-cases (term_in log req.prev_log_index)) [
      | inl missing ↦ ground (arith, h, answered, missing, names)
      | inr (t, found) ↦
          ground (arith, held_place n.log log req.prev_log_index t m.ends m.chained found)
    ]

-- The end of the handler: what the entries say about the group is noted, and the commit index moves.
accept_entries-Models :
    (disk : Disk) (req : AppendRequest) (term write_seq : ℕ) (ch : Channel) (n : Node)
    (log written : List LogEntry)
    → Models n.log log written
    → Models (accept_entries disk req term write_seq ch n).log log written
      × ((accept_entries disk req term write_seq ch n).commit_index
          ≡ max n.commit_index
              (min req.leader_commit (add64 req.prev_log_index (length req.entries))))
unfolding accept_entries
accept_entries-Models disk req term write_seq ch n log written m =
    let noted = note_appended_config req.entries n in
    let same = note_appended_config-core req.entries n in
    let (kept, moved) =
      adopt_commit-Models req noted log written
        (subst (λ l. Models l log written) (sym (ap (λ k. k.1) same)) m) in
    let committed = adopt_commit req noted in
    let replied =
      reply_when_durable-log disk (entries_gate write_seq req committed) (accept_in term) ch
        committed in
    (
      subst (λ l. Models l log written) (sym (ap (λ k. k.0) replied)) kept,
      ap (λ k. k.1) replied
          ∙ moved
          ∙ ap
              (λ k. max k.2 (min req.leader_commit (add64 req.prev_log_index (length req.entries))))
              same,
    )

-- A node whose log stands for the entries put over `log`, and whose commit index rose from `commit`
-- to what the request vouches for, if that is higher.
abbrev pub Merged : AppendRequest → List LogEntry → List LogEntry → ℕ → Node → Type 0
Merged req es log commit m =
    ((written : List LogEntry) × Models m.log (merge es log) written)
    × (m.commit_index
        ≡ max commit (min req.leader_commit (req.prev_log_index + length req.entries)))

module _ (disk : Disk) (req : AppendRequest) (ch : Channel) where
  take_entries-Merged :
      (n : Node) (log written : List LogEntry)
      → Ready n log written
      → Reads disk written
      → backlog_is_full req n ≡ false
      → n.log.snap_meta.last_included_index ≤ req.prev_log_index
      → req.prev_log_index ≤ last_log_index n.log
      → Chained (req.prev_log_index + 1) req.entries
      → req.prev_log_index + 1 + length req.entries + rebuild_batch < u64_mod
      → Merged req (kept_entries req n) log n.commit_index (take_entries disk req ch n)
  unfolding take_entries
  take_entries-Merged n log written ready reads free above near c room =
      let kept = kept_entries req n in
      let (chain, same_length) = kept_entries-Chained (req.prev_log_index + 1) req n c in
      let stores =
        store_entries-Stores disk kept (req.prev_log_index + 1) n log written ready reads
          (omega (arith, above)) (omega (arith, near)) chain (omega (arith, room, same_length)) in
      let stored = store_entries disk kept n in
      let accepted =
        accept_entries-Models disk (record req { entries = kept }) n.current_term stored.write_seq
          ch stored.node (merge kept log) stores.models.0 stores.models.1 in
      rw (free, stores.stored, take_entries)
        (
          (stores.models.0, accepted.0),
          ground (arith, accepted.1, same_length, stores.commit_kept, room),
        )

  -- A request that the follower accepts (its term is no older, what precedes its entries is in the
  -- log, at the snapshot's boundary or above it, and there is room) is stored whatever the log was:
  -- the log becomes the merge, which loses nothing but what follows a conflict, and the commit index
  -- rises to what the leader has committed of the entries that the request covers, and never falls.
  -- The storage returns the ranges of what the log knows to be written (of others it may return an
  -- error), and the indices fit in 64 bits.
  pub handle_append_entries-Merged :
      (n : Node) (log written : List LogEntry)
      → Models n.log log written
      → Reads disk written
      → n.log.first ≤ n.log.snap_meta.last_included_index + 1
      → n.current_term ≤ req.term
      → NamesPrev req
      → prev_matches req n ≡ true
      → backlog_is_full req n ≡ false
      → n.log.snap_meta.last_included_index ≤ req.prev_log_index
      → Chained (req.prev_log_index + 1) req.entries
      → req.prev_log_index + 1 + length req.entries + rebuild_batch < u64_mod
      → Merged req (kept_entries req n) log n.commit_index (handle_append_entries disk req ch n)
  unfolding handle_append_entries prev_matches backlog_is_full kept_entries
  handle_append_entries-Merged n log written m reads base current names matches free above c room =
      let heard = become_follower req.term req.leader_id n in
      let h = become_follower-Heard req.term req.leader_id n in
      let fresh : ltb req.term n.current_term ≡ false = ground arith in
      let still : prev_matches req heard ≡ true =
        ap (λ t. req.prev_log_index == 0 || term_or_zero t == req.prev_log_term)
          (h.looks req.prev_log_index)
        ∙ matches in
      let taken =
        take_entries-Merged heard log written (h.ready log written m base) reads
          (rw (h.cfg_kept, h.bytes) free) (rw h.snap above)
          (rw h.ends (prev_matches-near req n log written m names matches)) c room in
      let goes : handle_append_entries disk req ch n ≡ take_entries disk req ch heard =
        rw (fresh, still, handle_append_entries) refl in
      let same : kept_entries req heard ≡ kept_entries req n =
        ap (λ c. if c.witness then strip_for_witness req.entries else req.entries) h.cfg_kept in
      subst (Merged req (kept_entries req n) log n.commit_index) (sym goes) (
        subst (λ es. Merged req es log n.commit_index (take_entries disk req ch heard)) same
          (subst (λ k. Merged req (kept_entries req heard) log k (take_entries disk req ch heard))
            h.commit_kept taken))
