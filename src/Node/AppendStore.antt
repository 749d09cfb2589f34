-- ===== src/Node/AppendStore.antt =====
-- What the loop of `handleAppendEntries` makes of the log: the entries of the request over the
-- follower's own.
use raft.Prelude.{
  ℕ, ◌+◌, ◌≤◌, ◌<◌, leb, ◌==◌, if-cases, false, ◌≡◌, refl, ap, ◌∙◌, sym, subst, Option-cases, none,
  some, List, [], ◌∷◌, ◌++◌, length, u64_mod, inl, inr, arith, Bool-cases,
}
use raft.Types.{LogEntry, is_leader, not_in_log, ok, err}
use raft.RaftLog.Defs.{last_log_index, term_at}
use raft.RaftLog.History.{Chained, term_in, below}
use raft.RaftLog.Models.{Models}
use raft.RaftLog.Terms.{term_at-answer}
use raft.RaftLog.Append.{append-Models}
use raft.RaftLog.Truncate.{Cuttable, truncate_suffix-Models}
use raft.RaftLog.Merge.{
  merge, next_place, held_place, truncate_suffix-ends, truncate_suffix-last_log_index,
}
use raft.Node.State.{Node}
use raft.Node.Replicate.{Disk}
use raft.Node.ConfigApply.{rebuild_batch, rebuild_membership}
use raft.Node.Append.{Stored, store_all, after_cut, replace_from, store_entries}
use raft.Node.RebuildCore.{core, rebuild_membership-core}
use raft.Node.RebuildReads.{Reads, Reads-below, rebuild_membership-Reads}
use raft.RaftLog.Stable.{written-Chained}

-- Storing went well, and the node's log stands for the list. The rest of the node that consensus
-- depends on is as it was.
pub record Stores (n : Node) (s : Stored) (log : List LogEntry) : Type 0 where
  pub stored : s.error ≡ none
  pub models : (written : List LogEntry) × Models s.node.log log written
  pub commit_kept : s.node.commit_index ≡ n.commit_index
  pub state_kept : s.node.state ≡ n.state

-- A follower that can store entries from an index on: its log reaches down to the snapshot.
pub record Ready (n : Node) (log written : List LogEntry) : Type 0 where
  pub models : Models n.log log written
  pub based : n.log.first ≤ n.log.snap_meta.last_included_index + 1
  pub follows : is_leader n.state ≡ false

store_all-Stores :
    (e : LogEntry) (es : List LogEntry) (n : Node) (log written : List LogEntry)
    → Models n.log log written
    → e.index ≡ last_log_index n.log + 1
    → Chained e.index (e ∷ es)
    → e.index + length es + 1 < u64_mod
    → Stores n (store_all (e ∷ es) n) (log ++ e ∷ es)
unfolding store_all
store_all-Stores e es n log written m place c room = record {
  stored = refl;
  models = (
    written,
    append-Models n.log log written e es m (subst (λ k. Chained k (e ∷ es)) place c)
        (omega (arith, place)),
  );
  commit_kept = refl;
  state_kept = refl;
}

module _ (disk : Disk) where
  -- Computing the membership again, or not, leaves the shorter log as it is.
  after_cut-core :
      (index : ℕ) (n : Node) (log written : List LogEntry)
      → Models n.log log written
      → Reads disk written
      → is_leader n.state ≡ false
      → n.log.last + rebuild_batch < u64_mod
      → ((after_cut disk index n).0 ≡ none) × (core (after_cut disk index n).1 ≡ core n)
  unfolding after_cut
  after_cut-core index n log written m reads h room =
      if-cases (λ p. (p.0 ≡ none) × (core p.1 ≡ core n)) (leb index n.config_index)
        (rebuild_membership disk n) (none, n)
        (λ k. (
          rebuild_membership-Reads disk log written n m reads h room,
          rebuild_membership-core disk n h,
        ))
        (λ k. (refl, refl))

  replace_from-Stores :
      (e : LogEntry) (es : List LogEntry) (t : ℕ) (n : Node) (log written : List LogEntry)
      → Ready n log written
      → Reads disk written
      → term_in log e.index ≡ some t
      → n.log.snap_meta.last_included_index < e.index
      → Chained e.index (e ∷ es)
      → e.index + length es + rebuild_batch < u64_mod
      → Stores n (replace_from disk e es n) (below e.index log ++ e ∷ es)
  unfolding replace_from
  replace_from-Stores e es t n log written ready reads found above c room =
      let m = ready.models in
      let held = held_place n.log log e.index t m.ends m.chained found in
      let cuttable : Cuttable n.log e.index = ground (arith, held, above) in
      let (r, did, cut) = truncate_suffix-Models n.log log written e.index m cuttable in
      let shorter = record n { log = r } in
      let ends = truncate_suffix-ends n.log r e.index did in
      let place =
        truncate_suffix-last_log_index n.log r e.index did ready.based above
          (omega (arith, room)) in
      let (fine, same) =
        after_cut-core e.index shorter (below e.index log) (below e.index written) cut
          (Reads-below disk n.log.first e.index written (written-Chained n.log log written m) reads)
          ready.follows (ground (arith, ends.0, room)) in
      let after = (after_cut disk e.index shorter).1 in
      let log_same : after.log ≡ r = ap (λ k. k.1) same in
      let stores =
        store_all-Stores e es after (below e.index log) (below e.index written)
          (subst (λ l. Models l (below e.index log) (below e.index written)) (sym log_same) cut)
          (rw log_same (omega (arith, place))) c (omega (arith, room)) in
      rw (did, fine, replace_from)
        (record {
          stored = stores.stored;
          models = stores.models;
          commit_kept = stores.commit_kept ∙ ap (λ k. k.2) same;
          state_kept = stores.state_kept ∙ ap (λ k. k.0) same;
        })

  -- Entries that lie above the snapshot and start no further than one past the end of the log are
  -- stored, and the log is then the merge: nothing is lost but what follows a conflict.
  pub store_entries-Stores :
      (es : List LogEntry) (start : ℕ) (n : Node) (log written : List LogEntry)
      → Ready n log written
      → Reads disk written
      → n.log.snap_meta.last_included_index < start
      → start ≤ last_log_index n.log + 1
      → Chained start es
      → start + length es + rebuild_batch < u64_mod
      → Stores n (store_entries disk es n) (merge es log)
  unfolding store_entries
  store_entries-Stores [] start n log written ready reads above near c room = record {
    stored = refl;
    models = (written, ready.models);
    commit_kept = refl;
    state_kept = refl;
  }
  store_entries-Stores (e ∷ es) start n log written ready reads above near c room =
      let m = ready.models in
      let here : e.index ≡ start = c.0 in
      let chain : Chained e.index (e ∷ es) = (refl, rw here c.1) in
      let answered = term_at-answer n.log log written e.index m in
      elim (Option-cases (term_in log e.index)) [
        | inl missing ↦
            let lookup : term_at n.log e.index ≡ err (not_in_log e.index) =
              ground (arith, answered, missing) in
            rw (lookup, missing, store_entries, merge)
              (store_all-Stores e es n log written m
                (next_place n.log log e.index m.ends m.chained ready.based (omega (arith, here))
                  (omega (arith, here)) missing)
                chain (omega (arith, room, here)))
        | inr (t, found) ↦
            let lookup : term_at n.log e.index ≡ ok t = ground (arith, answered, found, here) in
            let held = held_place n.log log e.index t m.ends m.chained found in
            elim (Bool-cases (t == e.term)) [
              | inl same ↦
                  rw (lookup, found, same, store_entries, merge)
                    (store_entries-Stores es (start + 1) n log written ready reads (omega arith)
                      (omega (arith, held, here)) c.1 (omega (arith, room)))
              | inr differs ↦
                  rw (lookup, found, differs, store_entries, merge)
                    (replace_from-Stores e es t n log written ready reads found
                      (omega (arith, here)) chain (omega (arith, room, here)))
            ]
      ]
