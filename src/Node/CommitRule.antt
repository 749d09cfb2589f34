-- ===== src/Node/CommitRule.antt =====
-- What a commit rests on: `maybeAdvanceCommit` of node_replication.go.
use raft.Prelude.{
  ℕ, zero, suc, ◌+◌, ◌-◌, ◌<◌, ◌≤◌, ◌==◌, not, ◌||◌, if-cases, true, false, Option, Option-cases,
  ap, none, some, List, [], ◌∷◌, ◌≡◌, refl, ◌∙◌, sym, subst, ◌⊎◌, inl, inr, arith, u64_mod,
}
use mathlib.Core.Logic.{◌↔◌}
use raft.Types.{LogEntry, is_leader}
use raft.RaftLog.History.{Chained, term_in}
use raft.RaftLog.Models.{Models, Ends}
use raft.RaftLog.Merge.{held_place, term_in_inside}
use raft.Node.Agreed.{Agreed, committed_at-Agreed}
use raft.RaftLog.Defs.{RaftLog, last_log_index}
use raft.Node.State.{Node}
use raft.Node.Writes.{set_commit_index, notify_apply}
use raft.Node.CommitFrame.{
  commit, note_nop_committed-commit, notify_apply-commit, set_commit_index-commit,
}
use raft.Node.Commit.{
  committed_at, scan_down, scan_bottom, note_nop_committed, maybe_advance_commit,
}

-- The answer of a downward scan of `rounds` indices from `lo` on: the highest that is committed.
abbrev pub Highest : Node → ℕ → ℕ → Option ℕ → Type 0
Highest n lo rounds none = (j : ℕ) → lo ≤ j → j < lo + rounds → committed_at n j ≡ false
Highest n lo rounds (some idx) =
    (lo ≤ idx)
    × (idx < lo + rounds)
    × (committed_at n idx ≡ true)
    × ((j : ℕ) → idx < j → j < lo + rounds → committed_at n j ≡ false)

higher-Highest :
    (n : Node) (lo k : ℕ) (lower : Option ℕ)
    → Highest n lo k lower
    → committed_at n (lo + k) ≡ false
    → Highest n lo (suc k) lower
higher-Highest n lo k none h f = λ j a b. ground (arith, f, h j)
higher-Highest n lo k (some idx) (low, high, is, above) f =
    (low, omega (arith, high), is, λ j a b. ground (arith, f, above j))

scan_down-Highest : (n : Node) (lo rounds : ℕ) → Highest n lo rounds (scan_down n lo rounds)
unfolding scan_down
scan_down-Highest n lo zero = λ j h k. absurd (omega arith)
scan_down-Highest n lo (suc k) =
    if-cases (Highest n lo (suc k)) (committed_at n (lo + k)) (some (lo + k)) (scan_down n lo k)
      (λ h. (omega arith, omega arith, h, λ j a b. absurd (omega arith)))
      (λ h. higher-Highest n lo k (scan_down n lo k) (scan_down-Highest n lo k) h)

-- From the commit index on, the entries of the leader's own term are those from where its term
-- started, as it appends entries of its own term only.
abbrev pub StartsTerm : Node → List LogEntry → Type 0
StartsTerm n log =
    (j t : ℕ)
    → n.commit_index < j
    → term_in log j ≡ some t
    → (t ≡ n.current_term) ↔ (n.term_start_index ≤ j)

-- An index that a leader may commit by counting: above the commit index, with an entry of the
-- leader's own term in the log.
abbrev pub Open : Node → List LogEntry → ℕ → Type 0
Open n log j = (n.commit_index < j) × (term_in log j ≡ some n.current_term)

-- The commit index `c` is the highest open one that is agreed on, or the old one where none is.
abbrev pub Advanced : Node → List LogEntry → ℕ → Type 0
Advanced n log c =
    ((c ≡ n.commit_index) × ((j : ℕ) → Open n log j → ¬ Agreed n j))
    ⊎ (Open n log c × Agreed n c × ((j : ℕ) → c < j → j ≤ last_log_index n.log → ¬ Agreed n j))

not-Agreed : (n : Node) (j : ℕ) → committed_at n j ≡ false → ¬ Agreed n j
not-Agreed n j h a =
    let yes_agreed = (committed_at-Agreed n j).1 a in absurd (ground (arith, h, yes_agreed))

-- Where an index above the commit index is in the log.
Open-place :
    (n : Node) (log written : List LogEntry) (j : ℕ)
    → Models n.log log written
    → StartsTerm n log
    → Open n log j
    → (n.term_start_index ≤ j) × (j ≤ last_log_index n.log)
unfolding last_log_index
Open-place n log written j m starts (above, found) =
    let place = held_place n.log log j n.current_term m.ends m.chained found in
    let own = (starts j n.current_term above found).0 refl in (own, ground (arith, place))

-- An index above the snapshot that the log lacks lies beyond its end.
missing_beyond :
    (rl : RaftLog) (log : List LogEntry) (j : ℕ)
    → Ends rl log
    → Chained rl.first log
    → rl.first ≤ j
    → rl.snap_meta.last_included_index < j
    → term_in log j ≡ none
    → last_log_index rl < j
unfolding last_log_index
missing_beyond rl [] j ends c from behind missing = ground (arith, ends, behind)
missing_beyond rl (x ∷ xs) j ends c from behind missing =
    ground (arith, ends, behind, term_in_inside rl.first j (x ∷ xs) c missing from)

place-Open :
    (n : Node) (log written : List LogEntry) (j : ℕ)
    → Models n.log log written
    → n.log.first ≤ n.commit_index + 1
    → n.log.snap_meta.last_included_index ≤ n.commit_index
    → StartsTerm n log
    → n.commit_index < j
    → n.term_start_index ≤ j
    → j ≤ last_log_index n.log
    → Open n log j
unfolding last_log_index
place-Open n log written j m from behind starts above own inside =
    elim (Option-cases (term_in log j)) [
      | inl missing ↦ absurd (
          omega (
            arith,
            inside,
            missing_beyond n.log log j m.ends m.chained (omega (arith, from, above))
                (omega (arith, behind, above)) missing,
          ))
      | inr (t, found) ↦
          let mine : t ≡ n.current_term = (starts j t above found).1 own in
          (above, found ∙ ap some mine)
    ]

scan_bottom-max :
    (n : Node)
    → n.commit_index + 1 < u64_mod
    → (n.commit_index < scan_bottom n)
      × (n.term_start_index ≤ scan_bottom n)
      × ((j : ℕ) → n.commit_index < j → n.term_start_index ≤ j → scan_bottom n ≤ j)
unfolding scan_bottom
scan_bottom-max n h = (ground arith, ground arith, λ j a b. ground arith)

-- A leader that has started its term moves its commit index to the highest index with an entry of
-- its own term that is agreed on, and leaves it where no such index lies above it, so that it never
-- commits an entry of an earlier term by counting. Agreed on means that the replicas which have the
-- index reach the commit quorum: full voters, the leader itself as far as its own disk has the log,
-- and witnesses while a full voter that lacks the index is down; and that they lie in as many zones as
-- are asked for; during a change, in the old membership and in the new one. The log reaches down to
-- the commit index and the snapshot does not pass it, the entries above it from where the leader's
-- term started are those of its term, and the indices fit in 64 bits.
pub maybe_advance_commit-Advanced :
    (n : Node) (log written : List LogEntry)
    → is_leader n.state ≡ true
    → Models n.log log written
    → n.log.first ≤ n.commit_index + 1
    → n.log.snap_meta.last_included_index ≤ n.commit_index
    → 0 < n.term_start_index
    → StartsTerm n log
    → n.commit_index + 1 < u64_mod
    → Advanced n log (maybe_advance_commit n).commit_index
unfolding maybe_advance_commit
maybe_advance_commit-Advanced n log written leads m from behind started starts fits =
    if-cases (λ k. Advanced n log (commit k)) (not (is_leader n.state) || n.term_start_index == 0) _
      _ (λ idle. absurd (ground (arith, leads)))
      (λ h. go (scan_down n lo rounds) (scan_down-Highest n lo rounds))
  where
    lo : ℕ
    lo = scan_bottom n

    rounds : ℕ
    rounds = last_log_index n.log + 1 - lo

    go :
        (o : Option ℕ)
        → Highest n lo rounds o
        → Advanced n log (
            commit (elim o [
              | none ↦ n
              | some idx ↦ note_nop_committed (notify_apply (set_commit_index idx n))
            ]))
    go none none_open =
        let (above, term, least) = scan_bottom-max n fits in
        inl (
          refl,
          λ j can.
              let (a, found) = can in
              let (b, c) = Open-place n log written j m starts can in
              not-Agreed n j (none_open j (least j a b) (omega (arith, least j a b, c))),
        )
    go (some idx) (low, high, is, highest) =
        let (above, term, least) = scan_bottom-max n fits in
        let moved : commit (note_nop_committed (notify_apply (set_commit_index idx n))) ≡ idx =
          note_nop_committed-commit (notify_apply (set_commit_index idx n))
          ∙ notify_apply-commit (set_commit_index idx n)
          ∙ set_commit_index-commit idx n (omega (arith, above)) in
        subst (Advanced n log) (sym moved) (
          inr (
            place-Open n log written idx m from behind starts (omega (arith, above, low))
                (omega (arith, term, low)) (omega (arith, high)),
            (committed_at-Agreed n idx).0 is,
            λ j a b. not-Agreed n j (highest j a (omega (arith, low, b))),
          ))
