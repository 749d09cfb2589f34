-- ===== src/RaftLog/Merge.antt =====
-- The log that a follower owes its leader: the entries of a request put over its own, and the facts
-- about ends and positions that storing them needs.
use raft.Prelude.{
  ℕ, ◌+◌, ◌≤◌, ◌<◌, leb, ◌==◌, if◌then◌else◌, ◌≡◌, ap, inl, inr, none, some, List, [], ◌∷◌, ◌++◌,
  length, u64_mod, sub64, arith,
}
use raft.Types.{LogEntry, Result-cases, ok}
use raft.RaftLog.History.{Chained, term_in, below}
use raft.RaftLog.Defs.{
  RaftLog, last_log_index, truncate_suffix, cut_suffix, new_last_term, queue_op,
}
use raft.RaftLog.Models.{Ends}

-- The entries go behind the log where it has none at their index, over it from the first one whose
-- term differs, and change nothing where the log has them all.
abbrev pub merge : List LogEntry → List LogEntry → List LogEntry
merge [] log = log
merge (e ∷ es) log =
    let rest = merge es log in
    elim (term_in log e.index) [
      | none ↦ log ++ e ∷ es
      | some t ↦ if t == e.term then rest else below e.index log ++ e ∷ es
    ]

-- A chain has every index of its range, and no other.
pub term_in_inside :
    (a i : ℕ) (es : List LogEntry) → Chained a es → term_in es i ≡ none → a ≤ i → a + length es ≤ i
term_in_inside a i [] c h k = omega arith
term_in_inside a i (e ∷ es) c h k = ground (arith, c.0, term_in_inside (a + 1) i es c.1)

pub term_in_range :
    (a i t : ℕ) (es : List LogEntry)
    → Chained a es
    → term_in es i ≡ some t
    → (a ≤ i) × (i < a + length es)
term_in_range a i t [] c h = absurd cc
term_in_range a i t (e ∷ es) c h =
    ground (arith, c.0, λ (k : term_in es i ≡ some t). term_in_range (a + 1) i t es c.1 k)

-- The log ends where the next entry goes, when it starts no later than behind the snapshot.
pub next_place :
    (rl : RaftLog) (log : List LogEntry) (i : ℕ)
    → Ends rl log
    → Chained rl.first log
    → rl.first ≤ rl.snap_meta.last_included_index + 1
    → rl.snap_meta.last_included_index < i
    → i ≤ last_log_index rl + 1
    → term_in log i ≡ none
    → i ≡ last_log_index rl + 1
unfolding last_log_index
next_place rl [] i ends c base above near missing = ground (arith, ends)
next_place rl (x ∷ xs) i ends c base above near missing =
    ground (arith, ends, term_in_inside rl.first i (x ∷ xs) c missing)

pub held_place :
    (rl : RaftLog) (log : List LogEntry) (i t : ℕ)
    → Ends rl log
    → Chained rl.first log
    → term_in log i ≡ some t
    → (rl.first ≤ i) × (i ≤ rl.last) × (i ≤ last_log_index rl)
unfolding last_log_index
held_place rl [] i t ends c found = absurd cc
held_place rl (x ∷ xs) i t ends c found =
    ground (arith, ends, term_in_range rl.first i t (x ∷ xs) c found)

-- Where a cut log ends, and that its snapshot stays.
pub truncate_suffix-ends :
    (rl r : RaftLog) (from : ℕ)
    → truncate_suffix rl from ≡ ok r
    → (r.last ≡ (if leb from rl.first then 0 else sub64 from 1)) × (r.snap_meta ≡ rl.snap_meta)
unfolding truncate_suffix cut_suffix queue_op
truncate_suffix-ends rl r from h = elim (Result-cases (new_last_term rl from)) [
  | inl (x, e) ↦ ground (arith, h, e)
  | inr (t, e) ↦ ground (arith, h, e)
]

-- Cut at an index that it holds above the snapshot, the log ends just below that index.
pub truncate_suffix-last_log_index :
    (rl r : RaftLog) (from : ℕ)
    → truncate_suffix rl from ≡ ok r
    → rl.first ≤ rl.snap_meta.last_included_index + 1
    → rl.snap_meta.last_included_index < from
    → from < u64_mod
    → last_log_index r + 1 ≡ from
unfolding last_log_index
truncate_suffix-last_log_index rl r from h base above fits = ground (
  arith,
  truncate_suffix-ends rl r from h,
  ap (λ s. s.last_included_index) (truncate_suffix-ends rl r from h).1,
)
