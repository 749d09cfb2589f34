-- ===== src/Node/RebuildReads.antt =====
-- When computing the membership again succeeds: where the storage has what was written.
use raft.Prelude.{
  ℕ, zero, suc, ◌+◌, ltb, leb, ◌==◌, not, ◌&&◌, ◌||◌, ◌≤◌, ◌<◌, ◌-◌, u64_mod, Bool-cases,
  if◌then◌else◌, if-cases, false, add64, inl, inr, min, none, List, [], ◌∷◌, ◌++◌, length,
  length-append, ◌≡◌, refl, sym, ◌∙◌, ap, subst, arith,
}
use raft.Types.{LogEntry, Result, ok, err, range_not_in_log, is_leader}
use raft.RaftLog.History.{Chained, below, from_on, below-none, below-from_on}
use raft.RaftLog.Defs.{RaftLog, entries}
use raft.RaftLog.Segments.{unstable_first, unstable_slice}
use raft.RaftLog.Models.{Models}
use raft.RaftLog.Stable.{written-end, written-Chained}
use raft.Node.State.{Node}
use raft.Node.Replicate.{Disk}
use raft.Node.ConfigApply.{
  adopt_entries, adopt_batches, rebuild_base, rebuild_membership, rebuild_batch,
}
use raft.Node.RebuildCore.{rebuild_base-core, adopt_entries-core}

abbrev Readable : Result (List LogEntry) → Type 0
Readable r = (es : List LogEntry) × (r ≡ ok es)

-- The storage returns each range that lies in what was written. Of any other range it may say what it
-- says.
abbrev pub Reads : Disk → List LogEntry → Type 0
Reads disk written =
    (a lo hi : ℕ)
    → Chained a written
    → a ≤ lo
    → lo < hi
    → hi ≤ a + length written
    → (es : List LogEntry) × (disk.get_log_entries lo hi ≡ ok es)

-- It still returns what is left when the written entries are cut.
pub Reads-below :
    (disk : Disk) (a i : ℕ) (written : List LogEntry)
    → Chained a written
    → Reads disk written
    → Reads disk (below i written)
Reads-below disk a i written c reads b lo hi c' from some_left to = go written c reads c' to
  where
    go :
        (l : List LogEntry)
        → Chained a l
        → Reads disk l
        → Chained b (below i l)
        → hi ≤ b + length (below i l)
        → (es : List LogEntry) × (disk.get_log_entries lo hi ≡ ok es)
    go [] c1 r c2 to' = r b lo hi tt from some_left to'
    go (e ∷ es) c1 r c2 to' =
        let parts = below-from_on (a + 1) i es c1.1 in
        let shorter : length (below i es) ≤ length es =
          omega (arith, length-append (below i es) (from_on i es), ap length parts) in
        elim (Bool-cases (ltb e.index i)) [
          | inl stays ↦
              let starts : b ≡ a = ground (arith, stays, c1.0, c2) in
              r a lo hi c1 (omega (arith, starts, from)) some_left
                (ground (arith, stays, to', shorter, starts, from))
          | inr goes ↦
              absurd
                (ground (arith, goes, c1.0, to', some_left, from, below-none (a + 1) i es c1.1))
        ]

module _ (disk : Disk) where
  -- Inside the log, `entries` returns what it is asked for, too.
  entries-Reads :
      (rl : RaftLog) (log written : List LogEntry) (lo hi : ℕ)
      → Models rl log written
      → Reads disk written
      → 0 < rl.first
      → rl.first ≤ lo
      → Readable (entries disk.get_log_entries rl lo hi)
  unfolding entries
  entries-Reads rl log written lo hi' m reads h k =
      let hi = if ltb (add64 rl.last 1) hi' then add64 rl.last 1 else hi' in
      let us = unstable_first rl.segs in
      let storage_hi = if not (us == 0) && ltb us hi then us else hi in
      let fits = m.fits in
      let end = written-end rl log written m h in
      if-cases Readable (leb hi lo) (ok []) _ (λ stop. ([], refl))
        (λ more.
          if-cases Readable (rl.first == 0 || ltb lo rl.first) (err (range_not_in_log lo hi)) _
            (λ out. absurd (ground arith))
            (λ inside.
              if-cases Readable (not (us == 0) && leb us lo) (ok (unstable_slice rl.segs lo hi)) _
                (λ held. (unstable_slice rl.segs lo hi, refl))
                (λ stored.
                  let (es, e) =
                    reads rl.first lo storage_hi (written-Chained rl log written m) k
                      (ground (arith, more, stored)) (ground (arith, end, fits)) in
                  rw e (
                    if-cases Readable (ltb storage_hi hi)
                      (ok (es ++ unstable_slice rl.segs storage_hi hi)) (ok es)
                      (λ part. (es ++ unstable_slice rl.segs storage_hi hi, refl))
                      (λ whole. (es, refl))))))

  adopt_batches-Reads :
      (log written : List LogEntry) (rounds lo last : ℕ) (n : Node)
      → Models n.log log written
      → Reads disk written
      → is_leader n.state ≡ false
      → 0 < n.log.first
      → n.log.first ≤ lo
      → last + rebuild_batch < u64_mod
      → (adopt_batches disk rounds lo last n).0 ≡ none
  unfolding adopt_batches
  adopt_batches-Reads log written zero lo last n m reads h p q f = refl
  adopt_batches-Reads log written (suc rounds) lo last n m reads h p q f =
      let (es, e) =
        entries-Reads n.log log written lo (min (add64 lo rebuild_batch) (add64 last 1)) m reads p
          q in
      let adopted = adopt_entries disk es n in
      let same = adopt_entries-core disk es n h in
      let log_same : adopted.log ≡ n.log = ap (λ c. c.1) same in
      elim (Bool-cases (ltb last lo)) [
        | inl done ↦ rw done refl
        | inr more ↦
            rw (more, e)
              (adopt_batches-Reads log written rounds (add64 lo rebuild_batch) last adopted
                (subst (λ l. Models l log written) (sym log_same) m) reads
                (ap (λ c. is_leader c.0) same ∙ h) (rw log_same p)
                (rw log_same (let inside : lo ≤ last = ground arith in omega arith)) f)
      ]

  -- It fails only where the storage fails to return what was written.
  pub rebuild_membership-Reads :
      (log written : List LogEntry) (n : Node)
      → Models n.log log written
      → Reads disk written
      → is_leader n.state ≡ false
      → n.log.last + rebuild_batch < u64_mod
      → (rebuild_membership disk n).0 ≡ none
  unfolding rebuild_membership
  rebuild_membership-Reads log written n m reads h f =
      let base = rebuild_base n in
      let same = rebuild_base-core n in
      let log_same : base.log ≡ n.log = ap (λ c. c.1) same in
      elim (Bool-cases (base.log.first == 0 || ltb base.log.last base.log.first)) [
        | inl done ↦ rw done refl
        | inr more ↦ rw more (
            adopt_batches-Reads log written (base.log.last + 1 - base.log.first) base.log.first
              base.log.last base (subst (λ l. Models l log written) (sym log_same) m) reads
              (ap (λ c. is_leader c.0) same ∙ h) (ground arith) (omega arith) (rw log_same f))
      ]
