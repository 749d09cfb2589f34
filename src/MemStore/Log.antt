-- ===== src/MemStore/Log.antt =====
-- The log of a `MemStore`: what it returns of what was appended and not truncated.
use raft.Prelude.{
  ℕ, zero, suc, ◌+◌, ◌-◌, ◌≤◌, ◌<◌, ltb, leb, ◌&&◌, ◌||◌, if◌then◌else◌, ◌≡◌, refl, ap, ◌∙◌, sym,
  none, some, List, [], ◌∷◌, length, take, drop, arith, add64, u64_mod,
}
use raft.Types.{LogEntry, ok, err, range_not_found, compacted}
use raft.RaftLog.History.{
  Chained, below, from_on, below-none, below-all, from_on-all, from_on-none, from_on-Chained,
}
use raft.RaftLog.Segments.{last_entry}
use raft.MemStore.Defs.{MemStore, get_log_entries, truncate_suffix, truncate_prefix}

pub last_entry-chain :
    (a : ℕ) (e : LogEntry) (es : List LogEntry)
    → Chained a (e ∷ es)
    → (last_entry e es).index ≡ a + length es
last_entry-chain a e [] c = omega (arith, c.0)
last_entry-chain a e (x ∷ xs) c = omega (arith, last_entry-chain (a + 1) x xs c.1)

take-below : (a k : ℕ) (es : List LogEntry) → Chained a es → take k es ≡ below (a + k) es
take-below a zero es c = sym (below-none a (a + 0) es c (omega arith))
take-below a (suc k) [] c = refl
take-below a (suc k) (e ∷ es) c = ground (arith, c.0, take-below (a + 1) k es c.1)

drop-from_on : (a k : ℕ) (es : List LogEntry) → Chained a es → drop k es ≡ from_on (a + k) es
drop-from_on a zero es c = sym (from_on-all a (a + 0) es c (omega arith))
drop-from_on a (suc k) [] c = refl
drop-from_on a (suc k) (e ∷ es) c = ground (arith, c.0, drop-from_on (a + 1) k es c.1)

take_to : (a i : ℕ) (es : List LogEntry) → Chained a es → a ≤ i → take (i - a) es ≡ below i es
take_to a i es c h = take-below a (i - a) es c ∙ ap (λ k. below k es) (omega arith)

drop_to : (a i : ℕ) (es : List LogEntry) → Chained a es → a ≤ i → drop (i - a) es ≡ from_on i es
drop_to a i es c h = drop-from_on a (i - a) es c ∙ ap (λ k. from_on k es) (omega arith)

cut_out :
    (a lo hi : ℕ) (es : List LogEntry)
    → Chained a es
    → a ≤ lo
    → lo ≤ hi
    → take (hi - lo) (drop (lo - a) es) ≡ below hi (from_on lo es)
cut_out a lo hi es c h k =
    ap (take (hi - lo)) (drop_to a lo es c h)
    ∙ take_to lo hi (from_on lo es) (from_on-Chained a lo es c h) k

-- A range is read exactly when the log has all of it; a range that is empty is read as no entries,
-- whatever the log, and any other one is reported as not found.
pub get_log_entries-range :
    (m : MemStore) (a lo hi : ℕ)
    → Chained a m.entries
    → a + length m.entries < u64_mod
    → get_log_entries lo hi m ≡ (
        if leb hi lo
        then ok []
        else if leb a lo && leb hi (a + length m.entries)
        then ok (below hi (from_on lo m.entries))
        else err (range_not_found lo hi))
unfolding get_log_entries
get_log_entries-range m a lo hi c fits = go m.entries refl c fits
  where
    go :
        (l : List LogEntry)
        → m.entries ≡ l
        → Chained a l
        → a + length l < u64_mod
        → (if leb hi lo then ok [] else elim l [
          | [] ↦ err (range_not_found lo hi)
          | e ∷ es ↦
              if ltb lo e.index || ltb (add64 (last_entry e es).index 1) hi
              then err (range_not_found lo hi)
              else ok (take (hi - lo) (drop (lo - e.index) (e ∷ es)))
        ])
          ≡ (if leb hi lo
              then ok []
              else if leb a lo && leb hi (a + length l)
              then ok (below hi (from_on lo l))
              else err (range_not_found lo hi))
    go [] q c' f = ground arith
    go (e ∷ es) q c' f =
        ground (arith, c'.0, last_entry-chain a e es c', cut_out a lo hi (e ∷ es) c')

-- A suffix that starts inside the log, at its first entry, or past its end is dropped; one that
-- starts before what is left of a log that is not empty is refused, and nothing is dropped.
pub truncate_suffix-below :
    (m : MemStore) (a from : ℕ)
    → Chained a m.entries
    → truncate_suffix from m ≡ (
        if ltb 0 (length m.entries) && ltb from a
        then (some (compacted from), m)
        else (none, record m { entries = below from m.entries }))
unfolding truncate_suffix
truncate_suffix-below m a from c = go m.entries refl c
  where
    go :
        (l : List LogEntry)
        → m.entries ≡ l
        → Chained a l
        → truncate_suffix from (record m { entries = l }) ≡ (
            if ltb 0 (length l) && ltb from a
            then (some (compacted from), record m { entries = l })
            else (none, record m { entries = below from l }))
    go [] q c' = refl
    go (e ∷ es) q c' = ground (
      arith,
      c'.0,
      last_entry-chain a e es c',
      below-none a from (e ∷ es) c',
      below-all a from (e ∷ es) c',
      take_to a from (e ∷ es) c',
    )

-- A prefix is dropped, all of the log or nothing of it included.
pub truncate_prefix-from_on :
    (m : MemStore) (a to : ℕ)
    → Chained a m.entries
    → truncate_prefix to m ≡ record m { entries = from_on to m.entries }
unfolding truncate_prefix
truncate_prefix-from_on m a to c = go m.entries refl c
  where
    go :
        (l : List LogEntry)
        → m.entries ≡ l
        → Chained a l
        → truncate_prefix to (record m { entries = l }) ≡ record m { entries = from_on to l }
    go [] q c' = refl
    go (e ∷ es) q c' = ground (
      arith,
      c'.0,
      last_entry-chain a e es c',
      from_on-none a to (e ∷ es) c',
      from_on-all a to (e ∷ es) c',
      drop_to a to (e ∷ es) c',
    )
