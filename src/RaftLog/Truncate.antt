-- ===== src/RaftLog/Truncate.antt =====
-- `truncateSuffix` of raft_log.go: the log it stands for loses its end, and the call never fails.
use raft.Prelude.{
  ℕ, ◌+◌, ◌-◌, ◌≤◌, ◌<◌, ◌≡◌, refl, ap, ◌∙◌, sym, subst, u64_mod, sub64, some, List, [], ◌∷◌, ◌++◌,
  length, arith, le→leb, ◌⊎◌, inl, inr,
}
use raft.Types.{LogEntry, ok}
use raft.RaftLog.History.{
  Chained, term_in, below, below-none, below-append, below-Chained, length-below, term_in-below,
}
use raft.RaftLog.Runs.{extend_runs, truncate_runs_from}
use raft.RaftLog.RunCuts.{truncate_runs_from-extend_runs}
use raft.RaftLog.Segments.{command_bytes, last_entry}
use raft.RaftLog.Segments.{drop_unstable_from}
use raft.RaftLog.Unstable.{flat, Chained-right, last_entry-index}
use raft.RaftLog.UnstableCuts.{Holds, drop_unstable_from-Holds}
use raft.RaftLog.Defs.{RaftLog, new_last_term, cut_suffix, truncate_suffix}
use raft.RaftLog.Models.{Models, Ends}
use raft.RaftLog.Terms.{term_at-answer}

pub term_in-last_entry :
    (e : LogEntry) (es : List LogEntry)
    → Chained (e.index + 1) es
    → term_in (e ∷ es) (last_entry e es).index ≡ some (last_entry e es).term
term_in-last_entry e [] h = ground arith
term_in-last_entry e (x ∷ xs) h =
    ground (arith, h.0, last_entry-index x xs (rw h.0 h.1), term_in-last_entry x xs (rw h.0 h.1))

-- The segments lie at the end of the log.
pub segments-Chained :
    {rl : RaftLog} {log written : List LogEntry}
    → Models rl log written
    → Chained (rl.first + length written) (flat rl.segs)
segments-Chained {rl} {log} {written} m =
    Chained-right rl.first written (flat rl.segs) (subst (Chained rl.first) (sym m.held) m.chained)

module _ (rl : RaftLog) (log written : List LogEntry) (m : Models rl log written) (from : ℕ) where
  -- What the segments hold after the cut.
  cut_segments :
      Holds rl.unstable_bytes
        (flat rl.segs)
        (drop_unstable_from from rl.segs rl.unstable_bytes)
        (below from (flat rl.segs))
  cut_segments =
      drop_unstable_from-Holds from rl.segs (rl.first + length written) rl.unstable_bytes m.filled
        (segments-Chained m) (omega (arith, m.bytes))

  cut_held :
      below from written ++ flat (drop_unstable_from from rl.segs rl.unstable_bytes).0
      ≡ below from log
  cut_held =
      ap (λ x. below from written ++ x) cut_segments.0
      ∙ sym (below-append from written (flat rl.segs))
      ∙ ap (below from) m.held

  cut_bytes :
      (drop_unstable_from from rl.segs rl.unstable_bytes).1
      ≡ command_bytes (flat (drop_unstable_from from rl.segs rl.unstable_bytes).0)
  cut_bytes = omega (arith, cut_segments.1, m.bytes, ap command_bytes cut_segments.0)

  -- The term that the shorter log ends in is the one that is looked up before the cut.
  new_last_term-last_entry :
      (e : LogEntry) (es : List LogEntry)
      → below from log ≡ e ∷ es
      → rl.first < from
      → from ≤ rl.first + length log
      → 0 < rl.first
      → from < u64_mod
      → new_last_term rl from ≡ ok (last_entry e es).term
  unfolding new_last_term
  new_last_term-last_entry e es b h k p l =
      let chain : Chained rl.first (e ∷ es) =
        subst (Chained rl.first) b (below-Chained rl.first from log m.chained) in
      let at_end : (last_entry e es).index ≡ from - 1 = omega (
        arith,
        last_entry-index e es (rw chain.0 chain.1),
        chain.0,
        ap length b,
        length-below rl.first from log m.chained,
      ) in
      let there : term_in log (from - 1) ≡ some (last_entry e es).term =
        sym (term_in-below from (from - 1) log (omega arith))
        ∙ ap (λ x. term_in x (from - 1)) b
        ∙ subst (λ n. term_in (e ∷ es) n ≡ some (last_entry e es).term) at_end
            (term_in-last_entry e es (rw chain.0 chain.1)) in
      let exact : sub64 from 1 ≡ from - 1 = omega arith in
      ground (
        arith,
        exact,
        there,
        term_at-answer rl log written (from - 1) m,
        m.boundary (last_entry e es).term,
      )

  -- From the first entry on, or before it, nothing is left.
  truncate_all :
      from ≤ rl.first
      → (r : RaftLog) × (truncate_suffix rl from ≡ ok r)
        × Models r (below from log) (below from written)
  unfolding truncate_suffix
  truncate_all h =
      let cut = cut_suffix rl from in
      let r : RaftLog = record cut {
        first = 0;
        last = 0;
        last_term = rl.snap_meta.last_included_term;
        runs = [];
      } in
      let empty = below-none rl.first from log m.chained h in
      (
        r,
        ground (arith, le→leb from rl.first h),
        record {
          ends = rw empty (refl, refl, refl);
          chained = rw empty tt;
          run_index = rw empty (unfold extend_runs in refl);
          held = cut_held;
          boundary = λ t q. cc (empty, q);
          filled = cut_segments.2;
          bytes = cut_bytes;
          fits = omega arith;
          snap_fits = m.snap_fits;
        },
      )

  -- Further on, the log ends just before the index.
  truncate_some :
      (e : LogEntry) (es : List LogEntry)
      → below from log ≡ e ∷ es
      → rl.first < from
      → from ≤ rl.first + length log
      → 0 < rl.first
      → from ≤ rl.last + 1
      → rl.snap_meta.last_included_index < from
      → (r : RaftLog) × (truncate_suffix rl from ≡ ok r)
        × Models r (below from log) (below from written)
  unfolding truncate_suffix
  truncate_some e es b h k p l s =
      let cut = cut_suffix rl from in
      let r : RaftLog = record cut { last = sub64 from 1; last_term = (last_entry e es).term } in
      let chain : Chained rl.first (e ∷ es) =
        subst (Chained rl.first) b (below-Chained rl.first from log m.chained) in
      (
        r,
        ground (arith, new_last_term-last_entry e es b h k p (omega (arith, m.fits))),
        record {
          ends = rw b (
            p,
            omega (arith, m.fits, length-below rl.first from log m.chained, ap length b),
            refl,
            omega (arith, m.fits),
          );
          chained = below-Chained rl.first from log m.chained;
          run_index =
              ap (truncate_runs_from from) m.run_index
              ∙ truncate_runs_from-extend_runs rl.first from log m.chained h k;
          held = cut_held;
          boundary = λ t q.
              m.boundary t (sym (term_in-below from rl.snap_meta.last_included_index log s) ∙ q);
          filled = cut_segments.2;
          bytes = cut_bytes;
          fits = omega (arith, m.fits);
          snap_fits = m.snap_fits;
        },
      )

-- Where `truncateSuffix` may cut: at or before the first entry, or inside the log and above the
-- snapshot's boundary.
abbrev pub Cuttable : RaftLog → ℕ → Type 0
Cuttable rl from =
    (from ≤ rl.first)
    ⊎ ((rl.first < from) × (from ≤ rl.last) × (rl.snap_meta.last_included_index < from))

pub length-Ends :
    (rl : RaftLog) (log : List LogEntry)
    → Ends rl log
    → 0 < rl.last
    → (0 < rl.first) × (rl.first + length log ≡ rl.last + 1)
length-Ends rl [] h p = absurd (omega (arith, h.1))
length-Ends rl (e ∷ es) h p = (h.0, omega (arith, h.1))

-- At such an index `truncateSuffix` succeeds, and then the state stands for the entries below it.
pub truncate_suffix-Models :
    (rl : RaftLog) (log written : List LogEntry) (from : ℕ)
    → Models rl log written
    → Cuttable rl from
    → (r : RaftLog) × (truncate_suffix rl from ≡ ok r)
      × Models r (below from log) (below from written)
truncate_suffix-Models rl log written from m (inl h) = truncate_all rl log written m from h
truncate_suffix-Models rl log written from m (inr (h, k, s)) =
    let (p, len) = length-Ends rl log m.ends (omega arith) in go (below from log) refl p len
  where
    go :
        (l : List LogEntry)
        → below from log ≡ l
        → 0 < rl.first
        → rl.first + length log ≡ rl.last + 1
        → (r : RaftLog) × (truncate_suffix rl from ≡ ok r)
          × Models r (below from log) (below from written)
    go [] b p len = absurd (omega (arith, ap length b, length-below rl.first from log m.chained))
    go (e ∷ es) b p len =
        truncate_some rl log written m from e es b h (omega arith) p (omega arith) s
