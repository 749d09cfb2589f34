-- ===== src/RaftLog/Prefix.antt =====
-- `truncatePrefix` of raft_log.go: the log it stands for loses its beginning.
use raft.Prelude.{
  ℕ, ◌+◌, ◌≤◌, ◌<◌, ltb, leb, ◌==◌, not, ◌&&◌, if◌then◌else◌, ◌≡◌, refl, ap, ◌∙◌, sym, subst, false,
  none, some, List, [], ◌∷◌, ◌++◌, length, arith, Bool-cases, inl, inr, if-cases, ltb→lt,
}
use raft.Types.{LogEntry}
use raft.RaftLog.History.{
  Chained, term_in, from_on, from_on-all, from_on-none, from_on-append, from_on-Chained,
  length-from_on,
}
use raft.RaftLog.Runs.{extend_runs, truncate_runs_below}
use raft.RaftLog.RunCuts.{truncate_runs_below-extend_runs}
use raft.RaftLog.Segments.{command_bytes, last_entry, drop_unstable_below}
use raft.RaftLog.Unstable.{flat, Chained-left}
use raft.RaftLog.UnstableCuts.{Holds, drop_unstable_below-Holds}
use raft.RaftLog.Defs.{RaftLog, cut_prefix, truncate_prefix}
use raft.RaftLog.Models.{Models, Ends}
use raft.RaftLog.Truncate.{segments-Chained}

term_in-from_on :
    (i j : ℕ) (es : List LogEntry)
    → term_in (from_on i es) j ≡ (if ltb j i then none else term_in es j)
term_in-from_on i j [] = ground arith
term_in-from_on i j (e ∷ es) = ground (arith, term_in-from_on i j es)

-- A cut of the beginning that leaves something keeps the end.
last_entry-from_on :
    (i : ℕ) (x : LogEntry) (xs : List LogEntry) (e : LogEntry) (es : List LogEntry)
    → Chained x.index (x ∷ xs)
    → from_on i (x ∷ xs) ≡ e ∷ es
    → last_entry e es ≡ last_entry x xs
last_entry-from_on i x [] e es h q = ground (arith, q)
last_entry-from_on i x (y ∷ ys) e es h q = elim (Bool-cases (ltb x.index i)) [
  | inl cut ↦ last_entry-from_on i y ys e es (refl, rw h.1.0 h.1.1) (ground (arith, q))
  | inr whole ↦ ground (arith, q, from_on-all (x.index + 1) i (y ∷ ys) h.1)
]

module _ (rl : RaftLog) (log written : List LogEntry) (m : Models rl log written) (to : ℕ) where
  kept_segments :
      Holds rl.unstable_bytes
        (flat rl.segs)
        (drop_unstable_below to rl.segs rl.unstable_bytes)
        (from_on to (flat rl.segs))
  kept_segments =
      drop_unstable_below-Holds to rl.segs (rl.first + length written) rl.unstable_bytes m.filled
        (segments-Chained m) (omega (arith, m.bytes))

  kept_held :
      from_on to written ++ flat (drop_unstable_below to rl.segs rl.unstable_bytes).0
      ≡ from_on to log
  kept_held =
      ap (λ x. from_on to written ++ x) kept_segments.0
      ∙ sym (from_on-append to written (flat rl.segs))
      ∙ ap (from_on to) m.held

  kept_bytes :
      (drop_unstable_below to rl.segs rl.unstable_bytes).1
      ≡ command_bytes (flat (drop_unstable_below to rl.segs rl.unstable_bytes).0)
  kept_bytes = omega (arith, kept_segments.1, m.bytes, ap command_bytes kept_segments.0)

  kept_boundary :
      (t : ℕ)
      → term_in (from_on to log) rl.snap_meta.last_included_index ≡ some t
      → t ≡ rl.snap_meta.last_included_term
  kept_boundary t q =
      ground (arith, term_in-from_on to rl.snap_meta.last_included_index log, m.boundary t, q)

  prefix_unchanged : to ≤ rl.first → Models rl (from_on to log) (from_on to written)
  prefix_unchanged h =
      let same = from_on-all rl.first to log m.chained h in
      let chain =
        Chained-left rl.first written (flat rl.segs)
          (subst (Chained rl.first) (sym m.held) m.chained) in
      rw (same, from_on-all rl.first to written chain h) m

  -- Beyond the end nothing is left.
  emptied : RaftLog
  emptied = record (cut_prefix rl to) {
    first = 0;
    last = 0;
    last_term = rl.snap_meta.last_included_term;
    runs = [];
  }

  prefix_emptied : from_on to log ≡ [] → Models emptied (from_on to log) (from_on to written)
  unfolding emptied cut_prefix
  prefix_emptied empty = record {
    ends = rw empty (refl, refl, refl);
    chained = rw empty tt;
    run_index = rw empty (unfold extend_runs in refl);
    held = kept_held;
    boundary = kept_boundary;
    filled = kept_segments.2;
    bytes = kept_bytes;
    fits = omega arith;
    snap_fits = m.snap_fits;
  }

  -- Inside the log the index becomes the first one.
  shortened : RaftLog
  shortened = record (cut_prefix rl to) { runs = truncate_runs_below to rl.runs; first = to }

  shortened-Ends :
      rl.first < to
      → to ≤ rl.last
      → (x : LogEntry) (xs : List LogEntry) → log ≡ x ∷ xs
      → (r : RaftLog) (l : List LogEntry) → from_on to log ≡ l
      → r.first ≡ to
      → r.last ≡ rl.last
      → r.last_term ≡ rl.last_term
      → r.snap_meta ≡ rl.snap_meta
      → Ends r l
  shortened-Ends h k x xs q r [] b f g t s =
      let ends = subst (Ends rl) q m.ends in
      absurd
        (omega (arith, ap length b, ap length q, ends.1, length-from_on rl.first to log m.chained))
  shortened-Ends h k x xs q r (e ∷ es) b f g t s =
      let ends = subst (Ends rl) q m.ends in
      let chain = subst (Chained rl.first) q m.chained in
      let left =
        length-from_on rl.first to log m.chained (omega arith)
          (omega (arith, ap length q, ends.1)) in
      (
        omega (arith, f),
        omega (arith, left, ap length q, ap length b, ends.1, f, g),
        t
            ∙ ends.2
            ∙ ap (λ y. y.term)
                (sym (
                  last_entry-from_on to x xs e es (refl, rw chain.0 chain.1)
                    (sym (ap (from_on to) q) ∙ b))),
        omega (arith, ends.3, g, ap (λ y. y.last_included_index) s),
      )

  prefix_shortened :
      rl.first < to
      → to ≤ rl.last
      → (x : LogEntry) (xs : List LogEntry) → log ≡ x ∷ xs
      → Models shortened (from_on to log) (from_on to written)
  unfolding shortened cut_prefix
  prefix_shortened h k x xs q =
      let ends = subst (Ends rl) q m.ends in
      let inside : to < rl.first + length log = omega (arith, ap length q, ends.1) in
      record {
        ends = shortened-Ends h k x xs q shortened (from_on to log) refl refl refl refl refl;
        chained = from_on-Chained rl.first to log m.chained (omega arith);
        run_index =
            ap (truncate_runs_below to) m.run_index
            ∙ truncate_runs_below-extend_runs rl.first to log m.chained (omega arith) inside;
        held = kept_held;
        boundary = kept_boundary;
        filled = kept_segments.2;
        bytes = kept_bytes;
        fits = m.fits;
        snap_fits = m.snap_fits;
      }

all_below :
    (rl : RaftLog) (log : List LogEntry) (to : ℕ)
    → Ends rl log
    → Chained rl.first log
    → rl.last < to
    → from_on to log ≡ []
all_below rl [] to h c k = refl
all_below rl (e ∷ es) to h c k = from_on-none rl.first to (e ∷ es) c (omega (arith, h.1))

-- `truncatePrefix` makes the state stand for the entries from the index on, whether it cuts
-- nothing, a part of the log or all of it.
pub truncate_prefix-Models :
    (rl : RaftLog) (log written : List LogEntry) (to : ℕ)
    → Models rl log written
    → 0 < to
    → Models (truncate_prefix rl to) (from_on to log) (from_on to written)
unfolding truncate_prefix emptied shortened
truncate_prefix-Models rl log written to m p =
    if-cases (λ r. Models r (from_on to log) (from_on to written))
      (not (rl.first == 0) && leb to rl.first) rl _
      (λ idle. prefix_unchanged rl log written m to (ground arith))
      (λ moves.
        if-cases (λ r. Models r (from_on to log) (from_on to written)) (ltb rl.last to) _ _
          (λ beyond.
            prefix_emptied rl log written m to
              (all_below rl log to m.ends m.chained (ltb→lt rl.last to beyond)))
          (λ inside. cut log refl inside moves))
  where
    cut :
        (l : List LogEntry)
        → log ≡ l
        → ltb rl.last to ≡ false
        → (not (rl.first == 0) && leb to rl.first) ≡ false
        → Models (shortened rl log written m to) (from_on to log) (from_on to written)
    cut [] q i n = let ends = subst (Ends rl) q m.ends in absurd (ground (arith, ends.1))
    cut (x ∷ xs) q i n =
        let ends = subst (Ends rl) q m.ends in
        prefix_shortened rl log written m to (ground (arith, ends.0)) (ground arith) x xs q
