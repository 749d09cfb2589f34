-- ===== src/RaftLog/RunCuts.antt =====
-- `truncateRunsFrom` and `truncateRunsBelow` of raft_log.go: a cut of the run index is the run index
-- of the log that is left.
use raft.Prelude.{
  ℕ, ◌+◌, ◌≤◌, ◌<◌, ◌-◌, ◌≡◌, ◌≢◌, refl, ap, ◌∙◌, sym, List, [], ◌∷◌, length, subst, arith,
}
use raft.Types.{LogEntry}
use raft.RaftLog.History.{
  Chained, below, from_on, below-from_on, below-Chained, length-below, length-from_on,
  from_on-Chained,
}
use raft.RaftLog.Runs.{TermRun, note_term, extend_runs, truncate_runs_from, truncate_runs_below}
use raft.RaftLog.RunIndex.{StartsLe, note_term-StartsLe, extend_runs-append}

truncate-note_term :
    (rs : List TermRun) (i : ℕ) (e : LogEntry)
    → i ≤ e.index
    → truncate_runs_from i (note_term rs e) ≡ truncate_runs_from i rs
unfolding truncate_runs_from note_term
truncate-note_term [] i e h = ground arith
truncate-note_term (r ∷ rs) i e h = ground arith

truncate-extend_runs_above :
    (rs : List TermRun) (a i : ℕ) (es : List LogEntry)
    → Chained a es
    → i ≤ a
    → truncate_runs_from i (extend_runs rs es) ≡ truncate_runs_from i rs
unfolding extend_runs
truncate-extend_runs_above rs a i [] h k = refl
truncate-extend_runs_above rs a i (e ∷ es) h k =
    truncate-extend_runs_above (note_term rs e) (a + 1) i es h.1 (omega arith)
    ∙ truncate-note_term rs i e (omega arith)

truncate-StartsLe :
    (rs : List TermRun) (a i : ℕ) → StartsLe a rs → a < i → truncate_runs_from i rs ≡ rs
unfolding truncate_runs_from
truncate-StartsLe [] a i h k = refl
truncate-StartsLe (r ∷ rs) a i h k = ground arith

extend_runs-StartsLe :
    (rs : List TermRun) (a b : ℕ) (es : List LogEntry)
    → Chained a es
    → StartsLe b rs
    → a + length es ≤ b + 1
    → StartsLe b (extend_runs rs es)
unfolding extend_runs
extend_runs-StartsLe rs a b [] h s k = s
extend_runs-StartsLe rs a b (e ∷ es) h s k =
    extend_runs-StartsLe (note_term rs e) (a + 1) b es h.1
      (note_term-StartsLe rs b e (omega arith) s) (omega arith)

-- Cutting the suffix from `i` on.
pub truncate_runs_from-extend_runs :
    (a i : ℕ) (es : List LogEntry)
    → Chained a es
    → a < i
    → i ≤ a + length es
    → truncate_runs_from i (extend_runs [] es) ≡ extend_runs [] (below i es)
truncate_runs_from-extend_runs a i es h k l =
    ap (λ x. truncate_runs_from i (extend_runs [] x)) (sym (below-from_on a i es h))
    ∙ ap (truncate_runs_from i) (extend_runs-append [] (below i es) (from_on i es))
    ∙ truncate-extend_runs_above (extend_runs [] (below i es)) i i (from_on i es)
        (from_on-Chained a i es h (omega arith)) (omega arith)
    ∙ truncate-StartsLe (extend_runs [] (below i es)) (i - 1) i
        (extend_runs-StartsLe [] a (i - 1) (below i es) (below-Chained a i es h) tt
          (omega (arith, length-below a i es h)))
        (omega arith)

note_term-cut :
    (qs : List TermRun) (i : ℕ) (e : LogEntry)
    → truncate_runs_below i qs ≢ []
    → i < e.index
    → truncate_runs_below i (note_term qs e) ≡ note_term (truncate_runs_below i qs) e
unfolding truncate_runs_below note_term
note_term-cut [] i e h k = absurd (h refl)
note_term-cut (r ∷ rs) i e h k = ground arith

note_term-ne-nil : (qs : List TermRun) (e : LogEntry) → note_term qs e ≢ []
unfolding note_term
note_term-ne-nil [] e h = cc
note_term-ne-nil (r ∷ rs) e h = ground arith

extend_runs-cut :
    (qs : List TermRun) (i a : ℕ) (es : List LogEntry)
    → truncate_runs_below i qs ≢ []
    → Chained a es
    → i < a
    → truncate_runs_below i (extend_runs qs es) ≡ extend_runs (truncate_runs_below i qs) es
unfolding extend_runs
extend_runs-cut qs i a [] n h k = refl
extend_runs-cut qs i a (e ∷ es) n h k =
    let step = note_term-cut qs i e n (omega arith) in
    extend_runs-cut (note_term qs e) i (a + 1) es
      (λ z. note_term-ne-nil (truncate_runs_below i qs) e (sym step ∙ z)) h.1 (omega arith)
    ∙ ap (λ x. extend_runs x es) step

cut_at_start :
    (rs : List TermRun) (e : LogEntry)
    → StartsLe e.index rs
    → truncate_runs_below e.index (note_term rs e) ≡ record { start = e.index; term = e.term } ∷ []
unfolding truncate_runs_below note_term
cut_at_start [] e h = ground arith
cut_at_start (r ∷ rs) e h = ground arith

cut_from_first :
    (rs : List TermRun) (e : LogEntry) (es : List LogEntry)
    → Chained (e.index + 1) es
    → StartsLe e.index rs
    → truncate_runs_below e.index (extend_runs rs (e ∷ es)) ≡ extend_runs [] (e ∷ es)
unfolding extend_runs note_term
cut_from_first rs e es h s =
    let first = cut_at_start rs e s in
    extend_runs-cut (note_term rs e) e.index (e.index + 1) es (λ z. cc (sym first ∙ z)) h
      (omega arith)
    ∙ ap (λ x. extend_runs x es) first

cut_from_start :
    (rs : List TermRun) (i : ℕ) (es : List LogEntry)
    → es ≢ []
    → Chained i es
    → StartsLe i rs
    → truncate_runs_below i (extend_runs rs es) ≡ extend_runs [] es
cut_from_start rs i [] n h s = absurd (n refl)
cut_from_start rs i (e ∷ es) n h s =
    subst (λ x. truncate_runs_below x (extend_runs rs (e ∷ es)) ≡ extend_runs [] (e ∷ es)) h.0
      (cut_from_first rs e es (rw h.0 h.1) (rw h.0 s))

-- Cutting the prefix below `i`.
pub truncate_runs_below-extend_runs :
    (a i : ℕ) (es : List LogEntry)
    → Chained a es
    → a ≤ i
    → i < a + length es
    → truncate_runs_below i (extend_runs [] es) ≡ extend_runs [] (from_on i es)
truncate_runs_below-extend_runs a i es h k l =
    ap (λ x. truncate_runs_below i (extend_runs [] x)) (sym (below-from_on a i es h))
    ∙ ap (truncate_runs_below i) (extend_runs-append [] (below i es) (from_on i es))
    ∙ cut_from_start (extend_runs [] (below i es)) i (from_on i es)
        (λ e. absurd (omega (arith, ap length e, length-from_on a i es h k l)))
        (from_on-Chained a i es h k)
        (extend_runs-StartsLe [] a i (below i es) (below-Chained a i es h) tt
          (omega (arith, length-below a i es h)))
