-- ===== src/RaftLog/RunIndex.antt =====
-- The run index of raft_log.go against the log: built by `extendRuns` from the entries, it gives
-- the term of each of them, and it follows a truncation of either end.
use raft.Prelude.{
  ℕ, ◌+◌, ◌≤◌, ◌<◌, ltb, ◌≡◌, refl, ◌∙◌, some, List, [], ◌∷◌, ◌++◌, length, arith, Bool-cases, inl,
  inr,
}
use raft.Types.{LogEntry}
use raft.RaftLog.History.{Chained, term_in, answer}
use raft.RaftLog.Runs.{TermRun, note_term, extend_runs, run_for}
use raft.RaftLog.Defs.{run_term}

-- Every run starts at or below an index.
abbrev pub StartsLe : ℕ → List TermRun → Type 0
StartsLe a [] = Unit {0}
StartsLe a (r ∷ rs) = (r.start ≤ a) × StartsLe a rs

pub StartsLe-mono : {a b : ℕ} (rs : List TermRun) → a ≤ b → StartsLe a rs → StartsLe b rs
StartsLe-mono [] h k = tt
StartsLe-mono (r ∷ rs) h k = (omega arith, StartsLe-mono rs h k.1)

pub note_term-StartsLe :
    (rs : List TermRun) (b : ℕ) (e : LogEntry)
    → e.index ≤ b
    → StartsLe b rs
    → StartsLe b (note_term rs e)
unfolding note_term
note_term-StartsLe [] b e k h = (k, tt)
note_term-StartsLe (r ∷ rs) b e k h = ground arith

pub extend_runs-append :
    (rs : List TermRun) (xs ys : List LogEntry)
    → extend_runs rs (xs ++ ys) ≡ extend_runs (extend_runs rs xs) ys
unfolding extend_runs
extend_runs-append rs [] ys = refl
extend_runs-append rs (x ∷ xs) ys = extend_runs-append (note_term rs x) xs ys

run_for-note_term :
    (rs : List TermRun) (e : LogEntry) (i : ℕ)
    → i < e.index
    → run_for (note_term rs e) i ≡ run_for rs i
unfolding note_term run_for
run_for-note_term [] e i h = ground arith
run_for-note_term (r ∷ rs) e i h = ground arith

-- Entries at higher indices do not change what covers an index.
pub run_for-extend_runs_before :
    (rs : List TermRun) (a i : ℕ) (es : List LogEntry)
    → Chained a es
    → i < a
    → run_for (extend_runs rs es) i ≡ run_for rs i
unfolding extend_runs
run_for-extend_runs_before rs a i [] h k = refl
run_for-extend_runs_before rs a i (e ∷ es) h k =
    run_for-extend_runs_before (note_term rs e) (a + 1) i es h.1 (omega arith)
    ∙ run_for-note_term rs e i (omega arith)

run_for-note_term_self :
    (rs : List TermRun) (e : LogEntry)
    → StartsLe e.index rs
    → run_term e.index (run_for (note_term rs e) e.index) ≡ answer e.index (some e.term)
unfolding note_term run_for
run_for-note_term_self [] e h = ground arith
run_for-note_term_self (r ∷ rs) e h = ground arith

-- The index built from a chain of entries gives each of their terms.
pub run_for-extend_runs :
    (rs : List TermRun) (a i : ℕ) (es : List LogEntry)
    → Chained a es
    → StartsLe a rs
    → a ≤ i
    → i < a + length es
    → run_term i (run_for (extend_runs rs es) i) ≡ answer i (term_in es i)
unfolding extend_runs
run_for-extend_runs rs a i [] h s k l = absurd (omega arith)
run_for-extend_runs rs a i (e ∷ es) h s k l = elim (Bool-cases (ltb a i)) [
  | inl later ↦ ground (
    arith,
    run_for-extend_runs (note_term rs e) (a + 1) i es h.1,
    StartsLe-mono {a = a} {b = a + 1} (note_term rs e),
    note_term-StartsLe rs e.index e,
  )
  | inr here ↦ ground (
    arith,
    run_for-extend_runs_before (note_term rs e) (a + 1) i es h.1,
    run_for-note_term_self rs e,
  )
]
