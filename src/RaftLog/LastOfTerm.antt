-- ===== src/RaftLog/LastOfTerm.antt =====
-- `lastIndexOfTerm` of raft_log.go: what a leader is told when it asks where a term ends.
use raft.Prelude.{
  ℕ, ◌+◌, ◌≤◌, ◌<◌, ltb, ◌==◌, if-cases, Bool-cases, ◌≡◌, ◌≢◌, refl, sym, ap, ◌∙◌, subst, Option,
  none, some, List, [], ◌∷◌, length, sub64, u64_mod, arith, inl, inr, false,
}
use raft.Types.{LogEntry}
use raft.RaftLog.History.{Chained, term_in, answer, term_in_outside, term_in_beyond}
use raft.RaftLog.Runs.{TermRun, note_term, extend_runs, run_for, last_of_term}
use raft.RaftLog.RunIndex.{run_for-extend_runs, run_for-extend_runs_before}
use raft.RaftLog.Defs.{RaftLog, run_term, last_index_of_term}
use raft.RaftLog.Models.{Models}

-- Runs that start below a bound, each below the one that is newer.
abbrev Under : ℕ → List TermRun → Type 0
Under b [] = Unit {0}
Under b (r ∷ rs) = (0 < r.start) × (r.start < b) × Under r.start rs

note_term-Under :
    (rs : List TermRun) (e : LogEntry)
    → 0 < e.index
    → Under e.index rs
    → Under (e.index + 1) (note_term rs e)
unfolding note_term
note_term-Under [] e p h = (p, omega arith, tt)
note_term-Under (r ∷ rs) e p h =
    if-cases (Under (e.index + 1)) (r.term == e.term) (r ∷ rs) _
      (λ k. (h.0, omega (arith, h.1), h.2)) (λ k. (p, omega arith, h))

extend_runs-Under :
    (rs : List TermRun) (a : ℕ) (es : List LogEntry)
    → Chained a es
    → 0 < a
    → Under a rs
    → Under (a + length es) (extend_runs rs es)
unfolding extend_runs
extend_runs-Under rs a [] c p h = subst (λ n. Under n rs) (omega arith) h
extend_runs-Under rs a (e ∷ es) c p h =
    subst (λ n. Under n (extend_runs (note_term rs e) es)) (omega arith)
      (extend_runs-Under (note_term rs e) (a + 1) es c.1 (omega arith) (
        subst (λ n. Under (n + 1) (note_term rs e)) c.0
          (note_term-Under rs e (omega (arith, c.0)) (subst (λ n. Under n rs) (sym c.0) h))))

abbrev run_term_of : Option TermRun → Option ℕ
run_term_of none = none
run_term_of (some r) = some r.term

-- The term on record for an index.
abbrev term_on : List TermRun → ℕ → Option ℕ
term_on rs i = run_term_of (run_for rs i)

-- The answer of the scan: the last index up to `last` with the term, if there is one.
abbrev LastOn : List TermRun → ℕ → ℕ → Option ℕ → Type 0
LastOn rs last t none = (j : ℕ) → j ≤ last → term_on rs j ≢ some t
LastOn rs last t (some i) =
    (i ≤ last) × (term_on rs i ≡ some t) × ((j : ℕ) → i < j → j ≤ last → term_on rs j ≢ some t)

newer_run :
    (r : TermRun) (rs : List TermRun) (last t : ℕ) (o : Option ℕ)
    → 0 < r.start
    → r.start ≤ last
    → (r.term == t) ≡ false
    → LastOn rs (sub64 r.start 1) t o
    → last + 1 < u64_mod
    → LastOn (r ∷ rs) last t o
unfolding run_for
newer_run r rs last t none p q n h f = λ j k. ground (arith, n, h j)
newer_run r rs last t (some i) p q n (below, here, above) f =
    (omega (arith, below), ground (arith, here, below), λ j a b. ground (arith, n, above j))

last_of_term-LastOn :
    (rs : List TermRun) (last t : ℕ)
    → Under (last + 1) rs
    → last + 1 < u64_mod
    → LastOn rs last t (last_of_term rs last t)
unfolding last_of_term run_for
last_of_term-LastOn [] last t h f = λ j k. λ e. ground (arith, e)
last_of_term-LastOn (r ∷ rs) last t h f =
    if-cases (LastOn (r ∷ rs) last t) (r.term == t) (some last) _
      (λ same. (omega arith, ground (arith, h.1, same), λ j a b. absurd (omega arith)))
      (λ other.
        newer_run r rs last t (last_of_term rs (sub64 r.start 1) t) h.0 (omega (arith, h.1)) other
          (last_of_term-LastOn rs (sub64 r.start 1) t
            (subst (λ n. Under n rs) (omega (arith, h.0, h.1)) h.2) (omega (arith, h.0, h.1)))
          f)

-- The last index of the log with the term, if there is one.
abbrev pub LastIn : List LogEntry → ℕ → Option ℕ → Type 0
LastIn log t none = (j : ℕ) → term_in log j ≢ some t
LastIn log t (some i) = (term_in log i ≡ some t) × ((j : ℕ) → i < j → term_in log j ≢ some t)

same_answer :
    (i : ℕ) (r : Option TermRun) (x : Option ℕ) → run_term i r ≡ answer i x → run_term_of r ≡ x
same_answer i none none h = refl
same_answer i (some r) (some x) h = ground (arith, h)
same_answer i none (some x) h = ground (arith, h)
same_answer i (some r) none h = ground (arith, h)

-- The index of terms and the log agree everywhere up to the end of the log.
term_on-term_in :
    (a : ℕ) (es : List LogEntry) (i : ℕ)
    → Chained a es
    → i < a + length es
    → term_on (extend_runs [] es) i ≡ term_in es i
unfolding run_for
term_on-term_in a es i c h = elim (Bool-cases (ltb i a)) [
  | inl before ↦
      ap run_term_of (run_for-extend_runs_before [] a i es c (ground (arith, before)))
      ∙ sym (term_in_outside a i es c (ground (arith, before)))
  | inr inside ↦
      same_answer i (run_for (extend_runs [] es) i) (term_in es i)
        (run_for-extend_runs [] a i es c tt (ground (arith, inside)) h)
]

inside_log :
    (a : ℕ) (es : List LogEntry) (last j t : ℕ)
    → Chained a es
    → a + length es ≡ last + 1
    → term_in es j ≡ some t
    → j ≤ last
inside_log a es last j t c e q = elim (Bool-cases (ltb last j)) [
  | inl past ↦
      let nothing : term_in es j ≡ none = term_in_beyond a j es c (ground (arith, past)) in
      absurd (ground (arith, nothing, q))
  | inr within ↦ ground (arith, within)
]

LastOn-LastIn :
    (a : ℕ) (es : List LogEntry) (last t : ℕ) (o : Option ℕ)
    → Chained a es
    → a + length es ≡ last + 1
    → LastOn (extend_runs [] es) last t o
    → LastIn es t o
LastOn-LastIn a es last t none c e h = λ j q.
    let within = inside_log a es last j t c e q in
    h j within (term_on-term_in a es j c (omega (arith, within)) ∙ q)
LastOn-LastIn a es last t (some i) c e (below, here, above) = (
  sym (term_on-term_in a es i c (omega (arith, e, below))) ∙ here,
  λ j k q.
      let within = inside_log a es last j t c e q in
      above j k within (term_on-term_in a es j c (omega (arith, within)) ∙ q),
)

from_runs :
    (rl : RaftLog) (t : ℕ) → 0 < rl.first → last_index_of_term rl t ≡ last_of_term rl.runs rl.last t
unfolding last_index_of_term
from_runs rl t h = ground (arith, h)

-- In a log that is not empty, `lastIndexOfTerm` gives the last index whose entry carries the term,
-- and no index exactly where no entry does.
pub last_index_of_term-LastIn :
    (rl : RaftLog) (e : LogEntry) (es written : List LogEntry) (t : ℕ)
    → Models rl (e ∷ es) written
    → LastIn (e ∷ es) t (last_index_of_term rl t)
last_index_of_term-LastIn rl e es written t m =
    let ends = m.ends in
    let under =
      subst (λ rs. Under (rl.first + length (e ∷ es)) rs) (sym m.run_index)
        (extend_runs-Under [] rl.first (e ∷ es) m.chained ends.0 tt) in
    subst (LastIn (e ∷ es) t) (sym (from_runs rl t ends.0)) (
      LastOn-LastIn rl.first (e ∷ es) rl.last t (last_of_term rl.runs rl.last t) m.chained
        (omega (arith, ends.1))
        (subst (λ rs. LastOn rs rl.last t (last_of_term rl.runs rl.last t)) m.run_index
          (last_of_term-LastOn rl.runs rl.last t
            (subst (λ n. Under n rl.runs) (omega (arith, ends.1)) under) m.fits)))
