-- ===== src/RaftLog/Agree.antt =====
-- Log matching: a log that agrees with the leader's up to an index agrees with it further on, once the
-- leader's entries from that index on are put over it.
use raft.Prelude.{
  ℕ, ◌+◌, ◌≤◌, ◌<◌, ltb, ◌==◌, ◌≡◌, refl, sym, ap, subst, ◌∙◌, inl, inr, Option-cases, none, some,
  List, [], ◌∷◌, ◌++◌, length, arith, Bool-cases, All,
}
use raft.Types.{LogEntry}
use raft.RaftLog.History.{Chained, term_in, below, term_in_beyond, term_in-below}
use raft.RaftLog.Append.{term_in-append_outside}
use raft.RaftLog.Merge.{merge, term_in_inside}

-- Entries that stand in the leader's log, from an index on.
abbrev pub Sent : List LogEntry → ℕ → List LogEntry → Type 0
Sent leader start es = Chained start es × All (λ e. term_in leader e.index ≡ some e.term) es

-- Two logs have the same terms below an index.
abbrev pub AgreeBelow : ℕ → List LogEntry → List LogEntry → Type 0
AgreeBelow i a b = (j : ℕ) → j < i → term_in a j ≡ term_in b j

-- The entries answer for their own indices as the leader's log does.
Sent-term_in :
    (leader : List LogEntry) (start j : ℕ) (es : List LogEntry)
    → Sent leader start es
    → start ≤ j
    → j < start + length es
    → term_in es j ≡ term_in leader j
Sent-term_in leader start j [] s h k = absurd (omega arith)
Sent-term_in leader start j (e ∷ es) s h k = elim (Bool-cases (e.index == j)) [
  | inl here ↦
      let at : e.index ≡ j = ground arith in
      rw here (subst (λ i. some e.term ≡ term_in leader i) at (sym s.1.0))
  | inr there ↦
      rw there
        (Sent-term_in leader (start + 1) j es (s.0.1, s.1.1) (ground (arith, s.0.0)) (omega arith))
]

-- Behind a log that has nothing at an index, the entries answer.
term_in-append_behind :
    (j : ℕ) (xs ys : List LogEntry) → term_in xs j ≡ none → term_in (xs ++ ys) j ≡ term_in ys j
term_in-append_behind j [] ys h = refl
term_in-append_behind j (x ∷ xs) ys h = ground (arith, term_in-append_behind j xs ys)

term_in-below-none : (i j : ℕ) (es : List LogEntry) → i ≤ j → term_in (below i es) j ≡ none
term_in-below-none i j [] h = refl
term_in-below-none i j (e ∷ es) h = ground (arith, term_in-below-none i j es h)

-- A log that agrees below `start`, followed by the leader's entries from there on.
append-AgreeBelow :
    (leader kept : List LogEntry) (start : ℕ) (es : List LogEntry)
    → Sent leader start es
    → AgreeBelow start kept leader
    → ((j : ℕ) → start ≤ j → term_in kept j ≡ none)
    → AgreeBelow (start + length es) (kept ++ es) leader
append-AgreeBelow leader kept start es s agree ends j h = elim (Bool-cases (ltb j start)) [
  | inl low ↦ term_in-append_outside j start kept es s.0 (ground arith) ∙ agree j (ground arith)
  | inr high ↦
      term_in-append_behind j kept es (ends j (ground arith))
      ∙ Sent-term_in leader start j es s (ground arith) h
]

AgreeBelow-suc :
    (a b : List LogEntry) (i : ℕ)
    → AgreeBelow i a b
    → term_in a i ≡ term_in b i
    → AgreeBelow (i + 1) a b
AgreeBelow-suc a b i h e j k = elim (Bool-cases (ltb j i)) [
  | inl low ↦ h j (ground arith)
  | inr high ↦ subst (λ l. term_in a l ≡ term_in b l) (ground arith) e
]

pub merge-AgreeBelow :
    (leader log : List LogEntry) (a start : ℕ) (es : List LogEntry)
    → Chained a log
    → a ≤ start
    → Sent leader start es
    → AgreeBelow start log leader
    → AgreeBelow (start + length es) (merge es log) leader
merge-AgreeBelow leader log a start [] c h s agree = λ j k. agree j (omega arith)
merge-AgreeBelow leader log a start (e ∷ es) c h s agree =
    elim (Option-cases (term_in log e.index)) [
      | inl missing ↦
          rw (missing, merge)
            (append-AgreeBelow leader log start (e ∷ es) s agree (λ j k. term_in_beyond a j log c (
              omega (arith, term_in_inside a e.index log c missing (omega (arith, s.0.0)), s.0.0))))
      | inr (t, found) ↦ elim (Bool-cases (t == e.term)) [
        | inl same ↦
            let equal : t ≡ e.term = ground arith in
            let at_start : term_in log start ≡ term_in leader start =
              subst (λ i. term_in log i ≡ term_in leader i) s.0.0
                (found ∙ ap (λ u. some u) equal ∙ sym s.1.0) in
            let wider : AgreeBelow (start + 1) log leader =
              AgreeBelow-suc log leader start agree at_start in
            let next =
              merge-AgreeBelow leader log a (start + 1) es c (omega arith) (s.0.1, s.1.1) wider in
            rw (found, same, merge) (λ j k. next j (omega arith))
        | inr differs ↦
            rw (found, differs, merge)
              (append-AgreeBelow leader (below e.index log) start (e ∷ es) s
                (λ j k. term_in-below e.index j log (omega (arith, s.0.0)) ∙ agree j k)
                (λ j k. term_in-below-none e.index j log (omega (arith, s.0.0))))
      ]
    ]
