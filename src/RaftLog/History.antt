-- ===== src/RaftLog/History.antt =====
-- The log as a plain list of entries, oldest first: what the bookkeeping of raft_log.go stands for.
use raft.Prelude.{
  ℕ, ◌+◌, ◌≤◌, ◌<◌, ltb, ◌==◌, if◌then◌else◌, ◌≡◌, refl, ap, ◌∙◌, Option, none, some, List, [], ◌∷◌,
  ◌++◌, length, length-append, arith, subst, Bool-cases, inl, inr,
}
use raft.Types.{LogEntry, not_in_log, Result, ok, err}

-- The entries carry consecutive indices from `a` on.
abbrev pub Chained : ℕ → List LogEntry → Type 0
Chained a [] = Unit {0}
Chained a (e ∷ es) = (e.index ≡ a) × Chained (a + 1) es

-- The term of the entry with an index.
abbrev pub term_in : List LogEntry → ℕ → Option ℕ
term_in [] i = none
term_in (e ∷ es) i = if e.index == i then some e.term else term_in es i

-- The answer that `termAt` owes for it.
abbrev pub answer : ℕ → Option ℕ → Result ℕ
answer i none = err (not_in_log i)
answer i (some t) = ok t

-- The entries below an index, and those from it on.
abbrev pub below : ℕ → List LogEntry → List LogEntry
below i [] = []
below i (e ∷ es) = let rest = below i es in if ltb e.index i then e ∷ rest else rest

abbrev pub from_on : ℕ → List LogEntry → List LogEntry
from_on i [] = []
from_on i (e ∷ es) = let rest = from_on i es in if ltb e.index i then rest else e ∷ rest

pub Chained-append :
    (a : ℕ) (xs ys : List LogEntry)
    → Chained a xs
    → Chained (a + length xs) ys
    → Chained a (xs ++ ys)
Chained-append a [] ys h k = subst (λ n. Chained n ys) (omega arith) k
Chained-append a (x ∷ xs) ys h k =
    (h.0, Chained-append (a + 1) xs ys h.1 (subst (λ n. Chained n ys) (omega arith) k))

pub term_in_outside : (a i : ℕ) (es : List LogEntry) → Chained a es → i < a → term_in es i ≡ none
term_in_outside a i [] h k = refl
term_in_outside a i (e ∷ es) h k = ground (arith, term_in_outside (a + 1) i es h.1)

pub term_in_beyond :
    (a i : ℕ) (es : List LogEntry) → Chained a es → a + length es ≤ i → term_in es i ≡ none
term_in_beyond a i [] h k = refl
term_in_beyond a i (e ∷ es) h k = ground (arith, term_in_beyond (a + 1) i es h.1)

-- A chain from `a` on splits at `i` into what lies below and what does not.
pub below-all : (a i : ℕ) (es : List LogEntry) → Chained a es → a + length es ≤ i → below i es ≡ es
below-all a i [] h k = refl
below-all a i (e ∷ es) h k = ground (arith, below-all (a + 1) i es h.1)

pub below-none : (a i : ℕ) (es : List LogEntry) → Chained a es → i ≤ a → below i es ≡ []
below-none a i [] h k = refl
below-none a i (e ∷ es) h k = ground (arith, below-none (a + 1) i es h.1)

pub from_on-all : (a i : ℕ) (es : List LogEntry) → Chained a es → i ≤ a → from_on i es ≡ es
from_on-all a i [] h k = refl
from_on-all a i (e ∷ es) h k = ground (arith, from_on-all (a + 1) i es h.1)

pub from_on-none :
    (a i : ℕ) (es : List LogEntry) → Chained a es → a + length es ≤ i → from_on i es ≡ []
from_on-none a i [] h k = refl
from_on-none a i (e ∷ es) h k = ground (arith, from_on-none (a + 1) i es h.1)

pub below-Chained : (a i : ℕ) (es : List LogEntry) → Chained a es → Chained a (below i es)
below-Chained a i [] h = tt
below-Chained a i (e ∷ es) h =
    ground (arith, below-Chained (a + 1) i es h.1, below-none (a + 1) i es h.1)

pub length-below :
    (a i : ℕ) (es : List LogEntry)
    → Chained a es
    → a ≤ i
    → i ≤ a + length es
    → a + length (below i es) ≡ i
length-below a i [] h k l = omega arith
length-below a i (e ∷ es) h k l =
    ground (arith, length-below (a + 1) i es h.1, below-none (a + 1) i es h.1)

pub below-append : (i : ℕ) (xs ys : List LogEntry) → below i (xs ++ ys) ≡ below i xs ++ below i ys
below-append i [] ys = refl
below-append i (x ∷ xs) ys = ground (arith, below-append i xs ys)

pub from_on-append :
    (i : ℕ) (xs ys : List LogEntry) → from_on i (xs ++ ys) ≡ from_on i xs ++ from_on i ys
from_on-append i [] ys = refl
from_on-append i (x ∷ xs) ys = ground (arith, from_on-append i xs ys)

-- The two parts of a chain, put together again.
pub below-from_on : (a i : ℕ) (es : List LogEntry) → Chained a es → below i es ++ from_on i es ≡ es
below-from_on a i [] h = refl
below-from_on a i (e ∷ es) h = ground (
  arith,
  below-from_on (a + 1) i es h.1,
  below-none (a + 1) i es h.1,
  from_on-all (a + 1) i es h.1,
)

pub from_on-Chained :
    (a i : ℕ) (es : List LogEntry) → Chained a es → a ≤ i → Chained i (from_on i es)
from_on-Chained a i [] h k = tt
from_on-Chained a i (e ∷ es) h k = elim (Bool-cases (ltb e.index i)) [
  | inl cut ↦ rw cut (from_on-Chained (a + 1) i es h.1 (ground arith))
  | inr kept ↦
      let start : a ≡ i = ground arith in
      rw (kept, from_on-all (a + 1) i es h.1 (omega arith))
        (h.0 ∙ start, subst (λ n. Chained (n + 1) es) start h.1)
]

-- The answers that the two parts give.
pub term_in-below : (i j : ℕ) (es : List LogEntry) → j < i → term_in (below i es) j ≡ term_in es j
term_in-below i j [] h = refl
term_in-below i j (e ∷ es) h = ground (arith, term_in-below i j es h)

pub length-from_on :
    (a i : ℕ) (es : List LogEntry)
    → Chained a es
    → a ≤ i
    → i < a + length es
    → i + length (from_on i es) ≡ a + length es
length-from_on a i es h k l = omega (
  arith,
  length-below a i es h,
  length-append (below i es) (from_on i es),
  ap length (below-from_on a i es h),
)
