-- ===== src/RaftLog/Unstable.antt =====
-- The in-memory region of raft_log.go against the log: which entries the segments hold after each
-- cut, and that `unstableBytes` stays the size of what they hold.
use raft.Prelude.{
  ℕ, zero, suc, ◌+◌, ◌-◌, ◌≤◌, ◌≡◌, ◌≢◌, refl, ap, ◌∙◌, sym, subst, List, [], ◌∷◌, ◌++◌, length,
  take, drop, arith,
}
use raft.Types.{LogEntry}
use raft.RaftLog.History.{Chained, below, from_on, below-none, from_on-all}
use raft.RaftLog.Segments.{UnstableSeg, command_bytes, last_entry}

-- The entries that the segments hold.
abbrev pub flat : List UnstableSeg → List LogEntry
flat [] = []
flat (s ∷ ss) = s.entries ++ flat ss

-- No segment is empty.
abbrev pub Filled : List UnstableSeg → Type 0
Filled [] = Unit {0}
Filled (s ∷ ss) = (s.entries ≢ []) × Filled ss

pub command_bytes-append :
    (xs ys : List LogEntry) → command_bytes (xs ++ ys) ≡ command_bytes xs + command_bytes ys
unfolding command_bytes
command_bytes-append [] ys = omega arith
command_bytes-append (x ∷ xs) ys = omega (arith, command_bytes-append xs ys)

pub Chained-left : (a : ℕ) (xs ys : List LogEntry) → Chained a (xs ++ ys) → Chained a xs
Chained-left a [] ys h = tt
Chained-left a (x ∷ xs) ys h = (h.0, Chained-left (a + 1) xs ys h.1)

pub Chained-right :
    (a : ℕ) (xs ys : List LogEntry) → Chained a (xs ++ ys) → Chained (a + length xs) ys
Chained-right a [] ys h = subst (λ n. Chained n ys) (omega arith) h
Chained-right a (x ∷ xs) ys h =
    subst (λ n. Chained n ys) (omega arith) (Chained-right (a + 1) xs ys h.1)

pub last_entry-index :
    (e : LogEntry) (es : List LogEntry)
    → Chained (e.index + 1) es
    → (last_entry e es).index ≡ e.index + length es
last_entry-index e [] h = omega arith
last_entry-index e (x ∷ xs) h = omega (arith, h.0, last_entry-index x xs (rw h.0 h.1))

pub take-below :
    (a i : ℕ) (es : List LogEntry) → Chained a es → a ≤ i → take (i - a) es ≡ below i es
take-below a i es h k = go (i - a) a es h (omega arith)
  where
    go : (n b : ℕ) (xs : List LogEntry) → Chained b xs → b + n ≡ i → take n xs ≡ below i xs
    go zero b xs c q = sym (below-none b i xs c (omega arith))
    go (suc n) b [] c q = refl
    go (suc n) b (x ∷ xs) c q = ground (arith, go n (b + 1) xs c.1)

take-append-drop : (n : ℕ) (xs : List LogEntry) → take n xs ++ drop n xs ≡ xs
take-append-drop zero xs = refl
take-append-drop (suc n) [] = refl
take-append-drop (suc n) (x ∷ xs) = ap (λ l. x ∷ l) (take-append-drop n xs)

pub drop-from_on :
    (a i : ℕ) (es : List LogEntry) → Chained a es → a ≤ i → drop (i - a) es ≡ from_on i es
drop-from_on a i es h k = go (i - a) a es h (omega arith)
  where
    go : (n b : ℕ) (xs : List LogEntry) → Chained b xs → b + n ≡ i → drop n xs ≡ from_on i xs
    go zero b xs c q = sym (from_on-all b i xs c (omega arith))
    go (suc n) b [] c q = refl
    go (suc n) b (x ∷ xs) c q = ground (arith, go n (b + 1) xs c.1)

pub bytes-split :
    (n : ℕ) (xs : List LogEntry)
    → command_bytes (take n xs) + command_bytes (drop n xs) ≡ command_bytes xs
bytes-split n xs =
    sym (command_bytes-append (take n xs) (drop n xs)) ∙ ap command_bytes (take-append-drop n xs)
