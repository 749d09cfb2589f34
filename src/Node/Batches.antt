-- ===== src/Node/Batches.antt =====
-- What a request carries: `capByBytes` of node_replication.go.
use raft.Prelude.{
  ℕ, ◌+◌, ◌≤◌, ◌<◌, ltb, ◌==◌, if-cases, true, false, ◌≡◌, refl, ap, ◌⊎◌, inl, inr, List, [], ◌∷◌,
  ◌++◌, length, arith,
}
use raft.Types.{LogEntry}
use raft.RaftLog.Segments.{command_bytes}
use raft.Node.Replicate.{cap_from, cap_by_bytes}

-- The next entry would take the batch over the budget, where `total` bytes stand before it.
abbrev pub NoRoom : (total budget : ℕ) → (sent rest : List LogEntry) → Type 0
NoRoom total budget sent [] = Unit {0}
NoRoom total budget sent (e ∷ es) = budget < total + command_bytes sent + length e.command

NoRoom-cons :
    (total budget : ℕ) (e : LogEntry) (sent rest : List LogEntry)
    → NoRoom (total + length e.command) budget sent rest
    → NoRoom total budget (e ∷ sent) rest
unfolding command_bytes
NoRoom-cons total budget e sent [] h = tt
NoRoom-cons total budget e sent (x ∷ rest) h = omega (arith, h)

-- What is sent is a prefix within the budget, and the next entry has no room.
abbrev pub Filling : (total budget : ℕ) → (es sent : List LogEntry) → Type 0
Filling total budget es sent =
    (rest : List LogEntry) × (sent ++ rest ≡ es)
    × (total + command_bytes sent ≤ budget)
    × NoRoom total budget sent rest

Filling-cons :
    (total budget : ℕ) (e : LogEntry) (es sent : List LogEntry)
    → Filling (total + length e.command) budget es sent
    → Filling total budget (e ∷ es) (e ∷ sent)
unfolding command_bytes
Filling-cons total budget e es sent (rest, parts, fits, full) =
    (rest, ap (λ l. e ∷ l) parts, omega (arith, fits), NoRoom-cons total budget e sent rest full)

cap_from-Filling :
    (total budget : ℕ) (es : List LogEntry)
    → total ≤ budget
    → Filling total budget es (cap_from false total budget es)
unfolding cap_from command_bytes
cap_from-Filling total budget [] h = ([], refl, omega arith, tt)
cap_from-Filling total budget (e ∷ es) h =
    let sum = total + length e.command in
    if-cases (Filling total budget (e ∷ es)) (ltb budget sum) [] (e ∷ cap_from false sum budget es)
      (λ over. (e ∷ es, refl, omega arith, ground (arith, over)))
      (λ under.
        Filling-cons total budget e es (cap_from false sum budget es)
          (cap_from-Filling sum budget es (ground (arith, under))))

-- `capByBytes` sends everything without a budget. With one it sends the longest prefix within it,
-- or the first entry by itself where that one is over the budget; so it sends at least one entry of
-- those there are, and a request is never empty while there is something to send.
pub cap_by_bytes-Filling :
    (budget : ℕ) (e : LogEntry) (es : List LogEntry)
    → ((budget ≡ 0) × (cap_by_bytes (e ∷ es) budget ≡ e ∷ es))
      ⊎ ((budget < length e.command) × (cap_by_bytes (e ∷ es) budget ≡ e ∷ []))
      ⊎ (Filling 0 budget (e ∷ es) (cap_by_bytes (e ∷ es) budget)
          × ((sent : List LogEntry) × (cap_by_bytes (e ∷ es) budget ≡ e ∷ sent)))
unfolding cap_by_bytes cap_from
cap_by_bytes-Filling budget e es =
    if-cases Sent (budget == 0) (e ∷ es) (cap_from true 0 budget (e ∷ es))
      (λ free. inl (ground (arith, free), refl))
      (λ set.
        if-cases Sent (ltb budget (0 + length e.command)) (e ∷ [])
          (e ∷ cap_from false (0 + length e.command) budget es)
          (λ over. inr (inl (ground (arith, over), refl)))
          (λ under. inr (
            inr (
              Filling-cons 0 budget e es (cap_from false (0 + length e.command) budget es)
                  (cap_from-Filling (0 + length e.command) budget es (ground (arith, under))),
              (cap_from false (0 + length e.command) budget es, refl),
            ))))
  where
    Sent : List LogEntry → Type 0
    Sent l =
        ((budget ≡ 0) × (l ≡ e ∷ es))
        ⊎ ((budget < length e.command) × (l ≡ e ∷ []))
        ⊎ (Filling 0 budget (e ∷ es) l × ((sent : List LogEntry) × (l ≡ e ∷ sent)))
