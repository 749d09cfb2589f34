-- ===== src/Node/BatchTests.antt =====
-- A batch that is cut behind its first entry.
use raft.Prelude.{ℕ, ◌≡◌, ◌<◌, ◌⊎◌, List, [], ◌∷◌}
use raft.Types.{LogEntry}
use raft.Node.Replicate.{cap_by_bytes}
use raft.Node.Batches.{Filling, cap_by_bytes-Filling}

abbrev entry : ℕ → LogEntry
entry index = record { index = index; term = 2; command = 7 ∷ 7 ∷ [] }

abbrev budget : ℕ
budget = 3

abbrev es : List LogEntry
es = entry 6 ∷ []

cap_by_bytes-Filling_example :
    ((budget ≡ 0) × (cap_by_bytes (entry 5 ∷ es) budget ≡ entry 5 ∷ es))
    ⊎ ((budget < 2) × (cap_by_bytes (entry 5 ∷ es) budget ≡ entry 5 ∷ []))
    ⊎ (Filling 0 budget (entry 5 ∷ es) (cap_by_bytes (entry 5 ∷ es) budget)
        × ((sent : List LogEntry) × (cap_by_bytes (entry 5 ∷ es) budget ≡ entry 5 ∷ sent)))
cap_by_bytes-Filling_example = cap_by_bytes-Filling budget (entry 5) es
