-- ===== src/Node/Counted.antt =====
-- What `handleAppendResult` makes of an acknowledgement: the peer counts as holding the batch, and is
-- sent what comes after it.
use raft.Prelude.{◌≤◌, ◌<◌, not, ◌&&◌, Bool, true, false, ◌≡◌, refl, ◌⊎◌, inl, inr, List, [], ◌∷◌}
use raft.Types.{LogEntry, is_leader}
use raft.Node.State.{Node}
use raft.Node.Departures.{AppendResult}
use raft.Node.Progress.{sent_to}

-- An acknowledgement of a batch that has entries, by an answer that arrived at a leader.
abbrev pub acknowledges : AppendResult → Node → Bool
acknowledges r n =
    let carried : Bool = elim r.req.entries [ [] ↦ false | e ∷ es ↦ true ] in
    not r.dropped && is_leader n.state && r.success && carried

-- The batch counts as held by the peer, and what is sent next lies past it.
abbrev pub Counted : AppendResult → Node → Type 0
Counted r m =
    (sent_to r.req.entries ≤ m.match_index r.peer) × (sent_to r.req.entries < m.next_index r.peer)

carried : (l : List LogEntry) → (l ≡ []) ⊎ ((e : LogEntry) × (es : List LogEntry) × (l ≡ e ∷ es))
carried [] = inl refl
carried (e ∷ es) = inr (e, es, refl)
