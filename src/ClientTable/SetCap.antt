-- ===== src/ClientTable/SetCap.antt =====
-- A new bound for the table of client_dedup.go: `setCap` drops from the back.
use raft.Prelude.{
  ℕ, zero, suc, ◌+◌, ◌≤◌, ◌<◌, ltb, ◌&&◌, if-cases, List, [], ◌∷◌, ◌++◌, length, length-append,
  NodeId, ◌≡◌, refl, sym, ap, ◌∙◌, ◌⊎◌, inl, inr, arith,
}
use mathlib.Core.List.{append_assoc, append-nil}
use raft.ClientTable.Defs.{ClientRecord, ClientTable, split_last, shrink, set_cap}
use raft.ClientTable.Lru.{split_last-parts}

-- The clients of a list, from its back.
abbrev pub from_back : List ClientRecord → List NodeId
from_back [] = []
from_back (r ∷ rs) = from_back rs ++ r.id ∷ []

from_back-last :
    (rs : List ClientRecord) (l : ClientRecord) → from_back (rs ++ l ∷ []) ≡ l.id ∷ from_back rs
from_back-last [] l = refl
from_back-last (r ∷ rs) l = ap (λ ids. ids ++ r.id ∷ []) (from_back-last rs l)

-- What is kept is the front of the list, within the bound, if there is one, and no shorter than it
-- has to be, and the rest was dropped from the back.
abbrev pub Shrunk : ℕ → List ClientRecord → List NodeId → List ClientRecord × List NodeId → Type 0
Shrunk cap items evicted r =
    (dropped : List ClientRecord) × (r.0 ++ dropped ≡ items)
    × (r.1 ≡ evicted ++ from_back dropped)
    × ((cap ≡ 0) ⊎ (length r.0 ≤ cap))
    × ((dropped ≡ []) ⊎ ((0 < cap) × (cap ≤ length r.0)))

dropped_last :
    (cap : ℕ) (items init : List ClientRecord) (l : ClientRecord) (evicted : List NodeId)
    (r : List ClientRecord × List NodeId)
    → init ++ l ∷ [] ≡ items
    → (0 < cap) × (cap ≤ length init)
    → Shrunk cap init (evicted ++ l.id ∷ []) r
    → Shrunk cap items evicted r
dropped_last cap items init l evicted r parts room (dropped, front, back, bound, tight) = (
  dropped ++ l ∷ [],
  sym (append_assoc r.0 dropped (l ∷ [])) ∙ ap (λ x. x ++ l ∷ []) front ∙ parts,
  back
      ∙ append_assoc evicted (l.id ∷ []) (from_back dropped)
      ∙ ap (λ ids. evicted ++ ids) (sym (from_back-last dropped l)),
  bound,
  inr (room.0, still r.0 dropped front tight),
)
  where
    still :
        (kept dropped : List ClientRecord)
        → kept ++ dropped ≡ init
        → (dropped ≡ []) ⊎ ((0 < cap) × (cap ≤ length kept))
        → cap ≤ length kept
    still kept dropped e (inl none) =
        omega (arith, room.1, ap length (sym e), ap length none, length-append kept dropped)
    still kept dropped e (inr enough) = enough.1

shrink-Shrunk :
    (rounds cap : ℕ) (items : List ClientRecord) (evicted : List NodeId)
    → length items ≤ rounds
    → Shrunk cap items evicted (shrink rounds cap items evicted)
unfolding shrink
shrink-Shrunk zero cap [] evicted h =
    ([], refl, sym (append-nil evicted), inr (omega arith), inl refl)
shrink-Shrunk zero cap (r ∷ rs) evicted h = absurd (omega arith)
shrink-Shrunk (suc rounds) cap [] evicted h =
    ([], refl, sym (append-nil evicted), inr (omega arith), inl refl)
shrink-Shrunk (suc rounds) cap (r ∷ rs) evicted h =
    let split = split_last r rs in
    let parts = split_last-parts r rs in
    let count : length split.0 ≡ length rs =
      omega (arith, ap length parts, length-append split.0 (split.1 ∷ [])) in
    if-cases (Shrunk cap (r ∷ rs) evicted) (ltb 0 cap && ltb cap (length rs + 1)) _
      (r ∷ rs, evicted)
      (λ over.
        dropped_last cap (r ∷ rs) split.0 split.1 evicted _ parts
          (ground (arith, over, count), ground (arith, over, count))
          (shrink-Shrunk rounds cap split.0 (evicted ++ split.1.id ∷ []) (omega (arith, count))))
      (λ room. ([], append-nil (r ∷ rs), sym (append-nil evicted), ground (arith, room), inl refl))

-- `setCap` keeps the clients heard of most recently, as many as the bound allows, and drops the
-- others from the back, the one heard of longest ago first; a bound of 0 drops none.
pub set_cap-Shrunk :
    (cap : ℕ) (c : ClientTable)
    → ((set_cap cap c).1.cap ≡ cap)
      × Shrunk cap c.items [] ((set_cap cap c).1.items, (set_cap cap c).0)
unfolding set_cap
set_cap-Shrunk cap c = (refl, shrink-Shrunk (length c.items) cap c.items [] (omega arith))
