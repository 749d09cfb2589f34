-- ===== src/Node/Zones.antt =====
-- Zones told by themselves: how many distinct ones the replicas of an index lie in.
-- `spansEnoughZones` of node_replication.go decides whether they are enough.
use mathlib.Core.Logic.{◌↔◌}
use raft.Prelude.{
  ℕ, ◌+◌, ◌≤◌, leb, ◌&&◌, ◌||◌, if◌then◌else◌, if-cases, Bool, Bool-cases, Option-cases, true,
  false, ℤ, pos, negsuc, none, some, List, [], ◌∷◌, length, NodeId, id_eq, id_eq_iff, id_eq_refl,
  ◌≡◌, refl, sym, ◌∙◌, ◌⊎◌, inl, inr, arith,
}
use raft.Types.{PeerConfig}
use raft.Node.State.{Node}
use raft.Node.Commit.{
  contains_id, add_zone, zones_of_peers, enough_zones, self_holds, spans_enough_zones,
}

-- No zone stands twice.
abbrev pub Distinct : List NodeId → Type 0
Distinct [] = Unit {0}
Distinct (z ∷ zs) = (contains_id z zs ≡ false) × Distinct zs

abbrev pub in_zone : Node → NodeId → NodeId → Bool
in_zone n z id = elim (n.cfg.zones id) [ none ↦ false | some y ↦ id_eq y z ]

-- Whether some voter that has the index lies in the zone.
abbrev pub held_in : Node → ℕ → NodeId → List PeerConfig → Bool
held_in n idx z [] = false
held_in n idx z (p ∷ ps) =
    let rest = held_in n idx z ps in
    (p.voter && leb idx (n.match_index p.id) && in_zone n z p.id) || rest

-- As many zones as are asked for hold the index; one, or none, is always enough.
abbrev pub Zoned : Node → ℕ → List PeerConfig → Bool → ℤ → Type 0
Zoned n idx members own (negsuc k) = Unit {0}
Zoned n idx members own (pos k) =
    (k ≤ 1)
    ⊎ ((zs : List NodeId) × Distinct zs
        × (k ≤ length zs)
        × ((z : NodeId)
            → contains_id z zs ≡ true
            → (held_in n idx z members || (own && in_zone n z n.cfg.id)) ≡ true))

add_zone-contains :
    (n : Node) (id z : NodeId) (seen : List NodeId)
    → contains_id z (add_zone n id seen) ≡ (in_zone n z id || contains_id z seen)
unfolding add_zone contains_id
add_zone-contains n id z seen = elim (Option-cases (n.cfg.zones id)) [
  | inl nowhere ↦ ground (arith, nowhere)
  | inr (y, found) ↦ ground (arith, found, id_eq_iff y z)
]

add_zone-Distinct :
    (n : Node) (id : NodeId) (seen : List NodeId) → Distinct seen → Distinct (add_zone n id seen)
unfolding add_zone
add_zone-Distinct n id seen d = elim (Option-cases (n.cfg.zones id)) [
  | inl nowhere ↦ rw (nowhere, add_zone) d
  | inr (y, found) ↦
      rw (found, add_zone)
        (if-cases Distinct (contains_id y seen) seen (y ∷ seen) (λ h. d) (λ h. (h, d)))
]

zones_of_peers-contains :
    (n : Node) (idx : ℕ) (ps : List PeerConfig) (z : NodeId) (seen : List NodeId)
    → contains_id z (zones_of_peers n idx ps seen) ≡ (held_in n idx z ps || contains_id z seen)
unfolding zones_of_peers
zones_of_peers-contains n idx [] z seen = refl
zones_of_peers-contains n idx (p ∷ ps) z seen =
    let next = if p.voter && leb idx (n.match_index p.id) then add_zone n p.id seen else seen in
    ground (arith, zones_of_peers-contains n idx ps z next, add_zone-contains n p.id z seen)

zones_of_peers-Distinct :
    (n : Node) (idx : ℕ) (ps : List PeerConfig) (seen : List NodeId)
    → Distinct seen
    → Distinct (zones_of_peers n idx ps seen)
unfolding zones_of_peers
zones_of_peers-Distinct n idx [] seen d = d
zones_of_peers-Distinct n idx (p ∷ ps) seen d = zones_of_peers-Distinct n idx ps _ (
    if-cases Distinct (p.voter && leb idx (n.match_index p.id)) (add_zone n p.id seen) seen
      (λ h. add_zone-Distinct n p.id seen d) (λ h. d))

abbrev without_zone : NodeId → List NodeId → List NodeId
without_zone z [] = []
without_zone z (y ∷ ys) = let rest = without_zone z ys in if id_eq y z then ys else y ∷ rest

without_zone-length :
    (z : NodeId) (ys : List NodeId)
    → contains_id z ys ≡ true
    → length (without_zone z ys) + 1 ≡ length ys
unfolding contains_id
without_zone-length z [] h = absurd cc
without_zone-length z (y ∷ ys) h = ground (arith, h, without_zone-length z ys)

without_zone-contains :
    (z x : NodeId) (ys : List NodeId)
    → id_eq z x ≡ false
    → contains_id x ys ≡ true
    → contains_id x (without_zone z ys) ≡ true
unfolding contains_id
without_zone-contains z x [] h k = absurd cc
without_zone-contains z x (y ∷ ys) h k =
    ground
      (arith, h, k, without_zone-contains z x ys h, id_eq_iff y z, id_eq_iff y x, id_eq_iff z x)

apart :
    (z x : NodeId) (zs : List NodeId)
    → contains_id z zs ≡ false
    → contains_id x zs ≡ true
    → id_eq z x ≡ false
apart z x zs h k = elim (Bool-cases (id_eq z x)) [
  | inr other ↦ other
  | inl same ↦ let equal = (id_eq_iff z x).0 same in absurd (cc (h, k, equal))
]

-- Distinct zones that all stand in a list are no more than it has.
Distinct-fewer :
    (zs seen : List NodeId)
    → Distinct zs
    → ((z : NodeId) → contains_id z zs ≡ true → contains_id z seen ≡ true)
    → length zs ≤ length seen
unfolding contains_id
Distinct-fewer [] seen d h = omega arith
Distinct-fewer (z ∷ zs) seen d h =
    let here = h z (ground (arith, id_eq_refl z)) in
    let fewer =
      Distinct-fewer zs (without_zone z seen) d.1
        (λ x k. without_zone-contains z x seen (apart z x zs d.0 k) (h x (ground (arith, k)))) in
    omega (arith, fewer, without_zone-length z seen here)

pub spans_enough_zones-Zoned :
    (n : Node) (idx : ℕ) (members : List PeerConfig) (include_self self_voter : Bool)
    → (spans_enough_zones n idx members include_self self_voter ≡ true)
      ↔ Zoned n idx members (self_holds n idx include_self self_voter) n.cfg.min_commit_zones
unfolding spans_enough_zones enough_zones
spans_enough_zones-Zoned n idx members include_self self_voter = go n.cfg.min_commit_zones
  where
    own : Bool
    own = self_holds n idx include_self self_voter

    start : List NodeId
    start = if own then add_zone n n.cfg.id [] else []

    seen : List NodeId
    seen = zones_of_peers n idx members start

    start-Distinct : Distinct start
    start-Distinct =
        if-cases Distinct own (add_zone n n.cfg.id []) [] (λ h. add_zone-Distinct n n.cfg.id [] tt)
          (λ h. tt)

    seen-contains :
        (z : NodeId)
        → contains_id z seen ≡ (held_in n idx z members || (own && in_zone n z n.cfg.id))
    seen-contains z =
        ground
          (arith, zones_of_peers-contains n idx members z start, add_zone-contains n n.cfg.id z [])

    go : (k : ℤ) → (enough_zones k seen ≡ true) ↔ Zoned n idx members own k
    go (negsuc k) = (λ h. tt, λ h. refl)
    go (pos k) = (
      λ h. elim (Bool-cases (leb k 1)) [
        | inl one ↦ inl (ground (arith, one))
        | inr more ↦ inr (
          seen,
          zones_of_peers-Distinct n idx members start start-Distinct,
          ground (arith, h, more),
          λ z k. sym (seen-contains z) ∙ k,
        )
      ],
      λ zoned. elim zoned [
        | inl one ↦ ground (arith, one)
        | inr (zs, distinct, many, held) ↦
            let fewer = Distinct-fewer zs seen distinct (λ z k. seen-contains z ∙ held z k) in
            ground (arith, many, fewer)
      ],
    )
