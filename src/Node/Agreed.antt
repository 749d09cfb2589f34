-- ===== src/Node/Agreed.antt =====
-- When a replicated index is agreed on, told by itself: the replicas that count, membership by
-- membership, against the commit quorum. `replicatedOnMajority` of node_replication.go and the test
-- of `maybeAdvanceCommit` decide it.
use raft.Prelude.{
  ℕ, ◌+◌, ◌≤◌, leb, ◌==◌, not, ◌&&◌, if◌then◌else◌, Bool, true, none, some, Option-cases, List, ◌≡◌,
  subst, ◌⊎◌, inl, inr, count, arith,
}
use mathlib.Core.Logic.{◌↔◌}
use raft.Types.{PeerConfig}
use raft.Quorum.{QuorumKind, quorum_needed, voters}
use raft.RaftLog.Defs.{stable_index}
use raft.Node.State.{Node}
use raft.Node.Zones.{Zoned, spans_enough_zones-Zoned}
use raft.Node.Commit.{committed_at, replicated_on_majority, holders, self_holds}

-- Members by their role, and by whether they are known to hold an index.
abbrev has : Node → ℕ → PeerConfig → Bool
has n idx p = leb idx (n.match_index p.id)

abbrev full_voter : PeerConfig → Bool
full_voter p = p.voter && not p.witness

-- What the members count for an index: each full voter that has it, and, while some full voter
-- without it is down, each witness that acknowledged it.
abbrev pub peer_votes : Node → ℕ → List PeerConfig → ℕ
peer_votes n idx members =
    let full = count (λ p. full_voter p && has n idx p) members in
    let standing_in = count (λ p. p.voter && p.witness && has n idx p) members in
    let missed = count (λ p. full_voter p && not (has n idx p) && n.peer_down p.id) members in
    if missed == 0 then full else full + standing_in

-- One membership backs an index: its members, and the node itself where it votes in it and has the
-- index on its own disk, make a commit quorum of it, in as many zones as are asked for.
abbrev pub Backed : Node → ℕ → List PeerConfig → (include_self self_voter : Bool) → Type 0
Backed n idx members include_self self_voter =
    let own : Bool = include_self && self_voter in
    let own_copy : Bool = own && leb idx (stable_index n.log) in
    (quorum_needed n.policy QuorumKind.commit_quorum (voters members + (if own then 1 else 0))
      ≤ (if own_copy then 1 else 0) + peer_votes n idx members)
    × Zoned n idx members own_copy n.cfg.min_commit_zones

-- The one membership backs the index, or during a change both do.
abbrev pub Agreed : Node → ℕ → Type 0
Agreed n idx =
    ((n.joint_old ≡ none) × Backed n idx n.cfg.peers true n.cfg.voter)
    ⊎ ((old : List PeerConfig) × (n.joint_old ≡ some old)
        × Backed n idx old true n.joint_self_voter_old
        × Backed n idx n.joint_new n.joint_include_self n.joint_self_voter)

replicated_on_majority-Backed :
    (n : Node) (idx : ℕ) (members : List PeerConfig) (include_self self_voter : Bool)
    → (replicated_on_majority n idx members include_self self_voter ≡ true)
      ↔ Backed n idx members include_self self_voter
unfolding replicated_on_majority holders self_holds
replicated_on_majority-Backed n idx members include_self self_voter =
    let zones = spans_enough_zones-Zoned n idx members include_self self_voter in
    (
      λ h. (ground (arith, h), zones.0 (ground (arith, h))),
      λ h. (let spans = zones.1 h.1 in ground (arith, h.0, spans)),
    )

pub committed_at-Agreed : (n : Node) (idx : ℕ) → (committed_at n idx ≡ true) ↔ Agreed n idx
unfolding committed_at
committed_at-Agreed n idx = elim (Option-cases n.joint_old) [
  | inl single ↦ (
    λ h. inl (
      single,
      (replicated_on_majority-Backed n idx n.cfg.peers true n.cfg.voter).0
          (ground (arith, h, single)),
    ),
    λ a. elim a [
      | inl (s, b) ↦
          let backed = (replicated_on_majority-Backed n idx n.cfg.peers true n.cfg.voter).1 b in
          ground (arith, single, backed)
      | inr (old, joint, b, c) ↦ absurd (ground (arith, single, joint))
    ],
  )
  | inr (old, joint) ↦ (
    λ h. inr (
      old,
      joint,
      (replicated_on_majority-Backed n idx old true n.joint_self_voter_old).0
          (ground (arith, h, joint)),
      (replicated_on_majority-Backed n idx n.joint_new n.joint_include_self n.joint_self_voter).0
          (ground (arith, h, joint)),
    ),
    λ a. elim a [
      | inl (single, b) ↦ absurd (ground (arith, single, joint))
      | inr (before, joint', b, c) ↦
          let same : before ≡ old = ground (arith, joint, joint') in
          let in_old =
            (replicated_on_majority-Backed n idx old true n.joint_self_voter_old).1
              (subst (λ ms. Backed n idx ms true n.joint_self_voter_old) same b) in
          let in_new =
            (replicated_on_majority-Backed n idx n.joint_new n.joint_include_self
                n.joint_self_voter).1
              c in
          ground (arith, joint, in_old, in_new)
    ],
  )
]
