-- ===== src/Quorum/Sizes.antt =====
-- The sizes of quorums: `commitQuorumFor`, `electionQuorumFor` and `quorumNeeded` of quorum.go.
use raft.Prelude.{
  ℕ, ◌+◌, ◌-◌, ◌/◌, ◌*◌, ◌≤◌, ◌<◌, min, max, ℤ, pos, negsuc, ◌==◌, if◌then◌else◌, ◌≡◌, ◌⊎◌, inl,
  inr, refl, arith,
}

pub data QuorumKind : Type 0 where
  commit_quorum election_quorum : QuorumKind

-- `commitQuorumFor`, where `q <= 0` asks for a majority.
unfoldable pub commit_quorum_for : ℤ → ℕ → ℕ
commit_quorum_for (negsuc q) total = if total == 0 then 0 else total / 2 + 1
commit_quorum_for (pos q) total =
    if total == 0 then 0 else if q == 0 then total / 2 + 1 else min q total

-- `electionQuorumFor`; the commit quorum is at most `total`, so the subtraction is exact.
unfoldable pub election_quorum_for : ℤ → ℕ → ℕ
election_quorum_for q total =
    if total == 0 then 0 else max (total - commit_quorum_for q total + 1) (total / 2 + 1)

-- The two policies that a node counts by: the one applied and the latest one in its log.
pub record Policy : Type 0 where
  pub applied : ℤ
  pub latest : ℤ

-- `quorumNeeded`: the stricter of the two.
unfoldable pub quorum_needed : Policy → QuorumKind → ℕ → ℕ
quorum_needed p QuorumKind.election_quorum total =
    max (election_quorum_for p.applied total) (election_quorum_for p.latest total)
quorum_needed p QuorumKind.commit_quorum total =
    max (commit_quorum_for p.applied total) (commit_quorum_for p.latest total)

-- `q` is one of the policies that the node counts by.
abbrev pub Counts : Policy → ℤ → Type 0
Counts p q = (p.applied ≡ q) ⊎ (p.latest ≡ q)

pub commit_quorum_for-le : (q : ℤ) (total : ℕ) → commit_quorum_for q total ≤ total
unfolding commit_quorum_for
commit_quorum_for-le (negsuc q) total = ground arith
commit_quorum_for-le (pos q) total = ground arith

commit_quorum_for-pos : (q : ℤ) (total : ℕ) → 0 < total → 0 < commit_quorum_for q total
unfolding commit_quorum_for
commit_quorum_for-pos (negsuc q) total h = ground arith
commit_quorum_for-pos (pos q) total h = ground arith

election_quorum_for-majority :
    (q : ℤ) (total : ℕ) → 0 < total → total < election_quorum_for q total * 2
unfolding election_quorum_for
election_quorum_for-majority q total h = ground arith

-- The election quorum is reachable, too: all the voters together form one.
pub election_quorum_for-le : (q : ℤ) (total : ℕ) → election_quorum_for q total ≤ total
unfolding election_quorum_for
election_quorum_for-le q total =
    ground (arith, commit_quorum_for-pos q total, commit_quorum_for-le q total)

election-commit_exceeds :
    (q : ℤ) (total : ℕ)
    → 0 < total
    → total < election_quorum_for q total + commit_quorum_for q total
unfolding election_quorum_for
election-commit_exceeds q total h = ground (arith, commit_quorum_for-le q total)

-- What a node needs is at least the quorum of any policy that it counts by.
pub commit_quorum_for-le-needed :
    (p : Policy) (q : ℤ) (total : ℕ)
    → Counts p q
    → commit_quorum_for q total ≤ quorum_needed p QuorumKind.commit_quorum total
unfolding quorum_needed
commit_quorum_for-le-needed p q total (inl e) = ground (arith, e)
commit_quorum_for-le-needed p q total (inr e) = ground (arith, e)

pub election_quorum_for-le-needed :
    (p : Policy) (q : ℤ) (total : ℕ)
    → Counts p q
    → election_quorum_for q total ≤ quorum_needed p QuorumKind.election_quorum total
unfolding quorum_needed
election_quorum_for-le-needed p q total (inl e) = ground (arith, e)
election_quorum_for-le-needed p q total (inr e) = ground (arith, e)

-- Whatever two nodes' policies, their election quorums together exceed the voters.
pub elections_exceed :
    (p q : Policy) (total : ℕ)
    → 0 < total
    → total
      < quorum_needed p QuorumKind.election_quorum total
        + quorum_needed q QuorumKind.election_quorum total
elections_exceed p q total h = omega (
  arith,
  election_quorum_for-majority p.applied total h,
  election_quorum_for-majority q.applied total h,
  election_quorum_for-le-needed p p.applied total (inl refl),
  election_quorum_for-le-needed q q.applied total (inl refl),
)

-- So do an election quorum and a commit quorum of nodes that have one policy in common.
pub election-commit-needed_exceeds :
    (p q : Policy) (common : ℤ) (total : ℕ)
    → Counts p common
    → Counts q common
    → 0 < total
    → total
      < quorum_needed p QuorumKind.election_quorum total
        + quorum_needed q QuorumKind.commit_quorum total
election-commit-needed_exceeds p q common total cp cq h = omega (
  arith,
  election-commit_exceeds common total h,
  election_quorum_for-le-needed p common total cp,
  commit_quorum_for-le-needed q common total cq,
)
