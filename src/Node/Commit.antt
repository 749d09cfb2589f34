-- ===== src/Node/Commit.antt =====
-- The commit rule of node_replication.go: `spansEnoughZones`, `replicatedOnMajority` and
-- `maybeAdvanceCommit`.
use raft.Prelude.{
  ℕ, zero, suc, ◌+◌, ◌-◌, ltb, leb, ◌==◌, not, ◌&&◌, ◌||◌, if◌then◌else◌, Bool, true, false, ℤ, pos,
  negsuc, add64, Option, none, some, List, [], ◌∷◌, length, count, NodeId, id_eq,
}
use raft.Types.{PeerConfig, is_leader}
use raft.Quorum.{QuorumKind, quorum_needed, has_quorum_ack, voters}
use raft.RaftLog.Defs.{stable_index, last_log_index}
use raft.Node.State.{Node}
use raft.Node.Writes.{set_commit_index, notify_apply}
use raft.Node.Reads.{start_read_batch}

-- The set of zones, as a list in which no zone stands twice.
unfoldable pub contains_id : NodeId → List NodeId → Bool
contains_id z [] = false
contains_id z (y ∷ ys) = id_eq y z || contains_id z ys

unfoldable pub add_zone : Node → NodeId → List NodeId → List NodeId
unfolding contains_id
add_zone n id seen = elim (n.cfg.zones id) [
  | none ↦ seen
  | some z ↦ if contains_id z seen then seen else z ∷ seen
]

unfoldable pub zones_of_peers : Node → ℕ → List PeerConfig → List NodeId → List NodeId
unfolding add_zone
zones_of_peers n idx [] seen = seen
zones_of_peers n idx (p ∷ ps) seen =
    zones_of_peers n idx ps
      (if p.voter && leb idx (n.match_index p.id) then add_zone n p.id seen else seen)

-- `required <= 1`, and the comparison with the number of zones.
unfoldable pub enough_zones : ℤ → List NodeId → Bool
enough_zones (negsuc k) seen = true
enough_zones (pos k) seen = leb k 1 || leb k (length seen)

-- Whether the leader's own replica counts for an index.
unfoldable pub self_holds : Node → ℕ → Bool → Bool → Bool
self_holds n idx include_self self_voter =
    include_self && self_voter && leb idx (stable_index n.log)

-- `spansEnoughZones`
unfoldable pub spans_enough_zones : Node → ℕ → List PeerConfig → Bool → Bool → Bool
unfolding zones_of_peers enough_zones self_holds
spans_enough_zones n idx members include_self self_voter =
    let own = if self_holds n idx include_self self_voter then add_zone n n.cfg.id [] else [] in
    enough_zones n.cfg.min_commit_zones (zones_of_peers n idx members own)

-- The cases of the loop of `replicatedOnMajority`: a full voter that holds the index, a witness that
-- acknowledged it, and a full voter that lacks it and is down.
abbrev pub full_holder : Node → ℕ → PeerConfig → Bool
full_holder n idx p = p.voter && not p.witness && leb idx (n.match_index p.id)

abbrev pub witness_holder : Node → ℕ → PeerConfig → Bool
witness_holder n idx p = p.voter && p.witness && leb idx (n.match_index p.id)

abbrev pub full_down : Node → ℕ → PeerConfig → Bool
full_down n idx p =
    p.voter && not p.witness && not (leb idx (n.match_index p.id)) && n.peer_down p.id

-- How many replicas count for an index.
unfoldable pub holders : Node → ℕ → List PeerConfig → Bool → Bool → ℕ
unfolding self_holds
holders n idx members include_self self_voter =
    (if self_holds n idx include_self self_voter then 1 else 0)
    + count (full_holder n idx) members
    + (if count (full_down n idx) members == 0 then 0 else count (witness_holder n idx) members)

-- `replicatedOnMajority`
unfoldable pub replicated_on_majority : Node → ℕ → List PeerConfig → Bool → Bool → Bool
unfolding holders spans_enough_zones
replicated_on_majority n idx members include_self self_voter =
    let total = voters members + (if include_self && self_voter then 1 else 0) in
    if ltb (holders n idx members include_self self_voter)
      (quorum_needed n.policy QuorumKind.commit_quorum total)
    then false
    else spans_enough_zones n idx members include_self self_voter

-- The test of one index: with the one configuration, or with both during joint consensus.
unfoldable pub committed_at : Node → ℕ → Bool
unfolding replicated_on_majority
committed_at n idx = elim n.joint_old [
  | none ↦ replicated_on_majority n idx n.cfg.peers true n.cfg.voter
  | some old ↦
      replicated_on_majority n idx old true n.joint_self_voter_old
      && replicated_on_majority n idx n.joint_new n.joint_include_self n.joint_self_voter
]

-- Whether acknowledgements make a commit quorum, in the one configuration or in both.
unfoldable pub commit_quorum_acked : Node → (NodeId → Bool) → Bool
commit_quorum_acked n acks = elim n.joint_old [
  | none ↦ has_quorum_ack n.policy QuorumKind.commit_quorum acks n.cfg.peers true n.cfg.voter
  | some old ↦
      has_quorum_ack n.policy QuorumKind.commit_quorum acks old true n.joint_self_voter_old
      && has_quorum_ack n.policy QuorumKind.commit_quorum acks n.joint_new n.joint_include_self
          n.joint_self_voter
]

-- The scan downwards through `lo + rounds - 1` to `lo`.
unfoldable pub scan_down : Node → (lo rounds : ℕ) → Option ℕ
scan_down n lo zero = none
scan_down n lo (suc k) =
    let lower = scan_down n lo k in if committed_at n (lo + k) then some (lo + k) else lower

-- Where the scan stops: above the commit index, and in the leader's own term.
unfoldable pub scan_bottom : Node → ℕ
scan_bottom n =
    let lo = add64 n.commit_index 1 in if ltb lo n.term_start_index then n.term_start_index else lo

-- The first commit of a leader's term starts the reads that waited for it.
unfoldable pub note_nop_committed : Node → Node
unfolding start_read_batch
note_nop_committed n =
    let noted = record n { leader_nop_committed = true } in
    if n.leader_nop_committed
    then n
    else elim n.pending_reads [ [] ↦ noted | r ∷ rs ↦ start_read_batch noted ]

-- `maybeAdvanceCommit`
unfoldable pub maybe_advance_commit : Node → Node
unfolding scan_bottom note_nop_committed set_commit_index notify_apply
maybe_advance_commit n =
    let lo = scan_bottom n in
    if not (is_leader n.state) || n.term_start_index == 0
    then n
    else elim (scan_down n lo (last_log_index n.log + 1 - lo)) [
      | none ↦ n
      | some idx ↦ note_nop_committed (notify_apply (set_commit_index idx n))
    ]
