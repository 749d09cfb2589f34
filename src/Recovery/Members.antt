-- ===== src/Recovery/Members.antt =====
-- The membership that a log leaves, and the check of the one that is to replace it, of recovery.go.
use raft.Prelude.{
  ℕ, ◌+◌, ltb, ◌==◌, not, ◌||◌, if◌then◌else◌, Bool, true, false, pos, Option, none, some, List, [],
  ◌∷◌, NodeId, id_eq, update,
}
use raft.Types.{LogEntry, PeerConfig, Error, invalid, not_member, Result, ok, err}
use raft.ConfigEntry.Defs.{
  op_add, op_remove, op_joint, op_finalise, is_config_entry, decode_config_entry,
  decode_joint_config_entry, decode_finalise_config_entry, MembershipState,
}

-- `upsertPeer`: only the vote of a peer that is there already is changed.
unfoldable pub upsert_peer : List PeerConfig → PeerConfig → List PeerConfig
upsert_peer [] p = p ∷ []
upsert_peer (q ∷ qs) p =
    let rest = upsert_peer qs p in
    if id_eq q.id p.id then record q { voter = p.voter } ∷ qs else q ∷ rest

-- `removePeer`
unfoldable pub without_peer : List PeerConfig → NodeId → List PeerConfig
without_peer [] id = []
without_peer (p ∷ ps) id = let rest = without_peer ps id in if id_eq p.id id then rest else p ∷ rest

abbrev pub no_membership : MembershipState
no_membership = record { joint = false; members = []; old = []; new = []; commit_quorum = pos 0 }

-- The cases of `adoptMembershipEntry`.
unfoldable pub adopt_membership_op :
    ℕ → PeerConfig → List ℕ → MembershipState → Bool × MembershipState
unfolding upsert_peer without_peer decode_joint_config_entry decode_finalise_config_entry
adopt_membership_op op peer cmd ms =
    if op == op_add
    then (
      false,
      if ms.joint
          then record ms { old = upsert_peer ms.old peer; new = upsert_peer ms.new peer }
          else record ms { members = upsert_peer ms.members peer },
    )
    else if op == op_remove
    then (
      false,
      if ms.joint
          then record ms { old = without_peer ms.old peer.id; new = without_peer ms.new peer.id }
          else record ms { members = without_peer ms.members peer.id },
    )
    else if op == op_joint
    then elim (decode_joint_config_entry cmd) [
      | none ↦ (false, ms)
      | some lists ↦ (
        false,
        record no_membership {
          joint = true;
          old = if ms.joint then ms.old else ms.members;
          new = lists.1;
        },
      )
    ]
    else if op == op_finalise
    then elim (decode_finalise_config_entry cmd) [
      | none ↦ (false, ms)
      | some members ↦ (true, record no_membership { members = members })
    ]
    else (false, ms)

-- `adoptMembershipEntry`: whether the entry recorded a whole configuration, and the membership.
unfoldable pub adopt_membership_entry : List ℕ → MembershipState → Bool × MembershipState
unfolding decode_config_entry adopt_membership_op
adopt_membership_entry cmd ms = elim (decode_config_entry cmd) [
  | none ↦ (false, ms)
  | some decoded ↦ adopt_membership_op decoded.0 decoded.1 cmd ms
]

-- The inner loop of `replayConfigEntries`.
unfoldable pub replay_batch : List LogEntry → Bool × MembershipState → Bool × MembershipState
unfolding adopt_membership_entry is_config_entry
replay_batch [] st = st
replay_batch (e ∷ es) st =
    let adopted = adopt_membership_entry e.command st.1 in
    replay_batch es (if is_config_entry e.command then (adopted.0 || st.0, adopted.1) else st)

-- The loop of `validateRecoveryMembers`, which counts the voters.
unfoldable pub count_voters : List PeerConfig → (NodeId → Bool) → ℕ → Result ℕ
count_voters [] seen voters = ok voters
count_voters (m ∷ ms) seen voters =
    let rest = count_voters ms (update seen m.id true) (if m.voter then voters + 1 else voters) in
    if id_eq m.id []
    then err (invalid "raft.RecoverCluster: members contains an empty node ID")
    else if seen m.id
    then err (invalid "raft.RecoverCluster: members contains a node twice")
    else rest

-- `indexOfPeer`, as the peer that it finds.
unfoldable pub listed_peer : List PeerConfig → NodeId → Option PeerConfig
listed_peer [] id = none
listed_peer (p ∷ ps) id = let rest = listed_peer ps id in if id_eq p.id id then some p else rest

-- `validateRecoveryMembers`
unfoldable pub validate_recovery_members : NodeId → List PeerConfig → Option Error
unfolding count_voters listed_peer
validate_recovery_members self members =
    let no_members : Bool = elim members [ [] ↦ true | m ∷ ms ↦ false ] in
    let votes : Bool = elim (listed_peer members self) [ none ↦ false | some p ↦ p.voter ] in
    if id_eq self []
    then some (invalid "raft.RecoverCluster: self must not be empty")
    else if no_members
    then some (invalid "raft.RecoverCluster: members must not be empty")
    else elim (count_voters members (λ _. false) 0) [
      | err e ↦ some e
      | ok voters ↦
          if not votes
          then some (not_member self)
          else if ltb 1 voters
          then some (invalid "raft.RecoverCluster: members cannot form a quorum alone")
          else none
    ]
