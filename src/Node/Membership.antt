-- ===== src/Node/Membership.antt =====
-- node_membership.go and `noteAppendedConfig` of quorum.go: the membership in effect, what a config
-- entry does to it, and how it is computed again from the snapshot and the log. A peer is tracked
-- where its `next_index` is not 0, which no tracked peer's is.
use raft.Prelude.{
  ℕ, ◌==◌, not, ◌&&◌, ◌||◌, if◌then◌else◌, Bool, true, false, pos, add64, Option, none, some, List,
  [], ◌∷◌, ◌++◌, NodeId, id_eq, update,
}
use raft.Types.{LogEntry, PeerConfig, is_leader}
use raft.ConfigEntry.Defs.{
  MembershipState, op_add, op_remove, op_joint, op_finalise, op_client_table_cap, op_commit_quorum,
  is_config_entry, decode_config_entry, decode_joint_config_entry, decode_finalise_config_entry,
  decode_commit_quorum_entry, decode_client_table_cap_entry,
}
use raft.RaftLog.Defs.{last_log_index}
use raft.Node.State.{Node, Effect, emit}
use raft.Node.Commit.{maybe_advance_commit}
use raft.Node.Replicate.{Disk, without_departing, departing_index}
use raft.Node.Follower.{with_self, is_peer}
use raft.Node.Departures.{begin_departure}

-- `splitSelf`: the others, whether the node is there, and whether it votes.
unfoldable pub others : List PeerConfig → NodeId → List PeerConfig
others [] self = []
others (m ∷ ms) self = let rest = others ms self in if id_eq m.id self then rest else m ∷ rest

unfoldable pub self_votes : List PeerConfig → NodeId → (so_far : Bool) → Bool
self_votes [] self so_far = so_far
self_votes (m ∷ ms) self so_far = self_votes ms self (if id_eq m.id self then m.voter else so_far)

unfoldable pub split_self : List PeerConfig → NodeId → List PeerConfig × Bool × Bool
unfolding others self_votes is_peer
split_self members self = (others members self, is_peer self members, self_votes members self false)

-- `selfWitnessIn`; `none` when the node is not there.
unfoldable pub self_witness_in : List PeerConfig → NodeId → Option Bool
self_witness_in [] self = none
self_witness_in (m ∷ ms) self = if id_eq m.id self then some m.witness else self_witness_in ms self

-- The loops of `peerUnion`, over the peers that are taken so far.
unfoldable pub union_into : List PeerConfig → List PeerConfig → NodeId → List PeerConfig
unfolding is_peer
union_into taken [] self = taken
union_into taken (p ∷ ps) self =
    union_into (if id_eq p.id self || is_peer p.id taken then taken else taken ++ p ∷ []) ps self

-- `peerUnion`
unfoldable pub peer_union : List PeerConfig → List PeerConfig → NodeId → List PeerConfig
unfolding union_into
peer_union a b self = union_into (union_into [] a self) b self

-- `currentMembership`
unfoldable pub current_membership : Node → MembershipState
unfolding with_self
current_membership n = elim n.joint_old [
  | none ↦ record {
    joint = false;
    members = with_self n.cfg.peers n.cfg.id true n.cfg.voter n.cfg.witness;
    old = [];
    new = [];
    commit_quorum = n.policy.applied;
  }
  | some old ↦ record {
    joint = true;
    members = [];
    old = with_self old n.cfg.id true n.joint_self_voter_old n.cfg.witness;
    new = with_self n.joint_new n.cfg.id n.joint_include_self n.joint_self_voter n.cfg.witness;
    commit_quorum = n.policy.applied;
  }
]

abbrev with_membership : List PeerConfig → Bool → Node → Node
with_membership peers voter n = record n { cfg = record n.cfg { peers = peers; voter = voter } }

unfoldable pub note_witness : List PeerConfig → Node → Node
unfolding self_witness_in
note_witness members n = elim (self_witness_in members n.cfg.id) [
  | none ↦ n
  | some w ↦ record n { membership_witness = w }
]

-- `restoreMembership`
unfoldable pub restore_simple : MembershipState → Node → Node
unfolding split_self note_witness
restore_simple ms n =
    let split = split_self ms.members n.cfg.id in
    record (with_membership split.0 (split.1 && split.2) (
      note_witness ms.members
        (record n { policy = record n.policy { latest = ms.commit_quorum } }))) {
          joint_old = none;
          joint_new = [];
          joint_include_self = false;
          joint_self_voter = false;
          joint_self_voter_old = false;
        }

unfoldable pub restore_joint : MembershipState → Node → Node
unfolding split_self note_witness peer_union
restore_joint ms n =
    let old = split_self ms.old n.cfg.id in
    let new = split_self ms.new n.cfg.id in
    record (with_membership (peer_union old.0 new.0 n.cfg.id) old.2
      (note_witness ms.old (record n { policy = record n.policy { latest = ms.commit_quorum } }))) {
        joint_old = some old.0;
        joint_new = new.0;
        joint_self_voter_old = old.2;
        joint_include_self = new.1;
        joint_self_voter = new.2;
      }

unfoldable pub restore_membership : MembershipState → Node → Node
unfolding restore_simple restore_joint
restore_membership ms n = if ms.joint then restore_joint ms n else restore_simple ms n

-- `noteAppendedConfig`
unfoldable pub note_entry : LogEntry → Node → Node
note_entry e n =
    if not (is_config_entry e.command) then n else elim (decode_commit_quorum_entry e.command) [
      | some quorum ↦ record n { policy = record n.policy { latest = quorum } }
      | none ↦ elim (decode_client_table_cap_entry e.command) [
        | some cap ↦ record n { client_table_cap_replicated = true }
        | none ↦ n
      ]
    ]

unfoldable pub note_appended_config : List LogEntry → Node → Node
unfolding note_entry
note_appended_config [] n = n
note_appended_config (e ∷ es) n = note_appended_config es (note_entry e n)

-- What `adoptConfigEntry` does to a list of peers.
unfoldable pub find_peer : NodeId → List PeerConfig → Option PeerConfig
find_peer id [] = none
find_peer id (p ∷ ps) = if id_eq p.id id then some p else find_peer id ps

unfoldable pub set_role : NodeId → Bool → List PeerConfig → List PeerConfig
set_role id voter [] = []
set_role id voter (p ∷ ps) =
    let rest = set_role id voter ps in
    if id_eq p.id id then record p { voter = voter } ∷ ps else p ∷ rest

unfoldable pub remove_peer : NodeId → List PeerConfig → List PeerConfig
remove_peer id [] = []
remove_peer id (p ∷ ps) = let rest = remove_peer id ps in if id_eq p.id id then ps else p ∷ rest

abbrev with_peers : List PeerConfig → Node → Node
with_peers peers n = record n { cfg = record n.cfg { peers = peers } }

-- The commit rule again, where the leader's voters have changed.
abbrev advance_if_leader : Node → Node
advance_if_leader n = if is_leader n.state then maybe_advance_commit n else n

-- A peer that the leader begins to track: the pump and the progress.
unfoldable pub track_peer : NodeId → Node → Node
unfolding emit
track_peer id n =
    let tracked = record n {
      next_index = update n.next_index id (add64 (last_log_index n.log) 1);
      match_index = update n.match_index id 0;
    } in
    if n.pumps_running then emit (Effect.start_heartbeat_pump id) tracked else tracked

-- A peer that joins again before it was told that it was removed goes on being tracked.
unfoldable pub welcome_peer : NodeId → Node → Node
unfolding departing_index without_departing track_peer
welcome_peer id n = if not (is_leader n.state) then n else elim (departing_index id n.departing) [
  | some index ↦ record n { departing = without_departing id n.departing }
  | none ↦ track_peer id n
]

-- `configOpAdd` of `adoptConfigEntry`
unfoldable pub adopt_add : PeerConfig → Node → Node
unfolding find_peer set_role welcome_peer
adopt_add peer n =
    if id_eq peer.id n.cfg.id
    then record n { membership_witness = peer.witness; cfg = record n.cfg { voter = peer.voter } }
    else elim (find_peer peer.id n.cfg.peers) [
      | none ↦ welcome_peer peer.id (with_peers (n.cfg.peers ++ peer ∷ []) n)
      | some p ↦
          if (if p.voter then peer.voter else not peer.voter)
          then n
          else advance_if_leader (with_peers (set_role peer.id peer.voter n.cfg.peers) n)
    ]

unfoldable pub track_new : List PeerConfig → Node → Node
unfolding track_peer
track_new [] n = n
track_new (p ∷ ps) n = track_new ps (if n.next_index p.id == 0 then track_peer p.id n else n)

-- `configOpJoint` of `adoptConfigEntry`
unfoldable pub adopt_joint : List PeerConfig → List PeerConfig → Node → Node
unfolding restore_membership with_self track_new
adopt_joint old new n =
    let joint =
      restore_membership
        (record {
          joint = true;
          members = [];
          old = with_self old n.cfg.id true n.cfg.voter n.cfg.witness;
          new = new;
          commit_quorum = pos 0;
        })
        n in
    if is_leader joint.state then track_new joint.cfg.peers joint else joint

module _ (disk : Disk) where
  -- `configOpRemove` of `adoptConfigEntry`
  unfoldable pub adopt_remove : NodeId → ℕ → Node → Node
  unfolding remove_peer begin_departure
  adopt_remove id index n =
      let left = with_peers (remove_peer id n.cfg.peers) n in
      if id_eq id n.cfg.id
      then record n { cfg = record n.cfg { voter = false } }
      else if is_leader n.state
      then maybe_advance_commit (begin_departure disk id index left)
      else left

  -- The peers of a list that are no members any more, as those of `configOpFinalise`.
  unfoldable pub depart_missing : List PeerConfig → ℕ → Node → Node
  unfolding is_peer begin_departure
  depart_missing [] index n = n
  depart_missing (p ∷ ps) index n =
      depart_missing ps index
        (if is_peer p.id n.cfg.peers then n else begin_departure disk p.id index n)

  -- `configOpFinalise` of `adoptConfigEntry`
  unfoldable pub adopt_finalise : List PeerConfig → ℕ → Node → Node
  unfolding restore_membership depart_missing
  adopt_finalise members index n =
      let final =
        restore_membership
          (record { joint = false; members = members; old = []; new = []; commit_quorum = pos 0 })
          n in
      if is_leader final.state
      then maybe_advance_commit (depart_missing n.cfg.peers index final)
      else final

  -- The cases of `adoptConfigEntry`, by the opcode.
  unfoldable pub adopt_op : ℕ → PeerConfig → List ℕ → ℕ → Node → Node
  unfolding adopt_add adopt_remove adopt_joint adopt_finalise
  adopt_op op peer cmd index n =
      if op == op_client_table_cap
      then record n { client_table_cap_replicated = true }
      else if op == op_commit_quorum
      then elim (decode_commit_quorum_entry cmd) [
        | none ↦ n
        | some quorum ↦
            advance_if_leader (record n { policy = record n.policy { latest = quorum } })
      ]
      else if op == op_add
      then adopt_add peer n
      else if op == op_remove
      then adopt_remove peer.id index n
      else if op == op_joint
      then elim (decode_joint_config_entry cmd) [
        | none ↦ n
        | some (old, new) ↦ adopt_joint old new n
      ]
      else if op == op_finalise
      then elim (decode_finalise_config_entry cmd) [
        | none ↦ n
        | some members ↦ adopt_finalise members index n
      ]
      else n

  -- `adoptConfigEntry`
  unfoldable pub adopt_config_entry : List ℕ → ℕ → Node → Node
  unfolding adopt_op
  adopt_config_entry cmd index n = elim (decode_config_entry cmd) [
    | none ↦ n
    | some (op, peer) ↦ adopt_op op peer cmd index (record n { config_index = index })
  ]
